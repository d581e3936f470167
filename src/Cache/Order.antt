-- ===== src/Cache/Order.antt =====
-- lib/idxblk.c: the list `used` is in order of the last use, and its first block is the next to go.
use osdb_dcdb.Prelude.{
  ℕ, ◌<◌, ◌≡◌, refl, ap, sym, ◌∙◌, true, Option, some, none, List, [], ◌∷◌, arith, length, has,
  Distinct,
}
use osdb_dcdb.Cache.{DbIndex, Found, get_index_block}
use osdb_dcdb.Cache.Touch.{
  Uses, touch, Distinct-touch, has-touch, length-touch, get_index_block-Touched,
}

abbrev pub touch_all : List ℕ → List ℕ → List ℕ
touch_all [] order = order
touch_all (n ∷ ns) order = touch_all ns (touch n order)

-- Calls of `getIndexBlock` one after the other.
abbrev pub Served : Type 0
Served = Option (List ℕ × DbIndex)

abbrev served : ℕ → Served → Served
served p none = none
served p (some (ps, idx)) = some (p ∷ ps, idx)

abbrev serve : (DbIndex → Served) → Found → Served
serve later none = none
serve later (some (p, idx)) = served p (later idx)

unfoldable pub get_index_blocks : ℕ → DbIndex → List ℕ → Served
get_index_blocks fuel idx [] = some ([], idx)
get_index_blocks fuel idx (n ∷ ns) =
    serve (λ r. get_index_blocks fuel r ns) (get_index_block fuel idx n)

abbrev pub AllIn : List ℕ → List ℕ → Type 0
AllIn order [] = Unit
AllIn order (n ∷ ns) = (has n order ≡ true) × AllIn order ns

AllIn-touch : (n : ℕ) (order ns : List ℕ) → AllIn order ns → AllIn (touch n order) ns
AllIn-touch n order [] a = tt
AllIn-touch n order (m ∷ ms) a = (has-touch m n order a.0, AllIn-touch n order ms a.1)

-- The blocks have these numbers.
abbrev pub HaveNumbers : DbIndex → List ℕ → List ℕ → Type 0
HaveNumbers idx [] [] = Unit
HaveNumbers idx (p ∷ ps) (n ∷ ns) = ((idx.blocks p).block_number ≡ n) × HaveNumbers idx ps ns
HaveNumbers idx _ _ = ⊥

HaveNumbers-same :
    (idx r : DbIndex) (ps ns : List ℕ)
    → r.blocks ≡ idx.blocks
    → HaveNumbers r ps ns
    → HaveNumbers idx ps ns
HaveNumbers-same idx r [] [] e h = tt
HaveNumbers-same idx r [] (n ∷ ns) e h = absurd h
HaveNumbers-same idx r (p ∷ ps) [] e h = absurd h
HaveNumbers-same idx r (p ∷ ps) (n ∷ ns) e h =
    (ap (λ b. (b p).block_number) (sym e) ∙ h.0, HaveNumbers-same idx r ps ns e h.1)

-- The cache keeps its blocks in the order of their last use: calls of `getIndexBlock` for blocks
-- that are in memory, each in a link of its own, return blocks of the numbers that were asked for,
-- read and write nothing, and move each number to the end of the order, as it is used.
pub get_index_blocks-touch_all :
    (fuel : ℕ) (idx : DbIndex) (ns order : List ℕ)
    → Uses idx order
    → Distinct order
    → AllIn order ns
    → length order < fuel
    → (ps : List ℕ) × (r : DbIndex) × (get_index_blocks fuel idx ns ≡ some (ps, r))
      × Uses r (touch_all ns order)
      × HaveNumbers idx ps ns
      × (r.blocks ≡ idx.blocks)
      × (r.file ≡ idx.file)
unfolding get_index_blocks
get_index_blocks-touch_all fuel idx [] order u d a enough = ([], idx, refl, u, tt, refl, refl)
get_index_blocks-touch_all fuel idx (n ∷ ns) order u d a enough =
    let (p, r, run, t) = get_index_block-Touched fuel idx n order u d a.0 enough in
    let (ps, q, run', u'', have, same', file') =
      get_index_blocks-touch_all fuel r ns (touch n order) t.uses (Distinct-touch n order d)
        (AllIn-touch n order ns a.1) (omega (arith, length-touch n order a.0, enough)) in
    let same : r.blocks ≡ idx.blocks = ap (λ i. i.blocks) t.same_rest in
    (
      p ∷ ps,
      q,
      rw run (rw run' refl),
      u'',
      (t.number, HaveNumbers-same idx r ps ns same have),
      same' ∙ same,
      file' ∙ ap (λ i. i.file) t.same_rest,
    )
