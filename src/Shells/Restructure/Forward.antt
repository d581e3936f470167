-- ===== src/Shells/Restructure/Forward.antt =====
-- Pointers that lead forward in the chain of nodes, as `next` and every level do, and the loops of
-- step 3 of `restructureShellNodes`, which end for that reason.
use osdb_dcdb.Prelude.{
  ℕ, zero, suc, ◌+◌, ◌-◌, ◌<◌, ◌≤◌, ◌≡◌, refl, true, false, ◌&&◌, Option, some, List, [], ◌∷◌, ◌++◌,
  arith, ◌==◌, ==_iff, Bool-cases, ltb, if◌then◌else◌, length, has, has-append, inl, inr,
}
use osdb_dcdb.Shells.{Shell, node_level, restruct, update_level}
use osdb_dcdb.Shells.Restructure.{advance, build_level, build_levels, first_level}

-- The place of an item in a sequence, and the length if it is not there.
abbrev pub pos : ℕ → List ℕ → ℕ
pos a [] = 0
pos a (x ∷ xs) = if a == x then 0 else suc (pos a xs)

pub pos-bound : (a : ℕ) (xs : List ℕ) → has a xs ≡ true → pos a xs < length xs
pos-bound a [] h = ground arith
pos-bound a (x ∷ xs) h = ground (arith, pos-bound a xs)

-- The sequence of the nodes with the tail behind them, and pointers from its nodes into it.
module _ (tail : ℕ) (ps : List ℕ) where
  abbrev pub places : List ℕ
  places = ps ++ tail ∷ []

  abbrev pub Forward : (ℕ → ℕ) → Type 0
  Forward f =
      (n : ℕ) → has n ps ≡ true → (has (f n) places ≡ true) × pos n places < pos (f n) places

  inside : (n : ℕ) → has n places ≡ true → (n == tail) ≡ false → has n ps ≡ true
  inside n h ne = ground (arith, has-append n ps (tail ∷ []))

  -- Nine steps forward stay in the sequence and do not lead back.
  advance-Forward :
      (f : ℕ → ℕ) (k n : ℕ)
      → Forward f
      → has n places ≡ true
      → (has (advance f tail k n) places ≡ true) × pos n places ≤ pos (advance f tail k n) places
  unfolding advance
  advance-Forward f zero n fw h = (h, omega arith)
  advance-Forward f (suc k) n fw h = elim (Bool-cases (n == tail)) [
    | inl e ↦ rw e (h, omega arith)
    | inr e ↦
        let (there, later) = fw n (inside n h e) in
        let (h', after) = advance-Forward f k (f n) fw there in
        rw e (h', omega (arith, later, after))
  ]

  advance-later :
      (f : ℕ → ℕ) (k n : ℕ)
      → Forward f
      → has n places ≡ true
      → (n == tail) ≡ false
      → pos n places < pos (advance f tail (suc k) n) places
  unfolding advance
  advance-later f k n fw h e =
      let (there, later) = fw n (inside n h e) in
      let (_, after) = advance-Forward f k (f n) fw there in rw e (omega (arith, later, after))

  -- An entry that leads forward keeps the others.
  Forward-set :
      (f : ℕ → ℕ → ℕ) (i p q : ℕ)
      → ((j : ℕ) → j < node_level → Forward (f j))
      → has q places ≡ true
      → pos p places < pos q places
      → (j : ℕ) → j < node_level
      → Forward (update_level f i p q j)
  Forward-set f i p q fw there later j below n h = elim (Bool-cases (j == i && n == p)) [
    | inl e ↦ let same : n ≡ p = ground (arith, ==_iff n p) in rw e (there, rw same later)
    | inr e ↦ rw e (fw j below n h)
  ]

abbrev pub with_levels : (ℕ → ℕ → ℕ) → Shell → Shell
with_levels f sh = record sh { nodes = record sh.nodes { level = f } }

module _ (sh : Shell) (ps : List ℕ) where
  abbrev pub AllForward : (ℕ → ℕ → ℕ) → Type 0
  AllForward f = (j : ℕ) → j < node_level → Forward sh.tail ps (f j)

  -- The loop ends, has changed nothing but the levels, and they lead forward.
  abbrev pub LevelEnds : Option (ℕ × Shell) → Type 0
  LevelEnds r = (c : ℕ) × (g : ℕ → ℕ → ℕ) × (r ≡ some (c, with_levels g sh)) × AllForward g

  build_level-ends :
      (fuel i : ℕ) (next : ℕ → ℕ) (node old counter : ℕ) (f : ℕ → ℕ → ℕ)
      → Forward sh.tail ps next
      → AllForward f
      → has node (places sh.tail ps) ≡ true
      → pos old (places sh.tail ps) ≤ pos node (places sh.tail ps)
      → length (places sh.tail ps) < fuel + pos node (places sh.tail ps)
      → LevelEnds (build_level fuel i next node old counter (with_levels f sh))
  unfolding build_level
  build_level-ends zero i next node old counter f fw all h later enough =
      absurd (omega (arith, pos-bound node (places sh.tail ps) h))
  build_level-ends (suc fuel) i next node old counter f fw all h later enough =
      let node' = advance next sh.tail restruct node in
      let (h', _) = advance-Forward sh.tail ps next restruct node fw h in
      elim (Bool-cases (node == sh.tail)) [
        | inl e ↦ (counter, f, rw e, all)
        | inr e ↦
            let on = advance-later sh.tail ps next (restruct - 1) node fw h e in
            let all' : AllForward (update_level f i old node') =
              Forward-set sh.tail ps f i old node' all h' (omega (arith, later, on)) in
            let (c, g, run, ends) =
              build_level-ends fuel i next node' node' (counter + 1) (update_level f i old node') fw
                all' h' (omega arith) (omega (arith, on)) in
            elim (Bool-cases (node' == sh.tail)) [
              | inl d ↦ (counter, f, rw (e, d), all)
              | inr d ↦ (c, g, rw (e, d) run, ends)
            ]
      ]

  abbrev pub LevelsEnd : Option Shell → Type 0
  LevelsEnd r = (g : ℕ → ℕ → ℕ) × (r ≡ some (with_levels g sh)) × AllForward g

  module _ (fuel : ℕ) (first : has (sh.nodes.next sh.head) (places sh.tail ps) ≡ true)
      (enough : length (places sh.tail ps) < fuel) where
    pub build_levels-end :
        (k i entries : ℕ) (f : ℕ → ℕ → ℕ)
        → AllForward f
        → i + k < node_level
        → LevelsEnd (build_levels fuel k i entries (with_levels f sh))
    unfolding build_levels
    build_levels-end zero i entries f all low = (f, refl, all)
    build_levels-end (suc k) i entries f all low =
        let start = sh.nodes.next sh.head in
        let (c, g, run, all') =
          build_level-ends fuel (i + 1) (f i) start start 0 f (all i (omega (arith, low))) all first
            (omega arith) (omega arith) in
        elim (Bool-cases (ltb restruct entries)) [
          | inl e ↦
              let (h, rest, ends) = build_levels-end k (i + 1) c g all' (omega (arith, low)) in
              (h, rw (e, run) rest, ends)
          | inr e ↦
              let (h, rest, ends) = build_levels-end k (i + 1) 0 f all (omega (arith, low)) in
              (h, rw e rest, ends)
        ]

    -- The first level, from `next`.
    pub first_level-ends :
        (f : ℕ → ℕ → ℕ)
        → Forward sh.tail ps sh.nodes.next
        → AllForward f
        → LevelEnds (first_level fuel (with_levels f sh))
    unfolding first_level
    first_level-ends f fw all =
        let start = sh.nodes.next sh.head in
        let (c, g, run, ends) =
          build_level-ends fuel 0 sh.nodes.next start start 0 f fw all first (omega arith)
            (omega arith) in
        elim (Bool-cases (ltb restruct sh.num_nodes)) [
          | inl e ↦ (c, g, rw e run, ends)
          | inr e ↦ (0, f, rw e, all)
        ]
