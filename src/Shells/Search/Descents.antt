-- ===== src/Shells/Search/Descents.antt =====
-- The way down through the levels, and the walk back over the links equal to the last.
use mathlib.Core.List.{append_assoc}
use osdb_dcdb.Prelude.{
  ℕ, zero, suc, ◌+◌, ◌<◌, ◌≤◌, ◌≡◌, refl, ap, ◌∙◌, true, ◌⊎◌, inl, inr, some, List, [], ◌∷◌, ◌++◌,
  arith, ◌==◌, ==_self, Bool-cases, is_eq, is_gt, length, length-append, last, last-append, has,
  has-append,
}
use osdb_dcdb.Links.Chain.{IsList}
use osdb_dcdb.Links.Order.{IsOrder, Ascending}
use osdb_dcdb.Links.Places.{around, no_sentinel, next_head}
use osdb_dcdb.Shells.{Shell, compared, counted, node_level}
use osdb_dcdb.Shells.Restructure.Forward.{pos, pos-bound, places, Forward, AllForward}
use osdb_dcdb.Shells.Search.{Found, descend_level, descend, back_over_equal}
use osdb_dcdb.Shells.Search.Plain.{first_equal}
use osdb_dcdb.Shells.Search.Scans.{at_count, first_equal-behind, Ascending-behind}

-- The end is a node of the sequence, which is the one at the start or stands on a lesser link.
abbrev pub Reaches : ℕ → Shell → List ℕ → ℕ → Found → Type 0
Reaches lnk sh ps n r =
    (p : ℕ) × (m : ℕ) × (r ≡ some (p, at_count m sh))
    × (has p ps ≡ true)
    × ((p ≡ n) ⊎ (is_gt (compared sh lnk (sh.nodes.here p)) ≡ true))

descend_level-Reaches :
    (lnk fuel i n : ℕ) (sh : Shell) (ps : List ℕ)
    → Forward sh.tail ps (sh.nodes.level i)
    → has n ps ≡ true
    → length (places sh.tail ps) < fuel + pos n (places sh.tail ps)
    → Reaches lnk sh ps n (descend_level fuel lnk i n sh)
unfolding descend_level
descend_level-Reaches lnk zero i n sh ps fw h enough = absurd (
    omega (arith, pos-bound n (places sh.tail ps) (ground (arith, has-append n ps (sh.tail ∷ [])))))
descend_level-Reaches lnk (suc fuel) i n sh ps fw h enough =
    let p = sh.nodes.level i n in
    let (there, later) = fw n h in
    elim (Bool-cases (p == sh.tail)) [
      | inl e ↦ (n, sh.num_compares, rw e, h, inl refl)
      | inr e ↦ elim (Bool-cases (is_gt (compared sh lnk (sh.nodes.here p)))) [
        | inl gt ↦
            let inside : has p ps ≡ true = ground (arith, has-append p ps (sh.tail ∷ [])) in
            let (q, m, run, h', less) =
              descend_level-Reaches lnk fuel i p (counted sh) ps fw inside
                (omega (arith, later, enough)) in
            (q, m, rw (e, gt) run, h', inr (elim less [ inl s ↦ rw s gt | inr g ↦ g ]))
        | inr le ↦ (n, sh.num_compares + 1, rw (e, le), h, inl refl)
      ]
    ]

pub descend-Reaches :
    (lnk fuel k n : ℕ) (sh : Shell) (ps : List ℕ)
    → AllForward sh ps sh.nodes.level
    → has n ps ≡ true
    → k ≤ node_level
    → length (places sh.tail ps) < fuel
    → Reaches lnk sh ps n (descend fuel k lnk n sh)
unfolding descend
descend-Reaches lnk fuel zero n sh ps all h low enough = (n, sh.num_compares, refl, h, inl refl)
descend-Reaches lnk fuel (suc k) n sh ps all h low enough =
    let (p, m, run, there, less) =
      descend_level-Reaches lnk fuel k n sh ps (all k (omega (arith, low))) h
        (omega (arith, enough)) in
    let (q, m', run', there', less') =
      descend-Reaches lnk fuel k p (at_count m sh) ps all there (omega (arith, low)) enough in
    (
      q,
      m',
      rw (run, descend) run',
      there',
      elim less' [
        | inl s ↦ elim less [ inl t ↦ inl (s ∙ t) | inr g ↦ inr (rw s g) ]
        | inr g ↦ inr g
      ],
    )

pub snoc-cases : (us : List ℕ) → (us ≡ []) ⊎ ((vs : List ℕ) × (u : ℕ) × (us ≡ vs ++ u ∷ []))
snoc-cases [] = inl refl
snoc-cases (u ∷ us) = elim (snoc-cases us) [
  | inl e ↦ inr ([], u, ap (λ k. u ∷ k) e)
  | inr (vs, w, e) ↦ inr (u ∷ vs, w, ap (λ k. u ∷ k) e)
]

-- The walk back stops before the first of the equal links.
pub back_over_equal-first :
    (lnk fuel : ℕ) (sh : Shell) (us : List ℕ) (v : ℕ) (vs : List ℕ)
    → IsOrder sh.compare
    → IsList sh.store sh.lh (us ++ v ∷ vs)
    → Ascending sh.compare sh.store.data_of (us ++ v ∷ vs)
    → is_eq (compared sh lnk v) ≡ true
    → length us < fuel
    → (l : ℕ) × (m : ℕ) × (back_over_equal fuel lnk (last sh.lh.head us) sh
        ≡ some (l, at_count m sh))
      × (sh.store.next l
          ≡ first_equal sh.compare sh.store.data_of (sh.store.data_of lnk) (us ++ v ∷ vs))
unfolding back_over_equal first_equal
back_over_equal-first lnk zero sh us v vs o is a e h = absurd (omega arith)
back_over_equal-first lnk (suc fuel) sh us v vs o is a e h = elim (snoc-cases us) [
  | inl n ↦
      let here : sh.store.next sh.lh.head ≡ v = rw n at (next_head (us ++ v ∷ vs) is) in
      (sh.lh.head, sh.num_compares, rw (n, ==_self), rw (here, n, e))
  | inr (ws, u, n) ↦
      let is' : IsList sh.store sh.lh (ws ++ u ∷ (v ∷ vs)) =
        rw (append_assoc ws (u ∷ []) (v ∷ vs)) at (rw n at is) in
      let a' : Ascending sh.compare sh.store.data_of (ws ++ u ∷ (v ∷ vs)) =
        rw (append_assoc ws (u ∷ []) (v ∷ vs)) at (rw n at a) in
      let here : last sh.lh.head us ≡ u = rw (n, last-append) in
      let seq : us ++ v ∷ vs ≡ ws ++ u ∷ (v ∷ vs) = rw n (append_assoc ws (u ∷ []) (v ∷ vs)) in
      let other = (no_sentinel u ws (v ∷ vs) is').0 in
      let (before, after) = around u ws (v ∷ vs) is' in
      elim (Bool-cases (is_eq (compared sh lnk u))) [
        | inl f ↦
            let size : length us ≡ length (ws ++ u ∷ []) = ap length n in
            let (l, m, run, next) =
              back_over_equal-first lnk fuel (counted sh) ws u (v ∷ vs) o is' a' f
                (omega (arith, h, size, length-append ws (u ∷ []))) in
            (l, m, rw (here, other, f, before) run, rw seq next)
        | inr f ↦
            let dat = sh.store.data_of in
            let d = dat lnk in
            let under = (Ascending-behind sh.compare dat ws (u ∷ (v ∷ vs)) a').0.0 in
            let gt : is_gt (compared sh lnk u) ≡ true =
              ground
                (arith, under, o.le_trans (dat u) (dat v) d, o.flip d (dat v), o.flip d (dat u)) in
            let skip = first_equal-behind sh.compare dat o d ws u (v ∷ vs) gt a' in
            (u, sh.num_compares + 1, rw (here, other, f), rw (seq, skip, f, e) after)
      ]
]

-- The same from the last link, which is equal.
pub back_over_equal-last :
    (lnk fuel : ℕ) (sh : Shell) (us : List ℕ) (y : ℕ)
    → IsOrder sh.compare
    → IsList sh.store sh.lh (us ++ y ∷ [])
    → Ascending sh.compare sh.store.data_of (us ++ y ∷ [])
    → is_eq (compared sh lnk y) ≡ true
    → suc (length us) < fuel
    → (l : ℕ) × (m : ℕ) × (back_over_equal fuel lnk y sh ≡ some (l, at_count m sh))
      × (sh.store.next l
          ≡ first_equal sh.compare sh.store.data_of (sh.store.data_of lnk) (us ++ y ∷ []))
unfolding back_over_equal
back_over_equal-last lnk zero sh us y o is a e h = absurd (omega arith)
back_over_equal-last lnk (suc fuel) sh us y o is a e h =
    let other = (no_sentinel y us [] is).0 in
    let before = (around y us [] is).0 in
    let (l, m, run, next) =
      back_over_equal-first lnk fuel (counted sh) us y [] o is a e (omega arith) in
    (l, m, rw (other, e, before) run, next)
