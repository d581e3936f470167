-- ===== src/Links/Clear.antt =====
-- `clearList`: every link and its data are freed once, and the list is empty.
use osdb_dcdb.Prelude.{
  ℕ, zero, suc, ◌<◌, ◌≡◌, ◌++◌, refl, ◌∙◌, ap, false, List, [], ◌∷◌, arith, length, some, inl, inr,
  ◌⊎◌, has, ◌==◌, ==_self,
}
use osdb_dcdb.Links.{
  Store, ListHeader, ListType, ok, null, free, remove_link, clear_loop, clear_list, cleared,
}
use osdb_dcdb.Links.Chain.{IsList, IsList-freed}
use osdb_dcdb.Links.Depart.{TakesCurrent, resting, remove_link-current}
use osdb_dcdb.Links.Ends.{remove_link-queued, remove_link-nil}
use osdb_dcdb.Links.Frame.{SameAt-trans}
use osdb_dcdb.Links.Insert.{SameAt}
use osdb_dcdb.Links.Places.{follower, standing_at, standing_at-IsList, no_sentinel}
use osdb_dcdb.Links.Remove.{Removed}

-- The list types that give their links up from the front, once the header stands there.
abbrev pub FromFront : ListType → Type 0
FromFront t = TakesCurrent t ⊎ (t ≡ ListType.queued)

-- What is freed when the links go in this order: of each first the data.
unfoldable pub drained : (ℕ → ℕ) → List ℕ → List ℕ → List ℕ
drained dat [] done = done
drained dat (x ∷ xs) done = drained dat xs (x ∷ dat x ∷ done)

remove_front :
    {s : Store} {lh : ListHeader} (x : ℕ) (ys : List ℕ)
    → IsList s lh (x ∷ ys)
    → FromFront lh.type
    → lh.current ≡ x
    → Removed x [] ys (resting lh.head [] ys (follower ys lh.tail)) lh s (remove_link lh s)
remove_front x ys is (inl t) c = remove_link-current x [] ys is t (inl c)
remove_front x ys is (inr t) c = remove_link-queued x ys is t (ground arith)

-- The end of a run over the links `xs`: the list is empty, and they have been freed in this order.
pub record Cleared (xs : List ℕ) (lh : ListHeader) (s : Store) (r : ListHeader × Store)
    : Type 0 where
  pub empty : IsList r.1 r.0 []
  pub freed : r.1.freed ≡ drained s.data_of xs s.freed
  pub same_data : r.1.data_of ≡ s.data_of
  pub same_type : r.0.type ≡ lh.type
  pub same_head : r.0.head ≡ lh.head
  pub same_tail : r.0.tail ≡ lh.tail
  pub elsewhere : (a : ℕ) → has a (lh.head ∷ xs ++ lh.tail ∷ []) ≡ false → SameAt s r.1 a

at_follower :
    (c h t t' : ℕ) (ys : List ℕ)
    → c ≡ resting h [] ys (follower ys t)
    → t' ≡ t
    → (ys ≡ []) ⊎ (c ≡ follower ys t')
at_follower c h t t' [] e same = inl refl
at_follower c h t t' (y ∷ ys) e same = inr e

clear_loop-Cleared :
    (fuel : ℕ) (s : Store) (lh : ListHeader) (xs : List ℕ)
    → IsList s lh xs
    → FromFront lh.type
    → has null xs ≡ false
    → (xs ≡ []) ⊎ (lh.current ≡ follower xs lh.tail)
    → length xs < fuel
    → (r : ListHeader × Store) × (clear_loop fuel lh s ≡ some r) × Cleared xs lh s r
unfolding clear_loop drained
clear_loop-Cleared zero s lh xs is front real at h = absurd (omega arith)
clear_loop-Cleared (suc fuel) s lh [] is front real at h = (
  (lh, s),
  rw (remove_link-nil is),
  record {
    empty = is;
    freed = refl;
    same_data = refl;
    same_type = refl;
    same_head = refl;
    same_tail = refl;
    elsewhere = λ a h. record { next = refl; prev = refl; data_of = refl };
  },
)
clear_loop-Cleared (suc fuel) s lh (x ∷ ys) is front real at h =
    let c : lh.current ≡ x = ground arith in
    let removed = remove_front x ys is front c in
    let l = (remove_link lh s).1 in
    let t = (remove_link lh s).2 in
    let real_x : (x == null) ≡ false = ground arith in
    let t' = free x (free (t.data_of x) t) in
    let (r, run, rest) =
      clear_loop-Cleared fuel t' l ys (IsList-freed (x ∷ t.data_of x ∷ t.freed) ys removed.holds)
        (rw removed.same_type front) (ground arith)
        (at_follower l.current lh.head lh.tail l.tail ys removed.current removed.same_tail)
        (omega arith) in
    (
      r,
      rw (removed.returns, real_x) run,
      record {
        empty = rest.empty;
        freed = rest.freed ∙ rw (removed.same_data, removed.same_freed);
        same_data = rest.same_data ∙ removed.same_data;
        same_type = rest.same_type ∙ removed.same_type;
        same_head = rest.same_head ∙ removed.same_head;
        same_tail = rest.same_tail ∙ removed.same_tail;
        elsewhere = λ a h.
            let gone = removed.elsewhere a h in
            SameAt-trans a (record { next = gone.next; prev = gone.prev; data_of = gone.data_of })
              (rest.elsewhere a (rw (removed.same_head, removed.same_tail) (ground arith)));
      },
    )

-- An UNSORTED, SORTED, SLOWSORTED or QUEUED list with no NULL link is emptied, with fuel above its
-- length, and each link is freed once, with its data before it; whatever the header stood on.
pub clear_list-Cleared :
    (fuel : ℕ) (s : Store) (lh : ListHeader) (xs : List ℕ)
    → IsList s lh xs
    → FromFront lh.type
    → has null xs ≡ false
    → length xs < fuel
    → (r : ListHeader × Store) × (clear_list fuel (some lh) s ≡ some (ok, some r.0, r.1))
      × Cleared xs lh s r
unfolding clear_list
clear_list-Cleared fuel s lh [] is front real h = (
  (lh, s),
  rw (is.chain.0, is.chain.1, ==_self lh.tail, ==_self lh.head),
  record {
    empty = is;
    freed = unfold drained in refl;
    same_data = refl;
    same_type = refl;
    same_head = refl;
    same_tail = refl;
    elsewhere = λ a h. record { next = refl; prev = refl; data_of = refl };
  },
)
clear_list-Cleared fuel s lh (x ∷ ys) is front real h =
    let more = (no_sentinel x [] ys is).1 in
    let (r, run, done) =
      clear_loop-Cleared fuel s (standing_at lh (s.next lh.head)) (x ∷ ys)
        (standing_at-IsList (s.next lh.head) is) front real (inr is.chain.0) h in
    (
      r,
      rw (is.chain.0, more) (ap cleared (rw is.chain.0 at run)),
      record {
        empty = done.empty;
        freed = done.freed;
        same_data = done.same_data;
        same_type = done.same_type;
        same_head = done.same_head;
        same_tail = done.same_tail;
        elsewhere = done.elsewhere;
      },
    )
