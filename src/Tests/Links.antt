-- ===== src/Tests/Links.antt =====
-- Lists of sort.c over a small store: sentinels 1 and 2, links 10, 11 and 12, a spare link 13.
use osdb_dcdb.Prelude.{
  ℕ, ◌*◌, ◌≡◌, refl, List, [], ◌∷◌, ◌++◌, true, false, arith, Option, some, none, ◌==◌,
  if◌then◌else◌, inl, inr,
}
use Prim.Native.Nat.{compare}
use osdb_dcdb.Links.{
  Status, Store, ListHeader, ListType, ListErrorType, ok, insert_link_here, insert_link,
  remove_link, clear_list,
}
use osdb_dcdb.Links.Registry.{Registry, init_list, del_list, init_list-del_list}
use osdb_dcdb.Links.Chain.{IsList}
use osdb_dcdb.Links.Insert.{Inserted, insert_link_here-Inserted}
use osdb_dcdb.Links.Laws.{InsertsBetween, CanSort, insert_link-slow_sorted, insert_link-sorted}
use osdb_dcdb.Links.Order.{IsOrder, Ascending}
use osdb_dcdb.Links.Remove.{Removed}
use osdb_dcdb.Links.Depart.{remove_link-current}
use osdb_dcdb.Links.Ends.{remove_link-queued, remove_link-stacked}
use osdb_dcdb.Links.Clear.{Cleared, clear_list-Cleared}

-- 1, 10, 11, 12, 2 in this order; the data of a link is ten times its address.
abbrev pub store : Store
store = record {
  next = λ a.
      if a == 1
      then 10
      else if a == 10
      then 11
      else if a == 11
      then 12
      else if a == 12
      then 2
      else 0;
  prev = λ a.
      if a == 2
      then 12
      else if a == 12
      then 11
      else if a == 11
      then 10
      else if a == 10
      then 1
      else 0;
  data_of = λ a.
      if a == 13
      then 115
      else if a == 14
      then 100
      else if a == 15
      then 120
      else if a == 1
      then 0
      else if a == 2
      then 0
      else 10 * a;
  freed = [];
}

abbrev pub links : List ℕ
links = 10 ∷ 11 ∷ 12 ∷ []

abbrev pub header : ListType → ℕ → ListHeader
header t c = record {
  list_error = ListErrorType.no_error;
  head = 1;
  tail = 2;
  current = c;
  type = t;
  number = 3;
  compare = some compare;
}

pub holds : (t : ListType) (c : ℕ) → IsList store (header t c) links
holds t c = record {
  chain = (refl, refl, (refl, refl, (refl, refl, (refl, refl, tt))));
  distinct = (refl, (refl, (refl, (refl, (refl, tt)))));
  counted = refl;
}

pub order : IsOrder compare
order = record { flip = λ a b. ground arith; le_trans = λ a b c h k. ground arith }

insert_link_here_example :
    Inserted 13
      (10 ∷ 11 ∷ [])
      (12 ∷ [])
      (header ListType.unsorted 11)
      store
      (insert_link_here (header ListType.unsorted 11) 13 store)
insert_link_here_example =
    insert_link_here-Inserted 13 (10 ∷ 11 ∷ []) (12 ∷ []) (holds ListType.unsorted 11) refl
      (inl refl)

can_sort : (t : ListType) → CanSort store (header t 1) compare 13 4 links
can_sort t = record {
  holds = holds t 1;
  compared = refl;
  order = order;
  ascending = ((refl, (refl, tt)), ((refl, tt), (tt, tt)));
  outside = refl;
  enough = omega arith;
}

insert_link-slow_sorted_example :
    InsertsBetween 13
      (10 ∷ 11 ∷ [])
      (12 ∷ [])
      (header ListType.slow_sorted 1)
      store
      (insert_link 4 (header ListType.slow_sorted 1) 13 store)
    × Ascending compare store.data_of (10 ∷ 11 ∷ 13 ∷ 12 ∷ [])
insert_link-slow_sorted_example =
    insert_link-slow_sorted store (header ListType.slow_sorted 1) 13 4 compare links
      (can_sort ListType.slow_sorted) refl

insert_link-sorted_example :
    (us : List ℕ) × (vs : List ℕ) × (us ++ vs ≡ links)
    × InsertsBetween 13 us vs
        (header ListType.sorted 1)
        store
        (insert_link 4 (header ListType.sorted 1) 13 store)
    × Ascending compare store.data_of (us ++ 13 ∷ vs)
insert_link-sorted_example =
    insert_link-sorted store (header ListType.sorted 1) 13 4 compare links
      (can_sort ListType.sorted) refl

remove_link-current_example :
    Removed 11
      (10 ∷ [])
      (12 ∷ [])
      12
      (header ListType.unsorted 11)
      store
      (remove_link (header ListType.unsorted 11) store)
remove_link-current_example =
    remove_link-current 11 (10 ∷ []) (12 ∷ []) (holds ListType.unsorted 11) tt (inl refl)

remove_link-queued_example :
    Removed 10 []
      (11 ∷ 12 ∷ [])
      11
      (header ListType.queued 12)
      store
      (remove_link (header ListType.queued 12) store)
remove_link-queued_example =
    remove_link-queued 10 (11 ∷ 12 ∷ []) (holds ListType.queued 12) refl refl

remove_link-stacked_example :
    Removed 12
      (10 ∷ 11 ∷ [])
      []
      11
      (header ListType.stacked 1)
      store
      (remove_link (header ListType.stacked 1) store)
remove_link-stacked_example =
    remove_link-stacked 12 (10 ∷ 11 ∷ []) (holds ListType.stacked 1) refl refl

clear_list-Cleared_example :
    (r : ListHeader × Store) × (clear_list 4 (some (header ListType.queued 12)) store
      ≡ some (ok, some r.0, r.1))
    × Cleared links (header ListType.queued 12) store r
clear_list-Cleared_example =
    clear_list-Cleared 4 store (header ListType.queued 12) links (holds ListType.queued 12)
      (inr refl) refl (omega arith)

-- The freed addresses of that run, the latest first.
abbrev freed_by : Option (Status × Option ListHeader × Store) → List ℕ
freed_by none = []
freed_by (some (_, _, s)) = s.freed

clear_list_run :
    freed_by (clear_list 4 (some (header ListType.queued 12)) store)
    ≡ 12 ∷ 120 ∷ 11 ∷ 110 ∷ 10 ∷ 100 ∷ []
unfolding clear_list remove_link
clear_list_run = refl

abbrev pub idle : Registry
idle = record {
  in_use = false;
  first = 0;
  last = 0;
  after = λ _. 0;
  before = λ _. 0;
  list_error = ListErrorType.no_error;
}

init_list-del_list_example :
    (lh : ListHeader) × (reg : Registry) × (s : Store) × (init_list ListType.queued none 20 21 22 23
        24 idle store
      ≡ (some lh, reg, s))
    × (lh.type ≡ ListType.queued)
    × (reg.in_use ≡ true)
    × IsList s lh []
    × ((del_list 20 lh reg s).0 ≡ ok)
    × ((del_list 20 lh reg s).1.in_use ≡ false)
    × ((del_list 20 lh reg s).2.freed ≡ 20 ∷ 22 ∷ 21 ∷ 24 ∷ 23 ∷ [])
init_list-del_list_example =
    init_list-del_list ListType.queued none 20 21 22 23 24 idle store (refl, (refl, (refl, tt)))
      refl refl refl
