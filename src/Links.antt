-- ===== src/Links.antt =====
-- lib/sort.c, the list section, with the types of include/sort.h: doubly linked lists between two
-- sentinels. A `Link` is an address, and the store maps addresses to the three fields; several
-- lists share one store. A list header is a value, which an operation returns changed.
-- `void *data` is an opaque address, and a compare function is a function of two such addresses.
-- A walk over links takes fuel, one more than the links there can be; `none` means that it ran out.
pub mod Chain
pub mod Clear
pub mod Depart
pub mod Ends
pub mod Frame
pub mod Insert
pub mod Laws
pub mod Moves
pub mod Order
pub mod Places
pub mod Registry
pub mod Remove
pub mod Slow
pub mod Sorted
use osdb_dcdb.Prelude.{
  ℕ, zero, suc, ◌+◌, ◌-◌, ◌%◌, ◌^◌, Ordering, Bool, is_lt, is_eq, is_gt, not, ◌&&◌, ◌||◌, Option,
  none, some, List, ◌∷◌, ◌==◌, leb, if◌then◌else◌,
}

abbrev pub null : ℕ
null = 0

-- `_OK_` and `_ERROR_`
pub data Status : Type 0 where
  ok error : Status

pub data ListType : Type 0 where
  unsorted sorted slow_sorted stacked queued unknown_list_type : ListType

pub data ListErrorType : Type 0 where
  no_error not_implemented unknown no_mem invalid not_empty null_cmp param tree_corrupt unique file
        unspecified :
      ListErrorType

-- `freed` is what `free` was called on, the latest first.
pub record Store : Type 0 where
  pub next : ℕ → ℕ
  pub prev : ℕ → ℕ
  pub data_of : ℕ → ℕ
  pub freed : List ℕ

abbrev pub Compare : Type 0
Compare = ℕ → ℕ → Ordering

-- `number` is a size_t.
pub record ListHeader : Type 0 where
  pub list_error : ListErrorType
  pub head : ℕ
  pub tail : ℕ
  pub current : ℕ
  pub type : ListType
  pub number : ℕ
  pub compare : Option Compare

abbrev pub size_mod : ℕ
size_mod = 2 ^ 64

abbrev pub update : (ℕ → ℕ) → ℕ → ℕ → ℕ → ℕ
update f p v a = if a == p then v else f a

abbrev pub set_next : ℕ → ℕ → Store → Store
set_next p q s = record s { next = update s.next p q }

abbrev pub set_prev : ℕ → ℕ → Store → Store
set_prev p q s = record s { prev = update s.prev p q }

abbrev pub free : ℕ → Store → Store
free p s = record s { freed = p ∷ s.freed }

-- The macro of sort.h, on a header that is not NULL.
unfoldable pub is_empty_list : ListHeader → Store → Bool
is_empty_list lh s = s.next lh.head == lh.tail && s.prev lh.tail == lh.head

unfoldable pub insert_link_here : ListHeader → ℕ → Store → Status × ListHeader × Store
insert_link_here lh lnk s =
    let link = if lh.current == lh.tail then s.prev lh.current else lh.current in
    let s₁ = set_prev lnk link s in
    let s₂ = set_next lnk (s₁.next link) s₁ in
    let s₃ = set_prev (s₂.next link) lnk s₂ in
    let s₄ = set_next link lnk s₃ in
    (ok, record lh { number = (lh.number + 1) % size_mod; current = lnk }, s₄)

unfoldable pub next_link : ListHeader → Store → Status × ListHeader
next_link lh s =
    let c = s.next lh.current in
    (ok, record lh { current = if c == lh.tail then s.prev lh.tail else c })

unfoldable pub prev_link : ListHeader → Store → Status × ListHeader
prev_link lh s =
    let c = s.prev lh.current in
    (ok, record lh { current = if c == lh.head then s.next lh.head else c })

unfoldable pub first_link : ListHeader → Store → Status × ListHeader
first_link lh s = (ok, record lh { current = s.next lh.head })

unfoldable pub last_link : ListHeader → Store → Status × ListHeader
last_link lh s = (ok, record lh { current = s.prev lh.tail })

-- The loop of `insertLink` on a SORTED list of at most 16 links: the link to insert behind.
pub sorted_scan : Compare → ℕ → ℕ → Store → ℕ → ℕ → Option ℕ
sorted_scan cmp d tail s zero link = none
sorted_scan cmp d tail s (suc fuel) link =
    let link' = s.next link in
    let rest = sorted_scan cmp d tail s fuel link' in
    if is_lt (cmp d (s.data_of link))
    then some (s.prev link)
    else if link' == tail
    then some (s.prev link')
    else rest

-- The loop of `insertLink` on a SLOWSORTED list.
pub slow_scan : Compare → ℕ → ℕ → Store → ℕ → ℕ → Option ℕ
slow_scan cmp d tail s zero link = none
slow_scan cmp d tail s (suc fuel) link =
    let rest = slow_scan cmp d tail s fuel (s.next link) in
    if link == tail
    then some (s.prev tail)
    else if is_lt (cmp d (s.data_of link))
    then some (s.prev link)
    else rest

-- `while (0 == i && link != end->next)`, and the link before the one where it stops.
pub skip_equal : Compare → ℕ → ℕ → Store → ℕ → Ordering → ℕ → Option ℕ
skip_equal cmp d stop s zero i link = none
skip_equal cmp d stop s (suc fuel) i link =
    let link' = s.next link in
    let rest = skip_equal cmp d stop s fuel (cmp d (s.data_of link')) link' in
    if is_eq i && not (link == stop) then rest else some (s.prev link)

-- The `for` loop of `findSortedInsert`; `end` is what it returns when it finds no place.
pub find_scan : Compare → ℕ → (stop end : ℕ) → Store → ℕ → ℕ → Option ℕ
find_scan cmp d stop end s zero link = none
find_scan cmp d stop end s (suc fuel) link =
    let i = cmp d (s.data_of link) in
    let rest = find_scan cmp d stop end s fuel (s.next link) in
    let skip = skip_equal cmp d stop s fuel i link in
    if link == stop
    then some end
    else if is_eq i
    then skip
    else if is_lt i
    then some (s.prev link)
    else rest

-- The code overwrites its argument `number` by 1, so its bisection is never reached.
pub find_sorted_insert : Compare → ℕ → ℕ → (begin end : ℕ) → Store → Option ℕ
find_sorted_insert cmp d fuel begin end s =
    let scan = find_scan cmp d (s.next end) end s fuel begin in
    if is_eq (cmp d (s.data_of end))
    then some end
    else if is_eq (cmp d (s.data_of begin))
    then some begin
    else scan

-- `lh->current = place`, then `insertLinkHere`.
abbrev pub insert_behind : ListHeader → ℕ → Store → ℕ → Status × ListHeader × Store
insert_behind lh lnk s place = insert_link_here (record lh { current = place }) lnk s

abbrev pub insert_found : ListHeader → ℕ → Store → Option ℕ → Option (Status × ListHeader × Store)
insert_found lh lnk s none = none
insert_found lh lnk s (some place) = some (insert_behind lh lnk s place)

-- `insertLink` on a SORTED list with a compare function.
pub insert_sorted : ℕ → Compare → ListHeader → ℕ → Store → Option (Status × ListHeader × Store)
insert_sorted fuel cmp lh lnk s =
    let d = s.data_of lnk in
    let first = s.next lh.head in
    let end = s.prev lh.tail in
    let few = sorted_scan cmp d lh.tail s fuel first in
    let many = find_sorted_insert cmp d fuel first end s in
    if first == lh.tail
    then some (insert_behind lh lnk s lh.head)
    else if leb lh.number 16
    then insert_found lh lnk s few
    else if is_lt (cmp d (s.data_of end))
    then insert_found lh lnk s many
    else some (insert_behind lh lnk s end)

-- `insertLink` on a SLOWSORTED list with a compare function.
pub insert_slow_sorted : ℕ → Compare → ListHeader → ℕ → Store → Option (Status × ListHeader × Store)
insert_slow_sorted fuel cmp lh lnk s =
    let d = s.data_of lnk in
    let first = s.next lh.head in
    let end = s.prev lh.tail in
    let scan = slow_scan cmp d lh.tail s fuel first in
    if first == lh.tail
    then some (insert_behind lh lnk s lh.head)
    else if is_lt (cmp d (s.data_of first))
    then some (insert_behind lh lnk s lh.head)
    else if is_gt (cmp d (s.data_of end))
    then some (insert_behind lh lnk s end)
    else insert_found lh lnk s scan

-- A missing compare function is an error that sets no error code.
abbrev pub with_compare :
    (Compare → Option (Status × ListHeader × Store))
    → ListHeader
    → Store
    → Option Compare
    → Option (Status × ListHeader × Store)
with_compare f lh s none = some (error, lh, s)
with_compare f lh s (some cmp) = f cmp

pub insert_typed : ListType → ℕ → ListHeader → ℕ → Store → Option (Status × ListHeader × Store)
unfolding insert_sorted insert_slow_sorted
insert_typed ListType.unsorted fuel lh lnk s = some (insert_link_here lh lnk s)
insert_typed ListType.sorted fuel lh lnk s =
    with_compare (λ cmp. insert_sorted fuel cmp lh lnk s) lh s lh.compare
insert_typed ListType.slow_sorted fuel lh lnk s =
    with_compare (λ cmp. insert_slow_sorted fuel cmp lh lnk s) lh s lh.compare
insert_typed ListType.stacked fuel lh lnk s = some (insert_link_here (last_link lh s).1 lnk s)
insert_typed ListType.queued fuel lh lnk s = some (insert_link_here (last_link lh s).1 lnk s)
insert_typed ListType.unknown_list_type fuel lh lnk s =
    some (error, record lh { list_error = unknown }, s)

unfoldable pub insert_link : ℕ → ListHeader → ℕ → Store → Option (Status × ListHeader × Store)
unfolding insert_typed
insert_link fuel lh lnk s = insert_typed lh.type fuel lh lnk s

-- Which link goes, and which becomes current.
abbrev pub departing : ListType → ListHeader → Store → Option (ℕ × ℕ)
departing ListType.unsorted lh s = some (lh.current, s.next lh.current)
departing ListType.sorted lh s = some (lh.current, s.next lh.current)
departing ListType.slow_sorted lh s = some (lh.current, s.next lh.current)
departing ListType.queued lh s = some (s.next lh.head, s.next (s.next lh.head))
departing ListType.stacked lh s = some (s.prev lh.tail, s.prev (s.prev lh.tail))
departing ListType.unknown_list_type lh s = none

abbrev pub decrement : ListHeader → ℕ
decrement lh = (lh.number + size_mod - 1) % size_mod

unlink : ℕ → Store → Store
unlink lnk s =
    let s₁ = set_next (s.prev lnk) (s.next lnk) s in
    let s₂ = set_prev (s₁.next lnk) (s₁.prev lnk) s₁ in set_next lnk null (set_prev lnk null s₂)

-- The only link of a list keeps its own two pointers.
pub remove_only : ListHeader → Store → ℕ × ListHeader × Store
remove_only lh s = (
  lh.current,
  record lh { current = lh.head; number = decrement lh },
  set_prev lh.tail lh.head (set_next lh.head lh.tail s),
)

pub remove_departing : ListHeader → Store → Option (ℕ × ℕ) → ℕ × ListHeader × Store
unfolding unlink
remove_departing lh s none = (null, record lh { list_error = unknown }, s)
remove_departing lh s (some (lnk, c)) =
    (lnk, record lh { current = c; number = decrement lh }, unlink lnk s)

-- From a sentinel the first link is the default.
pub remove_start : ListHeader → Store → ListHeader
remove_start lh s =
    if lh.current == lh.head || lh.current == lh.tail
    then record lh { current = s.next lh.head }
    else lh

unfoldable pub remove_link : ListHeader → Store → ℕ × ListHeader × Store
unfolding remove_only remove_departing remove_start
remove_link lh s =
    let l = remove_start lh s in
    if s.next lh.head == lh.tail
    then (null, lh, s)
    else if s.prev l.current == l.head && s.next l.current == l.tail
    then remove_only l s
    else remove_departing l s (departing l.type l s)

-- `removeLink` until it returns NULL; each link and its data are freed.
pub clear_loop : ℕ → ListHeader → Store → Option (ListHeader × Store)
clear_loop zero lh s = none
clear_loop (suc fuel) lh s =
    let (lnk, l, t) = remove_link lh s in
    let rest = clear_loop fuel l (free lnk (free (t.data_of lnk) t)) in
    if lnk == null then some (l, t) else rest

abbrev pub cleared : Option (ListHeader × Store) → Option (Status × Option ListHeader × Store)
cleared none = none
cleared (some (lh, s)) = some (ok, some lh, s)

-- A header that is `none` is NULL.
unfoldable pub clear_list :
    ℕ → Option ListHeader → Store → Option (Status × Option ListHeader × Store)
unfolding clear_loop is_empty_list first_link
clear_list fuel none s = some (error, none, s)
clear_list fuel (some lh) s =
    let loop = clear_loop fuel (first_link lh s).1 s in
    if is_empty_list lh s then some (ok, some lh, s) else cleared loop
