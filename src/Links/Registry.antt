-- ===== src/Links/Registry.antt =====
-- `initList` and `delList`, with the list of all headers that they keep: the fields `__n` and `__p`
-- of a header are maps of its address, and the static variables of sort.c are a record. The build
-- without threads and without DEBUG is modelled. The addresses that `malloc` returns are arguments;
-- 0 is NULL.
use osdb_dcdb.Prelude.{
  ℕ, ◌≡◌, refl, ap, ◌∙◌, Bool, true, false, ◌&&◌, not, ◌||◌, Option, none, some, [], ◌∷◌, arith,
  ◌==◌, ==_self, Bool-cases, inl, inr, if◌then◌else◌, has, Distinct,
}
use osdb_dcdb.Links.{
  Status, ok, error, Store, ListHeader, ListType, ListErrorType, Compare, null, update, set_next,
  set_prev, free,
}
use osdb_dcdb.Links.Chain.{IsList}

-- `first` is `__head`, `last` is `__tail`, `list_error` is the global `ListError`.
pub record Registry : Type 0 where
  pub in_use : Bool
  pub first : ℕ
  pub last : ℕ
  pub after : ℕ → ℕ
  pub before : ℕ → ℕ
  pub list_error : ListErrorType

abbrev pub set_data : ℕ → ℕ → Store → Store
set_data p q s = record s { data_of = update s.data_of p q }

abbrev pub no_memory : Registry → Registry
no_memory reg = record reg { list_error = ListErrorType.no_mem }

-- The two sentinels of an empty list.
pub empty_links : ℕ → ℕ → Store → Store
empty_links head tail s = set_data tail null (
    set_next tail null
      (set_prev tail head (set_data head null (set_prev head null (set_next head tail s)))))

abbrev pub empty_header : ListType → Option Compare → ℕ → ℕ → ListHeader
empty_header t cmp head tail = record {
  list_error = ListErrorType.no_error;
  head = head;
  tail = tail;
  current = head;
  type = t;
  number = 0;
  compare = cmp;
}

-- The list of headers with its first one, `p`, between the sentinels `rh` and `rt`.
abbrev pub opened : (p rh rt : ℕ) → Registry → Registry
opened p rh rt reg = record reg {
  in_use = true;
  first = rh;
  last = rt;
  after = update (update (update (update reg.after rh null) rt null) rh p) p rt;
  before = update (update (update (update reg.before rh null) rt null) rt p) p rh;
}

-- The first header: the two sentinel headers are made. `in_use` stays set when that fails.
pub register_first : (p head tail rh rt : ℕ) → Registry → Store → Bool × Registry × Store
register_first p head tail rh rt reg s =
    let freed = free p (free tail (free head s)) in
    let failed = record (no_memory reg) { in_use = true; first = rh } in
    if rh == null
    then (false, failed, freed)
    else if rt == null
    then (false, record failed { last = rt }, free rh freed)
    else (true, opened p rh rt reg, s)

-- The other headers go to the end.
pub register_next : ℕ → Registry → Registry
register_next p reg =
    let plh = reg.before reg.last in
    record reg {
      after = update (update reg.after plh p) p reg.last;
      before = update (update reg.before reg.last p) p plh;
    }

pub register : (p head tail rh rt : ℕ) → Registry → Store → Bool × Registry × Store
register p head tail rh rt reg s =
    if reg.in_use then (true, register_next p reg, s) else register_first p head tail rh rt reg s

-- The second test of the code is of `head` again, so a missing tail goes unnoticed.
pub init_list :
    ListType
    → Option Compare
    → (p head tail rh rt : ℕ) → Registry
    → Store
    → Option ListHeader × Registry × Store
init_list t cmp p head tail rh rt reg s =
    let (registered, reg', s') = register p head tail rh rt reg s in
    if p == null
    then (none, no_memory reg, s)
    else if head == null
    then (none, no_memory reg, free p s)
    else if registered
    then (some (empty_header t cmp head tail), reg', empty_links head tail s')
    else (none, reg', s')

-- The header at `p` leaves the list of headers.
pub unregister : ℕ → Registry → Registry
unregister p reg =
    let plh = reg.before p in
    let next = reg.after p in
    record reg {
      before = update (update reg.before next plh) p null;
      after = update (update reg.after plh next) p null;
    }

-- The sentinel headers go with the last header.
pub close_registry : Registry → Store → Registry × Store
close_registry reg s =
    if reg.after reg.first == reg.last && reg.before reg.last == reg.first
    then (
      record reg { in_use = false; first = null; last = null },
      free reg.last (free reg.first s),
    )
    else (reg, s)

pub del_list : ℕ → ListHeader → Registry → Store → Status × Registry × Store
del_list p lh reg s =
    let (reg', s') = close_registry (unregister p reg) s in
    if not (s.next lh.head == lh.tail) || not (s.prev lh.tail == lh.head)
    then (error, record reg { list_error = ListErrorType.not_empty }, s)
    else (ok, reg', free p (free lh.tail (free lh.head s')))

empty_links-IsList :
    (t : ListType) (cmp : Option Compare) (head tail : ℕ) (s : Store)
    → (head == tail) ≡ false
    → IsList (empty_links head tail s) (empty_header t cmp head tail) []
unfolding empty_links
empty_links-IsList t cmp head tail s sentinels = record {
  chain = (rw (sentinels, ==_self), rw ==_self, tt);
  distinct = ground (arith, sentinels);
  counted = refl;
}

module _ (t : ListType) (cmp : Option Compare) (p head tail rh rt : ℕ) (reg : Registry) (s : Store)
    (apart : Distinct (p ∷ rh ∷ rt ∷ [])) (sentinels : (head == tail) ≡ false) where
  register-opened :
      reg.in_use ≡ false
      → (rh == null) ≡ false
      → (rt == null) ≡ false
      → register p head tail rh rt reg s ≡ (true, opened p rh rt reg, s)
  unfolding register register_first
  register-opened idle full_rh full_rt = rw (idle, full_rh, full_rt)

  -- The list of headers is empty again.
  unregister-closed :
      (u : Store)
      → close_registry (unregister p (opened p rh rt reg)) u ≡ (
        record (unregister p (opened p rh rt reg)) { in_use = false; first = null; last = null },
        free rt (free rh u),
      )
  unfolding close_registry unregister
  unregister-closed u =
      let ne₁ : (rh == p) ≡ false = ground arith in
      let ne₂ : (rt == p) ≡ false = ground arith in
      rw (==_self p, ne₁, ne₂, ==_self rh, ==_self rt, ==_self rh)

  del_list-closed :
      del_list p (empty_header t cmp head tail) (opened p rh rt reg) (empty_links head tail s) ≡ (
        ok,
        record (unregister p (opened p rh rt reg)) { in_use = false; first = null; last = null },
        free p (free tail (free head (free rt (free rh (empty_links head tail s))))),
      )
  unfolding del_list
  del_list-closed =
      let closed = unregister-closed (empty_links head tail s) in
      let (there, back, _) = (empty_links-IsList t cmp head tail s sentinels).chain in
      rw (closed, there, ==_self tail, back, ==_self head)

  same_freed : (empty_links head tail s).freed ≡ s.freed
  unfolding empty_links
  same_freed = refl

  -- When no list is in use and there is memory, initList gives an empty list of the type, and
  -- delList of it ends with _OK_, leaves no list in use, and frees what initList allocated: the two
  -- sentinel headers, the two sentinel links and the header, each once.
  pub init_list-del_list :
      reg.in_use ≡ false
      → has null (p ∷ head ∷ tail ∷ rh ∷ rt ∷ []) ≡ false
      → (lh : ListHeader) × (reg' : Registry) × (s' : Store) × (init_list t cmp p head tail rh rt
            reg s
          ≡ (some lh, reg', s'))
        × (lh.type ≡ t)
        × (reg'.in_use ≡ true)
        × IsList s' lh []
        × ((del_list p lh reg' s').0 ≡ ok)
        × ((del_list p lh reg' s').1.in_use ≡ false)
        × ((del_list p lh reg' s').2.freed ≡ p ∷ tail ∷ head ∷ rt ∷ rh ∷ s.freed)
  unfolding init_list
  init_list-del_list idle memory =
      let full_p : (p == null) ≡ false = ground arith in
      let full_head : (head == null) ≡ false = ground arith in
      let full_rh : (rh == null) ≡ false = ground arith in
      let full_rt : (rt == null) ≡ false = ground arith in
      let made = register-opened idle full_rh full_rt in
      (
        empty_header t cmp head tail,
        opened p rh rt reg,
        empty_links head tail s,
        rw (full_p, full_head, made),
        refl,
        refl,
        empty_links-IsList t cmp head tail s sentinels,
        ap (λ k. k.0) del_list-closed,
        ap (λ k. k.1.in_use) del_list-closed,
        ap (λ k. k.2.freed) del_list-closed ∙ ap (λ k. p ∷ tail ∷ head ∷ rt ∷ rh ∷ k) same_freed,
      )

-- With memory, in any state of the list of headers, initList gives an empty list.
pub init_list-empty :
    (t : ListType) (cmp : Option Compare) (p head tail rh rt : ℕ) (reg : Registry) (s : Store)
    → (head == tail) ≡ false
    → has null (p ∷ head ∷ tail ∷ rh ∷ rt ∷ []) ≡ false
    → (reg' : Registry) × (s' : Store) × (init_list t cmp p head tail rh rt reg s
        ≡ (some (empty_header t cmp head tail), reg', s'))
      × IsList s' (empty_header t cmp head tail) []
unfolding init_list register register_first
init_list-empty t cmp p head tail rh rt reg s sentinels memory =
    let full_p : (p == null) ≡ false = ground arith in
    let full_head : (head == null) ≡ false = ground arith in
    let full_rh : (rh == null) ≡ false = ground arith in
    let full_rt : (rt == null) ≡ false = ground arith in
    let is = empty_links-IsList t cmp head tail s sentinels in
    elim (Bool-cases reg.in_use) [
      | inl e ↦ (register_next p reg, empty_links head tail s, rw (full_p, full_head, e), is)
      | inr e ↦ (
        opened p rh rt reg,
        empty_links head tail s,
        rw (full_p, full_head, e, full_rh, full_rt),
        is,
      )
    ]
