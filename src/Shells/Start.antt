-- ===== src/Shells/Start.antt =====
-- `initShell`. The addresses of the header, of the two sentinel nodes, and of what `initList`
-- allocates are arguments; 0 is NULL. The counters of the zeroed header are 0.
use osdb_dcdb.Prelude.{
  ℕ, ◌≡◌, refl, Bool, false, ◌&&◌, not, Option, none, some, List, [], ◌∷◌, arith, ◌==◌, ==_self,
  Bool-cases, if◌then◌else◌, has, inl, inr,
}
use osdb_dcdb.Links.{Store, ListHeader, ListType, Compare, null, free}
use osdb_dcdb.Links.Chain.{IsList}
use osdb_dcdb.Links.Registry.{Registry, init_list, init_list-empty, empty_header}
use osdb_dcdb.Shells.{Shell, ShellError}
use osdb_dcdb.Shells.Restructure.Nodes.{HasNodes}
use osdb_dcdb.Shells.Whole.{bare_shell}

-- A shell, or the global error.
pub data Started : Type 0 where
  started : Shell → Registry → Started
  not_started : ShellError → Registry → Store → Started

-- Behind the checks of the arguments and the allocations.
pub start_list :
    (is_unique manage_allocs : Bool) (cmp : Compare) (p head tail : ℕ) (supply : List ℕ)
    → Option ListHeader × Registry × Store
    → Started
start_list is_unique manage_allocs cmp p head tail supply (none, reg, s) =
    not_started ShellError.list reg (free p (free head (free tail s)))
start_list is_unique manage_allocs cmp p head tail supply (some lh, reg, s) =
    started
      (record (bare_shell cmp lh s head tail supply) {
        is_unique = is_unique;
        manage_allocs = manage_allocs;
      })
      reg

-- `is_unique` and `manage_allocs` are C's int flags; `new_list` is what `initList (UNSORTED, 0)`
-- gives.
pub init_shell_with :
    (cmp : Compare) (is_unique manage_allocs p head tail : ℕ) (supply : List ℕ)
    → Registry
    → Store
    → Option ListHeader × Registry × Store
    → Started
init_shell_with cmp is_unique manage_allocs p head tail supply reg s new_list =
    let made =
      start_list (is_unique == 1) (not (manage_allocs == 0)) cmp p head tail supply new_list in
    if p == null
    then not_started ShellError.no_mem reg s
    else if head == null
    then not_started ShellError.no_mem reg (free p s)
    else if tail == null
    then not_started ShellError.no_mem reg (free p (free head s))
    else made

pub init_shell :
    (cmp : Option Compare) (is_unique manage_allocs p head tail : ℕ) (supply : List ℕ)
    → (lp lhead ltail rh rt : ℕ) → Registry
    → Store
    → Started
init_shell none is_unique manage_allocs p head tail supply lp lhead ltail rh rt reg s =
    not_started ShellError.param reg s
init_shell (some cmp) is_unique manage_allocs p head tail supply lp lhead ltail rh rt reg s =
    let new_list = init_list ListType.unsorted none lp lhead ltail rh rt reg s in
    let made = init_shell_with cmp is_unique manage_allocs p head tail supply reg s new_list in
    if not (is_unique == 1) && not (is_unique == 0)
    then not_started ShellError.param reg s
    else made

-- With memory, initShell with a compare function and a flag for uniqueness of 0 or 1 gives a shell
-- with an empty list, no nodes, that flag and that compare function.
pub init_shell-started :
    (cmp : Compare) (is_unique : Bool) (manage_allocs p head tail : ℕ) (supply : List ℕ)
    → (lp lhead ltail rh rt : ℕ) (reg : Registry) (s : Store)
    → has null (p ∷ head ∷ tail ∷ []) ≡ false
    → has null (lp ∷ lhead ∷ ltail ∷ rh ∷ rt ∷ []) ≡ false
    → (head == tail) ≡ false
    → (lhead == ltail) ≡ false
    → (sh : Shell) × (reg' : Registry) × (init_shell
          (some cmp)
          (if is_unique then 1 else 0)
          manage_allocs
          p
          head
          tail
          supply
          lp
          lhead
          ltail
          rh
          rt
          reg
          s
        ≡ started sh reg')
      × IsList sh.store sh.lh []
      × HasNodes sh []
      × (sh.is_unique ≡ is_unique)
      × (sh.compare ≡ cmp)
unfolding init_shell init_shell_with start_list bare_shell
init_shell-started cmp u manage p head tail supply lp lhead ltail rh rt reg s full full' apart
      apart' =
    let full_p : (p == null) ≡ false = ground arith in
    let full_head : (head == null) ≡ false = ground arith in
    let full_tail : (tail == null) ≡ false = ground arith in
    let other : (tail == head) ≡ false = ground arith in
    let (reg', s', run, is) =
      init_list-empty ListType.unsorted none lp lhead ltail rh rt reg s apart' full' in
    let sh =
      record (bare_shell cmp (empty_header ListType.unsorted none lhead ltail) s' head tail
        supply) { is_unique = u; manage_allocs = not (manage == 0) } in
    let bare : HasNodes sh [] = record {
      chain = (rw (apart, ==_self), rw (other, ==_self), tt);
      distinct = ground (arith, apart);
    } in
    (
      sh,
      reg',
      elim (Bool-cases u) [
        | inl e ↦ rw (e, run, full_p, full_head, full_tail)
        | inr e ↦ rw (e, run, full_p, full_head, full_tail)
      ],
      record { chain = is.chain; distinct = is.distinct; counted = is.counted },
      bare,
      refl,
      refl,
    )
