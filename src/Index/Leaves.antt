-- ===== src/Index/Leaves.antt =====
-- The blocks of an index that are in memory, with their items: what the reading of other blocks
-- and the moving of cursors leave of them.
use osdb_dcdb.Prelude.{
  ℕ, ◌≡◌, refl, sym, ap, ◌∙◌, true, false, List, [], ◌∷◌, Bool-cases, inl, inr, ◌==◌, ==_iff, has,
}
use osdb_dcdb.Cache.{DbIndex, IdxBlock, set_block}
use osdb_dcdb.Cache.Hits.{number_at}
use osdb_dcdb.Cache.Load.{places}
use osdb_dcdb.Cache.Touch.{Uses, numbers, has-touch, Touched}
use osdb_dcdb.Index.{next_block}
use osdb_dcdb.Links.{null}
use osdb_dcdb.Links.Chain.{IsList}
use osdb_dcdb.Links.Frame.{IsList-SameOn}
use osdb_dcdb.Links.Insert.{IsOutside, SameAt}

-- A block: its number, its address, and the links of its items.
pub record Leaf : Type 0 where
  pub number : ℕ
  pub place : ℕ
  pub first : ℕ
  pub others : List ℕ

abbrev pub items : Leaf → List ℕ
items f = f.first ∷ f.others

abbrev pub datas : (ℕ → ℕ) → List ℕ → List ℕ
datas dat [] = []
datas dat (x ∷ xs) = dat x ∷ datas dat xs

-- The block is in memory, at this address only, and its items are apart from the blocks in use.
pub record InMemory (idx : DbIndex) {order : List ℕ} (u : Uses idx order) (behind : ℕ) (f : Leaf)
    : Type 0 where
  pub known : has f.number order ≡ true
  pub only :
      (l : ℕ)
      → has l u.links ≡ true
      → number_at idx l ≡ f.number
      → idx.heap.store.data_of l ≡ f.place
  pub holds : IsList idx.heap.store (idx.blocks f.place).key_item_list (items f)
  pub next : next_block (idx.blocks f.place).blk ≡ behind
  pub real : (f.place == null) ≡ false
  pub real_links : has null (places (idx.blocks f.place).key_item_list (items f)) ≡ false
  pub real_items : has null (datas idx.heap.store.data_of (items f)) ≡ false
  pub apart :
      (a : ℕ)
      → has a (places (idx.blocks f.place).key_item_list (items f)) ≡ true
      → IsOutside a idx.used u.links

-- Blocks and lists stay, but for cursors and for the order of the blocks in use.
pub record Keeps (idx r : DbIndex) {order order' : List ℕ} (u : Uses idx order) (u' : Uses r order')
    : Type 0 where
  pub numbers : (a : ℕ) → (r.blocks a).block_number ≡ (idx.blocks a).block_number
  pub lists : (a : ℕ) → (r.blocks a).key_item_list ≡ (idx.blocks a).key_item_list
  pub bytes : (a : ℕ) → (r.blocks a).blk ≡ (idx.blocks a).blk
  pub same_data : r.heap.store.data_of ≡ idx.heap.store.data_of
  pub elsewhere : (a : ℕ) → IsOutside a idx.used u.links → SameAt idx.heap.store r.heap.store a
  pub outside : (a : ℕ) → IsOutside a idx.used u.links → IsOutside a r.used u'.links
  pub members : (a : ℕ) → has a u'.links ≡ true → has a u.links ≡ true
  pub orders : (n : ℕ) → has n order ≡ true → has n order' ≡ true

pub InMemory-kept :
    {idx r : DbIndex} {order order' : List ℕ} {u : Uses idx order} {u' : Uses r order'} (behind : ℕ)
    (f : Leaf)
    → Keeps idx r u u'
    → InMemory idx u behind f
    → InMemory r u' behind f
InMemory-kept {idx} {r} {u = u} behind f k m =
    let p = f.place in
    record {
      known = k.orders f.number m.known;
      only = λ l h e.
          ap (λ d. d l) k.same_data
          ∙ m.only l (k.members l h) (
              sym (k.numbers (idx.heap.store.data_of l))
              ∙ ap (λ d. (r.blocks (d l)).block_number) (sym k.same_data)
              ∙ e);
      holds = rw (k.lists p) (IsList-SameOn m.holds λ a h. k.elsewhere a (m.apart a h));
      next = ap next_block (k.bytes p) ∙ m.next;
      real = m.real;
      real_links = rw (k.lists p) m.real_links;
      real_items = ap (λ dat. has null (datas dat (items f))) k.same_data ∙ m.real_items;
      apart = λ a h. k.outside a (m.apart a (rw (k.lists p) at h));
    }

pub Touched-Keeps :
    {idx r : DbIndex} {order : List ℕ} {u : Uses idx order} (n p : ℕ)
    → (t : Touched idx n order u p r) → Keeps idx r u t.uses
Touched-Keeps {order = order} n p t = record {
  numbers = λ a. ap (λ i. (i.blocks a).block_number) t.same_rest;
  lists = λ a. ap (λ i. (i.blocks a).key_item_list) t.same_rest;
  bytes = λ a. ap (λ i. (i.blocks a).blk) t.same_rest;
  same_data = t.same_data;
  elsewhere = t.elsewhere;
  outside = t.outside;
  members = t.members;
  orders = λ m h. has-touch m n order h;
}

-- A cursor is moved.
abbrev pub at_cursor : (p x : ℕ) → DbIndex → DbIndex
at_cursor p x idx = set_block p (record (idx.blocks p) { current = x }) idx

at_cursor-same :
    {A : Type 0} (get : IdxBlock → A) (p x : ℕ) (idx : DbIndex)
    → ((b : IdxBlock) → get (record b { current = x }) ≡ get b)
    → (a : ℕ) → get ((at_cursor p x idx).blocks a) ≡ get (idx.blocks a)
at_cursor-same get p x idx same a = elim (Bool-cases (a == p)) [
  | inl e ↦ rw e (same (idx.blocks p)) ∙ ap (λ q. get (idx.blocks q)) (sym ((==_iff a p).0 e))
  | inr ne ↦ rw ne refl
]

at_cursor-numbers :
    (p x : ℕ) (idx : DbIndex) (ls : List ℕ) → numbers (at_cursor p x idx) ls ≡ numbers idx ls
at_cursor-numbers p x idx [] = refl
at_cursor-numbers p x idx (l ∷ ls) =
    ap (λ n. n ∷ numbers (at_cursor p x idx) ls)
      (at_cursor-same (λ b. b.block_number) p x idx (λ b. refl) (idx.heap.store.data_of l))
    ∙ ap {B = List ℕ} (λ ns. number_at idx l ∷ ns) (at_cursor-numbers p x idx ls)

pub at_cursor-Uses :
    {idx : DbIndex} {order : List ℕ} (p x : ℕ) → Uses idx order → Uses (at_cursor p x idx) order
at_cursor-Uses {idx} p x u = record {
  links = u.links;
  holds = u.holds;
  real = u.real;
  named = at_cursor-numbers p x idx u.links ∙ u.named;
}

pub at_cursor-Keeps :
    {idx : DbIndex} {order : List ℕ} (p x : ℕ) (u : Uses idx order)
    → Keeps idx (at_cursor p x idx) u (at_cursor-Uses p x u)
unfolding at_cursor-Uses
at_cursor-Keeps {idx} p x u = record {
  numbers = at_cursor-same (λ b. b.block_number) p x idx (λ b. refl);
  lists = at_cursor-same (λ b. b.key_item_list) p x idx (λ b. refl);
  bytes = at_cursor-same (λ b. b.blk) p x idx (λ b. refl);
  same_data = refl;
  elsewhere = λ a h. record { next = refl; prev = refl; data_of = refl };
  outside = λ a h. h;
  members = λ a h. h;
  orders = λ n h. h;
}

-- The blocks that follow one another, up to the last.
abbrev pub next_number : List Leaf → ℕ
next_number [] = 0
next_number (f ∷ fs) = f.number

abbrev pub Chained : (idx : DbIndex) {order : List ℕ} → Uses idx order → List Leaf → Type 0
Chained idx u [] = Unit
Chained idx u (f ∷ fs) =
    ((f.number == 0) ≡ false) × InMemory idx u (next_number fs) f × Chained idx u fs

pub Chained-kept :
    {idx r : DbIndex} {order order' : List ℕ} {u : Uses idx order} {u' : Uses r order'}
    (fs : List Leaf)
    → Keeps idx r u u'
    → Chained idx u fs
    → Chained r u' fs
Chained-kept [] k c = tt
Chained-kept (f ∷ fs) k c = (c.0, InMemory-kept (next_number fs) f k c.1, Chained-kept fs k c.2)
