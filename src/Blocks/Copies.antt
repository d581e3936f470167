-- ===== src/Blocks/Copies.antt =====
-- lib/block.c: records that are copied from a block to the links of a list, and back. The store of
-- the lists is extended by the bytes of each allocated buffer; `malloc` takes the next address of
-- a supply, or gives NULL.
use osdb_dcdb.Prelude.{
  ℕ, zero, suc, ◌+◌, ◌*◌, Option, none, some, List, [], ◌∷◌, ◌==◌, if◌then◌else◌,
}
use osdb_dcdb.Blocks
use osdb_dcdb.Blocks.{FioErrorType}
use osdb_dcdb.Blocks.Bytes.{take, read_at, write_at}
use osdb_dcdb.Links.{
  Status, ok, error, Store, ListHeader, ListType, null, set_next, set_prev, last_link, insert_link,
}

pub record Heap : Type 0 where
  pub store : Store
  pub contents : ℕ → List ℕ
  pub supply : List ℕ
  pub fio_error : FioErrorType

abbrev pub next_address : List ℕ → ℕ
next_address [] = null
next_address (a ∷ rest) = a

abbrev pub later_addresses : List ℕ → List ℕ
later_addresses [] = []
later_addresses (a ∷ rest) = rest

abbrev pub allocated : Heap → Heap
allocated h = record h { supply = later_addresses h.supply }

abbrev pub fill : ℕ → List ℕ → Heap → Heap
fill p bytes h = record h { contents = λ a. if a == p then bytes else h.contents a }

abbrev pub set_data : ℕ → ℕ → Store → Store
set_data p d s = record s { data_of = λ a. if a == p then d else s.data_of a }

-- A link set to zeros, then its data.
abbrev pub new_link : ℕ → ℕ → Store → Store
new_link lnk bp s = set_data lnk bp (set_prev lnk null (set_next lnk null s))

-- What is left after some copies; `none` is an insertion that runs out of fuel.
abbrev pub Copied : Type 0
Copied = Option (Status × ListHeader × Heap)

-- `lastLink (lh); insertLink (lh, lnk);`, then what follows.
abbrev pub inserted :
    (ListHeader → Heap → Copied) → Heap → Option (Status × ListHeader × Store) → Copied
inserted later h none = none
inserted later h (some (st, lh, s)) = later lh (record h { store = s })

abbrev pub no_memory : ListHeader → Heap → Copied
no_memory lh h = some (error, lh, record h { fio_error = Blocks.no_memory })

-- `n` copies, from the one of number `i` on.
unfoldable pub copy_out : (blk : List ℕ) (size offset i n : ℕ) → ListHeader → Heap → Copied
copy_out blk size offset i zero lh h = some (ok, lh, h)
copy_out blk size offset i (suc n) lh h =
    let bp = next_address h.supply in
    let h₁ = allocated h in
    let lnk = next_address h₁.supply in
    let h₂ = fill bp (read_at (offset + i * size) size blk) (allocated h₁) in
    let h₃ = record h₂ { store = new_link lnk bp h₂.store } in
    if bp == null
    then no_memory lh h₁
    else if lnk == null
    then no_memory lh (allocated h₁)
    else inserted (copy_out blk size offset (suc i) n) h₃
        (insert_link 1 (last_link lh h₃.store).1 lnk h₃.store)

unfoldable pub block_to_list : ListHeader → Heap → (blk : List ℕ) (size num offset : ℕ) → Copied
unfolding copy_out
block_to_list lh h blk size num offset =
    copy_out blk size offset 0 num (record lh { type = ListType.unsorted }) h

unfoldable pub copy_in : Heap → (size offset i n lnk : ℕ) → List ℕ → List ℕ
copy_in h size offset i zero lnk blk = blk
copy_in h size offset i (suc n) lnk blk =
    copy_in h size offset (suc i) n (h.store.next lnk)
      (write_at (offset + i * size) (take size (h.contents (h.store.data_of lnk))) blk)

unfoldable pub list_to_block :
    ListHeader → Heap → (blk : List ℕ) (size num offset : ℕ) → Status × List ℕ × FioErrorType
unfolding copy_in
list_to_block lh h blk size num offset =
    if lh.number == num
    then (ok, copy_in h size offset 0 num (h.store.next lh.head) blk, h.fio_error)
    else (error, blk, Blocks.unspecified)
