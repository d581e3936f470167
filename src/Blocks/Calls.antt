-- ===== src/Blocks/Calls.antt =====
-- lib/block.c: any sequence of calls on a block file, against the sequence of its blocks.
use osdb_dcdb.Prelude.{
  ℕ, suc, ◌+◌, ◌*◌, ◌^◌, ◌≤◌, ◌<◌, ◌≡◌, refl, ap, ◌∙◌, Option, some, List, [], ◌∷◌, ◌++◌, arith,
  length, length-append,
}
use native.Mathlib.Nat.{suc-mul, mul-le-mul_right}
use osdb_dcdb.Blocks.{File, get_file_block, put_file_block, append_file_block}
use osdb_dcdb.Blocks.Sequence.{get_elem?, set, length-set, AllFull-length}
use osdb_dcdb.Blocks.Refine.{
  IsBlockFile, promised, get_file_block-promised, put_file_block-set, append_file_block-append,
}
use osdb_dcdb.Blocks.Trip.{Fits}
use osdb_dcdb.Links.{Status, ok}

pub data Call : Type 0 where
  get : ℕ → List ℕ → Call
  put : ℕ → List ℕ → Call
  append : List ℕ → Call

pub data Answer : Type 0 where
  read : Status × List ℕ → Answer
  written : Status → Answer
  numbered : Option ℕ → Answer

-- The answers of the code.
abbrev pub call : ℕ → File → Call → Answer × File
call size f (get n buf) = let (st, blk, g) = get_file_block f buf n size in (read (st, blk), g)
call size f (put n blk) = let (st, g) = put_file_block f blk n size in (written st, g)
call size f (append blk) = let (n, g) = append_file_block f blk size in (numbered n, g)

pub answers : ℕ → File → List Call → List Answer
answers size f [] = []
answers size f (c ∷ cs) = let (a, g) = call size f c in a ∷ answers size g cs

-- The answers of a sequence of blocks.
abbrev pub expected : List (List ℕ) → Call → Answer × List (List ℕ)
expected bs (get n buf) = (read (promised buf (get_elem? bs n)), bs)
expected bs (put n blk) = (written ok, set n blk bs)
expected bs (append blk) = (numbered (some (length bs)), bs ++ blk ∷ [])

unfoldable pub expected_answers : List (List ℕ) → List Call → List Answer
expected_answers bs [] = []
expected_answers bs (c ∷ cs) = let (a, bs') = expected bs c in a ∷ expected_answers bs' cs

-- A call with a buffer of the block size; a block that is put is there already, and a number to
-- read is in the range of an off_t.
abbrev pub IsAllowed : ℕ → List (List ℕ) → Call → Type 0
IsAllowed size bs (get n buf) = (length buf ≡ size) × (n * size < 2 ^ 63)
IsAllowed size bs (put n blk) = (length blk ≡ size) × (n < length bs)
IsAllowed size bs (append blk) = length blk ≡ size

unfoldable pub AreAllowed : ℕ → List (List ℕ) → List Call → Type 0
AreAllowed size bs [] = Unit
AreAllowed size bs (c ∷ cs) = IsAllowed size bs c × AreAllowed size (expected bs c).1 cs

-- The file grows by at most one block with each call.
pub record HasRoom (size : ℕ) (bs : List (List ℕ)) (left : ℕ) (f : File) : Type 0 where
  pub small : size < 2 ^ 31
  pub near : f.room < 2 ^ 63
  pub room : (length bs + left) * size ≤ f.room

Fits-number :
    (f : File) (blk : List ℕ) (n size k : ℕ)
    → length blk ≡ size
    → 0 < size
    → size < 2 ^ 31
    → f.room < 2 ^ 63
    → k * size ≤ f.room
    → n < k
    → Fits f blk (n * size) size
Fits-number f blk n size k full pos small near room lt =
    let below : suc n * size ≤ k * size = mul-le-mul_right size (omega arith) in
    record {
      full = full;
      some_bytes = pos;
      small = small;
      room = omega (arith, suc-mul n size, below, room);
      near = omega (arith, suc-mul n size, below, room, near, pos);
    }

HasRoom-next :
    (size left : ℕ) (bs bs' : List (List ℕ)) (f g : File)
    → HasRoom size bs (suc left) f
    → g.room ≡ f.room
    → length bs' ≤ suc (length bs)
    → HasRoom size bs' left g
HasRoom-next size left bs bs' f g r same le =
    let below : (length bs' + left) * size ≤ (length bs + suc left) * size =
      mul-le-mul_right size (omega arith) in
    record {
      small = r.small;
      near = omega (arith, same, r.near);
      room = omega (arith, same, below, r.room);
    }

-- One call: the answer is the expected one, and the file holds the expected blocks.
call-expected :
    (size left : ℕ) (f : File) (bs : List (List ℕ)) (c : Call)
    → IsBlockFile size bs f
    → HasRoom size bs (suc left) f
    → IsAllowed size bs c
    → ((call size f c).0 ≡ (expected bs c).0)
      × IsBlockFile size (expected bs c).1 (call size f c).1
      × HasRoom size (expected bs c).1 left (call size f c).1
call-expected size left f bs (get n buf) is r a =
    let (answer, is', same) = get_file_block-promised f bs buf n size is a.0 a.1 in
    (ap read answer, is', HasRoom-next size left bs bs f _ r same (omega arith))
call-expected size left f bs (put n blk) is r a =
    let fits =
      Fits-number f blk n size (length bs + suc left) a.0 is.some_bytes r.small r.near r.room
        (omega (arith, a.1)) in
    let (g, run, is', same) = put_file_block-set f bs blk n size is fits a.1 in
    rw run (
      refl,
      is',
      HasRoom-next size left bs (set n blk bs) f g r same (omega (arith, length-set n blk bs)),
    )
call-expected size left f bs (append blk) is r a =
    let offset = ap (length {A = ℕ}) is.holds ∙ AllFull-length size bs is.full in
    let fits =
      Fits-number f blk (length bs) size (length bs + suc left) a is.some_bytes r.small r.near
        r.room (omega arith) in
    let (g, run, is', same) = append_file_block-append f bs blk size is (rw offset fits) in
    rw run (
      refl,
      is',
      HasRoom-next size left bs (bs ++ blk ∷ []) f g r same
          (omega (arith, length-append bs (blk ∷ []))),
    )

-- A file of blocks is a sequence of blocks: a sequence of calls that read any numbers, put
-- blocks that are there and append others, on a device with room for a block more at each call,
-- gets the answers that the sequence of blocks gives.
pub answers-expected :
    (size : ℕ) (f : File) (bs : List (List ℕ)) (cs : List Call)
    → IsBlockFile size bs f
    → HasRoom size bs (length cs) f
    → AreAllowed size bs cs
    → answers size f cs ≡ expected_answers bs cs
unfolding answers expected_answers AreAllowed
answers-expected size f bs [] is r a = refl
answers-expected size f bs (c ∷ cs) is r a =
    let (answer, is', r') = call-expected size (length cs) f bs c is r a.0 in
    rw answer (
      ap (λ l. (expected bs c).0 ∷ l)
        (answers-expected size (call size f c).1 (expected bs c).1 cs is' r' a.1))
