-- ===== src/Log.antt =====
-- kernel/log.c: the redo log of the file system. A block is its 32-bit words. The disk writes whole
-- blocks in the order of the calls of `bwrite`, and stops when the power fails: `power` counts the
-- writes that still reach it. What runs after that moment changes no disk.
pub mod Writes
pub mod Install
pub mod Crash
pub mod Space
use osn_mp2_part_a.Base.{
  ℕ, zero, suc, ◌+◌, ◌-◌, ◌*◌, Bool, true, false, not, ◌&&◌, ◌||◌, ◌==◌, leb, ltb, if◌then◌else◌,
  Option, none, some, List, [], ◌∷◌, ◌++◌, length, get_or, drop,
}
use osn_mp2_part_a.Base.Result.{Result, ok, panic, log_committing, log_too_big, log_outside}

abbrev pub Block : Type 0
Block = List ℕ

abbrev pub Disk : Type 0
Disk = ℕ → Block

abbrev pub max_op_blocks : ℕ
max_op_blocks = 10

abbrev pub log_blocks : ℕ
log_blocks = max_op_blocks * 3

-- `struct log`, with the header's `n` the length of its list of block numbers, and what it works
-- on: `cache` holds the buffers that are pinned, with their modified contents; any other buffer has
-- the contents of its disk block.
pub record Log : Type 0 where
  pub start : ℕ
  pub lh : List ℕ
  pub outstanding : ℕ
  pub committing : Bool
  pub cache : ℕ → Option Block
  pub disk : Disk
  pub power : ℕ

abbrev pub elem : ℕ → List ℕ → Bool
elem b [] = false
elem b (x ∷ xs) = x == b || elem b xs

abbrev pub put_block : Disk → ℕ → Block → Disk
put_block d b v c = if b == c then v else d c

-- The contents of the buffer that `bread` returns.
abbrev pub bread : Log → ℕ → Block
bread s b = elim (s.cache b) [ none ↦ s.disk b | some v ↦ v ]

unfoldable pub bwrite : ℕ → Block → Log → Log
bwrite b v s =
    if s.power == 0 then s else record s { disk = put_block s.disk b v; power = s.power - 1 }

-- `bunpin`: the buffer's contents are those of the disk.
abbrev pub unpin : ℕ → Log → Log
unpin b s = record s { cache = λ c. if b == c then none else s.cache c }

-- One round of `install_trans` for the block `b`, and the loop from round `tail` on.
unfoldable pub install_one : Bool → ℕ → ℕ → Log → Log
install_one recovering tail b s =
    let t = bwrite b (bread s (s.start + tail + 1)) s in if recovering then t else unpin b t

unfoldable pub install_from : Bool → ℕ → List ℕ → Log → Log
install_from recovering tail [] s = s
install_from recovering tail (b ∷ bs) s =
    install_from recovering (tail + 1) bs (install_one recovering tail b s)

unfoldable pub install_trans : Bool → Log → Log
install_trans recovering s = install_from recovering 0 s.lh s

-- `n` words of a block from index `i` on.
unfoldable pub words : ℕ → ℕ → Block → List ℕ
words zero i v = []
words (suc n) i v = get_or v i 0 ∷ words n (i + 1) v

-- The block numbers that a header block holds.
unfoldable pub decode_head : Block → List ℕ
decode_head v = words (get_or v 0 0) 1 v

-- A header block with the list written over the front of what it held.
abbrev pub encode_head : List ℕ → Block → Block
encode_head bs old = length bs ∷ bs ++ drop (length bs + 1) old

unfoldable pub read_head : Log → Log
read_head s = record s { lh = decode_head (bread s s.start) }

unfoldable pub write_head : Log → Log
write_head s = bwrite s.start (encode_head s.lh (bread s s.start)) s

unfoldable pub recover_from_log : Log → Log
recover_from_log s = write_head (record (install_trans true (read_head s)) { lh = [] })

-- The loop of `write_log` from round `tail` on.
unfoldable pub write_log_from : ℕ → List ℕ → Log → Log
write_log_from tail [] s = s
write_log_from tail (b ∷ bs) s =
    write_log_from (tail + 1) bs (bwrite (s.start + tail + 1) (bread s b) s)

unfoldable pub write_log : Log → Log
write_log s = write_log_from 0 s.lh s

unfoldable pub commit : Log → Log
commit s =
    if ltb 0 (length s.lh)
    then write_head (record (install_trans false (write_head (write_log s))) { lh = [] })
    else s

-- One round of the loop of `begin_op`: `none` where it sleeps.
unfoldable pub begin_op : Log → Option Log
begin_op s =
    if s.committing
    then none
    else if ltb log_blocks (length s.lh + (s.outstanding + 1) * max_op_blocks)
    then none
    else some (record s { outstanding = s.outstanding + 1 })

-- `end_op` after the count was decreased.
unfoldable pub finish_op : Log → Result Log
finish_op s =
    if s.committing
    then panic log_committing
    else if s.outstanding == 0
    then ok (record (commit (record s { committing = true })) { committing = false })
    else ok s

-- The callers are inside a transaction, so the count is not 0.
unfoldable pub end_op : Log → Result Log
unfolding finish_op
end_op s = finish_op (record s { outstanding = s.outstanding - 1 })

-- `log_write` of a buffer of block `b` that holds `v`.
unfoldable pub log_write : ℕ → Block → Log → Result Log
log_write b v s =
    if leb log_blocks (length s.lh)
    then panic log_too_big
    else if ltb s.outstanding 1
    then panic log_outside
    else ok (record s {
      lh = if elem b s.lh then s.lh else s.lh ++ b ∷ [];
      cache = λ c. if b == c then some v else s.cache c;
    })

-- `initlog` after a restart, with nothing in memory.
abbrev pub restart : ℕ → Disk → ℕ → Log
restart start d power = record {
  start = start;
  lh = [];
  outstanding = 0;
  committing = false;
  cache = λ b. none;
  disk = d;
  power = power;
}
