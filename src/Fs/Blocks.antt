-- ===== src/Fs/Blocks.antt =====
-- kernel/fs.c: the bitmap of free blocks. `sb.size` is below 2^31, so `b` does not wrap.
pub mod Laws
pub mod Calls
use osn_mp2_part_a.Base.{
  ℕ, zero, suc, ◌+◌, ◌*◌, ◌/◌, ◌%◌, ◌^◌, bit_or, bit_and, bit_mask, Bool, ltb, if◌then◌else◌,
  Option, none, some,
}
use osn_mp2_part_a.Base.Result.{Result, ok, M, pure, fail, ◌>>=◌, ◌>>◌, bfree_free}
use osn_mp2_part_a.Memory.{Memory, update, fill}
use osn_mp2_part_a.Fs.{Fs, Superblock, bsize, bpb, bblock, bread, log_write, bit_of}

unfoldable pub bzero : ℕ → ℕ → M Fs (Unit {0})
bzero dev bno = do bytes ← bread dev bno; log_write dev bno (fill bytes 0 0 bsize)

-- The inner loop of `balloc`, from bit `bi` on with `n` rounds left: a clear bit.
unfoldable pub find_clear : ℕ → ℕ → ℕ → Memory → ℕ → Option ℕ
find_clear zero size b bytes bi = none
find_clear (suc n) size b bytes bi =
    let rest = find_clear n size b bytes (bi + 1) in
    if ltb (b + bi) size then (if bit_of bytes bi then rest else some bi) else none

abbrev pub mark_bit : Memory → ℕ → Memory
mark_bit bytes bi = update bytes (bi / 8) (bit_or (bytes (bi / 8)) (2 ^ (bi % 8)))

abbrev pub clear_bit : Memory → ℕ → Memory
clear_bit bytes bi = update bytes (bi / 8) (bit_and (bytes (bi / 8)) (bit_mask (bi % 8)))

-- Where the loops stop, as the `b` and `bi` of the block that they find; from `b` on with `n` rounds
-- of the outer loop left.
unfoldable pub find_free_block : ℕ → ℕ → ℕ → Fs → Option (ℕ × ℕ)
find_free_block zero dev b s = none
find_free_block (suc n) dev b s =
    let rest = find_free_block n dev (b + bpb) s in
    if ltb b s.sb.size
    then elim (find_clear bpb s.sb.size b (s.blocks dev (bblock s.sb b)) 0) [
      | none ↦ rest
      | some bi ↦ some (b, bi)
    ]
    else none

-- What the body of the loops does with it.
unfoldable pub take_block : ℕ → ℕ → ℕ → M Fs ℕ
take_block dev b bi s =
    (do
      bytes ← bread dev (bblock s.sb b)
      log_write dev (bblock s.sb b) (mark_bit bytes bi)
      bzero dev (b + bi)
      pure (b + bi))
      s

unfoldable pub balloc : ℕ → M Fs ℕ
balloc dev s = elim (find_free_block (s.sb.size / bpb + 1) dev 0 s) [
  | none ↦ ok (0, s)
  | some (b, bi) ↦ take_block dev b bi s
]

unfoldable pub bfree : ℕ → ℕ → M Fs (Unit {0})
bfree dev b s =
    (do
      bytes ← bread dev (bblock s.sb b)
      if bit_of bytes (b % bpb)
          then log_write dev (bblock s.sb b) (clear_bit bytes (b % bpb))
          else fail bfree_free)
      s
