-- ===== src/Memory.antt =====
-- Physical memory: one byte at each address, and the 64-bit words that the kernel keeps in it
-- (page-table entries and the links of the free list), little end first.
pub mod Words
use osn_mp2_part_a.Base.{ℕ, ◌+◌, ◌-◌, ◌*◌, ◌/◌, ◌%◌, ◌^◌, ◌==◌, if◌then◌else◌, leb, ltb, ◌&&◌, Bool}

abbrev pub Memory : Type 0
Memory = ℕ → ℕ

abbrev pub update : Memory → ℕ → ℕ → Memory
update m p v a = if p == a then v else m a

-- Whether `a` is one of the `n` addresses from `lo` on.
abbrev pub within : ℕ → ℕ → ℕ → Bool
within lo n a = leb lo a && ltb a (lo + n)

-- `n` bytes from `dst` on set to one value.
abbrev pub fill : Memory → ℕ → ℕ → ℕ → Memory
fill m dst v n a = if within dst n a then v else m a

unfoldable pub load64 : Memory → ℕ → ℕ
load64 m p =
    m p
    + 2 ^ 8 * m (p + 1)
    + 2 ^ 16 * m (p + 2)
    + 2 ^ 24 * m (p + 3)
    + 2 ^ 32 * m (p + 4)
    + 2 ^ 40 * m (p + 5)
    + 2 ^ 48 * m (p + 6)
    + 2 ^ 56 * m (p + 7)

-- Byte `i` of a word.
abbrev pub byte_of : ℕ → ℕ → ℕ
byte_of v i = v / 2 ^ (8 * i) % 2 ^ 8

-- The 8 bytes of `v` at the addresses from `p` on.
unfoldable pub store64 : Memory → ℕ → ℕ → Memory
store64 m p v a = if within p 8 a then byte_of v (a - p) else m a
