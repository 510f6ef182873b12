-- ===== src/Cstring/Moves.antt =====
-- `memset` and `memmove` against what they do to each byte.
use osn_mp2_part_a.Base.{
  ℕ, zero, suc, ◌+◌, ◌-◌, ◌%◌, ◌^◌, if◌then◌else◌, ◌≡◌, arith, ◌≤◌, ◌<◌, ◌⊎◌, fun_ext,
}
use osn_mp2_part_a.Memory.{Memory, update, fill, within}
use osn_mp2_part_a.Cstring.{memset, memmove, set_bytes, copy_up, copy_down}

set_bytes_lem : (n : ℕ) (m : Memory) (d c a : ℕ) → set_bytes n m d c a ≡ fill m d (c % 2 ^ 8) n a
unfolding set_bytes
set_bytes_lem zero m d c a = ground arith
set_bytes_lem (suc n) m d c a = ground (arith, set_bytes_lem n (update m d (c % 2 ^ 8)) (d + 1) c a)

-- `memset` writes the low byte of `c` to the `n` bytes from `dst` on, and nothing else.
pub memset_lem : (m : Memory) (dst c n : ℕ) → memset m dst c n ≡ fill m dst (c % 2 ^ 8) n
unfolding memset
memset_lem m dst c n = fun_ext λ a. set_bytes_lem n m dst c a

-- The `n` bytes from `src` on, all read before the first write, put at `dst`.
abbrev pub moved : Memory → ℕ → ℕ → ℕ → Memory
moved m dst src n a = if within dst n a then m (src + (a - dst)) else m a

copy_up_lem :
    (n : ℕ) (m : Memory) (d s a : ℕ) → (d ≤ s) ⊎ (s + n ≤ d) → copy_up n m d s a ≡ moved m d s n a
unfolding copy_up
copy_up_lem zero m d s a h = ground arith
copy_up_lem (suc n) m d s a h = ground (arith, copy_up_lem n (update m d (m s)) (d + 1) (s + 1) a)

copy_down_lem : (n : ℕ) (m : Memory) (d s a : ℕ) → s < d → copy_down n m d s a ≡ moved m d s n a
unfolding copy_down
copy_down_lem zero m d s a h = ground arith
copy_down_lem (suc n) m d s a h =
    ground (arith, copy_down_lem n (update m (d + n) (m (s + n))) d s a)

-- `memmove` copies the bytes of the source as they were before the call, whichever way the two
-- ranges overlap, and changes nothing else.
pub memmove_lem : (m : Memory) (dst src n : ℕ) → memmove m dst src n ≡ moved m dst src n
unfolding memmove
memmove_lem m dst src n =
    fun_ext λ a. ground (arith, copy_down_lem n m dst src a, copy_up_lem n m dst src a)
