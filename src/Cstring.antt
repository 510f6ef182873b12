-- ===== src/Cstring.antt =====
-- kernel/string.c over physical memory. A `uint` count is a number, and a pointer an address.
pub mod Moves
pub mod Text
use osn_mp2_part_a.Base.{
  ℕ, zero, suc, ◌+◌, ◌-◌, ◌%◌, ◌^◌, ◌==◌, if◌then◌else◌, leb, ltb, ◌&&◌, Bool, true, false, not,
  Option, some, none,
}
use osn_mp2_part_a.Memory.{Memory, update}

-- The loop of `memset`, `n` rounds from its end, at address `d`.
set_bytes : ℕ → Memory → ℕ → ℕ → Memory
set_bytes zero m d c = m
set_bytes (suc n) m d c = set_bytes n (update m d (c % 2 ^ 8)) (d + 1) c

pub memset : Memory → ℕ → ℕ → ℕ → Memory
unfolding set_bytes
memset m dst c n = set_bytes n m dst c

-- `while(n-- > 0) *d++ = *s++;`
copy_up : ℕ → Memory → ℕ → ℕ → Memory
copy_up zero m d s = m
copy_up (suc n) m d s = copy_up n (update m d (m s)) (d + 1) (s + 1)

-- `while(n-- > 0) *--d = *--s;` with the pointers at `d + n` and `s + n`
copy_down : ℕ → Memory → ℕ → ℕ → Memory
copy_down zero m d s = m
copy_down (suc n) m d s = copy_down n (update m (d + n) (m (s + n))) d s

pub memmove : Memory → ℕ → ℕ → ℕ → Memory
unfolding copy_up copy_down
memmove m dst src n =
    if n == 0
    then m
    else if ltb src dst && ltb dst (src + n)
    then copy_down n m dst src
    else copy_up n m dst src
