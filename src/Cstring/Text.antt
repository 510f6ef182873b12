-- ===== src/Cstring/Text.antt =====
-- The comparing and copying routines of kernel/string.c. A `char` is an unsigned byte, and an `int`
-- result that may be negative is its 32-bit pattern.
pub mod Laws
pub mod Safe
use osn_mp2_part_a.Base.{
  ℕ, zero, suc, ◌+◌, ◌-◌, ◌%◌, ◌^◌, Bool, true, false, not, ◌&&◌, ◌==◌, if◌then◌else◌, Option, some,
  none,
}
use osn_mp2_part_a.Memory.{Memory, update}
use osn_mp2_part_a.Cstring.{memmove, set_bytes}

-- The difference of two bytes.
abbrev pub byte_diff : ℕ → ℕ → ℕ
byte_diff a b = (a + 2 ^ 32 - b) % 2 ^ 32

unfoldable pub compare_bytes : ℕ → Memory → ℕ → ℕ → ℕ
compare_bytes zero m s1 s2 = 0
compare_bytes (suc n) m s1 s2 =
    let rest = compare_bytes n m (s1 + 1) (s2 + 1) in
    if not (m s1 == m s2) then byte_diff (m s1) (m s2) else rest

pub memcmp : Memory → ℕ → ℕ → ℕ → ℕ
memcmp m v1 v2 n = compare_bytes n m v1 v2

pub memcpy : Memory → ℕ → ℕ → ℕ → Memory
memcpy m dst src n = memmove m dst src n

unfoldable pub compare_text : ℕ → Memory → ℕ → ℕ → ℕ
compare_text zero m p q = 0
compare_text (suc n) m p q =
    let rest = compare_text n m (p + 1) (q + 1) in
    if not (m p == 0) && m p == m q then rest else byte_diff (m p) (m q)

pub strncmp : Memory → ℕ → ℕ → ℕ → ℕ
strncmp m p q n = compare_text n m p q

-- Both loops of `strncpy`: after the NUL the rest is filled with zeros.
pub copy_text : ℕ → Memory → ℕ → ℕ → Memory
unfolding set_bytes
copy_text zero m s t = m
copy_text (suc n) m s t =
    let rest = copy_text n (update m s (m t)) (s + 1) (t + 1) in
    if m t == 0 then set_bytes n (update m s 0) (s + 1) 0 else rest

-- A negative count does what 0 does.
pub strncpy : Memory → ℕ → ℕ → ℕ → Memory
strncpy m s t n = copy_text n m s t

-- The loop of `safestrcpy`, `n` rounds from its end, and the NUL after it. The loop moves past a NUL
-- that it copies.
unfoldable pub copy_safe : ℕ → Memory → ℕ → ℕ → Memory
copy_safe zero m s t = update m s 0
copy_safe (suc n) m s t =
    let rest = copy_safe n (update m s (m t)) (s + 1) (t + 1) in
    if m t == 0 then update (update m s 0) (s + 1) 0 else rest

pub safestrcpy : Memory → ℕ → ℕ → ℕ → Memory
safestrcpy m s t zero = m
safestrcpy m s t (suc n) = copy_safe n m s t

-- The loop of `strlen` from index `n`, on fuel.
unfoldable pub count_text : ℕ → Memory → ℕ → ℕ → Option ℕ
count_text zero m s n = none
count_text (suc f) m s n =
    let rest = count_text f m s (n + 1) in if m (s + n) == 0 then some n else rest

pub strlen : ℕ → Memory → ℕ → Option ℕ
strlen f m s = count_text f m s 0
