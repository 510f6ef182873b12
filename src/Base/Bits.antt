-- ===== src/Base/Bits.antt =====
-- The bits of a byte, checked by evaluation over all bytes and positions.
use Prim.Native.Nat.{ℕ, zero, suc, ◌+◌, ◌-◌, ◌^◌, ◌≤◌, ◌<◌, bit_and, bit_or, bit_and-bitwise}
use mathlib.Core.Path.{◌≡◌, refl}
use mathlib.Core.Bool.{Bool, true, false, not, ◌&&◌, ◌||◌}
use native.Mathlib.Omega.{arith}
use mathlib.Core.Logic.{inl, inr}
use osn_mp2_part_a.Base.Tests.{ltb, ◌==◌, if◌then◌else◌, eq_or_ne}

-- Whether the test is passed by the `count` numbers from `start` on.
passed_from : (test : ℕ → Bool) → (start count : ℕ) → Bool
passed_from test start zero = true
passed_from test start (suc count) =
    if test start then passed_from test (start + 1) count else false

passed_from-at :
    (test : ℕ → Bool) (start count : ℕ)
    → passed_from test start count ≡ true
    → (i : ℕ) → start ≤ i
    → i < start + count
    → test i ≡ true
unfolding passed_from
passed_from-at test start zero all i lo hi = absurd (omega arith)
passed_from-at test start (suc count) all i lo hi = elim (eq_or_ne start i) [
  | inl e ↦ rw (← e) (let first : test start ≡ true = ground (arith, all) in first)
  | inr ne ↦
      passed_from-at test (start + 1) count
        (let rest : passed_from test (start + 1) count ≡ true = ground (arith, all) in rest) i
        (omega arith) (omega arith)
]

-- A test of all the bytes, and of all the positions in a byte.
abbrev for_bytes : (ℕ → Bool) → Bool
for_bytes test = passed_from test 0 256

abbrev for_bits : (ℕ → Bool) → Bool
for_bits test = passed_from test 0 8

at_byte : (test : ℕ → Bool) → for_bytes test ≡ true → (b : ℕ) → b < 256 → test b ≡ true
at_byte test all b h = passed_from-at test 0 256 all b (omega arith) (omega arith)

at_bit : (test : ℕ → Bool) → for_bits test ≡ true → (k : ℕ) → k < 8 → test k ≡ true
at_bit test all k h = passed_from-at test 0 8 all k (omega arith) (omega arith)

-- `b & (1 << k)` as a truth value.
unfoldable pub bit_set : ℕ → ℕ → Bool
bit_set b k = not (bit_and b (2 ^ k) == 0)

-- `(uint8) ~(1 << k)`, for a bit position of a byte.
abbrev pub bit_mask : ℕ → ℕ
bit_mask k = 255 - 2 ^ k

abbrev beq : Bool → Bool → Bool
beq true b = b
beq false b = not b

beq→eq : (a b : Bool) → beq a b ≡ true → a ≡ b
beq→eq a b h = ground arith

abbrev or_law : ℕ → ℕ → ℕ → Bool
or_law b k l = beq (bit_set (bit_or b (2 ^ k)) l) (k == l || bit_set b l)

abbrev mask_law : ℕ → ℕ → ℕ → Bool
mask_law b k l = beq (bit_set (bit_and b (bit_mask k)) l) (not (k == l) && bit_set b l)

abbrev undo_law : ℕ → ℕ → Bool
undo_law b k =
    ltb (bit_or b (2 ^ k)) 256
    && (ltb (bit_and b (bit_mask k)) 256
        && (bit_set b k || bit_and (bit_or b (2 ^ k)) (bit_mask k) == b))

or_table : for_bytes (λ b. for_bits λ k. for_bits (or_law b k)) ≡ true
unfolding passed_from bit_set
or_table = refl

mask_table : for_bytes (λ b. for_bits λ k. for_bits (mask_law b k)) ≡ true
unfolding passed_from bit_set
mask_table = refl

undo_table : for_bytes (λ b. for_bits (undo_law b)) ≡ true
unfolding passed_from bit_set
undo_table = refl

undo_at : (b k : ℕ) → b < 256 → k < 8 → undo_law b k ≡ true
undo_at b k hb hk = at_bit (undo_law b) (at_byte (λ b. for_bits (undo_law b)) undo_table b hb) k hk

-- Setting bit `k` of a byte sets that bit and no other.
pub bit_set-or :
    (b k l : ℕ) → b < 256 → k < 8 → l < 8 → bit_set (bit_or b (2 ^ k)) l ≡ (k == l || bit_set b l)
bit_set-or b k l hb hk hl =
    let at_b = at_byte (λ b. for_bits λ k. for_bits (or_law b k)) or_table b hb in
    beq→eq _ _ (at_bit (or_law b k) (at_bit (λ k. for_bits (or_law b k)) at_b k hk) l hl)

-- Clearing bit `k` of a byte clears that bit and no other.
pub bit_set-mask :
    (b k l : ℕ)
    → b < 256
    → k < 8
    → l < 8
    → bit_set (bit_and b (bit_mask k)) l ≡ (not (k == l) && bit_set b l)
bit_set-mask b k l hb hk hl =
    let at_b = at_byte (λ b. for_bits λ k. for_bits (mask_law b k)) mask_table b hb in
    beq→eq _ _ (at_bit (mask_law b k) (at_bit (λ k. for_bits (mask_law b k)) at_b k hk) l hl)

pub byte_or : (b k : ℕ) → b < 256 → k < 8 → bit_or b (2 ^ k) < 256
byte_or b k hb hk = ground (arith, undo_at b k hb hk)

pub byte_mask : (b k : ℕ) → b < 256 → k < 8 → bit_and b (bit_mask k) < 256
byte_mask b k hb hk = ground (arith, undo_at b k hb hk)

-- Clearing a bit undoes setting it.
pub mask-or :
    (b k : ℕ) → b < 256 → k < 8 → bit_set b k ≡ false → bit_and (bit_or b (2 ^ k)) (bit_mask k) ≡ b
mask-or b k hb hk e = ground (arith, undo_at b k hb hk)

-- No bit of 0 is set.
pub bit_set-zero : (k : ℕ) → bit_set 0 k ≡ false
unfolding bit_set
bit_set-zero k = rw (bit_and-bitwise 0 (2 ^ k))
