-- ===== src/Memory/Words.antt =====
-- Reading a word after a write of a word or of a run of bytes.
use osn_mp2_part_a.Base.{ℕ, ◌+◌, ◌-◌, ◌^◌, ◌≤◌, ◌<◌, true, false, ◌≡◌, refl, arith, ◌⊎◌, ap, ◌∙◌}
use osn_mp2_part_a.Memory.{Memory, within, fill, load64, store64, byte_of}

module _ (m n : Memory) (p q : ℕ) where
  -- A word is made of its 8 bytes alone.
  pub load64-eq : ((i : ℕ) → i < 8 → m (p + i) ≡ n (q + i)) → load64 m p ≡ load64 n q
  unfolding load64
  load64-eq h =
      let z : m p ≡ n q =
        ap m (let e : p ≡ p + 0 = omega arith in e)
        ∙ h 0 (omega arith)
        ∙ ap n (let e : q + 0 ≡ q = omega arith in e) in
      omega (
        arith,
        z,
        h 1 (omega arith),
        h 2 (omega arith),
        h 3 (omega arith),
        h 4 (omega arith),
        h 5 (omega arith),
        h 6 (omega arith),
        h 7 (omega arith),
      )

store64-at : (m : Memory) (p v i : ℕ) → i < 8 → store64 m p v (p + i) ≡ byte_of v i
unfolding store64
store64-at m p v i h =
    let t : within p 8 (p + i) ≡ true = ground arith in
    rw t (ap (λ k. byte_of v k) (let e : p + i - p ≡ i = omega arith in e))

pub store64_ne : (m : Memory) (p v a : ℕ) → within p 8 a ≡ false → store64 m p v a ≡ m a
unfolding store64
store64_ne m p v a h = rw h

-- A 64-bit word that was stored is read back.
pub load64-store64_self : (m : Memory) (p v : ℕ) → v < 2 ^ 64 → load64 (store64 m p v) p ≡ v
unfolding load64
load64-store64_self m p v h =
    let z : store64 m p v p ≡ byte_of v 0 =
      ap (store64 m p v) (let e : p ≡ p + 0 = omega arith in e)
      ∙ store64-at m p v 0 (omega arith) in
    omega (
      arith,
      z,
      store64-at m p v 1 (omega arith),
      store64-at m p v 2 (omega arith),
      store64-at m p v 3 (omega arith),
      store64-at m p v 4 (omega arith),
      store64-at m p v 5 (omega arith),
      store64-at m p v 6 (omega arith),
      store64-at m p v 7 (omega arith),
    )

-- A store to other bytes leaves a word as it was.
pub load64-store64_ne :
    (m : Memory) (p q v : ℕ) → (p + 8 ≤ q) ⊎ (q + 8 ≤ p) → load64 (store64 m p v) q ≡ load64 m q
unfolding store64
load64-store64_ne m p q v h = load64-eq _ m q q λ i k. ground arith

-- So does filling other bytes.
pub load64-fill_ne :
    (m : Memory) (dst c n q : ℕ)
    → (dst + n ≤ q) ⊎ (q + 8 ≤ dst)
    → load64 (fill m dst c n) q ≡ load64 m q
load64-fill_ne m dst c n q h = load64-eq _ m q q λ i k. ground arith

-- A word of a run of zeros is 0.
pub load64-fill_zero :
    (m : Memory) (dst n q : ℕ) → dst ≤ q → q + 8 ≤ dst + n → load64 (fill m dst 0 n) q ≡ 0
unfolding load64
load64-fill_zero m dst n q h k =
    load64-eq (fill m dst 0 n) (λ a. 0) q q (λ i l. ground arith) ∙ zero_word q
  where
    zero_word : (q : ℕ) → load64 (λ a. 0) q ≡ 0
    zero_word q = refl
