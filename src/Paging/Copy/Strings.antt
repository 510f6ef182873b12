-- ===== src/Paging/Copy/Strings.antt =====
-- The inner loop of `copyinstr` against the string that it copies.
use osn_mp2_part_a.Base.{
  ℕ, zero, suc, ◌+◌, ◌≤◌, ◌<◌, Bool, true, false, ◌==◌, ◌≡◌, ◌≢◌, sym, ap, ◌∙◌, arith, ◌⊎◌, inl,
  inr, Bool-cases,
}
use osn_mp2_part_a.Memory.{Memory, update}
use osn_mp2_part_a.Cstring.Moves.{moved}
use osn_mp2_part_a.Paging.Copy.{copy_string}

-- The first `k` bytes at `p` are not 0.
abbrev pub NoNul : Memory → ℕ → ℕ → Type 0
NoNul m p k = (j : ℕ) → j < k → m (p + j) ≢ 0

-- What copying at most `n` bytes of the string at `p` to `dst` may give.
abbrev pub Copied : ℕ → Memory → ℕ → ℕ → Bool × Memory → Type 0
Copied n m p dst (true, m') =
    (k : ℕ) × (k < n) × NoNul m p k × (m (p + k) ≡ 0) × ((a : ℕ) → m' a ≡ moved m dst p (k + 1) a)
Copied n m p dst (false, m') = NoNul m p n × ((a : ℕ) → m' a ≡ moved m dst p n a)

module _ (n : ℕ) (m : Memory) (p dst : ℕ) (h : (p + suc n ≤ dst) ⊎ (dst + suc n ≤ p)) where
  moved-update :
      (k a : ℕ) → k ≤ n → moved (update m dst (m p)) (dst + 1) (p + 1) k a ≡ moved m dst p (k + 1) a
  moved-update k a le = ground (arith, h)

  source : (j : ℕ) → j < n → update m dst (m p) (p + 1 + j) ≡ m (p + (j + 1))
  source j le = ground (arith, h)

  NoNul-suc : (k : ℕ) → k ≤ n → m p ≢ 0 → NoNul (update m dst (m p)) (p + 1) k → NoNul m p (k + 1)
  NoNul-suc k le ne nn zero lt = λ z. ne (ap m (let e : p ≡ p + 0 = omega arith in e) ∙ z)
  NoNul-suc k le ne nn (suc j) lt = λ z.
      nn j (omega arith)
        (source j (omega arith) ∙ ap m (let e : p + (j + 1) ≡ p + suc j = omega arith in e) ∙ z)

  -- A byte that is not the NUL is copied, and the rest of the string after it.
  Copied-suc :
      (r : Bool × Memory)
      → m p ≢ 0
      → Copied n (update m dst (m p)) (p + 1) (dst + 1) r
      → Copied (suc n) m p dst r
  Copied-suc (true, m') ne (k, lt, nn, z, same) = (
    k + 1,
    omega arith,
    NoNul-suc k (omega arith) ne nn,
    sym (source k (omega arith)) ∙ z,
    λ a. same a ∙ moved-update (k + 1) a (omega arith),
  )
  Copied-suc (false, m') ne (nn, same) = (
    (λ j lt. NoNul-suc n (omega arith) ne nn j (omega arith)),
    λ a.
        same a
        ∙ moved-update n a (omega arith)
        ∙ ap (λ c. moved m dst p c a) (let e : n + 1 ≡ suc n = omega arith in e),
  )

-- Where the source and the destination do not overlap, the loop copies the string with its NUL and
-- nothing more, if the NUL is among the first `n` bytes; otherwise it copies the `n` bytes and
-- reports no NUL. It changes no other byte.
pub copy_string_lem :
    (n : ℕ) (m : Memory) (p dst : ℕ)
    → (p + n ≤ dst) ⊎ (dst + n ≤ p)
    → Copied n m p dst (copy_string n m p dst)
unfolding copy_string
copy_string_lem zero m p dst h = (λ j lt. absurd (omega arith), λ a. ground arith)
copy_string_lem (suc n) m p dst h = elim (Bool-cases (m p == 0)) [
  | inl e ↦ rw e (
    0,
    omega arith,
    λ j lt. absurd (omega arith),
    at_nul (ground (arith, e)),
    λ a. ground (arith, e),
  )
  | inr e ↦ rw e (
      Copied-suc n m p dst h _ (ground (arith, e))
        (copy_string_lem n (update m dst (m p)) (p + 1) (dst + 1) (omega arith)))
]
  where
    at_nul : m p ≡ 0 → m (p + 0) ≡ 0
    at_nul z = ap m (let e : p + 0 ≡ p = omega arith in e) ∙ z
