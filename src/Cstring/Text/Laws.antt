-- ===== src/Cstring/Text/Laws.antt =====
-- The string routines against descriptions of the bytes.
use osn_mp2_part_a.Base.{
  ℕ, zero, suc, ◌+◌, ◌<◌, some, ◌≡◌, ◌≢◌, ◌↔◌, refl, sym, ap, ◌∙◌, arith, inl, inr, eq_or_ne,
}
use osn_mp2_part_a.Memory.{Memory}
use osn_mp2_part_a.Cstring.Text.{
  byte_diff, compare_bytes, memcmp, compare_text, strncmp, count_text, strlen,
}

abbrev pub AllBytes : Memory → Type 0
AllBytes m = (a : ℕ) → m a < 256

-- The `n` bytes at two addresses are equal.
abbrev pub SameBytes : Memory → ℕ → ℕ → ℕ → Type 0
SameBytes m v w n = (j : ℕ) → j < n → m (v + j) ≡ m (w + j)

-- The bytes are equal up to the first NUL, or the first `n`.
abbrev pub SameText : Memory → ℕ → ℕ → ℕ → Type 0
SameText m p q n = (j : ℕ) → j < n → ((i : ℕ) → i < j → m (p + i) ≢ 0) → m (p + j) ≡ m (q + j)

at_zero : (m : Memory) (p : ℕ) → m (p + 0) ≡ m p
at_zero m p = ap m (omega arith)

at_suc : (m : Memory) (p j : ℕ) → m (p + suc j) ≡ m (p + 1 + j)
at_suc m p j = ap m (omega arith)

byte_diff-zero : (a b : ℕ) → a < 256 → b < 256 → (byte_diff a b ≡ 0) ↔ (a ≡ b)
byte_diff-zero a b h k = (λ e. omega arith, λ e. omega arith)

SameBytes-suc :
    (m : Memory) (v w n : ℕ)
    → SameBytes m v w (suc n) ↔ ((m v ≡ m w) × SameBytes m (v + 1) (w + 1) n)
SameBytes-suc m v w n = (
  (λ s. (
    sym (at_zero m v) ∙ s 0 (omega arith) ∙ at_zero m w,
    λ j lt. sym (at_suc m v j) ∙ s (suc j) (omega arith) ∙ at_suc m w j,
  )),
  λ (e, s). back e s,
)
  where
    back : m v ≡ m w → SameBytes m (v + 1) (w + 1) n → SameBytes m v w (suc n)
    back e s zero lt = at_zero m v ∙ e ∙ sym (at_zero m w)
    back e s (suc j) lt = at_suc m v j ∙ s j (omega arith) ∙ sym (at_suc m w j)

compare_bytes_lem :
    (n : ℕ) (m : Memory) (v w : ℕ) → AllBytes m → (compare_bytes n m v w ≡ 0) ↔ SameBytes m v w n
unfolding compare_bytes
compare_bytes_lem zero m v w h = (λ e j lt. absurd (omega arith), λ s. refl)
compare_bytes_lem (suc n) m v w h =
    let (forth, back) = compare_bytes_lem n m (v + 1) (w + 1) h in
    elim (eq_or_ne (m v) (m w)) [
      | inl e ↦
          let step : compare_bytes (suc n) m v w ≡ compare_bytes n m (v + 1) (w + 1) =
            ground (arith, e) in
          (
            (λ z. (SameBytes-suc m v w n).1 (e, forth (sym step ∙ z))),
            λ s. step ∙ back ((SameBytes-suc m v w n).0 s).1,
          )
      | inr ne ↦
          let step : compare_bytes (suc n) m v w ≡ byte_diff (m v) (m w) = ground (arith, ne) in
          (
            (λ z. absurd (ne ((byte_diff-zero _ _ (h v) (h w)).0 (sym step ∙ z)))),
            λ s. absurd (ne ((SameBytes-suc m v w n).0 s).0),
          )
    ]

memcmp_lem : (m : Memory) (v w n : ℕ) → AllBytes m → (memcmp m v w n ≡ 0) ↔ SameBytes m v w n
unfolding memcmp
memcmp_lem m v w n h = compare_bytes_lem n m v w h

SameText-suc :
    (m : Memory) (p q n : ℕ)
    → SameText m p q (suc n) ↔ ((m p ≡ m q) × (m p ≢ 0 → SameText m (p + 1) (q + 1) n))
SameText-suc m p q n = (
  (λ s. (
    sym (at_zero m p) ∙ s 0 (omega arith) (λ i lt. absurd (omega arith)) ∙ at_zero m q,
    λ ne j lt nn. sym (at_suc m p j) ∙ s (suc j) (omega arith) (longer ne j nn) ∙ at_suc m q j,
  )),
  λ (e, s). back e s,
)
  where
    longer :
        m p ≢ 0
        → (j : ℕ) → ((i : ℕ) → i < j → m (p + 1 + i) ≢ 0)
        → (i : ℕ) → i < suc j
        → m (p + i) ≢ 0
    longer ne j nn zero lt = λ z. ne (sym (at_zero m p) ∙ z)
    longer ne j nn (suc i) lt = λ z. nn i (omega arith) (sym (at_suc m p i) ∙ z)

    back : m p ≡ m q → (m p ≢ 0 → SameText m (p + 1) (q + 1) n) → SameText m p q (suc n)
    back e s zero lt nn = at_zero m p ∙ e ∙ sym (at_zero m q)
    back e s (suc j) lt nn =
        at_suc m p j
        ∙ s (λ z. nn 0 (omega arith) (at_zero m p ∙ z)) j (omega arith)
            (λ i l z. nn (suc i) (omega arith) (at_suc m p i ∙ z))
        ∙ sym (at_suc m q j)

compare_text_lem :
    (n : ℕ) (m : Memory) (p q : ℕ) → AllBytes m → (compare_text n m p q ≡ 0) ↔ SameText m p q n
unfolding compare_text
compare_text_lem zero m p q h = (λ e j lt nn. absurd (omega arith), λ s. refl)
compare_text_lem (suc n) m p q h =
    let (forth, back) = compare_text_lem n m (p + 1) (q + 1) h in
    let (apart, join) = SameText-suc m p q n in
    elim (eq_or_ne (m p) (m q)) [
      | inr ne ↦
          let step : compare_text (suc n) m p q ≡ byte_diff (m p) (m q) = ground (arith, ne) in
          (
            (λ z. absurd (ne ((byte_diff-zero _ _ (h p) (h q)).0 (sym step ∙ z)))),
            λ s. absurd (ne (apart s).0),
          )
      | inl e ↦ elim (eq_or_ne (m p) 0) [
        | inl z ↦
            let step : compare_text (suc n) m p q ≡ byte_diff (m p) (m q) = ground (arith, z) in
            ((λ _. join (e, λ ne. absurd (ne z))), λ _. step ∙ (byte_diff-zero _ _ (h p) (h q)).1 e)
        | inr ne ↦
            let step : compare_text (suc n) m p q ≡ compare_text n m (p + 1) (q + 1) =
              ground (arith, e, ne) in
            ((λ z. join (e, λ _. forth (sym step ∙ z))), λ s. step ∙ back ((apart s).1 ne))
      ]
    ]

strncmp_lem : (m : Memory) (p q n : ℕ) → AllBytes m → (strncmp m p q n ≡ 0) ↔ SameText m p q n
unfolding strncmp
strncmp_lem m p q n h = compare_text_lem n m p q h

count_text_lem :
    (d f : ℕ) (m : Memory) (s n : ℕ)
    → d < f
    → m (s + n + d) ≡ 0
    → ((j : ℕ) → j < d → m (s + n + j) ≢ 0)
    → count_text f m s n ≡ some (n + d)
unfolding count_text
count_text_lem d zero m s n lt z nn = absurd (omega arith)
count_text_lem zero (suc f) m s n lt z nn = ground (arith, first)
  where
    first : m (s + n) ≡ 0
    first = ap m (let e : s + n ≡ s + n + 0 = omega arith in e) ∙ z
count_text_lem (suc d) (suc f) m s n lt z nn =
    let ne : m (s + n) ≢ 0 =
      λ q. nn 0 (omega arith) (ap m (let e : s + n + 0 ≡ s + n = omega arith in e) ∙ q) in
    let rest =
      count_text_lem d f m s (n + 1) (omega arith) (ap m (shift d) ∙ z)
        (λ j l q. nn (suc j) (omega arith) (ap m (sym (shift j)) ∙ q)) in
    ground (arith, ne, rest)
  where
    shift : (j : ℕ) → s + (n + 1) + j ≡ s + n + suc j
    shift j = omega arith

-- `strlen` gives the index of the first NUL, and any fuel beyond that index is enough.
pub strlen_lem :
    (f : ℕ) (m : Memory) (s k : ℕ)
    → k < f
    → m (s + k) ≡ 0
    → ((j : ℕ) → j < k → m (s + j) ≢ 0)
    → strlen f m s ≡ some k
unfolding strlen
strlen_lem f m s k lt z nn =
    count_text_lem k f m s 0 lt (ap m (shift k) ∙ z) (λ j l q. nn j l (ap m (sym (shift j)) ∙ q))
    ∙ ap some (let e : 0 + k ≡ k = omega arith in e)
  where
    shift : (j : ℕ) → s + 0 + j ≡ s + j
    shift j = omega arith

-- On bytes, `memcmp` gives 0 exactly when the two ranges of `n` bytes are equal, and `strncmp` exactly
-- when the two strings are equal up to their NUL or, if it does not come before, in the first `n`.
pub comparisons_lem :
    (m : Memory) (v w n : ℕ)
    → AllBytes m
    → ((memcmp m v w n ≡ 0) ↔ SameBytes m v w n) × ((strncmp m v w n ≡ 0) ↔ SameText m v w n)
comparisons_lem m v w n h = (memcmp_lem m v w n h, strncmp_lem m v w n h)
