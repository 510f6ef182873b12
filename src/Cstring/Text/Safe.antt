-- ===== src/Cstring/Text/Safe.antt =====
-- `safestrcpy` always ends the string, within its count.
use osn_mp2_part_a.Base.{
  ℕ, zero, suc, ◌+◌, ◌≤◌, ◌<◌, false, ◌==◌, ◌≡◌, ◌≢◌, refl, sym, ap, ◌∙◌, arith, ◌⊎◌, inl, inr,
  Bool-cases,
}
use osn_mp2_part_a.Memory.{Memory, update, within}
use osn_mp2_part_a.Cstring.Text.{copy_safe, safestrcpy}

-- What `m'` holds after a copy of the string at `t` to the `n` bytes at `s`.
pub record Terminated (m : Memory) (s t n : ℕ) (m' : Memory) : Type 0 where
  pub len : ℕ
  pub fits : len < n
  pub ended : m' (s + len) ≡ 0
  pub copied : (j : ℕ) → j < len → (m' (s + j) ≡ m (t + j)) × (m (t + j) ≢ 0)
  pub whole : (len + 1 ≡ n) ⊎ (m (t + len) ≡ 0)
  pub others : (a : ℕ) → within s n a ≡ false → m' a ≡ m a

at : (m : Memory) {a b : ℕ} → a ≡ b → m a ≡ m b
at m e = ap m e

module _ (n : ℕ) (m : Memory) (s t : ℕ) (h : (t + suc (suc n) ≤ s) ⊎ (s + suc (suc n) ≤ t)) where
  source : (j : ℕ) → j ≤ n → update m s (m t) (t + 1 + j) ≡ m (t + suc j)
  source j le =
      let e : t + 1 + j ≡ t + suc j = omega arith in
      let ne : s ≢ t + 1 + j = omega (arith, h) in ground (arith, at m e, ne)

  Terminated-suc :
      (m' : Memory)
      → m t ≢ 0
      → Terminated (update m s (m t)) (s + 1) (t + 1) (suc n) m'
      → Terminated m s t (suc (suc n)) m'
  Terminated-suc m' ne r = record {
    len = suc r.len;
    fits = omega (arith, r.fits);
    ended = at m' (let e : s + suc r.len ≡ s + 1 + r.len = omega arith in e) ∙ r.ended;
    copied = copied;
    whole = elim r.whole [
      | inl e ↦ inl (omega arith)
      | inr z ↦ inr (sym (source r.len (omega (arith, r.fits))) ∙ z)
    ];
    others = λ a o.
        r.others a (ground (arith, o))
        ∙ (let e : update m s (m t) a ≡ m a = ground (arith, o) in e);
  }
    where
      copied : (j : ℕ) → j < suc r.len → (m' (s + j) ≡ m (t + j)) × (m (t + j) ≢ 0)
      copied zero lt = (
        at m' (let e : s + 0 ≡ s = omega arith in e)
            ∙ r.others s (ground arith)
            ∙ (let e : update m s (m t) s ≡ m t = ground arith in e)
            ∙ at m (let e : t ≡ t + 0 = omega arith in e),
        λ z. ne (at m (let e : t ≡ t + 0 = omega arith in e) ∙ z),
      )
      copied (suc j) lt =
          let (same, nz) = r.copied j (omega arith) in
          let from = source j (omega (arith, r.fits)) in
          (
            at m' (let e : s + suc j ≡ s + 1 + j = omega arith in e) ∙ same ∙ from,
            λ z. nz (from ∙ z),
          )

copy_safe-Terminated :
    (n : ℕ) (m : Memory) (s t : ℕ)
    → (t + suc n ≤ s) ⊎ (s + suc n ≤ t)
    → Terminated m s t (suc n) (copy_safe n m s t)
unfolding copy_safe
copy_safe-Terminated zero m s t h = record {
  len = 0;
  fits = omega arith;
  ended = ground arith;
  copied = λ j lt. absurd (omega arith);
  whole = inl refl;
  others = λ a o. ground (arith, o);
}
copy_safe-Terminated (suc n) m s t h = elim (Bool-cases (m t == 0)) [
  | inl b ↦ rw b (record {
    len = 0;
    fits = omega arith;
    ended = ground arith;
    copied = λ j lt. absurd (omega arith);
    whole =
        inr (
          at m (let q : t + 0 ≡ t = omega arith in q) ∙ (let z : m t ≡ 0 = ground (arith, b) in z));
    others = λ a o. ground (arith, o);
  })
  | inr b ↦ rw b (
      Terminated-suc n m s t h _ (ground (arith, b))
        (copy_safe-Terminated n (update m s (m t)) (s + 1) (t + 1) (omega arith)))
]

-- With a count above 0 and a source apart from the destination, `safestrcpy` leaves a NUL within the
-- count, behind a copy of the first characters of the source: all those before its NUL, or as many
-- as leave room for one. It writes no byte past the count.
pub safestrcpy_lem :
    (m : Memory) (s t n : ℕ)
    → 0 < n
    → (t + n ≤ s) ⊎ (s + n ≤ t)
    → Terminated m s t n (safestrcpy m s t n)
unfolding safestrcpy
safestrcpy_lem m s t zero pos h = absurd (omega arith)
safestrcpy_lem m s t (suc n) pos h = copy_safe-Terminated n m s t h
