-- ===== src/Pipe/Queue.antt =====
-- The bytes in a pipe as a list, oldest first.
use osn_mp2_part_a.Base.{
  ℕ, zero, suc, ◌+◌, ◌-◌, ◌%◌, ◌^◌, ◌≤◌, ◌<◌, true, false, ◌==◌, if◌then◌else◌, List, [], ◌∷◌, ◌++◌,
  length, ◌≡◌, refl, ap, ap₂, ◌∙◌, arith, ◌≢◌, ==_ne, ==_refl,
}
use osn_mp2_part_a.Pipe.{Pipe, pipesize, put_byte, is_full, is_empty}

-- `n` bytes from counter `r` on.
abbrev pub window : (ℕ → ℕ) → ℕ → ℕ → List ℕ
window f r zero = []
window f r (suc n) = f (r % pipesize) ∷ window f ((r + 1) % 2 ^ 32) n

-- `nwrite - nread` in 32 bits.
abbrev pub held : Pipe → ℕ
held p = (p.nwrite + 2 ^ 32 - p.nread) % 2 ^ 32

abbrev pub contents : Pipe → List ℕ
contents p = window p.cells p.nread (held p)

pub record IsValid (p : Pipe) : Type 0 where
  pub read_word : p.nread < 2 ^ 32
  pub write_word : p.nwrite < 2 ^ 32
  pub fits : held p ≤ pipesize

pub length-window : (f : ℕ → ℕ) (r n : ℕ) → length (window f r n) ≡ n
length-window f r zero = refl
length-window f r (suc n) = ap suc (length-window f ((r + 1) % 2 ^ 32) n)

-- A byte less than 512 places on is in another cell, also where the counter wraps.
cells_apart : (r d : ℕ) → 0 < d → d < pipesize → r % pipesize ≢ (r + d) % 2 ^ 32 % pipesize
cells_apart r d h k = omega arith

-- Writing past a window leaves it, and puts the byte behind it.
window-put :
    (f : ℕ → ℕ) (c n r w : ℕ)
    → r < 2 ^ 32
    → n < pipesize
    → w ≡ (r + n) % 2 ^ 32
    → window (λ i. if w % pipesize == i then c else f i) r (suc n) ≡ window f r n ++ c ∷ []
window-put f c zero r w h k e =
    let same : w % pipesize ≡ r % pipesize = omega arith in
    ap (λ x. x ∷ []) (rw (same, ==_refl (r % pipesize)))
window-put f c (suc n) r w h k e =
    let apart : w % pipesize ≢ r % pipesize = omega arith in
    ap₂ ◌∷◌ (rw (==_ne (w % pipesize) (r % pipesize) apart))
      (window-put f c n ((r + 1) % 2 ^ 32) w (omega arith) (omega arith) (omega arith))

module _ {p : Pipe} (v : IsValid p) where
  -- `pipewrite` finds the pipe full exactly when it holds 512 bytes.
  pub full_iff : (is_full p ≡ true → held p ≡ pipesize) × (is_full p ≡ false → held p < pipesize)
  full_iff = ground (arith, v.read_word, v.write_word, v.fits)

  pub empty_iff : (is_empty p ≡ true → held p ≡ 0) × (is_empty p ≡ false → 0 < held p)
  empty_iff = ground (arith, v.read_word, v.write_word)

  pub held-put_byte : (ch : ℕ) → held p < pipesize → held (put_byte ch p) ≡ held p + 1
  unfolding put_byte
  held-put_byte ch h = omega (arith, v.read_word, v.write_word)

  -- A byte goes to the end.
  pub contents-put_byte :
      (ch : ℕ) → held p < pipesize → contents (put_byte ch p) ≡ contents p ++ ch ∷ []
  unfolding put_byte
  contents-put_byte ch h =
      ap (window (put_byte ch p).cells p.nread)
        (let e : held (put_byte ch p) ≡ suc (held p) = omega (arith, held-put_byte ch h) in e)
      ∙ window-put p.cells ch (held p) p.nread p.nwrite v.read_word h
          (omega (arith, v.read_word, v.write_word))

  pub put_byte-IsValid : (ch : ℕ) → held p < pipesize → IsValid (put_byte ch p)
  unfolding put_byte
  put_byte-IsValid ch h = omega (arith, v.read_word, v.write_word, held-put_byte ch h)

  -- The oldest byte comes off the front.
  pub contents-next :
      0 < held p
      → contents p
        ≡ p.cells (p.nread % pipesize) ∷ contents (record p { nread = (p.nread + 1) % 2 ^ 32 })
  contents-next h =
      window_pos p.cells p.nread (held p) h
      ∙ ap (λ n. p.cells (p.nread % pipesize) ∷ window p.cells ((p.nread + 1) % 2 ^ 32) n)
          (let e : held p - 1 ≡ held (record p { nread = (p.nread + 1) % 2 ^ 32 }) =
              omega (arith, v.read_word, v.write_word) in
            e)
    where
      window_pos :
          (f : ℕ → ℕ) (r n : ℕ)
          → 0 < n
          → window f r n ≡ f (r % pipesize) ∷ window f ((r + 1) % 2 ^ 32) (n - 1)
      window_pos f r zero h = elim h [ ]
      window_pos f r (suc n) h =
          ap (λ k. f (r % pipesize) ∷ window f ((r + 1) % 2 ^ 32) k) (omega arith)

  pub next-IsValid : 0 < held p → IsValid (record p { nread = (p.nread + 1) % 2 ^ 32 })
  next-IsValid h = omega (arith, v.read_word, v.write_word, v.fits)
