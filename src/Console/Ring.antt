-- ===== src/Console/Ring.antt =====
-- The ring of the console: its counters stay in order, and editing does not touch what can be read.
use osn_mp2_part_a.Base.{
  ℕ, zero, suc, ◌%◌, ◌^◌, ◌≤◌, ◌<◌, false, not, ◌&&◌, ◌||◌, ◌==◌, ltb, if◌then◌else◌, List, [], ◌∷◌,
  ◌≡◌, refl, ap₂, arith, Bool-cases, inl, inr, ==_ne, ◌≢◌,
}
use osn_mp2_part_a.Console.{
  Console, input_buf_size, ctrl_p, ctrl_u, ctrl_h, ctrl_d, newline, next_index, index_before,
  distance, kill_line, store_char, end_line, typed_char, consoleintr,
}

-- The counters are in order, and at most 128 characters are held.
pub record Ordered (s : Console) : Type 0 where
  pub r_word : s.r < 2 ^ 32
  pub w_word : s.w < 2 ^ 32
  pub e_word : s.e < 2 ^ 32
  pub ready : distance s.w s.r ≤ distance s.e s.r
  pub held : distance s.e s.r ≤ input_buf_size

-- `n` characters from a counter on, and those that can be read.
abbrev pub window : (ℕ → ℕ) → ℕ → ℕ → List ℕ
window f i zero = []
window f i (suc n) = f (i % input_buf_size) ∷ window f (next_index i) n

abbrev pub readable : Console → List ℕ
readable s = window s.buf s.r (distance s.w s.r)

window-frame :
    (f : ℕ → ℕ) (c n i e : ℕ)
    → i < 2 ^ 32
    → e < 2 ^ 32
    → n ≤ distance e i
    → distance e i < input_buf_size
    → window (λ j. if e % input_buf_size == j then c else f j) i n ≡ window f i n
window-frame f c zero i e h k l u = refl
window-frame f c (suc n) i e h k l u =
    let apart : e % input_buf_size ≢ i % input_buf_size = omega arith in
    ap₂ ◌∷◌ (rw (==_ne (e % input_buf_size) (i % input_buf_size) apart) refl)
      (window-frame f c n (next_index i) e (omega arith) k (omega arith) (omega arith))

-- What a typed character leaves: the counters in order, and what could be read before, with perhaps
-- more behind it.
pub record Typed (s t : Console) : Type 0 where
  pub order : Ordered t
  pub same_r : t.r ≡ s.r
  pub grows : distance s.w s.r ≤ distance t.w t.r
  pub keeps : window t.buf s.r (distance s.w s.r) ≡ readable s

Typed-refl : (s : Console) → Ordered s → Typed s s
Typed-refl s o = record { order = o; same_r = refl; grows = omega arith; keeps = refl }

erase-Typed :
    (s : Console) → Ordered s → (s.e == s.w) ≡ false → Typed s (record s { e = index_before s.e })
erase-Typed s o ne = record {
  order = record {
    r_word = o.r_word;
    w_word = o.w_word;
    e_word = omega arith;
    ready = ground (arith, o.ready, o.held, o.r_word, o.w_word, o.e_word);
    held = ground (arith, o.ready, o.held, o.r_word, o.w_word, o.e_word);
  };
  same_r = refl;
  grows = omega arith;
  keeps = refl;
}

-- Killing a line moves the edit counter alone.
record Killed (s t : Console) : Type 0 where
  pub order : Ordered t
  pub same_buf : t.buf ≡ s.buf
  pub same_r : t.r ≡ s.r
  pub same_w : t.w ≡ s.w

kill_line-Killed : (n : ℕ) (s : Console) → Ordered s → Killed s (kill_line n s)
unfolding kill_line
kill_line-Killed zero s o = record { order = o; same_buf = refl; same_r = refl; same_w = refl }
kill_line-Killed (suc n) s o =
    elim (Bool-cases
      (not (s.e == s.w) && not (s.buf (index_before s.e % input_buf_size) == newline))) [
        | inr z ↦
            rw (z, kill_line) (record { order = o; same_buf = refl; same_r = refl; same_w = refl })
        | inl z ↦
            rw (z, kill_line)
              (let one = erase-Typed s o (ground (arith, z)) in
                let rest = kill_line-Killed n (record s { e = index_before s.e }) one.order in
                record {
                  order = rest.order;
                  same_buf = rest.same_buf;
                  same_r = rest.same_r;
                  same_w = rest.same_w;
                })
      ]

Killed-Typed : (s t : Console) → Killed s t → Typed s t
Killed-Typed s t k = record {
  order = k.order;
  same_r = k.same_r;
  grows = rw (k.same_r, k.same_w) (omega arith);
  keeps = rw k.same_buf refl;
}

module _ (s : Console) (o : Ordered s) (c : ℕ) (free : distance s.e s.r < input_buf_size) where
  store_char-Ordered : Ordered (store_char c s)
  store_char-Ordered = record {
    r_word = o.r_word;
    w_word = o.w_word;
    e_word = omega arith;
    ready = omega (arith, o.ready, o.r_word, o.w_word, o.e_word);
    held = omega (arith, o.r_word, o.e_word);
  }

  -- The character goes behind the line, and the line can be read when it is complete.
  store_char-Typed : Typed s (end_line c (store_char c s))
  store_char-Typed =
      let kept : window (store_char c s).buf s.r (distance s.w s.r) ≡ readable s =
        window-frame s.buf c (distance s.w s.r) s.r s.e o.r_word o.e_word o.ready free in
      elim (Bool-cases
        (c == newline || (c == ctrl_d || distance (next_index s.e) s.r == input_buf_size))) [
          | inr z ↦ rw z (record {
            order = store_char-Ordered;
            same_r = refl;
            grows = omega arith;
            keeps = kept;
          })
          | inl z ↦ rw z (record {
            order = record {
              r_word = o.r_word;
              w_word = omega arith;
              e_word = omega arith;
              ready = omega arith;
              held = omega (arith, o.r_word, o.e_word);
            };
            same_r = refl;
            grows = omega (arith, o.ready, o.r_word, o.w_word, o.e_word);
            keeps = kept;
          })
        ]

-- Whatever character is typed, the counters stay in order with at most 128 characters between them, and
-- what could be read before can still be read, unchanged and first.
pub consoleintr_lem : (c : ℕ) (s : Console) → Ordered s → Typed s (consoleintr c s)
unfolding consoleintr
consoleintr_lem c s o = elim (Bool-cases (c == ctrl_p)) [
  | inl p ↦ rw p (Typed-refl s o)
  | inr p ↦ elim (Bool-cases (c == ctrl_u)) [
    | inl u ↦ rw (p, u) (Killed-Typed s _ (kill_line-Killed input_buf_size s o))
    | inr u ↦ elim (Bool-cases (c == ctrl_h || c == 127)) [
      | inl h ↦ elim (Bool-cases (s.e == s.w)) [
        | inl e ↦ rw (p, u, h, e) (Typed-refl s o)
        | inr e ↦ rw (p, u, h, e) (erase-Typed s o e)
      ]
      | inr h ↦ elim (Bool-cases (not (c == 0) && ltb (distance s.e s.r) input_buf_size)) [
        | inr f ↦ rw (p, u, h, f) (Typed-refl s o)
        | inl f ↦ rw (p, u, h, f) (store_char-Typed s o (typed_char c) (ground (arith, f)))
      ]
    ]
  ]
]
