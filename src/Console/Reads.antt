-- ===== src/Console/Reads.antt =====
-- What a read of the console gives.
use osn_mp2_part_a.Base.{
  if◌then◌else◌, ℕ, zero, suc, ◌%◌, ◌≤◌, Bool, true, false, ◌==◌, List, [], ◌∷◌, ◌++◌, length, ◌≡◌,
  refl, sym, ap, ◌∙◌, arith, Bool-cases, inl, inr,
}
use mathlib.Core.List.{append-nil, append_assoc}
use osn_mp2_part_a.Console.{
  Console, input_buf_size, ctrl_d, newline, next_index, distance, ReadEnd, gave, refused, waits,
  is_none_yet, consoleread,
}
use osn_mp2_part_a.Console.Ring.{Ordered, window, readable}

-- A read of `n` bytes from `s`, which gave `given` before, ends with the front of what can be read; it
-- sleeps only when it has given all of that.
abbrev pub Given : ℕ → List ℕ → Console → ReadEnd → Type 0
Given n given s (gave out) =
    (front : List ℕ) × (rest : List ℕ) × (out ≡ given ++ front)
    × (readable s ≡ front ++ rest)
    × (length front ≤ n)
Given n given s refused = Unit
Given n given s (waits out) = out ≡ given ++ readable s

-- A read on the queue of the characters that can be read: how it ends, and what is left. A failed copy
-- has taken its character, and an end of file stays for the next read where bytes were given.
pub read_line : Bool → (ℕ → Bool) → ℕ → List ℕ → List ℕ → ReadEnd × List ℕ
read_line killed fails zero given xs = (gave given, xs)
read_line killed fails (suc n) given [] = (if killed then refused else waits given, [])
read_line killed fails (suc n) given (c ∷ xs) =
    let rest = read_line killed fails n (given ++ c ∷ []) xs in
    if c == ctrl_d
    then (gave given, if is_none_yet given then xs else c ∷ xs)
    else if fails (length given)
    then (gave given, xs)
    else if c == newline
    then (gave (given ++ c ∷ []), xs)
    else rest

-- The run of the read on the ring does what the one on the queue does.
abbrev pub Follows : ReadEnd × Console → ReadEnd × List ℕ → Type 0
Follows o r = (o.0 ≡ r.0) × (readable o.1 ≡ r.1)

pub record Reads (killed : Bool) (fails : ℕ → Bool) (n : ℕ) (given : List ℕ) (s : Console)
    (o : ReadEnd × Console) : Type 0 where
  pub queue : Follows o (read_line killed fails n given (readable s))
  pub order : Ordered o.1
  pub same_w : o.1.w ≡ s.w
  pub same_e : o.1.e ≡ s.e
  pub bytes : Given n given s o.0

module _ (s : Console) (o : Ordered s) where
  abbrev after : Console
  after = record s { r = next_index s.r }

  after-Ordered : (s.r == s.w) ≡ false → Ordered after
  after-Ordered ne = record {
    r_word = omega arith;
    w_word = o.w_word;
    e_word = o.e_word;
    ready = ground (arith, o.ready, o.r_word, o.w_word, o.e_word);
    held = ground (arith, o.ready, o.held, o.r_word, o.w_word, o.e_word);
  }

  -- The next character to read.
  readable-after : (s.r == s.w) ≡ false → readable s ≡ s.buf (s.r % input_buf_size) ∷ readable after
  readable-after ne = ap (window s.buf s.r) (
      let e : distance s.w s.r ≡ suc (distance s.w (next_index s.r)) =
        ground (arith, o.r_word, o.w_word) in
      e)

  readable-empty : (s.r == s.w) ≡ true → readable s ≡ []
  readable-empty e =
      ap (window s.buf s.r) (let z : distance s.w s.r ≡ 0 = ground (arith, o.r_word) in z)

  no_more : (n : ℕ) (given : List ℕ) → Given n given s (gave given)
  no_more n given = ([], readable s, sym (append-nil given), refl, omega arith)

  one_more :
      (n : ℕ) (given : List ℕ)
      → (s.r == s.w) ≡ false
      → Given (suc n) given s (gave (given ++ s.buf (s.r % input_buf_size) ∷ []))
  one_more n given ne = (_ ∷ [], readable after, refl, readable-after ne, omega arith)

-- The bytes given from the next character on follow it.
Given-after :
    (n : ℕ) (given : List ℕ) (s : Console) (o : Ordered s) (r : ReadEnd)
    → (s.r == s.w) ≡ false
    → Given n (given ++ s.buf (s.r % input_buf_size) ∷ []) (after s o) r
    → Given (suc n) given s r
Given-after n given s o (gave out) ne (front, rest, e, q, l) = (
  s.buf (s.r % input_buf_size) ∷ front,
  rest,
  e ∙ append_assoc given (s.buf (s.r % input_buf_size) ∷ []) front,
  readable-after s o ne ∙ ap (◌∷◌ (s.buf (s.r % input_buf_size))) q,
  omega arith,
)
Given-after n given s o refused ne g = tt
Given-after n given s o (waits out) ne g =
    g
    ∙ append_assoc given (s.buf (s.r % input_buf_size) ∷ []) (readable (after s o))
    ∙ ap (λ t. given ++ t) (sym (readable-after s o ne))

-- A read of `n` bytes does on the ring what `read_line` does on the queue of the characters that can be
-- read: it ends in the same way, with the same bytes, and leaves the same characters to be read, whether
-- the process is killed and whichever copies fail. It keeps the counters in order and moves only the
-- read counter. It returns at most `n` bytes from the front of what can be read, in order; it sleeps only
-- when it has given all of that.
pub consoleread_lem :
    (killed : Bool) (fails : ℕ → Bool) (n : ℕ) (given : List ℕ) (s : Console)
    → Ordered s
    → Reads killed fails n given s (consoleread killed fails n given s)
unfolding consoleread read_line
consoleread_lem killed fails zero given s o = record {
  queue = (refl, refl);
  order = o;
  same_w = refl;
  same_e = refl;
  bytes = no_more s o 0 given;
}
consoleread_lem killed fails (suc n) given s o = elim (Bool-cases (s.r == s.w)) [
  | inl e ↦ elim (Bool-cases killed) [
    | inl k ↦
        rw (e, k)
          (record {
            queue = rw (readable-empty s o e) (refl, refl);
            order = o;
            same_w = refl;
            same_e = refl;
            bytes = tt;
          })
    | inr k ↦
        rw (e, k)
          (record {
            queue = rw (readable-empty s o e) (refl, refl);
            order = o;
            same_w = refl;
            same_e = refl;
            bytes = sym (ap (λ t. given ++ t) (readable-empty s o e) ∙ append-nil given);
          })
  ]
  | inr ne ↦ elim (Bool-cases (s.buf (s.r % input_buf_size) == ctrl_d)) [
    | inl d ↦ elim (Bool-cases (is_none_yet given)) [
      | inl y ↦
          rw (ne, d, y)
            (record {
              queue = rw (readable-after s o ne, d, y) (refl, refl);
              order = after-Ordered s o ne;
              same_w = refl;
              same_e = refl;
              bytes = no_more s o (suc n) given;
            })
      | inr y ↦
          rw (ne, d, y)
            (record {
              queue = rw (readable-after s o ne, d, y) (refl, refl);
              order = o;
              same_w = refl;
              same_e = refl;
              bytes = no_more s o (suc n) given;
            })
    ]
    | inr d ↦ elim (Bool-cases (fails (length given))) [
      | inl f ↦
          rw (ne, d, f)
            (record {
              queue = rw (readable-after s o ne, d, f) (refl, refl);
              order = after-Ordered s o ne;
              same_w = refl;
              same_e = refl;
              bytes = no_more s o (suc n) given;
            })
      | inr f ↦ elim (Bool-cases (s.buf (s.r % input_buf_size) == newline)) [
        | inl l ↦
            rw (ne, d, f, l)
              (record {
                queue = rw (readable-after s o ne, d, f, l) (refl, refl);
                order = after-Ordered s o ne;
                same_w = refl;
                same_e = refl;
                bytes = one_more s o n given ne;
              })
        | inr l ↦
            rw (ne, d, f, l)
              (let rest =
                  consoleread_lem killed fails n (given ++ s.buf (s.r % input_buf_size) ∷ [])
                    (after s o) (after-Ordered s o ne) in
                record {
                  queue = rw (readable-after s o ne, d, f, l) rest.queue;
                  order = rest.order;
                  same_w = rest.same_w;
                  same_e = rest.same_e;
                  bytes = Given-after n given s o _ ne rest.bytes;
                })
      ]
    ]
  ]
]
