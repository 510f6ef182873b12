-- ===== src/Pipe/Transfer.antt =====
-- `pipewrite` and `piperead` against the queue of bytes.
use osn_mp2_part_a.Base.{
  ℕ, zero, suc, ◌+◌, ◌%◌, ◌^◌, ◌≤◌, ◌<◌, Bool, true, false, not, ◌&&◌, ◌||◌, ◌==◌, if◌then◌else◌,
  Option, none, some, List, [], ◌∷◌, ◌++◌, length, drop, ◌≡◌, refl, ap, ◌∙◌, sym, arith, Bool-cases,
  eq_or_ne, ==_ne, inl, inr, ◌⊎◌,
}
use mathlib.Core.List.{append-nil, append_assoc}
use osn_mp2_part_a.Pipe.{
  Pipe, pipesize, put_byte, is_full, is_empty, WriteEnd, wrote, failed, sleeps, pipewrite, ReadEnd,
  deliver, read_from, piperead,
}
use osn_mp2_part_a.Pipe.Queue.{
  IsValid, contents, held, contents-put_byte, put_byte-IsValid, contents-next, next-IsValid,
  full_iff, empty_iff,
}

-- The bytes at the front of the source that could be read.
abbrev pub given : ℕ → List (Option ℕ) → List ℕ
given zero xs = []
given (suc n) [] = []
given (suc n) (none ∷ xs) = []
given (suc n) (some x ∷ xs) = x ∷ given n xs

-- After `n` bytes that can be read the source ends, or has a byte that cannot.
abbrev pub StopsAt : ℕ → List (Option ℕ) → Type 0
StopsAt zero [] = Unit {0}
StopsAt zero (none ∷ xs) = Unit {0}
StopsAt zero (some x ∷ xs) = ⊥
StopsAt (suc n) [] = ⊥
StopsAt (suc n) (none ∷ xs) = ⊥
StopsAt (suc n) (some x ∷ xs) = StopsAt n xs

-- A round of the loop goes on.
abbrev pub Passes : Pipe → Bool → Type 0
Passes p killed = (p.readopen ≡ true) × (killed ≡ false)

-- What a run of `pipewrite` on `xs`, started with the count `i` at `p`, has done after `n` bytes.
abbrev pub Ended : Pipe → List (Option ℕ) → ℕ → ℕ → Bool → WriteEnd × Pipe → Type 0
Ended p xs i n killed (wrote c, q) = (c ≡ i + n) × StopsAt n xs × ((xs ≡ []) ⊎ Passes p killed)
Ended p xs i n killed (failed, q) =
    ((p.readopen ≡ false) ⊎ (killed ≡ true)) × (n ≡ 0) × (0 < length xs)
Ended p xs i n killed (sleeps rest c, q) =
    (c ≡ i + n) × (held q ≡ pipesize) × (rest ≡ drop n xs) × (n < length xs) × Passes p killed

pub record Wrote (p : Pipe) (xs : List (Option ℕ)) (i : ℕ) (killed : Bool) (r : WriteEnd × Pipe)
    : Type 0 where
  pub taken : ℕ
  pub all : length (given taken xs) ≡ taken
  pub appended : contents r.1 ≡ contents p ++ given taken xs
  pub valid : IsValid r.1
  pub open_ends : (r.1.readopen ≡ p.readopen) × (r.1.writeopen ≡ p.writeopen)
  pub ended : Ended p xs i taken killed r

Wrote-none :
    (p : Pipe) (xs : List (Option ℕ)) (i : ℕ) (killed : Bool) (e : WriteEnd)
    → IsValid p
    → Ended p xs i 0 killed (e, p)
    → Wrote p xs i killed (e, p)
Wrote-none p xs i killed e v d = record {
  taken = 0;
  all = refl;
  appended = sym (append-nil (contents p));
  valid = v;
  open_ends = (refl, refl);
  ended = d;
}

Wrote-byte :
    (p : Pipe) (x : ℕ) (xs : List (Option ℕ)) (i : ℕ) (killed : Bool) (r : WriteEnd × Pipe)
    → IsValid p
    → held p < pipesize
    → Passes p killed
    → Wrote (put_byte x p) xs (i + 1) killed r
    → Wrote p (some x ∷ xs) i killed r
unfolding put_byte
Wrote-byte p x xs i killed (e, q) v h g w = record {
  taken = suc w.taken;
  all = ap suc w.all;
  appended =
      w.appended
      ∙ ap (λ c. c ++ given w.taken xs) (contents-put_byte v x h)
      ∙ append_assoc (contents p) (x ∷ []) (given w.taken xs);
  valid = w.valid;
  open_ends = w.open_ends;
  ended = ended e w.ended;
}
  where
    ended :
        (e : WriteEnd)
        → Ended (put_byte x p) xs (i + 1) w.taken killed (e, q)
        → Ended p (some x ∷ xs) i (suc w.taken) killed (e, q)
    ended (wrote c) d = (omega (arith, d.0), d.1, inr g)
    ended failed d = ground (arith, g, d)
    ended (sleeps rest c) d = (omega (arith, d.0), d.1, d.2, omega (arith, d.3), g)

stopped : (o killed : Bool) → (not o || killed) ≡ true → (o ≡ false) ⊎ (killed ≡ true)
stopped o killed e = ground arith

passed : (o killed : Bool) → (not o || killed) ≡ false → (o ≡ true) × (killed ≡ false)
passed o killed e = ground arith

-- `pipewrite` on a valid pipe appends bytes from the front of the source to those in the pipe, in
-- order, and keeps the pipe valid and its ends open. It returns the number of bytes that it
-- appended, after all of them or at the first that cannot be read. With bytes to write, it fails
-- exactly where the reading end is closed or the process was killed, and has then appended nothing.
-- It sleeps only with 512 bytes in the pipe and some left to write, keeping the count and those.
pub pipewrite_lem :
    (killed : Bool) (xs : List (Option ℕ)) (i : ℕ) (p : Pipe)
    → IsValid p
    → Wrote p xs i killed (pipewrite killed xs i p)
unfolding pipewrite
pipewrite_lem killed [] i p v = Wrote-none p [] i killed (wrote i) v (omega arith, tt, inl refl)
pipewrite_lem killed (x ∷ xs) i p v = elim (Bool-cases (not p.readopen || killed)) [
  | inl stop ↦
      rw stop (
        Wrote-none p (x ∷ xs) i killed failed v (stopped p.readopen killed stop, refl, omega arith))
  | inr go ↦ rw go (elim (Bool-cases (is_full p)) [
    | inl full ↦ rw full (
        Wrote-none p (x ∷ xs) i killed (sleeps (x ∷ xs) i) v
          (omega arith, (full_iff v).0 full, refl, omega arith, passed p.readopen killed go))
    | inr space ↦ rw space (
        byte x (passed p.readopen killed go) ((full_iff v).1 space)
          (λ c h. pipewrite_lem killed xs (i + 1) (put_byte c p) (put_byte-IsValid v c h)))
  ])
]
  where
    byte :
        (x : Option ℕ)
        → Passes p killed
        → held p < pipesize
        → ((c : ℕ)
            → held p < pipesize
            → Wrote (put_byte c p) xs (i + 1) killed (pipewrite killed xs (i + 1) (put_byte c p)))
        → Wrote p
            (x ∷ xs)
            i
            killed
            (elim x [ none ↦ (wrote i, p) | some ch ↦ pipewrite killed xs (i + 1) (put_byte ch p) ])
    byte none g h rest = Wrote-none p (none ∷ xs) i killed (wrote i) v (omega arith, tt, inr g)
    byte (some c) g h rest = Wrote-byte p c xs i killed _ v h g (rest c h)

-- What a run of the copying loop from `i`, with `n` rounds left, has done.
pub record Read (fits : ℕ → Bool) (n i : ℕ) (p : Pipe) (r : ReadEnd) : Type 0 where
  pub split : contents p ≡ r.bytes ++ contents r.pipe
  pub valid : IsValid r.pipe
  pub bounded : length r.bytes ≤ n
  pub counted :
      (r.count ≡ some (i + length r.bytes))
      ⊎ ((r.count ≡ none) × (i + length r.bytes ≡ 0) × (fits 0 ≡ false))
  pub stopped : (length r.bytes ≡ n) ⊎ ((held r.pipe ≡ 0) ⊎ (fits (i + length r.bytes) ≡ false))

failed_at :
    (fits : ℕ → Bool) (i : ℕ)
    → fits i ≡ false
    → ((if i == 0 then none else some i) ≡ some (i + 0))
      ⊎ (((if i == 0 then none else some i) ≡ none) × (i + 0 ≡ 0) × (fits 0 ≡ false))
failed_at fits i bad = elim (eq_or_ne i 0) [
  | inl e ↦ inr (rw e refl, omega arith, ap fits (sym e) ∙ bad)
  | inr ne ↦ inl (rw (==_ne i 0 ne) (ap some (let e : i ≡ i + 0 = omega arith in e)))
]

read_from-Read :
    (fits : ℕ → Bool) (n i : ℕ) (p : Pipe) → IsValid p → Read fits n i p (read_from fits n i p)
unfolding read_from
read_from-Read fits zero i p v = record {
  split = refl;
  valid = v;
  bounded = omega arith;
  counted = inl (ap some (omega arith));
  stopped = inl refl;
}
read_from-Read fits (suc n) i p v = elim (Bool-cases (is_empty p)) [
  | inl e ↦ rw e (record {
    split = refl;
    valid = v;
    bounded = omega arith;
    counted = inl (ap some (omega arith));
    stopped = inr (inl ((empty_iff v).0 e));
  })
  | inr more ↦ rw more (elim (Bool-cases (fits i)) [
    | inl fit ↦ rw fit (
        next ((empty_iff v).1 more) (
          read_from-Read fits n (i + 1) (record p { nread = (p.nread + 1) % 2 ^ 32 })
            (next-IsValid v ((empty_iff v).1 more))))
    | inr bad ↦
        let at : fits (i + 0) ≡ false = ap fits (omega arith) ∙ bad in
        rw bad (record {
          split = refl;
          valid = v;
          bounded = omega arith;
          counted = failed_at fits i bad;
          stopped = inr (inr at);
        })
  ])
]
  where
    next :
        {r : ReadEnd}
        → 0 < held p
        → Read fits n (i + 1) (record p { nread = (p.nread + 1) % 2 ^ 32 }) r
        → Read fits (suc n) i p (deliver (p.cells (p.nread % pipesize)) r)
    next {r} h w =
        let shift : i + 1 + length r.bytes ≡ i + suc (length r.bytes) = omega arith in
        record {
          split = contents-next v h ∙ ap (λ xs. p.cells (p.nread % pipesize) ∷ xs) w.split;
          valid = w.valid;
          bounded = omega (arith, w.bounded);
          counted = elim w.counted [
            | inl e ↦ inl (e ∙ ap some shift)
            | inr e ↦ absurd (let no : ⊥ = omega (arith, e.1) in no)
          ];
          stopped = elim w.stopped [
            | inl e ↦ inl (omega arith)
            | inr (inl e) ↦ inr (inl e)
            | inr (inr e) ↦ inr (inr (ap fits (sym shift) ∙ e))
          ];
        }

-- `piperead` on a valid pipe sleeps only where the pipe is empty, its writing end is open and the
-- process was not killed. Otherwise it either fails with the pipe unchanged, where it would sleep
-- but the process was killed, or gives a run of the copying loop: the bytes copied are the front of
-- those in the pipe, in order, the rest stays in it, at most `n` are copied, the count is theirs
-- (or -1, where the first byte cannot be copied), and the loop stops before `n` only where the pipe
-- is empty or a byte cannot be copied.
pub piperead_lem :
    (killed : Bool) (fits : ℕ → Bool) (n : ℕ) (p : Pipe)
    → IsValid p
    → ((piperead killed fits n p ≡ none) × (held p ≡ 0) × (p.writeopen ≡ true) × (killed ≡ false))
      ⊎ (((piperead killed fits n p ≡ some (record { count = none; bytes = []; pipe = p }))
            × (held p ≡ 0)
            × (p.writeopen ≡ true)
            × (killed ≡ true))
          ⊎ ((r : ReadEnd) × (piperead killed fits n p ≡ some r) × Read fits n 0 p r))
unfolding piperead
piperead_lem killed fits n p v = elim (Bool-cases (is_empty p && p.writeopen)) [
  | inr go ↦ inr (inr (_, rw go refl, read_from-Read fits n 0 p v))
  | inl stop ↦
      let e : is_empty p ≡ true = ground (arith, stop) in
      let o : p.writeopen ≡ true = ground (arith, stop) in
      elim (Bool-cases killed) [
        | inl k ↦ inr (inl (rw (stop, k) refl, (empty_iff v).0 e, o, k))
        | inr k ↦ inl (rw (stop, k) refl, (empty_iff v).0 e, o, k)
      ]
]
