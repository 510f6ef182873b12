-- ===== src/Pipe.antt =====
-- kernel/pipe.c: a pipe as a ring of 512 bytes between two 32-bit counters that wrap. The lock makes
-- a call one step up to the point where it sleeps; `wakeup` changes no state of the pipe.
pub mod Queue
pub mod Transfer
use osn_mp2_part_a.Base.{
  ℕ, zero, suc, ◌+◌, ◌%◌, ◌^◌, Bool, true, false, not, ◌&&◌, ◌||◌, ◌==◌, if◌then◌else◌, Option,
  none, some, List, [], ◌∷◌,
}

abbrev pub pipesize : ℕ
pipesize = 512

-- `data[i]` is `cells i`, for `i` below the size.
pub record Pipe : Type 0 where
  pub cells : ℕ → ℕ
  pub nread : ℕ
  pub nwrite : ℕ
  pub readopen : Bool
  pub writeopen : Bool

-- The fields that `pipealloc` sets; the bytes are what the page held.
abbrev pub fresh_pipe : (ℕ → ℕ) → Pipe
fresh_pipe junk = record { cells = junk; nread = 0; nwrite = 0; readopen = true; writeopen = true }

-- The pipe after `pipeclose`, and whether it is freed.
unfoldable pub pipeclose : Bool → Pipe → Pipe × Bool
pipeclose writable p =
    let q = if writable then record p { writeopen = false } else record p { readopen = false } in
    (q, not q.readopen && not q.writeopen)

abbrev pub is_full : Pipe → Bool
is_full p = p.nwrite == (p.nread + pipesize) % 2 ^ 32

abbrev pub is_empty : Pipe → Bool
is_empty p = p.nread == p.nwrite

-- `data[nwrite++ % PIPESIZE] = ch`
unfoldable pub put_byte : ℕ → Pipe → Pipe
put_byte ch p = record p {
  cells = λ i. if p.nwrite % pipesize == i then ch else p.cells i;
  nwrite = (p.nwrite + 1) % 2 ^ 32;
}

-- How a run of `pipewrite` ends: it returns the count, returns -1, or sleeps with the bytes that are
-- left and the count so far, from which it goes on.
pub data WriteEnd : Type 0 where
  wrote : ℕ → WriteEnd
  failed : WriteEnd
  sleeps : List (Option ℕ) → ℕ → WriteEnd

-- The loop of `pipewrite`. A byte of the user's memory is `none` where `copyin` fails.
unfoldable pub pipewrite : Bool → List (Option ℕ) → ℕ → Pipe → WriteEnd × Pipe
pipewrite killed [] i p = (wrote i, p)
pipewrite killed (x ∷ xs) i p =
    if not p.readopen || killed
    then (failed, p)
    else if is_full p
    then (sleeps (x ∷ xs) i, p)
    else elim x [ none ↦ (wrote i, p) | some ch ↦ pipewrite killed xs (i + 1) (put_byte ch p) ]

-- What a run of `piperead` gives: the count, or `none` for -1, the bytes copied to the user, and the
-- pipe.
pub record ReadEnd : Type 0 where
  pub count : Option ℕ
  pub bytes : List ℕ
  pub pipe : Pipe

abbrev pub deliver : ℕ → ReadEnd → ReadEnd
deliver ch r = record r { bytes = ch ∷ r.bytes }

-- The copying loop, `n` rounds from its end; `fits i` says whether the `copyout` of byte `i` works.
unfoldable pub read_from : (ℕ → Bool) → ℕ → ℕ → Pipe → ReadEnd
read_from fits zero i p = record { count = some i; bytes = []; pipe = p }
read_from fits (suc n) i p =
    let rest =
      deliver (p.cells (p.nread % pipesize))
        (read_from fits n (i + 1) (record p { nread = (p.nread + 1) % 2 ^ 32 })) in
    if is_empty p
    then record { count = some i; bytes = []; pipe = p }
    else if fits i
    then rest
    else record { count = if i == 0 then none else some i; bytes = []; pipe = p }

-- `none` where `piperead` sleeps; the pipe is as it was.
unfoldable pub piperead : Bool → (ℕ → Bool) → ℕ → Pipe → Option ReadEnd
piperead killed fits n p =
    if is_empty p && p.writeopen
    then (if killed then some (record { count = none; bytes = []; pipe = p }) else none)
    else some (read_from fits n 0 p)
