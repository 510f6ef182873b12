-- ===== src/Console.antt =====
-- kernel/console.c: the ring of typed characters, of which those from `r` to `w` can be read and those
-- from `w` to `e` edited. The echo and the list of processes go to the terminal and are left out. The
-- lock makes a call one step, up to the point where it sleeps.
pub mod Ring
pub mod Reads
use osn_mp2_part_a.Base.{
  ℕ, zero, suc, ◌+◌, ◌-◌, ◌%◌, ◌^◌, Bool, true, false, not, ◌&&◌, ◌||◌, ◌==◌, ltb, if◌then◌else◌,
  List, [], ◌∷◌, ◌++◌, length,
}

-- `INPUT_BUF_SIZE`
abbrev pub input_buf_size : ℕ
input_buf_size = 128

-- `cons`; the three counters are 32-bit numbers that wrap.
pub record Console : Type 0 where
  pub buf : ℕ → ℕ
  pub r : ℕ
  pub w : ℕ
  pub e : ℕ

-- `C('P')`, `C('U')`, `C('H')` and `C('D')`.
abbrev pub ctrl_p : ℕ
ctrl_p = 16

abbrev pub ctrl_u : ℕ
ctrl_u = 21

abbrev pub ctrl_h : ℕ
ctrl_h = 8

abbrev pub ctrl_d : ℕ
ctrl_d = 4

abbrev pub newline : ℕ
newline = 10

abbrev pub next_index : ℕ → ℕ
next_index i = (i + 1) % 2 ^ 32

abbrev pub index_before : ℕ → ℕ
index_before i = (i + 2 ^ 32 - 1) % 2 ^ 32

-- `a - b` of two counters.
abbrev pub distance : ℕ → ℕ → ℕ
distance a b = (a + 2 ^ 32 - b) % 2 ^ 32

-- The loop that kills a line, with `n` rounds at most.
unfoldable pub kill_line : ℕ → Console → Console
kill_line zero s = s
kill_line (suc n) s =
    let shorter = kill_line n (record s { e = index_before s.e }) in
    if not (s.e == s.w) && not (s.buf (index_before s.e % input_buf_size) == newline)
    then shorter
    else s

abbrev pub erase : Console → Console
erase s = if s.e == s.w then s else record s { e = index_before s.e }

abbrev pub store_char : ℕ → Console → Console
store_char c s = record s {
  buf = λ i. if s.e % input_buf_size == i then c else s.buf i;
  e = next_index s.e;
}

-- `cons.w = cons.e` after a whole line, an end of file, or a full buffer.
abbrev pub end_line : ℕ → Console → Console
end_line c s =
    if c == newline || (c == ctrl_d || distance s.e s.r == input_buf_size)
    then record s { w = s.e }
    else s

-- `c = (c == '\r') ? '\n' : c`
abbrev pub typed_char : ℕ → ℕ
typed_char c = if c == 13 then newline else c

unfoldable pub consoleintr : ℕ → Console → Console
consoleintr c s =
    if c == ctrl_p
    then s
    else if c == ctrl_u
    then kill_line input_buf_size s
    else if c == ctrl_h || c == 127
    then erase s
    else if not (c == 0) && ltb (distance s.e s.r) input_buf_size
    then end_line (typed_char c) (store_char (typed_char c) s)
    else s

-- How a run of `consoleread` ends: it returns the count of the bytes that it gave, or -1, or sleeps with
-- the bytes given so far.
pub data ReadEnd : Type 0 where
  gave : List ℕ → ReadEnd
  refused : ReadEnd
  waits : List ℕ → ReadEnd

abbrev pub is_none_yet : List ℕ → Bool
is_none_yet [] = true
is_none_yet (c ∷ cs) = false

-- The loop, with `n` bytes left to read and `given` before. `fails` says which copies fail.
unfoldable pub consoleread : Bool → (ℕ → Bool) → ℕ → List ℕ → Console → ReadEnd × Console
consoleread killed fails zero given s = (gave given, s)
consoleread killed fails (suc n) given s =
    let c = s.buf (s.r % input_buf_size) in
    let after = record s { r = next_index s.r } in
    let rest = consoleread killed fails n (given ++ c ∷ []) after in
    if s.r == s.w
    then (if killed then (refused, s) else (waits given, s))
    else if c == ctrl_d
    then (gave given, if is_none_yet given then after else s)
    else if fails (length given)
    then (gave given, after)
    else if c == newline
    then (gave (given ++ c ∷ []), after)
    else rest
