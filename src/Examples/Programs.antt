-- ===== src/Examples/Programs.antt =====
-- The system calls on memory, and the start of a program, in a small kernel, and a line typed at the
-- console.
use osn_mp2_part_a.Base.{
  Bool, ◌&&◌, ◌⊎◌, if◌then◌else◌, ◌==◌, false, ℕ, true, Option, none, some, List, [], ◌∷◌, ◌≡◌,
  refl, arith, All, ltb,
}
use osn_mp2_part_a.Base.Triple.{After, Triple}
use osn_mp2_part_a.Paging.{init_paging_info}
use osn_mp2_part_a.Paging.Kernel.{Kernel, Proc, FileSystem}
use osn_mp2_part_a.Paging.Kernel.Triple.{Triple as ProcTriple, After as ProcAfter}
use osn_mp2_part_a.Sysproc.{mem_stat, sys_sbrk}
use osn_mp2_part_a.Sysproc.Memstat.{Reports, mem_stat_lem}
use osn_mp2_part_a.Sysproc.Bounds.{Sbrk, sys_sbrk_lem}
use osn_mp2_part_a.Exec.{ExecFiles, Arg, push_args, load_from}
use osn_mp2_part_a.Exec.Stack.{ArgsPlaced, push_args-ArgsPlaced}
use osn_mp2_part_a.Exec.Segments.{SegmentsOk, IsByte, load_from-SegmentsOk}
use osn_mp2_part_a.Base.Result.{ok, pure}
use osn_mp2_part_a.Paging.Swap.{K}
use osn_mp2_part_a.Trap.{Frame, exits, usertrap}
use osn_mp2_part_a.Trap.Ends.{Left, usertrap_exits}
use osn_mp2_part_a.Console.{Console, consoleintr, consoleread}
use osn_mp2_part_a.Console.Ring.{Ordered, Typed, consoleintr_lem}
use osn_mp2_part_a.Console.Reads.{Reads, consoleread_lem}
use osn_mp2_part_a.Examples.Swapping.{zero_fs, small_kernel, two_pages}

abbrev busy : Proc
busy = record small_kernel.proc { paging = record init_paging_info { pages = two_pages } }

mem_stat_lem_example : Reports busy (mem_stat busy)
mem_stat_lem_example = mem_stat_lem busy

sys_sbrk_lem_example :
    After
      (λ r t. Sbrk small_kernel.proc.sz 0x3000 r t.proc.sz)
      (sys_sbrk zero_fs 0x3000 small_kernel)
sys_sbrk_lem_example = sys_sbrk_lem zero_fs 0x3000 small_kernel (omega arith) (omega arith)

-- "ab" and a newline can be read, and "c" is edited.
abbrev typed : Console
typed = record {
  buf = λ i. if i == 0 then 97 else if i == 1 then 98 else if i == 2 then 10 else 99;
  r = 0;
  w = 3;
  e = 4;
}

typed-Ordered : Ordered typed
typed-Ordered = record {
  r_word = omega arith;
  w_word = omega arith;
  e_word = omega arith;
  ready = omega arith;
  held = omega arith;
}

consoleintr_lem_example : Typed typed (consoleintr 21 typed)
consoleintr_lem_example = consoleintr_lem 21 typed typed-Ordered

consoleread_lem_example :
    Reads false (λ i. false) 8 [] typed (consoleread false (λ i. false) 8 [] typed)
consoleread_lem_example = consoleread_lem false (λ i. false) 8 [] typed typed-Ordered

abbrev no_files : ExecFiles Unit
no_files = record {
  namei = λ path s. (some 3, s);
  idup = λ i s. s;
  iput = λ i s. s;
  fileclose = λ f s. s;
}

abbrev two_args : List Arg
two_args = record { addr = 0x80023000; len = 5 } ∷ record { addr = 0x80023100; len = 20 } ∷ []

push_args-ArgsPlaced_example :
    Triple
      (λ k. Unit)
      (push_args zero_fs no_files 0x80030000 0x5000 two_args 0 0x6000)
      (λ r k. ArgsPlaced 0x5000 two_args 0 0x6000 r)
push_args-ArgsPlaced_example =
    push_args-ArgsPlaced zero_fs no_files 0x80030000 0x5000 two_args 0 0x6000
      (omega arith, (omega arith, tt)) (omega arith) (omega arith) (omega arith)

-- A program header: 0x100 bytes of the file at 0x1000, for 0x200 bytes at address 0 to execute.
abbrev header : List ℕ
header =
    1 ∷ 0 ∷ 0 ∷ 0 ∷ 5 ∷ 0 ∷ 0 ∷ 0 ∷ 0 ∷ 16 ∷ 0 ∷ 0 ∷ 0 ∷ 0 ∷ 0 ∷ 0 ∷ 0 ∷ 0 ∷ 0 ∷ 0 ∷ 0 ∷ 0 ∷ 0 ∷ 0
    ∷ 0 ∷ 0 ∷ 0 ∷ 0 ∷ 0 ∷ 0 ∷ 0 ∷ 0 ∷ 0 ∷ 1 ∷ 0 ∷ 0 ∷ 0 ∷ 0 ∷ 0 ∷ 0 ∷ 0 ∷ 2 ∷ 0 ∷ 0 ∷ 0 ∷ 0 ∷ 0 ∷ 0
    ∷ 0 ∷ 0 ∷ 0 ∷ 0 ∷ 0 ∷ 0 ∷ 0 ∷ 0 ∷ []

abbrev all_bytes : List ℕ → Bool
all_bytes [] = true
all_bytes (b ∷ bs) = ltb b 256 && all_bytes bs

all_bytes-IsByte : (bs : List ℕ) → all_bytes bs ≡ true → All IsByte bs
all_bytes-IsByte [] e = tt
all_bytes-IsByte (b ∷ bs) e = (ground (arith, e), all_bytes-IsByte bs (ground (arith, e)))

header_bytes : All IsByte header
header_bytes = all_bytes-IsByte header refl

abbrev program_fs : FileSystem
program_fs = record zero_fs { readi = λ ip off n s. (header, s) }

load_from-SegmentsOk_example :
    ProcTriple
      (λ p. SegmentsOk p.paging)
      (load_from program_fs no_files 2 3 0x80030000 64 0)
      (λ _ p. SegmentsOk p.paging)
load_from-SegmentsOk_example =
    load_from-SegmentsOk program_fs no_files (λ ip off n s. header_bytes) 2 3 0x80030000 64 0

-- A store to the heap page at 0x5000, with no device and no system call.
abbrev no_device : K zero_fs Unit
no_device = pure tt

abbrev no_calls : ℕ → Option (Frame → K zero_fs (ℕ × Frame))
no_calls num = none

abbrev blank_frame : Frame
blank_frame = record { epc = 0; a0 = 0; a7 = 0 }

-- The same process, killed, at a system call.
abbrev killed_kernel : Kernel Unit
killed_kernel = record small_kernel { proc = record small_kernel.proc { killed = true } }

usertrap_exits_example :
    ProcAfter Left
      (usertrap zero_fs no_calls no_device no_device blank_frame 0x40 8 0 killed_kernel)
    × (((8 == 8 && killed_kernel.proc.killed) ≡ false)
        ⊎ (usertrap zero_fs no_calls no_device no_device blank_frame 0x40 8 0 killed_kernel
            ≡ ok (exits, killed_kernel)))
usertrap_exits_example =
    usertrap_exits zero_fs no_calls no_device no_device blank_frame 0x40 8 0 killed_kernel
