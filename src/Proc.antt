-- ===== src/Proc.antt =====
-- kernel/proc.c: the process table, with the memory that processes are given and give back. A process
-- is named by its index in the table. The open files, the current directory and the paging tables of
-- a process are apart from this state. The locks make each call one step, up to the point where it
-- sleeps or gives up the CPU.
pub mod Life
pub mod Sched
pub mod Run
pub mod Order
pub mod Moves
pub mod Reparent
pub mod Exit
pub mod Fork
pub mod Alloc
pub mod Child
pub mod Wait
pub mod Wakes
pub mod Boot
use osn_mp2_part_a.Base.{
  ℕ, zero, suc, ◌+◌, ◌-◌, ◌*◌, ◌%◌, ◌^◌, Bool, true, false, not, ◌&&◌, ◌||◌, ◌==◌, leb, ltb,
  if◌then◌else◌, Option, none, some,
}
use osn_mp2_part_a.Base.Result.{Result, ok, panic, int_overflow, M, pure, ◌>>=◌, ◌>>◌}
use osn_mp2_part_a.Kalloc.{Machine}
pub use osn_mp2_part_a.Vm.Kvm.{nproc}

-- `enum procstate`
pub data ProcState : Type 0 where
  unused used sleeping runnable running zombie : ProcState

abbrev pub is_unused : ProcState → Bool
is_unused unused = true
is_unused other = false

abbrev pub is_sleeping : ProcState → Bool
is_sleeping sleeping = true
is_sleeping other = false

abbrev pub is_zombie : ProcState → Bool
is_zombie zombie = true
is_zombie other = false

-- The fields of `struct proc` for its life and its memory. `chan` is 0 for none, and `parent` is
-- `none` for the null pointer.
pub record Process : Type 0 where
  pub state : ProcState
  pub chan : ℕ
  pub killed : Bool
  pub xstate : ℕ
  pub pid : ℕ
  pub parent : Option ℕ
  pub sz : ℕ
  pub pagetable : ℕ
  pub trapframe : ℕ

-- The table, the next process number, which process is `initproc`, and the memory. `tramp` is the
-- address of the trampoline's code.
pub record Ptable : Type 0 where
  pub procs : ℕ → Process
  pub nextpid : ℕ
  pub initproc : ℕ
  pub machine : Machine
  pub tramp : ℕ

abbrev pub put_proc : (ℕ → Process) → ℕ → Process → ℕ → Process
put_proc f i p j = if i == j then p else f j

abbrev pub free_process : Process
free_process = record {
  state = unused;
  chan = 0;
  killed = false;
  xstate = 0;
  pid = 0;
  parent = none;
  sz = 0;
  pagetable = 0;
  trapframe = 0;
}

unfoldable pub get : ℕ → M Ptable Process
get i t = ok (t.procs i, t)

unfoldable pub set : ℕ → (Process → Process) → M Ptable (Unit {0})
set i f t = ok (tt, record t { procs = put_proc t.procs i (f (t.procs i)) })

-- A computation on the memory alone.
unfoldable pub on_machine : {A : Type 0} → M Machine A → M Ptable A
on_machine m t = elim (m t.machine) [
  | ok (a, k) ↦ ok (a, record t { machine = k })
  | panic e ↦ panic e
]

-- An `int` is below this.
abbrev pub int_limit : ℕ
int_limit = 0x80000000

-- `allocpid`; `nextpid` is an `int` that starts at 1.
unfoldable pub allocpid : M Ptable ℕ
allocpid t =
    if ltb (t.nextpid + 1) int_limit
    then ok (t.nextpid, record t { nextpid = t.nextpid + 1 })
    else panic int_overflow

-- The first process that a test is true of, from index `i` on with `n` rounds left.
unfoldable pub find_proc : (Process → Bool) → ℕ → ℕ → (ℕ → Process) → Option ℕ
find_proc test zero i f = none
find_proc test (suc n) i f =
    let rest = find_proc test n (i + 1) f in if test (f i) then some i else rest
