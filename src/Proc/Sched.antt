-- ===== src/Proc/Sched.antt =====
-- Giving up the CPU and getting it: `sleep`, `wakeup`, `yield`, `kkill`, `userinit` and the choice of
-- `scheduler`.
use osn_mp2_part_a.Base.{ℕ, Bool, true, false, ◌==◌, if◌then◌else◌, Option, none, some}
use osn_mp2_part_a.Base.Result.{ok, M, fail, null_pointer, ◌>>=◌, ◌>>◌}
use osn_mp2_part_a.Proc.{
  Process, Ptable, runnable, running, sleeping, is_sleeping, put_proc, set, find_proc, nproc,
}
use osn_mp2_part_a.Proc.Life.{allocproc, wakeup}

abbrev pub change : ℕ → (Process → Process) → Ptable → Ptable
change i f t = record t { procs = put_proc t.procs i (f (t.procs i)) }

-- `sleep` up to `sched`, and the part after it.
abbrev pub sleep : ℕ → ℕ → Ptable → Ptable
sleep me chan t = change me (λ p. record p { chan = chan; state = sleeping }) t

abbrev pub awake : ℕ → Ptable → Ptable
awake me t = change me (λ p. record p { chan = 0 }) t

abbrev pub yield : ℕ → Ptable → Ptable
yield me t = change me (λ p. record p { state = runnable }) t

abbrev pub wake_all : ℕ → ℕ → Ptable → Ptable
wake_all me chan t = record t { procs = wakeup me chan t.procs }

-- The process that `scheduler` has found runnable.
abbrev pub switch_to : ℕ → Ptable → Ptable
switch_to i t = change i (λ p. record p { state = running }) t

abbrev pub struck : Process → Process
struck p = record p { killed = true; state = if is_sleeping p.state then runnable else p.state }

-- Whether there is a process of that number, which is killed.
unfoldable pub kkill : ℕ → Ptable → Bool × Ptable
kkill pid t = elim (find_proc (λ p. p.pid == pid) nproc 0 t.procs) [
  | none ↦ (false, t)
  | some i ↦ (true, change i struck t)
]

abbrev pub setkilled : ℕ → Ptable → Ptable
setkilled me t = change me (λ p. record p { killed = true }) t

abbrev pub killed : ℕ → Ptable → Bool
killed me t = (t.procs me).killed

unfoldable pub set_initproc : ℕ → M Ptable (Unit {0})
set_initproc i t = ok (tt, record t { initproc = i })

-- The part of `userinit` after `allocproc`. Without a free entry or memory the source writes through
-- the null pointer. The current directory is left out.
unfoldable pub start_first : Option ℕ → M Ptable (Unit {0})
start_first none = fail null_pointer
start_first (some i) = do set_initproc i; set i (λ p. record p { state = runnable })

unfoldable pub userinit : M Ptable (Unit {0})
unfolding start_first
userinit = do new ← allocproc; start_first new
