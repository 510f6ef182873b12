-- ===== src/Proc/Run.antt =====
-- kernel/proc.c: processes and CPUs together, as steps. A step is a call by the process that a CPU runs,
-- a choice of `scheduler`, or a `wakeup` of an interrupt.
pub mod Keeps
use osn_mp2_part_a.Base.{
  ℕ, zero, suc, ◌+◌, ◌-◌, ◌*◌, ◌≤◌, ◌<◌, Bool, true, false, not, ◌&&◌, ◌||◌, ◌==◌, leb, ltb,
  if◌then◌else◌, Option, none, some, ◌≡◌, ◌≢◌, refl, sym, ap, ◌∙◌, arith, ◌⊎◌, Bool-cases,
  Option-cases, inl, inr, eq_or_ne, ==_iff, ==_refl, ==_ne, subst,
}
use osn_mp2_part_a.Base.Result.{Result, ok, panic, M}
use osn_mp2_part_a.Base.Triple.{After, Triple}
use osn_mp2_part_a.Proc.{
  Process, ProcState, Ptable, unused, used, runnable, running, sleeping, zombie, put_proc, nproc,
  find_proc, is_sleeping,
}
use osn_mp2_part_a.Proc.Life.{
  kfork, kexit, kwait, growproc, WaitEnd, reaped, refused, waits, wakeup,
}
use osn_mp2_part_a.Proc.Sched.{
  change, sleep, awake, yield, wake_all, switch_to, struck, kkill, setkilled,
}
use osn_mp2_part_a.Proc.Order.{TableOk, is_alive, is_running}
use osn_mp2_part_a.Proc.Moves.{Moved, Moved-TableOk, turn-TableOk, wakeup-Moved}
use osn_mp2_part_a.Proc.Exit.{Holds, off, kexit_lem, Exited}
use osn_mp2_part_a.Proc.Fork.{Table, At, find_proc-some}
use osn_mp2_part_a.Proc.Alloc.{From}
use osn_mp2_part_a.Proc.Child.{kfork_lem, Forked}
use osn_mp2_part_a.Proc.Wait.{kwait_lem, Waited}

-- The table, and `proc` of each CPU.
pub record System : Type 0 where
  pub table : Ptable
  pub cpus : ℕ → Option ℕ

abbrev pub put_cpu : (ℕ → Option ℕ) → ℕ → Option ℕ → ℕ → Option ℕ
put_cpu g c o d = if c == d then o else g d

-- A CPU gets another table, and runs a process or none.
abbrev pub to : ℕ → Option ℕ → Ptable → System → System
to c o t s = record { table = t; cpus = put_cpu s.cpus c o }

abbrev pub with_table : Ptable → System → System
with_table t s = record s { table = t }

pub data Step : System → System → Type 0 where
  picks :
      (s : System) (c i : ℕ)
      → s.cpus c ≡ none
      → (s.table.procs i).state ≡ runnable
      → Step s (to c (some i) (switch_to i s.table) s)
  yields : (s : System) (c me : ℕ) → s.cpus c ≡ some me → Step s (to c none (yield me s.table) s)
  sleeps :
      (s : System) (c me chan : ℕ)
      → s.cpus c ≡ some me
      → Step s (to c none (sleep me chan s.table) s)
  resumes : (s : System) (c me : ℕ) → s.cpus c ≡ some me → Step s (with_table (awake me s.table) s)
  wakes : (s : System) (me chan : ℕ) → Step s (with_table (wake_all me chan s.table) s)
  kills : (s : System) (pid : ℕ) → Step s (with_table (kkill pid s.table).1 s)
  marks : (s : System) (me : ℕ) → Step s (with_table (setkilled me s.table) s)
  grows :
      (s : System) (c me n : ℕ) (shrinks done : Bool) (t : Ptable)
      → s.cpus c ≡ some me
      → growproc me n shrinks s.table ≡ ok (done, t)
      → Step s (with_table t s)
  forks :
      (s : System) (c me : ℕ) (o : Option ℕ) (t : Ptable)
      → s.cpus c ≡ some me
      → kfork me s.table ≡ ok (o, t)
      → Step s (with_table t s)
  exits :
      (s : System) (c me status : ℕ) (t : Ptable)
      → s.cpus c ≡ some me
      → kexit me status s.table ≡ ok (tt, t)
      → Step s (to c none t s)
  reaps :
      (s : System) (c me pid : ℕ) (t : Ptable)
      → s.cpus c ≡ some me
      → kwait true me s.table ≡ ok (reaped pid, t)
      → Step s (with_table t s)
  refuses :
      (s : System) (c me : ℕ) (copied : Bool) (t : Ptable)
      → s.cpus c ≡ some me
      → kwait copied me s.table ≡ ok (refused, t)
      → Step s (with_table t s)
  awaits :
      (s : System) (c me : ℕ) (copied : Bool) (t : Ptable)
      → s.cpus c ≡ some me
      → kwait copied me s.table ≡ ok (waits, t)
      → Step s (to c none t s)

pub data Reach (s : System) : System → Type 0 where
  start : Reach s s
  next : {t u : System} → Reach s t → Step t u → Reach s u

-- Each CPU runs a process that `w` tells to run, each such process is on a CPU, and on one only.
pub record CpusOk (w : ℕ → Bool) (cpus : ℕ → Option ℕ) : Type 0 where
  pub on : (c i : ℕ) → cpus c ≡ some i → w i ≡ true
  pub at : (i : ℕ) → w i ≡ true → (c : ℕ) × (cpus c ≡ some i)
  pub own : (c d i : ℕ) → cpus c ≡ some i → cpus d ≡ some i → c ≡ d

-- The invariant of processes and CPUs: the table's, where the processes that run are those on CPUs.
abbrev pub Good : System → Type 0
Good s = (w : ℕ → Bool) × Holds w s.table × CpusOk w s.cpus
