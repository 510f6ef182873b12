-- ===== src/Proc/Boot.antt =====
-- kernel/proc.c: the first process. `userinit` at the table that `procinit` leaves.
use osn_mp2_part_a.Base.{ℕ, Option, none, some, ◌≡◌, ◌≢◌}
use osn_mp2_part_a.Base.Result.{Result, ok, panic, null_pointer}
use osn_mp2_part_a.Base.Triple.{Triple}
use osn_mp2_part_a.Kalloc.{Machine}
use osn_mp2_part_a.Proc.{Process, Ptable, runnable, put_proc, free_process}
use osn_mp2_part_a.Proc.Fork.{Table}
use osn_mp2_part_a.Proc.Run.{System, Reach, Good}

-- The table after `procinit`. No process is `initproc` until `userinit`, which sets it before it is used.
abbrev pub procinit : Machine → ℕ → Ptable
procinit m tramp = record {
  procs = λ i. free_process;
  nextpid = 1;
  initproc = 0;
  machine = m;
  tramp = tramp;
}

-- All entries but the first one are free,
abbrev Others : (ℕ → Process) → Type 0
Others f = (j : ℕ) → j ≢ 0 → f j ≡ free_process

-- all are free,
abbrev Blank : Table
Blank f n k = Others f × (f 0 ≡ free_process)

abbrev Start : Table
Start f n k = Others f × (f 0 ≡ free_process) × (n ≡ 1)

-- the first one has a number,
abbrev Numbered : ℕ → Table
Numbered pid f n k = Others f × (f 0 ≡ free_process) × (pid ≡ 1) × (n ≡ 2)

-- and is the first process.
abbrev Begun : Table
Begun f n k = Others f × ((f 0).parent ≡ none) × ((f 0).pid ≡ 1) × (n ≡ 2)

-- What `allocproc` returns with.
abbrev Got : Option ℕ → Table
Got none f n k = Blank f n k
Got (some i) f n k = (i ≡ 0) × Begun f n k

abbrev Chosen : Table
Chosen f n k = Begun f n k × (k ≡ 0)

-- No CPU runs a process yet.
abbrev pub idle_system : Ptable → System
idle_system t = record { table = t; cpus = λ c. none }

-- The first process is ready in the first entry, with the number 1, and every state that steps of the
-- processes and the CPUs reach has the invariant.
abbrev pub Booted : Ptable → Type 0
Booted t =
    ((t.procs 0).state ≡ runnable)
    × ((t.procs 0).pid ≡ 1)
    × (t.initproc ≡ 0)
    × ((s : System) → Reach (idle_system t) s → Good s)

-- What `userinit` does for what `allocproc` gives.
abbrev pub Boots : Result (Option ℕ × Ptable) → Result (Unit {0} × Ptable) → Type 0
Boots (ok (none, t)) r = r ≡ panic null_pointer
Boots (ok (some i, t)) r = (u : Ptable) × (r ≡ ok (tt, u)) × Booted u
Boots (panic e) r = r ≡ panic e

finished : ℕ → Ptable → Ptable
finished i t = record t {
  initproc = i;
  procs = put_proc t.procs i (record (t.procs i) { state = runnable });
}
