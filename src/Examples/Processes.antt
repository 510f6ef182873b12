-- ===== src/Examples/Processes.antt =====
-- The process table with the first process, which waits for its child, and the child, which runs.
use osn_mp2_part_a.Base.{ℕ, ◌==◌, Bool, true, if◌then◌else◌, none, some, ◌≡◌, ◌≢◌, refl, arith}
use osn_mp2_part_a.Base.Result.{ok}
use osn_mp2_part_a.Base.Triple.{After}
use osn_mp2_part_a.Proc.{Process, Ptable, free_process, running, sleeping, runnable}
use osn_mp2_part_a.Proc.Life.{kexit, kfork, kwait, address, waits}
use osn_mp2_part_a.Proc.Sched.{switch_to}
use osn_mp2_part_a.Proc.Exit.{Holds, Exited, kexit_lem}
use osn_mp2_part_a.Proc.Fork.{At}
use osn_mp2_part_a.Proc.Child.{Forked, kfork_lem}
use osn_mp2_part_a.Proc.Wakes.{exit_wakes_parent}
use osn_mp2_part_a.Proc.Run.{System, Step, Reach, Good}
use osn_mp2_part_a.Proc.Run.Keeps.{Reach-Good}
use osn_mp2_part_a.Proc.Sched.{sleep}
use osn_mp2_part_a.Proc.Run.{to}

abbrev first : Process
first = record free_process { state = sleeping; chan = address 0; pid = 1; sz = 4096 }

abbrev second : Process
second = record free_process { state = running; pid = 2; parent = some 0; sz = 4096 }

abbrev two_processes : Ptable
two_processes = record {
  procs = λ i. if i == 0 then first else if i == 1 then second else free_process;
  nextpid = 3;
  initproc = 0;
  machine = record { mem = λ a. 0; freelist = 0; kernel_end = 0x80020000 };
  tramp = 0x80007000;
}

abbrev second_runs : ℕ → Bool
second_runs i = i == 1

two_processes-Holds : Holds second_runs two_processes
two_processes-Holds = record {
  pids = λ i j u v e. ground arith;
  below = λ i u. ground arith;
  clear = λ i u. ground arith;
  parents = λ i j e. ground arith;
  range = λ i u. ground arith;
  init_alive = refl;
  runs = λ i. ground arith;
  started = omega arith;
  fits = omega arith;
}

kexit_lem_example :
    (u : Ptable) × (kexit 1 7 two_processes ≡ ok (tt, u)) × Exited second_runs 1 7 two_processes u
kexit_lem_example =
    kexit_lem second_runs 1 7 two_processes refl (λ e. omega (arith, e)) two_processes-Holds

kfork_lem_example :
    After (λ o. At (Forked second_runs 1 two_processes.procs o)) (kfork 1 two_processes)
kfork_lem_example = kfork_lem second_runs 1 two_processes refl two_processes-Holds

exit_wakes_parent_example :
    (u : Ptable) × (kexit 1 7 two_processes ≡ ok (tt, u))
    × ((u.procs 0).state ≡ runnable)
    × After (λ o _. o ≢ waits) (kwait true 0 (switch_to 0 u))
exit_wakes_parent_example =
    exit_wakes_parent second_runs true 1 0 7 two_processes two_processes-Holds refl
      (λ e. omega (arith, e)) refl refl refl

abbrev two_running : System
two_running = record { table = two_processes; cpus = λ c. if c == 0 then some 1 else none }

two_running-Good : Good two_running
two_running-Good = (
  second_runs,
  two_processes-Holds,
  record {
    on = λ c i e. ground arith;
    at = λ i e. (0, ground arith);
    own = λ c d i e f. ground arith;
  },
)

-- The child goes to sleep, for the console, say.
abbrev then_sleeps : System
then_sleeps = to 0 none (sleep 1 9 two_processes) two_running

Reach-Good_example : Good then_sleeps
Reach-Good_example =
    Reach-Good two_running then_sleeps (Reach.next Reach.start (Step.sleeps two_running 0 1 9 refl))
      two_running-Good
