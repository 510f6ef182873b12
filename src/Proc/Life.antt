-- ===== src/Proc/Life.antt =====
-- The beginning and the end of a process: `allocproc`, `freeproc`, `kfork`, `kexit` and `kwait`.
use osn_mp2_part_a.Base.{
  ℕ, ◌+◌, ◌-◌, ◌%◌, ◌^◌, Bool, true, false, not, ◌&&◌, ◌||◌, ◌==◌, leb, ltb, if◌then◌else◌, Option,
  none, some,
}
use osn_mp2_part_a.Base.Result.{ok, panic, M, pure, ◌>>=◌, ◌>>◌, init_exiting}
use osn_mp2_part_a.Memory.{store64}
use osn_mp2_part_a.Cstring.{memmove}
use osn_mp2_part_a.Riscv.{pgsize, trampoline, trapframe}
use osn_mp2_part_a.Kalloc.{Machine, kalloc, kfree}
use osn_mp2_part_a.Vm.{mappages, uvmunmap, pte_r, pte_w, pte_x}
use osn_mp2_part_a.Vm.Uvm.{uvmcreate, uvmfree, uvmcopy, uvmalloc, uvmdealloc}
use osn_mp2_part_a.Proc.{
  Process, Ptable, used, runnable, sleeping, zombie, is_unused, is_zombie, is_sleeping, put_proc,
  free_process, get, set, on_machine, allocpid, find_proc, nproc,
}

-- The page table of a new process, with the trampoline and the trap frame; 0 if memory is short.
pub proc_pagetable : ℕ → ℕ → M Machine ℕ
proc_pagetable tramp frame = do
  pt ← uvmcreate
  (if pt == 0 then pure 0 else do
    first ← mappages pt trampoline pgsize tramp (pte_r + pte_x)
    (if not first then (do uvmfree pt 0; pure 0) else do
      second ← mappages pt trapframe pgsize frame (pte_r + pte_w)
      (if second then pure pt else do uvmunmap pt trampoline 1 false; uvmfree pt 0; pure 0)))

pub proc_freepagetable : ℕ → ℕ → M Machine (Unit {0})
proc_freepagetable pt sz = do
  uvmunmap pt trampoline 1 false
  uvmunmap pt trapframe 1 false
  uvmfree pt sz

unfoldable pub freeproc : ℕ → M Ptable (Unit {0})
freeproc i = do
  p ← get i
  (if p.trapframe == 0 then pure tt else on_machine (kfree p.trapframe))
  (if p.pagetable == 0 then pure tt else on_machine (proc_freepagetable p.pagetable p.sz))
  set i (λ q. free_process)

-- `allocproc` after the trap frame was allocated.
unfoldable pub give_pagetable : ℕ → ℕ → ℕ → M Ptable (Option ℕ)
give_pagetable i frame tramp = do
  set i (λ p. record p { trapframe = frame })
  pt ← on_machine (proc_pagetable tramp frame)
  set i (λ p. record p { pagetable = pt })
  (if pt == 0 then (do freeproc i; pure none) else pure (some i))

-- The part of `allocproc` from `found` on.
unfoldable pub start_proc : ℕ → ℕ → M Ptable (Option ℕ)
start_proc tramp i = do
  pid ← allocpid
  set i (λ p. record p { pid = pid; state = used })
  frame ← on_machine kalloc
  (if frame == 0
      then (do set i (λ p. record p { trapframe = 0 }); freeproc i; pure none)
      else give_pagetable i frame tramp)

unfoldable pub find_unused : M Ptable (Option ℕ)
find_unused t = ok (find_proc (λ p. is_unused p.state) nproc 0 t.procs, t)

unfoldable pub get_tramp : M Ptable ℕ
get_tramp t = ok (t.tramp, t)

-- The index of the new process, or `none` for the null pointer.
unfoldable pub allocproc : M Ptable (Option ℕ)
allocproc = do
  found ← find_unused
  tramp ← get_tramp
  elim found [ none ↦ pure none | some i ↦ start_proc tramp i ]

-- `*(np->trapframe) = *(p->trapframe); np->trapframe->a0 = 0;`
unfoldable pub copy_frame : ℕ → ℕ → M Machine (Unit {0})
copy_frame to from k = ok (tt, record k { mem = store64 (memmove k.mem to from 288) (to + 112) 0 })

-- The part of `kfork` after `allocproc`, without the paging tables (`fork_paging` of Paging), the open
-- files (`dup_all` of File), the directory and the name.
unfoldable pub fork_into : ℕ → ℕ → M Ptable (Option ℕ)
fork_into me i = do
  p ← get me
  q ← get i
  copied ← on_machine (uvmcopy p.pagetable q.pagetable p.sz)
  (if not copied then (do freeproc i; pure none) else do
    set i (λ c. record c { sz = p.sz })
    on_machine (copy_frame q.trapframe p.trapframe)
    set i (λ c. record c { parent = some me })
    set i (λ c. record c { state = runnable })
    pure (some q.pid))

-- `kfork` by process `me`; `none` is -1.
unfoldable pub kfork : ℕ → M Ptable (Option ℕ)
kfork me = do new ← allocproc; elim new [ none ↦ pure none | some i ↦ fork_into me i ]

abbrev pub has_parent : ℕ → Process → Bool
has_parent me p = elim p.parent [ none ↦ false | some j ↦ j == me ]

-- One process in the loop of `wakeup` by process `me`.
abbrev pub woken : ℕ → ℕ → ℕ → Process → Process
woken me chan i p =
    if not (i == me) && (is_sleeping p.state && p.chan == chan)
    then record p { state = runnable }
    else p

-- The loops of `wakeup` and `reparent` treat the processes below `nproc`.
unfoldable pub wakeup : ℕ → ℕ → (ℕ → Process) → ℕ → Process
wakeup me chan f i = if ltb i nproc then woken me chan i (f i) else f i

-- The address of a process, which is the channel that its parent waits on: not 0.
abbrev pub address : ℕ → ℕ
address i = i + 1

-- `reparent`; every child that is passed on wakes up init once more, which changes nothing more.
unfoldable pub reparent : ℕ → ℕ → (ℕ → Process) → ℕ → Process
unfolding wakeup
reparent me init f = elim (find_proc (has_parent me) nproc 0 f) [
  | none ↦ f
  | some _ ↦
      wakeup me (address init) (λ i.
        if ltb i nproc && has_parent me (f i) then record (f i) { parent = some init } else f i)
]

abbrev pub parent_chan : Option ℕ → ℕ
parent_chan none = 0
parent_chan (some j) = address j

-- `kexit` of process `me` up to `sched`: the test at its start, and the part from `reparent` on. What
-- it closes and gives back before that is not in this state; for the open files see `close_all` of
-- File.
unfoldable pub kexit : ℕ → ℕ → M Ptable (Unit {0})
kexit me status t =
    if me == t.initproc
    then panic init_exiting
    else (let given = reparent me t.initproc t.procs in
        let awake = wakeup me (parent_chan (given me).parent) given in
        ok (
          tt,
          record t {
            procs = put_proc awake me (record (awake me) { xstate = status; state = zombie });
          },
        ))

-- How a round of `kwait` ends: with the process number of a child, with -1, or asleep.
pub data WaitEnd : Type 0 where
  reaped : ℕ → WaitEnd
  refused : WaitEnd
  waits : WaitEnd

abbrev pub is_dead_child : ℕ → Process → Bool
is_dead_child me p = has_parent me p && is_zombie p.state

unfoldable pub find_child : ℕ → M Ptable (Option ℕ)
find_child me t = ok (find_proc (is_dead_child me) nproc 0 t.procs, t)

unfoldable pub has_kids : ℕ → M Ptable Bool
has_kids me t =
    ok (elim (find_proc (has_parent me) nproc 0 t.procs) [ none ↦ false | some i ↦ true ], t)

-- The part of `kwait` for the first zombie child; `copied` is whether the `copyout` of its status
-- succeeds, where it is asked for.
unfoldable pub reap : Bool → ℕ → M Ptable WaitEnd
reap copied i = if not copied then pure refused else do p ← get i; freeproc i; pure (reaped p.pid)

-- One round of the loop of `kwait` by process `me`.
unfoldable pub kwait : Bool → ℕ → M Ptable WaitEnd
kwait copied me = do
  child ← find_child me
  kids ← has_kids me
  p ← get me
  elim child [
    | some i ↦ reap copied i
    | none ↦
        if not kids || p.killed
        then pure refused
        else do set me (λ q. record q { chan = address me; state = sleeping }); pure waits
  ]

-- `growproc`: `false` is -1. The amount is its absolute value and whether it is below 0.
unfoldable pub growproc : ℕ → ℕ → Bool → M Ptable Bool
growproc me n shrinks = do
  p ← get me
  (if n == 0
      then pure true
      else if shrinks
      then (do
        sz ← on_machine (uvmdealloc p.pagetable p.sz ((p.sz + 2 ^ 64 - n) % 2 ^ 64))
        set me (λ q. record q { sz = sz })
        pure true)
      else if leb trapframe (p.sz + n)
      then pure false
      else do
        sz ← on_machine (uvmalloc p.pagetable p.sz (p.sz + n) pte_w)
        (if sz == 0 then pure false else do set me (λ q. record q { sz = sz }); pure true))
