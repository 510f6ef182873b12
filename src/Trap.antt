-- ===== src/Trap.antt =====
-- `usertrap` of kernel/trap.c, the dispatch on the cause of a trap from user space, and `syscall` of
-- kernel/syscall.c. The system calls of the table are a parameter, and so are what `devintr` does for an
-- external interrupt and `clockintr`; the registers that `prepare_return` sets up are left out.
pub mod Ends
use osn_mp2_part_a.Base.{
  ℕ, ◌+◌, ◌-◌, ◌%◌, ◌^◌, Bool, true, false, not, ◌&&◌, ◌||◌, ◌==◌, ltb, if◌then◌else◌, Option, none,
  some,
}
use osn_mp2_part_a.Base.Result.{M, pure, ◌>>=◌, ◌>>◌}
use osn_mp2_part_a.Paging.Kernel.{FileSystem, get_proc, setkilled}
use osn_mp2_part_a.Paging.Swap.{K}
use osn_mp2_part_a.Paging.Fault.{handle_page_fault}

-- The fields of `struct trapframe` that the dispatch uses.
pub record Frame : Type 0 where
  pub epc : ℕ
  pub a0 : ℕ
  pub a7 : ℕ

-- How a trap ends: with `kexit(-1)`, with `yield` before the return to user space, or with the return
-- alone; the process goes on from its trap frame.
pub data TrapEnd : Type 0 where
  exits : TrapEnd
  yields : Frame → TrapEnd
  returns_to : Frame → TrapEnd

-- The causes of a page fault: of an instruction, a load and a store.
abbrev pub is_page_fault : ℕ → Bool
is_page_fault scause = scause == 12 || (scause == 13 || scause == 15)

-- The causes of an interrupt, of a device by the PLIC and of the timer.
abbrev pub external_interrupt : ℕ
external_interrupt = 0x8000000000000009

abbrev pub timer_interrupt : ℕ
timer_interrupt = 0x8000000000000005

-- `NELEM(syscalls)`
abbrev pub nelem_syscalls : ℕ
nelem_syscalls = 23

-- A call of the table returns its value, and the frame as it leaves it: exec sets `epc`.
module _ (fs : FileSystem) (syscalls : ℕ → Option (Frame → K fs (ℕ × Frame)))
    (external clockintr : K fs (Unit {0})) where
  -- The call of a number, an `int`, if there is one.
  pub syscall_of : ℕ → Option (Frame → K fs (ℕ × Frame))
  syscall_of num = if ltb 0 num && ltb num nelem_syscalls then syscalls num else none

  pub syscall : Frame → K fs Frame
  syscall f = elim (syscall_of (f.a7 % 2 ^ 32)) [
    | some call ↦ do done ← call f; pure (record (done.1) { a0 = done.0 })
    | none ↦ pure (record f { a0 = 2 ^ 64 - 1 })
  ]

  -- 1 for an external interrupt, 2 for the timer, and 0 for another cause.
  pub devintr : ℕ → K fs ℕ
  devintr scause =
      if scause == external_interrupt
      then (do external; pure 1)
      else if scause == timer_interrupt
      then (do clockintr; pure 2)
      else pure 0

  -- A trap that is no system call and from no device.
  pub other_trap : ℕ → ℕ → K fs (Unit {0})
  other_trap scause stval =
      if is_page_fault scause
      then (do
        handled ← handle_page_fault fs stval scause
        (if handled then pure tt else setkilled))
      else setkilled

  -- The part from `if (killed(p))` on.
  pub leave_trap : ℕ → Frame → K fs TrapEnd
  leave_trap which_dev f = do
    p ← get_proc
    (if p.killed
        then pure exits
        else if which_dev == 2
        then pure (yields f)
        else pure (returns_to f))

  -- `usertrap` after the program counter was saved in the frame.
  pub serve_trap : Frame → ℕ → ℕ → K fs TrapEnd
  serve_trap f scause stval =
      if scause == 8
      then (do
        p ← get_proc
        (if p.killed
            then pure exits
            else do g ← syscall (record f { epc = (f.epc + 4) % 2 ^ 64 }); leave_trap 0 g))
      else (do
        which_dev ← devintr scause
        (if not (which_dev == 0)
            then leave_trap which_dev f
            else do other_trap scause stval; leave_trap 0 f))

  pub usertrap : Frame → ℕ → ℕ → ℕ → K fs TrapEnd
  usertrap f sepc scause stval = serve_trap (record f { epc = sepc }) scause stval
