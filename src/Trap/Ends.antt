-- ===== src/Trap/Ends.antt =====
-- How a trap from user space ends.
use osn_mp2_part_a.Base.{
  ℕ, Bool, true, false, not, ◌==◌, ◌||◌, ◌&&◌, ◌⊎◌, if◌then◌else◌, Option, ◌≡◌, refl, sym, ap, ◌∙◌,
  Bool-cases, inl, inr,
}
use osn_mp2_part_a.Base.Result.{Result, ok, panic, pure, ◌>>=◌, ◌>>◌}
use osn_mp2_part_a.Paging.Kernel.{FileSystem, Kernel, Proc, get_proc}
use osn_mp2_part_a.Paging.Kernel.Triple.{After, Triple, bind, returns, got, branches, anything}
use osn_mp2_part_a.Paging.Swap.{K}
use osn_mp2_part_a.Paging.Fault.{handle_page_fault}
use osn_mp2_part_a.Trap.{
  external_interrupt, timer_interrupt, Frame, TrapEnd, exits, yields, returns_to, is_page_fault,
  leave_trap, serve_trap, usertrap,
}

-- Whether the process does not come back.
abbrev pub has_exited : TrapEnd → Bool
has_exited exits = true
has_exited (yields f) = false
has_exited (returns_to f) = false

-- The process exits exactly when it is killed.
abbrev pub Left : TrapEnd → Proc → Type 0
Left r p = has_exited r ≡ p.killed

-- The process at the end of a run is killed.
abbrev pub killed_now : {S : Type 0} → Kernel S → Kernel S
killed_now k = record k { proc = record k.proc { killed = true } }

-- The end of a trap whose fault was handled or not: an unhandled one kills the process, and a handled one
-- lets it go on where it was, unless it is killed.
abbrev pub fault_end : {S : Type 0} → Frame → Result (Bool × Kernel S) → Result (TrapEnd × Kernel S)
fault_end f (ok (true, k)) = ok (if k.proc.killed then exits else returns_to f, k)
fault_end f (ok (false, k)) = ok (exits, killed_now k)
fault_end f (panic e) = panic e

-- What `handle_page_fault` makes of a trap; a cause that is no page fault is not handled.
abbrev pub handled : (fs : FileSystem) → ℕ → ℕ → Kernel fs.State → Result (Bool × Kernel fs.State)
handled fs scause stval k =
    if is_page_fault scause then handle_page_fault fs stval scause k else ok (false, k)

abbrev pub is_interrupt : ℕ → Bool
is_interrupt scause = scause == external_interrupt || scause == timer_interrupt

module _ (fs : FileSystem) (syscalls : ℕ → Option (Frame → K fs (ℕ × Frame)))
    (external clockintr : K fs (Unit {0})) where
  leave_trap-Left :
      (which_dev : ℕ) (f : Frame)
      → Triple (λ p. Unit {0}) (leave_trap fs syscalls external clockintr which_dev f) Left
  unfolding leave_trap
  leave_trap-Left which_dev f = bind got λ p.
      branches p.killed (λ k. returns exits λ q (e, h). sym k ∙ ap (λ x. x.killed) e)
        (λ k.
          branches (which_dev == 2)
            (λ _. returns (yields f) λ q (e, h). sym k ∙ ap (λ x. x.killed) e)
            (λ _. returns (returns_to f) λ q (e, h). sym k ∙ ap (λ x. x.killed) e))

  serve_trap-Left :
      (f : Frame) (scause stval : ℕ)
      → Triple (λ p. Unit {0}) (serve_trap fs syscalls external clockintr f scause stval) Left
  unfolding serve_trap
  serve_trap-Left f scause stval =
      branches (scause == 8)
        (λ _. bind got λ p.
          branches p.killed (λ k. returns exits λ q (e, h). sym k ∙ ap (λ x. x.killed) e)
            (λ k. bind anything λ g. leave_trap-Left 0 g))
        (λ _. bind anything λ which_dev.
          branches (not (which_dev == 0)) (λ _. leave_trap-Left which_dev f)
            (λ _. bind anything λ _. leave_trap-Left 0 f))

  killed_call :
      (f : Frame) (scause stval : ℕ) (k : Kernel fs.State)
      → ((scause == 8 && k.proc.killed) ≡ false)
        ⊎ (serve_trap fs syscalls external clockintr f scause stval k ≡ ok (exits, k))
  unfolding serve_trap ◌>>=◌ get_proc pure
  killed_call f scause stval k = elim (Bool-cases (scause == 8)) [
    | inr e ↦ inl (rw e refl)
    | inl e ↦ elim (Bool-cases k.proc.killed) [
      | inr d ↦ inl (rw (e, d) refl)
      | inl d ↦ inr (rw (e, d) refl)
    ]
  ]

  -- A trap from user space that returns ends the process exactly when it is killed then, for every cause,
  -- whatever the system calls and the interrupts do. A process that is killed before its system call
  -- ends at once, and nothing is called.
  pub usertrap_exits :
      (f : Frame) (sepc scause stval : ℕ) (k : Kernel fs.State)
      → After Left (usertrap fs syscalls external clockintr f sepc scause stval k)
        × (((scause == 8 && k.proc.killed) ≡ false)
            ⊎ (usertrap fs syscalls external clockintr f sepc scause stval k ≡ ok (exits, k)))
  unfolding usertrap
  usertrap_exits f sepc scause stval k = (
    (serve_trap-Left (record f { epc = sepc }) scause stval).run k tt,
    killed_call (record f { epc = sepc }) scause stval k,
  )
