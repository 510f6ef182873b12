-- ===== src/Proc/Exit.antt =====
-- kernel/proc.c: what `kexit` does to the table.
use osn_mp2_part_a.Base.{
  ℕ, ◌≤◌, Bool, true, false, ◌==◌, if◌then◌else◌, none, some, ◌≡◌, ◌≢◌, refl, sym, ap, ◌∙◌, arith,
  ==_ne, subst,
}
use osn_mp2_part_a.Base.Result.{ok}
use osn_mp2_part_a.Proc.{Process, Ptable, unused, runnable, zombie, put_proc, nproc}
use osn_mp2_part_a.Proc.Life.{wakeup, reparent, address, kexit, parent_chan}
use osn_mp2_part_a.Proc.Order.{TableOk, is_alive}
use osn_mp2_part_a.Proc.Moves.{Moved, wakeup-Moved, Moved-trans, Moved-TableOk, dead-TableOk}
use osn_mp2_part_a.Proc.Reparent.{
  put_same, put_other, Waiting, wakeup-parent, wakeup-ready, reparent-Waiting, reparent-own,
  reparent-Moved, reparent-none_left,
}

-- What holds of every state in which the calls of this part run: the invariant of the table.
abbrev pub Holds : (ℕ → Bool) → Ptable → Type 0
Holds w t = TableOk w t.procs t.nextpid t.initproc

abbrev pub off : ℕ → (ℕ → Bool) → ℕ → Bool
off me w j = if me == j then false else w j

out_of_range :
    {w : ℕ → Bool} {f : ℕ → Process} {next init : ℕ}
    → TableOk w f next init
    → (i : ℕ) → nproc ≤ i
    → (f i).parent ≡ none
out_of_range {f = f} o i h = o.clear i (ground (arith, o.range i))

-- What a call of `kexit` leaves.
pub record Exited (w : ℕ → Bool) (me status : ℕ) (t t' : Ptable) : Type 0 where
  pub kept : Holds (off me w) t'
  pub dead : (t'.procs me).state ≡ zombie
  pub result : (t'.procs me).xstate ≡ status
  pub parent : (t.procs me).parent ≢ some me → (t'.procs me).parent ≡ (t.procs me).parent
  pub woken :
      (p : ℕ)
      → p ≢ me
      → (t.procs me).parent ≡ some p
      → Waiting (address p) (t.procs p)
      → (t'.procs p).state ≡ runnable
  pub orphans :
      (i : ℕ) → i ≢ me → (t.procs i).parent ≡ some me → (t'.procs i).parent ≡ some t'.initproc

module _ (w : ℕ → Bool) (me status : ℕ) (t : Ptable) where
  abbrev given : ℕ → Process
  given = reparent me t.initproc t.procs

  abbrev woke : ℕ → Process
  woke = wakeup me (parent_chan (given me).parent) given

  woke-Moved : (i : ℕ) → Moved t.initproc (t.procs i) (woke i)
  woke-Moved i =
      Moved-trans (reparent-Moved me t.initproc t.procs i)
        (wakeup-Moved t.initproc me (parent_chan (given me).parent) given i)

  woke-none_left : me ≢ t.initproc → Holds w t → (i : ℕ) → (woke i).parent ≢ some me
  woke-none_left ne o i q =
      reparent-none_left me t.initproc t.procs ne (out_of_range o) i
        (sym (wakeup-parent me (parent_chan (given me).parent) given i) ∙ q)

  not_self : {p : ℕ} → (t.procs me).parent ≡ some p → p ≢ me → (t.procs me).parent ≢ some me
  not_self e n q = ground (arith, n, e, q)

  parent_waits : (p : Process) (i : ℕ) → Waiting (address i) p → p.state ≢ unused
  parent_waits p i h = ground (arith, h)

  woke-ready :
      (p : ℕ)
      → p ≢ me
      → (t.procs me).parent ≡ some p
      → Waiting (address p) (t.procs p)
      → Holds w t
      → (woke p).state ≡ runnable
  woke-ready p n e h o =
      wakeup-ready me (parent_chan (given me).parent) given p
        (o.range p (parent_waits (t.procs p) p h)) n
        (subst (λ q. Waiting (parent_chan q) (given p))
          (sym (reparent-own me t.initproc t.procs (not_self e n) ∙ e))
          (reparent-Waiting me t.initproc t.procs (address p) p n h))

  -- From a table with the invariant, `kexit` by a process that is alive and not the first one
  -- succeeds: the process is a zombie with the status, its children have the first process as their
  -- parent, its own parent is ready if it slept in `kwait`, and the table keeps the invariant.
  pub kexit_lem :
      is_alive (t.procs me).state ≡ true
      → me ≢ t.initproc
      → Holds w t
      → (t' : Ptable) × (kexit me status t ≡ ok (tt, t')) × Exited w me status t t'
  unfolding kexit
  kexit_lem a ne o = (
    record t { procs = put_proc woke me (record (woke me) { xstate = status; state = zombie }) },
    rw (==_ne me t.initproc ne, kexit) refl,
    record {
      kept =
          dead-TableOk me (record (woke me) { xstate = status; state = zombie })
            ((woke-Moved me).alive a) refl refl refl ne (woke-none_left ne o)
            (Moved-TableOk woke woke-Moved o);
      dead = ground arith;
      result = ground arith;
      parent = λ n.
          ap (λ p. p.parent) (put_same woke me _)
          ∙ wakeup-parent me (parent_chan (given me).parent) given me
          ∙ reparent-own me t.initproc t.procs n;
      woken = λ p n e h. ap (λ p. p.state) (put_other woke me p _ n) ∙ woke-ready p n e h o;
      orphans = λ i n e. ground (arith, (woke-Moved i).parent, woke-none_left ne o i, e, n);
    },
  )
