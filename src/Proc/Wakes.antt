-- ===== src/Proc/Wakes.antt =====
-- kernel/proc.c: `kexit` of a child and `kwait` of its parent.
use osn_mp2_part_a.Base.{ℕ, Bool, true, Option, some, ◌≡◌, ◌≢◌, refl, sym, ap, ◌∙◌, arith, inr}
use osn_mp2_part_a.Base.Result.{ok}
use osn_mp2_part_a.Base.Triple.{After, after}
use osn_mp2_part_a.Proc.{Process, Ptable, runnable, running, sleeping, zombie}
use osn_mp2_part_a.Proc.Life.{kexit, kwait, address, WaitEnd, reaped, refused, waits}
use osn_mp2_part_a.Proc.Sched.{switch_to}
use osn_mp2_part_a.Proc.Order.{is_alive}
use osn_mp2_part_a.Proc.Moves.{turn-TableOk}
use osn_mp2_part_a.Proc.Exit.{Holds, kexit_lem}
use osn_mp2_part_a.Proc.Reparent.{put_same, put_other}
use osn_mp2_part_a.Proc.Fork.{At}
use osn_mp2_part_a.Proc.Wait.{kwait_lem, Waited}

not_waits :
    (w : ℕ → Bool) (t u : Ptable) (me p : ℕ) (r : WaitEnd)
    → Holds w t
    → (t.procs me).state ≡ zombie
    → (t.procs me).parent ≡ some p
    → At (Waited w p t.procs r) u
    → r ≢ waits
not_waits w t u me p (reaped pid) o z par h = λ e. ground (arith, e)
not_waits w t u me p refused o z par h = λ e. ground (arith, e)
not_waits w t u me p waits o z par h = λ e. h.2 me (o.range me (λ q. ground (arith, z, q))) par z

zombie_found :
    (w : ℕ → Bool) (copied : Bool) (t : Ptable) (me p : ℕ)
    → Holds w t
    → is_alive (t.procs p).state ≡ true
    → (t.procs me).state ≡ zombie
    → (t.procs me).parent ≡ some p
    → After (λ o _. o ≢ waits) (kwait copied p t)
zombie_found w copied t me p o a z par =
    after _ (kwait copied p t) (λ r u h. not_waits w t u me p r o z par h)
      (kwait_lem w copied p t a o)

not_own : (me p : ℕ) (o : Option ℕ) → o ≡ some p → me ≢ p → o ≢ some me
not_own me p o q n = λ e. ground (arith, e, n, q)

unlike : (p q : Process) → p.state ≡ running → q.state ≡ sleeping → q ≢ p
unlike p q r s e = ground (arith, ap (λ x. x.state) e, r, s)

-- A process that sleeps in `kwait` is not left asleep when a child of it exits: `kexit` makes it
-- ready, and when it runs, the next round of `kwait` does not go to sleep again.
pub exit_wakes_parent :
    (w : ℕ → Bool) (copied : Bool) (me p status : ℕ) (t : Ptable)
    → Holds w t
    → (t.procs me).state ≡ running
    → me ≢ t.initproc
    → (t.procs me).parent ≡ some p
    → (t.procs p).state ≡ sleeping
    → (t.procs p).chan ≡ address p
    → (u : Ptable) × (kexit me status t ≡ ok (tt, u))
      × ((u.procs p).state ≡ runnable)
      × After (λ o _. o ≢ waits) (kwait copied p (switch_to p u))
exit_wakes_parent w copied me p status t o r ne par s c =
    let (u, q, x) = kexit_lem w me status t (ap is_alive r) ne o in
    let n = unlike (t.procs me) (t.procs p) r s in
    let m = λ (e : me ≡ p). n (ap t.procs (sym e)) in
    let ready = x.woken p (λ e. m (sym e)) par (inr (s, c)) in
    (
      u,
      q,
      ready,
      zombie_found _ copied (switch_to p u) me p
          (turn-TableOk p _ (ap is_alive ready) refl refl refl x.kept)
          (ap (λ q. is_alive q.state) (put_same u.procs p _))
          (ap (λ q. q.state) (put_other u.procs p me _ m) ∙ x.dead)
          (ap (λ q. q.parent) (put_other u.procs p me _ m) ∙ x.parent (not_own me p _ par m) ∙ par),
    )
