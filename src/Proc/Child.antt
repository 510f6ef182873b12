-- ===== src/Proc/Child.antt =====
-- kernel/proc.c: `kfork` keeps the invariant of the table and makes a child.
use osn_mp2_part_a.Base.{
  ℕ, Bool, true, false, not, Option, none, some, ◌≡◌, ◌≢◌, refl, sym, ap, ◌∙◌, arith, subst,
}
use osn_mp2_part_a.Base.Result.{pure, ◌>>◌}
use osn_mp2_part_a.Base.Triple.{After, Triple, bind, returns, branches, cases, weaken, knowing}
use osn_mp2_part_a.Vm.Uvm.{uvmcopy}
use osn_mp2_part_a.Proc.{Process, Ptable, unused, runnable, put_proc, set, on_machine}
use osn_mp2_part_a.Proc.Life.{copy_frame, fork_into, kfork}
use osn_mp2_part_a.Proc.Order.{TableOk, put-OkExcept, put-IsNew, live-TableOk, is_alive}
use osn_mp2_part_a.Proc.Exit.{Holds}
use osn_mp2_part_a.Proc.Fork.{
  Table, At, on_machine-keeps, set-keeps, get-keeps, Kept, put-Kept, Fresh,
}
use osn_mp2_part_a.Proc.Alloc.{freeproc-keeps, Started, From, allocproc-keeps, in_use-Kept}

-- What `kfork` by `me` leaves: the processes that were in use are as before, and there is a new one
-- with the number that is returned, if any, a child of `me` that can run.
pub record Child (me : ℕ) (f0 f : ℕ → Process) (pid i : ℕ) : Type 0 where
  pub was_free : (f0 i).state ≡ unused
  pub ready : (f i).state ≡ runnable
  pub parent : (f i).parent ≡ some me
  pub number : (f i).pid ≡ pid
  pub size : (f i).sz ≡ (f0 me).sz
  pub others : Kept f0 i f

abbrev pub Forked : (ℕ → Bool) → ℕ → (ℕ → Process) → Option ℕ → Table
Forked w me f0 none f n k = Started w f0 none f n k
Forked w me f0 (some pid) f n k = TableOk w f n k × (i : ℕ) × Child me f0 f pid i

module _ (w : ℕ → Bool) (me : ℕ) (f0 : ℕ → Process) (live : is_alive (f0 me).state ≡ true) where
  -- What is known of the child, step by step.
  abbrev Known : ℕ → ((ℕ → Process) → Type 0) → Table
  Known i P f n k = Fresh w f0 i f n k × P f

  abbrev Named : ℕ → ℕ → (ℕ → Process) → Type 0
  Named i pid f = (f i).pid ≡ pid

  abbrev Sized : ℕ → ℕ → (ℕ → Process) → Type 0
  Sized i pid f = ((f i).pid ≡ pid) × ((f i).sz ≡ (f0 me).sz)

  abbrev Late : ℕ → ℕ → (ℕ → Process) → Type 0
  Late i pid f = ((f i).pid ≡ pid) × ((f i).sz ≡ (f0 me).sz) × ((f i).parent ≡ some me)

  set-child :
      (i : ℕ) (R P : (ℕ → Process) → Type 0) (g : Process → Process)
      → ((p : Process) → (g p).pid ≡ p.pid)
      → ((f : ℕ → Process) → R f → P (put_proc f i (g (f i))))
      → Triple (At (Known i R)) (set i g) (λ _. At (Known i P))
  set-child i R P g e h = set-keeps (Known i R) (Known i P) i g (λ f n k r. (
    (
      (put-OkExcept i (g (f i)) r.0.0.0, put-Kept f0 i f (g (f i)) r.0.0.1),
      put-IsNew i (g (f i)) (e (f i)) r.0.1,
    ),
    h f r.1,
  ))

  not_child : (i : ℕ) → (f0 i).state ≡ unused → me ≢ i
  not_child i u e = ground (arith, subst (λ j. is_alive (f0 j).state ≡ true) e live, u)

  still_alive :
      (i : ℕ) (f : ℕ → Process) → (f0 i).state ≡ unused → Kept f0 i f → is_alive (f me).state ≡ true
  still_alive i f u h = ap (λ p. is_alive p.state) (h me (not_child i u)) ∙ live

  -- The last step, which makes the child ready.
  ready-Child :
      (i pid : ℕ)
      → (f0 i).state ≡ unused
      → (f : ℕ → Process) (n k : ℕ) → Known i (Late i pid) f n k
      → Forked w me f0 (some pid) (put_proc f i (record (f i) { state = runnable })) n k
  ready-Child i pid u f n k h = (
    live-TableOk i _ me h.0.1 refl refl refl h.1.2 (not_child i u) (still_alive i f u h.0.0.1)
        h.0.0.0,
    i,
    record {
      was_free = u;
      ready = ground arith;
      parent = ground (arith, h.1);
      number = ground (arith, h.1);
      size = ground (arith, h.1);
      others = put-Kept f0 i f _ h.0.0.1;
    },
  )

  -- The steps once the memory is copied.
  fork_on :
      (i : ℕ) (p q : Process)
      → (f0 i).state ≡ unused
      → p.sz ≡ (f0 me).sz
      → Triple
          (At (Known i (Named i q.pid)))
          (do
            set i (λ c. record c { sz = p.sz })
            on_machine (copy_frame q.trapframe p.trapframe)
            set i (λ c. record c { parent = some me })
            set i (λ c. record c { state = runnable })
            pure (some q.pid))
          (λ o. At (Forked w me f0 o))
  fork_on i p q u s =
      bind
        (set-child i (Named i q.pid) (Sized i q.pid) (λ c. record c { sz = p.sz }) (λ c. refl)
          (λ f h. ground (arith, h, s)))
        (λ _.
          bind (on_machine-keeps (Known i (Sized i q.pid)) (copy_frame q.trapframe p.trapframe))
            (λ _.
              bind
                (set-child i (Sized i q.pid) (Late i q.pid) (λ c. record c { parent = some me })
                  (λ c. refl) (λ f h. ground (arith, h.0, h.1)))
                (λ _.
                  bind
                    (set-keeps (Known i (Late i q.pid)) (Forked w me f0 (some q.pid)) i
                      (λ c. record c { state = runnable }) (ready-Child i q.pid u))
                    (λ _. returns (some q.pid) (λ t h. h)))))

  pub fork_into-keeps :
      (i : ℕ)
      → (f0 i).state ≡ unused
      → w i ≡ false
      → Triple (At (Fresh w f0 i)) (fork_into me i) (λ o. At (Forked w me f0 o))
  unfolding fork_into
  fork_into-keeps i u idle = bind (get-keeps (Fresh w f0 i) me) (λ p. bind (get-keeps _ i) (λ q.
      knowing (p.sz ≡ (f0 me).sz) (λ t h. ap (λ x. x.sz) (h.0.1 ∙ h.0.0.0.1 me (not_child i u)))
        (λ s.
          weaken (λ t h. (h.0.0, ap (λ x. x.pid) (sym h.1)))
            (bind
              (on_machine-keeps (Known i (Named i q.pid)) (uvmcopy p.pagetable q.pagetable p.sz))
              (λ copied.
                branches (not copied)
                  (λ _.
                    weaken (λ t h. h.0.0)
                      (bind (freeproc-keeps w f0 i idle)
                        (λ _. returns none (λ t h. (h.0, in_use-Kept f0 i t.procs u h.1)))))
                  (λ _. fork_on i p q u s))))))

  pub kfork-keeps : Triple (At (From w f0)) (kfork me) (λ o. At (Forked w me f0 o))
  unfolding kfork
  kfork-keeps = bind (allocproc-keeps w f0) (λ new.
      cases new (λ e. returns none (λ t h. subst (λ o. At (Started w f0 o) t) e h))
        (λ i e.
          weaken (λ t h. subst (λ o. At (Started w f0 o) t) e h)
            (knowing (((f0 i).state ≡ unused) × (w i ≡ false)) (λ t h. (h.1, h.0.1.idle))
              (λ c. weaken (λ t h. h.0) (fork_into-keeps i c.0 c.1)))))

-- From a table with the invariant, `kfork` by a process that is alive keeps it, and changes no process
-- that is in use. If it returns a number, then an entry that was free is a child of the caller with
-- that number and the caller's size, ready to run, and every other entry is as before.
pub kfork_lem :
    (w : ℕ → Bool) (me : ℕ) (t : Ptable)
    → is_alive (t.procs me).state ≡ true
    → Holds w t
    → After (λ o. At (Forked w me t.procs o)) (kfork me t)
kfork_lem w me t live o = (kfork-keeps w me t.procs live).run t (o, λ j. refl)
