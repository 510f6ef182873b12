-- ===== src/Proc/Alloc.antt =====
-- kernel/proc.c: `allocproc` and `freeproc` keep the invariant of the table.
use osn_mp2_part_a.Base.{
  Bool-cases, ltb, ℕ, ◌+◌, ◌<◌, Bool, true, false, ◌==◌, Option, none, some, ◌≡◌, ◌≢◌, refl, sym,
  ap, ◌∙◌, arith, inl, inr, eq_or_ne, subst,
}
use osn_mp2_part_a.Base.Result.{pure, ◌>>◌}
use osn_mp2_part_a.Base.Triple.{Triple, bind, returns, branches, cases, weaken, knowing, conclude}
use osn_mp2_part_a.Kalloc.{kfree, kalloc}
use osn_mp2_part_a.Proc.{
  Process, unused, used, int_limit, put_proc, free_process, is_unused, nproc, find_proc, set,
  allocpid,
}
use osn_mp2_part_a.Proc.Life.{
  proc_pagetable, proc_freepagetable, freeproc, give_pagetable, start_proc, find_unused, get_tramp,
  allocproc,
}
use osn_mp2_part_a.Proc.Order.{
  TableOk, except, put-OkExcept, later-OkExcept, free-TableOk, put-IsNew, is_alive, is_running,
}
use osn_mp2_part_a.Proc.Fork.{
  find_proc-some, Table, At, on_machine-keeps, set-keeps, get-keeps, Kept, put-Kept, Safe, Out,
  Fresh,
}

module _ (w : ℕ → Bool) (f0 : ℕ → Process) (i : ℕ) (idle : w i ≡ false) where
  pub freeproc-keeps : Triple (At (Out w f0 i)) (freeproc i) (λ _. At (Safe w f0 i))
  unfolding freeproc
  freeproc-keeps = bind (get-keeps (Out w f0 i) i) (λ p.
      weaken (λ t h. h.0)
        (bind
          (branches (p.trapframe == 0) (λ _. returns tt (λ t h. h))
            (λ _. on_machine-keeps (Out w f0 i) (kfree p.trapframe)))
          (λ _.
            bind
              (branches (p.pagetable == 0) (λ _. returns tt (λ t h. h))
                (λ _. on_machine-keeps (Out w f0 i) (proc_freepagetable p.pagetable p.sz)))
              (λ _.
                set-keeps (Out w f0 i) (Safe w f0 i) i (λ q. free_process)
                  (λ f n k h.
                    (free-TableOk i idle h.0, put-Kept f0 i f free_process h.1, ground arith))))))

  set-Fresh :
      (g : Process → Process)
      → ((p : Process) → (g p).pid ≡ p.pid)
      → Triple (At (Fresh w f0 i)) (set i g) (λ _. At (Fresh w f0 i))
  set-Fresh g e = set-keeps (Fresh w f0 i) (Fresh w f0 i) i g (λ f n k h. (
    (put-OkExcept i (g (f i)) h.0.0, put-Kept f0 i f (g (f i)) h.0.1),
    put-IsNew i (g (f i)) (e (f i)) h.1,
  ))

  -- What a call that makes a process returns with.
  abbrev pub Made : Option ℕ → Table
  Made none f n k = Safe w f0 i f n k
  Made (some j) f n k = (j ≡ i) × Fresh w f0 i f n k

  abandon :
      {A : Type 0} (a : A)
      → Triple (At (Fresh w f0 i)) (do freeproc i; pure a) (λ _. At (Safe w f0 i))
  abandon a = bind (weaken (λ t h. h.0) freeproc-keeps) (λ _. returns a (λ t h. h))

  pub give_pagetable-keeps :
      (frame tramp : ℕ)
      → Triple (At (Fresh w f0 i)) (give_pagetable i frame tramp) (λ o. At (Made o))
  unfolding give_pagetable
  give_pagetable-keeps frame tramp =
      bind (set-Fresh (λ p. record p { trapframe = frame }) (λ p. refl)) (λ _.
        bind (on_machine-keeps (Fresh w f0 i) (proc_pagetable tramp frame)) (λ pt.
          bind (set-Fresh (λ p. record p { pagetable = pt }) (λ p. refl)) (λ _.
            branches (pt == 0)
              (λ _. bind (weaken (λ t h. h.0) freeproc-keeps) (λ _. returns none (λ t h. h)))
              (λ _. returns (some i) (λ t h. (refl, h))))))

  -- The number that `allocpid` gives is that of no process.
  abbrev Numbered : ℕ → Table
  Numbered pid f n k =
      Out w f0 i f n k
      × (0 < pid)
      × (pid < n)
      × ((j : ℕ) → j ≢ i → (f j).state ≢ unused → (f j).pid ≢ pid)

  allocpid-gives : Triple (At (Out w f0 i)) allocpid (λ pid. At (Numbered pid))
  unfolding allocpid
  allocpid-gives = record {
    run = λ t h. elim (Bool-cases (ltb (t.nextpid + 1) int_limit)) [
      | inl e ↦ rw e (
        (later-OkExcept i (ground (arith, e)) h.0, h.1),
        h.0.started,
        omega arith,
        λ j n u. ground (arith, h.0.below j n u),
      )
      | inr e ↦ rw e tt
    ];
  }

  numbered-Fresh :
      i < nproc
      → (pid : ℕ) (f : ℕ → Process) (n k : ℕ) → Numbered pid f n k
      → Fresh w f0 i (put_proc f i (record (f i) { pid = pid; state = used })) n k
  numbered-Fresh low pid f n k h = (
    (put-OkExcept i _ h.0.0, put-Kept f0 i f _ h.0.1),
    record {
      low = low;
      idle = idle;
      number = ground (arith, h.1, h.2);
      own = λ j n u. ground (arith, h.3 j n, n);
    },
  )

  pub start_proc-keeps :
      (tramp : ℕ) → i < nproc → Triple (At (Out w f0 i)) (start_proc tramp i) (λ o. At (Made o))
  unfolding start_proc
  start_proc-keeps tramp low = bind allocpid-gives (λ pid.
      bind
        (set-keeps (Numbered pid) (Fresh w f0 i) i (λ p. record p { pid = pid; state = used })
          (numbered-Fresh low pid))
        (λ _. bind (on_machine-keeps (Fresh w f0 i) kalloc) (λ frame.
          branches (frame == 0)
            (λ _.
              bind (set-Fresh (λ p. record p { trapframe = 0 }) (λ p. refl))
                (λ _. bind (weaken (λ t h. h.0) freeproc-keeps) (λ _. returns none (λ t h. h))))
            (λ _. give_pagetable-keeps frame tramp))))

-- What a call that may make a process returns with, from the processes `f0`.
abbrev pub Started : (ℕ → Bool) → (ℕ → Process) → Option ℕ → Table
Started w f0 none f n k = TableOk w f n k × ((j : ℕ) → (f0 j).state ≢ unused → f j ≡ f0 j)
Started w f0 (some i) f n k = Fresh w f0 i f n k × ((f0 i).state ≡ unused)

-- The processes are those given.
abbrev pub From : (ℕ → Bool) → (ℕ → Process) → Table
From w f0 f n k = TableOk w f n k × ((j : ℕ) → f j ≡ f0 j)

find_unused-gives :
    (w : ℕ → Bool) (f0 : ℕ → Process)
    → Triple
        (At (From w f0))
        find_unused
        (λ o. At (λ f n k. From w f0 f n k × (find_proc (λ p. is_unused p.state) nproc 0 f ≡ o)))
unfolding find_unused
find_unused-gives w f0 = record { run = λ t h. (h, refl) }

pub get_tramp-keeps : (P : Table) → Triple (At P) get_tramp (λ _. At P)
unfolding get_tramp
get_tramp-keeps P = record { run = λ t h. h }

-- The entry that `find_unused` found.
abbrev Found : (ℕ → Bool) → ℕ → (ℕ → Process) → Type 0
Found w i f0 = ((f0 i).state ≡ unused) × (w i ≡ false) × (i < nproc)

pub is_unused→unused : (p : Process) → is_unused p.state ≡ true → p.state ≡ unused
is_unused→unused p e = ground arith

found_lem :
    (w : ℕ → Bool) (f0 f : ℕ → Process) (n k i : ℕ)
    → From w f0 f n k
    → find_proc (λ p. is_unused p.state) nproc 0 f ≡ some i
    → Found w i f0
found_lem w f0 f n k i (o, s) e =
    let (u, low) = find_proc-some (λ p. is_unused p.state) nproc 0 f i e in
    let u0 = is_unused→unused (f i) u in
    (ap (λ p. p.state) (sym (s i)) ∙ u0, sym (o.runs i) ∙ ap is_running u0, omega (arith, low))

pub in_use-Kept :
    (f0 : ℕ → Process) (i : ℕ) (f : ℕ → Process)
    → (f0 i).state ≡ unused
    → Kept f0 i f
    → (j : ℕ) → (f0 j).state ≢ unused
    → f j ≡ f0 j
in_use-Kept f0 i f u h j n = elim (eq_or_ne j i) [
  | inl e ↦ ground (arith, n (subst (λ j. (f0 j).state ≡ unused) (sym e) u))
  | inr n' ↦ h j n'
]

made_Started :
    (w : ℕ → Bool) (f0 : ℕ → Process) (i : ℕ) (idle : w i ≡ false)
    → (f0 i).state ≡ unused
    → (o : Option ℕ) (f : ℕ → Process) (n k : ℕ) → Made w f0 i idle o f n k
    → Started w f0 o f n k
made_Started w f0 i idle u none f n k h = (h.0, in_use-Kept f0 i f u h.1)
made_Started w f0 i idle u (some j) f n k h =
    (subst (λ j. Fresh w f0 j f n k) (sym h.0) h.1, subst (λ j. (f0 j).state ≡ unused) (sym h.0) u)

from_Out :
    (w : ℕ → Bool) (f0 f : ℕ → Process) (n k i : ℕ)
    → (f0 i).state ≡ unused
    → From w f0 f n k
    → Out w f0 i f n k
from_Out w f0 f n k i u (o, s) =
    (except i (ap (λ p. is_alive p.state) (s i) ∙ ap is_alive u) o, λ j n. s j)

pub allocproc-keeps :
    (w : ℕ → Bool) (f0 : ℕ → Process) → Triple (At (From w f0)) allocproc (λ o. At (Started w f0 o))
unfolding allocproc
allocproc-keeps w f0 = bind (find_unused-gives w f0) (λ found. bind (get_tramp-keeps _) (λ tramp.
    cases found (λ _. returns none (λ t h. (h.0.0, λ j n. h.0.1 j)))
      (λ i e.
        knowing (Found w i f0) (λ t h. found_lem w f0 t.procs t.nextpid t.initproc i h.0 (h.1 ∙ e))
          (λ c.
            conclude (λ o t. made_Started w f0 i c.1 c.0 o t.procs t.nextpid t.initproc)
              (weaken (λ t h. from_Out w f0 t.procs t.nextpid t.initproc i c.0 h.0)
                (start_proc-keeps w f0 i c.1 tramp c.2))))))
