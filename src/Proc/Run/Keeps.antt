-- ===== src/Proc/Run/Keeps.antt =====
-- kernel/proc.c: the steps of processes and CPUs keep the invariant.
use osn_mp2_part_a.Base.{
  ℕ, ◌+◌, Bool, true, false, ◌==◌, leb, if◌then◌else◌, Option, none, some, ◌≡◌, ◌≢◌, refl, sym, ap,
  ◌∙◌, arith, Bool-cases, Option-cases, inl, inr, eq_or_ne, ==_iff, subst,
}
use osn_mp2_part_a.Base.Result.{Result, ok}
use osn_mp2_part_a.Base.Triple.{After, Triple, bind, returns, branches, weaken}
use osn_mp2_part_a.Proc.{Process, Ptable, runnable, put_proc, nproc, find_proc, set}
use osn_mp2_part_a.Proc.Life.{kexit, growproc}
use osn_mp2_part_a.Proc.Sched.{struck, kkill}
use osn_mp2_part_a.Proc.Order.{TableOk, is_alive, is_running}
use osn_mp2_part_a.Proc.Moves.{Moved, Moved-TableOk, turn-TableOk, wakeup-Moved}
use osn_mp2_part_a.Proc.Exit.{Holds, off, kexit_lem, Exited}
use osn_mp2_part_a.Proc.Fork.{At, set-keeps, get-keeps, on_machine-keeps}
use osn_mp2_part_a.Riscv.{trapframe}
use osn_mp2_part_a.Proc.Child.{kfork_lem, Forked}
use osn_mp2_part_a.Proc.Wait.{kwait_lem}
use osn_mp2_part_a.Proc.Run.{
  System, to, with_table, put_cpu, Step, picks, yields, sleeps, resumes, wakes, kills, marks, grows,
  forks, exits, reaps, refuses, awaits, Reach, start, next, CpusOk, Good,
}

module _ {w : ℕ → Bool} {cpus : ℕ → Option ℕ} where
  leave : (c me : ℕ) → cpus c ≡ some me → CpusOk w cpus → CpusOk (off me w) (put_cpu cpus c none)
  leave c me e o = record {
    on = λ d i h. ground (arith, o.own c d i, o.on d i, h, e);
    at = λ i h. let (x, q) = o.at i (ground (arith, h)) in (x, ground (arith, q, e, h));
    own = λ d b i h g. ground (arith, o.own d b i, h, g);
  }

  enter :
      (c i : ℕ)
      → cpus c ≡ none
      → w i ≡ false
      → CpusOk w cpus
      → CpusOk (λ j. if i == j then true else w j) (put_cpu cpus c (some i))
  enter c i e n o = record {
    on = λ d j h. ground (arith, o.on d j, h);
    at = λ j h. elim (eq_or_ne i j) [
      | inl p ↦ (c, ground (arith, ap {A = ℕ} {B = Option ℕ} some p))
      | inr p ↦ let (x, q) = o.at j (ground (arith, h, p)) in (x, ground (arith, q, e))
    ];
    own = λ d b j h g. ground (arith, o.own d b j, o.on d j, o.on b j, h, g, n);
  }

not_running : (p : Process) → p.state ≡ runnable → is_running p.state ≡ false
not_running p e = ground (arith, e)

alive_of : (p : Process) → is_running p.state ≡ true → is_alive p.state ≡ true
alive_of p e = ground (arith, e)

runnable_alive : (p : Process) → p.state ≡ runnable → is_alive p.state ≡ true
runnable_alive p e = ground (arith, e)

same : (init : ℕ) (p : Process) → Moved init p p
same init p = ground arith

-- Changes that do not matter to the table's invariant.
pub put-Moved :
    (init : ℕ) (f : ℕ → Process) (i : ℕ) (p : Process)
    → Moved init (f i) p
    → (j : ℕ) → Moved init (f j) (put_proc f i p j)
put-Moved init f i p m j = elim (Bool-cases (i == j)) [
  | inl e ↦ rw e (subst (λ k. Moved init (f k) p) ((==_iff i j).0 e) m)
  | inr e ↦ rw e (same init (f j))
]

awake-Moved : (init : ℕ) (p : Process) → Moved init p (record p { chan = 0 })
awake-Moved init p = ground arith

marked-Moved : (init : ℕ) (p : Process) → Moved init p (record p { killed = true })
marked-Moved init p = ground arith

struck-Moved : (init : ℕ) (p : Process) → Moved init p (struck p)
struck-Moved init p = ground arith

kkill-Holds : (w : ℕ → Bool) (pid : ℕ) (t : Ptable) → Holds w t → Holds w (kkill pid t).1
unfolding kkill
kkill-Holds w pid t o = elim (Option-cases (find_proc (λ p. p.pid == pid) nproc 0 t.procs)) [
  | inl e ↦ rw (e, kkill) o
  | inr (i, e) ↦
      rw (e, kkill)
        (Moved-TableOk _ (put-Moved t.initproc t.procs i _ (struck-Moved t.initproc (t.procs i))) o)
]

sized-Moved : (init sz : ℕ) (p : Process) → Moved init p (record p { sz = sz })
sized-Moved init sz p = ground arith

resize :
    (w : ℕ → Bool) (me sz : ℕ)
    → Triple (At (TableOk w)) (set me (λ q. record q { sz = sz })) (λ _. At (TableOk w))
resize w me sz =
    set-keeps (TableOk w) (TableOk w) me (λ q. record q { sz = sz })
      (λ f n k h. Moved-TableOk _ (put-Moved k f me _ (sized-Moved k sz (f me))) h)

growproc-keeps :
    (w : ℕ → Bool) (me n : ℕ) (shrinks : Bool)
    → Triple (At (TableOk w)) (growproc me n shrinks) (λ _. At (TableOk w))
unfolding growproc
growproc-keeps w me n shrinks = bind (get-keeps (TableOk w) me) (λ p.
    weaken (λ t h. h.0)
      (branches (n == 0) (λ _. returns true (λ t h. h))
        (λ _.
          branches shrinks
            (λ _.
              bind (on_machine-keeps (TableOk w) _)
                (λ sz. bind (resize w me sz) (λ _. returns true (λ t h. h))))
            (λ _.
              branches (leb trapframe (p.sz + n)) (λ _. returns false (λ t h. h))
                (λ _. bind (on_machine-keeps (TableOk w) _) (λ sz.
                  branches (sz == 0) (λ _. returns false (λ t h. h))
                    (λ _. bind (resize w me sz) (λ _. returns true (λ t h. h)))))))))

-- What holds after a call, at the value and the state that it returned.
after_ok :
    {A S : Type 0} (Q : A → S → Type 0) {r : Result (A × S)} {a : A} {t : S}
    → After Q r
    → r ≡ ok (a, t)
    → Q a t
after_ok Q q e = subst (After Q) e q

not_first : (me status : ℕ) (t u : Ptable) → kexit me status t ≡ ok (tt, u) → me ≢ t.initproc
unfolding kexit
not_first me status t u e q = ground (arith, e, q)

exit-After :
    (w : ℕ → Bool) (me status : ℕ) (t u : Ptable)
    → is_alive (t.procs me).state ≡ true
    → Holds w t
    → kexit me status t ≡ ok (tt, u)
    → Exited w me status t u
exit-After w me status t u a o e =
    let (v, q, x) = kexit_lem w me status t a (not_first me status t u e) o in
    subst (Exited w me status t) (cc (e, q)) x

module _ (w : ℕ → Bool) (s : System) (o : Holds w s.table) (v : CpusOk w s.cpus) where
  runs_alive : (c me : ℕ) → s.cpus c ≡ some me → is_alive (s.table.procs me).state ≡ true
  runs_alive c me e = alive_of (s.table.procs me) (o.runs me ∙ v.on c me e)

  -- The process of a CPU stops running, in a state in which it is alive.
  stops :
      (c me : ℕ) (p : Process)
      → s.cpus c ≡ some me
      → is_alive p.state ≡ true
      → is_running p.state ≡ false
      → p.pid ≡ (s.table.procs me).pid
      → p.parent ≡ (s.table.procs me).parent
      → Good (to c none (record s.table { procs = put_proc s.table.procs me p }) s)
  stops c me p e a r q par = (
    λ j. if me == j then is_running p.state else w j,
    turn-TableOk me p (runs_alive c me e) a q par o,
    rw r (leave c me e v),
  )

  -- A change of one process that does not matter.
  changes :
      (i : ℕ) (p : Process)
      → Moved s.table.initproc (s.table.procs i) p
      → Good (with_table (record s.table { procs = put_proc s.table.procs i p }) s)
  changes i p m = (w, Moved-TableOk _ (put-Moved s.table.initproc s.table.procs i p m) o, v)

Forked-Holds :
    (w : ℕ → Bool) (me : ℕ) (t u : Ptable) (o : Option ℕ) → At (Forked w me t.procs o) u → Holds w u
Forked-Holds w me t u none h = h.0
Forked-Holds w me t u (some pid) h = h.0

-- Every step of the processes and CPUs keeps the invariant.
pub Step-Good : (s t : System) → Step s t → Good s → Good t
Step-Good _ _ (picks s c i e r) (w, o, v) = (
  λ j. if i == j then true else w j,
  turn-TableOk i _ (runnable_alive (s.table.procs i) r) refl refl refl o,
  enter c i e (sym (o.runs i) ∙ not_running (s.table.procs i) r) v,
)
Step-Good _ _ (yields s c me e) (w, o, v) = stops w s o v c me _ e refl refl refl refl
Step-Good _ _ (sleeps s c me chan e) (w, o, v) = stops w s o v c me _ e refl refl refl refl
Step-Good _ _ (resumes s c me e) (w, o, v) =
    changes w s o v me _ (awake-Moved s.table.initproc (s.table.procs me))
Step-Good _ _ (wakes s me chan) (w, o, v) =
    (w, Moved-TableOk _ (wakeup-Moved s.table.initproc me chan s.table.procs) o, v)
Step-Good _ _ (kills s pid) (w, o, v) = (w, kkill-Holds w pid s.table o, v)
Step-Good _ _ (marks s me) (w, o, v) =
    changes w s o v me _ (marked-Moved s.table.initproc (s.table.procs me))
Step-Good _ _ (grows s c me n shrinks done t e q) (w, o, v) =
    (w, after_ok _ ((growproc-keeps w me n shrinks).run s.table o) q, v)
Step-Good _ _ (forks s c me n t e q) (w, o, v) = (
  w,
  Forked-Holds w me s.table t n
      (after_ok _ (kfork_lem w me s.table (runs_alive w s o v c me e) o) q),
  v,
)
Step-Good _ _ (exits s c me status t e q) (w, o, v) = (
  off me w,
  (exit-After w me status s.table t (runs_alive w s o v c me e) o q).kept,
  leave c me e v,
)
Step-Good _ _ (reaps s c me pid t e q) (w, o, v) =
    (w, (after_ok _ (kwait_lem w true me s.table (runs_alive w s o v c me e) o) q).0, v)
Step-Good _ _ (refuses s c me copied t e q) (w, o, v) =
    (w, (after_ok _ (kwait_lem w copied me s.table (runs_alive w s o v c me e) o) q).0, v)
Step-Good _ _ (awaits s c me copied t e q) (w, o, v) = (
  off me w,
  (after_ok _ (kwait_lem w copied me s.table (runs_alive w s o v c me e) o) q).0,
  leave c me e v,
)

-- The invariant holds in every state that steps lead to from a state with it.
pub Reach-Good : (s t : System) → Reach s t → Good s → Good t
Reach-Good s _ start g = g
Reach-Good s _ (next r e) g = Step-Good _ _ e (Reach-Good s _ r g)
