-- ===== src/Proc/Wait.antt =====
-- kernel/proc.c: one round of `kwait`.
use osn_mp2_part_a.Base.{
  ℕ, ◌<◌, Bool, true, false, not, ◌||◌, ◌==◌, if◌then◌else◌, Option, none, some, ◌≡◌, ◌≢◌, refl,
  sym, ap, ◌∙◌, arith, Option-cases, inl, inr, subst,
}
use osn_mp2_part_a.Base.Result.{pure, ◌>>◌}
use osn_mp2_part_a.Base.Triple.{After, Triple, bind, returns, branches, cases, weaken, knowing}
use osn_mp2_part_a.Proc.{Process, Ptable, unused, sleeping, zombie, put_proc, nproc, find_proc, set}
use osn_mp2_part_a.Proc.Life.{
  WaitEnd, reaped, refused, waits, is_dead_child, find_child, has_kids, reap, kwait, address,
}
use osn_mp2_part_a.Proc.Order.{TableOk, except, is_alive, is_running}
use osn_mp2_part_a.Proc.Moves.{turn-TableOk}
use osn_mp2_part_a.Proc.Exit.{Holds}
use osn_mp2_part_a.Proc.Reparent.{find_proc-none}
use osn_mp2_part_a.Proc.Fork.{find_proc-some, Table, At, set-keeps, get-keeps, Kept, put-Kept, Out}
use osn_mp2_part_a.Proc.Alloc.{freeproc-keeps, From}

-- What a round of `kwait` by `me` leaves: a zombie child is freed, the caller sleeps on its own
-- address as no child is a zombie and it is not killed, or nothing changed.
abbrev pub Waited : (ℕ → Bool) → ℕ → (ℕ → Process) → WaitEnd → Table
Waited w me f0 (reaped pid) f n k =
    TableOk w f n k
    × (i : ℕ) × ((f0 i).parent ≡ some me)
    × ((f0 i).state ≡ zombie)
    × ((f0 i).pid ≡ pid)
    × ((f i).state ≡ unused)
    × Kept f0 i f
Waited w me f0 refused f n k = TableOk w f n k × ((j : ℕ) → f j ≡ f0 j)
Waited w me f0 waits f n k =
    TableOk (λ j. if me == j then false else w j) f n k
    × ((f0 me).killed ≡ false)
    × ((j : ℕ) → j < nproc → (f0 j).parent ≡ some me → (f0 j).state ≢ zombie)
    × ((f me).chan ≡ address me)
    × ((f me).state ≡ sleeping)
    × Kept f0 me f

module _ (w : ℕ → Bool) (me : ℕ) (f0 : ℕ → Process) where
  find_child-gives :
      (P : Table)
      → Triple
          (At P)
          (find_child me)
          (λ o. At (λ f n k. P f n k × (find_proc (is_dead_child me) nproc 0 f ≡ o)))
  unfolding find_child
  find_child-gives P = record { run = λ t h. (h, refl) }

  has_kids-keeps : (P : Table) → Triple (At P) (has_kids me) (λ o. At P)
  unfolding has_kids
  has_kids-keeps P = record { run = λ t h. h }

  dead_child : (p : Process) → is_dead_child me p ≡ true → (p.parent ≡ some me) × (p.state ≡ zombie)
  dead_child p e = elim (Option-cases p.parent) [
    | inl q ↦ ground (arith, q, e)
    | inr (j, q) ↦ ground (arith, q, e)
  ]

  not_dead_child :
      (p : Process) → is_dead_child me p ≡ false → p.parent ≡ some me → p.state ≢ zombie
  not_dead_child p e q z = ground (arith, e, q, z)

  zombie_Out :
      (f : ℕ → Process) (n k i : ℕ) → (f0 i).state ≡ zombie → From w f0 f n k → Out w f0 i f n k
  zombie_Out f n k i z (o, s) =
      (except i (ap (λ p. is_alive p.state) (s i) ∙ ap is_alive z) o, λ j n. s j)

  pub reap-keeps :
      (copied : Bool) (i : ℕ)
      → (f0 i).parent ≡ some me
      → (f0 i).state ≡ zombie
      → w i ≡ false
      → Triple (At (From w f0)) (reap copied i) (λ o. At (Waited w me f0 o))
  unfolding reap
  reap-keeps copied i par z idle =
      branches (not copied) (λ _. returns refused (λ t h. h))
        (λ _. bind (get-keeps (From w f0) i) (λ p.
          knowing (p.pid ≡ (f0 i).pid) (λ t h. ap (λ x. x.pid) (h.1 ∙ h.0.1 i))
            (λ e.
              weaken (λ t h. zombie_Out t.procs t.nextpid t.initproc i z h.0)
                (bind (freeproc-keeps w f0 i idle)
                  (λ _. returns (reaped p.pid) (λ t h. (h.0, i, par, z, sym e, h.2, h.1)))))))

  -- What the search for a child found.
  abbrev Searched : Option ℕ → Type 0
  Searched none = (j : ℕ) → j < nproc → (f0 j).parent ≡ some me → (f0 j).state ≢ zombie
  Searched (some i) = ((f0 i).parent ≡ some me) × ((f0 i).state ≡ zombie) × (w i ≡ false)

  searched_lem :
      (o : Option ℕ) (f : ℕ → Process) (n k : ℕ)
      → From w f0 f n k
      → find_proc (is_dead_child me) nproc 0 f ≡ o
      → Searched o
  searched_lem none f n k h e = λ j low q.
      not_dead_child (f0 j)
        (ap (is_dead_child me) (sym (h.1 j))
          ∙ find_proc-none (is_dead_child me) nproc 0 f e j (omega arith) (omega (arith, low)))
        q
  searched_lem (some i) f n k h e =
      let (d, low) = find_proc-some (is_dead_child me) nproc 0 f i e in
      let (par, z) = dead_child (f0 i) (ap (is_dead_child me) (sym (h.1 i)) ∙ d) in
      (par, z, sym (h.0.runs i) ∙ ap (λ p. is_running p.state) (h.1 i) ∙ ap is_running z)

  -- The caller goes to sleep.
  asleep_Waited :
      (f : ℕ → Process) (n k : ℕ)
      → is_alive (f0 me).state ≡ true
      → (f0 me).killed ≡ false
      → Searched none
      → From w f0 f n k
      → Waited w me f0 waits
          (put_proc f me (record (f me) { chan = address me; state = sleeping }))
          n
          k
  asleep_Waited f n k live alive s (o, h) = (
    turn-TableOk me _ (ap (λ p. is_alive p.state) (h me) ∙ live) refl refl refl o,
    alive,
    s,
    ground arith,
    ground arith,
    put-Kept f0 me f _ (λ j n. h j),
  )

  wait_or_refuse :
      (kids dead : Bool)
      → dead ≡ (f0 me).killed
      → is_alive (f0 me).state ≡ true
      → Searched none
      → Triple
          (At (From w f0))
          (if not kids || dead
            then pure refused
            else do set me (λ q. record q { chan = address me; state = sleeping }); pure waits)
          (λ o. At (Waited w me f0 o))
  wait_or_refuse kids dead same live s =
      branches (not kids || dead) (λ _. returns refused (λ t h. h))
        (λ e.
          bind
            (set-keeps (From w f0) (Waited w me f0 waits) me
              (λ q. record q { chan = address me; state = sleeping })
              (λ f n k h. asleep_Waited f n k live (sym same ∙ ground (arith, e)) s h))
            (λ _. returns waits (λ t h. h)))

  reap_found :
      (i : ℕ)
      → Searched (some i)
      → (copied : Bool) → Triple (At (From w f0)) (reap copied i) (λ o. At (Waited w me f0 o))
  reap_found i s copied = reap-keeps copied i s.0 s.1 s.2

  pub kwait-keeps :
      (copied : Bool)
      → is_alive (f0 me).state ≡ true
      → Triple (At (From w f0)) (kwait copied me) (λ o. At (Waited w me f0 o))
  unfolding kwait
  kwait-keeps copied live = bind (find_child-gives (From w f0)) (λ child.
      knowing (Searched child) (λ t h. searched_lem child t.procs t.nextpid t.initproc h.0 h.1)
        (λ found.
          weaken (λ t h. h.0)
            (bind (has_kids-keeps (From w f0)) (λ kids. bind (get-keeps (From w f0) me) (λ p.
              knowing (p.killed ≡ (f0 me).killed) (λ t h. ap (λ x. x.killed) (h.1 ∙ h.0.1 me))
                (λ same.
                  weaken (λ t h. h.0)
                    (cases child
                      (λ e. wait_or_refuse kids p.killed same live (subst Searched e found))
                      (λ i e. reap_found i (subst Searched e found) copied))))))))

-- From a table with the invariant, a round of `kwait` by a process that is alive keeps it: with a
-- number it has freed a zombie child that had this number; with -1 it has changed no process; and it
-- sleeps only if no child is a zombie and the caller is not killed. The other processes stay as
-- they are.
pub kwait_lem :
    (w : ℕ → Bool) (copied : Bool) (me : ℕ) (t : Ptable)
    → is_alive (t.procs me).state ≡ true
    → Holds w t
    → After (λ o. At (Waited w me t.procs o)) (kwait copied me t)
kwait_lem w copied me t live o = (kwait-keeps w me t.procs copied live).run t (o, λ j. refl)
