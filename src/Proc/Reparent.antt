-- ===== src/Proc/Reparent.antt =====
-- kernel/proc.c: `wakeup` and `reparent`.
use osn_mp2_part_a.Base.{
  ℕ, zero, suc, ◌+◌, ◌≤◌, ◌<◌, Bool, false, ◌&&◌, ltb, if◌then◌else◌, none, some, ◌≡◌, ◌≢◌, refl,
  sym, ap, ◌∙◌, arith, ◌⊎◌, Option-cases, inl, inr, eq_or_ne, subst,
}
use osn_mp2_part_a.Proc.{Process, runnable, sleeping, put_proc, nproc, find_proc}
use osn_mp2_part_a.Proc.Life.{wakeup, reparent, has_parent, address}
use osn_mp2_part_a.Proc.Moves.{Moved, wakeup-Moved, Moved-trans}

pub find_proc-none :
    (test : Process → Bool) (n i : ℕ) (f : ℕ → Process)
    → find_proc test n i f ≡ none
    → (j : ℕ) → i ≤ j
    → j < i + n
    → test (f j) ≡ false
unfolding find_proc
find_proc-none test zero i f e j a b = ground arith
find_proc-none test (suc n) i f e j a b = elim (eq_or_ne i j) [
  | inl p ↦ subst (λ k. test (f k) ≡ false) p (ground arith)
  | inr q ↦ find_proc-none test n (i + 1) f (ground arith) j (omega arith) (omega arith)
]

pub wakeup-parent :
    (me chan : ℕ) (f : ℕ → Process) (i : ℕ) → (wakeup me chan f i).parent ≡ (f i).parent
unfolding wakeup
wakeup-parent me chan f i = ground arith

pub put_same : (f : ℕ → Process) (i : ℕ) (p : Process) → put_proc f i p i ≡ p
put_same f i p = ground arith

pub put_other : (f : ℕ → Process) (i j : ℕ) (p : Process) → j ≢ i → put_proc f i p j ≡ f j
put_other f i j p n = ground arith

-- A process that a call of `wakeup` on `chan` leaves ready.
abbrev pub Waiting : ℕ → Process → Type 0
Waiting chan p = (p.state ≡ runnable) ⊎ ((p.state ≡ sleeping) × (p.chan ≡ chan))

pub wakeup-ready :
    (me chan : ℕ) (f : ℕ → Process) (i : ℕ)
    → i < nproc
    → i ≢ me
    → Waiting chan (f i)
    → (wakeup me chan f i).state ≡ runnable
unfolding wakeup
wakeup-ready me chan f i low ne h = ground (arith, h)

pub wakeup-Waiting :
    (me other chan : ℕ) (f : ℕ → Process) (i : ℕ)
    → i ≢ me
    → Waiting chan (f i)
    → Waiting chan (wakeup me other f i)
unfolding wakeup
wakeup-Waiting me other chan f i ne h = ground (arith, h)

module _ (me init : ℕ) (f : ℕ → Process) where
  -- `reparent` before it wakes `init` up.
  abbrev passed_on : ℕ → Process
  passed_on i =
      if ltb i nproc && has_parent me (f i) then record (f i) { parent = some init } else f i

  passed_on-Moved : (i : ℕ) → Moved init (f i) (passed_on i)
  passed_on-Moved i = elim (Option-cases (f i).parent) [
    | inl e ↦ ground (arith, e)
    | inr (j, e) ↦ ground (arith, e)
  ]

  reparent-cases :
      ((reparent me init f ≡ f) × (find_proc (has_parent me) nproc 0 f ≡ none))
      ⊎ (reparent me init f ≡ wakeup me (address init) passed_on)
  unfolding reparent
  reparent-cases = elim (Option-cases (find_proc (has_parent me) nproc 0 f)) [
    | inl e ↦ inl (rw (e, reparent) refl, e)
    | inr (j, e) ↦ inr (rw (e, reparent) refl)
  ]

  same-Moved : (i : ℕ) → Moved init (f i) (f i)
  same-Moved i = ground arith

  pub reparent-Moved : (i : ℕ) → Moved init (f i) (reparent me init f i)
  reparent-Moved i = elim reparent-cases [
    | inl (e, _) ↦ rw e (same-Moved i)
    | inr e ↦
        rw e (Moved-trans (passed_on-Moved i) (wakeup-Moved init me (address init) passed_on i))
  ]

  passed_on-none_left :
      me ≢ init
      → ((i : ℕ) → nproc ≤ i → (f i).parent ≡ none)
      → (i : ℕ) → (passed_on i).parent ≢ some me
  passed_on-none_left ne h i e = elim (Option-cases (f i).parent) [
    | inl q ↦ ground (arith, q, e)
    | inr (j, q) ↦ ground (arith, q, e, h i, ne)
  ]

  childless :
      ((i : ℕ) → nproc ≤ i → (f i).parent ≡ none)
      → find_proc (has_parent me) nproc 0 f ≡ none
      → (i : ℕ) → (f i).parent ≢ some me
  childless h e i q =
      ground (arith, h i, q, find_proc-none (has_parent me) nproc 0 f e i (omega arith))

  -- No process is left with `me` as its parent.
  pub reparent-none_left :
      me ≢ init
      → ((i : ℕ) → nproc ≤ i → (f i).parent ≡ none)
      → (i : ℕ) → (reparent me init f i).parent ≢ some me
  reparent-none_left ne h i q = elim reparent-cases [
    | inl (e, c) ↦ childless h c i (ap (λ g. (g i).parent) (sym e) ∙ q)
    | inr e ↦
        passed_on-none_left ne h i
          (sym (wakeup-parent me (address init) passed_on i) ∙ ap (λ g. (g i).parent) (sym e) ∙ q)
  ]

  pub reparent-Waiting :
      (chan i : ℕ) → i ≢ me → Waiting chan (f i) → Waiting chan (reparent me init f i)
  reparent-Waiting chan i n h = elim reparent-cases [
    | inl (e, c) ↦ rw e h
    | inr e ↦ rw e (wakeup-Waiting me (address init) chan passed_on i n (ground (arith, h)))
  ]

  passed_on-own : (f me).parent ≢ some me → (passed_on me).parent ≡ (f me).parent
  passed_on-own n = elim (Option-cases (f me).parent) [
    | inl q ↦ ground (arith, q)
    | inr (j, q) ↦ ground (arith, q, n)
  ]

  pub reparent-own : (f me).parent ≢ some me → (reparent me init f me).parent ≡ (f me).parent
  reparent-own n = elim reparent-cases [
    | inl (e, c) ↦ rw e refl
    | inr e ↦ rw e (wakeup-parent me (address init) passed_on me ∙ passed_on-own n)
  ]
