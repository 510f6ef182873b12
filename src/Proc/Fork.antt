-- ===== src/Proc/Fork.antt =====
-- kernel/proc.c: what the steps of the calls on the process table do to statements about it.
use osn_mp2_part_a.Base.{
  ℕ, zero, suc, ◌+◌, ◌<◌, Bool, true, some, ◌≡◌, ◌≢◌, refl, arith, Bool-cases, inl, inr,
}
use osn_mp2_part_a.Base.Result.{Result, ok, panic, M}
use osn_mp2_part_a.Base.Triple.{After, Triple}
use osn_mp2_part_a.Kalloc.{Machine}
use osn_mp2_part_a.Proc.{Process, Ptable, unused, put_proc, find_proc, get, set, on_machine}
use osn_mp2_part_a.Proc.Order.{TableOk, OkExcept, IsNew}

pub find_proc-some :
    (test : Process → Bool) (n i : ℕ) (f : ℕ → Process) (j : ℕ)
    → find_proc test n i f ≡ some j
    → (test (f j) ≡ true) × (j < i + n)
unfolding find_proc
find_proc-some test zero i f j e = ground arith
find_proc-some test (suc n) i f j e = elim (Bool-cases (test (f i))) [
  | inl a ↦ ground (arith, e, a)
  | inr a ↦ ground (arith, find_proc-some test n (i + 1) f j, e, a)
]

-- What a statement about the processes is, with the number of the next one and the first one.
abbrev pub Table : Type 1
Table = (ℕ → Process) → ℕ → ℕ → Type 0

abbrev pub At : Table → Ptable → Type 0
At P t = P t.procs t.nextpid t.initproc

on_machine-After :
    {A : Type 0} (P : Table) (t : Ptable) (r : Result (A × Machine))
    → At P t
    → After
        (λ a. At P)
        (elim r as (λ _. Result (A × Ptable)) [
          | ok (a, k) ↦ ok (a, record t { machine = k })
          | panic e ↦ panic e
        ])
on_machine-After P t (ok (a, k)) h = h
on_machine-After P t (panic e) h = tt

-- The memory does not matter to such a statement.
pub on_machine-keeps :
    {A : Type 0} (P : Table) (m : M Machine A) → Triple (At P) (on_machine m) (λ a. At P)
unfolding on_machine
on_machine-keeps P m = record { run = λ t h. on_machine-After P t (m t.machine) h }

pub set-keeps :
    (R P : Table) (i : ℕ) (f : Process → Process)
    → ((p : ℕ → Process) (n k : ℕ) → R p n k → P (put_proc p i (f (p i))) n k)
    → Triple (At R) (set i f) (λ _. At P)
unfolding set
set-keeps R P i f h = record { run = λ t r. h t.procs t.nextpid t.initproc r }

-- The value that is read is that of the state.
pub get-keeps : (P : Table) (i : ℕ) → Triple (At P) (get i) (λ p. At (λ f n k. P f n k × (p ≡ f i)))
unfolding get
get-keeps P i = record { run = λ t r. (r, refl) }

-- All entries but one are as they were.
abbrev pub Kept : (ℕ → Process) → ℕ → (ℕ → Process) → Type 0
Kept f0 i f = (j : ℕ) → j ≢ i → f j ≡ f0 j

pub put-Kept :
    (f0 : ℕ → Process) (i : ℕ) (f : ℕ → Process) (p : Process)
    → Kept f0 i f
    → Kept f0 i (put_proc f i p)
put-Kept f0 i f p h j n = ground (arith, h j n, n)

-- The entry is free.
abbrev pub Safe : (ℕ → Bool) → (ℕ → Process) → ℕ → Table
Safe w f0 i f next init = TableOk w f next init × Kept f0 i f × ((f i).state ≡ unused)

abbrev pub Out : (ℕ → Bool) → (ℕ → Process) → ℕ → Table
Out w f0 i f next init = OkExcept w i f next init × Kept f0 i f

-- The entry has a number of its own, and nothing refers to it.
abbrev pub Fresh : (ℕ → Bool) → (ℕ → Process) → ℕ → Table
Fresh w f0 i f next init = Out w f0 i f next init × IsNew w i f next
