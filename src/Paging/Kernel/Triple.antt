-- ===== src/Paging/Kernel/Triple.antt =====
-- What a computation leaves of the process when it returns. A panic stops the system.
use osn_mp2_part_a.Base.{Bool, true, false, Option, none, some, ◌≡◌, refl, if◌then◌else◌}
use osn_mp2_part_a.Base.Result.{Result, ok, panic, Panic, M, pure, fail, ◌>>=◌}
use osn_mp2_part_a.Kalloc.{Machine}
use osn_mp2_part_a.Paging.Kernel.{Kernel, Proc, lift, call, act, get_proc, set_proc}

module _ {S : Type 0} where
  abbrev pub After : {A : Type 0} → (A → Proc → Type 0) → Result (A × Kernel S) → Type 0
  After Q (ok (a, k)) = Q a k.proc
  After Q (panic e) = Unit

  -- From a process with `R`, the computation returns a value and a process with `Q`, or panics.
  pub record Triple {A : Type 0} (R : Proc → Type 0) (m : M (Kernel S) A) (Q : A → Proc → Type 0)
      : Type 0 where
    pub run : (k : Kernel S) → R k.proc → After Q (m k)

  bind-After :
      {A B : Type 0} {Q : A → Proc → Type 0} {T : B → Proc → Type 0} (r : Result (A × Kernel S))
      (f : A → M (Kernel S) B)
      → After Q r
      → ((a : A) → Triple (Q a) (f a) T)
      → After T (elim r [ ok (a, t) ↦ f a t | panic e ↦ panic e ])
  bind-After (ok (a, k)) f q g = (g a).run k q
  bind-After (panic e) f q g = tt

  pub bind :
      {A B : Type 0} {R : Proc → Type 0} {Q : A → Proc → Type 0} {T : B → Proc → Type 0}
      {m : M (Kernel S) A} {f : A → M (Kernel S) B}
      → Triple R m Q
      → ((a : A) → Triple (Q a) (f a) T)
      → Triple R (m >>= f) T
  unfolding ◌>>=◌
  bind {m = m} {f = f} t g = record { run = λ k r. bind-After (m k) f (t.run k r) g }

  -- A return, where the condition on the process follows.
  pub returns :
      {A : Type 0} {R : Proc → Type 0} {Q : A → Proc → Type 0} (a : A)
      → ((p : Proc) → R p → Q a p)
      → Triple R (pure a) Q
  unfolding pure
  returns a h = record { run = λ k r. h k.proc r }

  pub same : {A : Type 0} {R : Proc → Type 0} (a : A) → Triple R (pure a) (λ _. R)
  unfolding pure
  same a = record { run = λ k r. r }

  pub fails :
      {A : Type 0} {R : Proc → Type 0} {Q : A → Proc → Type 0} (e : Panic) → Triple R (fail e) Q
  unfolding fail
  fails e = record { run = λ k r. tt }

  lift-After :
      {A : Type 0} (R : Proc → Type 0) (k : Kernel S) (r : Result (A × Machine))
      → R k.proc
      → After (λ _. R) (elim r [ ok (a, t) ↦ ok (a, record k { machine = t }) | panic e ↦ panic e ])
  lift-After R k (ok (a, t)) h = h
  lift-After R k (panic e) h = tt

  -- The machine and the file system are apart from the process.
  pub lifted : {A : Type 0} {R : Proc → Type 0} (m : M Machine A) → Triple R (lift m) (λ _. R)
  unfolding lift
  lifted {R = R} m = record { run = λ k r. lift-After R k (m k.machine) r }

  pub called : {A : Type 0} {R : Proc → Type 0} (f : S → A × S) → Triple R (call f) (λ _. R)
  unfolding call
  called f = record { run = λ k r. r }

  -- The value is one that the call gives in some state.
  pub called_at :
      {A : Type 0} {R : Proc → Type 0} (f : S → A × S)
      → Triple R (call f) (λ a p. R p × (s : S) × ((f s).0 ≡ a))
  unfolding call
  called_at f = record { run = λ k r. (r, k.fs, refl) }

  pub acted : {R : Proc → Type 0} (f : S → S) → Triple R (act f) (λ _. R)
  unfolding act
  acted f = record { run = λ k r. r }

  pub got : {R : Proc → Type 0} → Triple R get_proc (λ p q. (p ≡ q) × R q)
  unfolding get_proc
  got = record { run = λ k r. (refl, r) }

  pub changes :
      {R : Proc → Type 0} {Q : Unit {0} → Proc → Type 0} (f : Proc → Proc)
      → ((p : Proc) → R p → Q tt (f p))
      → Triple R (set_proc f) Q
  unfolding set_proc
  changes f h = record { run = λ k r. h k.proc r }

  -- Both branches of a test.
  pub branches :
      {A : Type 0} {R : Proc → Type 0} {Q : A → Proc → Type 0} (b : Bool) {m n : M (Kernel S) A}
      → (b ≡ true → Triple R m Q)
      → (b ≡ false → Triple R n Q)
      → Triple R (if b then m else n) Q
  branches true g h = g refl
  branches false g h = h refl

  pub weaken :
      {A : Type 0} {R T : Proc → Type 0} {Q : A → Proc → Type 0} {m : M (Kernel S) A}
      → ((p : Proc) → R p → T p)
      → Triple T m Q
      → Triple R m Q
  weaken h t = record { run = λ k r. t.run k (h k.proc r) }

  -- The process is read, and what is read is not needed.
  pub seen : {R : Proc → Type 0} → Triple R get_proc (λ _. R)
  unfolding get_proc
  seen = record { run = λ k r. r }

  -- Both cases of an option.
  pub cases :
      {A B : Type 0} {R : Proc → Type 0} {Q : B → Proc → Type 0} (o : Option A) {m : M (Kernel S) B}
      {f : A → M (Kernel S) B}
      → (o ≡ none → Triple R m Q)
      → ((a : A) → o ≡ some a → Triple R (f a) Q)
      → Triple R (elim o [ none ↦ m | some a ↦ f a ]) Q
  cases none n s = n refl
  cases (some a) n s = s a refl

  -- A change of the process that keeps the condition.
  pub keeps :
      {R : Proc → Type 0} (f : Proc → Proc)
      → ((p : Proc) → R p → R (f p))
      → Triple R (set_proc f) (λ _. R)
  keeps f h = changes f h

  pub after :
      {A : Type 0} {Q T : A → Proc → Type 0} (r : Result (A × Kernel S))
      → ((a : A) (p : Proc) → Q a p → T a p)
      → After Q r
      → After T r
  after (ok (a, k)) h q = h a k.proc q
  after (panic e) h q = tt

  -- A weaker condition after.
  pub conclude :
      {A : Type 0} {R : Proc → Type 0} {Q T : A → Proc → Type 0} {m : M (Kernel S) A}
      → ((a : A) (p : Proc) → Q a p → T a p)
      → Triple R m Q
      → Triple R m T
  conclude {m = m} h t = record { run = λ k r. after (m k) h (t.run k r) }

  returns_some : {A : Type 0} (r : Result (A × Kernel S)) → After (λ _ _. Unit {0}) r
  returns_some (ok (a, k)) = tt
  returns_some (panic e) = tt

  -- Nothing is claimed of the computation.
  pub anything :
      {A : Type 0} {R : Proc → Type 0} {m : M (Kernel S) A} → Triple R m (λ _ _. Unit {0})
  anything {m = m} = record { run = λ k r. returns_some (m k) }
