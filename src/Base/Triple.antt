-- ===== src/Base/Triple.antt =====
-- What a computation leaves of its state when it returns. A panic stops the system.
use mathlib.Core.Path.{◌≡◌, refl}
use mathlib.Core.Bool.{Bool, true, false}
use mathlib.Core.Option.{Option, none, some}
use osn_mp2_part_a.Base.Tests.{if◌then◌else◌}
use osn_mp2_part_a.Base.Result.{Result, ok, panic, M, pure, fail, Panic, ◌>>=◌}

module _ {S : Type 0} where
  -- `F` is what is claimed of a panic.
  abbrev pub AfterOr : Type 0 → {A : Type 0} → (A → S → Type 0) → Result (A × S) → Type 0
  AfterOr F Q (ok (a, s)) = Q a s
  AfterOr F Q (panic e) = F

  abbrev pub After : {A : Type 0} → (A → S → Type 0) → Result (A × S) → Type 0
  After Q r = AfterOr Unit Q r

  pub record TripleOr (F : Type 0) {A : Type 0} (R : S → Type 0) (m : M S A) (Q : A → S → Type 0)
      : Type 0 where
    pub run : (s : S) → R s → AfterOr F Q (m s)

  -- From a state with `R`, the computation returns a value and a state with `Q`, or panics.
  abbrev pub Triple : {A : Type 0} → (S → Type 0) → M S A → (A → S → Type 0) → Type 0
  Triple R m Q = TripleOr Unit R m Q

  -- The same, and it does not panic.
  abbrev pub Total : {A : Type 0} → (S → Type 0) → M S A → (A → S → Type 0) → Type 0
  Total R m Q = TripleOr ⊥ R m Q

  pub returned :
      {A : Type 0} {Q : A → S → Type 0} (r : Result (A × S))
      → AfterOr ⊥ Q r
      → (a : A) × (s : S) × (r ≡ ok (a, s)) × Q a s
  returned (ok (a, s)) q = (a, s, refl, q)
  returned (panic e) q = elim q [ ]

  bind-After :
      {F A B : Type 0} {Q : A → S → Type 0} {T : B → S → Type 0} (r : Result (A × S))
      (f : A → M S B)
      → AfterOr F Q r
      → ((a : A) → TripleOr F (Q a) (f a) T)
      → AfterOr F T (elim r [ ok (a, t) ↦ f a t | panic e ↦ panic e ])
  bind-After (ok (a, s)) f q g = (g a).run s q
  bind-After (panic e) f q g = q

  pub bind :
      {F A B : Type 0} {R : S → Type 0} {Q : A → S → Type 0} {T : B → S → Type 0} {m : M S A}
      {f : A → M S B}
      → TripleOr F R m Q
      → ((a : A) → TripleOr F (Q a) (f a) T)
      → TripleOr F R (m >>= f) T
  unfolding ◌>>=◌
  bind {m = m} {f = f} t g = record { run = λ s r. bind-After (m s) f (t.run s r) g }

  pub returns :
      {F A : Type 0} {R : S → Type 0} {Q : A → S → Type 0} (a : A)
      → ((s : S) → R s → Q a s)
      → TripleOr F R (pure a) Q
  unfolding pure
  returns a h = record { run = λ s r. h s r }

  pub branches :
      {F A : Type 0} {R : S → Type 0} {Q : A → S → Type 0} (b : Bool) {m n : M S A}
      → (b ≡ true → TripleOr F R m Q)
      → (b ≡ false → TripleOr F R n Q)
      → TripleOr F R (if b then m else n) Q
  branches true g h = g refl
  branches false g h = h refl

  pub cases :
      {F A B : Type 0} {R : S → Type 0} {Q : B → S → Type 0} (o : Option A) {m : M S B}
      {f : A → M S B}
      → (o ≡ none → TripleOr F R m Q)
      → ((a : A) → o ≡ some a → TripleOr F R (f a) Q)
      → TripleOr F R (elim o [ none ↦ m | some a ↦ f a ]) Q
  cases none n s = n refl
  cases (some a) n s = s a refl

  -- The same, with a condition before that depends on the value.
  pub matches :
      {F A B : Type 0} {Q : B → S → Type 0} (R : Option A → S → Type 0) (o : Option A) {m : M S B}
      {f : A → M S B}
      → TripleOr F (R none) m Q
      → ((a : A) → TripleOr F (R (some a)) (f a) Q)
      → TripleOr F (R o) (elim o [ none ↦ m | some a ↦ f a ]) Q
  matches R none n s = n
  matches R (some a) n s = s a

  -- A stronger condition before.
  pub weaken :
      {F A : Type 0} {R T : S → Type 0} {Q : A → S → Type 0} {m : M S A}
      → ((s : S) → R s → T s)
      → TripleOr F T m Q
      → TripleOr F R m Q
  weaken h t = record { run = λ s r. t.run s (h s r) }

  -- What follows from the condition before is known throughout.
  pub knowing :
      {F A : Type 0} {R : S → Type 0} {Q : A → S → Type 0} {m : M S A} (P : Type 0)
      → ((s : S) → R s → P)
      → (P → TripleOr F R m Q)
      → TripleOr F R m Q
  knowing P h g = record { run = λ s r. (g (h s r)).run s r }

  pub after :
      (F : Type 0) {A : Type 0} {Q T : A → S → Type 0} (r : Result (A × S))
      → ((a : A) (s : S) → Q a s → T a s)
      → AfterOr F Q r
      → AfterOr F T r
  after F (ok (a, s)) h q = h a s q
  after F (panic e) h q = q

  -- A weaker condition after.
  pub conclude :
      {F A : Type 0} {R : S → Type 0} {Q T : A → S → Type 0} {m : M S A}
      → ((a : A) (s : S) → Q a s → T a s)
      → TripleOr F R m Q
      → TripleOr F R m T
  conclude {m = m} h t = record { run = λ s r. after _ (m s) h (t.run s r) }

  -- A panic satisfies any condition after.
  pub failing : {A : Type 0} {R : S → Type 0} {Q : A → S → Type 0} (e : Panic) → Triple R (fail e) Q
  unfolding fail
  failing e = record { run = λ s r. tt }

  returns_some : {A : Type 0} (r : Result (A × S)) → After (λ _ _. Unit) r
  returns_some (ok (a, s)) = tt
  returns_some (panic e) = tt

  -- Nothing is claimed of the computation.
  pub anything : {A : Type 0} {R : S → Type 0} {m : M S A} → Triple R m (λ _ _. Unit)
  anything {m = m} = record { run = λ s r. returns_some (m s) }
