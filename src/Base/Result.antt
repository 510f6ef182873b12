-- ===== src/Base/Result.antt =====
-- What a kernel function does: it returns a value and the new state, or it panics.
-- `panic` of printf.c never returns, so a run that panics has no state.
use mathlib.Core.Path.{◌≡◌}

-- The messages of the `panic` calls in the modelled code.
pub data Panic : Type 0 where
  kfree_range walk_maxva not_aligned size_not_aligned size_zero remap unmap_not_aligned : Panic
  freewalk_leaf uvmclear_missing kvmmap_failed no_stack : Panic
  log_committing log_too_big log_outside no_buffers bwrite_unlocked brelse_unlocked : Panic
  filedup_free fileclose_free init_exiting : Panic
  bfree_free iget_full ilock_null ilock_no_type iunlock_unlocked bmap_range : Panic
  not_directory dirlookup_read dirlink_read : Panic
  -- Not a panic: nothing else runs that would release the lock that the call waits for.
  asleep : Panic
  -- Nor are these: a null pointer is used, or an `int` overflows. What C does then is not defined.
  null_pointer int_overflow : Panic

pub data Result {ℓ} (A : Type ℓ) : Type ℓ where
  ok : A → Result A
  panic : Panic → Result A

-- A computation over a state.
abbrev pub M : Type 0 → Type 0 → Type 0
M S A = S → Result (A × S)

unfoldable pub pure : {S A : Type 0} → A → M S A
pure a s = ok (a, s)

unfoldable pub fail : {S A : Type 0} → Panic → M S A
fail e s = panic e

infixl 5 ◌>>=◌ ◌>>◌
unfoldable pub ◌>>=◌ : {S A B : Type 0} → M S A → (A → M S B) → M S B
◌>>=◌ m f s = elim (m s) [ ok (a, t) ↦ f a t | panic e ↦ panic e ]

abbrev pub ◌>>◌ : {S B : Type 0} → M S (Unit {0}) → M S B → M S B
m >> k = m >>= λ _. k

-- One step of a block that succeeds, and a panic that ends it.
pub >>=-ok :
    {S A B : Type 0} (m : M S A) (f : A → M S B) (s : S) {a : A} {t : S}
    → m s ≡ ok (a, t)
    → (m >>= f) s ≡ f a t
unfolding ◌>>=◌
>>=-ok m f s e = rw (e, ◌>>=◌)

pub >>=-panic :
    {S A B : Type 0} (m : M S A) (f : A → M S B) (s : S) {e : Panic}
    → m s ≡ panic e
    → (m >>= f) s ≡ panic e
unfolding ◌>>=◌
>>=-panic m f s h = rw (h, ◌>>=◌)
