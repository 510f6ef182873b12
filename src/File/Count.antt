-- ===== src/File/Count.antt =====
-- How many descriptors of a table name a file.
use osn_mp2_part_a.Base.{
  ℕ, zero, suc, ◌+◌, ◌≤◌, ◌<◌, ◌==◌, if◌then◌else◌, Option, none, some, ◌≡◌, ◌≢◌, arith, inl, inr,
  eq_or_ne, ap,
}
use osn_mp2_part_a.File.{put_fd}

-- 1 if the descriptor names the file, and 0 if not.
abbrev pub names : ℕ → Option ℕ → ℕ
names f none = 0
names f (some g) = if f == g then 1 else 0

-- The number of the first `n` descriptors that name the file.
unfoldable pub count : ℕ → ℕ → (ℕ → Option ℕ) → ℕ
count zero f g = 0
count (suc n) f g = count n f g + names f (g n)

pub put_fd-same : (g : ℕ → Option ℕ) (k j : ℕ) (o : Option ℕ) → k ≡ j → put_fd g k o j ≡ o
put_fd-same g k j o e = ground (arith, e)

pub put_fd-other : (g : ℕ → Option ℕ) (k j : ℕ) (o : Option ℕ) → k ≢ j → put_fd g k o j ≡ g j
put_fd-other g k j o e = ground (arith, e)

count-beyond :
    (n f : ℕ) (g : ℕ → Option ℕ) (k : ℕ) (o : Option ℕ)
    → n ≤ k
    → count n f (put_fd g k o) ≡ count n f g
unfolding count
count-beyond zero f g k o h = ground arith
count-beyond (suc n) f g k o h =
    ground (
      arith,
      count-beyond n f g k o (omega arith),
      put_fd-other g k n o (λ e. ground (arith, e, h)),
    )

names_at : (f : ℕ) (g : ℕ → Option ℕ) (k j : ℕ) → k ≡ j → names f (g k) ≡ names f (g j)
names_at f g k j e = ap (λ x. names f (g x)) e

names_self : (f : ℕ) (o : Option ℕ) → o ≡ some f → names f o ≡ 1
names_self f o e = ground (arith, e)

-- A descriptor that changes counts for the file it names now, and no more for the one before.
pub count-put :
    (n f : ℕ) (g : ℕ → Option ℕ) (k : ℕ) (o : Option ℕ)
    → k < n
    → count n f (put_fd g k o) + names f (g k) ≡ count n f g + names f o
unfolding count
count-put zero f g k o h = ground (arith, h)
count-put (suc n) f g k o h = elim (eq_or_ne k n) [
  | inl e ↦
      ground (
        arith,
        count-beyond n f g k o (omega (arith, e)),
        put_fd-same g k n o e,
        names_at f g k n e,
      )
  | inr e ↦ ground (arith, count-put n f g k o (omega (arith, e, h)), put_fd-other g k n o e)
]

-- A file that a descriptor names is counted.
pub count-names : (n f : ℕ) (g : ℕ → Option ℕ) (k : ℕ) → k < n → g k ≡ some f → 0 < count n f g
unfolding count
count-names zero f g k h e = ground (arith, h)
count-names (suc n) f g k h e = elim (eq_or_ne k n) [
  | inl p ↦ omega (arith, names_at f g k n p, names_self f (g k) e)
  | inr p ↦ omega (arith, count-names n f g k (omega (arith, h, p)) e)
]
