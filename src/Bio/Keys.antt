-- ===== src/Bio/Keys.antt =====
-- No two buffers of the cache hold the same disk block.
use osn_mp2_part_a.Base.{
  ℕ, false, ◌==◌, List, [], ◌∷◌, ◌++◌, ◌≡◌, ◌≢◌, refl, arith, All, inl, inr, Bool-cases,
}
use osn_mp2_part_a.Bio.{Buf, holds, reuse, get_buf, set_buf, unlink}

-- Two buffers of the ring are different ones, and for different blocks. Device 0 is that of the
-- buffers that were never used.
abbrev pub Apart : Buf → Buf → Type 0
Apart b c = (b.index ≢ c.index) × (b.dev ≡ c.dev → b.blockno ≡ c.blockno → b.dev ≡ 0)

abbrev pub IsUnique : List Buf → Type 0
IsUnique [] = Unit {0}
IsUnique (b ∷ bs) = All (Apart b) bs × IsUnique bs

-- The buffers of two rings are the same ones, for the same blocks.
abbrev pub SameKey : Buf → Buf → Type 0
SameKey b c = (b.index ≡ c.index) × (b.dev ≡ c.dev) × (b.blockno ≡ c.blockno)

abbrev pub SameKeys : List Buf → List Buf → Type 0
SameKeys [] [] = Unit {0}
SameKeys [] (c ∷ cs) = ⊥
SameKeys (b ∷ bs) [] = ⊥
SameKeys (b ∷ bs) (c ∷ cs) = SameKey b c × SameKeys bs cs

pub SameKeys-refl : (bs : List Buf) → SameKeys bs bs
SameKeys-refl [] = tt
SameKeys-refl (b ∷ bs) = ((refl, refl, refl), SameKeys-refl bs)

Apart-SameKey : (a b c d : Buf) → SameKey a b → SameKey c d → Apart a c → Apart b d
Apart-SameKey a b c d h k ap' = (ground (arith, ap'.0), ground (arith, ap'.1))

pub All-SameKeys :
    (a b : Buf) (bs cs : List Buf)
    → SameKey a b
    → SameKeys bs cs
    → All (Apart a) bs
    → All (Apart b) cs
All-SameKeys a b [] [] h k l = tt
All-SameKeys a b [] (c ∷ cs) h k l = absurd k
All-SameKeys a b (x ∷ bs) [] h k l = absurd k
All-SameKeys a b (x ∷ bs) (c ∷ cs) h (k, r) (l, m) =
    (Apart-SameKey a b x c h k l, All-SameKeys a b bs cs h r m)

pub IsUnique-SameKeys : (bs cs : List Buf) → SameKeys bs cs → IsUnique bs → IsUnique cs
IsUnique-SameKeys [] [] k u = tt
IsUnique-SameKeys [] (c ∷ cs) k u = absurd k
IsUnique-SameKeys (b ∷ bs) [] k u = absurd k
IsUnique-SameKeys (b ∷ bs) (c ∷ cs) (k, r) (l, u) =
    (All-SameKeys b c bs cs k r l, IsUnique-SameKeys bs cs r u)

pub set_buf-SameKeys :
    (i : ℕ) (f : Buf → Buf) (bs : List Buf)
    → ((b : Buf) → b.index ≡ i → SameKey b (f b))
    → SameKeys bs (set_buf i f bs)
set_buf-SameKeys i f [] h = tt
set_buf-SameKeys i f (b ∷ bs) h = elim (Bool-cases (b.index == i)) [
  | inl e ↦ rw e (h b (ground arith), SameKeys-refl bs)
  | inr e ↦ rw e ((refl, refl, refl), set_buf-SameKeys i f bs h)
]

-- One buffer replaced by another that is as far from the rest.
module _ (b c : Buf) (Q : Buf → Type 0)
    (good : (a : Buf) → Q a → (Apart a b → Apart a c) × (Apart b a → Apart c a)) where
  All-rear : (rear : List Buf) → All Q rear → All (Apart b) rear → All (Apart c) rear
  All-rear [] q l = tt
  All-rear (a ∷ rear) (q, qs) (l, ls) = ((good a q).1 l, All-rear rear qs ls)

  All-front :
      (a : Buf) (front rear : List Buf)
      → Q a
      → All (Apart a) (front ++ b ∷ rear)
      → All (Apart a) (front ++ c ∷ rear)
  All-front a [] rear q (l, ls) = ((good a q).0 l, ls)
  All-front a (x ∷ front) rear q (l, ls) = (l, All-front a front rear q ls)

  pub replace-IsUnique :
      (front rear : List Buf)
      → All Q front
      → All Q rear
      → IsUnique (front ++ b ∷ rear)
      → IsUnique (front ++ c ∷ rear)
  replace-IsUnique [] rear qf qr (l, u) = (All-rear rear qr l, u)
  replace-IsUnique (x ∷ front) rear (q, qs) qr (l, u) =
      (All-front x front rear q l, replace-IsUnique front rear qs qr u)

All-const : (bs : List Buf) → All (λ b. Unit {0}) bs
All-const [] = tt
All-const (b ∷ bs) = (tt, All-const bs)

All-parts :
    (P : Buf → Type 0) (front : List Buf) (b : Buf) (rear : List Buf)
    → All P (front ++ b ∷ rear)
    → All P front × All P rear
All-parts P [] b rear (h, hs) = (tt, hs)
All-parts P (x ∷ front) b rear (h, hs) = let (f, r) = All-parts P front b rear hs in ((h, f), r)

-- Another count, validity or lock.
pub SameKey-IsUnique :
    (b c : Buf) (front rear : List Buf)
    → SameKey b c
    → IsUnique (front ++ b ∷ rear)
    → IsUnique (front ++ c ∷ rear)
SameKey-IsUnique b c front rear k u =
    replace-IsUnique b c (λ a. Unit {0})
      (λ a _.
        (Apart-SameKey a a b c (refl, refl, refl) k, Apart-SameKey b c a a k (refl, refl, refl)))
      front rear (All-const front) (All-const rear) u

-- A buffer reused for a block that no buffer holds.
pub reuse-IsUnique :
    (dev blockno : ℕ) (b : Buf) (front rear : List Buf)
    → All (λ a. holds dev blockno a ≡ false) (front ++ b ∷ rear)
    → IsUnique (front ++ b ∷ rear)
    → IsUnique (front ++ reuse dev blockno b ∷ rear)
reuse-IsUnique dev blockno b front rear free u =
    let (f, r) = All-parts _ front b rear free in
    replace-IsUnique b (reuse dev blockno b) (λ a. holds dev blockno a ≡ false)
      (λ a h. (
        (λ l. (ground (arith, l.0), ground (arith, h))),
        λ l. (ground (arith, l.0), ground (arith, h)),
      ))
      front rear f r u

-- The buffer taken out of the ring, which no other one is like.
unlink-Apart : (a : Buf) (i : ℕ) (bs : List Buf) → All (Apart a) bs → All (Apart a) (unlink i bs)
unlink-Apart a i [] l = tt
unlink-Apart a i (b ∷ bs) (l, ls) = elim (Bool-cases (b.index == i)) [
  | inl e ↦ rw e ls
  | inr e ↦ rw e (l, unlink-Apart a i bs ls)
]

pub unlink-IsUnique : (i : ℕ) (bs : List Buf) → IsUnique bs → IsUnique (unlink i bs)
unlink-IsUnique i [] u = tt
unlink-IsUnique i (b ∷ bs) (l, u) = elim (Bool-cases (b.index == i)) [
  | inl e ↦ rw e u
  | inr e ↦ rw e (unlink-Apart b i bs l, unlink-IsUnique i bs u)
]

Apart-sym : (b c : Buf) → Apart b c → Apart c b
Apart-sym b c h = (ground (arith, h.0), ground (arith, h.1))

get_buf-Apart :
    (a : Buf) (i : ℕ) (bs : List Buf) → a.index ≢ i → All (Apart a) bs → Apart (get_buf i bs) a
get_buf-Apart a i [] ne l = (ground (arith, ne), λ e f. refl)
get_buf-Apart a i (b ∷ bs) ne (l, ls) = elim (Bool-cases (b.index == i)) [
  | inl e ↦ rw e (Apart-sym a b l)
  | inr e ↦ rw e (get_buf-Apart a i bs ne ls)
]

pub get_buf-unlink :
    (i : ℕ) (bs : List Buf) → IsUnique bs → All (Apart (get_buf i bs)) (unlink i bs)
get_buf-unlink i [] u = tt
get_buf-unlink i (b ∷ bs) (l, u) = elim (Bool-cases (b.index == i)) [
  | inl e ↦ rw e l
  | inr e ↦ rw e (get_buf-Apart b i bs (ground (arith, e)) l, get_buf-unlink i bs u)
]

pub get_buf-index : (i : ℕ) (bs : List Buf) → (get_buf i bs).index ≡ i
get_buf-index i [] = refl
get_buf-index i (b ∷ bs) = elim (Bool-cases (b.index == i)) [
  | inl e ↦ rw e (ground (arith, e))
  | inr e ↦ rw e (get_buf-index i bs)
]
