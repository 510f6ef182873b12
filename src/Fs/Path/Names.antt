-- ===== src/Fs/Path/Names.antt =====
-- The name that `skipelem` leaves in its buffer.
use osn_mp2_part_a.Base.{
  length-append, ℕ, zero, suc, ◌+◌, ◌≤◌, ◌==◌, leb, if◌then◌else◌, List, [], ◌∷◌, ◌++◌, length,
  take, drop, All, ◌≡◌, refl, ap, arith, ◌≢◌, inl, inr, Bool-cases,
}
use mathlib.Core.List.{append-nil}
use osn_mp2_part_a.Fs.{dirsiz}
use osn_mp2_part_a.Fs.Path.{put_elem}

-- The name in a buffer: its bytes before a NUL, all of them if there is none.
unfoldable pub name_in : List ℕ → List ℕ
name_in [] = []
name_in (c ∷ cs) = let rest = name_in cs in if c == 0 then [] else c ∷ rest

-- The name of an element has at most `dirsiz` characters.
abbrev pub short : List ℕ → List ℕ
short elem = take dirsiz elem

abbrev pub Nonzero : ℕ → Type 0
Nonzero c = c ≢ 0

pub name_in-text : (xs ys : List ℕ) → All Nonzero xs → name_in (xs ++ (0 ∷ ys)) ≡ xs
unfolding name_in
name_in-text [] ys h = refl
name_in-text (x ∷ xs) ys (h, hs) = elim (Bool-cases (x == 0)) [
  | inl e ↦ absurd (h (ground arith))
  | inr e ↦ rw e (ap (◌∷◌ x) (name_in-text xs ys hs))
]

pub name_in-full : (xs : List ℕ) → All Nonzero xs → name_in xs ≡ xs
unfolding name_in
name_in-full [] h = refl
name_in-full (x ∷ xs) (h, hs) = elim (Bool-cases (x == 0)) [
  | inl e ↦ absurd (h (ground arith))
  | inr e ↦ rw e (ap (◌∷◌ x) (name_in-full xs hs))
]

pub take-All : (n : ℕ) (xs : List ℕ) → All Nonzero xs → All Nonzero (take n xs)
take-All zero xs h = tt
take-All (suc n) [] h = tt
take-All (suc n) (x ∷ xs) (h, hs) = (h, take-All n xs hs)

pub take-all : (n : ℕ) (xs : List ℕ) → length xs ≤ n → take n xs ≡ xs
take-all zero [] h = refl
take-all zero (x ∷ xs) h = absurd (omega arith)
take-all (suc n) [] h = refl
take-all (suc n) (x ∷ xs) h = ap (◌∷◌ x) (take-all n xs (omega arith))

pub drop-all : (n : ℕ) (xs : List ℕ) → length xs ≤ n → drop n xs ≡ []
drop-all zero [] h = refl
drop-all zero (x ∷ xs) h = absurd (omega arith)
drop-all (suc n) [] h = refl
drop-all (suc n) (x ∷ xs) h = drop-all n xs (omega arith)

pub length-take : (n : ℕ) (xs : List ℕ) → n ≤ length xs → length (take n xs) ≡ n
length-take zero xs h = refl
length-take (suc n) [] h = absurd (omega arith)
length-take (suc n) (x ∷ xs) h = ap suc (length-take n xs (omega arith))

pub length-drop : (n : ℕ) (xs : List ℕ) → n ≤ length xs → length (drop n xs) + n ≡ length xs
length-drop zero xs h = omega arith
length-drop (suc n) [] h = absurd (omega arith)
length-drop (suc n) (x ∷ xs) h = omega (arith, length-drop n xs (omega arith))

pub name_in-put_elem :
    (elem name : List ℕ)
    → length name ≡ dirsiz
    → All Nonzero elem
    → name_in (put_elem elem name) ≡ short elem
unfolding put_elem
name_in-put_elem elem name h a = elim (Bool-cases (leb dirsiz (length elem))) [
  | inl e ↦
      rw (e, drop-all dirsiz name (omega arith), append-nil (take dirsiz elem))
        (name_in-full (short elem) (take-All dirsiz elem a))
  | inr e ↦
      rw (e, take-all dirsiz elem (ground arith))
        (name_in-text elem (drop (length elem + 1) name) a)
]

pub length-put_elem :
    (elem name : List ℕ) → length name ≡ dirsiz → length (put_elem elem name) ≡ dirsiz
unfolding put_elem
length-put_elem elem name h = elim (Bool-cases (leb dirsiz (length elem))) [
  | inl e ↦
      rw (e, drop-all dirsiz name (omega arith), append-nil (take dirsiz elem))
        (length-take dirsiz elem (ground arith))
  | inr e ↦
      rw (e, length-append elem (0 ∷ drop (length elem + 1) name))
        (omega (arith, length-drop (length elem + 1) name (ground arith)))
]
