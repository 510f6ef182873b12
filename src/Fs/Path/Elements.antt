-- ===== src/Fs/Path/Elements.antt =====
-- The elements of a path, and how the loops of `skipelem` go over them.
use osn_mp2_part_a.Base.{
  ℕ, ◌≤◌, ◌<◌, true, false, ◌==◌, if◌then◌else◌, List, [], ◌∷◌, ◌++◌, length, All, ◌≡◌, refl, sym,
  ap, ap₂, ◌∙◌, arith, ◌⊎◌, inl, inr, Bool-cases,
}
use mathlib.Core.List.{append-nil, append_assoc}
use osn_mp2_part_a.Fs.Path.{slash, skip_slashes, split_elem}

-- The elements of a path: the pieces between slashes that are not empty. `piece` is the one before.
abbrev pub and_piece : List ℕ → List (List ℕ) → List (List ℕ)
and_piece [] es = es
and_piece (c ∷ cs) es = (c ∷ cs) ∷ es

unfoldable pub pieces : List ℕ → List ℕ → List (List ℕ)
pieces piece [] = and_piece piece []
pieces piece (c ∷ cs) =
    let after = pieces [] cs in
    let longer = pieces (piece ++ (c ∷ [])) cs in
    if c == slash then and_piece piece after else longer

abbrev pub elements : List ℕ → List (List ℕ)
elements path = pieces [] path

-- At a slash, and at another character.
module _ (c : ℕ) (cs : List ℕ) where
  pub pieces-slash :
      (piece : List ℕ) → (c == slash) ≡ true → pieces piece (c ∷ cs) ≡ and_piece piece (elements cs)
  unfolding pieces
  pieces-slash piece e = rw e refl

  pub pieces-other :
      (piece : List ℕ)
      → (c == slash) ≡ false
      → pieces piece (c ∷ cs) ≡ pieces (piece ++ (c ∷ [])) cs
  unfolding pieces
  pieces-other piece e = rw e refl

  pub skip_slashes-slash : (c == slash) ≡ true → skip_slashes (c ∷ cs) ≡ skip_slashes cs
  unfolding skip_slashes
  skip_slashes-slash e = rw e refl

  pub skip_slashes-other : (c == slash) ≡ false → skip_slashes (c ∷ cs) ≡ c ∷ cs
  unfolding skip_slashes
  skip_slashes-other e = rw e refl

  pub split_elem-slash : (c == slash) ≡ true → split_elem (c ∷ cs) ≡ ([], c ∷ cs)
  unfolding split_elem
  split_elem-slash e = rw e refl

  pub split_elem-other :
      (c == slash) ≡ false → split_elem (c ∷ cs) ≡ (c ∷ (split_elem cs).0, (split_elem cs).1)
  unfolding split_elem
  split_elem-other e = rw e refl

pub elements-skip_slashes : (path : List ℕ) → elements path ≡ elements (skip_slashes path)
unfolding skip_slashes
elements-skip_slashes [] = refl
elements-skip_slashes (c ∷ cs) = elim (Bool-cases (c == slash)) [
  | inl e ↦
      pieces-slash c cs [] e
      ∙ elements-skip_slashes cs
      ∙ ap elements (sym (skip_slashes-slash c cs e))
  | inr e ↦ ap elements (sym (skip_slashes-other c cs e))
]

-- The piece before grows by the characters that the loop passes.
pub pieces-split_elem :
    (piece path : List ℕ)
    → pieces piece path ≡ and_piece (piece ++ (split_elem path).0) (elements (split_elem path).1)
unfolding pieces split_elem
pieces-split_elem piece [] = ap (λ p. and_piece p []) (sym (append-nil piece))
pieces-split_elem piece (c ∷ cs) = elim (Bool-cases (c == slash)) [
  | inl e ↦
      pieces-slash c cs piece e
      ∙ ap₂ and_piece (sym (append-nil piece)) (sym (pieces-slash c cs [] e))
      ∙ ap (λ r. and_piece (piece ++ r.0) (elements r.1)) (sym (split_elem-slash c cs e))
  | inr e ↦
      pieces-other c cs piece e
      ∙ pieces-split_elem (piece ++ (c ∷ [])) cs
      ∙ ap (λ p. and_piece p (elements (split_elem cs).1))
          (append_assoc piece (c ∷ []) (split_elem cs).0)
      ∙ ap (λ r. and_piece (piece ++ r.0) (elements r.1)) (sym (split_elem-other c cs e))
]

pub elements-empty : elements [] ≡ []
unfolding pieces
elements-empty = refl

pub skip_slashes-first :
    (path : List ℕ)
    → (skip_slashes path ≡ [])
      ⊎ ((c : ℕ) × (cs : List ℕ) × (skip_slashes path ≡ c ∷ cs)
          × ((c == slash) ≡ false)
          × (length cs < length path))
unfolding skip_slashes
skip_slashes-first [] = inl refl
skip_slashes-first (c ∷ cs) = elim (Bool-cases (c == slash)) [
  | inr e ↦ inr (c, cs, skip_slashes-other c cs e, e, omega arith)
  | inl e ↦ elim (skip_slashes-first cs) [
    | inl q ↦ inl (skip_slashes-slash c cs e ∙ q)
    | inr (d, ds, q, o, l) ↦ inr (d, ds, skip_slashes-slash c cs e ∙ q, o, omega (arith, l))
  ]
]

pub skip_slashes-skip_slashes :
    (path : List ℕ) → skip_slashes (skip_slashes path) ≡ skip_slashes path
unfolding skip_slashes
skip_slashes-skip_slashes path = elim (skip_slashes-first path) [
  | inl q ↦ rw (q, skip_slashes) refl
  | inr (c, cs, q, o, l) ↦ rw q (skip_slashes-other c cs o)
]

module _ {ℓ} (P : ℕ → Type ℓ) where
  pub skip_slashes-All : (path : List ℕ) → All P path → All P (skip_slashes path)
  unfolding skip_slashes
  skip_slashes-All [] h = tt
  skip_slashes-All (c ∷ cs) h = elim (Bool-cases (c == slash)) [
    | inl e ↦ rw e (skip_slashes-All cs h.1)
    | inr e ↦ rw e h
  ]

  pub split_elem-All :
      (path : List ℕ) → All P path → All P (split_elem path).0 × All P (split_elem path).1
  unfolding split_elem
  split_elem-All [] h = (tt, tt)
  split_elem-All (c ∷ cs) h = elim (Bool-cases (c == slash)) [
    | inl e ↦ rw e (tt, h)
    | inr e ↦ rw e ((h.0, (split_elem-All cs h.1).0), (split_elem-All cs h.1).1)
  ]

pub length-skip_slashes : (path : List ℕ) → length (skip_slashes path) ≤ length path
unfolding skip_slashes
length-skip_slashes [] = omega arith
length-skip_slashes (c ∷ cs) = ground (arith, length-skip_slashes cs)

pub length-split_elem : (path : List ℕ) → length (split_elem path).1 ≤ length path
unfolding split_elem
length-split_elem [] = omega arith
length-split_elem (c ∷ cs) = ground (arith, length-split_elem cs)
