-- ===== src/Fs/Path/Split.antt =====
-- `skipelem` takes a path apart into the elements between its slashes.
use osn_mp2_part_a.Base.{
  subst, ℕ, zero, suc, ◌<◌, Option, none, some, List, [], ◌∷◌, length, map, All, ◌≡◌, refl, sym, ap,
  ap₂, ◌∙◌, arith, inl, inr,
}
use osn_mp2_part_a.Fs.{dirsiz}
use osn_mp2_part_a.Fs.Path.{skip_slashes, split_elem, skipelem}
use osn_mp2_part_a.Fs.Path.Elements.{
  and_piece, elements, split_elem-other, elements-skip_slashes, pieces-split_elem, elements-empty,
  skip_slashes-first, skip_slashes-skip_slashes, skip_slashes-All, split_elem-All,
  length-skip_slashes, length-split_elem,
}
use osn_mp2_part_a.Fs.Path.Names.{name_in, short, Nonzero, name_in-put_elem, length-put_elem}

-- What `skipelem` returns: nothing where the path has no element, or the path after the first one
-- and its name.
abbrev pub Skipped : List ℕ → Option (List ℕ × List ℕ) → Type 0
Skipped path none = elements path ≡ []
Skipped path (some (rest, name)) =
    (e : List ℕ) × (elements path ≡ e ∷ elements rest)
    × (name_in name ≡ short e)
    × (length name ≡ dirsiz)
    × (skip_slashes rest ≡ rest)
    × (length rest < length path)
    × All Nonzero rest

pub skipelem_lem :
    (path name : List ℕ)
    → length name ≡ dirsiz
    → All Nonzero path
    → Skipped path (skipelem path name)
unfolding skipelem
skipelem_lem path name h a = elim (skip_slashes-first path) [
  | inl q ↦ rw (q, skipelem) (elements-skip_slashes path ∙ ap elements q ∙ elements-empty)
  | inr (c, cs, q, o, l) ↦
      let parts = split_elem (c ∷ cs) in
      let text =
        split_elem-All Nonzero (c ∷ cs) (subst (All Nonzero) q (skip_slashes-All Nonzero path a)) in
      rw (q, skipelem)
        (
          parts.0,
          elements-skip_slashes path
              ∙ ap elements q
              ∙ pieces-split_elem [] (c ∷ cs)
              ∙ ap (λ p. and_piece p.0 (elements p.1)) (split_elem-other c cs o)
              ∙ ap₂ ◌∷◌ (sym (ap (λ r. r.0) (split_elem-other c cs o))) (
                  elements-skip_slashes (split_elem cs).1
                  ∙ sym (ap (λ r. elements (skip_slashes r.1)) (split_elem-other c cs o))),
          name_in-put_elem parts.0 name h text.0,
          length-put_elem parts.0 name h,
          skip_slashes-skip_slashes parts.1,
          omega (
            arith,
            length-skip_slashes parts.1,
            length-split_elem cs,
            ap (λ r. length r.1) (split_elem-other c cs o),
          ),
          skip_slashes-All Nonzero parts.1 text.1,
        )
]

-- The names that the loop of `namex` gets from `skipelem`, in `n` rounds at most.
unfoldable pub names : ℕ → List ℕ → List ℕ → List (List ℕ)
names zero path name = []
names (suc n) path name = elim (skipelem path name) [
  | none ↦ []
  | some (rest, next) ↦ name_in next ∷ names n rest next
]

names-step :
    (n : ℕ) (path : List ℕ) (r : Option (List ℕ × List ℕ))
    → Skipped path r
    → ((rest next : List ℕ)
        → length next ≡ dirsiz
        → All Nonzero rest
        → length rest < length path
        → names n rest next ≡ map short (elements rest))
    → (elim r [ none ↦ [] | some (rest, next) ↦ name_in next ∷ names n rest next ])
      ≡ map short (elements path)
names-step n path none e rec = rw e refl
names-step n path (some (rest, next)) (e, q, m, k, _, less, text) rec =
    rw q (ap₂ ◌∷◌ m (rec rest next k text less))

-- The loop of `namex`, with more rounds than the path has characters and a buffer of 14 bytes, gets from
-- `skipelem` the elements of the path one after the other: the pieces between slashes that are not
-- empty, each cut to 14 characters.
pub names-elements :
    (n : ℕ) (path name : List ℕ)
    → length name ≡ dirsiz
    → All Nonzero path
    → length path < n
    → names n path name ≡ map short (elements path)
unfolding names
names-elements zero path name h a l = absurd (omega arith)
names-elements (suc n) path name h a l =
    names-step n path (skipelem path name) (skipelem_lem path name h a)
      (λ rest next e b k. names-elements n rest next e b (omega arith))

abbrev pub Shorter : List ℕ → Option (List ℕ × List ℕ) → Type 0
Shorter path none = Unit
Shorter path (some (rest, name)) = length rest < length path

-- The path that is left is shorter, whatever the characters are.
pub skipelem-Shorter : (path name : List ℕ) → Shorter path (skipelem path name)
unfolding skipelem
skipelem-Shorter path name = elim (skip_slashes-first path) [
  | inl q ↦ rw (q, skipelem) tt
  | inr (c, cs, q, o, l) ↦
      rw (q, skipelem)
        (omega (
          arith,
          length-skip_slashes (split_elem (c ∷ cs)).1,
          length-split_elem cs,
          ap (λ p. length p.1) (split_elem-other c cs o),
        ))
]
