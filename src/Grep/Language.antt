-- ===== src/Grep/Language.antt =====
-- user/grep.c: `match` decides the language of the expression.
use osn_mp2_part_a.Base.{
  ℕ, Bool, true, false, ◌||◌, ◌==◌, if◌then◌else◌, List, [], ◌∷◌, ◌≡◌, ◌↔◌, ◌⊎◌, inl, inr, refl,
  arith, Bool-cases,
}
use osn_mp2_part_a.Grep.{
  caret, dot, star, dollar, matchstar, match_one, is_end, matchhere, search, match,
}

-- What an expression says: a character or any number of it, where `.` is every character.
pub data Piece : Type 0 where
  one : ℕ → Piece
  many : ℕ → Piece

-- An expression is a list of pieces, and whether it ends with `$`.
pub record Regex : Type 0 where
  pub pieces : List Piece
  pub to_end : Bool

abbrev pub then_piece : Piece → Regex → Regex
then_piece p r = record r { pieces = p ∷ r.pieces }

-- A character that a `*` follows is a piece with it, and a `$` is special at the end only.
pub parse : List ℕ → Regex
parse [] = record { pieces = []; to_end = false }
parse (c ∷ []) =
    if c == dollar
    then record { pieces = []; to_end = true }
    else record { pieces = one c ∷ []; to_end = false }
parse (c ∷ d ∷ re) =
    let starred = then_piece (many c) (parse re) in
    let plain = then_piece (one c) (parse (d ∷ re)) in if d == star then starred else plain

abbrev pub Fits : ℕ → ℕ → Type 0
Fits c x = (c ≡ dot) ⊎ (c ≡ x)

-- The text begins with a string of the language, which is all of it if the expression ends with `$`.
pub data Begins : List Piece → Bool → List ℕ → Type 0 where
  done : {text : List ℕ} → Begins [] false text
  at_end : Begins [] true []
  fits :
      {c x : ℕ} {ps : List Piece} {e : Bool} {text : List ℕ}
      → Fits c x
      → Begins ps e text
      → Begins (one c ∷ ps) e (x ∷ text)
  no_more :
      {c : ℕ} {ps : List Piece} {e : Bool} {text : List ℕ}
      → Begins ps e text
      → Begins (many c ∷ ps) e text
  more :
      {c x : ℕ} {ps : List Piece} {e : Bool} {text : List ℕ}
      → Fits c x
      → Begins (many c ∷ ps) e text
      → Begins (many c ∷ ps) e (x ∷ text)

-- Somewhere in the text such a string begins.
pub data Somewhere (ps : List Piece) (e : Bool) : List ℕ → Type 0 where
  here : {text : List ℕ} → Begins ps e text → Somewhere ps e text
  later : {x : ℕ} {text : List ℕ} → Somewhere ps e text → Somewhere ps e (x ∷ text)

abbrev Accepts : Regex → List ℕ → Type 0
Accepts r text = Begins r.pieces r.to_end text

abbrev pub Matches : List ℕ → List ℕ → Type 0
Matches [] text = Somewhere [] false text
Matches (c ∷ re) text =
    if c == caret
    then Accepts (parse re) text
    else Somewhere (parse (c ∷ re)).pieces (parse (c ∷ re)).to_end text

Fits-iff : (c x : ℕ) → ((c == dot || c == x) ≡ true) ↔ Fits c x
Fits-iff c x = ground arith

star-Fits_iff : (c x : ℕ) → ((x == c || c == dot) ≡ true) ↔ Fits c x
star-Fits_iff c x = ground arith

or_iff : (b r : Bool) → ((if b then true else r) ≡ true) ↔ ((b ≡ true) ⊎ (r ≡ true))
or_iff b r = ground arith

and_iff : (b r : Bool) → ((if b then r else false) ≡ true) ↔ ((b ≡ true) × (r ≡ true))
and_iff b r = ground arith

-- A test of texts decides whether a text begins with a string of the pieces.
abbrev Decides : (List ℕ → Bool) → List Piece → Bool → Type 0
Decides m ps e = (text : List ℕ) → (m text ≡ true) ↔ Begins ps e text

module _ (c : ℕ) (ps : List Piece) (e : Bool) (m : List ℕ → Bool) (h : Decides m ps e) where
  matchstar-to : (text : List ℕ) → matchstar c m text ≡ true → Begins (many c ∷ ps) e text
  unfolding matchstar
  matchstar-to [] q = no_more ((h []).0 q)
  matchstar-to (x ∷ text) q = elim ((or_iff _ _).0 q) [
    | inl b ↦ no_more ((h (x ∷ text)).0 b)
    | inr b ↦ let (f, r) = (and_iff _ _).0 b in more ((star-Fits_iff c x).0 f) (matchstar-to text r)
  ]

  matchstar-from : (text : List ℕ) → Begins (many c ∷ ps) e text → matchstar c m text ≡ true
  unfolding matchstar
  matchstar-from [] (no_more b) = (h []).1 b
  matchstar-from (x ∷ text) (no_more b) = (or_iff _ _).1 (inl ((h (x ∷ text)).1 b))
  matchstar-from (x ∷ text) (more f b) =
      (or_iff _ _).1 (inr ((and_iff _ _).1 ((star-Fits_iff c x).1 f, matchstar-from text b)))

  matchstar-Decides : Decides (matchstar c m) (many c ∷ ps) e
  matchstar-Decides text = (matchstar-to text, matchstar-from text)

  match_one-to : (text : List ℕ) → match_one c m text ≡ true → Begins (one c ∷ ps) e text
  match_one-to [] q = ground (arith, q)
  match_one-to (x ∷ text) q =
      let (f, r) = (and_iff _ _).0 q in fits ((Fits-iff c x).0 f) ((h text).0 r)

  match_one-from : (text : List ℕ) → Begins (one c ∷ ps) e text → match_one c m text ≡ true
  match_one-from [] b = elim b [ ]
  match_one-from (x ∷ text) (fits f b) = (and_iff _ _).1 ((Fits-iff c x).1 f, (h text).1 b)

  match_one-Decides : Decides (match_one c m) (one c ∷ ps) e
  match_one-Decides text = (match_one-to text, match_one-from text)

  search-to : (text : List ℕ) → search m text ≡ true → Somewhere ps e text
  unfolding search
  search-to [] q = here ((h []).0 q)
  search-to (x ∷ text) q = elim ((or_iff _ _).0 q) [
    | inl b ↦ here ((h (x ∷ text)).0 b)
    | inr b ↦ later (search-to text b)
  ]

  search-from : (text : List ℕ) → Somewhere ps e text → search m text ≡ true
  unfolding search
  search-from [] (here b) = (h []).1 b
  search-from (x ∷ text) (here b) = (or_iff _ _).1 (inl ((h (x ∷ text)).1 b))
  search-from (x ∷ text) (later b) = (or_iff _ _).1 (inr (search-from text b))

not_empty : {x : ℕ} {text : List ℕ} → Begins [] true (x ∷ text) → false ≡ true
not_empty = elim [ ]

is_end-Decides : Decides is_end [] true
is_end-Decides [] = (λ q. at_end, λ b. refl)
is_end-Decides (x ∷ text) = (λ q. ground (arith, q), λ b. not_empty b)

nothing-Decides : Decides (matchhere []) [] false
unfolding matchhere
nothing-Decides text = (λ q. done, λ b. refl)

matchhere-Decides : (re : List ℕ) → Decides (matchhere re) (parse re).pieces (parse re).to_end
unfolding matchhere parse
matchhere-Decides [] = nothing-Decides
matchhere-Decides (c ∷ []) = elim (Bool-cases (c == dollar)) [
  | inl e ↦ rw (e, parse) is_end-Decides
  | inr e ↦ rw (e, parse) (match_one-Decides c [] false (matchhere []) nothing-Decides)
]
matchhere-Decides (c ∷ d ∷ re) =
    let rest = matchhere-Decides re in
    let after = matchhere-Decides (d ∷ re) in
    elim (Bool-cases (d == star)) [
      | inl e ↦ rw (e, parse) (matchstar-Decides c _ _ (matchhere re) rest)
      | inr e ↦ rw (e, parse) (match_one-Decides c _ _ (matchhere (d ∷ re)) after)
    ]

-- `match` finds an expression in a text exactly if the text begins with a string of its language, for
-- an expression that starts with `^`, or such a string begins somewhere in it.
pub match-Matches : (re text : List ℕ) → (match re text ≡ true) ↔ Matches re text
match-Matches [] text = (
  search-to 0 [] false (matchhere []) nothing-Decides text,
  search-from 0 [] false (matchhere []) nothing-Decides text,
)
match-Matches (c ∷ re) text = elim (Bool-cases (c == caret)) [
  | inl e ↦ rw e (matchhere-Decides re text)
  | inr e ↦ rw e (
    search-to 0 _ _ (matchhere (c ∷ re)) (matchhere-Decides (c ∷ re)) text,
    search-from 0 _ _ (matchhere (c ∷ re)) (matchhere-Decides (c ∷ re)) text,
  )
]
