-- ===== src/Grep.antt =====
-- user/grep.c: the matcher of regular expressions. A string is the list of its characters before the
-- null character. `matchstar` and the loop of `match` get the match of the rest of the expression as
-- a function of the text, which makes them recursive on the text and `matchhere` on the expression.
pub mod Language
use osn_mp2_part_a.Base.{ℕ, Bool, true, false, ◌&&◌, ◌||◌, ◌==◌, if◌then◌else◌, List, [], ◌∷◌}

-- The characters `^`, `.`, `*` and `$`.
abbrev pub caret : ℕ
caret = 94

abbrev pub dot : ℕ
dot = 46

abbrev pub star : ℕ
star = 42

abbrev pub dollar : ℕ
dollar = 36

unfoldable pub matchstar : ℕ → (List ℕ → Bool) → List ℕ → Bool
matchstar c here [] = here []
matchstar c here (x ∷ text) =
    let rest = matchstar c here text in
    if here (x ∷ text) then true else if x == c || c == dot then rest else false

-- The last test of `matchhere`, with the match of the rest of the expression.
abbrev pub match_one : ℕ → (List ℕ → Bool) → List ℕ → Bool
match_one c rest [] = false
match_one c rest (x ∷ text) = if c == dot || c == x then rest text else false

abbrev pub is_end : List ℕ → Bool
is_end [] = true
is_end (x ∷ text) = false

unfoldable pub matchhere : List ℕ → List ℕ → Bool
matchhere [] text = true
matchhere (c ∷ []) text = if c == dollar then is_end text else match_one c (matchhere []) text
matchhere (c ∷ d ∷ re) text =
    let starred = matchstar c (matchhere re) text in
    let plain = match_one c (matchhere (d ∷ re)) text in if d == star then starred else plain

-- The loop of `match`.
unfoldable pub search : (List ℕ → Bool) → List ℕ → Bool
search here [] = here []
search here (x ∷ text) = let rest = search here text in if here (x ∷ text) then true else rest

abbrev pub match : List ℕ → List ℕ → Bool
match [] text = search (matchhere []) text
match (c ∷ re) text = if c == caret then matchhere re text else search (matchhere (c ∷ re)) text
