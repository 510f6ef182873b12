-- ===== src/Examples/Buffers.antt =====
-- The buffer cache as `binit` leaves it, and expressions of grep.
use osn_mp2_part_a.Base.{ℕ, true, [], ◌∷◌, ◌≡◌, ◌↔◌, refl}
use osn_mp2_part_a.Log.{Block}
use osn_mp2_part_a.Bio.{Cache, binit, bget, bpin}
use osn_mp2_part_a.Bio.Lookup.{Got, bget_lem}
use osn_mp2_part_a.Bio.Keys.{IsUnique}
use osn_mp2_part_a.Bio.Reach.{Step, Reach, Reach-IsUnique}
use osn_mp2_part_a.Grep.{match, matchhere, matchstar}
use osn_mp2_part_a.Grep.Language.{Matches, match-Matches}

abbrev blank : ℕ → ℕ → Block
blank dev b = []

bget_lem_example : Got 1 5 (binit blank).bufs (bget 1 5 (binit blank).bufs)
bget_lem_example = bget_lem 1 5 (binit blank).bufs

abbrev pinned : Cache
pinned = record (binit blank) { bufs = bpin 3 (binit blank).bufs }

Reach-IsUnique_example : IsUnique pinned.bufs
Reach-IsUnique_example = Reach-IsUnique (Reach.later Reach.start (Step.pins 3))

-- `^a.*b$` in `acb`.
match-Matches_example :
    (match (94 ∷ 97 ∷ 46 ∷ 42 ∷ 98 ∷ 36 ∷ []) (97 ∷ 99 ∷ 98 ∷ []) ≡ true)
    ↔ Matches (94 ∷ 97 ∷ 46 ∷ 42 ∷ 98 ∷ 36 ∷ []) (97 ∷ 99 ∷ 98 ∷ [])
match-Matches_example = match-Matches (94 ∷ 97 ∷ 46 ∷ 42 ∷ 98 ∷ 36 ∷ []) (97 ∷ 99 ∷ 98 ∷ [])

acb_found : match (94 ∷ 97 ∷ 46 ∷ 42 ∷ 98 ∷ 36 ∷ []) (97 ∷ 99 ∷ 98 ∷ []) ≡ true
unfolding matchhere matchstar
acb_found = refl
