-- ===== src/Bio/Lookup.antt =====
-- The buffer that `bget` gives, among those in the ring.
use osn_mp2_part_a.Base.{
  ℕ, ◌+◌, ◌%◌, ◌^◌, true, false, ◌==◌, if◌then◌else◌, Option, none, some, List, [], ◌∷◌, ◌++◌, ◌≡◌,
  ◌≢◌, refl, ap, arith, All, Bool-cases, ◌⊎◌, inl, inr,
}
use osn_mp2_part_a.Base.Result.{Result, ok, panic, no_buffers}
use osn_mp2_part_a.Bio.{Buf, holds, find_cached, reuse, recycle, bget}

abbrev pub referenced : Buf → Buf
referenced b = record b { refcnt = (b.refcnt + 1) % 2 ^ 32 }

-- The ring with one of its buffers changed.
pub record Split (bs cs : List Buf) (i : ℕ) (f : Buf → Buf) : Type 0 where
  pub front : List Buf
  pub chosen : Buf
  pub rear : List Buf
  pub before : bs ≡ front ++ chosen ∷ rear
  pub after : cs ≡ front ++ f chosen ∷ rear
  pub address : chosen.index ≡ i

abbrev Split-cons :
    {bs cs : List Buf} {i : ℕ} {f : Buf → Buf} (b : Buf)
    → Split bs cs i f
    → Split (b ∷ bs) (b ∷ cs) i f
Split-cons b s = record {
  front = b ∷ s.front;
  chosen = s.chosen;
  rear = s.rear;
  before = ap (◌∷◌ b) s.before;
  after = ap (◌∷◌ b) s.after;
  address = s.address;
}

abbrev NotHeld : ℕ → ℕ → Buf → Type 0
NotHeld dev blockno b = holds dev blockno b ≡ false

-- The first buffer that holds the block, or none does.
abbrev pub Cached : ℕ → ℕ → List Buf → Option (ℕ × List Buf) → Type 0
Cached dev blockno bs none = All (NotHeld dev blockno) bs
Cached dev blockno bs (some (i, cs)) =
    (s : Split bs cs i referenced) × (holds dev blockno s.chosen ≡ true)
    × All (NotHeld dev blockno) s.front

abbrev InUse : Buf → Type 0
InUse b = b.refcnt ≢ 0

-- The last buffer that is not in use, or all are.
abbrev pub Recycled : ℕ → ℕ → List Buf → Option (ℕ × List Buf) → Type 0
Recycled dev blockno bs none = All InUse bs
Recycled dev blockno bs (some (i, cs)) =
    (s : Split bs cs i (reuse dev blockno)) × (s.chosen.refcnt ≡ 0) × All InUse s.rear

Cached-cons :
    (dev blockno : ℕ) (b : Buf) (bs : List Buf) (r : Option (ℕ × List Buf))
    → NotHeld dev blockno b
    → Cached dev blockno bs r
    → Cached dev blockno (b ∷ bs) (elim r [ none ↦ none | some (i, rest) ↦ some (i, b ∷ rest) ])
Cached-cons dev blockno b bs none n c = (n, c)
Cached-cons dev blockno b bs (some (i, cs)) n (s, h, f) = (Split-cons b s, h, (n, f))

pub find_cached-Cached :
    (dev blockno : ℕ) (bs : List Buf) → Cached dev blockno bs (find_cached dev blockno bs)
unfolding find_cached
find_cached-Cached dev blockno [] = tt
find_cached-Cached dev blockno (b ∷ bs) = elim (Bool-cases (holds dev blockno b)) [
  | inl e ↦ rw e (
    record { front = []; chosen = b; rear = bs; before = refl; after = refl; address = refl },
    e,
    tt,
  )
  | inr e ↦ rw e (Cached-cons dev blockno b bs _ e (find_cached-Cached dev blockno bs))
]

recycle-cons :
    (dev blockno : ℕ) (b : Buf) (bs : List Buf) (r : Option (ℕ × List Buf))
    → Recycled dev blockno bs r
    → Recycled dev blockno (b ∷ bs) (elim r [
      | some (i, rest) ↦ some (i, b ∷ rest)
      | none ↦ if b.refcnt == 0 then some (b.index, reuse dev blockno b ∷ bs) else none
    ])
recycle-cons dev blockno b bs none c = elim (Bool-cases (b.refcnt == 0)) [
  | inl e ↦ rw e (
    record { front = []; chosen = b; rear = bs; before = refl; after = refl; address = refl },
    ground (arith, e),
    c,
  )
  | inr e ↦ rw e (ground (arith, e), c)
]
recycle-cons dev blockno b bs (some (i, cs)) (s, h, u) = (Split-cons b s, h, u)

pub recycle-Recycled :
    (dev blockno : ℕ) (bs : List Buf) → Recycled dev blockno bs (recycle dev blockno bs)
unfolding recycle
recycle-Recycled dev blockno [] = tt
recycle-Recycled dev blockno (b ∷ bs) =
    recycle-cons dev blockno b bs _ (recycle-Recycled dev blockno bs)

-- What `bget` gives.
abbrev pub Got : ℕ → ℕ → List Buf → Result (ℕ × List Buf) → Type 0
Got dev blockno bs (ok r) =
    Cached dev blockno bs (some r)
    ⊎ (All (NotHeld dev blockno) bs × Recycled dev blockno bs (some r))
Got dev blockno bs (panic e) = (e ≡ no_buffers) × All (NotHeld dev blockno) bs × All InUse bs

got :
    (dev blockno : ℕ) (bs : List Buf) (c r : Option (ℕ × List Buf))
    → Cached dev blockno bs c
    → Recycled dev blockno bs r
    → Got dev blockno bs
        (elim c [ some x ↦ ok x | none ↦ elim r [ some x ↦ ok x | none ↦ panic no_buffers ] ])
got dev blockno bs (some x) r h u = inl h
got dev blockno bs none (some x) h u = inr (h, u)
got dev blockno bs none none h u = (refl, h, u)

-- `bget` takes one more reference to the first buffer that holds the block. If none does, it takes
-- the least recently used of the buffers without references for the block, its contents not valid
-- yet. No other buffer changes, nor does the order. It panics only if no buffer holds the block and
-- all have references.
pub bget_lem : (dev blockno : ℕ) (bs : List Buf) → Got dev blockno bs (bget dev blockno bs)
unfolding bget
bget_lem dev blockno bs =
    got dev blockno bs _ _ (find_cached-Cached dev blockno bs) (recycle-Recycled dev blockno bs)
