-- ===== src/Bio/Reach.antt =====
-- Each disk block is in one buffer, in every state that the cache's operations reach.
use osn_mp2_part_a.Base.{
  ℕ, ◌+◌, ◌-◌, ◌%◌, ◌^◌, false, ◌==◌, Option, none, some, List, [], ◌∷◌, ◌≡◌, refl, sym, subst,
  arith, All, Bool-cases, inl, inr,
}
use osn_mp2_part_a.Base.Result.{Result, ok, panic}
use osn_mp2_part_a.Sleeplock.{Sleeplock, acquiresleep, releasesleep}
use osn_mp2_part_a.Log.{Block}
use osn_mp2_part_a.Bio.{
  Buf, Cache, init_bufs, binit, nbuf, holds, bget, get_buf, set_buf, load_buf, lock_and_load,
  bwrite, unlink, put_back, brelse, bpin, bunpin,
}
use osn_mp2_part_a.Bio.Keys.{
  IsUnique, SameKey, SameKeys, IsUnique-SameKeys, set_buf-SameKeys, SameKey-IsUnique,
  reuse-IsUnique, unlink-IsUnique, get_buf-unlink, All-SameKeys, SameKeys-refl,
}
use osn_mp2_part_a.Bio.Lookup.{referenced, Got, bget_lem}

-- The calls on the cache, by any processes in any order. A process that waits in `bread` comes back
-- with `locks`; the one that holds the lock may change the contents.
pub data Step (c : Cache) : Cache → Type 0 where
  gets :
      {i : ℕ} {bs : List Buf} (dev blockno : ℕ)
      → bget dev blockno c.bufs ≡ ok (i, bs)
      → Step c (record c { bufs = bs })
  locks : {d : Cache} (pid i : ℕ) → lock_and_load pid i c ≡ some d → Step c d
  edits :
      (i : ℕ) (v : Block)
      → Step c (record c { bufs = set_buf i (λ b. record b { contents = v }) c.bufs })
  writes : {d : Cache} (pid i : ℕ) → bwrite pid i c ≡ ok d → Step c d
  releases : {d : Cache} (pid i : ℕ) → brelse pid i c ≡ ok d → Step c d
  pins : (i : ℕ) → Step c (record c { bufs = bpin i c.bufs })
  unpins : (i : ℕ) → Step c (record c { bufs = bunpin i c.bufs })

pub data Reach (d : ℕ → ℕ → Block) : Cache → Type 0 where
  start : Reach d (binit d)
  later : {c e : Cache} → Reach d c → Step c e → Reach d e

set_buf-IsUnique :
    (i : ℕ) (f : Buf → Buf) (bs : List Buf)
    → ((b : Buf) → b.index ≡ i → SameKey b (f b))
    → IsUnique bs
    → IsUnique (set_buf i f bs)
set_buf-IsUnique i f bs h u = IsUnique-SameKeys bs _ (set_buf-SameKeys i f bs h) u

Got-IsUnique :
    (dev blockno : ℕ) (bs : List Buf) (r : Result (ℕ × List Buf))
    → Got dev blockno bs r
    → IsUnique bs
    → {i : ℕ} {cs : List Buf} → r ≡ ok (i, cs)
    → IsUnique cs
Got-IsUnique dev blockno bs (panic x) g u e = cc
Got-IsUnique dev blockno bs (ok (j, ds)) (inl (s, h, f)) u {cs = cs} e =
    let same : ds ≡ cs = cc in
    subst IsUnique same (
      subst IsUnique (sym s.after) (
        SameKey-IsUnique s.chosen (referenced s.chosen) s.front s.rear (refl, refl, refl)
          (subst IsUnique s.before u)))
Got-IsUnique dev blockno bs (ok (j, ds)) (inr (free, (s, h, f))) u {cs = cs} e =
    let same : ds ≡ cs = cc in
    subst IsUnique same (
      subst IsUnique (sym s.after) (
        reuse-IsUnique dev blockno s.chosen s.front s.rear
          (subst (All (λ a. holds dev blockno a ≡ false)) s.before free)
          (subst IsUnique s.before u)))

load_buf-SameKey :
    (d : ℕ → ℕ → Block) (lk : Sleeplock) (b : Buf) → SameKey b (load_buf d (record b { lock = lk }))
load_buf-SameKey d lk b = ground arith

set_const-SameKeys :
    (i : ℕ) (x : Buf) (bs : List Buf)
    → SameKey (get_buf i bs) x
    → SameKeys bs (set_buf i (λ b. x) bs)
set_const-SameKeys i x [] k = tt
set_const-SameKeys i x (b ∷ bs) k = elim (Bool-cases (b.index == i)) [
  | inl e ↦ rw e (rw e at k, SameKeys-refl bs)
  | inr e ↦ rw e ((refl, refl, refl), set_const-SameKeys i x bs (rw e at k))
]

put_back-IsUnique : (i : ℕ) (bs : List Buf) → IsUnique bs → IsUnique (put_back i (get_buf i bs) bs)
unfolding put_back
put_back-IsUnique i bs u =
    let b = get_buf i bs in
    let n = (b.refcnt + 2 ^ 32 - 1) % 2 ^ 32 in
    let released : Buf = record b { lock = releasesleep b.lock; refcnt = n } in
    elim (Bool-cases (n == 0)) [
      | inl e ↦ rw e (
        All-SameKeys b released (unlink i bs) (unlink i bs) (refl, refl, refl) (SameKeys-refl _)
            (get_buf-unlink i bs u),
        unlink-IsUnique i bs u,
      )
      | inr e ↦
          rw e (IsUnique-SameKeys bs _ (set_const-SameKeys i released bs (refl, refl, refl)) u)
    ]

init_bufs-IsUnique : IsUnique (init_bufs nbuf [])
init_bufs-IsUnique = omega arith

locked-IsUnique :
    (i : ℕ) (c : Cache) {d : Cache} (r : Option Sleeplock)
    → elim r as (λ x. Option Cache) [
      | none ↦ none
      | some lk ↦
          some
            (record c { bufs = set_buf i (λ b. load_buf c.disk (record b { lock = lk })) c.bufs })
    ]
      ≡ some d
    → IsUnique c.bufs
    → IsUnique d.bufs
locked-IsUnique i c none e u = cc
locked-IsUnique i c {d} (some lk) e u =
    let same : d.bufs ≡ set_buf i (λ b. load_buf c.disk (record b { lock = lk })) c.bufs =
      ground (arith, e) in
    subst IsUnique (sym same) (set_buf-IsUnique i _ c.bufs (λ b h. load_buf-SameKey c.disk lk b) u)

-- Every call keeps the buffers apart.
Step-IsUnique : {c e : Cache} → Step c e → IsUnique c.bufs → IsUnique e.bufs
unfolding lock_and_load bwrite brelse bpin bunpin
Step-IsUnique {c} (Step.gets dev blockno e) u =
    Got-IsUnique dev blockno c.bufs _ (bget_lem dev blockno c.bufs) u e
Step-IsUnique {c} (Step.locks pid i e) u =
    locked-IsUnique i c (acquiresleep pid (get_buf i c.bufs).lock) e u
Step-IsUnique {c} (Step.edits i v) u = set_buf-IsUnique i _ c.bufs (λ b h. (refl, refl, refl)) u
Step-IsUnique {c} {e = d} (Step.writes pid i e) u =
    let same : d.bufs ≡ c.bufs = ground (arith, e) in subst IsUnique (sym same) u
Step-IsUnique {c} {e = d} (Step.releases pid i e) u =
    let same : d.bufs ≡ put_back i (get_buf i c.bufs) c.bufs = ground (arith, e) in
    subst IsUnique (sym same) (put_back-IsUnique i c.bufs u)
Step-IsUnique {c} (Step.pins i) u = set_buf-IsUnique i _ c.bufs (λ b h. (refl, refl, refl)) u
Step-IsUnique {c} (Step.unpins i) u = set_buf-IsUnique i _ c.bufs (λ b h. (refl, refl, refl)) u

-- In every state of the cache that its calls reach, in any order and by any processes, the buffers
-- of the ring are different ones, and no two are for the same block of a device other than 0.
pub Reach-IsUnique : {d : ℕ → ℕ → Block} {c : Cache} → Reach d c → IsUnique c.bufs
unfolding binit
Reach-IsUnique start = init_bufs-IsUnique
Reach-IsUnique (later r s) = Step-IsUnique s (Reach-IsUnique r)
