-- ===== src/Paging/Slots/Alloc.antt =====
-- `alloc_swap_slot` and `free_swap_slot` against the set of the slots in use.
use osn_mp2_part_a.Base.{
  ℕ, ◌+◌, ◌<◌, ◌-◌, ◌%◌, ◌^◌, true, false, Option, none, some, ◌≡◌, refl, ◌∙◌, ◌&&◌, ◌||◌, not,
  ◌==◌, leb, arith, Bool-cases, inl, inr, ap, subst, eq_or_ne, ==_ne, ==_refl,
}
use osn_mp2_part_a.Paging.Slots.{
  SwapMap, max_swap_pages, slot_used, mark_slot, clear_slot, alloc_swap_slot, free_swap_slot,
  take_slot,
}
use osn_mp2_part_a.Paging.Slots.Laws.{
  IsValid, count_used, Found, find_free-Found, slot_used-mark_slot, slot_used-clear_slot,
  count_used-mark_slot, count_used-clear_slot, mark_slot-All, clear_slot-All, count_used-le,
  length-mark_slot, length-clear_slot, clear_slot-mark_slot,
}

-- What a call of `alloc_swap_slot` on `m` may give.
abbrev pub Allocated : SwapMap → Option ℕ × SwapMap → Type 0
Allocated m (none, m') =
    (m' ≡ m) × ((j : ℕ) → j < max_swap_pages → slot_used m.swap_bitmap j ≡ true)
Allocated m (some i, m') =
    (i < max_swap_pages)
    × (slot_used m.swap_bitmap i ≡ false)
    × ((j : ℕ) → j < i → slot_used m.swap_bitmap j ≡ true)
    × ((j : ℕ) → slot_used m'.swap_bitmap j ≡ (i == j || slot_used m.swap_bitmap j))
    × (m'.swap_used ≡ m.swap_used + 1)
    × IsValid m'

module _ {m : SwapMap} (v : IsValid m) where
  take_slot-Allocated :
      (r : Option ℕ) → Found m.swap_bitmap 0 max_swap_pages r → Allocated m (take_slot m r)
  unfolding take_slot
  take_slot-Allocated none f = (refl, λ j h. f j (omega arith) h)
  take_slot-Allocated (some i) f =
      let bm = m.swap_bitmap in
      let counted = count_used-mark_slot bm i v.sized v.bytes f.1 max_swap_pages f.2 in
      let more : m.swap_used + 1 ≡ count_used (mark_slot bm i) max_swap_pages =
        ground (arith, counted, v.counted) in
      let small = count_used-le (mark_slot bm i) max_swap_pages in
      (
        f.1,
        f.2,
        λ j h. f.3 j (omega arith) h,
        slot_used-mark_slot bm i v.sized v.bytes f.1,
        omega arith,
        record {
          sized = length-mark_slot bm i ∙ v.sized;
          bytes = mark_slot-All bm i v.sized v.bytes f.1;
          counted = omega arith;
        },
      )

  -- On a valid bitmap `alloc_swap_slot` takes the lowest free slot: it adds that slot alone to the
  -- set, counts it, and keeps the bitmap valid. It fails exactly when all 1024 slots are in use, and
  -- then it changes nothing.
  pub alloc_swap_slot_lem : Allocated m (alloc_swap_slot m)
  unfolding alloc_swap_slot
  alloc_swap_slot_lem = take_slot-Allocated _ (find_free-Found max_swap_pages 0 m.swap_bitmap)

  pub free_counted :
      (s : ℕ)
      → s < max_swap_pages
      → slot_used m.swap_bitmap s ≡ true
      → m.swap_used ≡ count_used (clear_slot m.swap_bitmap s) max_swap_pages + 1
  free_counted s h u =
      ground
        (arith, count_used-clear_slot m.swap_bitmap s v.sized v.bytes h max_swap_pages u, v.counted)

  -- `free_swap_slot` keeps the bitmap valid.
  pub free_swap_slot-IsValid : (s : ℕ) → IsValid (free_swap_slot m s)
  unfolding free_swap_slot
  free_swap_slot-IsValid s = elim (Bool-cases (leb max_swap_pages s)) [
    | inl e ↦ rw e v
    | inr small ↦ rw small (elim (Bool-cases (slot_used m.swap_bitmap s)) [
      | inr e ↦ rw e v
      | inl u ↦ rw u (
          let less = free_counted s (ground arith) u in
          let bound = count_used-le (clear_slot m.swap_bitmap s) max_swap_pages in
          record {
            sized = length-clear_slot m.swap_bitmap s ∙ v.sized;
            bytes = clear_slot-All m.swap_bitmap s v.sized v.bytes (ground arith);
            counted = omega arith;
          })
    ])
  ]

  free_unused :
      (s j : ℕ)
      → slot_used m.swap_bitmap s ≡ false
      → slot_used m.swap_bitmap j ≡ (not (s == j) && slot_used m.swap_bitmap j)
  free_unused s j e = elim (eq_or_ne s j) [
    | inl p ↦ rw (← p, e) (ground arith)
    | inr n ↦ rw (==_ne s j n)
  ]

  -- What `take_slot` did to slot `k` is undone.
  restored :
      (k : ℕ)
      → Found m.swap_bitmap 0 max_swap_pages (some k)
      → free_swap_slot
          (record m {
            swap_bitmap = mark_slot m.swap_bitmap k;
            swap_used = (m.swap_used + 1) % 2 ^ 32;
          })
          k
        ≡ m
  unfolding free_swap_slot
  restored k f =
      let bm = m.swap_bitmap in
      let used : slot_used (mark_slot bm k) k ≡ true =
        rw (slot_used-mark_slot bm k v.sized v.bytes f.1 k, ==_refl k) in
      let bound = count_used-le bm max_swap_pages in
      let count : ((m.swap_used + 1) % 2 ^ 32 + 2 ^ 32 - 1) % 2 ^ 32 ≡ m.swap_used =
        omega (arith, v.counted) in
      ground (arith, used, count, f.1, clear_slot-mark_slot bm k v.sized v.bytes f.1 f.2)

  -- After `free_swap_slot m s` the set of the slots in use is that of `m` without `s`.
  pub slot_used-free_swap_slot :
      (s j : ℕ)
      → j < max_swap_pages
      → slot_used (free_swap_slot m s).swap_bitmap j ≡ (not (s == j) && slot_used m.swap_bitmap j)
  unfolding free_swap_slot
  slot_used-free_swap_slot s j h = elim (Bool-cases (leb max_swap_pages s)) [
    | inl e ↦ rw e (ground arith)
    | inr small ↦ rw small (elim (Bool-cases (slot_used m.swap_bitmap s)) [
      | inr e ↦ rw e (free_unused s j e)
      | inl u ↦ rw u (slot_used-clear_slot m.swap_bitmap s v.sized v.bytes (ground arith) j)
    ])
  ]

  free-take :
      (r : Option ℕ) (i : ℕ) {m' : SwapMap}
      → Found m.swap_bitmap 0 max_swap_pages r
      → take_slot m r ≡ (some i, m')
      → free_swap_slot m' i ≡ m
  unfolding take_slot
  free-take none i f e = cc
  free-take (some k) i {m'} f e =
      subst P (ap (λ p. p.0) e) (subst Q (ap (λ p. p.1) e) (restored k f))
    where
      P : Option ℕ → Type 0
      P r = elim r [ none ↦ Unit | some j ↦ free_swap_slot m' j ≡ m ]

      Q : SwapMap → Type 0
      Q n = free_swap_slot n k ≡ m

  -- Freeing the slot that `alloc_swap_slot` has just returned restores the bitmap and the count.
  pub free-alloc :
      (i : ℕ) {m' : SwapMap} → alloc_swap_slot m ≡ (some i, m') → free_swap_slot m' i ≡ m
  unfolding alloc_swap_slot
  free-alloc i e = free-take _ i (find_free-Found max_swap_pages 0 m.swap_bitmap) e
