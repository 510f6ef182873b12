-- ===== src/Fs/Blocks/Calls.antt =====
-- What the calls of `balloc` and `bfree` do.
use osn_mp2_part_a.Base.{
  ℕ, ◌+◌, ◌/◌, ◌%◌, ◌<◌, true, false, ◌&&◌, ◌||◌, not, ◌==◌, none, some, ◌≡◌, refl, sym, ◌∙◌, arith,
  ◌≢◌, ◌⊎◌, inl, inr, Bool-cases, Option-cases, byte_or, byte_mask, ap, false≢true,
}
use osn_mp2_part_a.Base.Result.{ok, panic, pure, fail, ◌>>=◌, bfree_free}
use osn_mp2_part_a.Memory.{fill}
use osn_mp2_part_a.Fs.{Fs, bsize, bpb, bblock, bread, log_write}
use osn_mp2_part_a.Fs.Blocks.{
  bzero, find_free_block, mark_bit, clear_bit, take_block, balloc, bfree,
}
use osn_mp2_part_a.Fs.Blocks.Laws.{
  in_use, balloc-FirstFree, AllBytes, Reserved, write_block, in_use-mark, in_use-clear,
  in_use-write, write_block-AllBytes,
}

-- `r` is the first free block: it is taken now, it is all zeros, and the other blocks but that of the
-- bitmap are as they were.
abbrev pub Taken : ℕ → Fs → ℕ → Fs → Type 0
Taken dev s r t =
    (r < s.sb.size)
    × (in_use dev s r ≡ false)
    × ((c : ℕ) → c < r → in_use dev s c ≡ true)
    × ((c : ℕ) → c < s.sb.size → in_use dev t c ≡ (r == c || in_use dev s c))
    × ((a : ℕ) → a < bsize → t.blocks dev r a ≡ 0)
    × ((n a : ℕ) → n ≢ r → n ≢ bblock s.sb r → t.blocks dev n a ≡ s.blocks dev n a)

-- That, or there was no free block.
abbrev pub Allocated : ℕ → Fs → ℕ → Fs → Type 0
Allocated dev s r t =
    ((r ≡ 0) × (t ≡ s) × ((c : ℕ) → c < s.sb.size → in_use dev s c ≡ true)) ⊎ Taken dev s r t

module _ (dev : ℕ) (s : Fs) (bytes : AllBytes s) where
  marked : ℕ → Fs
  marked b = write_block dev (bblock s.sb b) (mark_bit (s.blocks dev (bblock s.sb b)) (b % bpb)) s

  after_take : ℕ → Fs
  unfolding marked
  after_take b = write_block dev b (fill ((marked b).blocks dev b) 0 0 bsize) (marked b)

  take_block-run :
      (b i : ℕ) → b % bpb ≡ 0 → i < bpb → take_block dev b i s ≡ ok (b + i, after_take (b + i))
  unfolding take_block bzero bread log_write ◌>>=◌ pure marked after_take
  take_block-run b i e h =
      let q : (b + i) / bpb ≡ b / bpb = omega arith in
      let r : (b + i) % bpb ≡ i = omega arith in rw (q, r) refl

  marked-AllBytes : (b : ℕ) → AllBytes (marked b)
  unfolding marked
  marked-AllBytes b =
      write_block-AllBytes dev s _ _
        (λ a. ground (
          arith,
          byte_or (s.blocks dev (bblock s.sb b) (b % bpb / 8)) (b % bpb % 8),
          bytes dev (bblock s.sb b) (b % bpb / 8),
          bytes dev (bblock s.sb b) a,
        ))
        bytes

  after_take-AllBytes : (b : ℕ) → AllBytes (after_take b)
  unfolding after_take
  after_take-AllBytes b =
      write_block-AllBytes dev (marked b) b _ (λ a. ground (arith, marked-AllBytes b dev b a))
        (marked-AllBytes b)

  take-Allocated :
      (b : ℕ)
      → Reserved dev s
      → b < s.sb.size
      → in_use dev s b ≡ false
      → ((c : ℕ) → c < b → in_use dev s c ≡ true)
      → Allocated dev s b (after_take b)
  unfolding marked after_take
  take-Allocated b res small free least = inr (
    small,
    free,
    least,
    λ c h.
        in_use-write dev (marked b) b _ c
          (λ e. false≢true (sym free ∙ ap (in_use dev s) e ∙ res c h))
        ∙ in_use-mark dev s bytes b c,
    λ a h. ground arith,
    λ n a h k. ground arith,
  )

  pub balloc-run :
      Reserved dev s
      → (r : ℕ) × (t : Fs) × (balloc dev s ≡ ok (r, t)) × Allocated dev s r t × AllBytes t
  unfolding balloc
  balloc-run res = elim (Option-cases (find_free_block (s.sb.size / bpb + 1) dev 0 s)) [
    | inl e ↦
        let f = balloc-FirstFree dev s none e in
        rw (e, balloc)
          (0, s, refl, inl (refl, refl, λ c h. f c (omega arith) (omega arith) h), bytes)
    | inr ((b, i), e) ↦
        let (aligned, low, small, _, free, least) = balloc-FirstFree dev s (some (b, i)) e in
        rw (e, balloc)
          (
            b + i,
            after_take (b + i),
            take_block-run b i aligned low,
            take-Allocated (b + i) res small free (λ c h. least c (omega arith) h),
            after_take-AllBytes (b + i),
          )
  ]

  -- `bfree` of a block that is in use makes it free, and of one that is free it panics.
  pub bfree-run :
      (b : ℕ)
      → ((in_use dev s b ≡ false) × (bfree dev b s ≡ panic bfree_free))
        ⊎ ((in_use dev s b ≡ true)
            × (t : Fs) × (bfree dev b s ≡ ok (tt, t))
            × ((c : ℕ) → in_use dev t c ≡ (not (b == c) && in_use dev s c))
            × AllBytes t)
  unfolding bfree bread log_write ◌>>=◌ fail
  bfree-run b = elim (Bool-cases (in_use dev s b)) [
    | inr e ↦ inl (e, rw e refl)
    | inl e ↦ inr (
      e,
      write_block dev (bblock s.sb b) (clear_bit (s.blocks dev (bblock s.sb b)) (b % bpb)) s,
      rw e refl,
      in_use-clear dev s bytes b,
      write_block-AllBytes dev s _ _
          (λ a. ground (
            arith,
            byte_mask (s.blocks dev (bblock s.sb b) (b % bpb / 8)) (b % bpb % 8),
            bytes dev (bblock s.sb b) (b % bpb / 8),
            bytes dev (bblock s.sb b) a,
          ))
          bytes,
    )
  ]

module _ (dev : ℕ) (s : Fs) (r : ℕ) (t : Fs) where
  -- Freeing `r` is possible and restores the set.
  abbrev pub Undone : Type 0
  Undone =
      (u : Fs) × (bfree dev r t ≡ ok (tt, u))
      × ((c : ℕ) → c < s.sb.size → in_use dev u c ≡ in_use dev s c)

  freed : Taken dev s r t → AllBytes t → Undone
  freed (small, free, _, now, _, _) bytes = elim (bfree-run dev t bytes r) [
    | inl (f, _) ↦
        let yes : (r == r || in_use dev s r) ≡ true = ground arith in
        absurd (false≢true (sym f ∙ now r small ∙ yes))
    | inr (_, u, runs, sets, _) ↦ (u, runs, λ c h. ground (arith, sets c, now c h, free))
  ]

-- What a call of `balloc` does.
abbrev pub Allocation : ℕ → Fs → Type 0
Allocation dev s =
    (r : ℕ) × (t : Fs) × (balloc dev s ≡ ok (r, t))
    × AllBytes t
    × (((r ≡ 0) × (t ≡ s) × ((c : ℕ) → c < s.sb.size → in_use dev s c ≡ true))
        ⊎ (Taken dev s r t × Undone dev s r t))

-- Where the blocks hold bytes and the bitmap's own blocks are in use, `balloc` returns: 0 and no change
-- where all blocks are in use; or else the first free block, which is taken now and all zeros, with no
-- other block changed but that of the bitmap, and `bfree` of it does not panic and restores the set.
pub balloc_lem : (dev : ℕ) (s : Fs) → AllBytes s → Reserved dev s → Allocation dev s
balloc_lem dev s bytes res =
    let (r, t, run, alloc, after) = balloc-run dev s bytes res in
    (
      r,
      t,
      run,
      after,
      elim alloc [ inl full ↦ inl full | inr taken ↦ inr (taken, freed dev s r t taken after) ],
    )
