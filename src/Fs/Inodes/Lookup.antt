-- ===== src/Fs/Inodes/Lookup.antt =====
-- What `iget` finds in the inode table.
use osn_mp2_part_a.Base.{
  ℕ, zero, suc, ◌+◌, ◌≤◌, ◌<◌, true, false, ◌==◌, Option, none, some, ◌≡◌, refl, sym, ◌∙◌, ap,
  arith, ◌⊎◌, inl, inr, Bool-cases, eq_or_ne,
}
use osn_mp2_part_a.Base.Result.{ok, panic, iget_full}
use osn_mp2_part_a.Base.Triple.{Triple, After}
use osn_mp2_part_a.Fs.{Fs, Inode, ninode}
use osn_mp2_part_a.Fs.Inodes.{is_entry, find_inode, first_empty, put_inode, ref_up, recycled, iget}
use osn_mp2_part_a.Fs.Inodes.Keys.{Key, Keys, Got, got}

module _ (dev inum : ℕ) (g : ℕ → Inode) where
  abbrev Empty : ℕ → ℕ → Option ℕ → ℕ → Type 0
  Empty i n empty e = (empty ≡ some e) ⊎ ((i ≤ e) × (e < i + n) × ((g e).ref ≡ 0))

  -- What the loop of `iget` finds.
  record Found (n i : ℕ) (empty : Option ℕ) (r : Option ℕ × Option ℕ) : Type 0 where
    pub hit : (k : ℕ) → r.0 ≡ some k → (i ≤ k) × (k < i + n) × (is_entry dev inum (g k) ≡ true)
    pub miss : r.0 ≡ none → (k : ℕ) → i ≤ k → k < i + n → is_entry dev inum (g k) ≡ false
    pub room : r.0 ≡ none → (e : ℕ) → r.1 ≡ some e → Empty i n empty e

  Empty-step :
      (i n : ℕ) (empty : Option ℕ) (e : ℕ)
      → Empty (i + 1) n (first_empty empty i (g i)) e
      → Empty i (suc n) empty e
  Empty-step i n none e (inl q) = elim (Bool-cases ((g i).ref == 0)) [
    | inl z ↦ let same : i ≡ e = ground arith in inr (omega arith, omega arith, ground arith)
    | inr z ↦ absurd (ground arith)
  ]
  Empty-step i n (some a) e (inl q) = inl q
  Empty-step i n empty e (inr (l, u, z)) = inr (omega arith, omega arith, z)

  find_inode-Found :
      (n i : ℕ) (empty : Option ℕ) → Found n i empty (find_inode n i dev inum g empty)
  unfolding find_inode
  find_inode-Found zero i empty = record {
    hit = λ k e. absurd (ground arith);
    miss = λ e k l u. absurd (omega arith);
    room = λ e k q. inl q;
  }
  find_inode-Found (suc n) i empty =
      let rest = find_inode-Found n (i + 1) (first_empty empty i (g i)) in
      elim (Bool-cases (is_entry dev inum (g i))) [
        | inl e ↦ rw e (record {
          hit = λ k q.
              let same : i ≡ k = ground arith in
              (omega arith, omega arith, ap (λ j. is_entry dev inum (g j)) (sym same) ∙ e);
          miss = λ q k l u. absurd (ground arith);
          room = λ q k z. absurd (ground arith);
        })
        | inr e ↦ rw e (record {
          hit = λ k q. let (l, u, y) = rest.hit k q in (omega arith, omega arith, y);
          miss = λ q k l u. elim (eq_or_ne i k) [
            | inl z ↦ ap (λ j. is_entry dev inum (g j)) (sym z) ∙ e
            | inr z ↦ rest.miss q k (omega arith) (omega arith)
          ];
          room = λ q k z. Empty-step i n empty k (rest.room q k z);
        })
      ]

-- `iget` makes one reference more.
iget-run :
    (f : ℕ → Key) (dev inum : ℕ) (s : Fs)
    → Keys f s
    → After (λ i t. Got f dev inum i × Keys (got f dev inum i) t) (iget dev inum s)
unfolding iget
iget-run f dev inum s h = decide _ (find_inode-Found dev inum s.inodes ninode 0 none)
  where
    decide :
        (r : Option ℕ × Option ℕ)
        → Found dev inum s.inodes ninode 0 none r
        → After
            (λ i t. Got f dev inum i × Keys (got f dev inum i) t)
            (elim r.0 [
              | some i ↦ ok (i, record s { inodes = put_inode s.inodes i (ref_up (s.inodes i)) })
              | none ↦ elim r.1 [
                | none ↦ panic iget_full
                | some i ↦
                    ok (
                      i,
                      record s { inodes = put_inode s.inodes i (recycled dev inum (s.inodes i)) },
                    )
              ]
            ])
    decide (some i, e) r =
        let (_, low, same) = r.hit i refl in
        ((low, inl (ground (arith, h i))), λ k. ground (arith, h i, h k))
    decide (none, none) r = tt
    decide (none, some i) r = elim (r.room refl i refl) [
      | inl z ↦ absurd (ground arith)
      | inr (_, low, z) ↦ (
        (low, inr (ground (arith, h i), λ k l p d n. ground (arith, h k, r.miss refl k))),
        λ k. ground (arith, h i, h k),
      )
    ]

pub iget-Keys :
    (f : ℕ → Key) (dev inum : ℕ)
    → Triple (Keys f) (iget dev inum) (λ i t. Got f dev inum i × Keys (got f dev inum i) t)
iget-Keys f dev inum = record { run = iget-run f dev inum }
