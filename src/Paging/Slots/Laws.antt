-- ===== src/Paging/Slots/Laws.antt =====
-- The bitmap as a set of slots, and what allocation and release do to it.
use osn_mp2_part_a.Base.{
  ℕ, zero, suc, ◌+◌, ◌/◌, ◌%◌, ◌^◌, ◌≤◌, ◌<◌, bit_and, bit_or, true, false, Option, none, some,
  List, get_or, set, replicate, if◌then◌else◌, bit_mask, length, length-set, length-replicate, sym,
  bit_set-zero, get_or-set, set-set, set-get_or, All, get_or-All, set-All, ◌≡◌, refl, inl, inr,
  ◌&&◌, ◌||◌, not, ◌==◌, eq_or_ne, arith, Bool-cases, bit_set-or, bit_set-mask, byte_or, byte_mask,
  mask-or, ap, ltb, ◌∙◌,
}
use osn_mp2_part_a.Paging.Slots.{
  SwapMap, max_swap_pages, slot_used, mark_slot, clear_slot, find_free, empty,
}

abbrev pub IsByte : ℕ → Type 0
IsByte b = b < 256

-- How many of the slots below `n` are in use.
unfoldable pub count_used : List ℕ → ℕ → ℕ
count_used bm zero = 0
count_used bm (suc n) = (if slot_used bm n then 1 else 0) + count_used bm n

-- The bitmap has its 128 bytes, and `swap_used` counts its bits.
pub record IsValid (m : SwapMap) : Type 0 where
  pub sized : length m.swap_bitmap ≡ 128
  pub bytes : All IsByte m.swap_bitmap
  pub counted : m.swap_used ≡ count_used m.swap_bitmap max_swap_pages

byte_at : (bm : List ℕ) (i : ℕ) → All IsByte bm → get_or bm i 0 < 256
byte_at bm i h = get_or-All IsByte bm i 0 (omega arith) h

module _ (bm : List ℕ) (i : ℕ) (sized : length bm ≡ 128) (bytes : All IsByte bm)
    (h : i < 1024) where
  -- Marking a slot adds it to the set.
  pub slot_used-mark_slot : (j : ℕ) → slot_used (mark_slot bm i) j ≡ (i == j || slot_used bm j)
  unfolding slot_used mark_slot
  slot_used-mark_slot j = ground (
    arith,
    get_or-set bm (i / 8) (j / 8) (bit_or (get_or bm (i / 8) 0) (2 ^ (i % 8))) 0,
    bit_set-or (get_or bm (i / 8) 0) (i % 8) (j % 8),
    byte_at bm (i / 8) bytes,
  )

  -- Clearing a slot takes it out of the set.
  pub slot_used-clear_slot :
      (j : ℕ) → slot_used (clear_slot bm i) j ≡ (not (i == j) && slot_used bm j)
  unfolding slot_used clear_slot
  slot_used-clear_slot j = ground (
    arith,
    get_or-set bm (i / 8) (j / 8) (bit_and (get_or bm (i / 8) 0) (bit_mask (i % 8))) 0,
    bit_set-mask (get_or bm (i / 8) 0) (i % 8) (j % 8),
    byte_at bm (i / 8) bytes,
  )

  pub count_used-mark_slot :
      (n : ℕ)
      → slot_used bm i ≡ false
      → count_used (mark_slot bm i) n ≡ count_used bm n + (if ltb i n then 1 else 0)
  unfolding count_used
  count_used-mark_slot zero e = ground arith
  count_used-mark_slot (suc n) e = ground (arith, count_used-mark_slot n e, slot_used-mark_slot n)

  pub count_used-clear_slot :
      (n : ℕ)
      → slot_used bm i ≡ true
      → count_used bm n ≡ count_used (clear_slot bm i) n + (if ltb i n then 1 else 0)
  unfolding count_used
  count_used-clear_slot zero e = ground arith
  count_used-clear_slot (suc n) e =
      ground (arith, count_used-clear_slot n e, slot_used-clear_slot n)

  pub mark_slot-All : All IsByte (mark_slot bm i)
  unfolding mark_slot
  mark_slot-All =
      set-All IsByte bm (i / 8) _
        (byte_or (get_or bm (i / 8) 0) (i % 8) (byte_at bm (i / 8) bytes) (omega arith)) bytes

  pub clear_slot-All : All IsByte (clear_slot bm i)
  unfolding clear_slot
  clear_slot-All =
      set-All IsByte bm (i / 8) _
        (byte_mask (get_or bm (i / 8) 0) (i % 8) (byte_at bm (i / 8) bytes) (omega arith)) bytes

  pub clear_slot-mark_slot : slot_used bm i ≡ false → clear_slot (mark_slot bm i) i ≡ bm
  unfolding clear_slot mark_slot slot_used
  clear_slot-mark_slot e =
      let b : ℕ = get_or bm (i / 8) 0 in
      let back : bit_and (get_or (set bm (i / 8) (bit_or b (2 ^ (i % 8)))) (i / 8) 0)
            (bit_mask (i % 8))
          ≡ b =
        ground (
          arith,
          get_or-set bm (i / 8) (i / 8) (bit_or b (2 ^ (i % 8))) 0,
          mask-or b (i % 8) (byte_at bm (i / 8) bytes) (omega arith) e,
        ) in
      set-set bm (i / 8) (bit_or b (2 ^ (i % 8))) _
      ∙ ap (set bm (i / 8)) back
      ∙ set-get_or bm (i / 8) 0

pub length-mark_slot : (bm : List ℕ) (i : ℕ) → length (mark_slot bm i) ≡ length bm
unfolding mark_slot
length-mark_slot bm i = length-set bm (i / 8) _

pub length-clear_slot : (bm : List ℕ) (i : ℕ) → length (clear_slot bm i) ≡ length bm
unfolding clear_slot
length-clear_slot bm i = length-set bm (i / 8) _

pub count_used-le : (bm : List ℕ) (n : ℕ) → count_used bm n ≤ n
unfolding count_used
count_used-le bm zero = omega arith
count_used-le bm (suc n) = ground (arith, count_used-le bm n)

-- What the search returns: the lowest free slot of the range, or the range is full.
abbrev pub Found : List ℕ → ℕ → ℕ → Option ℕ → Type 0
Found bm i n none = (j : ℕ) → i ≤ j → j < i + n → slot_used bm j ≡ true
Found bm i n (some k) =
    (i ≤ k)
    × (k < i + n)
    × (slot_used bm k ≡ false)
    × ((j : ℕ) → i ≤ j → j < k → slot_used bm j ≡ true)

Found-suc :
    (bm : List ℕ) (i n : ℕ) (r : Option ℕ)
    → slot_used bm i ≡ true
    → Found bm (i + 1) n r
    → Found bm i (suc n) r
Found-suc bm i n none u f =
    λ j h k. elim (eq_or_ne i j) [ inl e ↦ rw (← e) u | inr ne ↦ f j (omega arith) (omega arith) ]
Found-suc bm i n (some k) u f = (
  omega arith,
  omega arith,
  f.2,
  λ j h l. elim (eq_or_ne i j) [ inl e ↦ rw (← e) u | inr ne ↦ f.3 j (omega arith) l ],
)

pub find_free-Found : (n i : ℕ) (bm : List ℕ) → Found bm i n (find_free n i bm)
unfolding find_free
find_free-Found zero i bm = λ j h k. absurd (omega arith)
find_free-Found (suc n) i bm = elim (Bool-cases (slot_used bm i)) [
  | inl u ↦ rw u (Found-suc bm i n _ u (find_free-Found n (i + 1) bm))
  | inr f ↦ rw f (omega arith, omega arith, f, λ j h k. absurd (omega arith))
]

abbrev zeros : ℕ → List ℕ
zeros k = replicate k 0

count_used-zero : (n k : ℕ) → count_used (zeros k) n ≡ 0
unfolding count_used slot_used
count_used-zero zero k = refl
count_used-zero (suc n) k =
    ground (arith, count_used-zero n k, get_or-zero k (n / 8), bit_set-zero (n % 8))
  where
    get_or-zero : (k i : ℕ) → get_or (zeros k) i 0 ≡ 0
    get_or-zero zero i = refl
    get_or-zero (suc k) zero = refl
    get_or-zero (suc k) (suc i) = get_or-zero k i

pub empty-IsValid : IsValid empty
empty-IsValid = record {
  sized = length-replicate {A = ℕ} 128 0;
  bytes = replicate-All 128;
  counted = sym (count_used-zero 1024 128);
}
  where
    replicate-All : (k : ℕ) → All IsByte (zeros k)
    replicate-All zero = tt
    replicate-All (suc k) = (omega arith, replicate-All k)
