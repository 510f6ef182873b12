-- ===== src/Fs/Blocks/Laws.antt =====
-- The bitmap of kernel/fs.c as a set of blocks, and what `balloc` and `bfree` do to it.
use osn_mp2_part_a.Base.{
  ℕ, zero, suc, ◌+◌, ◌-◌, ◌*◌, ◌/◌, ◌%◌, ◌≤◌, ◌<◌, Bool, true, false, ◌&&◌, ◌||◌, not, ◌==◌, ltb,
  Option, none, some, ◌≡◌, refl, sym, ◌∙◌, ap, arith, ◌≢◌, inl, inr, Bool-cases, eq_or_ne, subst,
  bit_set-or, bit_set-mask,
}
use osn_mp2_part_a.Memory.{Memory}
use osn_mp2_part_a.Fs.{Fs, bpb, bblock, bit_of, put_block}
use osn_mp2_part_a.Fs.Blocks.{find_clear, find_free_block, mark_bit, clear_bit}

-- Whether the bitmap has block `b` in use.
abbrev pub in_use : ℕ → Fs → ℕ → Bool
in_use dev s b = bit_of (s.blocks dev (bblock s.sb b)) (b % bpb)

abbrev Clear : ℕ → ℕ → ℕ → Memory → ℕ → Option ℕ → Type 0
Clear n size b bytes bi none = (i : ℕ) → bi ≤ i → i < bi + n → b + i < size → bit_of bytes i ≡ true
Clear n size b bytes bi (some k) =
    (bi ≤ k)
    × (k < bi + n)
    × (b + k < size)
    × (bit_of bytes k ≡ false)
    × ((i : ℕ) → bi ≤ i → i < k → bit_of bytes i ≡ true)

Clear-step :
    (n size b : ℕ) (bytes : Memory) (bi : ℕ) (o : Option ℕ)
    → bit_of bytes bi ≡ true
    → Clear n size b bytes (bi + 1) o
    → Clear (suc n) size b bytes bi o
Clear-step n size b bytes bi none e c = λ i l u h. elim (eq_or_ne bi i) [
  | inl q ↦ rw (← q) e
  | inr q ↦ c i (omega arith) (omega arith) h
]
Clear-step n size b bytes bi (some k) e (l, u, h, f, c) = (
  omega arith,
  omega arith,
  h,
  f,
  λ i m v. elim (eq_or_ne bi i) [ inl q ↦ rw (← q) e | inr q ↦ c i (omega arith) v ],
)

find_clear-Clear :
    (n size b : ℕ) (bytes : Memory) (bi : ℕ)
    → Clear n size b bytes bi (find_clear n size b bytes bi)
unfolding find_clear
find_clear-Clear zero size b bytes bi = λ i l u h. absurd (omega arith)
find_clear-Clear (suc n) size b bytes bi = elim (Bool-cases (ltb (b + bi) size)) [
  | inr e ↦ rw e (λ i l u h. absurd (ground arith))
  | inl e ↦ elim (Bool-cases (bit_of bytes bi)) [
    | inl f ↦
        rw (e, f) (Clear-step n size b bytes bi _ f (find_clear-Clear n size b bytes (bi + 1)))
    | inr f ↦ rw (e, f) (omega arith, omega arith, ground arith, f, λ i l u. absurd (omega arith))
  ]
]

-- The first free block from `b` on, below the size and in the next `n` bitmap blocks.
abbrev pub FirstFree : ℕ → ℕ → Fs → ℕ → Option (ℕ × ℕ) → Type 0
FirstFree n dev s b none = (c : ℕ) → b ≤ c → c < b + n * bpb → c < s.sb.size → in_use dev s c ≡ true
FirstFree n dev s b (some (d, i)) =
    (d % bpb ≡ 0)
    × (i < bpb)
    × (d + i < s.sb.size)
    × (b ≤ d)
    × (in_use dev s (d + i) ≡ false)
    × ((c : ℕ) → b ≤ c → c < d + i → in_use dev s c ≡ true)

module _ (dev : ℕ) (s : Fs) where
  -- A bit of a bitmap block is that of a block.
  bit-in_use :
      (b i : ℕ)
      → b % bpb ≡ 0
      → i < bpb
      → in_use dev s (b + i) ≡ bit_of (s.blocks dev (bblock s.sb b)) i
  bit-in_use b i e h =
      let q : (b + i) / bpb ≡ b / bpb = omega arith in
      let r : (b + i) % bpb ≡ i = omega arith in rw (q, r) refl

  at_block : (b c : ℕ) → b % bpb ≡ 0 → b ≤ c → c < b + bpb → b + (c - b) ≡ c
  at_block b c e l u = omega arith

  block-in_use :
      (b : ℕ)
      → b % bpb ≡ 0
      → (hi : ℕ) → hi ≤ bpb
      → ((i : ℕ) → i < hi → b + i < s.sb.size → bit_of (s.blocks dev (bblock s.sb b)) i ≡ true)
      → (c : ℕ) → b ≤ c
      → c < b + hi
      → c < s.sb.size
      → in_use dev s c ≡ true
  block-in_use b e hi k h c l u small =
      let back : b + (c - b) ≡ c = omega arith in
      ap (in_use dev s) (sym back)
      ∙ bit-in_use b (c - b) e (omega arith)
      ∙ h (c - b) (omega arith) (omega arith)

  FirstFree-step :
      (n b : ℕ) (o : Option (ℕ × ℕ))
      → ((c : ℕ) → b ≤ c → c < b + bpb → c < s.sb.size → in_use dev s c ≡ true)
      → FirstFree n dev s (b + bpb) o
      → FirstFree (suc n) dev s b o
  FirstFree-step n b none h f = λ c l u small. elim (Bool-cases (ltb c (b + bpb))) [
    | inl e ↦ h c l (ground arith) small
    | inr e ↦ f c (ground arith) (omega arith) small
  ]
  FirstFree-step n b (some (d, i)) h (e, k, small, l, free, f) = (
    e,
    k,
    small,
    omega arith,
    free,
    λ c m u. elim (Bool-cases (ltb c (b + bpb))) [
      | inl t ↦ h c m (ground arith) (omega arith)
      | inr t ↦ f c (ground arith) u
    ],
  )

  found :
      (n b : ℕ) (o : Option ℕ) (rest : Option (ℕ × ℕ))
      → b % bpb ≡ 0
      → Clear bpb s.sb.size b (s.blocks dev (bblock s.sb b)) 0 o
      → FirstFree n dev s (b + bpb) rest
      → FirstFree (suc n) dev s b (elim o [ none ↦ rest | some i ↦ some (b, i) ])
  found n b none rest e c f =
      FirstFree-step n b rest
        (block-in_use b e bpb (omega arith) (λ i u small. c i (omega arith) u small)) f
  found n b (some i) rest e (l, u, small, free, c) f = (
    e,
    u,
    small,
    omega arith,
    bit-in_use b i e u ∙ free,
    λ d m v. block-in_use b e i (omega arith) (λ j w k. c j (omega arith) w) d m v (omega arith),
  )

  find_free_block-FirstFree :
      (n b : ℕ) → b % bpb ≡ 0 → FirstFree n dev s b (find_free_block n dev b s)
  unfolding find_free_block
  find_free_block-FirstFree zero b e = λ c l u h. absurd (omega arith)
  find_free_block-FirstFree (suc n) b e = elim (Bool-cases (ltb b s.sb.size)) [
    | inr f ↦ rw f (λ c l u h. absurd (ground arith))
    | inl f ↦ rw f (
        found n b _ _ e (find_clear-Clear bpb s.sb.size b (s.blocks dev (bblock s.sb b)) 0)
          (find_free_block-FirstFree n (b + bpb) (omega arith)))
  ]

  -- Where the loops of `balloc` stop.
  pub balloc-FirstFree :
      (r : Option (ℕ × ℕ))
      → find_free_block (s.sb.size / bpb + 1) dev 0 s ≡ r
      → FirstFree (s.sb.size / bpb + 1) dev s 0 r
  balloc-FirstFree r e =
      subst (FirstFree (s.sb.size / bpb + 1) dev s 0) e
        (find_free_block-FirstFree (s.sb.size / bpb + 1) 0 refl)

-- The blocks hold bytes.
abbrev pub AllBytes : Fs → Type 0
AllBytes s = (d n a : ℕ) → s.blocks d n a < 256

-- The blocks of the bitmap are in use themselves.
abbrev pub Reserved : ℕ → Fs → Type 0
Reserved dev s = (c : ℕ) → c < s.sb.size → in_use dev s (bblock s.sb c) ≡ true

abbrev pub write_block : ℕ → ℕ → Memory → Fs → Fs
write_block dev b bytes s = record s { blocks = put_block s.blocks dev b bytes }

module _ (dev : ℕ) (s : Fs) (ok_bytes : AllBytes s) (b c : ℕ) where
  same_bit :
      (b / bpb ≡ c / bpb) → (b % bpb) / 8 ≡ (c % bpb) / 8 → (b % bpb) % 8 ≡ (c % bpb) % 8 → b ≡ c
  same_bit e f g = omega arith

  -- Marking a block adds it to the set, and clearing one takes it out.
  pub in_use-mark :
      in_use dev
        (write_block dev (bblock s.sb b) (mark_bit (s.blocks dev (bblock s.sb b)) (b % bpb)) s)
        c
      ≡ (b == c || in_use dev s c)
  in_use-mark = ground (
    arith,
    bit_set-or (s.blocks dev (bblock s.sb b) (b % bpb / 8)) (b % bpb % 8) (c % bpb % 8),
    ok_bytes dev (bblock s.sb b) (b % bpb / 8),
    same_bit,
  )

  pub in_use-clear :
      in_use dev
        (write_block dev (bblock s.sb b) (clear_bit (s.blocks dev (bblock s.sb b)) (b % bpb)) s)
        c
      ≡ (not (b == c) && in_use dev s c)
  in_use-clear = ground (
    arith,
    bit_set-mask (s.blocks dev (bblock s.sb b) (b % bpb / 8)) (b % bpb % 8) (c % bpb % 8),
    ok_bytes dev (bblock s.sb b) (b % bpb / 8),
    same_bit,
  )

module _ (dev : ℕ) (s : Fs) (b : ℕ) (bytes : Memory) where
  pub write_block-AllBytes :
      ((a : ℕ) → bytes a < 256) → AllBytes s → AllBytes (write_block dev b bytes s)
  write_block-AllBytes h o d n a = ground (arith, h a, o d n a)

  -- Another block than one of the bitmap leaves the set as it is.
  pub in_use-write :
      (c : ℕ) → b ≢ bblock s.sb c → in_use dev (write_block dev b bytes s) c ≡ in_use dev s c
  in_use-write c h = ground arith
