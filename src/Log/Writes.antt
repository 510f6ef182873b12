-- ===== src/Log/Writes.antt =====
-- What the loop of `write_log` and `write_head` put on the disk, wherever the power fails.
use osn_mp2_part_a.Base.{
  ℕ, zero, suc, ◌+◌, ◌-◌, ◌≤◌, ◌<◌, ◌==◌, none, List, [], ◌∷◌, ◌++◌, length, drop, ap₂, ◌≡◌, refl,
  arith, All, ◌⊎◌, inl, inr, ◌≢◌, ◌∙◌, ap, Bool-cases,
}
use osn_mp2_part_a.Log.{
  Log, Block, Disk, bread, bwrite, put_block, write_log_from, log_blocks, words, decode_head,
  encode_head,
}

-- Block `b` is none of the log's own: its header at `start`, and the blocks after it.
abbrev pub Outside : ℕ → ℕ → Type 0
Outside start b = (b < start) ⊎ (start + log_blocks < b)

-- The log blocks from round `tail` on hold `g` of the blocks.
abbrev pub Logged : (ℕ → Block) → ℕ → List ℕ → ℕ → Disk → Type 0
Logged g start [] tail d = Unit
Logged g start (b ∷ bs) tail d = (d (start + tail + 1) ≡ g b) × Logged g start bs (tail + 1) d

-- The buffers of the log's own blocks are not pinned.
abbrev pub LogUnpinned : Log → Type 0
LogUnpinned s = (b : ℕ) → s.start ≤ b → b ≤ s.start + log_blocks → s.cache b ≡ none

-- What `write_log_from` leaves: everything but the disk and the power is as before; the disk
-- changes only in the log blocks of these rounds; with power for all of them they hold the blocks.
pub record Wrote (s : Log) (tail : ℕ) (bs : List ℕ) (t : Log) : Type 0 where
  pub same_start : t.start ≡ s.start
  pub same_lh : t.lh ≡ s.lh
  pub same_cache : t.cache ≡ s.cache
  pub elsewhere :
      (b : ℕ) → (b ≤ s.start + tail) ⊎ (s.start + tail + length bs < b) → t.disk b ≡ s.disk b
  pub left : t.power ≡ s.power - length bs
  pub logged : length bs ≤ s.power → Logged (bread s) s.start bs tail t.disk

Logged-ext :
    (g h : ℕ → Block) (start : ℕ) (bs : List ℕ) (tail : ℕ) (d : Disk)
    → All (λ b. g b ≡ h b) bs
    → Logged g start bs tail d
    → Logged h start bs tail d
Logged-ext g h start [] tail d e l = tt
Logged-ext g h start (b ∷ bs) tail d e l = (l.0 ∙ e.0, Logged-ext g h start bs (tail + 1) d e.1 l.1)

pub All-map {ℓ κ λ'} :
    {A : Type ℓ} {P : A → Type κ} {Q : A → Type λ'} (xs : List A)
    → ((x : A) → P x → Q x)
    → All P xs
    → All Q xs
All-map [] f a = tt
All-map (x ∷ xs) f a = (f x a.0, All-map xs f a.1)

abbrev put_log : Log → ℕ → Block → Log
put_log s b v = record s { disk = put_block s.disk b v; power = s.power - 1 }

-- A write elsewhere does not change what `bread` returns.
bread-put_log : (s : Log) (b c : ℕ) (v : Block) → b ≢ c → bread (put_log s b v) c ≡ bread s c
bread-put_log s b c v h = ground arith

Wrote-stopped :
    (s : Log) (tail b : ℕ) (bs : List ℕ) (t : Log)
    → s.power ≡ 0
    → Wrote s (tail + 1) bs t
    → Wrote s tail (b ∷ bs) t
Wrote-stopped s tail b bs t z w = record {
  same_start = w.same_start;
  same_lh = w.same_lh;
  same_cache = w.same_cache;
  elsewhere = λ c h. w.elsewhere c (omega arith);
  left = omega (arith, w.left);
  logged = λ h. absurd (omega arith);
}

Wrote-step :
    (s : Log) (tail b : ℕ) (bs : List ℕ) (t : Log)
    → 0 < s.power
    → tail + 1 ≤ log_blocks
    → All (Outside s.start) bs
    → Wrote (put_log s (s.start + tail + 1) (bread s b)) (tail + 1) bs t
    → Wrote s tail (b ∷ bs) t
Wrote-step s tail b bs t p room out w = record {
  same_start = w.same_start;
  same_lh = w.same_lh;
  same_cache = w.same_cache;
  elsewhere = λ c h. w.elsewhere c (omega arith) ∙ ground arith;
  left = omega (arith, w.left);
  logged = λ h. (
    w.elsewhere (s.start + tail + 1) (omega arith) ∙ ground arith,
    Logged-ext _ (bread s) s.start bs (tail + 1) t.disk
        (All-map bs (λ x o. bread-put_log s (s.start + tail + 1) x (bread s b) (omega arith)) out)
        (w.logged (omega arith)),
  );
}

-- The loop of `write_log` copies the blocks into the log, as far as the power goes.
pub write_log_from-Wrote :
    (bs : List ℕ) (tail : ℕ) (s : Log)
    → tail + length bs ≤ log_blocks
    → All (Outside s.start) bs
    → Wrote s tail bs (write_log_from tail bs s)
unfolding write_log_from bwrite
write_log_from-Wrote [] tail s room out = record {
  same_start = refl;
  same_lh = refl;
  same_cache = refl;
  elsewhere = λ b h. refl;
  left = omega arith;
  logged = λ h. tt;
}
write_log_from-Wrote (b ∷ bs) tail s room out = elim (Bool-cases (s.power == 0)) [
  | inl z ↦ rw z (
      Wrote-stopped s tail b bs _ (ground arith)
        (write_log_from-Wrote bs (tail + 1) s (omega arith) out.1))
  | inr p ↦ rw p (
      Wrote-step s tail b bs _ (ground arith) (omega arith) out.1 (
        write_log_from-Wrote bs (tail + 1) (put_log s (s.start + tail + 1) (bread s b))
          (omega arith) out.1))
]

words-cons : (n i j : ℕ) (x : ℕ) (v : Block) → j ≡ suc i → words n j (x ∷ v) ≡ words n i v
unfolding words
words-cons zero i j x v e = refl
words-cons (suc n) i j x v e = ap₂ ◌∷◌ (rw e) (words-cons n (i + 1) (j + 1) x v (omega arith))

words-append : (xs ys : List ℕ) → words (length xs) 0 (xs ++ ys) ≡ xs
unfolding words
words-append [] ys = refl
words-append (x ∷ xs) ys =
    ap (◌∷◌ x) (words-cons (length xs) 0 1 x (xs ++ ys) refl ∙ words-append xs ys)

-- A header block holds the list that was written to it.
pub decode-encode : (bs : List ℕ) (old : Block) → decode_head (encode_head bs old) ≡ bs
unfolding decode_head
decode-encode bs old =
    words-cons (length bs) 0 1 (length bs) (bs ++ drop (length bs + 1) old) refl
    ∙ words-append bs (drop (length bs + 1) old)
