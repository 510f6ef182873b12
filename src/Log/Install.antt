-- ===== src/Log/Install.antt =====
-- What `install_trans` puts on the disk, wherever the power fails.
use osn_mp2_part_a.Base.{
  ℕ, ◌+◌, ◌-◌, ◌≤◌, ◌<◌, Bool, true, false, ◌==◌, if◌then◌else◌, List, [], ◌∷◌, length, ◌≡◌, refl,
  arith, All, inl, inr, sym, ◌∙◌, ap, subst, Bool-cases,
}
use osn_mp2_part_a.Log.{
  Log, Block, Disk, bread, bwrite, put_block, install_one, install_from, unpin, elem, log_blocks,
}
use osn_mp2_part_a.Log.Writes.{Outside, Logged, LogUnpinned}

-- The disk `d` with `g` of the blocks in the list.
abbrev pub overlay : (ℕ → Block) → List ℕ → Disk → Disk
overlay g bs d b = if elem b bs then g b else d b

-- What `install_from` leaves: the log's own blocks stay unpinned, only the blocks of the list change on the
-- disk, and with power for all of them they are what the log holds.
pub record Installed (g : ℕ → Block) (s : Log) (tail : ℕ) (bs : List ℕ) (t : Log) : Type 0 where
  pub same_start : t.start ≡ s.start
  pub unpinned : LogUnpinned t
  pub elsewhere : (b : ℕ) → elem b bs ≡ false → t.disk b ≡ s.disk b
  pub left : t.power ≡ s.power - length bs
  pub installed : length bs ≤ s.power → (b : ℕ) → t.disk b ≡ overlay g bs s.disk b

-- One round with the power on: the block `b` gets the contents `v`.
abbrev put_home : Bool → Log → ℕ → Block → Log
put_home recovering s b v =
    let t = record s { disk = put_block s.disk b v; power = s.power - 1 } in
    if recovering then t else unpin b t

Logged-put :
    (g : ℕ → Block) (start : ℕ) (bs : List ℕ) (tail : ℕ) (d : Disk) (b : ℕ) (v : Block)
    → tail + length bs ≤ log_blocks
    → Outside start b
    → Logged g start bs tail d
    → Logged g start bs tail (put_block d b v)
Logged-put g start [] tail d b v h o l = tt
Logged-put g start (x ∷ xs) tail d b v h o l =
    (ground (arith, l.0), Logged-put g start xs (tail + 1) d b v (omega arith) o l.1)

-- A round leaves the log's own blocks unpinned.
LogUnpinned-unpin : (b : ℕ) (s : Log) → LogUnpinned s → LogUnpinned (unpin b s)
LogUnpinned-unpin b s u c h k = ground (arith, u c h k)

module _ (g : ℕ → Block) (s : Log) (tail b : ℕ) (bs : List ℕ) (s1 t : Log) where
  -- A round without power, before the rounds from `s1` on.
  Installed-stopped :
      s.power ≡ 0
      → s1.start ≡ s.start
      → s1.disk ≡ s.disk
      → s1.power ≡ s.power
      → Installed g s1 (tail + 1) bs t
      → Installed g s tail (b ∷ bs) t
  Installed-stopped z st di po w = record {
    same_start = w.same_start ∙ st;
    unpinned = w.unpinned;
    elsewhere = λ c h. w.elsewhere c (ground arith) ∙ ap (λ d. d c) di;
    left = omega (arith, w.left);
    installed = λ h. absurd (omega arith);
  }

  -- A round with power.
  Installed-step :
      0 < s.power
      → s1.start ≡ s.start
      → s1.disk ≡ put_block s.disk b (s.disk (s.start + tail + 1))
      → s1.power ≡ s.power - 1
      → (length (b ∷ bs) ≤ s.power → Logged g s.start (b ∷ bs) tail s.disk)
      → Installed g s1 (tail + 1) bs t
      → Installed g s tail (b ∷ bs) t
  Installed-step p st di po l w = record {
    same_start = w.same_start ∙ st;
    unpinned = w.unpinned;
    elsewhere = λ c h. w.elsewhere c (ground arith) ∙ ap (λ d. d c) di ∙ ground arith;
    left = omega (arith, w.left);
    installed = λ h c. w.installed (omega arith) c ∙ ap (λ d. overlay g bs d c) di ∙ over c (l h).0;
  }
    where
      over :
          (c : ℕ)
          → s.disk (s.start + tail + 1) ≡ g b
          → overlay g bs (put_block s.disk b (s.disk (s.start + tail + 1))) c
            ≡ overlay g (b ∷ bs) s.disk c
      over c e = rw e (ground arith)

-- One round of the loop, on the disk and the power.
record Round (tail b : ℕ) (s t : Log) : Type 0 where
  same_start : t.start ≡ s.start
  unpinned : LogUnpinned t
  disk :
      t.disk ≡ (if s.power == 0 then s.disk else put_block s.disk b (s.disk (s.start + tail + 1)))
  left : t.power ≡ s.power - 1

bwrite-Round :
    (tail b : ℕ) (s : Log)
    → LogUnpinned s
    → tail + 1 ≤ log_blocks
    → Round tail b s (bwrite b (bread s (s.start + tail + 1)) s)
unfolding bwrite
bwrite-Round tail b s u h =
    rw (u (s.start + tail + 1) (omega arith) (omega arith), bread)
      (elim (Bool-cases (s.power == 0)) [
        | inl z ↦
            rw z (record { same_start = refl; unpinned = u; disk = rw z; left = ground arith })
        | inr p ↦ rw p (record { same_start = refl; unpinned = u; disk = rw p; left = refl })
      ])

install_one-Round :
    (r : Bool) (tail b : ℕ) (s : Log)
    → LogUnpinned s
    → tail + 1 ≤ log_blocks
    → Round tail b s (install_one r tail b s)
unfolding install_one
install_one-Round true tail b s u h = bwrite-Round tail b s u h
install_one-Round false tail b s u h =
    let o = bwrite-Round tail b s u h in
    record {
      same_start = o.same_start;
      unpinned = LogUnpinned-unpin b (bwrite b (bread s (s.start + tail + 1)) s) o.unpinned;
      disk = o.disk;
      left = o.left;
    }

Logged-none :
    (g : ℕ → Block) (start tail : ℕ) (d : Disk) (xs : List ℕ)
    → length xs ≤ 0
    → Logged g start xs tail d
Logged-none g start tail d [] h = tt
Logged-none g start tail d (x ∷ xs) h = elim h [ ]

-- `install_trans` copies the logged blocks to their homes, as far as the power goes.
pub install_from-Installed :
    (r : Bool) (g : ℕ → Block) (bs : List ℕ) (tail : ℕ) (s : Log)
    → tail + length bs ≤ log_blocks
    → All (Outside s.start) bs
    → LogUnpinned s
    → (length bs ≤ s.power → Logged g s.start bs tail s.disk)
    → Installed g s tail bs (install_from r tail bs s)
unfolding install_from
install_from-Installed r g [] tail s room out u l = record {
  same_start = refl;
  unpinned = u;
  elsewhere = λ b h. refl;
  left = omega arith;
  installed = λ h b. refl;
}
install_from-Installed r g (b ∷ bs) tail s room out u l =
    let s1 = install_one r tail b s in
    let o = install_one-Round r tail b s u (omega arith) in
    let rest = λ (l1 : length bs ≤ s1.power → Logged g s1.start bs (tail + 1) s1.disk).
      install_from-Installed r g bs (tail + 1) s1 (omega arith)
        (subst (λ st. All (Outside st) bs) (sym o.same_start) out.1) o.unpinned l1 in
    let off : (s.power == 0) ≡ true → s1.disk ≡ s.disk = λ z. o.disk ∙ rw z in
    let on : (s.power == 0) ≡ false → s1.disk ≡ put_block s.disk b (s.disk (s.start + tail + 1)) =
      λ p. o.disk ∙ rw p in
    elim (Bool-cases (s.power == 0)) [
      | inl z ↦
          Installed-stopped g s tail b bs s1 (install_from r (tail + 1) bs s1) (ground arith)
            o.same_start (off z) (ground (arith, o.left))
            (rest (λ h. Logged-none g s1.start (tail + 1) s1.disk bs (ground (arith, o.left))))
      | inr p ↦
          Installed-step g s tail b bs s1 (install_from r (tail + 1) bs s1) (ground arith)
            o.same_start (on p) o.left l
            (rest (λ h. logged_after s1 o p (l (ground (arith, o.left)))))
    ]
  where
    logged_after :
        (s1 : Log)
        → Round tail b s s1
        → (s.power == 0) ≡ false
        → Logged g s.start (b ∷ bs) tail s.disk
        → Logged g s1.start bs (tail + 1) s1.disk
    logged_after s1 o p w =
        subst (λ st. Logged g st bs (tail + 1) s1.disk) (sym o.same_start)
          (subst (Logged g s.start bs (tail + 1)) (sym changed)
            (Logged-put g s.start bs (tail + 1) s.disk b _ (omega arith) out.0 w.1))
      where
        changed : s1.disk ≡ put_block s.disk b (s.disk (s.start + tail + 1))
        changed = o.disk ∙ rw p

bwrite_stopped : (b : ℕ) (v : Block) (s : Log) → (s.power == 0) ≡ true → bwrite b v s ≡ s
unfolding bwrite
bwrite_stopped b v s z = rw z

-- Without power nothing reaches the disk.
pub install_from_stopped :
    (r : Bool) (tail : ℕ) (bs : List ℕ) (s : Log)
    → (s.power == 0) ≡ true
    → ((install_from r tail bs s).disk ≡ s.disk) × ((install_from r tail bs s).power ≡ s.power)
unfolding install_from install_one
install_from_stopped r tail [] s z = (refl, refl)
install_from_stopped true tail (b ∷ bs) s z =
    subst
      (λ t.
        ((install_from true (tail + 1) bs t).disk ≡ s.disk)
        × ((install_from true (tail + 1) bs t).power ≡ s.power))
      (sym (bwrite_stopped b (bread s (s.start + tail + 1)) s z))
      (install_from_stopped true (tail + 1) bs s z)
install_from_stopped false tail (b ∷ bs) s z =
    subst
      (λ t.
        ((install_from false (tail + 1) bs (unpin b t)).disk ≡ s.disk)
        × ((install_from false (tail + 1) bs (unpin b t)).power ≡ s.power))
      (sym (bwrite_stopped b (bread s (s.start + tail + 1)) s z))
      (install_from_stopped false (tail + 1) bs (unpin b s) z)
