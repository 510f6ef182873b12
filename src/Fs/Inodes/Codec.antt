-- ===== src/Fs/Inodes/Codec.antt =====
-- An inode that `iupdate` writes to its place in a block is read back as it was.
use osn_mp2_part_a.Base.{
  ℕ, ◌+◌, ◌-◌, ◌*◌, ◌/◌, ◌%◌, ◌^◌, ◌≤◌, ◌<◌, true, ◌≡◌, refl, ◌∙◌, ap, arith, ◌⊎◌, inl, inr, ◌≢◌,
  ◌==◌, ==_refl, ==_ne, eq_or_ne,
}
use osn_mp2_part_a.Memory.{Memory, within, byte_of}
use osn_mp2_part_a.Base.Result.{◌>>=◌}
use osn_mp2_part_a.Base.Triple.{AfterOr}
use osn_mp2_part_a.Fs.{Fs, Inode, Dinode, iblock, bread, log_write}
use osn_mp2_part_a.Fs.Inodes.{
  load16, load32, dinode_byte, put_dinode, get_dinode, dinode_at, inode_at, iupdate,
}

-- The fields have values of their types.
pub record Fits (d : Dinode) : Type 0 where
  pub type : d.type < 2 ^ 16
  pub major : d.major < 2 ^ 16
  pub minor : d.minor < 2 ^ 16
  pub nlink : d.nlink < 2 ^ 16
  pub size : d.size < 2 ^ 32
  pub addrs : (k : ℕ) → k < 13 → d.addrs k < 2 ^ 32

-- Two inodes with the same fields.
pub record Same (d e : Dinode) : Type 0 where
  pub type : d.type ≡ e.type
  pub major : d.major ≡ e.major
  pub minor : d.minor ≡ e.minor
  pub nlink : d.nlink ≡ e.nlink
  pub size : d.size ≡ e.size
  pub addrs : (k : ℕ) → k < 13 → d.addrs k ≡ e.addrs k

module _ (d : Dinode) (o : ℕ) (m : Memory) where
  at : (i : ℕ) → i < 64 → put_dinode d o m (o + i) ≡ dinode_byte d i
  unfolding put_dinode
  at i h =
      let t : within o 64 (o + i) ≡ true = ground arith in
      rw t (ap (dinode_byte d) (let e : o + i - o ≡ i = omega arith in e))

  load16-at :
      (i : ℕ)
      → i < 63
      → load16 (put_dinode d o m) (o + i) ≡ dinode_byte d i + 2 ^ 8 * dinode_byte d (i + 1)
  unfolding load16
  load16-at i h =
      let next : put_dinode d o m (o + i + 1) ≡ dinode_byte d (i + 1) =
        ap (put_dinode d o m) (let e : o + i + 1 ≡ o + (i + 1) = omega arith in e)
        ∙ at (i + 1) (omega arith) in
      omega (arith, at i (omega arith), next)

  load32-at :
      (i : ℕ)
      → i < 61
      → load32 (put_dinode d o m) (o + i)
        ≡ dinode_byte d i
          + 2 ^ 8 * dinode_byte d (i + 1)
          + 2 ^ 16 * dinode_byte d (i + 2)
          + 2 ^ 24 * dinode_byte d (i + 3)
  unfolding load32
  load32-at i h =
      omega (
        arith,
        at i (omega arith),
        next 1 (omega arith),
        next 2 (omega arith),
        next 3 (omega arith),
      )
    where
      next : (j : ℕ) → i + j < 64 → put_dinode d o m (o + i + j) ≡ dinode_byte d (i + j)
      next j l =
          ap (put_dinode d o m) (let e : o + i + j ≡ o + (i + j) = omega arith in e) ∙ at (i + j) l

  addr_byte : (k j : ℕ) → j < 4 → dinode_byte d (12 + 4 * k + j) ≡ byte_of (d.addrs k) j
  addr_byte k j h =
      let q : (12 + 4 * k + j - 12) / 4 ≡ k = omega arith in
      let r : (12 + 4 * k + j - 12) % 4 ≡ j = omega arith in ground (arith, q, r)

  pub get_dinode-put_dinode : Fits d → Same (get_dinode (put_dinode d o m) o) d
  unfolding get_dinode
  get_dinode-put_dinode f = record {
    type =
        ap (load16 (put_dinode d o m)) (let e : o ≡ o + 0 = omega arith in e)
        ∙ load16-at 0 (omega arith)
        ∙ omega (arith, f.type);
    major = load16-at 2 (omega arith) ∙ omega (arith, f.major);
    minor = load16-at 4 (omega arith) ∙ omega (arith, f.minor);
    nlink = load16-at 6 (omega arith) ∙ omega (arith, f.nlink);
    size = load32-at 8 (omega arith) ∙ omega (arith, f.size);
    addrs = λ k h.
        let first : dinode_byte d (12 + 4 * k) ≡ byte_of (d.addrs k) 0 =
          ap (dinode_byte d) (let e : 12 + 4 * k ≡ 12 + 4 * k + 0 = omega arith in e)
          ∙ addr_byte k 0 (omega arith) in
        ap (load32 (put_dinode d o m))
          (let e : o + 12 + 4 * k ≡ o + (12 + 4 * k) = omega arith in e)
        ∙ load32-at (12 + 4 * k) (omega arith)
        ∙ omega (
          arith,
          f.addrs k h,
          first,
          addr_byte k 1 (omega arith),
          addr_byte k 2 (omega arith),
          addr_byte k 3 (omega arith),
        );
  }

  -- The inodes at other places are as they were.
  pub get_dinode-put_dinode_ne :
      (p : ℕ)
      → (p + 64 ≤ o) ⊎ (o + 64 ≤ p)
      → Same (get_dinode (put_dinode d o m) p) (get_dinode m p)
  unfolding get_dinode load16 load32 put_dinode
  get_dinode-put_dinode_ne p h = record {
    type = ground arith;
    major = ground arith;
    minor = ground arith;
    nlink = ground arith;
    size = ground arith;
    addrs = λ k l. ground arith;
  }

-- Two inodes of one block are at different places.
pub dinode_at-apart :
    (a b : ℕ)
    → a / 16 ≡ b / 16
    → a ≢ b
    → (dinode_at a + 64 ≤ dinode_at b) ⊎ (dinode_at b + 64 ≤ dinode_at a)
dinode_at-apart a b e h = ground arith

-- Inode `n` of the disk.
abbrev pub on_disk : ℕ → Fs → ℕ → Dinode
on_disk dev s n = get_dinode (s.blocks dev (iblock s.sb n)) (dinode_at n)

Same-refl : (d : Dinode) → Same d d
Same-refl d = record {
  type = refl;
  major = refl;
  minor = refl;
  nlink = refl;
  size = refl;
  addrs = λ k h. refl;
}

-- Inode `i` of the table is on the disk, and the others there and the other blocks are as they were.
abbrev pub Written : Fs → ℕ → Unit {0} → Fs → Type 0
Written s i u t =
    Same (on_disk (s.inodes i).dev t (s.inodes i).inum) (s.inodes i).disk
    × ((n : ℕ)
        → n ≢ (s.inodes i).inum
        → Same (on_disk (s.inodes i).dev t n) (on_disk (s.inodes i).dev s n))
    × ((b : ℕ)
        → b ≢ iblock s.sb (s.inodes i).inum
        → t.blocks (s.inodes i).dev b ≡ s.blocks (s.inodes i).dev b)

-- `iupdate` of an inode whose fields have their widths does not panic. It writes the inode to the disk,
-- where it is read back as it is in the table, and leaves the other inodes and blocks as they are.
pub iupdate_lem : (i : ℕ) (s : Fs) → Fits (s.inodes i).disk → AfterOr ⊥ (Written s i) (iupdate i s)
unfolding iupdate inode_at bread log_write ◌>>=◌
iupdate_lem i s f =
    let ip : Inode = s.inodes i in
    let here = iblock s.sb ip.inum in
    let old : Memory = s.blocks ip.dev here in
    let new : Memory = put_dinode ip.disk (dinode_at ip.inum) old in
    let at_dev : (ip.dev == ip.dev) ≡ true = ==_refl ip.dev in
    let at_block : (here == here) ≡ true = ==_refl here in
    (
      rw (at_dev, at_block) (get_dinode-put_dinode ip.disk (dinode_at ip.inum) old f),
      λ n ne. elim (eq_or_ne (iblock s.sb n) here) [
        | inl e ↦
            rw (e, at_dev, at_block)
              (get_dinode-put_dinode_ne ip.disk (dinode_at ip.inum) old (dinode_at n)
                (dinode_at-apart n ip.inum (omega arith) ne))
        | inr e ↦ rw (at_dev, ==_ne _ _ e) (Same-refl _)
      ],
      λ b ne. rw (at_dev, ==_ne b here ne) refl,
    )
