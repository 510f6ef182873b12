-- ===== src/Fs/Inodes/Keys.antt =====
-- The inode table of kernel/fs.c as the references to inodes: what `iget` and the calls that do not
-- make or drop a reference leave of it.
use osn_mp2_part_a.Base.{
  ℕ, ◌+◌, ◌<◌, ◌||◌, not, ◌==◌, ltb, if◌then◌else◌, ◌≡◌, refl, arith, ◌≢◌, ◌⊎◌, inl, inr,
  Option-cases,
}
use osn_mp2_part_a.Base.Result.{M, ◌>>=◌, ilock_no_type, ilock_null, iunlock_unlocked}
use osn_mp2_part_a.Base.Triple.{Triple, bind, returns, branches, failing}
use osn_mp2_part_a.Memory.{Memory}
use osn_mp2_part_a.Sleeplock.{acquiresleep, holdingsleep}
use osn_mp2_part_a.Fs.{Fs, Inode, ninode, bread, log_write}
use osn_mp2_part_a.Fs.Inodes.{
  idup, inode_at, set_inode, lock_inode, unlock_inode, read_inode, ilock, iunlock, iupdate,
  get_dinode, dinode_at,
}

-- Which inode an entry of the table holds, and the references to it.
pub record Key : Type 0 where
  pub ref : ℕ
  pub dev : ℕ
  pub inum : ℕ

abbrev pub put_key : (ℕ → Key) → ℕ → Key → ℕ → Key
put_key f i v j = if i == j then v else f j

abbrev pub HasKey : Key → Inode → Type 0
HasKey v ip = (ip.ref ≡ v.ref) × (ip.dev ≡ v.dev) × (ip.inum ≡ v.inum)

-- The table's keys.
abbrev pub Keys : (ℕ → Key) → Fs → Type 0
Keys f s = (k : ℕ) → HasKey (f k) (s.inodes k)

-- No inode is in two entries.
abbrev pub IsUnique : (ℕ → Key) → Type 0
IsUnique f =
    (j k : ℕ)
    → j < ninode
    → k < ninode
    → 0 < (f j).ref
    → 0 < (f k).ref
    → (f j).dev ≡ (f k).dev
    → (f j).inum ≡ (f k).inum
    → j ≡ k

-- The entry that `iget` returns: the one that holds the inode, or a free one if there is none.
abbrev pub Got : (ℕ → Key) → ℕ → ℕ → ℕ → Type 0
Got f dev inum i =
    (i < ninode)
    × (((0 < (f i).ref) × ((f i).dev ≡ dev) × ((f i).inum ≡ inum))
        ⊎ (((f i).ref ≡ 0)
            × ((k : ℕ) → k < ninode → 0 < (f k).ref → (f k).dev ≡ dev → (f k).inum ≢ inum)))

-- One reference more.
abbrev pub got : (ℕ → Key) → ℕ → ℕ → ℕ → ℕ → Key
got f dev inum i = put_key f i (record { ref = (f i).ref + 1; dev = dev; inum = inum })

pub Got-IsUnique :
    (f : ℕ → Key) (dev inum i : ℕ) → Got f dev inum i → IsUnique f → IsUnique (got f dev inum i)
Got-IsUnique f dev inum i (low, inl (r, d, n)) u =
    λ j k jl kl jr kr de ie. ground (arith, u j k, u j i, u i k)
Got-IsUnique f dev inum i (low, inr (r, free)) u =
    λ j k jl kl jr kr de ie. ground (arith, u j k, free j, free k)

module _ (f : ℕ → Key) where
  -- The calls that keep the keys.
  abbrev pub Keeps : {A : Type 0} → M Fs A → Type 0
  Keeps m = Triple (Keys f) m (λ _. Keys f)

  pub inode_at-then :
      {B : Type 0} {Q : B → Fs → Type 0} (i : ℕ) {k : Inode → M Fs B}
      → ((ip : Inode) → HasKey (f i) ip → Triple (Keys f) (k ip) Q)
      → Triple (Keys f) (inode_at i >>= k) Q
  unfolding inode_at ◌>>=◌
  inode_at-then i t = record { run = λ s h. (t (s.inodes i) (h i)).run s h }

  pub bread-then :
      {B : Type 0} {Q : B → Fs → Type 0} (dev b : ℕ) {k : Memory → M Fs B}
      → ((bytes : Memory) → Triple (Keys f) (k bytes) Q)
      → Triple (Keys f) (bread dev b >>= k) Q
  unfolding bread ◌>>=◌
  bread-then dev b t = record { run = λ s h. (t (s.blocks dev b)).run s h }

  pub log_write-Keys : (dev b : ℕ) (bytes : Memory) → Keeps (log_write dev b bytes)
  unfolding log_write
  log_write-Keys dev b bytes = record { run = λ s h. h }

  -- A change of an entry that leaves it its key.
  pub set_inode-Keys : (i : ℕ) (ip : Inode) → HasKey (f i) ip → Keeps (set_inode i ip)
  unfolding set_inode
  set_inode-Keys i ip e = record { run = λ s h k. ground (arith, h k) }

  -- A change of the key itself.
  pub set_key-Keys :
      (i : ℕ) (ip : Inode) (v : Key)
      → HasKey v ip
      → Triple (Keys f) (set_inode i ip) (λ _. Keys (put_key f i v))
  unfolding set_inode
  set_key-Keys i ip v e = record { run = λ s h k. ground (arith, h k) }

  pub lock_inode-Keys : (pid i : ℕ) → Keeps (lock_inode pid i)
  unfolding lock_inode
  lock_inode-Keys pid i = record {
    run = λ s h. elim (Option-cases (acquiresleep pid (s.inodes i).lock)) [
      | inl e ↦ rw (e, lock_inode) tt
      | inr (lk, e) ↦ rw (e, lock_inode) ((set_inode-Keys i _ (h i)).run s h)
    ];
  }

  pub unlock_inode-Keys : (i : ℕ) → Keeps (unlock_inode i)
  unfolding unlock_inode
  unlock_inode-Keys i = inode_at-then i λ ip k. set_inode-Keys i _ k

  pub read_inode-Keys : (i : ℕ) → Keeps (read_inode i)
  unfolding read_inode
  read_inode-Keys i = record {
    run = λ s h.
        (inode_at-then i λ ip k. bread-then ip.dev _ λ bytes. bind (set_inode-Keys i _ k) λ _.
            branches ((get_dinode bytes (dinode_at ip.inum)).type == 0) (λ z. failing ilock_no_type)
              (λ z. returns tt λ t g. g)).run
          s h;
  }

  pub ilock-Keys : (pid i : ℕ) → Keeps (ilock pid i)
  unfolding ilock
  ilock-Keys pid i = inode_at-then i λ ip k.
      branches (ltb ip.ref 1) (λ z. failing ilock_null)
        (λ z. bind (lock_inode-Keys pid i) λ _.
          inode_at-then i λ jp l. branches _ (λ v. returns tt λ t g. g) (λ v. read_inode-Keys i))

  pub iunlock-Keys : (pid i : ℕ) → Keeps (iunlock pid i)
  unfolding iunlock
  iunlock-Keys pid i = inode_at-then i λ ip k.
      branches (not (holdingsleep pid ip.lock) || ltb ip.ref 1) (λ z. failing iunlock_unlocked)
        (λ z. unlock_inode-Keys i)

  pub iupdate-Keys : (i : ℕ) → Keeps (iupdate i)
  unfolding iupdate
  iupdate-Keys i = record {
    run = λ s h.
        (inode_at-then i λ ip k. bread-then ip.dev _ λ bytes. log_write-Keys ip.dev _ _).run s h;
  }

  -- `idup` makes one reference more.
  pub idup-Keys :
      (i : ℕ)
      → Triple
          (Keys f)
          (idup i)
          (λ j t. (j ≡ i) × Keys (put_key f i (record (f i) { ref = (f i).ref + 1 })) t)
  unfolding idup
  idup-Keys i =
      inode_at-then i λ ip k.
        bind (set_key-Keys i _ _ (omega (arith, k), k.1, k.2)) λ _. returns i λ t g. (refl, g)
