-- ===== src/Fs/Dirs/Owned.antt =====
-- The references to inodes that the callers of kernel/fs.c hold, and the table that counts them.
use osn_mp2_part_a.Base.{
  ℕ, ◌+◌, ◌-◌, ◌<◌, ◌==◌, if◌then◌else◌, ◌≡◌, arith, none, some, Option-cases, inl, inr,
}
use osn_mp2_part_a.Base.Result.{M, ◌>>=◌}
use osn_mp2_part_a.Base.Triple.{Triple, after, bind, returns}
use osn_mp2_part_a.Memory.{Memory}
use osn_mp2_part_a.Fs.{Fs, Inode, ninode, bread, iblock}
use osn_mp2_part_a.Fs.Inodes.{
  inode_at, iget, idup, ialloc, find_free_inode, put_dinode, new_dinode, dinode_at,
}
use osn_mp2_part_a.Fs.Inodes.Keys.{
  Key, put_key, Keys, IsUnique, got, Got-IsUnique, Keeps, idup-Keys, log_write-Keys,
}
use osn_mp2_part_a.Fs.Inodes.Lookup.{iget-Keys}
use osn_mp2_part_a.Fs.Content.{iput, iunlockput}
use osn_mp2_part_a.Fs.Content.Keeps.{iput-Keys, iunlockput-Keys}

-- No inode is in two entries of the table, and entry `k` counts `g k` references.
pub record Owned (g : ℕ → ℕ) (s : Fs) : Type 0 where
  pub table : ℕ → Key
  pub keys : Keys table s
  pub unique : IsUnique table
  pub counts : (k : ℕ) → (table k).ref ≡ g k

abbrev pub more : (ℕ → ℕ) → ℕ → ℕ → ℕ
more g i k = if i == k then g k + 1 else g k

module _ (g : ℕ → ℕ) where
  pub Keeps-Owned :
      {A : Type 0} {m : M Fs A} → ((f : ℕ → Key) → Keeps f m) → Triple (Owned g) m (λ _. Owned g)
  Keeps-Owned {m = m} t = record {
    run = λ s o.
        after Unit (m s)
          (λ a u k. record { table = o.table; keys = k; unique = o.unique; counts = o.counts })
          ((t o.table).run s o.keys);
  }

  pub inode_at-Owned :
      {B : Type 0} {Q : B → Fs → Type 0} (i : ℕ) {k : Inode → M Fs B}
      → ((ip : Inode) → Triple (Owned g) (k ip) Q)
      → Triple (Owned g) (inode_at i >>= k) Q
  unfolding inode_at ◌>>=◌
  inode_at-Owned i t = record { run = λ s o. (t (s.inodes i)).run s o }

  pub bread-Owned :
      {B : Type 0} {Q : B → Fs → Type 0} (dev b : ℕ) {k : Memory → M Fs B}
      → ((bytes : Memory) → Triple (Owned g) (k bytes) Q)
      → Triple (Owned g) (bread dev b >>= k) Q
  unfolding bread ◌>>=◌
  bread-Owned dev b t = record { run = λ s o. (t (s.blocks dev b)).run s o }

  pub iget-Owned :
      (dev inum : ℕ) → Triple (Owned g) (iget dev inum) (λ i s. (i < ninode) × Owned (more g i) s)
  iget-Owned dev inum = record {
    run = λ s o.
        after Unit (iget dev inum s)
          (λ i u (found, k). (
            found.0,
            record {
              table = got o.table dev inum i;
              keys = k;
              unique = Got-IsUnique o.table dev inum i found o.unique;
              counts = λ k. ground (arith, o.counts k);
            },
          ))
          ((iget-Keys o.table dev inum).run s o.keys);
  }

  pub idup-Owned :
      (i : ℕ) → 0 < g i → Triple (Owned g) (idup i) (λ j s. (j ≡ i) × Owned (more g i) s)
  idup-Owned i h = record {
    run = λ s o.
        after Unit (idup i s)
          (λ j u (e, k). (
            e,
            record {
              table = put_key o.table i (record (o.table i) { ref = (o.table i).ref + 1 });
              keys = k;
              unique = λ a b al bl ar br de ie. ground (arith, o.unique a b, o.counts i);
              counts = λ k. ground (arith, o.counts k);
            },
          ))
          ((idup-Keys o.table i).run s o.keys);
  }

-- What drops a reference.
drop-Owned :
    (g : ℕ → ℕ) (i : ℕ) {A : Type 0} {m : M Fs A}
    → ((f : ℕ → Key)
        → Triple (Keys f) m (λ _. Keys (put_key f i (record (f i) { ref = (f i).ref - 1 }))))
    → Triple (Owned (more g i)) m (λ _. Owned g)
drop-Owned g i {m = m} t = record {
  run = λ s o.
      after Unit (m s)
        (λ a u k. record {
          table = put_key o.table i (record (o.table i) { ref = (o.table i).ref - 1 });
          keys = k;
          unique = λ a b al bl ar br de ie. ground (arith, o.unique a b);
          counts = λ k. ground (arith, o.counts k);
        })
        ((t o.table).run s o.keys);
}

pub iput-Owned : (g : ℕ → ℕ) (pid i : ℕ) → Triple (Owned (more g i)) (iput pid i) (λ _. Owned g)
iput-Owned g pid i = drop-Owned g i (λ f. iput-Keys f pid i)

pub iunlockput-Owned :
    (g : ℕ → ℕ) (pid i : ℕ) → Triple (Owned (more g i)) (iunlockput pid i) (λ _. Owned g)
iunlockput-Owned g pid i = drop-Owned g i (λ f. iunlockput-Keys f pid i)

-- The order in which references are counted does not matter.
pub swap-Owned :
    (g : ℕ → ℕ) (i j : ℕ) (s : Fs) → Owned (more (more g i) j) s → Owned (more (more g j) i) s
swap-Owned g i j s o = record {
  table = o.table;
  keys = o.keys;
  unique = o.unique;
  counts = λ k. ground (arith, o.counts k);
}

-- What `ialloc` returns has its reference.
pub ialloc-Owned :
    (g : ℕ → ℕ) (dev type : ℕ)
    → Triple
        (Owned g)
        (ialloc dev type)
        (λ r s. elim r [ none ↦ Owned g s | some i ↦ Owned (more g i) s ])
unfolding ialloc
ialloc-Owned g dev type = record {
  run = λ s o. elim (Option-cases (find_free_inode s.sb.ninodes dev 1 s)) [
    | inl e ↦ rw (e, ialloc) o
    | inr (inum, e) ↦
        rw (e, ialloc)
          ((bread-Owned g dev (iblock s.sb inum) λ bytes.
              bind
                (Keeps-Owned g (λ f.
                  log_write-Keys f dev (iblock s.sb inum)
                    (put_dinode (new_dinode type) (dinode_at inum) bytes)))
                λ _. bind (iget-Owned g dev inum) λ i. returns (some i) λ t p. p.1).run
            s o)
  ];
}
