-- ===== src/Fs/Dirs/Walk.antt =====
-- Directory look-up and the walk along a path account for each reference to an inode.
use osn_mp2_part_a.Base.{
  ℕ, zero, suc, ◌+◌, ◌<◌, Bool, not, ◌&&◌, ◌==◌, ltb, Option, none, some, List, arith, subst, sym,
  length,
}
use osn_mp2_part_a.Base.Result.{not_directory, dirlookup_read, dirlink_read}
use osn_mp2_part_a.Base.Triple.{
  Triple, bind, returns, branches, cases, matches, failing, weaken, conclude,
}
use osn_mp2_part_a.Memory.{Memory}
use osn_mp2_part_a.Fs.{Fs, iblock}
use osn_mp2_part_a.Fs.Path.{skipelem}
use osn_mp2_part_a.Fs.Path.Split.{Shorter, skipelem-Shorter}
use osn_mp2_part_a.Fs.Inodes.{load16, get_dinode, dinode_at}
use osn_mp2_part_a.Fs.Inodes.Keys.{Key, Keeps, inode_at-then, ilock-Keys, iunlock-Keys}
use osn_mp2_part_a.Fs.Content.{kernel_put, kernel_take}
use osn_mp2_part_a.Fs.Content.Keeps.{readi-Keys, writei-Keys}
use osn_mp2_part_a.Fs.Dirs.{
  de, namecmp, frame, read_dirent, find_entry, dirlookup, find_empty, new_dirent, dirlink, t_dir,
  starts_at_root, is_last, namex_loop, namex, rootdev, rootino, reclaim, reclaim_from, is_orphan,
  ireclaim,
}
use osn_mp2_part_a.Fs.Dirs.Owned.{
  Owned, more, Keeps-Owned, inode_at-Owned, iget-Owned, idup-Owned, iput-Owned, iunlockput-Owned,
  swap-Owned, bread-Owned,
}

module _ (f : ℕ → Key) where
  read_dirent-Keys : (dp off : ℕ) (m : Memory) → Keeps f (read_dirent dp off m)
  unfolding read_dirent
  read_dirent-Keys dp off m = bind (readi-Keys f kernel_put dp de off 16 m) λ r.
      cases r.0 (λ e. returns _ λ t g. g)
        (λ n e. branches (n == 16) (λ z. returns _ λ t g. g) (λ z. returns _ λ t g. g))

  find_entry-Keys : (n dp off : ℕ) (m : Memory) → Keeps f (find_entry n dp off m)
  unfolding find_entry
  find_entry-Keys zero dp off m = returns _ λ t g. g
  find_entry-Keys (suc n) dp off m = inode_at-then f dp λ ip h.
      branches (ltb off ip.disk.size)
        (λ z. bind (read_dirent-Keys dp off m) λ r.
          cases r (λ e. failing dirlookup_read)
            (λ d e.
              branches (load16 d de == 0) (λ y. find_entry-Keys n dp _ d)
                (λ y.
                  branches (namecmp d == 0) (λ x. returns _ λ t g. g)
                    (λ x. find_entry-Keys n dp _ d))))
        (λ z. returns _ λ t g. g)

  find_empty-Keys : (n dp off : ℕ) (m : Memory) → Keeps f (find_empty n dp off m)
  unfolding find_empty
  find_empty-Keys zero dp off m = returns _ λ t g. g
  find_empty-Keys (suc n) dp off m = inode_at-then f dp λ ip h.
      branches (ltb off ip.disk.size)
        (λ z. bind (read_dirent-Keys dp off m) λ r.
          cases r (λ e. failing dirlink_read)
            (λ d e.
              branches (load16 d de == 0) (λ y. returns _ λ t g. g)
                (λ y. find_empty-Keys n dp _ d)))
        (λ z. returns _ λ t g. g)

-- The reference of the inode that a call returns, if it returns one.
abbrev pub Found : {A : Type 0} → (ℕ → ℕ) → Option (ℕ × A) → Fs → Type 0
Found g none s = Owned g s
Found g (some (i, a)) s = Owned (more g i) s

module _ (g : ℕ → ℕ) where
  pub dirlookup-Owned : (dp : ℕ) (name : List ℕ) → Triple (Owned g) (dirlookup dp name) (Found g)
  unfolding dirlookup
  dirlookup-Owned dp name = inode_at-Owned g dp λ ip.
      branches (not (ip.disk.type == t_dir)) (λ z. failing not_directory)
        (λ z. bind (Keeps-Owned g (λ f. find_entry-Keys f _ dp 0 (frame name))) λ r.
          cases r (λ e. returns _ λ t o. o)
            (λ (inum, off) e.
              bind (iget-Owned g ip.dev inum) λ i. returns (some (i, off)) λ t o. o.1))

  -- `dirlink` returns none, and so it keeps none.
  pub dirlink-Owned :
      (pid dp : ℕ) (name : List ℕ) (inum : ℕ)
      → Triple (Owned g) (dirlink pid dp name inum) (λ _. Owned g)
  unfolding dirlink
  dirlink-Owned pid dp name inum = bind (dirlookup-Owned dp name) λ r.
      matches (Found g) r
        (inode_at-Owned g dp λ ip.
          bind (Keeps-Owned g (λ f. find_empty-Keys f _ dp 0 (frame name))) λ off.
            bind
              (Keeps-Owned g (λ f. writei-Keys f (kernel_take (new_dirent name inum)) dp de off 16))
              λ tot. cases tot (λ e. returns _ λ t o. o) (λ n e. returns _ λ t o. o))
        (λ (i, off). bind (iput-Owned g pid i) λ _. returns _ λ t o. o)

-- The loop of `namex` holds one reference, to the inode that it has come to.
namex_loop-Owned :
    (g : ℕ → ℕ) (n pid : ℕ) (parent : Bool) (i : ℕ) (path name : List ℕ)
    → length path < n
    → Triple (Owned (more g i)) (namex_loop n pid parent i path name) (Found g)
unfolding namex_loop
namex_loop-Owned g zero pid parent i path name h = absurd (omega arith)
namex_loop-Owned g (suc n) pid parent i path name h =
    cases (skipelem path name)
      (λ e.
        branches parent (λ z. bind (iput-Owned g pid i) λ _. returns _ λ t o. o)
          (λ z. returns _ λ t o. o))
      (λ (rest, elem) e.
        let less : Shorter path (some (rest, elem)) =
          subst (Shorter path) e (skipelem-Shorter path name) in
        bind (Keeps-Owned (more g i) (λ f. ilock-Keys f pid i)) λ _.
          inode_at-Owned (more g i) i λ ip.
            branches (not (ip.disk.type == t_dir))
              (λ z. bind (iunlockput-Owned g pid i) λ _. returns _ λ t o. o)
              (λ z.
                branches (parent && is_last rest)
                  (λ y.
                    bind (Keeps-Owned (more g i) (λ f. iunlock-Keys f pid i))
                      λ _. returns _ λ t o. o)
                  (λ y. bind (dirlookup-Owned (more g i) i elem) λ next.
                    matches (Found (more g i)) next
                      (bind (iunlockput-Owned g pid i) λ _. returns _ λ t o. o)
                      (λ (k, off).
                        bind (weaken (swap-Owned g i k) (iunlockput-Owned (more g k) pid i))
                          λ _. namex_loop-Owned g n pid parent k rest elem (omega arith)))))

-- From a table without double entries in which `g k` counts the references to entry `k`, with one for
-- the current directory: if `namex` returns an inode, there is one reference more, to that inode, and if
-- it returns none the counts are as before; the table has no double entries. So no path leaks a
-- reference, whichever element it fails at, for `namei` and for `nameiparent`.
pub namex-Owned :
    (g : ℕ → ℕ) (pid cwd : ℕ) (path : List ℕ) (parent : Bool) (name : List ℕ)
    → 0 < g cwd
    → Triple (Owned g) (namex pid cwd path parent name) (Found g)
unfolding namex
namex-Owned g pid cwd path parent name h =
    bind
      (branches (starts_at_root path) (λ z. conclude (λ i t o. o.1) (iget-Owned g rootdev rootino))
        (λ z.
          conclude (λ i t o. subst (λ k. Owned (more g k) t) (sym o.0) o.1) (idup-Owned g cwd h)))
      λ i. namex_loop-Owned g (length path + 1) pid parent i path name (omega arith)

module _ (g : ℕ → ℕ) (pid dev : ℕ) where
  reclaim-Owned : (inum : ℕ) → Triple (Owned g) (reclaim pid dev inum) (λ _. Owned g)
  unfolding reclaim
  reclaim-Owned inum = record {
    run = λ s o.
        (bread-Owned g dev (iblock s.sb inum) λ bytes.
            branches (is_orphan (get_dinode bytes (dinode_at inum)))
              (λ z. bind (iget-Owned g dev inum) λ i.
                bind (weaken (λ t o. o.1) (Keeps-Owned (more g i) (λ f. ilock-Keys f pid i))) λ _.
                  bind (Keeps-Owned (more g i) (λ f. iunlock-Keys f pid i)) λ _. iput-Owned g pid i)
              (λ z. returns tt λ t o. o)).run
          s o;
  }

  reclaim_from-Owned : (n inum : ℕ) → Triple (Owned g) (reclaim_from n pid dev inum) (λ _. Owned g)
  unfolding reclaim_from
  reclaim_from-Owned zero inum = record { run = λ s o. o }
  reclaim_from-Owned (suc n) inum = record {
    run = λ s o.
        (branches (ltb inum s.sb.ninodes)
            (λ z. bind (reclaim-Owned inum) λ _. reclaim_from-Owned n (inum + 1))
            (λ z. returns tt λ t o. o)).run
          s o;
  }

  -- Freeing the orphans when the system starts keeps no reference.
  pub ireclaim-Owned : Triple (Owned g) (ireclaim pid dev) (λ _. Owned g)
  unfolding ireclaim
  ireclaim-Owned = record { run = λ s o. (reclaim_from-Owned s.sb.ninodes 1).run s o }
