-- ===== src/Fs/Content/Keeps.antt =====
-- The calls of kernel/fs.c on the contents of inodes make and drop no reference, but for `iput`.
use osn_mp2_part_a.Base.{
  ℕ, zero, suc, ◌+◌, ◌-◌, ◌*◌, ◌/◌, ◌%◌, Bool, ◌==◌, ◌||◌, ltb, Option, arith, Option-cases, inl,
  inr,
}
use osn_mp2_part_a.Base.Result.{bfree_free, bmap_range}
use osn_mp2_part_a.Base.Triple.{Triple, bind, returns, branches, cases, failing}
use osn_mp2_part_a.Memory.{Memory}
use osn_mp2_part_a.Fs.{bpb, bblock, ndirect, bit_of, bsize}
use osn_mp2_part_a.Fs.Blocks.{bzero, find_free_block, take_block, balloc, bfree}
use osn_mp2_part_a.Fs.Inodes.{load32}
use osn_mp2_part_a.Fs.Inodes.Keys.{
  Key, put_key, Keys, Keeps, inode_at-then, bread-then, log_write-Keys, set_inode-Keys,
  set_key-Keys, lock_inode-Keys, unlock_inode-Keys, iunlock-Keys, iupdate-Keys,
}
use osn_mp2_part_a.Fs.Content.{
  nindirect, get_addr, get_indirect, bmap, free_direct, free_indirect, itrunc, free_inode, iput,
  iunlockput, readi_loop, readi, writei_loop, writei, uint, maxfile, round_size,
}

module _ (f : ℕ → Key) where
  bzero-Keys : (dev b : ℕ) → Keeps f (bzero dev b)
  unfolding bzero
  bzero-Keys dev b = bread-then f dev b λ bytes. log_write-Keys f dev b _

  take_block-Keys : (dev b bi : ℕ) → Keeps f (take_block dev b bi)
  unfolding take_block
  take_block-Keys dev b bi = record {
    run = λ s h.
        (bread-then f dev _ λ bytes.
            bind (log_write-Keys f dev _ _)
              λ _. bind (bzero-Keys dev _) λ _. returns _ λ t g. g).run
          s h;
  }

  balloc-Keys : (dev : ℕ) → Keeps f (balloc dev)
  unfolding balloc
  balloc-Keys dev = record {
    run = λ s h. elim (Option-cases (find_free_block (s.sb.size / bpb + 1) dev 0 s)) [
      | inl e ↦ rw (e, balloc) h
      | inr ((b, bi), e) ↦ rw (e, balloc) ((take_block-Keys dev b bi).run s h)
    ];
  }

  bfree-Keys : (dev b : ℕ) → Keeps f (bfree dev b)
  unfolding bfree
  bfree-Keys dev b = record {
    run = λ s h.
        (bread-then f dev (bblock s.sb b) λ bytes.
            branches (bit_of bytes (b % bpb)) (λ z. log_write-Keys f dev _ _)
              (λ z. failing bfree_free)).run
          s h;
  }

  get_addr-Keys : (i k : ℕ) → Keeps f (get_addr i k)
  unfolding get_addr
  get_addr-Keys i k = inode_at-then f i λ ip h.
      branches (ip.disk.addrs k == 0)
        (λ z. bind (balloc-Keys ip.dev) λ addr.
          branches (addr == 0) (λ y. returns 0 λ t g. g)
            (λ y.
              inode_at-then f i λ jp l. bind (set_inode-Keys f i _ l) λ _. returns addr λ t g. g))
        (λ z. returns _ λ t g. g)

  get_indirect-Keys : (dev b k : ℕ) → Keeps f (get_indirect dev b k)
  unfolding get_indirect
  get_indirect-Keys dev b k = bread-then f dev b λ bytes.
      branches (load32 bytes (4 * k) == 0)
        (λ z. bind (balloc-Keys dev) λ addr.
          branches (addr == 0) (λ y. returns 0 λ t g. g)
            (λ y.
              bread-then f dev b λ now. bind (log_write-Keys f dev b _) λ _. returns addr λ t g. g))
        (λ z. returns _ λ t g. g)

  pub bmap-Keys : (i bn : ℕ) → Keeps f (bmap i bn)
  unfolding bmap
  bmap-Keys i bn =
      branches (ltb bn ndirect) (λ z. get_addr-Keys i bn)
        (λ z.
          branches (ltb (bn - ndirect) nindirect)
            (λ y. bind (get_addr-Keys i ndirect) λ addr.
              branches (addr == 0) (λ x. returns 0 λ t g. g)
                (λ x. inode_at-then f i λ ip h. get_indirect-Keys ip.dev addr (bn - ndirect)))
            (λ y. failing bmap_range))

  free_direct-Keys : (n k i : ℕ) → Keeps f (free_direct n k i)
  unfolding free_direct
  free_direct-Keys zero k i = returns tt λ t g. g
  free_direct-Keys (suc n) k i = inode_at-then f i λ ip h.
      branches (ip.disk.addrs k == 0) (λ z. free_direct-Keys n (k + 1) i)
        (λ z.
          bind (bfree-Keys ip.dev _)
            λ _. bind (set_inode-Keys f i _ h) λ _. free_direct-Keys n (k + 1) i)

  free_indirect-Keys : (n k dev b : ℕ) → Keeps f (free_indirect n k dev b)
  unfolding free_indirect
  free_indirect-Keys zero k dev b = returns tt λ t g. g
  free_indirect-Keys (suc n) k dev b = bread-then f dev b λ bytes.
      branches (load32 bytes (4 * k) == 0) (λ z. free_indirect-Keys n (k + 1) dev b)
        (λ z. bind (bfree-Keys dev _) λ _. free_indirect-Keys n (k + 1) dev b)

  itrunc-Keys : (i : ℕ) → Keeps f (itrunc i)
  unfolding itrunc
  itrunc-Keys i = bind (free_direct-Keys ndirect 0 i) λ _. inode_at-then f i λ ip h.
      bind
        (branches (ip.disk.addrs ndirect == 0) (λ z. returns tt λ t g. g)
          (λ z.
            bind (free_indirect-Keys nindirect 0 ip.dev _) λ _.
              bind (bfree-Keys ip.dev _) λ _. inode_at-then f i λ jp l. set_inode-Keys f i _ l))
        λ _. inode_at-then f i λ kp m. bind (set_inode-Keys f i _ m) λ _. iupdate-Keys f i

  free_inode-Keys : (pid i : ℕ) → Keeps f (free_inode pid i)
  unfolding free_inode
  free_inode-Keys pid i = bind (lock_inode-Keys f pid i) λ _. bind (itrunc-Keys i) λ _.
      inode_at-then f i λ ip h. bind (set_inode-Keys f i _ h) λ _.
        bind (iupdate-Keys f i)
          λ _. inode_at-then f i λ jp l. bind (set_inode-Keys f i _ l) λ _. unlock_inode-Keys f i

  -- `iput` drops one reference.
  pub iput-Keys :
      (pid i : ℕ)
      → Triple
          (Keys f)
          (iput pid i)
          (λ _. Keys (put_key f i (record (f i) { ref = (f i).ref - 1 })))
  unfolding iput
  iput-Keys pid i = inode_at-then f i λ ip h.
      bind (branches _ (λ z. free_inode-Keys pid i) (λ z. returns tt λ t g. g))
        λ _. inode_at-then f i λ jp l. set_key-Keys f i _ _ (omega (arith, l), l.1, l.2)

  pub iunlockput-Keys :
      (pid i : ℕ)
      → Triple
          (Keys f)
          (iunlockput pid i)
          (λ _. Keys (put_key f i (record (f i) { ref = (f i).ref - 1 })))
  unfolding iunlockput
  iunlockput-Keys pid i = bind (iunlock-Keys f pid i) λ _. iput-Keys pid i

  readi_loop-Keys :
      {D : Type 0} (put : ℕ → Memory → ℕ → ℕ → D → Option D) (fuel i tot off dst n : ℕ) (d : D)
      → Keeps f (readi_loop put fuel i tot off dst n d)
  unfolding readi_loop
  readi_loop-Keys put zero i tot off dst n d = returns _ λ t g. g
  readi_loop-Keys put (suc fuel) i tot off dst n d =
      branches (ltb tot n)
        (λ z. bind (bmap-Keys i _) λ addr.
          branches (addr == 0) (λ y. returns _ λ t g. g)
            (λ y. inode_at-then f i λ ip h. bread-then f ip.dev addr λ bytes.
              cases (put dst bytes _ _ d) (λ e. returns _ λ t g. g)
                (λ e q. readi_loop-Keys put fuel i _ _ _ n e)))
        (λ z. returns _ λ t g. g)

  pub readi-Keys :
      {D : Type 0} (put : ℕ → Memory → ℕ → ℕ → D → Option D) (i dst off n : ℕ) (d : D)
      → Keeps f (readi put i dst off n d)
  unfolding readi
  readi-Keys put i dst off n d = inode_at-then f i λ ip h.
      branches (ltb ip.disk.size off || ltb (uint (off + n)) off) (λ z. returns _ λ t g. g)
        (λ z. readi_loop-Keys put _ i 0 off dst _ d)

  writei_loop-Keys :
      (take : ℕ → ℕ → ℕ → Memory → Memory × Bool) (fuel i tot off src n : ℕ)
      → Keeps f (writei_loop take fuel i tot off src n)
  unfolding writei_loop
  writei_loop-Keys take zero i tot off src n = returns _ λ t g. g
  writei_loop-Keys take (suc fuel) i tot off src n =
      branches (ltb tot n)
        (λ z. bind (bmap-Keys i _) λ addr.
          branches (addr == 0) (λ y. returns _ λ t g. g)
            (λ y. inode_at-then f i λ ip h. bread-then f ip.dev addr λ bytes.
              bind (log_write-Keys f ip.dev addr _) λ _.
                branches (take src (off % bsize) (round_size (n - tot) off) bytes).1
                  (λ x. writei_loop-Keys take fuel i _ _ _ n) (λ x. returns _ λ t g. g)))
        (λ z. returns _ λ t g. g)

  pub writei-Keys :
      (take : ℕ → ℕ → ℕ → Memory → Memory × Bool) (i src off n : ℕ)
      → Keeps f (writei take i src off n)
  unfolding writei
  writei-Keys take i src off n = inode_at-then f i λ ip h.
      branches
        ((ltb ip.disk.size off || ltb (uint (off + n)) off)
          || ltb (maxfile * bsize) (uint (off + n)))
        (λ z. returns _ λ t g. g)
        (λ z. bind (writei_loop-Keys take _ i 0 off src n) λ r. inode_at-then f i λ jp l.
          bind
            (branches (ltb jp.disk.size r.1) (λ y. set_inode-Keys f i _ l)
              (λ y. returns tt λ t g. g))
            λ _. bind (iupdate-Keys f i) λ _. returns _ λ t g. g)
