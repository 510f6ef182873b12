-- ===== src/Fs/Content.antt =====
-- kernel/fs.c: the contents of inodes. Where the source copies to or from a user, `put` and `take`
-- stand for `either_copyout` and `either_copyin`, with the memory `D` that they work on.
pub mod Keeps
use osn_mp2_part_a.Base.{
  ℕ, zero, suc, ◌+◌, ◌-◌, ◌*◌, ◌/◌, ◌%◌, ◌^◌, min, Bool, true, false, ◌&&◌, ◌||◌, ◌==◌, ltb,
  if◌then◌else◌, Option, none, some,
}
use osn_mp2_part_a.Base.Result.{Result, ok, panic, M, pure, fail, ◌>>=◌, ◌>>◌, bmap_range}
use osn_mp2_part_a.Memory.{Memory, within, byte_of}
use osn_mp2_part_a.Sleeplock.{releasesleep}
use osn_mp2_part_a.Fs.{Fs, Superblock, Dinode, Inode, bsize, ndirect, bread, log_write}
use osn_mp2_part_a.Fs.Blocks.{balloc, bfree}
use osn_mp2_part_a.Fs.Inodes.{
  load32, inode_at, set_inode, lock_inode, unlock_inode, iunlock, iupdate,
}

-- `NINDIRECT` and `MAXFILE`.
abbrev pub nindirect : ℕ
nindirect = 256

abbrev pub maxfile : ℕ
maxfile = 268

abbrev pub store32 : ℕ → ℕ → Memory → Memory
store32 p v m a = if within p 4 a then byte_of v (a - p) else m a

abbrev pub put_addr : (ℕ → ℕ) → ℕ → ℕ → ℕ → ℕ
put_addr f k b j = if k == j then b else f j

abbrev pub with_addr : ℕ → ℕ → Inode → Inode
with_addr k b ip = record ip { disk = record ip.disk { addrs = put_addr ip.disk.addrs k b } }

-- `ip->addrs[k]`, allocated if there is none; 0 where the disk is full.
unfoldable pub get_addr : ℕ → ℕ → M Fs ℕ
get_addr i k = do
  ip ← inode_at i
  if ip.disk.addrs k == 0
      then (do
        addr ← balloc ip.dev
        if addr == 0
            then pure 0
            else do now ← inode_at i; set_inode i (with_addr k addr now); pure addr)
      else pure (ip.disk.addrs k)

-- Entry `k` of the indirect block `b`, allocated if there is none. The buffer stays locked, and so
-- `bp->data` is the block as it is after the call of `balloc`.
unfoldable pub get_indirect : ℕ → ℕ → ℕ → M Fs ℕ
get_indirect dev b k = do
  bytes ← bread dev b
  if load32 bytes (4 * k) == 0
      then (do
        addr ← balloc dev
        if addr == 0
            then pure 0
            else do now ← bread dev b; log_write dev b (store32 (4 * k) addr now); pure addr)
      else pure (load32 bytes (4 * k))

unfoldable pub bmap : ℕ → ℕ → M Fs ℕ
bmap i bn =
    if ltb bn ndirect
    then get_addr i bn
    else if ltb (bn - ndirect) nindirect
    then (do
      addr ← get_addr i ndirect
      if addr == 0 then pure 0 else do ip ← inode_at i; get_indirect ip.dev addr (bn - ndirect))
    else fail bmap_range

-- The first loop of `itrunc`, from address `k` on with `n` rounds left.
unfoldable pub free_direct : ℕ → ℕ → ℕ → M Fs (Unit {0})
free_direct zero k i = pure tt
free_direct (suc n) k i = do
  ip ← inode_at i
  if ip.disk.addrs k == 0 then free_direct n (k + 1) i else do
    bfree ip.dev (ip.disk.addrs k)
    set_inode i (with_addr k 0 ip)
    free_direct n (k + 1) i

-- The second one, over the entries of block `b`.
unfoldable pub free_indirect : ℕ → ℕ → ℕ → ℕ → M Fs (Unit {0})
free_indirect zero k dev b = pure tt
free_indirect (suc n) k dev b = do
  bytes ← bread dev b
  if load32 bytes (4 * k) == 0
      then free_indirect n (k + 1) dev b
      else do bfree dev (load32 bytes (4 * k)); free_indirect n (k + 1) dev b

unfoldable pub itrunc : ℕ → M Fs (Unit {0})
itrunc i = do
  free_direct ndirect 0 i
  ip ← inode_at i
  if ip.disk.addrs ndirect == 0 then pure tt else do
    free_indirect nindirect 0 ip.dev (ip.disk.addrs ndirect)
    bfree ip.dev (ip.disk.addrs ndirect)
    now ← inode_at i
    set_inode i (with_addr ndirect 0 now)
  last ← inode_at i
  set_inode i (record last { disk = record last.disk { size = 0 } })
  iupdate i

-- The part of `iput` that frees the inode on the disk.
unfoldable pub free_inode : ℕ → ℕ → M Fs (Unit {0})
free_inode pid i = do
  lock_inode pid i
  itrunc i
  ip ← inode_at i
  set_inode i (record ip { disk = record ip.disk { type = 0 } })
  iupdate i
  now ← inode_at i
  set_inode i (record now { valid = false })
  unlock_inode i

-- A reference count is at least 1 where `iput` is called.
unfoldable pub iput : ℕ → ℕ → M Fs (Unit {0})
iput pid i = do
  ip ← inode_at i
  if ip.ref == 1 && (ip.valid && ip.disk.nlink == 0) then free_inode pid i else pure tt
  now ← inode_at i
  set_inode i (record now { ref = now.ref - 1 })

unfoldable pub iunlockput : ℕ → ℕ → M Fs (Unit {0})
iunlockput pid i = do iunlock pid i; iput pid i

-- `struct stat`, without its padding.
pub record Stat : Type 0 where
  pub dev : ℕ
  pub ino : ℕ
  pub type : ℕ
  pub nlink : ℕ
  pub size : ℕ

unfoldable pub stati : Inode → Stat
stati ip = record {
  dev = ip.dev;
  ino = ip.inum;
  type = ip.disk.type;
  nlink = ip.disk.nlink;
  size = ip.disk.size;
}

-- `min(n - tot, BSIZE - off%BSIZE)`
abbrev pub round_size : ℕ → ℕ → ℕ
round_size left off = min left (bsize - off % bsize)

-- The loop of `readi`, with `fuel` rounds at most. `put dst src o m d` copies `m` bytes from offset
-- `o` of a block to address `dst`; the result `none` is -1.
unfoldable pub readi_loop :
    {D : Type 0}
    → (ℕ → Memory → ℕ → ℕ → D → Option D)
    → ℕ
    → ℕ
    → ℕ
    → ℕ
    → ℕ
    → ℕ
    → D
    → M Fs (Option ℕ × D)
readi_loop put zero i tot off dst n d = pure (some tot, d)
readi_loop put (suc fuel) i tot off dst n d =
    if ltb tot n
    then (do
      addr ← bmap i (off / bsize)
      if addr == 0 then pure (some tot, d) else do
        ip ← inode_at i
        bytes ← bread ip.dev addr
        let m = round_size (n - tot) off
        elim (put dst bytes (off % bsize) m d) [
          | none ↦ pure (none, d)
          | some e ↦ readi_loop put fuel i (tot + m) (off + m) (dst + m) n e
        ])
    else pure (some tot, d)

abbrev pub uint : ℕ → ℕ
uint n = n % 2 ^ 32

unfoldable pub readi :
    {D : Type 0} → (ℕ → Memory → ℕ → ℕ → D → Option D) → ℕ → ℕ → ℕ → ℕ → D → M Fs (Option ℕ × D)
readi put i dst off n d = do
  ip ← inode_at i
  let size = ip.disk.size
  if ltb size off || ltb (uint (off + n)) off
      then pure (some 0, d)
      else (let count = if ltb size (uint (off + n)) then size - off else n in
          readi_loop put (count + 1) i 0 off dst count d)

-- The loop of `writei`: the bytes written and the offset after. `take src o m block` is the block with
-- the bytes copied in, and whether all were.
unfoldable pub writei_loop :
    (ℕ → ℕ → ℕ → Memory → Memory × Bool) → ℕ → ℕ → ℕ → ℕ → ℕ → ℕ → M Fs (ℕ × ℕ)
writei_loop take zero i tot off src n = pure (tot, off)
writei_loop take (suc fuel) i tot off src n =
    if ltb tot n
    then (do
      addr ← bmap i (off / bsize)
      if addr == 0 then pure (tot, off) else do
        ip ← inode_at i
        bytes ← bread ip.dev addr
        let m = round_size (n - tot) off
        let (after, good) = take src (off % bsize) m bytes
        log_write ip.dev addr after
        if good then writei_loop take fuel i (tot + m) (off + m) (src + m) n else pure (tot, off))
    else pure (tot, off)

abbrev pub with_size : ℕ → Inode → Inode
with_size n ip = record ip { disk = record ip.disk { size = n } }

unfoldable pub writei : (ℕ → ℕ → ℕ → Memory → Memory × Bool) → ℕ → ℕ → ℕ → ℕ → M Fs (Option ℕ)
writei take i src off n = do
  ip ← inode_at i
  if (ltb ip.disk.size off || ltb (uint (off + n)) off) || ltb (maxfile * bsize) (uint (off + n))
      then pure none
      else do
        (tot, last) ← writei_loop take (n + 1) i 0 off src n
        now ← inode_at i
        if ltb now.disk.size last then set_inode i (with_size last now) else pure tt
        iupdate i
        pure (some tot)

-- The copy of the kernel's own memory, which does not fail.
abbrev pub kernel_put : ℕ → Memory → ℕ → ℕ → Memory → Option Memory
kernel_put dst src o m d = some (λ a. if within dst m a then src (o + (a - dst)) else d a)

abbrev pub kernel_take : Memory → ℕ → ℕ → ℕ → Memory → Memory × Bool
kernel_take d src o m bytes = ((λ a. if within o m a then d (src + (a - o)) else bytes a), true)
