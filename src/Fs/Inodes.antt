-- ===== src/Fs/Inodes.antt =====
-- kernel/fs.c: the table of inodes in use, and the inodes on the disk. A pointer to an inode is its
-- index in the table. The spin lock makes each call one step, up to where it sleeps for an inode.
pub mod Codec
pub mod Keys
pub mod Lookup
use osn_mp2_part_a.Base.{
  ℕ, zero, suc, ◌+◌, ◌-◌, ◌*◌, ◌/◌, ◌%◌, ◌^◌, Bool, true, false, not, ◌&&◌, ◌||◌, ◌==◌, ltb,
  if◌then◌else◌, Option, none, some,
}
use osn_mp2_part_a.Base.Result.{
  Result, ok, panic, M, pure, fail, ◌>>=◌, ◌>>◌, iget_full, ilock_null, ilock_no_type,
  iunlock_unlocked, asleep,
}
use osn_mp2_part_a.Memory.{Memory, within, fill, byte_of}
use osn_mp2_part_a.Sleeplock.{Sleeplock, initsleeplock, acquiresleep, releasesleep, holdingsleep}
use osn_mp2_part_a.Fs.{Fs, Superblock, Dinode, Inode, ninode, ipb, iblock, bread, log_write}

-- The little-endian words of a block.
unfoldable pub load16 : Memory → ℕ → ℕ
load16 m p = m p + 2 ^ 8 * m (p + 1)

unfoldable pub load32 : Memory → ℕ → ℕ
load32 m p = m p + 2 ^ 8 * m (p + 1) + 2 ^ 16 * m (p + 2) + 2 ^ 24 * m (p + 3)

-- The bytes of a `struct dinode`, and the one at an offset of a block.
abbrev pub dinode_byte : Dinode → ℕ → ℕ
dinode_byte d i =
    if ltb i 2
    then byte_of d.type i
    else if ltb i 4
    then byte_of d.major (i - 2)
    else if ltb i 6
    then byte_of d.minor (i - 4)
    else if ltb i 8
    then byte_of d.nlink (i - 6)
    else if ltb i 12
    then byte_of d.size (i - 8)
    else byte_of (d.addrs ((i - 12) / 4)) ((i - 12) % 4)

unfoldable pub put_dinode : Dinode → ℕ → Memory → Memory
put_dinode d o m a = if within o 64 a then dinode_byte d (a - o) else m a

unfoldable pub get_dinode : Memory → ℕ → Dinode
get_dinode m o = record {
  type = load16 m o;
  major = load16 m (o + 2);
  minor = load16 m (o + 4);
  nlink = load16 m (o + 6);
  size = load32 m (o + 8);
  addrs = λ k. load32 m (o + 12 + 4 * k);
}

-- `inum%IPB`, as an offset in bytes.
abbrev pub dinode_at : ℕ → ℕ
dinode_at inum = inum % ipb * 64

abbrev pub put_inode : (ℕ → Inode) → ℕ → Inode → ℕ → Inode
put_inode f i ip j = if i == j then ip else f j

unfoldable pub inode_at : ℕ → M Fs Inode
inode_at i s = ok (s.inodes i, s)

unfoldable pub set_inode : ℕ → Inode → M Fs (Unit {0})
set_inode i ip s = ok (tt, record s { inodes = put_inode s.inodes i ip })

-- `iinit`, on a table of zeros.
abbrev pub iinit : (ℕ → Inode) → ℕ → Inode
iinit f i = if ltb i ninode then record (f i) { lock = initsleeplock } else f i

abbrev pub is_entry : ℕ → ℕ → Inode → Bool
is_entry dev inum ip = ltb 0 ip.ref && (ip.dev == dev && ip.inum == inum)

abbrev pub first_empty : Option ℕ → ℕ → Inode → Option ℕ
first_empty none i ip = if ip.ref == 0 then some i else none
first_empty (some e) i ip = some e

-- The loop of `iget`, from index `i` on with `n` rounds left: the entry, or else an empty one.
unfoldable pub find_inode : ℕ → ℕ → ℕ → ℕ → (ℕ → Inode) → Option ℕ → Option ℕ × Option ℕ
find_inode zero i dev inum f empty = (none, empty)
find_inode (suc n) i dev inum f empty =
    let rest = find_inode n (i + 1) dev inum f (first_empty empty i (f i)) in
    if is_entry dev inum (f i) then (some i, empty) else rest

abbrev pub recycled : ℕ → ℕ → Inode → Inode
recycled dev inum ip = record ip { dev = dev; inum = inum; ref = 1; valid = false }

abbrev pub ref_up : Inode → Inode
ref_up ip = record ip { ref = ip.ref + 1 }

unfoldable pub iget : ℕ → ℕ → M Fs ℕ
iget dev inum s =
    let (hit, empty) = find_inode ninode 0 dev inum s.inodes none in
    elim hit [
      | some i ↦ ok (i, record s { inodes = put_inode s.inodes i (ref_up (s.inodes i)) })
      | none ↦ elim empty [
        | none ↦ panic iget_full
        | some i ↦
            ok (i, record s { inodes = put_inode s.inodes i (recycled dev inum (s.inodes i)) })
      ]
    ]

unfoldable pub idup : ℕ → M Fs ℕ
idup i = do ip ← inode_at i; set_inode i (ref_up ip); pure i

-- `acquiresleep(&ip->lock)` by process `pid`, as far as it goes while nothing else runs.
unfoldable pub lock_inode : ℕ → ℕ → M Fs (Unit {0})
lock_inode pid i s = elim (acquiresleep pid (s.inodes i).lock) [
  | none ↦ panic asleep
  | some lk ↦ set_inode i (record (s.inodes i) { lock = lk }) s
]

unfoldable pub unlock_inode : ℕ → M Fs (Unit {0})
unlock_inode i = do ip ← inode_at i; set_inode i (record ip { lock = releasesleep ip.lock })

-- The part of `ilock` that reads the inode.
unfoldable pub read_inode : ℕ → M Fs (Unit {0})
read_inode i s =
    (do
      ip ← inode_at i
      bytes ← bread ip.dev (iblock s.sb ip.inum)
      let d = get_dinode bytes (dinode_at ip.inum)
      set_inode i (record ip { disk = d; valid = true })
      if d.type == 0 then fail ilock_no_type else pure tt)
      s

unfoldable pub ilock : ℕ → ℕ → M Fs (Unit {0})
ilock pid i = do
  ip ← inode_at i
  if ltb ip.ref 1
      then fail ilock_null
      else do lock_inode pid i; locked ← inode_at i; if locked.valid then pure tt else read_inode i

unfoldable pub iunlock : ℕ → ℕ → M Fs (Unit {0})
iunlock pid i = do
  ip ← inode_at i
  if not (holdingsleep pid ip.lock) || ltb ip.ref 1 then fail iunlock_unlocked else unlock_inode i

unfoldable pub iupdate : ℕ → M Fs (Unit {0})
iupdate i s =
    (do
      ip ← inode_at i
      bytes ← bread ip.dev (iblock s.sb ip.inum)
      log_write ip.dev (iblock s.sb ip.inum) (put_dinode ip.disk (dinode_at ip.inum) bytes))
      s

-- A `dinode` of zeros with its type.
abbrev pub new_dinode : ℕ → Dinode
new_dinode type = record { type = type; major = 0; minor = 0; nlink = 0; size = 0; addrs = λ k. 0 }

-- The loop of `ialloc`, from inode `inum` on with `n` rounds left: a free one.
unfoldable pub find_free_inode : ℕ → ℕ → ℕ → Fs → Option ℕ
find_free_inode zero dev inum s = none
find_free_inode (suc n) dev inum s =
    let rest = find_free_inode n dev (inum + 1) s in
    if ltb inum s.sb.ninodes
    then (if (get_dinode (s.blocks dev (iblock s.sb inum)) (dinode_at inum)).type == 0
        then some inum
        else rest)
    else none

-- `none` is the null pointer.
unfoldable pub ialloc : ℕ → ℕ → M Fs (Option ℕ)
ialloc dev type s = elim (find_free_inode s.sb.ninodes dev 1 s) [
  | none ↦ ok (none, s)
  | some inum ↦
      (do
        bytes ← bread dev (iblock s.sb inum)
        log_write dev (iblock s.sb inum) (put_dinode (new_dinode type) (dinode_at inum) bytes)
        i ← iget dev inum
        pure (some i))
        s
]
