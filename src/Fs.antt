-- ===== src/Fs.antt =====
-- The file system of kernel/fs.c, kernel/fs.h and kernel/file.h: the disk's blocks and their bitmap,
-- inodes and the table of those in use, and path names. A block is what the buffer cache holds of it;
-- the console output, the spin locks, and the log below `log_write` are left out.
pub mod Blocks
pub mod Inodes
pub mod Content
pub mod Dirs
pub mod Path
use osn_mp2_part_a.Base.{ℕ, ◌+◌, ◌/◌, ◌&&◌, ◌==◌, if◌then◌else◌, Bool, bit_set, ◌%◌}
use osn_mp2_part_a.Base.Result.{Result, ok, M}
use osn_mp2_part_a.Memory.{Memory}
use osn_mp2_part_a.Sleeplock.{Sleeplock}

abbrev pub bsize : ℕ
bsize = 1024

-- `BPB`, the bits of a bitmap block.
abbrev pub bpb : ℕ
bpb = 8192

-- `IPB`, the inodes of a block.
abbrev pub ipb : ℕ
ipb = 16

abbrev pub ndirect : ℕ
ndirect = 12

abbrev pub ninode : ℕ
ninode = 50

abbrev pub dirsiz : ℕ
dirsiz = 14

-- `struct superblock`.
pub record Superblock : Type 0 where
  pub magic : ℕ
  pub size : ℕ
  pub nblocks : ℕ
  pub ninodes : ℕ
  pub nlog : ℕ
  pub logstart : ℕ
  pub inodestart : ℕ
  pub bmapstart : ℕ

-- `struct dinode`, the part of an inode that is on the disk. A `short` is a number below 2^16.
pub record Dinode : Type 0 where
  pub type : ℕ
  pub major : ℕ
  pub minor : ℕ
  pub nlink : ℕ
  pub size : ℕ
  pub addrs : ℕ → ℕ

-- `struct inode`; `disk` holds its copy of the fields of the disk's inode.
pub record Inode : Type 0 where
  pub dev : ℕ
  pub inum : ℕ
  pub ref : ℕ
  pub lock : Sleeplock
  pub valid : Bool
  pub disk : Dinode

-- The super block, the blocks by device and number, and the inode table by index. Block numbers and
-- reference counts are far below 2^31.
pub record Fs : Type 0 where
  pub sb : Superblock
  pub blocks : ℕ → ℕ → Memory
  pub inodes : ℕ → Inode

-- The block of the bitmap with the bit of block `b`, and the block with inode `i`.
abbrev pub bblock : Superblock → ℕ → ℕ
bblock sb b = b / bpb + sb.bmapstart

abbrev pub iblock : Superblock → ℕ → ℕ
iblock sb i = i / ipb + sb.inodestart

abbrev pub put_block : (ℕ → ℕ → Memory) → ℕ → ℕ → Memory → ℕ → ℕ → Memory
put_block f dev b bytes d c = if d == dev && c == b then bytes else f d c

-- The contents of a block, and the change of a buffer that `log_write` records.
unfoldable pub bread : ℕ → ℕ → M Fs Memory
bread dev b s = ok (s.blocks dev b, s)

unfoldable pub log_write : ℕ → ℕ → Memory → M Fs (Unit {0})
log_write dev b bytes s = ok (tt, record s { blocks = put_block s.blocks dev b bytes })

abbrev pub bit_of : Memory → ℕ → Bool
bit_of bytes bi = bit_set (bytes (bi / 8)) (bi % 8)
