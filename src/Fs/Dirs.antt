-- ===== src/Fs/Dirs.antt =====
-- kernel/fs.c: directories, and the walk along a path.
pub mod Owned
pub mod Walk
use osn_mp2_part_a.Base.{
  ℕ, zero, suc, ◌+◌, ◌-◌, ◌*◌, ◌/◌, ◌%◌, ◌^◌, Bool, true, false, not, ◌&&◌, ◌||◌, ◌==◌, ltb,
  if◌then◌else◌, Option, none, some, List, [], ◌∷◌, get_or, replicate, length,
}
use osn_mp2_part_a.Base.Result.{
  Result, ok, panic, M, pure, fail, ◌>>=◌, ◌>>◌, not_directory, dirlookup_read, dirlink_read,
}
use osn_mp2_part_a.Memory.{Memory, within, byte_of}
use osn_mp2_part_a.Cstring.Text.{strncmp, strncpy}
use osn_mp2_part_a.Fs.{Fs, Superblock, Dinode, Inode, bread, iblock, dirsiz}
use osn_mp2_part_a.Fs.Path.{slash, skipelem}
use osn_mp2_part_a.Fs.Inodes.{load16, inode_at, get_dinode, dinode_at, iget, idup, ilock, iunlock}
use osn_mp2_part_a.Fs.Content.{iput, iunlockput, readi, writei, kernel_put, kernel_take}

abbrev pub t_dir : ℕ
t_dir = 1

abbrev pub rootdev : ℕ
rootdev = 1

abbrev pub rootino : ℕ
rootino = 1

-- The bytes that the directory calls work on: `name` at address 0 and the `struct dirent` at `de`, its
-- name 2 bytes further on.
abbrev pub de : ℕ
de = 16

abbrev pub frame : List ℕ → Memory
frame name a = get_or name a 0

-- `namecmp(name, de.name)`
unfoldable pub namecmp : Memory → ℕ
namecmp m = strncmp m 0 (de + 2) dirsiz

-- The bytes with the entry at `off`; `none` where it cannot be read.
unfoldable pub read_dirent : ℕ → ℕ → Memory → M Fs (Option Memory)
read_dirent dp off m = do
  (tot, d) ← readi kernel_put dp de off 16 m
  elim tot [ none ↦ pure none | some n ↦ if n == 16 then pure (some d) else pure none ]

-- The loop of `dirlookup`: the number of the inode, and the offset of the entry.
unfoldable pub find_entry : ℕ → ℕ → ℕ → Memory → M Fs (Option (ℕ × ℕ))
find_entry zero dp off m = pure none
find_entry (suc n) dp off m = do
  ip ← inode_at dp
  if ltb off ip.disk.size
      then (do
        got ← read_dirent dp off m
        elim got [
          | none ↦ fail dirlookup_read
          | some d ↦
              if load16 d de == 0
              then find_entry n dp (off + 16) d
              else if namecmp d == 0
              then pure (some (load16 d de, off))
              else find_entry n dp (off + 16) d
        ])
      else pure none

-- The inode of an entry, and the offset for `*poff`; `none` is the null pointer.
unfoldable pub dirlookup : ℕ → List ℕ → M Fs (Option (ℕ × ℕ))
dirlookup dp name = do
  ip ← inode_at dp
  if not (ip.disk.type == t_dir) then fail not_directory else (do
    hit ← find_entry (ip.disk.size + 1) dp 0 (frame name)
    elim hit [
      | none ↦ pure none
      | some (inum, off) ↦ (do i ← iget ip.dev inum; pure (some (i, off)))
    ])

-- The second loop of `dirlink`: the offset of an empty entry, or of the end.
unfoldable pub find_empty : ℕ → ℕ → ℕ → Memory → M Fs ℕ
find_empty zero dp off m = pure off
find_empty (suc n) dp off m = do
  ip ← inode_at dp
  if ltb off ip.disk.size
      then (do
        got ← read_dirent dp off m
        elim got [
          | none ↦ fail dirlink_read
          | some d ↦ if load16 d de == 0 then pure off else find_empty n dp (off + 16) d
        ])
      else pure off

abbrev pub store16 : ℕ → ℕ → Memory → Memory
store16 p v m a = if within p 2 a then byte_of v (a - p) else m a

-- The `struct dirent` that `dirlink` writes.
unfoldable pub new_dirent : List ℕ → ℕ → Memory
new_dirent name inum = store16 de inum (strncpy (frame name) (de + 2) 0 dirsiz)

-- Whether the entry was written.
unfoldable pub dirlink : ℕ → ℕ → List ℕ → ℕ → M Fs Bool
dirlink pid dp name inum = do
  old ← dirlookup dp name
  elim old [
    | some (i, off) ↦ (do iput pid i; pure false)
    | none ↦ (do
      ip ← inode_at dp
      off ← find_empty (ip.disk.size + 1) dp 0 (frame name)
      tot ← writei (kernel_take (new_dirent name inum)) dp de off 16
      elim tot [ none ↦ pure false | some n ↦ pure (n == 16) ])
  ]

abbrev pub starts_at_root : List ℕ → Bool
starts_at_root [] = false
starts_at_root (c ∷ cs) = c == slash

abbrev pub is_last : List ℕ → Bool
is_last [] = true
is_last (c ∷ cs) = false

-- The loop of `namex`, with `n` rounds at most. It returns an inode and the last `name`.
unfoldable pub namex_loop : ℕ → ℕ → Bool → ℕ → List ℕ → List ℕ → M Fs (Option (ℕ × List ℕ))
namex_loop zero pid parent i path name = pure none
namex_loop (suc n) pid parent i path name = elim (skipelem path name) [
  | none ↦ if parent then (do iput pid i; pure none) else pure (some (i, name))
  | some (rest, elem) ↦ (do
    ilock pid i
    ip ← inode_at i
    if not (ip.disk.type == t_dir)
        then (do iunlockput pid i; pure none)
        else if parent && is_last rest
        then (do iunlock pid i; pure (some (i, elem)))
        else (do
          next ← dirlookup i elem
          elim next [
            | none ↦ (do iunlockput pid i; pure none)
            | some (k, off) ↦ (do iunlockput pid i; namex_loop n pid parent k rest elem)
          ]))
]

-- `cwd` is `myproc()->cwd`; `name` holds `dirsiz` bytes. Each round takes an element off the path.
unfoldable pub namex : ℕ → ℕ → List ℕ → Bool → List ℕ → M Fs (Option (ℕ × List ℕ))
namex pid cwd path parent name = do
  i ← if starts_at_root path then iget rootdev rootino else idup cwd
  namex_loop (length path + 1) pid parent i path name

unfoldable pub namei : ℕ → ℕ → List ℕ → M Fs (Option (ℕ × List ℕ))
namei pid cwd path = namex pid cwd path false (replicate dirsiz 0)

unfoldable pub nameiparent : ℕ → ℕ → List ℕ → List ℕ → M Fs (Option (ℕ × List ℕ))
nameiparent pid cwd path name = namex pid cwd path true name

abbrev pub is_orphan : Dinode → Bool
is_orphan d = not (d.type == 0) && d.nlink == 0

-- One round of `ireclaim`, for inode `inum`.
unfoldable pub reclaim : ℕ → ℕ → ℕ → M Fs (Unit {0})
reclaim pid dev inum s =
    (do
      bytes ← bread dev (iblock s.sb inum)
      let d = get_dinode bytes (dinode_at inum)
      if is_orphan d
          then (do i ← iget dev inum; ilock pid i; iunlock pid i; iput pid i)
          else pure tt)
      s

-- Its loop, with `n` rounds left.
unfoldable pub reclaim_from : ℕ → ℕ → ℕ → ℕ → M Fs (Unit {0})
reclaim_from zero pid dev inum s = ok (tt, s)
reclaim_from (suc n) pid dev inum s =
    (if ltb inum s.sb.ninodes
        then (do reclaim pid dev inum; reclaim_from n pid dev (inum + 1))
        else pure tt)
      s

unfoldable pub ireclaim : ℕ → ℕ → M Fs (Unit {0})
ireclaim pid dev s = reclaim_from s.sb.ninodes pid dev 1 s
