-- ===== src/File.antt =====
-- The reference counts of open files: the table of kernel/file.c, and the calls of kernel/sysfile.c and
-- kernel/proc.c that make, copy and drop file descriptors.
pub mod Count
pub mod Refs
pub mod Calls
pub mod Pipes
pub mod Loops
use osn_mp2_part_a.Base.{
  ℕ, zero, suc, ◌+◌, ◌-◌, ◌*◌, Bool, true, false, not, ◌&&◌, ◌==◌, ltb, if◌then◌else◌, Option, none,
  some, List, [], ◌∷◌,
}
use osn_mp2_part_a.Base.Result.{
  Result, ok, panic, M, pure, fail, ◌>>=◌, ◌>>◌, filedup_free, fileclose_free,
}
use osn_mp2_part_a.Proc.{nproc}

abbrev pub nofile : ℕ
nofile = 16

abbrev pub nfile : ℕ
nfile = 100

pub data FileType : Type 0 where
  fd_none fd_pipe fd_inode fd_device : FileType

-- `struct file`; `object` is the pipe or the inode, by the type.
pub record File : Type 0 where
  pub type : FileType
  pub ref : ℕ
  pub readable : Bool
  pub writable : Bool
  pub object : ℕ
  pub off : ℕ
  pub major : ℕ

-- The table of files; the descriptors of all processes, where that of process `p` at `fd` has the
-- index `slot p fd`; and the files whose pipe or inode was passed to `pipeclose` or `iput`, the last
-- one first. A reference count is far below 2^31.
pub record Files : Type 0 where
  pub files : ℕ → File
  pub ofile : ℕ → Option ℕ
  pub released : List File

abbrev pub slot : ℕ → ℕ → ℕ
slot p fd = p * nofile + fd

abbrev pub put_file : (ℕ → File) → ℕ → File → ℕ → File
put_file g f v j = if f == j then v else g j

abbrev pub put_fd : (ℕ → Option ℕ) → ℕ → Option ℕ → ℕ → Option ℕ
put_fd g k o j = if k == j then o else g j

abbrev pub is_none : Option ℕ → Bool
is_none none = true
is_none (some f) = false

-- The loop of `filealloc`, from index `i` on with `n` rounds left.
unfoldable pub find_file : ℕ → ℕ → (ℕ → File) → Option ℕ
find_file zero i g = none
find_file (suc n) i g = let rest = find_file n (i + 1) g in if (g i).ref == 0 then some i else rest

unfoldable pub filealloc : M Files (Option ℕ)
filealloc s = elim (find_file nfile 0 s.files) [
  | none ↦ ok (none, s)
  | some f ↦ ok (some f, record s { files = put_file s.files f (record (s.files f) { ref = 1 }) })
]

unfoldable pub filedup : ℕ → M Files (Unit {0})
filedup f s =
    if ltb (s.files f).ref 1
    then panic filedup_free
    else ok (
      tt,
      record s { files = put_file s.files f (record (s.files f) { ref = (s.files f).ref + 1 }) },
    )

-- Without its last part, which passes the object of `released` on to `pipeclose` or `iput`.
unfoldable pub fileclose : ℕ → M Files (Unit {0})
fileclose f s =
    if ltb (s.files f).ref 1
    then panic fileclose_free
    else if ltb 0 ((s.files f).ref - 1)
    then ok (
      tt,
      record s { files = put_file s.files f (record (s.files f) { ref = (s.files f).ref - 1 }) },
    )
    else ok (
      tt,
      record s {
        files = put_file s.files f (record (s.files f) { ref = 0; type = fd_none });
        released = s.files f ∷ s.released;
      },
    )

-- The file of a descriptor; a negative one is a number of at least 2^31.
abbrev pub argfd : ℕ → ℕ → Files → Option ℕ
argfd p fd s = if ltb fd nofile then s.ofile (slot p fd) else none

-- The loop of `fdalloc`.
unfoldable pub find_fd : ℕ → ℕ → ℕ → (ℕ → Option ℕ) → Option ℕ
find_fd zero p fd g = none
find_fd (suc n) p fd g =
    let rest = find_fd n p (fd + 1) g in if is_none (g (slot p fd)) then some fd else rest

unfoldable pub set_fd : ℕ → ℕ → Option ℕ → M Files (Unit {0})
set_fd p fd o s = ok (tt, record s { ofile = put_fd s.ofile (slot p fd) o })

unfoldable pub fdalloc : ℕ → ℕ → M Files (Option ℕ)
fdalloc p f s = elim (find_fd nofile p 0 s.ofile) [
  | none ↦ ok (none, s)
  | some fd ↦ ok (some fd, record s { ofile = put_fd s.ofile (slot p fd) (some f) })
]

unfoldable pub file_at : ℕ → ℕ → M Files (Option ℕ)
file_at p fd s = ok (argfd p fd s, s)

-- `sys_dup` by process `p`; `none` is -1.
unfoldable pub sys_dup : ℕ → ℕ → M Files (Option ℕ)
sys_dup p fd = do
  file ← file_at p fd
  elim file [
    | none ↦ pure none
    | some f ↦ do
      new ← fdalloc p f
      elim new [ none ↦ pure none | some d ↦ do filedup f; pure (some d) ]
  ]

unfoldable pub sys_close : ℕ → ℕ → M Files Bool
sys_close p fd = do
  file ← file_at p fd
  elim file [ none ↦ pure false | some f ↦ do set_fd p fd none; fileclose f; pure true ]

-- The part of `sys_open` that makes a file and its descriptor.
unfoldable pub open_file : ℕ → M Files (Option (ℕ × ℕ))
open_file p = do
  file ← filealloc
  elim file [
    | none ↦ pure none
    | some f ↦ do
      new ← fdalloc p f
      elim new [ none ↦ do fileclose f; pure none | some d ↦ pure (some (f, d)) ]
  ]

-- The loop of `kfork` over the descriptors of `p`, for the child `q`, with `n` rounds left.
unfoldable pub dup_all : ℕ → ℕ → ℕ → ℕ → M Files (Unit {0})
dup_all zero p q fd = pure tt
dup_all (suc n) p q fd = do
  file ← file_at p fd
  elim file [ none ↦ pure tt | some f ↦ do filedup f; set_fd q fd (some f) ]
  dup_all n p q (fd + 1)

-- The loop of `kexit` over the descriptors.
unfoldable pub close_all : ℕ → ℕ → ℕ → M Files (Unit {0})
close_all zero p fd = pure tt
close_all (suc n) p fd = do
  file ← file_at p fd
  elim file [ none ↦ pure tt | some f ↦ do fileclose f; set_fd p fd none ]
  close_all n p (fd + 1)

-- The file at one end of the pipe `pi`.
abbrev pub pipe_end : ℕ → Bool → Bool → File → File
pipe_end pi readable writable f = record f {
  type = fd_pipe;
  readable = readable;
  writable = writable;
  object = pi;
}

unfoldable pub set_file : ℕ → (File → File) → M Files (Unit {0})
set_file f g s = ok (tt, record s { files = put_file s.files f (g (s.files f)) })

-- `pipealloc`, with the page that `kalloc` gives, or `none`: the read end and the write end. The fields
-- of the pipe itself are those of `fresh_pipe` of Pipe.
unfoldable pub pipealloc : Option ℕ → M Files (Option (ℕ × ℕ))
pipealloc page = do
  reader ← filealloc
  elim reader [
    | none ↦ pure none
    | some a ↦ do
      writer ← filealloc
      elim writer [
        | none ↦ do fileclose a; pure none
        | some b ↦ elim page [
          | none ↦ do fileclose a; fileclose b; pure none
          | some pi ↦ do
            set_file a (pipe_end pi true false)
            set_file b (pipe_end pi false true)
            pure (some (a, b))
        ]
      ]
  ]

-- The descriptors of the two ends; `copied` is whether both `copyout`s succeed.
unfoldable pub pipe_fds : ℕ → Bool → ℕ → ℕ → M Files Bool
pipe_fds p copied a b = do
  fd0 ← fdalloc p a
  elim fd0 [
    | none ↦ do fileclose a; fileclose b; pure false
    | some d ↦ do
      fd1 ← fdalloc p b
      elim fd1 [
        | none ↦ do set_fd p d none; fileclose a; fileclose b; pure false
        | some e ↦
            if copied
            then pure true
            else do set_fd p d none; set_fd p e none; fileclose a; fileclose b; pure false
      ]
  ]

unfoldable pub sys_pipe : ℕ → Option ℕ → Bool → M Files Bool
sys_pipe p page copied = do
  ends ← pipealloc page
  elim ends [ none ↦ pure false | some (a, b) ↦ pipe_fds p copied a b ]
