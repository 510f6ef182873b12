-- ===== src/Exec.antt =====
-- `kexec` of kernel/exec.c, with the formats of kernel/elf.h: it records where the segments of a
-- program are, for the fault handler to load, and builds the stack with the arguments. The `printf`
-- line is left out.
pub mod Format
pub mod Stack
pub mod Segments
use osn_mp2_part_a.Base.{
  ℕ, zero, suc, ◌+◌, ◌-◌, ◌*◌, ◌/◌, ◌%◌, ◌^◌, Bool, true, false, not, ◌&&◌, ◌||◌, ◌==◌, leb, ltb,
  if◌then◌else◌, Option, none, some, List, [], ◌∷◌, ◌++◌, length, get_or, take,
}
use osn_mp2_part_a.Base.Result.{M, pure, ◌>>=◌, ◌>>◌}
use osn_mp2_part_a.Memory.{byte_of}
use osn_mp2_part_a.Riscv.{pgsize, pgroundup}
use osn_mp2_part_a.Vm.{pte_w, pte_x}
use osn_mp2_part_a.Vm.Uvm.{uvmalloc, uvmalloc_lazy, uvmclear}
use osn_mp2_part_a.Proc.Life.{proc_pagetable, proc_freepagetable}
use osn_mp2_part_a.Paging.{PagingInfo}
use osn_mp2_part_a.Paging.Kernel.{
  FileSystem, Proc, lift, call, act, get_proc, set_proc, set_paging, put_bytes,
}
use osn_mp2_part_a.Paging.Swap.{K, create_swap_file}
use osn_mp2_part_a.Paging.Copy.{copyout}
use Format.{
  elf_magic, elf_prog_load, field, Elfhdr, elfhdr, sizeof_elfhdr, Proghdr, proghdr, sizeof_proghdr,
  is_exec, is_write, flags2perm, clear_segments, segment_end, is_bad, track_segment,
}

-- What `kexec` calls besides: `namei`, `idup` and `iput`, and `fileclose` of the swap file.
pub record ExecFiles (S : Type 0) : Type 0 where
  pub namei : List ℕ → S → Option ℕ × S
  pub idup : ℕ → S → S
  pub iput : ℕ → S → S
  pub fileclose : ℕ → S → S

abbrev pub maxarg : ℕ
maxarg = 32

-- `USERSTACK`, in pages.
abbrev pub userstack : ℕ
userstack = 1

-- A string of `argv`: its address, and its length without the NUL.
pub record Arg : Type 0 where
  pub addr : ℕ
  pub len : ℕ

-- `sp -= n; sp -= sp % 16`
abbrev pub push : ℕ → ℕ → ℕ
push sp n = let low = (sp + 2 ^ 64 - n) % 2 ^ 64 in low - low % 16

-- The bytes of an array of 64-bit words.
unfoldable pub words : List ℕ → List ℕ
words [] = []
words (w ∷ ws) =
    byte_of w 0
    ∷ byte_of w 1
    ∷ byte_of w 2
    ∷ byte_of w 3
    ∷ byte_of w 4
    ∷ byte_of w 5
    ∷ byte_of w 6
    ∷ byte_of w 7
    ∷ words ws

-- What the new program starts with: `a0`, `a1`, `epc` and `sp` of its trap frame, and its name.
pub record Loaded : Type 0 where
  pub argc : ℕ
  pub a1 : ℕ
  pub epc : ℕ
  pub sp : ℕ
  pub name : List ℕ

-- What follows the last slash of a path. `last` is what follows the last one so far.
unfoldable pub last_element : List ℕ → List ℕ → List ℕ
last_element [] last = last
last_element (c ∷ cs) last =
    let after = last_element cs cs in
    let same = last_element cs last in if c == 47 then after else same

-- `safestrcpy` keeps 15 characters.
abbrev pub program_name : List ℕ → List ℕ
program_name path = take 15 (last_element path path)

module _ (fs : FileSystem) (files : ExecFiles fs.State) where
  open fs use {begin_op, end_op, ilock, iunlockput, readi}

  -- The loop over the program headers, with `n` of them left: whether all are good, and `sz`.
  pub load_from : ℕ → ℕ → ℕ → ℕ → ℕ → K fs (Bool × ℕ)
  load_from zero ip pt off sz = pure (true, sz)
  load_from (suc n) ip pt off sz = do
    bytes ← call (readi ip off sizeof_proghdr)
    let ph = proghdr bytes
    (if not (length bytes == sizeof_proghdr)
        then pure (false, sz)
        else if not (ph.type == elf_prog_load)
        then load_from n ip pt (off + sizeof_proghdr) sz
        else if is_bad ph
        then pure (false, sz)
        else do
          set_paging (track_segment ph)
          sz1 ← lift (uvmalloc_lazy pt sz (segment_end ph) (flags2perm ph.flags))
          (if sz1 == 0 then pure (false, sz) else load_from n ip pt (off + sizeof_proghdr) sz1))

  -- The code at `bad`, which returns -1.
  pub bad : ℕ → ℕ → Option ℕ → K fs (Option Loaded)
  bad pt sz ip = do
    (if pt == 0 then pure tt else lift (proc_freepagetable pt sz))
    elim ip [ none ↦ pure tt | some i ↦ (do act (iunlockput i); act end_op) ]
    p ← get_proc
    elim p.paging.exec_ip [
      | none ↦ pure none
      | some e ↦ (do
        act begin_op
        act (files.iput e)
        act end_op
        set_paging (λ g. record g { exec_ip = none })
        pure none)
    ]

  -- The loop that pushes the argument strings: the stack pointer after it, and `ustack`; `none` for
  -- `goto bad`.
  pub push_args : ℕ → ℕ → List Arg → ℕ → ℕ → K fs (Option (ℕ × List ℕ))
  push_args pt stackbase [] argc sp = pure (some (sp, []))
  push_args pt stackbase (a ∷ rest) argc sp =
      if leb maxarg argc
      then pure none
      else (let top = push sp (a.len + 1) in
          if ltb top stackbase then pure none else do
            copied ← copyout fs pt top a.addr (a.len + 1)
            (if not copied then pure none else do
              others ← push_args pt stackbase rest (argc + 1) top
              elim others [ none ↦ pure none | some (last, ps) ↦ pure (some (last, top ∷ ps)) ]))

  -- The array of pointers, written to `ustack` and pushed: the stack pointer.
  pub push_pointers : ℕ → ℕ → ℕ → ℕ → List ℕ → K fs (Option ℕ)
  push_pointers ustack pt stackbase sp ptrs =
      let top = push sp ((length ptrs + 1) * 8) in
      if ltb top stackbase then pure none else do
        lift (put_bytes ustack (words (ptrs ++ 0 ∷ [])))
        copied ← copyout fs pt top ustack ((length ptrs + 1) * 8)
        (if copied then pure (some top) else pure none)

  -- From `p->trapframe->a1 = sp` on.
  pub finish_exec : ℕ → ℕ → ℕ → List ℕ → List ℕ → ℕ → K fs (Option Loaded)
  finish_exec pt sz entry path ptrs sp = do
    p ← get_proc
    set_proc (λ q. record q { pagetable = pt; sz = sz })
    lift (proc_freepagetable p.pagetable p.sz)
    pure (
        some
          (record { argc = length ptrs; a1 = sp; epc = entry; sp = sp; name = program_name path }))

  pub build_args : ℕ → ℕ → ℕ → ℕ → List ℕ → List Arg → K fs (Option Loaded)
  build_args ustack pt sz entry path args = do
    pushed ← push_args pt (sz - userstack * pgsize) args 0 sz
    elim pushed [
      | none ↦ bad pt sz none
      | some (sp, ptrs) ↦ (do
        last ← push_pointers ustack pt (sz - userstack * pgsize) sp ptrs
        elim last [ none ↦ bad pt sz none | some top ↦ finish_exec pt sz entry path ptrs top ])
    ]

  -- `if (p->paging.swapfile) { ... }`
  pub close_swap_file : K fs (Unit {0})
  close_swap_file = do
    p ← get_proc
    elim p.paging.swapfile [
      | none ↦ pure tt
      | some f ↦ (do act (files.fileclose f); set_paging (λ g. record g { swapfile = none }))
    ]

  -- From `// Allocate stack` on, for a size that is rounded up.
  pub build_stack : ℕ → ℕ → ℕ → ℕ → List ℕ → List Arg → K fs (Option Loaded)
  build_stack ustack pt sz entry path args = do
    sz1 ← lift (uvmalloc pt sz (sz + (userstack + 1) * pgsize) pte_w)
    (if sz1 == 0 then bad pt sz none else do
      lift (uvmclear pt (sz1 - (userstack + 1) * pgsize))
      set_paging (λ g. record g { heap_start = sz1; stack_top = sz1 })
      close_swap_file
      made ← create_swap_file fs
      (if made then build_args ustack pt sz1 entry path args else bad pt sz1 none))

  -- `if (old_exec_ip) { ... }` and the new one.
  pub take_exec_ip : ℕ → K fs (Unit {0})
  take_exec_ip ip = do
    p ← get_proc
    elim p.paging.exec_ip [ none ↦ pure tt | some old ↦ act (files.iput old) ]
    act (files.idup ip)
    set_paging (λ g. record g { exec_ip = some ip })

  -- `kexec` from the program's inode on. `tramp` and `frame` are the pages that `proc_pagetable` maps,
  -- and `ustack` is the address of the array.
  pub exec_inode : ℕ → ℕ → ℕ → ℕ → List ℕ → List Arg → K fs (Option Loaded)
  exec_inode tramp frame ustack ip path args = do
    act (ilock ip)
    bytes ← call (readi ip 0 sizeof_elfhdr)
    let elf = elfhdr bytes
    (if not (length bytes == sizeof_elfhdr) || not (elf.magic == elf_magic)
        then bad 0 0 (some ip)
        else do
          pt ← lift (proc_pagetable tramp frame)
          (if pt == 0 then bad 0 0 (some ip) else do
            take_exec_ip ip
            (good, sz) ← load_from elf.phnum ip pt elf.phoff 0
            (if not good then bad pt sz (some ip) else do
              act (iunlockput ip)
              act end_op
              build_stack ustack pt (pgroundup sz) elf.entry path args)))

  -- `none` is -1.
  pub kexec : ℕ → ℕ → ℕ → List ℕ → List Arg → K fs (Option Loaded)
  kexec tramp frame ustack path args = do
    set_paging clear_segments
    act begin_op
    found ← call (files.namei path)
    elim found [
      | none ↦ (do act end_op; pure none)
      | some ip ↦ exec_inode tramp frame ustack ip path args
    ]
