-- ===== src/Paging/Fault.antt =====
-- The page faults of kernel/vm.c: `handle_page_fault`, `handle_kernel_pagefault` and `vmfault`. The
-- `printf` lines are left out.
pub mod Keeps
use osn_mp2_part_a.Base.{
  ℕ, ◌+◌, ◌-◌, ◌*◌, ◌/◌, ◌%◌, ◌^◌, Bool, true, false, not, ◌&&◌, ◌||◌, ◌==◌, leb, ltb,
  if◌then◌else◌, Option, none, some, List, length,
}
use osn_mp2_part_a.Base.Result.{M, pure, fail, ◌>>=◌, ◌>>◌}
use osn_mp2_part_a.Riscv.{pgsize, pgrounddown, maxva, trapframe}
use osn_mp2_part_a.Kalloc.{kalloc, kfree}
use osn_mp2_part_a.Vm.{
  walk, walkaddr, ismapped, mappages, load_pte, zero_page, is_w, pte_r, pte_w, pte_x, pte_u,
}
use osn_mp2_part_a.Paging.{PageInfo, PagingInfo, resident, get_page_info, is_swapped}
use osn_mp2_part_a.Paging.Kernel.{
  FileSystem, Proc, lift, call, act, get_proc, set_proc, set_paging, setkilled, put_bytes,
}
use osn_mp2_part_a.Paging.Swap.{K, kalloc_or_evict, swapin_page, set_resident}

-- `lo <= va && va < hi`
abbrev pub in_segment : ℕ → ℕ → ℕ → Bool
in_segment lo hi va = leb lo va && ltb va hi

-- What of a page at `offset` in a segment the file holds.
abbrev pub read_size : ℕ → ℕ → ℕ
read_size offset filesz =
    if leb filesz offset
    then 0
    else if ltb filesz (offset + pgsize)
    then filesz - offset
    else pgsize

-- The entry of a page loaded from the program, and of a page of the heap.
abbrev pub from_file : ℕ → PageInfo → ℕ → PageInfo
from_file va pi seq = record pi {
  va = va;
  state = resident;
  dirty = false;
  fifo_seq = seq;
  from_exec = true;
}

abbrev pub from_heap : ℕ → PageInfo → ℕ → PageInfo
from_heap va pi seq = record pi {
  va = va;
  state = resident;
  dirty = true;
  fifo_seq = seq;
  from_exec = false;
  swap_slot = none;
}

-- `pi && pi->state == SWAPPED`
abbrev pub is_swapped_at : PagingInfo → Option ℕ → Bool
is_swapped_at g none = false
is_swapped_at g (some i) = is_swapped (g.pages i).state

-- Whether a system call may touch the address.
abbrev pub user_address : Proc → ℕ → Bool
user_address p va =
    in_segment p.paging.text_start p.paging.text_end va
    || (in_segment p.paging.data_start p.paging.data_end va
        || in_segment p.paging.heap_start p.sz va)

module _ (fs : FileSystem) where
  open fs use {begin_op, end_op, ilock, iunlock, readi}

  -- `if(pi) { ... }` after a page was mapped.
  pub track : (PageInfo → ℕ → PageInfo) → Option ℕ → K fs (Unit {0})
  track f entry = elim entry [ none ↦ pure tt | some i ↦ set_paging (set_resident i f) ]

  -- Map the page at `mem`, and track it.
  pub map_loaded : (PageInfo → ℕ → PageInfo) → ℕ → ℕ → ℕ → Option ℕ → K fs Bool
  map_loaded f va mem perm entry = do
    p ← get_proc
    mapped ← lift (mappages p.pagetable va pgsize mem perm)
    (if mapped then (do track f entry; pure true) else do lift (kfree mem); pure false)

  -- Whether `size` bytes of the program were read to `mem`, from `offset` on; no program, no read.
  pub read_exec : ℕ → ℕ → ℕ → K fs Bool
  read_exec mem offset size = do
    p ← get_proc
    elim p.paging.exec_ip [
      | none ↦ pure true
      | some ip ↦
          if ltb 0 size
          then (do
            act begin_op
            act (ilock ip)
            bytes ← call (readi ip offset size)
            lift (put_bytes mem bytes)
            act (iunlock ip)
            act end_op
            pure (length bytes == size))
          else pure true
    ]

  -- A page of the text or data segment, at `offset` from its start.
  pub load_exec : ℕ → ℕ → ℕ → ℕ → ℕ → Option ℕ → K fs Bool
  load_exec va offset file_start filesz perm entry = do
    mem ← kalloc_or_evict fs
    (if mem == 0 then pure false else do
      lift (zero_page mem)
      whole ← read_exec mem (file_start + offset) (read_size offset filesz)
      (if whole
          then map_loaded (from_file va) va mem perm entry
          else do lift (kfree mem); pure false))

  -- A page of the heap.
  pub load_heap : ℕ → Option ℕ → K fs Bool
  load_heap va entry = do
    mem ← kalloc_or_evict fs
    (if mem == 0 then pure false else do
      lift (zero_page mem)
      map_loaded (from_heap va) va mem (pte_u + pte_r + pte_w) entry)

  -- `setkilled(p)` and a return value.
  pub kill_with : Bool → K fs Bool
  kill_with r = do setkilled; pure r

  -- The part of `handle_page_fault` after the swap: by the segment of the address.
  pub load_segment : ℕ → PagingInfo → ℕ → K fs Bool
  load_segment va g sz =
      if in_segment g.text_start g.text_end va
      then load_exec va (va - g.text_start) g.text_offset g.text_filesz (pte_u + pte_r + pte_x)
          (get_page_info va)
      else if in_segment g.data_start g.data_end va
      then load_exec va (va - g.data_start) g.data_offset g.data_filesz (pte_u + pte_r + pte_w)
          (get_page_info va)
      else if in_segment g.heap_start sz va
      then load_heap va (get_page_info va)
      else kill_with false

  -- `handle_page_fault` of a rounded address. `true` stands for 0 and `false` for -1.
  pub fault_at : ℕ → ℕ → K fs Bool
  fault_at va cause = if leb maxva va then pure false else do
    p ← get_proc
    (if in_segment p.paging.text_start p.paging.text_end va && cause == 15
        then kill_with true
        else if is_swapped_at p.paging (get_page_info va)
        then swapin_page fs va
        else load_segment va p.paging p.sz)

  pub handle_page_fault : ℕ → ℕ → K fs Bool
  handle_page_fault va cause = fault_at (pgrounddown va) cause

  -- After a fault that was handled: the address behind the page, or 0.
  pub checked_address : ℕ → ℕ → Bool → K fs ℕ
  checked_address pt va is_write = do
    pa ← lift (walkaddr pt va)
    (if pa == 0
        then pure 0
        else if is_write
        then (do
          pte ← lift (walk pt va false)
          v ← (if pte == 0 then pure 0 else lift (load_pte pte))
          pure (if is_w v then pa else 0))
        else pure pa)

  pub kernel_fault_at : ℕ → ℕ → Bool → K fs ℕ
  kernel_fault_at pt va is_write = if leb trapframe va then pure 0 else do
    p ← get_proc
    (if user_address p va
        then (do
          handled ← handle_page_fault va (if is_write then 15 else 13)
          (if handled then checked_address pt va is_write else pure 0))
        else pure 0)

  pub handle_kernel_pagefault : ℕ → ℕ → Bool → K fs ℕ
  handle_kernel_pagefault pt va is_write = kernel_fault_at pt (pgrounddown va) is_write

  -- `vmfault` after a page was allocated.
  pub map_zeroed : ℕ → ℕ → K fs ℕ
  map_zeroed va mem = if mem == 0 then pure 0 else do
    lift (zero_page mem)
    p ← get_proc
    mapped ← lift (mappages p.pagetable va pgsize mem (pte_w + pte_u + pte_r))
    (if mapped then pure mem else do lift (kfree mem); pure 0)

  pub vmfault : ℕ → ℕ → K fs ℕ
  vmfault pt va = do
    p ← get_proc
    (if leb p.sz va then pure 0 else do
      old ← lift (ismapped pt (pgrounddown va))
      (if old then pure 0 else do mem ← lift kalloc; map_zeroed (pgrounddown va) mem))
