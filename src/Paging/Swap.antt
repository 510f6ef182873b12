-- ===== src/Paging/Swap.antt =====
-- Swapping in kernel/vm.c: `create_swap_file`, `swapout_page`, `evict_page_fifo`, `swapin_page`, and
-- the allocation of a page that evicts another one when memory is full.
pub mod Keeps
pub mod Outcome
use osn_mp2_part_a.Base.{
  ℕ, zero, suc, ◌+◌, ◌-◌, ◌*◌, ◌/◌, ◌%◌, ◌^◌, Bool, true, false, not, ◌&&◌, ◌||◌, ◌==◌, ltb,
  if◌then◌else◌, Option, none, some, List, [], ◌∷◌, ◌++◌, length, drop, replicate,
}
use osn_mp2_part_a.Base.Result.{Result, M, pure, fail, null_pointer, ◌>>=◌, ◌>>◌}
use osn_mp2_part_a.Riscv.{pgsize, pgrounddown, pte2pa}
use osn_mp2_part_a.Kalloc.{Machine, kalloc, kfree}
use osn_mp2_part_a.Vm.{walk, mappages, load_pte, store_pte, is_v, pte_r, pte_w, pte_u}
use osn_mp2_part_a.Paging.{
  PageInfo, PagingInfo, PageState, unmapped, resident, swapped, put, get_page_info, find_victim,
  max_tracked_pages, is_resident, is_swapped,
}
use osn_mp2_part_a.Paging.Slots.{alloc_swap_slot, free_swap_slot}
use osn_mp2_part_a.Paging.Kernel.{
  FileSystem, Kernel, Proc, lift, call, act, get_proc, set_proc, set_paging, setkilled, get_bytes,
  put_bytes,
}

-- The last `n` decimal digits of a number, the highest first.
pub digits_of : ℕ → ℕ → List ℕ
digits_of zero pid = []
digits_of (suc n) pid = digits_of n (pid / 10) ++ (48 + pid % 10) ∷ []

-- "pgswp" and five digits of the process number.
pub swap_name : ℕ → List ℕ
swap_name pid = b'p' ∷ b'g' ∷ b's' ∷ b'w' ∷ b'p' ∷ digits_of 5 pid

-- The name and its NUL copied over the front of `swappath`.
abbrev pub set_swappath : ℕ → PagingInfo → PagingInfo
set_swappath pid p = record p { swappath = swap_name pid ++ 0 ∷ drop 11 p.swappath }

abbrev pub set_page : ℕ → (PageInfo → PageInfo) → PagingInfo → PagingInfo
set_page i f p = put p i (f (p.pages i))

-- A page that becomes resident takes the next sequence number.
abbrev pub set_resident : ℕ → (PageInfo → ℕ → PageInfo) → PagingInfo → PagingInfo
set_resident i f p = record (put p i (f (p.pages i) p.next_fifo_seq)) {
  next_fifo_seq = p.next_fifo_seq + 1;
}

-- `free_swap_slot(p, slot)`
abbrev pub give_back : ℕ → PagingInfo → PagingInfo
give_back slot p = record p { swap = free_swap_slot p.swap slot }

-- `free_swap_slot(p, slot); pi->swap_slot = -1;`
abbrev pub leave_slot : ℕ → ℕ → PagingInfo → PagingInfo
leave_slot i slot p = record (set_page i (λ pi. record pi { swap_slot = none }) p) {
  swap = free_swap_slot p.swap slot;
}

module _ (fs : FileSystem) where
  open fs use {
    State, begin_op, end_op, ilock, iunlock, iunlockput, readi, writei, create, filealloc,
  }

  abbrev pub K : Type 0 → Type 0
  K A = M (Kernel State) A

  -- `create_swap_file` with the inode that `create` made, locked.
  unfoldable pub attach_swap_file : ℕ → K Bool
  attach_swap_file ip = do
    act (iunlock ip)
    found ← call filealloc
    (if found
        then (do set_paging (λ q. record q { swapfile = some ip }); act end_op; pure true)
        else do
          act begin_op
          act (ilock ip)
          act (fs.drop ip)
          act (iunlockput ip)
          act end_op
          act end_op
          pure false)

  -- `true` stands for 0 and `false` for -1, here and below.
  unfoldable pub create_swap_file : K Bool
  unfolding attach_swap_file
  create_swap_file = do
    p ← get_proc
    elim p.paging.swapfile [
      | some ip ↦ pure true
      | none ↦ do
        set_paging (set_swappath p.pid)
        act begin_op
        made ← call (create (swap_name p.pid))
        elim made [ none ↦ do act end_op; pure false | some ip ↦ attach_swap_file ip ]
    ]

  -- Drop a clean page of the program; it is read from the file again.
  pub discard : ℕ → ℕ → K Bool
  discard va i = do
    set_paging (set_page i (λ pi. record pi { state = unmapped }))
    p ← get_proc
    pte ← lift (walk p.pagetable va false)
    (if pte == 0 then pure true else do
      v ← lift (load_pte pte)
      (if is_v v
          then (do lift (kfree (pte2pa v)); lift (store_pte pte 0); pure true)
          else pure true))

  -- `p->swapfile->ip`
  unfoldable pub swap_inode : K ℕ
  swap_inode = do
    p ← get_proc
    elim p.paging.swapfile [ none ↦ fail null_pointer | some ip ↦ pure ip ]

  -- Whether the page at `pa` was written whole to a slot of the swap file.
  unfoldable pub write_page : ℕ → ℕ → K Bool
  write_page slot pa = do
    act begin_op
    ip ← swap_inode
    act (ilock ip)
    bytes ← lift (get_bytes pa pgsize)
    n ← call (writei ip (slot * pgsize) bytes)
    act (iunlock ip)
    act end_op
    elim n [ none ↦ pure false | some c ↦ pure (c == pgsize) ]

  -- The page behind a valid entry goes to its slot.
  pub store_page : ℕ → ℕ → ℕ → ℕ → K Bool
  store_page i slot pte pa = do
    written ← write_page slot pa
    (if written
        then (do
          set_paging (
              set_page i
                (λ pi. record pi { state = swapped; swap_slot = some slot; from_exec = false }))
          lift (kfree pa)
          lift (store_pte pte 0)
          pure true)
        else do set_paging (give_back slot); pure false)

  -- The part of `swapout_page` after a slot was found.
  pub swap_to : ℕ → ℕ → ℕ → K Bool
  swap_to va i slot = do
    p ← get_proc
    pte ← lift (walk p.pagetable va false)
    v ← (if pte == 0 then pure 0 else lift (load_pte pte))
    (if is_v v
        then store_page i slot pte (pte2pa v)
        else do set_paging (give_back slot); pure false)

  -- `alloc_swap_slot(p)`
  pub take_slot : K (Option ℕ)
  take_slot = do
    p ← get_proc
    set_paging (λ q. record q { swap = (alloc_swap_slot q.swap).1 })
    pure (alloc_swap_slot p.paging.swap).0

  pub kill : K Bool
  kill = do setkilled; pure false

  pub swap_dirty : ℕ → ℕ → K Bool
  swap_dirty va i = do
    opened ← create_swap_file
    (if not opened
        then kill
        else do r ← take_slot; elim r [ none ↦ kill | some slot ↦ swap_to va i slot ])

  -- `swapout_page` with the entry of the page.
  pub swapout_entry : ℕ → ℕ → PageInfo → K Bool
  swapout_entry va i pi =
      if not (is_resident pi.state)
      then pure false
      else if not pi.dirty && pi.from_exec
      then discard va i
      else swap_dirty va i

  pub swapout_page : ℕ → K Bool
  swapout_page va = do
    p ← get_proc
    elim (get_page_info (pgrounddown va)) [
      | none ↦ pure false
      | some i ↦ swapout_entry (pgrounddown va) i (p.paging.pages i)
    ]

  pub evict_page_fifo : K Bool
  evict_page_fifo = do
    p ← get_proc
    elim (find_victim max_tracked_pages 0 p.paging.pages none 0x7FFFFFFF) [
      | none ↦ pure false
      | some i ↦ swapout_page (i * pgsize)
    ]

  -- `kalloc`, and once more after an eviction; 0 if there is no page still. The four places that
  -- allocate for a fault do this.
  pub kalloc_or_evict : K ℕ
  kalloc_or_evict = do
    mem ← lift kalloc
    (if not (mem == 0)
        then pure mem
        else do evicted ← evict_page_fifo; (if evicted then lift kalloc else pure 0))

  -- Whether a whole page was read from a slot to `mem`.
  unfoldable pub read_page : ℕ → ℕ → K Bool
  read_page slot mem = do
    act begin_op
    ip ← swap_inode
    act (ilock ip)
    bytes ← call (readi ip (slot * pgsize) pgsize)
    lift (put_bytes mem bytes)
    act (iunlock ip)
    act end_op
    pure (length bytes == pgsize)

  -- The part of `swapin_page` after the page was read.
  pub map_swapped : ℕ → ℕ → ℕ → ℕ → K Bool
  map_swapped va i slot mem = do
    set_paging (leave_slot i slot)
    p ← get_proc
    mapped ← lift (mappages p.pagetable va pgsize mem (pte_u + pte_r + pte_w))
    (if mapped
        then (do
          set_paging (
              set_resident i
                (λ pi seq. record pi { state = resident; dirty = false; fifo_seq = seq }))
          pure true)
        else do lift (kfree mem); pure false)

  -- `swapin_page` with the entry of a page that is in `slot`.
  pub swapin_slot : ℕ → ℕ → ℕ → K Bool
  swapin_slot va i slot = do
    mem ← kalloc_or_evict
    (if mem == 0 then pure false else do
      whole ← read_page slot mem
      (if whole then map_swapped va i slot mem else do lift (kfree mem); pure false))

  pub swapin_entry : ℕ → ℕ → PageInfo → K Bool
  swapin_entry va i pi =
      if not (is_swapped pi.state)
      then pure false
      else elim pi.swap_slot [ none ↦ pure false | some slot ↦ swapin_slot va i slot ]

  pub swapin_page : ℕ → K Bool
  swapin_page va = do
    p ← get_proc
    elim (get_page_info (pgrounddown va)) [
      | none ↦ pure false
      | some i ↦ swapin_entry (pgrounddown va) i (p.paging.pages i)
    ]
