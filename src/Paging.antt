-- ===== src/Paging.antt =====
-- The demand-paging bookkeeping of kernel/paging.h and kernel/vm.c: the tables of one process.
-- The modules below hold the operations on them, and the proofs about those.
pub mod Slots
pub mod Fifo
pub mod Tables
pub mod Fork
pub mod Kernel
pub mod Swap
pub mod Fault
pub mod Copy
use osn_mp2_part_a.Base.{
  ℕ, zero, suc, ◌+◌, ◌/◌, Bool, true, false, Option, none, some, List, [], replicate, if◌then◌else◌,
  ltb, leb, ◌==◌, ◌*◌, ◌-◌,
}
use osn_mp2_part_a.Riscv.{pgsize, pgrounddown}
use Slots.{SwapMap}
use Slots

abbrev pub max_tracked_pages : ℕ
max_tracked_pages = 35000

-- The `state` of a page: 0, 1 and 2 in the source.
pub data PageState : Type 0 where
  unmapped resident swapped : PageState

abbrev pub is_resident : PageState → Bool
is_resident resident = true
is_resident other = false

abbrev pub is_swapped : PageState → Bool
is_swapped swapped = true
is_swapped other = false

-- `struct page_info`. `dirty` and `from_exec` hold 0 or 1; a `swap_slot` of -1 is `none`, and no
-- other negative value is stored. `fifo_seq` counts from 1 and is taken below 2^31.
pub record PageInfo : Type 0 where
  pub va : ℕ
  pub state : PageState
  pub dirty : Bool
  pub fifo_seq : ℕ
  pub swap_slot : Option ℕ
  pub exec_offset : ℕ
  pub from_exec : Bool

-- `struct paging_info`. The arrays are functions of the index; `swapfile` is the inode of the open
-- swap file and `exec_ip` that of the program, or `none` for the null pointer.
pub record PagingInfo : Type 0 where
  pub swapfile : Option ℕ
  pub swappath : List ℕ
  pub swap : SwapMap
  pub next_fifo_seq : ℕ
  pub pages : ℕ → PageInfo
  pub text_start : ℕ
  pub text_end : ℕ
  pub data_start : ℕ
  pub data_end : ℕ
  pub heap_start : ℕ
  pub stack_top : ℕ
  pub text_offset : ℕ
  pub data_offset : ℕ
  pub text_filesz : ℕ
  pub data_filesz : ℕ
  pub exec_ip : Option ℕ

-- `pages[i] = v`
abbrev pub put_page : (ℕ → PageInfo) → ℕ → PageInfo → ℕ → PageInfo
put_page f i v j = if i == j then v else f j

abbrev pub put : PagingInfo → ℕ → PageInfo → PagingInfo
put p i v = record p { pages = put_page p.pages i v }

-- An entry of zeros, and one as the loop of `init_paging_info` leaves it.
abbrev pub zero_info : PageInfo
zero_info = record {
  va = 0;
  state = unmapped;
  dirty = false;
  fifo_seq = 0;
  swap_slot = some 0;
  exec_offset = 0;
  from_exec = false;
}

abbrev pub clear_info : PageInfo
clear_info = record zero_info { swap_slot = none }

-- The loop runs over the first 512 entries; `memset` has cleared the others.
unfoldable pub init_paging_info : PagingInfo
init_paging_info = record {
  swapfile = none;
  swappath = replicate 32 0;
  swap = Slots.empty;
  next_fifo_seq = 1;
  pages = λ i. if ltb i 512 then clear_info else zero_info;
  text_start = 0;
  text_end = 0;
  data_start = 0;
  data_end = 0;
  heap_start = 0;
  stack_top = 0;
  text_offset = 0;
  data_offset = 0;
  text_filesz = 0;
  data_filesz = 0;
  exec_ip = none;
}

-- The index of the entry for `va`, or `none` for the null pointer.
unfoldable pub get_page_info : ℕ → Option ℕ
get_page_info va =
    if leb max_tracked_pages (pgrounddown va / pgsize) then none else some (pgrounddown va / pgsize)

-- Whether the loop of `evict_page_fifo` takes this page for the oldest so far.
abbrev pub older : PageInfo → ℕ → Bool
older pi min_seq = if is_resident pi.state then ltb pi.fifo_seq min_seq else false

-- The loop of `evict_page_fifo` that chooses a victim, from index `i` with `n` rounds left.
unfoldable pub find_victim : ℕ → ℕ → (ℕ → PageInfo) → Option ℕ → ℕ → Option ℕ
find_victim zero i pages victim min_seq = victim
find_victim (suc n) i pages victim min_seq =
    let better = older (pages i) min_seq in
    find_victim n (i + 1) pages (if better then some i else victim)
      (if better then (pages i).fifo_seq else min_seq)

-- `kfork`: entry `j` of the child, with the sequence number it takes if the page is resident.
abbrev pub fork_entry : PageInfo → PageInfo → ℕ → PageInfo
fork_entry parent child seq =
    if is_resident parent.state
    then record child {
      va = parent.va;
      state = resident;
      fifo_seq = seq;
      from_exec = parent.from_exec;
      dirty = false;
      swap_slot = none;
    }
    else record child { state = unmapped }

-- The loop of `kfork` over the entries, from index `j` with `n` rounds left.
unfoldable pub fork_pages : ℕ → ℕ → (ℕ → PageInfo) → PagingInfo → PagingInfo
fork_pages zero j parent c = c
fork_pages (suc n) j parent c = fork_pages n (j + 1) parent (record c {
  pages = put_page c.pages j (fork_entry (parent j) (c.pages j) c.next_fifo_seq);
  next_fifo_seq = if is_resident (parent j).state then c.next_fifo_seq + 1 else c.next_fifo_seq;
})

-- The segments that `kfork` copies from the parent `p` into the child's fresh `c`; `idup` of the
-- program's inode returns the same inode.
abbrev pub fork_segments : PagingInfo → PagingInfo → PagingInfo
fork_segments p c = record c {
  text_start = p.text_start;
  text_end = p.text_end;
  data_start = p.data_start;
  data_end = p.data_end;
  text_offset = p.text_offset;
  data_offset = p.data_offset;
  text_filesz = p.text_filesz;
  data_filesz = p.data_filesz;
  heap_start = p.heap_start;
  stack_top = p.stack_top;
  exec_ip = elim p.exec_ip [ none ↦ c.exec_ip | some ip ↦ some ip ];
}

unfoldable pub fork_paging : PagingInfo → PagingInfo → PagingInfo
fork_paging p c = fork_pages 16384 0 p.pages (fork_segments p c)
