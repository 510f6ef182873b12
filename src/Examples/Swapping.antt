-- ===== src/Examples/Swapping.antt =====
-- The paging code at a process with an empty page table, on a disk that reads zeros.
use osn_mp2_part_a.Base.{
  ◌&&◌, ltb, ◌<◌, ℕ, true, false, bit_set, ◌==◌, if◌then◌else◌, none, some, length, replicate, ◌≡◌,
  refl,
}
use osn_mp2_part_a.Paging.{
  PageInfo, PagingInfo, resident, swapped, zero_info, is_resident, fork_paging, init_paging_info,
  find_victim, max_tracked_pages,
}
use osn_mp2_part_a.Paging.Slots
use osn_mp2_part_a.Paging.Slots.{
  SwapMap, slot_used, alloc_swap_slot, free_swap_slot, mark_slot, find_free, take_slot,
}
use osn_mp2_part_a.Paging.Slots.Laws.{empty-IsValid}
use osn_mp2_part_a.Paging.Slots.Alloc.{Allocated, alloc_swap_slot_lem}
use osn_mp2_part_a.Paging.Fifo.{Oldest, find_victim_lem, int_max}
use osn_mp2_part_a.Paging.Tables.{TablesOk, init-TablesOk}
use osn_mp2_part_a.Paging.Kernel.{FileSystem, Kernel}
use osn_mp2_part_a.Paging.Kernel.Triple.{After}
use osn_mp2_part_a.Riscv.{pgrounddown}
use osn_mp2_part_a.Paging.Swap.{evict_page_fifo}
use osn_mp2_part_a.Paging.Swap.Outcome.{Outcome}
use osn_mp2_part_a.Paging.Fork.{Copied, fork_paging_lem}
use osn_mp2_part_a.Paging.Fault.{handle_page_fault, handle_kernel_pagefault}
use osn_mp2_part_a.Paging.Fault.Keeps.{Tracked, handle_page_fault-TablesOk, kernel_fault-TablesOk}

abbrev pub zero_fs : FileSystem
zero_fs = record {
  State = Unit;
  begin_op = λ s. s;
  end_op = λ s. s;
  ilock = λ ip s. s;
  iunlock = λ ip s. s;
  iunlockput = λ ip s. s;
  readi = λ ip off n s. (replicate n 0, s);
  writei = λ ip off bs s. (some (length bs), s);
  create = λ name s. (some 7, s);
  filealloc = λ s. (true, s);
  drop = λ ip s. s;
}

-- Two free pages, and a heap from 0x1000 to 0x9000.
abbrev pub small_kernel : Kernel Unit
small_kernel = record {
  machine = record {
    kernel_end = 0x80020000;
    freelist = 0x80021000;
    mem = λ a.
        if a == 0x80021001
        then 0x20
        else if a == 0x80021002
        then 2
        else if a == 0x80021003
        then 0x80
        else 0;
  };
  proc = record {
    pid = 3;
    sz = 0x9000;
    pagetable = 0x80030000;
    killed = false;
    paging = record init_paging_info { heap_start = 0x1000 };
  };
  fs = tt;
}

handle_page_fault-TablesOk_example :
    After
      (λ r p. Tracked zero_fs small_kernel init-TablesOk (r ≡ false) 0x5008 p)
      (handle_page_fault zero_fs 0x5008 15 small_kernel)
handle_page_fault-TablesOk_example =
    handle_page_fault-TablesOk zero_fs small_kernel init-TablesOk 0x5008 15

kernel_fault-TablesOk_example :
    After
      (λ pa p. Tracked zero_fs small_kernel init-TablesOk (pa ≡ 0) (pgrounddown 0x5008) p)
      (handle_kernel_pagefault zero_fs 0x80030000 0x5008 true small_kernel)
    × After
        (λ _ p. Tracked zero_fs small_kernel init-TablesOk ⊥ 0x5008 p)
        (evict_page_fifo zero_fs small_kernel)
kernel_fault-TablesOk_example =
    kernel_fault-TablesOk zero_fs small_kernel init-TablesOk 0x80030000 0x5008 true

-- Pages 3 and 7 are resident, and 7 is the older one.
abbrev pub two_pages : ℕ → PageInfo
two_pages i =
    if i == 3
    then record zero_info { state = resident; fifo_seq = 5 }
    else if i == 7
    then record zero_info { state = resident; fifo_seq = 2 }
    else zero_info

find_victim_lem_example :
    Oldest two_pages max_tracked_pages int_max
      (find_victim max_tracked_pages 0 two_pages none int_max)
find_victim_lem_example = find_victim_lem two_pages

alloc_swap_slot_lem_example : Allocated Slots.empty (alloc_swap_slot Slots.empty)
alloc_swap_slot_lem_example = alloc_swap_slot_lem empty-IsValid

abbrev one_taken : SwapMap
one_taken = record { swap_bitmap = mark_slot (replicate 128 0) 0; swap_used = 1 }

first_slot : alloc_swap_slot Slots.empty ≡ (some 0, one_taken)
unfolding alloc_swap_slot slot_used find_free take_slot bit_set
first_slot = refl

-- The parent has the pages of `two_pages`, and page 9 in its swap file.
abbrev parent : PagingInfo
parent = record init_paging_info {
  pages =
      λ i. if i == 9 then record zero_info { state = swapped; swap_slot = some 0 } else two_pages i;
}

fork_paging_lem_example :
    TablesOk (fork_paging parent init_paging_info)
    × ((j : ℕ)
        → Copied
            (ltb j 16384 && is_resident (parent.pages j).state)
            (parent.pages j)
            ((fork_paging parent init_paging_info).pages j))
    × ((j k : ℕ)
        → j < k
        → ((fork_paging parent init_paging_info).pages j).state ≡ resident
        → ((fork_paging parent init_paging_info).pages k).state ≡ resident
        → ((fork_paging parent init_paging_info).pages j).fifo_seq
          < ((fork_paging parent init_paging_info).pages k).fifo_seq)
fork_paging_lem_example = fork_paging_lem parent

-- Page 3 is swapped out.
abbrev busy_kernel : Kernel Unit
busy_kernel = record small_kernel {
  proc = record small_kernel.proc { paging = record init_paging_info { pages = two_pages } };
}
