-- ===== src/Sysproc.antt =====
-- The system calls of kernel/sysproc.c on the memory of the calling process: `sys_sbrk`, which only
-- counts the pages that it adds, and `sys_memstat` with the structures of kernel/memstat.h.
pub mod Memstat
pub mod Bounds
use osn_mp2_part_a.Base.{
  ℕ, zero, suc, ◌+◌, ◌-◌, ◌*◌, ◌/◌, ◌%◌, ◌^◌, Bool, true, false, not, ◌&&◌, ◌||◌, ◌==◌, leb, ltb,
  if◌then◌else◌, Option, none, some, List, [], ◌∷◌, ◌++◌, length, replicate,
}
use osn_mp2_part_a.Base.Result.{M, pure, ◌>>=◌, ◌>>◌}
use osn_mp2_part_a.Memory.{byte_of}
use osn_mp2_part_a.Riscv.{trapframe}
use osn_mp2_part_a.Kalloc.{kalloc, kfree}
use osn_mp2_part_a.Vm.Uvm.{uvmdealloc}
use osn_mp2_part_a.Paging.{
  PageInfo, PageState, unmapped, resident, swapped, is_resident, is_swapped, max_tracked_pages,
}
use osn_mp2_part_a.Paging.Kernel.{FileSystem, Proc, lift, get_proc, set_proc, put_bytes}
use osn_mp2_part_a.Paging.Swap.{K}
use osn_mp2_part_a.Paging.Copy.{copyout}

-- `MAX_PAGES_INFO`
abbrev pub max_pages_info : ℕ
max_pages_info = 128

-- `struct page_stat`; a `swap_slot` of -1 is `none`.
pub record PageStat : Type 0 where
  pub va : ℕ
  pub state : PageState
  pub is_dirty : Bool
  pub seq : ℕ
  pub swap_slot : Option ℕ

-- `struct proc_mem_stat`, with the entries of `pages` that are filled; the others are zeros.
pub record ProcMemStat : Type 0 where
  pub pid : ℕ
  pub num_pages_total : ℕ
  pub num_resident_pages : ℕ
  pub num_swapped_pages : ℕ
  pub next_fifo_seq : ℕ
  pub pages : List PageStat

abbrev pub page_stat : PageInfo → PageStat
page_stat pi = record {
  va = pi.va;
  state = pi.state;
  is_dirty = pi.dirty;
  seq = pi.fifo_seq;
  swap_slot = pi.swap_slot;
}

abbrev pub is_unmapped : PageState → Bool
is_unmapped unmapped = true
is_unmapped other = false

abbrev pub one_if : Bool → ℕ
one_if b = if b then 1 else 0

-- The body of the loop of `sys_memstat` for a page that is mapped.
abbrev pub add_page : PageInfo → ProcMemStat → ProcMemStat
add_page pi info = record info {
  pages = info.pages ++ page_stat pi ∷ [];
  num_resident_pages = info.num_resident_pages + one_if (is_resident pi.state);
  num_swapped_pages = info.num_swapped_pages + one_if (is_swapped pi.state);
}

-- The loop, from page `i` on with `n` rounds left; `page_count` is the length of `pages`.
unfoldable pub count_pages : ℕ → ℕ → (ℕ → PageInfo) → ProcMemStat → ProcMemStat
count_pages zero i pages info = info
count_pages (suc n) i pages info = elim (ltb (length info.pages) max_pages_info) [
  | false ↦ info
  | true ↦
      count_pages n (i + 1) pages
        (if is_unmapped (pages i).state then info else add_page (pages i) info)
]

unfoldable pub mem_stat : Proc → ProcMemStat
mem_stat p =
    let info = count_pages max_tracked_pages 0 p.paging.pages (record {
      pid = p.pid;
      num_pages_total = 0;
      num_resident_pages = 0;
      num_swapped_pages = 0;
      next_fifo_seq = p.paging.next_fifo_seq;
      pages = [];
    }) in
    record info { num_pages_total = length info.pages }

-- An `int` or `uint` in memory.
abbrev pub word : ℕ → List ℕ
word v = byte_of v 0 ∷ byte_of v 1 ∷ byte_of v 2 ∷ byte_of v 3 ∷ []

abbrev pub state_code : PageState → ℕ
state_code unmapped = 0
state_code resident = 1
state_code swapped = 2

abbrev pub slot_code : Option ℕ → ℕ
slot_code none = 2 ^ 32 - 1
slot_code (some s) = s

abbrev pub page_bytes : PageStat → List ℕ
page_bytes s =
    word s.va
    ++ word (state_code s.state)
    ++ word (one_if s.is_dirty)
    ++ word s.seq
    ++ word (slot_code s.swap_slot)

abbrev pub pages_bytes : List PageStat → List ℕ
pages_bytes [] = []
pages_bytes (s ∷ ss) = page_bytes s ++ pages_bytes ss

-- The bytes of the structure, 2580 in all.
unfoldable pub stat_bytes : ProcMemStat → List ℕ
stat_bytes i =
    word i.pid
    ++ word i.num_pages_total
    ++ word i.num_resident_pages
    ++ word i.num_swapped_pages
    ++ word i.next_fifo_seq
    ++ pages_bytes i.pages
    ++ replicate ((max_pages_info - length i.pages) * 20) 0

-- A negative `int` has a 32-bit pattern of at least 2^31.
abbrev pub is_negative : ℕ → Bool
is_negative n = leb (2 ^ 31) n

module _ (fs : FileSystem) where
  -- `true` stands for 0 and `false` for -1. The page is filled with the bytes of the structure, as
  -- `memset` and the assignments to its fields do.
  pub sys_memstat : ℕ → K fs Bool
  sys_memstat addr = do
    p ← get_proc
    info ← lift kalloc
    (if info == 0 then pure false else do
      lift (put_bytes info (stat_bytes (mem_stat p)))
      now ← get_proc
      copied ← copyout fs now.pagetable addr info 2580
      lift (kfree info)
      pure copied)

  -- The argument is a 32-bit pattern; `none` is -1.
  pub sys_sbrk : ℕ → K fs (Option ℕ)
  sys_sbrk n = do
    p ← get_proc
    (if ltb 0 n && not (is_negative n)
        then (if ltb ((p.sz + n) % 2 ^ 64) p.sz || ltb trapframe ((p.sz + n) % 2 ^ 64)
            then pure none
            else do set_proc (λ q. record q { sz = (p.sz + n) % 2 ^ 64 }); pure (some p.sz))
        else if is_negative n
        then (do
          sz ← lift (uvmdealloc p.pagetable p.sz ((p.sz + 2 ^ 64 - (2 ^ 32 - n)) % 2 ^ 64))
          set_proc (λ q. record q { sz = sz })
          pure (some p.sz))
        else pure (some p.sz))
