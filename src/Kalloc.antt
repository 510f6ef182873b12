-- ===== src/Kalloc.antt =====
-- kernel/kalloc.c: the allocator of physical pages. The free list is threaded through the free
-- pages: the first 8 bytes of a free page are the address of the next one. The spin lock makes each
-- call one step.
pub mod FreeList
pub mod Range
use osn_mp2_part_a.Base.{
  ℕ, zero, suc, ◌+◌, ◌-◌, ◌%◌, ◌^◌, ◌==◌, if◌then◌else◌, leb, ltb, ◌||◌, not, Bool,
}
use osn_mp2_part_a.Base.Result.{Result, ok, panic, kfree_range, M, ◌>>=◌, ◌>>◌}
use osn_mp2_part_a.Memory.{Memory, load64, store64}
use osn_mp2_part_a.Cstring.{memset}
use osn_mp2_part_a.Riscv.{pgsize, phystop, pgroundup}

-- The linker's symbol `end`, the head `kmem.freelist` (0 is the null pointer) and the memory.
pub record Machine : Type 0 where
  pub kernel_end : ℕ
  pub freelist : ℕ
  pub mem : Memory

-- `(pa % PGSIZE) != 0 || pa < end || pa >= PHYSTOP`
abbrev pub bad_page : Machine → ℕ → Bool
bad_page k pa = not (pa % pgsize == 0) || (ltb pa k.kernel_end || leb phystop pa)

-- The page filled with junk, linked in front of the list.
abbrev pub push_page : Machine → ℕ → Machine
push_page k pa = record k { freelist = pa; mem = store64 (memset k.mem pa 1 pgsize) pa k.freelist }

unfoldable pub kfree : ℕ → M Machine (Unit {0})
kfree pa k = if bad_page k pa then panic kfree_range else ok (tt, push_page k pa)

-- The list without its first page, which is filled with junk.
abbrev pub pop_page : Machine → Machine
pop_page k = record k { freelist = load64 k.mem k.freelist; mem = memset k.mem k.freelist 5 pgsize }

unfoldable pub kalloc : M Machine ℕ
kalloc k = if k.freelist == 0 then ok (0, k) else ok (k.freelist, pop_page k)

-- The loop of `freerange` from address `p`, on fuel.
pub free_pages : ℕ → ℕ → ℕ → M Machine (Unit {0})
free_pages zero p pa_end k = ok (tt, k)
free_pages (suc n) p pa_end k =
    let rest : Result (Unit {0} × Machine) =
      (kfree p >>= λ _. free_pages n (p + pgsize) pa_end) k in
    if leb (p + pgsize) pa_end then rest else ok (tt, k)

pub freerange : ℕ → ℕ → M Machine (Unit {0})
freerange pa_start pa_end = free_pages (pa_end + 1) (pgroundup pa_start) pa_end

pub kinit : M Machine (Unit {0})
unfolding freerange
kinit k = freerange k.kernel_end phystop k
