-- ===== src/Vm.antt =====
-- The page tables of kernel/vm.c: three levels of 512 entries in physical memory. A page-table
-- entry is a 64-bit word: the flags in its low 10 bits, the page number from bit 10 on.
pub mod Uvm
pub mod Kvm
pub mod Lookup
pub mod Mapping
use osn_mp2_part_a.Base.{
  ℕ, zero, suc, ◌+◌, ◌-◌, ◌*◌, ◌/◌, ◌%◌, ◌^◌, ◌==◌, if◌then◌else◌, leb, ltb, ◌||◌, ◌&&◌, not, Bool,
  true, false, Option, none, some,
}
use osn_mp2_part_a.Base.Result.{
  Result, ok, panic, walk_maxva, not_aligned, size_not_aligned, size_zero, remap, unmap_not_aligned,
  M, pure, fail, ◌>>=◌, ◌>>◌,
}
use osn_mp2_part_a.Memory.{Memory, load64, store64}
use osn_mp2_part_a.Cstring.{memset}
use osn_mp2_part_a.Riscv.{pgsize, maxva, px, pa2pte, pte2pa}
use osn_mp2_part_a.Kalloc.{Machine, kalloc, kfree}

abbrev pub pte_r : ℕ
pte_r = 2

abbrev pub pte_w : ℕ
pte_w = 4

abbrev pub pte_x : ℕ
pte_x = 8

abbrev pub pte_u : ℕ
pte_u = 16

-- `pte & (1 << bit)` as a truth value.
abbrev pub flag : ℕ → ℕ → Bool
flag pte bit = pte / 2 ^ bit % 2 == 1

abbrev pub is_v : ℕ → Bool
is_v pte = flag pte 0

abbrev pub is_w : ℕ → Bool
is_w pte = flag pte 2

abbrev pub is_u : ℕ → Bool
is_u pte = flag pte 4

-- `PA2PTE(pa) | perm | PTE_V` for a `perm` of flags, which are below bit 10: the bits of the page
-- number and of the flags do not meet, and bit 0 is set.
abbrev pub make_pte : ℕ → ℕ → ℕ
make_pte pa perm = pa2pte pa + (perm / 2 * 2 + 1)

unfoldable pub load_pte : ℕ → M Machine ℕ
load_pte p k = ok (load64 k.mem p, k)

unfoldable pub store_pte : ℕ → ℕ → M Machine (Unit {0})
store_pte p v k = ok (tt, record k { mem = store64 k.mem p v })

unfoldable pub zero_page : ℕ → M Machine (Unit {0})
zero_page pa k = ok (tt, record k { mem = memset k.mem pa 0 pgsize })

-- The address of the entry for `va` in the table `pt` of a level.
abbrev pub entry : ℕ → ℕ → ℕ → ℕ
entry level pt va = pt + 8 * px level va

-- A new table, linked from the entry at `pte`; `none` if there is no page for it.
pub grow_table : ℕ → ℕ → M Machine (Option ℕ)
grow_table pte pt =
    if pt == 0 then pure none else do zero_page pt; store_pte pte (make_pte pt 0); pure (some pt)

-- One round of the loop of `walk`: the next table, or `none` for `return 0`.
pub descend : Bool → ℕ → ℕ → M Machine (Option ℕ)
unfolding grow_table
descend alloc pte v =
    if is_v v
    then pure (some (pte2pa v))
    else if alloc
    then (do pt ← kalloc; grow_table pte pt)
    else pure none

-- The rounds of `walk` from a level down; the result is the address of the entry, or 0.
pub walk_from : ℕ → ℕ → ℕ → Bool → M Machine ℕ
walk_from zero pt va alloc = pure (entry 0 pt va)
walk_from (suc level) pt va alloc = do
  v ← load_pte (entry (suc level) pt va)
  next ← descend alloc (entry (suc level) pt va) v
  elim next [ none ↦ pure 0 | some pt' ↦ walk_from level pt' va alloc ]

unfoldable pub walk : ℕ → ℕ → Bool → M Machine ℕ
walk pt va alloc = if leb maxva va then fail walk_maxva else walk_from 2 pt va alloc

-- The physical address behind a user mapping, or 0.
unfoldable pub walkaddr : ℕ → ℕ → M Machine ℕ
walkaddr pt va = if leb maxva va then pure 0 else do
  pte ← walk pt va false
  (if pte == 0
      then pure 0
      else do v ← load_pte pte; pure (if is_v v && is_u v then pte2pa v else 0))

unfoldable pub ismapped : ℕ → ℕ → M Machine Bool
ismapped pt va = do
  pte ← walk pt va false
  (if pte == 0 then pure false else do v ← load_pte pte; pure (is_v v))

-- What `mappages` does with the entry of one page: `false` is its `return -1`.
pub map_entry : ℕ → ℕ → ℕ → M Machine Bool
map_entry pte pa perm = if pte == 0 then pure false else do
  v ← load_pte pte
  (if is_v v then fail remap else do store_pte pte (make_pte pa perm); pure true)

-- The loop of `mappages`; the count of rounds left falls to 0 only after the round with `a == last`.
pub map_from : ℕ → ℕ → ℕ → ℕ → ℕ → ℕ → M Machine Bool
map_from zero pt a last pa perm = pure true
map_from (suc n) pt a last pa perm = do
  pte ← walk pt a true
  mapped ← map_entry pte pa perm
  elim (mapped && not (a == last)) [
    | true ↦ map_from n pt (a + pgsize) last (pa + pgsize) perm
    | false ↦ pure mapped
  ]

-- `true` stands for 0 and `false` for -1.
unfoldable pub mappages : ℕ → ℕ → ℕ → ℕ → ℕ → M Machine Bool
unfolding map_from map_entry
mappages pt va size pa perm =
    if not (va % pgsize == 0)
    then fail not_aligned
    else if not (size % pgsize == 0)
    then fail size_not_aligned
    else if size == 0
    then fail size_zero
    else map_from (size / pgsize) pt va (va + size - pgsize) pa perm

-- What `uvmunmap` does with the entry of one page.
pub unmap_entry : ℕ → Bool → M Machine (Unit {0})
unmap_entry pte do_free = if pte == 0 then pure tt else do
  v ← load_pte pte
  (if is_v v
      then (do (if do_free then kfree (pte2pa v) else pure tt); store_pte pte 0)
      else pure tt)

pub unmap_from : ℕ → ℕ → ℕ → Bool → M Machine (Unit {0})
unmap_from zero pt a do_free = pure tt
unmap_from (suc n) pt a do_free = do
  pte ← walk pt a false
  unmap_entry pte do_free
  unmap_from n pt (a + pgsize) do_free

unfoldable pub uvmunmap : ℕ → ℕ → ℕ → Bool → M Machine (Unit {0})
unfolding unmap_from unmap_entry
uvmunmap pt va npages do_free =
    if not (va % pgsize == 0) then fail unmap_not_aligned else unmap_from npages pt va do_free
