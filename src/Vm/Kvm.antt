-- ===== src/Vm/Kvm.antt =====
-- The kernel's own page table: `kvmmap` and `kvmmake` of kernel/vm.c, and the kernel stacks that
-- `proc_mapstacks` of kernel/proc.c maps. The addresses `etext` and `trampoline` are the linker's.
use osn_mp2_part_a.Base.{ℕ, zero, suc, ◌+◌, ◌-◌, ◌*◌, ◌==◌, if◌then◌else◌}
use osn_mp2_part_a.Base.Result.{M, pure, fail, kvmmap_failed, no_stack, ◌>>=◌, ◌>>◌}
use osn_mp2_part_a.Riscv.{pgsize, phystop, kernbase, trampoline}
use osn_mp2_part_a.Kalloc.{Machine, kalloc}
use osn_mp2_part_a.Vm.{mappages, zero_page, pte_r, pte_w, pte_x}

abbrev pub uart0 : ℕ
uart0 = 0x10000000

abbrev pub virtio0 : ℕ
virtio0 = 0x10001000

abbrev pub plic : ℕ
plic = 0x0c000000

abbrev pub nproc : ℕ
nproc = 64

abbrev pub kstack : ℕ → ℕ
kstack p = trampoline - (p + 1) * 2 * pgsize

pub kvmmap : ℕ → ℕ → ℕ → ℕ → ℕ → M Machine (Unit {0})
kvmmap pt va pa sz perm = do
  mapped ← mappages pt va sz pa perm
  (if mapped then pure tt else fail kvmmap_failed)

-- The loop of `proc_mapstacks` from process `p`, `n` rounds from its end.
pub map_stacks : ℕ → ℕ → ℕ → M Machine (Unit {0})
map_stacks zero pt p = pure tt
map_stacks (suc n) pt p = do
  pa ← kalloc
  (if pa == 0
      then fail no_stack
      else do kvmmap pt (kstack p) pa pgsize (pte_r + pte_w); map_stacks n pt (p + 1))

pub proc_mapstacks : ℕ → M Machine (Unit {0})
proc_mapstacks pt = map_stacks nproc pt 0

-- The page of the table is not checked: with no page free, `memset` writes from address 0 on.
pub kvmmake : ℕ → ℕ → M Machine ℕ
kvmmake etext tramp = do
  pt ← kalloc
  zero_page pt
  kvmmap pt uart0 uart0 pgsize (pte_r + pte_w)
  kvmmap pt virtio0 virtio0 pgsize (pte_r + pte_w)
  kvmmap pt plic plic 0x4000000 (pte_r + pte_w)
  kvmmap pt kernbase kernbase (etext - kernbase) (pte_r + pte_x)
  kvmmap pt etext etext (phystop - etext) (pte_r + pte_w)
  kvmmap pt trampoline tramp pgsize (pte_r + pte_x)
  proc_mapstacks pt
  pure pt
