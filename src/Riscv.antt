-- ===== src/Riscv.antt =====
-- The constants and address macros of kernel/riscv.h and kernel/memlayout.h. An address is a
-- 64-bit number; the masks `& ~(PGSIZE - 1)` and shifts are divisions by powers of two.
use osn_mp2_part_a.Base.{ℕ, ◌+◌, ◌-◌, ◌*◌, ◌/◌, ◌%◌, ◌^◌}

abbrev pub pgsize : ℕ
pgsize = 4096

abbrev pub kernbase : ℕ
kernbase = 0x80000000

abbrev pub phystop : ℕ
phystop = kernbase + 128 * 1024 * 1024

abbrev pub maxva : ℕ
maxva = 2 ^ 38

abbrev pub trampoline : ℕ
trampoline = maxva - pgsize

abbrev pub trapframe : ℕ
trapframe = trampoline - pgsize

abbrev pub pgroundup : ℕ → ℕ
pgroundup sz = (sz + pgsize - 1) % 2 ^ 64 / pgsize * pgsize

abbrev pub pgrounddown : ℕ → ℕ
pgrounddown a = a / pgsize * pgsize

-- The page-table index of `va` at a level.
abbrev pub px : ℕ → ℕ → ℕ
px level va = va / 2 ^ (12 + 9 * level) % 512

abbrev pub pa2pte : ℕ → ℕ
pa2pte pa = pa / 2 ^ 12 * 2 ^ 10

abbrev pub pte2pa : ℕ → ℕ
pte2pa pte = pte / 2 ^ 10 * 2 ^ 12

abbrev pub pte_flags : ℕ → ℕ
pte_flags pte = pte % 2 ^ 10
