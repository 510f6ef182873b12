-- ===== src/Paging/Copy.antt =====
-- `copyout`, `copyin` and `copyinstr` of kernel/vm.c: copies between the kernel and a user page
-- table, a page at a time, with a fault for each page that is not present.
pub mod Strings
use osn_mp2_part_a.Base.{ℕ, zero, suc, ◌+◌, ◌-◌, Bool, true, false, not, ◌==◌, ltb, if◌then◌else◌}
use osn_mp2_part_a.Base.Result.{M, ok, pure, ◌>>=◌, ◌>>◌}
use osn_mp2_part_a.Memory.{Memory, update}
use osn_mp2_part_a.Cstring.{memmove}
use osn_mp2_part_a.Riscv.{pgsize, pgrounddown}
use osn_mp2_part_a.Kalloc.{Machine}
use osn_mp2_part_a.Vm.{walk, walkaddr, load_pte, is_w}
use osn_mp2_part_a.Paging.Kernel.{FileSystem, lift}
use osn_mp2_part_a.Paging.Swap.{K}
use osn_mp2_part_a.Paging.Fault.{handle_kernel_pagefault}

-- How many bytes one round copies.
abbrev pub chunk : ℕ → ℕ → ℕ
chunk va len = let n = pgsize - (va - pgrounddown va) in if ltb len n then len else n

unfoldable pub move_bytes : ℕ → ℕ → ℕ → M Machine (Unit {0})
move_bytes dst src n k = ok (tt, record k { mem = memmove k.mem dst src n })

-- The inner loop of `copyinstr`, `n` rounds from its end: whether it met the NUL.
unfoldable pub copy_string : ℕ → Memory → ℕ → ℕ → Bool × Memory
copy_string zero m p dst = (false, m)
copy_string (suc n) m p dst =
    let rest = copy_string n (update m dst (m p)) (p + 1) (dst + 1) in
    if m p == 0 then (true, update m dst 0) else rest

unfoldable pub string_bytes : ℕ → ℕ → ℕ → M Machine Bool
string_bytes n p dst k = let r = copy_string n k.mem p dst in ok (r.0, record k { mem = r.1 })

module _ (fs : FileSystem) where
  -- The physical address of a user page, after a fault if it is not present; 0 for none.
  pub present : ℕ → ℕ → Bool → K fs ℕ
  present pt va is_write = do
    pa ← lift (walkaddr pt va)
    (if pa == 0 then handle_kernel_pagefault fs pt va is_write else pure pa)

  -- Whether the entry for a page allows writing.
  pub writable : ℕ → ℕ → K fs Bool
  writable pt va = do
    pte ← lift (walk pt va false)
    (if pte == 0 then pure false else do v ← lift (load_pte pte); pure (is_w v))

  -- The loop of `copyout`; a round copies a byte at least, so the fuel is the length. `true` stands
  -- for 0 and `false` for -1, here and below. An address past the end of user memory is not mapped,
  -- so the next address does not wrap.
  pub copyout_from : ℕ → ℕ → ℕ → ℕ → ℕ → K fs Bool
  copyout_from zero pt dstva src len = pure true
  copyout_from (suc f) pt dstva src len = if len == 0 then pure true else do
    pa ← present pt (pgrounddown dstva) true
    (if pa == 0 then pure false else do
      allowed ← writable pt (pgrounddown dstva)
      (if not allowed then pure false else do
        lift (move_bytes (pa + (dstva - pgrounddown dstva)) src (chunk dstva len))
        copyout_from f pt (pgrounddown dstva + pgsize) (src + chunk dstva len)
            (len - chunk dstva len)))

  pub copyout : ℕ → ℕ → ℕ → ℕ → K fs Bool
  copyout pt dstva src len = copyout_from len pt dstva src len

  pub copyin_from : ℕ → ℕ → ℕ → ℕ → ℕ → K fs Bool
  copyin_from zero pt dst srcva len = pure true
  copyin_from (suc f) pt dst srcva len = if len == 0 then pure true else do
    pa ← present pt (pgrounddown srcva) false
    (if pa == 0 then pure false else do
      lift (move_bytes dst (pa + (srcva - pgrounddown srcva)) (chunk srcva len))
      copyin_from f pt (dst + chunk srcva len) (pgrounddown srcva + pgsize) (len - chunk srcva len))

  pub copyin : ℕ → ℕ → ℕ → ℕ → K fs Bool
  copyin pt dst srcva len = copyin_from len pt dst srcva len

  -- The loop of `copyinstr`: it fails when `max` bytes were copied without a NUL.
  pub copyinstr_from : ℕ → ℕ → ℕ → ℕ → ℕ → K fs Bool
  copyinstr_from zero pt dst srcva max = pure false
  copyinstr_from (suc f) pt dst srcva max = if max == 0 then pure false else do
    pa ← present pt (pgrounddown srcva) false
    (if pa == 0 then pure false else do
      got_null ← lift (string_bytes (chunk srcva max) (pa + (srcva - pgrounddown srcva)) dst)
      (if got_null
          then pure true
          else copyinstr_from f pt (dst + chunk srcva max) (pgrounddown srcva + pgsize)
              (max - chunk srcva max)))

  pub copyinstr : ℕ → ℕ → ℕ → ℕ → K fs Bool
  copyinstr pt dst srcva max = copyinstr_from max pt dst srcva max
