-- ===== src/Vm/Uvm.antt =====
-- User address spaces: `uvmcreate`, `uvmalloc`, `uvmdealloc`, `freewalk`, `uvmfree`, `uvmcopy`,
-- `uvmclear` and the lazy growth of kernel/vm.c.
use osn_mp2_part_a.Base.{
  ℕ, zero, suc, ◌+◌, ◌-◌, ◌*◌, ◌/◌, ◌%◌, ◌^◌, ◌==◌, if◌then◌else◌, leb, ltb, ◌&&◌, not, Bool, true,
  false,
}
use osn_mp2_part_a.Base.Result.{ok, uvmclear_missing, freewalk_leaf, M, pure, fail, ◌>>=◌, ◌>>◌}
use osn_mp2_part_a.Cstring.{memmove}
use osn_mp2_part_a.Riscv.{pgsize, pgroundup, pte2pa, pte_flags}
use osn_mp2_part_a.Kalloc.{Machine, kalloc, kfree}
use osn_mp2_part_a.Vm.{walk, mappages, uvmunmap, load_pte, store_pte, zero_page, is_v, pte_r, pte_u}

unfoldable pub copy_page : ℕ → ℕ → M Machine (Unit {0})
copy_page dst src k = ok (tt, record k { mem = memmove k.mem dst src pgsize })

pub uvmcreate : M Machine ℕ
uvmcreate = do pt ← kalloc; (if pt == 0 then pure 0 else do zero_page pt; pure pt)

unfoldable pub uvmdealloc : ℕ → ℕ → ℕ → M Machine ℕ
uvmdealloc pt oldsz newsz =
    if leb oldsz newsz
    then pure oldsz
    else if ltb (pgroundup newsz) (pgroundup oldsz)
    then (do
      uvmunmap pt (pgroundup newsz) ((pgroundup oldsz - pgroundup newsz) / pgsize) true
      pure newsz)
    else pure newsz

-- `uvmalloc` after a page was allocated at `mem` for address `a`: whether it was mapped.
pub grow_page : ℕ → ℕ → ℕ → ℕ → M Machine Bool
grow_page pt a xperm mem = if mem == 0 then pure false else do
  zero_page mem
  mapped ← mappages pt a pgsize mem (pte_r + pte_u + xperm)
  (if mapped then pure true else do kfree mem; pure false)

-- The loop of `uvmalloc`, on fuel; 0 is the failure, after the pages from `oldsz` on are freed.
pub grow_from : ℕ → ℕ → ℕ → ℕ → ℕ → ℕ → M Machine ℕ
grow_from zero pt oldsz a newsz xperm = pure newsz
grow_from (suc n) pt oldsz a newsz xperm = elim (ltb a newsz) [
  | false ↦ pure newsz
  | true ↦ do
    mem ← kalloc
    grown ← grow_page pt a xperm mem
    elim grown [
      | true ↦ grow_from n pt oldsz (a + pgsize) newsz xperm
      | false ↦ do _ ← uvmdealloc pt a oldsz; pure 0
    ]
]

-- Any `newsz` is at most `oldsz` plus as many pages as the fuel counts.
pub uvmalloc : ℕ → ℕ → ℕ → ℕ → M Machine ℕ
uvmalloc pt oldsz newsz xperm =
    if ltb newsz oldsz
    then pure oldsz
    else grow_from (newsz + 1) pt (pgroundup oldsz) (pgroundup oldsz) newsz xperm

-- Pages are mapped on demand, by the fault handler.
pub uvmalloc_lazy : ℕ → ℕ → ℕ → ℕ → M Machine ℕ
uvmalloc_lazy pt oldsz newsz perm = pure newsz

-- Entry `i` of a table, with the call of `freewalk` on a child table as a parameter.
pub free_entry : (ℕ → M Machine (Unit {0})) → ℕ → ℕ → M Machine (Unit {0})
free_entry free_child pt i = do
  pte ← load_pte (pt + 8 * i)
  (if is_v pte && (pte / 2 % 8 == 0)
      then (do free_child (pte2pa pte); store_pte (pt + 8 * i) 0)
      else if is_v pte
      then (if pte_flags pte == 1
          then fail freewalk_leaf
          else do kfree (pte2pa pte); store_pte (pt + 8 * i) 0)
      else pure tt)

pub free_entries : (ℕ → M Machine (Unit {0})) → ℕ → ℕ → ℕ → M Machine (Unit {0})
free_entries free_child zero pt i = pure tt
free_entries free_child (suc n) pt i = do
  free_entry free_child pt i
  free_entries free_child n pt (i + 1)

-- The recursion goes down the levels of the table, three for a root.
pub freewalk : ℕ → ℕ → M Machine (Unit {0})
freewalk zero pt = pure tt
freewalk (suc level) pt = do free_entries (freewalk level) 512 pt 0; kfree pt

pub uvmfree : ℕ → ℕ → M Machine (Unit {0})
uvmfree pt sz =
    if ltb 0 sz
    then (do uvmunmap pt 0 (pgroundup sz / pgsize) true; freewalk 3 pt)
    else freewalk 3 pt

-- `uvmcopy` with the entry of page `i` of the parent: `false` is `goto err`.
pub copy_entry : ℕ → ℕ → ℕ → M Machine Bool
copy_entry new i pte = do
  v ← load_pte pte
  (if not (is_v v) then pure true else do
    mem ← kalloc
    (if mem == 0 then pure false else do
      copy_page mem (pte2pa v)
      mapped ← mappages new i pgsize mem (pte_flags v)
      (if mapped then pure true else do kfree mem; pure false)))

-- The loop of `uvmcopy`, on fuel; `false` is -1, after the pages copied so far are freed.
pub copy_from : ℕ → ℕ → ℕ → ℕ → ℕ → M Machine Bool
copy_from zero old new i sz = pure true
copy_from (suc n) old new i sz = elim (ltb i sz) [
  | false ↦ pure true
  | true ↦ do
    pte ← walk old i false
    copied ← (if pte == 0 then pure true else copy_entry new i pte)
    elim copied [
      | true ↦ copy_from n old new (i + pgsize) sz
      | false ↦ do uvmunmap new 0 (i / pgsize) true; pure false
    ]
]

pub uvmcopy : ℕ → ℕ → ℕ → M Machine Bool
uvmcopy old new sz = copy_from (sz + 1) old new 0 sz

-- `*pte &= ~PTE_U`
pub uvmclear : ℕ → ℕ → M Machine (Unit {0})
uvmclear pt va = do
  pte ← walk pt va false
  (if pte == 0
      then fail uvmclear_missing
      else do v ← load_pte pte; store_pte pte (v / 2 ^ 5 * 2 ^ 5 + v % 2 ^ 4))
