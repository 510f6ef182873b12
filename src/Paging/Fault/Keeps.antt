-- ===== src/Paging/Fault/Keeps.antt =====
-- The paging tables stay consistent through a page fault.
use osn_mp2_part_a.Base.{
  ℕ, Bool, true, false, ◌&&◌, ◌==◌, leb, ltb, Option, none, some, ◌≡◌, refl, arith, ◌⊎◌, inl, inr,
  if◌then◌else◌,
}
use osn_mp2_part_a.Base.Result.{M, pure}
use osn_mp2_part_a.Riscv.{pgrounddown, maxva, trapframe}
use osn_mp2_part_a.Paging.{PageInfo, PagingInfo, resident, get_page_info}
use osn_mp2_part_a.Paging.Tables.{
  Stray, WithLost, Within-mono, TablesOk, put_next-SeqOk, put-SlotsOk, put-Within,
}
use osn_mp2_part_a.Paging.Kernel.{FileSystem, Kernel, Proc}
use osn_mp2_part_a.Paging.Kernel.Triple.{
  Triple, bind, returns, conclude, after, weaken, same, lifted, called, acted, seen, keeps,
  branches, cases, After,
}
use osn_mp2_part_a.Paging.Swap.{evict_page_fifo}
use osn_mp2_part_a.Paging.Swap.Keeps.{
  Safe, SafeOr, none_lost, kalloc_or_evict-keeps, swapin_page-keeps, evict_page_fifo-keeps,
}
use osn_mp2_part_a.Paging.Fault.{
  track, map_loaded, read_exec, load_exec, load_heap, kill_with, load_segment, fault_at,
  handle_page_fault, is_swapped_at, in_segment, handle_kernel_pagefault, kernel_fault_at,
  checked_address, user_address,
}

-- The entry of an address is that of its page.
get_page_info-pgrounddown : (va : ℕ) → get_page_info (pgrounddown va) ≡ get_page_info va
unfolding get_page_info
get_page_info-pgrounddown va =
    rw (let e : pgrounddown (pgrounddown va) ≡ pgrounddown va = omega arith in e)

module _ (fs : FileSystem) (L : ℕ → Type 0) where
  abbrev pub Ok : Proc → Type 0
  Ok = Safe L none

  -- No page is lost, or that of the address where `F` holds.
  abbrev pub OkOr : Type 0 → ℕ → Proc → Type 0
  OkOr F va = SafeOr L F (get_page_info va)

  track-keeps :
      (f : PageInfo → ℕ → PageInfo) (entry : Option ℕ)
      → ((pi : PageInfo) (seq : ℕ) → ((f pi seq).state ≡ resident) × ((f pi seq).fifo_seq ≡ seq))
      → Triple Ok (track fs f entry) (λ _. Ok)
  unfolding track
  track-keeps f entry good =
      cases entry (λ _. same tt)
        λ i _. keeps _ λ q (t, _).
          let (r, n) = good (q.paging.pages i) q.paging.next_fifo_seq in
          (
            (
              put_next-SeqOk i _ n t.0,
              put-SlotsOk i _ (λ s w. cc) t.1,
              put-Within i _ (λ w. cc) t.2,
            ),
            tt,
          )

  map_loaded-keeps :
      (f : PageInfo → ℕ → PageInfo) (va mem perm : ℕ) (entry : Option ℕ)
      → ((pi : PageInfo) (seq : ℕ) → ((f pi seq).state ≡ resident) × ((f pi seq).fifo_seq ≡ seq))
      → Triple Ok (map_loaded fs f va mem perm entry) (λ _. Ok)
  unfolding map_loaded
  map_loaded-keeps f va mem perm entry good = bind seen λ p. bind (lifted _) λ mapped.
      branches mapped (λ _. bind (track-keeps f entry good) λ _. same true)
        (λ _. bind (lifted _) λ _. same false)

  read_exec-keeps : (mem offset size : ℕ) → Triple Ok (read_exec fs mem offset size) (λ _. Ok)
  unfolding read_exec
  read_exec-keeps mem offset size = bind seen λ p.
      cases p.paging.exec_ip (λ _. same true)
        λ ip _.
          branches (ltb 0 size)
            (λ _. bind (acted _) λ _. bind (acted _) λ _.
              bind (called _)
                λ bytes. bind (lifted _) λ _. bind (acted _) λ _. bind (acted _) λ _. same _)
            (λ _. same true)

  load_exec-keeps :
      (va offset file_start filesz perm : ℕ) (entry : Option ℕ)
      → Triple Ok (load_exec fs va offset file_start filesz perm entry) (λ _. Ok)
  unfolding load_exec
  load_exec-keeps va offset file_start filesz perm entry =
      bind (kalloc_or_evict-keeps fs L none) λ mem.
        branches (mem == 0) (λ _. same false)
          λ _. bind (lifted _) λ _. bind (read_exec-keeps mem _ _) λ whole.
            branches whole (λ _. map_loaded-keeps _ va mem perm entry (λ pi seq. (refl, refl)))
              (λ _. bind (lifted _) λ _. same false)

  load_heap-keeps : (va : ℕ) (entry : Option ℕ) → Triple Ok (load_heap fs va entry) (λ _. Ok)
  unfolding load_heap
  load_heap-keeps va entry = bind (kalloc_or_evict-keeps fs L none) λ mem.
      branches (mem == 0) (λ _. same false)
        λ _. bind (lifted _) λ _. map_loaded-keeps _ va mem _ entry (λ pi seq. (refl, refl))

  kill_with-keeps : (r : Bool) → Triple Ok (kill_with fs r) (λ _. Ok)
  unfolding kill_with
  kill_with-keeps r = bind (keeps _ (λ q h. h)) λ _. same r

  load_segment-keeps :
      (va : ℕ) (g : PagingInfo) (sz : ℕ) → Triple Ok (load_segment fs va g sz) (λ _. Ok)
  unfolding load_segment
  load_segment-keeps va g sz =
      branches (in_segment g.text_start g.text_end va) (λ _. load_exec-keeps va _ _ _ _ _)
        λ _.
          branches (in_segment g.data_start g.data_end va) (λ _. load_exec-keeps va _ _ _ _ _)
            λ _.
              branches (in_segment g.heap_start sz va) (λ _. load_heap-keeps va _)
                (λ _. kill_with-keeps false)

  fault_at-keeps :
      (va cause : ℕ) → Triple Ok (fault_at fs va cause) (λ r. OkOr (r ≡ false) (pgrounddown va))
  unfolding fault_at
  fault_at-keeps va cause =
      branches (leb maxva va) (λ _. returns false (λ p h. none_lost L p h.0))
        λ _. bind seen λ p.
          branches (in_segment p.paging.text_start p.paging.text_end va && cause == 15)
            (λ _. conclude (λ r q h. none_lost L q h.0) (kill_with-keeps true))
            λ _.
              branches (is_swapped_at p.paging (get_page_info va)) (λ _. swapin_page-keeps fs L va)
                (λ _. conclude (λ r q h. none_lost L q h.0) (load_segment-keeps va p.paging p.sz))

  pub handle_page_fault-keeps :
      (va cause : ℕ) → Triple Ok (handle_page_fault fs va cause) (λ r. OkOr (r ≡ false) va)
  unfolding handle_page_fault
  handle_page_fault-keeps va cause =
      rw (← (get_page_info-pgrounddown va)) (
        rw (← (get_page_info-pgrounddown (pgrounddown va))) (fault_at-keeps (pgrounddown va) cause))

  checked_address-keeps :
      (pt va : ℕ) (is_write : Bool) → Triple Ok (checked_address fs pt va is_write) (λ _. Ok)
  unfolding checked_address
  checked_address-keeps pt va is_write = bind (lifted _) λ pa.
      branches (pa == 0) (λ _. same 0)
        λ _.
          branches is_write
            (λ _. bind (lifted _) λ pte.
              bind {Q = λ _. Ok} (branches (pte == 0) (λ _. same 0) (λ _. lifted _)) λ v. same _)
            (λ _. same pa)

  -- A fault that was handled lost nothing.
  handled-Ok : (va : ℕ) (p : Proc) → OkOr (true ≡ false) va p → Ok p
  handled-Ok va p (t, _) = ((t.0, t.1, Within-mono kept t.2), tt)
    where
      kept : (i : ℕ) → WithLost L (true ≡ false) (get_page_info va) i → L i
      kept i (inl l) = l
      kept i (inr (e, _)) = cc

  pub handle_kernel_pagefault-keeps :
      (pt va : ℕ) (is_write : Bool)
      → Triple Ok (handle_kernel_pagefault fs pt va is_write) (λ pa. OkOr (pa ≡ 0) (pgrounddown va))
  unfolding handle_kernel_pagefault kernel_fault_at
  handle_kernel_pagefault-keeps pt va is_write =
      branches (leb trapframe (pgrounddown va)) (λ _. returns 0 (λ p h. none_lost L p h.0))
        λ _. bind seen λ p.
          branches (user_address p (pgrounddown va))
            (λ _. bind (handle_page_fault-keeps (pgrounddown va) _) λ handled. after_fault handled)
            (λ _. returns 0 (λ p h. none_lost L p h.0))
    where
      after_fault :
          (handled : Bool)
          → Triple {S = fs.State}
              (OkOr (handled ≡ false) (pgrounddown va))
              (if handled then checked_address fs pt (pgrounddown va) is_write else pure 0)
              (λ pa. OkOr (pa ≡ 0) (pgrounddown va))
      after_fault true =
          conclude (λ r q h. none_lost L q h.0)
            (weaken (handled-Ok (pgrounddown va))
              (checked_address-keeps pt (pgrounddown va) is_write))
      after_fault false = returns 0 (λ p (t, _). ((t.0, t.1, Within-mono lost t.2), tt))
        where
          lost :
              (i : ℕ)
              → WithLost L (false ≡ false) (get_page_info (pgrounddown va)) i
              → WithLost L (◌≡◌ {A = ℕ} 0 0) (get_page_info (pgrounddown va)) i
          lost i (inl l) = inl l
          lost i (inr (_, e)) = inr (refl, e)

module _ (fs : FileSystem) (k : Kernel fs.State) (h : TablesOk k.proc.paging) where
  -- The pages that are lost before.
  abbrev pub LostBefore : ℕ → Type 0
  LostBefore = Stray k.proc.paging.pages

  safe : Safe LostBefore none k.proc
  safe = ((h.0, h.1, record { among = λ i e. e }), tt)

  -- The tables are consistent, and every page that is lost was so before, or is that of `va`, where
  -- `F` holds.
  abbrev pub Tracked : Type 0 → ℕ → Proc → Type 0
  Tracked F va p =
      TablesOk p.paging
      × ((i : ℕ)
          → Stray p.paging.pages i
          → Stray k.proc.paging.pages i ⊎ (F × (get_page_info va ≡ some i)))

  tracking :
      {A : Type 0} {m : M (Kernel fs.State) A} (F : A → Type 0) (va : ℕ)
      → Triple (Safe LostBefore none) m (λ r. OkOr fs LostBefore (F r) va)
      → After (λ r p. Tracked (F r) va p) (m k)
  tracking {A = A} {m = m} F va t =
      after {Q = λ (r : A). OkOr fs LostBefore (F r) va} {T = λ (r : A) p. Tracked (F r) va p} (m k)
        (λ r p (o, _). ((o.0, o.1), o.2.among)) (t.run k safe)

  -- A page fault leaves consistent tables of the process consistent, if it returns at all: the resident
  -- pages have distinct sequence numbers below the next one, the bitmap is valid, and the slots of pages
  -- in the swap file are taken and differ. Every page in the swap file has a slot, but those that had
  -- none before; and the page of the address, where the fault returns -1. This holds for every address
  -- and cause, for every page table, on every failure of the disk or of memory, and when another page
  -- is evicted.
  pub handle_page_fault-TablesOk :
      (va cause : ℕ) → After (λ r p. Tracked (r ≡ false) va p) (handle_page_fault fs va cause k)
  handle_page_fault-TablesOk va cause =
      tracking (λ r. r ≡ false) va (handle_page_fault-keeps fs LostBefore va cause)

  -- A fault that a system call takes on a user address leaves consistent tables consistent, if it
  -- returns at all, and every page in the swap file keeps a slot, but the page of the address where the
  -- call gets no address. An eviction leaves them consistent too, and no page without a slot that was
  -- not so before, also where the swap file cannot be made, is full, or takes only a part of the page.
  pub kernel_fault-TablesOk :
      (pt va : ℕ) (is_write : Bool)
      → After
          (λ pa p. Tracked (pa ≡ 0) (pgrounddown va) p)
          (handle_kernel_pagefault fs pt va is_write k)
        × After (λ _ p. Tracked ⊥ va p) (evict_page_fifo fs k)
  kernel_fault-TablesOk pt va is_write = (
    tracking (λ pa. pa ≡ 0) (pgrounddown va)
        (handle_kernel_pagefault-keeps fs LostBefore pt va is_write),
    tracking (λ r. ⊥) va
        (conclude (λ r p h. none_lost LostBefore p h.0) (evict_page_fifo-keeps fs LostBefore none)),
  )
