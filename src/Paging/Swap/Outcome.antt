-- ===== src/Paging/Swap/Outcome.antt =====
-- What `swapout_page` does to the page and to the slots.
use osn_mp2_part_a.Base.{
  ℕ, ◌<◌, Bool, true, false, not, ◌&&◌, ◌*◌, List, Option, none, some, ◌≡◌, ◌⊎◌,
}
use osn_mp2_part_a.Base.Result.{◌>>◌}
use osn_mp2_part_a.Riscv.{pgsize}
use osn_mp2_part_a.Paging.{PageInfo, PagingInfo, unmapped, resident, swapped, put_page}
use osn_mp2_part_a.Paging.Slots.{slot_used, max_swap_pages}
use osn_mp2_part_a.Paging.Slots.Laws.{IsValid}
use osn_mp2_part_a.Paging.Slots.Alloc.{Allocated}
use osn_mp2_part_a.Paging.Kernel.{FileSystem, Kernel, Proc}
use osn_mp2_part_a.Paging.Kernel.Triple.{Triple}

-- The records of the pages, the slots and the next number of a process, before a call.
module _ (p0 : PagingInfo) where
  abbrev pub Before : PagingInfo → Type 0
  Before p = (p.pages ≡ p0.pages) × (p.swap ≡ p0.swap) × (p.next_fifo_seq ≡ p0.next_fifo_seq)

  -- The same, where a slot may have been taken and given back.
  abbrev pub Same : PagingInfo → Type 0
  Same p =
      (p.pages ≡ p0.pages)
      × ((j : ℕ)
          → j < max_swap_pages
          → slot_used p.swap.swap_bitmap j ≡ slot_used p0.swap.swap_bitmap j)
      × (p.next_fifo_seq ≡ p0.next_fifo_seq)

  abbrev Taken : ℕ → PagingInfo → Type 0
  Taken s p =
      (p.pages ≡ p0.pages)
      × Allocated p0.swap (some s, p.swap)
      × (p.next_fifo_seq ≡ p0.next_fifo_seq)

  -- The record of page `i` is `v`, and no other has changed.
  abbrev pub Changed : ℕ → PageInfo → PagingInfo → Type 0
  Changed i v p = (p.pages ≡ put_page p0.pages i v) × (p.next_fifo_seq ≡ p0.next_fifo_seq)

  abbrev pub clean : ℕ → Bool
  clean i = not (p0.pages i).dirty && (p0.pages i).from_exec

-- `writei` has taken a whole page for the slot, at its offset in bytes.
abbrev pub WroteWhole : FileSystem → ℕ → Type 0
WroteWhole fs s =
    (ip : ℕ) × (bytes : List ℕ) × (t : fs.State) × ((fs.writei ip (s * pgsize) bytes t).0
      ≡ some pgsize)

module _ (fs : FileSystem) (p0 : PagingInfo) where
  -- The resident page `i` is swapped out: a clean page of the program is unmapped, and the slots are as
  -- before; any other is in the lowest slot that was free, which is taken.
  abbrev pub Out : ℕ → PagingInfo → Type 0
  Out i p =
      ((clean p0 i ≡ true)
        × Changed p0 i (record (p0.pages i) { state = unmapped }) p
        × (p.swap ≡ p0.swap))
      ⊎ ((clean p0 i ≡ false)
          × (s : ℕ) × Changed p0 i
              (record (p0.pages i) { state = swapped; swap_slot = some s; from_exec = false }) p
          × Allocated p0.swap (some s, p.swap)
          × WroteWhole fs s)

  abbrev pub Outcome : Option ℕ → Bool → Proc → Type 0
  Outcome o true p = (i : ℕ) × (o ≡ some i) × ((p0.pages i).state ≡ resident) × Out i p.paging
  Outcome o false p = Same p0 p.paging

module _ (fs : FileSystem) (p0 : PagingInfo) (valid : IsValid p0.swap) where
  -- After the call of `alloc_swap_slot`.
  abbrev Took : Option ℕ → Proc → Type 0
  Took none p = Before p0 p.paging
  Took (some s) p = Taken p0 s p.paging
