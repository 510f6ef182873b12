-- ===== src/Paging/Swap/Keeps.antt =====
-- The paging tables stay consistent through every swap operation, whatever the file system and the
-- page table do, and on the failures too.
use osn_mp2_part_a.Base.{
  ℕ, ◌*◌, true, false, not, ◌&&◌, Option, none, some, ◌≡◌, refl, sym, ap, inl, inr, ◌∙◌, arith,
  ◌==◌,
}
use osn_mp2_part_a.Base.Result.{pure, null_pointer, ◌>>=◌}
use osn_mp2_part_a.Vm.{is_v}
use osn_mp2_part_a.Riscv.{pgsize, pgrounddown}
use osn_mp2_part_a.Paging.{
  PagingInfo, PageInfo, PageState, resident, swapped, put_page, get_page_info, is_resident,
  is_swapped, find_victim, max_tracked_pages,
}
use osn_mp2_part_a.Paging.Slots.{SwapMap}
use osn_mp2_part_a.Paging.Slots.Alloc.{Allocated, alloc_swap_slot_lem}
use osn_mp2_part_a.Paging.Tables.{
  Owns, Spare, SeqOk, SlotsOk, Within, Within-mono, WithLost, put-Within, put_lost-Within,
  put_found-Within, put-SeqOk, put_next-SeqOk, put_same-SeqOk, put-SlotsOk, put_slot-SlotsOk,
  alloc-SlotsOk, free_slot-SlotsOk, forget-SlotsOk,
}
use osn_mp2_part_a.Paging.Kernel.{FileSystem, Proc, set_paging, get_proc, set_proc}
use osn_mp2_part_a.Paging.Kernel.Triple.{
  Triple, bind, returns, same, lifted, called, acted, got, changes, branches, weaken, seen, cases,
  keeps, fails,
}
use osn_mp2_part_a.Paging.Swap.{
  attach_swap_file, swap_inode, create_swap_file, discard, write_page, store_page, swap_to,
  take_slot, kill, swap_dirty, swapout_entry, swapout_page, evict_page_fifo, kalloc_or_evict,
  read_page, map_swapped, swapin_slot, swapin_entry, swapin_page, give_back,
}

-- A page that is in a slot, to be followed through a computation.
abbrev pub Kept : Option (ℕ × ℕ) → (ℕ → PageInfo) → Type 0
Kept none pages = Unit
Kept (some (i, s)) pages = Owns pages i s

-- The tables are consistent, and no page is lost but those of `L`.
abbrev pub TablesBut : (ℕ → Type 0) → PagingInfo → Type 0
TablesBut L p = SeqOk p.pages p.next_fifo_seq × SlotsOk p.swap p.pages × Within L p.pages

abbrev pub Safe : (ℕ → Type 0) → Option (ℕ × ℕ) → Proc → Type 0
Safe L o p = TablesBut L p.paging × Kept o p.paging.pages

-- The page `i` is resident.
abbrev SafeAt : (ℕ → Type 0) → Option (ℕ × ℕ) → ℕ → Proc → Type 0
SafeAt L o i p =
    TablesBut L p.paging × Kept o p.paging.pages × ((p.paging.pages i).state ≡ resident)

-- A slot has been taken for the resident page `i`.
abbrev Moving : (ℕ → Type 0) → Option (ℕ × ℕ) → ℕ → ℕ → Proc → Type 0
Moving L o i s p =
    TablesBut L p.paging
    × Kept o p.paging.pages
    × ((p.paging.pages i).state ≡ resident)
    × Spare p.paging.swap p.paging.pages s

-- A change of a resident page does not touch the page that is followed.
Kept-put :
    (o : Option (ℕ × ℕ)) (pages : ℕ → PageInfo) (i : ℕ) (v : PageInfo)
    → (pages i).state ≡ resident
    → Kept o pages
    → Kept o (put_page pages i v)
Kept-put none pages i v r k = tt
Kept-put (some (j, s)) pages i v r k = ground arith

module _ (fs : FileSystem) where
  swap_inode-keeps : {R : Proc → Type 0} → Triple R (swap_inode fs) (λ _. R)
  unfolding swap_inode
  swap_inode-keeps =
      bind seen λ p. cases p.paging.swapfile (λ _. fails null_pointer) (λ ip _. same ip)

  write_page-keeps : {R : Proc → Type 0} (slot pa : ℕ) → Triple R (write_page fs slot pa) (λ _. R)
  unfolding write_page
  write_page-keeps slot pa = bind (acted _) λ _. bind swap_inode-keeps λ ip. bind (acted _) λ _.
      bind (lifted _) λ _.
        bind (called _)
          λ n. bind (acted _) λ _. bind (acted _) λ _. cases n (λ _. same false) (λ c _. same _)

  read_page-keeps : {R : Proc → Type 0} (slot mem : ℕ) → Triple R (read_page fs slot mem) (λ _. R)
  unfolding read_page
  read_page-keeps slot mem = bind (acted _) λ _. bind swap_inode-keeps λ ip. bind (acted _) λ _.
      bind (called _) λ bytes. bind (lifted _) λ _. bind (acted _) λ _. bind (acted _) λ _. same _

module _ (fs : FileSystem) (L : ℕ → Type 0) (o : Option (ℕ × ℕ)) (i : ℕ) where
  attach_swap_file-keeps :
      (ip : ℕ) → Triple (SafeAt L o i) (attach_swap_file fs ip) (λ _. SafeAt L o i)
  unfolding attach_swap_file
  attach_swap_file-keeps ip = bind (acted _) λ _. bind (called _) λ found.
      branches found (λ _. bind (keeps _ (λ q h. h)) λ _. bind (acted _) λ _. same true)
        (λ _. bind (acted _) λ _. bind (acted _) λ _.
          bind (acted _)
            λ _. bind (acted _) λ _. bind (acted _) λ _. bind (acted _) λ _. same false)

  create_swap_file-keeps : Triple (SafeAt L o i) (create_swap_file fs) (λ _. SafeAt L o i)
  unfolding create_swap_file
  create_swap_file-keeps = bind seen λ p.
      cases p.paging.swapfile
        (λ _. bind (keeps _ (λ q h. h)) λ _. bind (acted _) λ _. bind (called _) λ made.
          cases made (λ _. bind (acted _) λ _. same false) (λ ip _. attach_swap_file-keeps ip))
        (λ ip _. same true)

  discard-keeps : (va : ℕ) → Triple (SafeAt L o i) (discard fs va i) (λ _. Safe L o)
  unfolding discard
  discard-keeps va =
      bind
        (changes {Q = λ _. Safe L o} _ λ q (t, k, r). (
          (
            put-SeqOk i _ (λ e. cc) t.0,
            put-SlotsOk i _ (λ s w. cc) t.1,
            put-Within i _ (λ e. cc) t.2,
          ),
          Kept-put o _ i _ r k,
        ))
        λ _. bind seen λ p. bind (lifted _) λ pte.
          branches (pte == 0) (λ _. same true)
            λ _. bind (lifted _) λ v.
              branches (is_v v) (λ _. bind (lifted _) λ _. bind (lifted _) λ _. same true)
                (λ _. same true)

  -- A slot that was taken for a page goes back.
  give_back-keeps :
      (s : ℕ) → Triple (Moving L o i s) (set_paging {S = fs.State} (give_back s)) (λ _. Safe L o)
  give_back-keeps s = changes _ λ q (t, k, r, free). ((t.0, free_slot-SlotsOk s free t.1, t.2), k)

  store_page-keeps :
      (s pte pa : ℕ) → Triple (Moving L o i s) (store_page fs i s pte pa) (λ _. Safe L o)
  unfolding store_page
  store_page-keeps s pte pa = bind (write_page-keeps fs s pa) λ written.
      branches written
        (λ _.
          bind
            (changes {Q = λ _. Safe L o} _ λ q (t, k, r, free). (
              (
                put-SeqOk i _ (λ e. cc) t.0,
                put_slot-SlotsOk i _ s refl free t.1,
                put-Within i _ (λ e. cc) t.2,
              ),
              Kept-put o _ i _ r k,
            ))
            λ _. bind (lifted _) λ _. bind (lifted _) λ _. same true)
        (λ _. bind (give_back-keeps s) λ _. same false)

  swap_to-keeps : (va s : ℕ) → Triple (Moving L o i s) (swap_to fs va i s) (λ _. Safe L o)
  unfolding swap_to
  swap_to-keeps va s = bind seen λ p. bind (lifted _) λ pte.
      bind {Q = λ _. Moving L o i s} (branches (pte == 0) (λ _. same 0) (λ _. lifted _)) λ v.
        branches (is_v v) (λ _. store_page-keeps s pte _)
          (λ _. bind (give_back-keeps s) λ _. same false)

  kill-keeps : Triple (SafeAt L o i) (kill fs) (λ _. Safe L o)
  unfolding kill
  kill-keeps = bind (changes {Q = λ _. Safe L o} _ λ q (t, k, r). (t, k)) λ _. same false

  -- After the call of `alloc_swap_slot` for the page `i`.
  abbrev Took : Option ℕ → Proc → Type 0
  Took none p = SafeAt L o i p
  Took (some s) p = Moving L o i s p

  Took-Allocated :
      (p : Proc) (r : Option ℕ × SwapMap)
      → SafeAt L o i p
      → Allocated p.paging.swap r
      → Took r.0 (record p { paging = record (p.paging) { swap = r.1 } })
  Took-Allocated p (none, m) (t, k, r) a = ((t.0, rw (a.0) (t.1), t.2), k, r)
  Took-Allocated p (some s, m) (t, k, r) a =
      let (slots, free) = alloc-SlotsOk (some s, m) s a refl t.1 in ((t.0, slots, t.2), k, r, free)

  take_slot-keeps : Triple (SafeAt L o i) (take_slot fs) Took
  unfolding take_slot ◌>>=◌ get_proc set_proc pure
  take_slot-keeps = record {
    run = λ k h. Took-Allocated k.proc _ h (alloc_swap_slot_lem h.0.1.bitmap);
  }

  swap_dirty-keeps : (va : ℕ) → Triple (SafeAt L o i) (swap_dirty fs va i) (λ _. Safe L o)
  unfolding swap_dirty
  swap_dirty-keeps va = bind create_swap_file-keeps λ opened.
      branches (not opened) (λ _. kill-keeps)
        λ _. bind take_slot-keeps λ r.
          cases r (λ e. weaken (λ p h. rw e at h) kill-keeps)
            (λ s e. weaken (λ p h. rw e at h) (swap_to-keeps va s))

  swapout_entry-keeps :
      (va : ℕ) (pi : PageInfo)
      → Triple
          (λ p. (pi ≡ p.paging.pages i) × Safe L o p)
          (swapout_entry fs va i pi)
          (λ _. Safe L o)
  unfolding swapout_entry
  swapout_entry-keeps va pi =
      branches (not (is_resident pi.state)) (λ _. returns false (λ p h. h.1))
        λ live.
          branches (not pi.dirty && pi.from_exec) (λ _. weaken (at_page live) (discard-keeps va))
            (λ _. weaken (at_page live) (swap_dirty-keeps va))
    where
      at_page :
          not (is_resident pi.state) ≡ false
          → (p : Proc) → (pi ≡ p.paging.pages i) × Safe L o p
          → SafeAt L o i p
      at_page live p (e, (t, k)) = (t, k, ap (λ v. v.state) (sym e) ∙ state_of pi.state live)
        where
          state_of : (st : PageState) → not (is_resident st) ≡ false → st ≡ resident
          state_of st e = ground arith

module _ (fs : FileSystem) (L : ℕ → Type 0) (o : Option (ℕ × ℕ)) where
  -- `swapout_page` keeps the tables consistent.
  pub swapout_page-keeps : (va : ℕ) → Triple (Safe L o) (swapout_page fs va) (λ _. Safe L o)
  unfolding swapout_page
  swapout_page-keeps va = bind got λ p.
      cases (get_page_info (pgrounddown va)) (λ _. returns false (λ q h. h.1))
        λ i _.
          weaken (λ q (e, h). (ap (λ r. r.paging.pages i) e, h))
            (swapout_entry-keeps fs L o i _ (p.paging.pages i))

  pub evict_page_fifo-keeps : Triple (Safe L o) (evict_page_fifo fs) (λ _. Safe L o)
  unfolding evict_page_fifo
  evict_page_fifo-keeps = bind seen λ p.
      cases (find_victim max_tracked_pages 0 p.paging.pages none 0x7FFFFFFF) (λ _. same false)
        (λ i _. swapout_page-keeps (i * pgsize))

  pub kalloc_or_evict-keeps : Triple (Safe L o) (kalloc_or_evict fs) (λ _. Safe L o)
  unfolding kalloc_or_evict
  kalloc_or_evict-keeps = bind (lifted _) λ mem.
      branches (not (mem == 0)) (λ _. same mem)
        λ _. bind evict_page_fifo-keeps λ evicted. branches evicted (λ _. lifted _) (λ _. same 0)

module _ (L : ℕ → Type 0) where
  -- No page is lost after all, or the page `o` where `F` holds.
  abbrev pub SafeOr : Type 0 → Option ℕ → Proc → Type 0
  SafeOr F o = Safe (WithLost L F o) none

  pub none_lost : {F : Type 0} {o : Option ℕ} (p : Proc) → TablesBut L p.paging → SafeOr F o p
  none_lost p t = ((t.0, t.1, Within-mono (λ i l. inl l) t.2), tt)

module _ (fs : FileSystem) (L : ℕ → Type 0) where
  map_swapped-keeps :
      (va i s mem : ℕ)
      → Triple
          (Safe L (some (i, s)))
          (map_swapped fs va i s mem)
          (λ r. SafeOr L (r ≡ false) (some i))
  unfolding map_swapped
  map_swapped-keeps va i s mem =
      bind
        (changes {Q = λ _. SafeOr L Unit (some i)} _ λ q (t, w). (
          (
            put_same-SeqOk i _ refl refl t.0,
            forget-SlotsOk i s _ w refl t.1,
            put_lost-Within i _ t.2,
          ),
          tt,
        ))
        λ _. bind seen λ p. bind (lifted _) λ mapped.
          branches mapped
            (λ _.
              bind
                (changes {Q = λ _. Safe L none} _ λ q (t, _). (
                  (
                    put_next-SeqOk i _ refl t.0,
                    put-SlotsOk i _ (λ s w. cc) t.1,
                    put_found-Within i _ (λ e. cc) t.2,
                  ),
                  tt,
                ))
                λ _. returns true (λ p h. none_lost L p h.0))
            (λ _.
              bind (lifted _)
                λ _. returns false (λ p (t, _). ((t.0, t.1, Within-mono now t.2), tt)))
    where
      now : (j : ℕ) → WithLost L Unit (some i) j → WithLost L (false ≡ false) (some i) j
      now j (inl l) = inl l
      now j (inr (_, e)) = inr (refl, e)

  swapin_slot-keeps :
      (va i s : ℕ)
      → Triple (Safe L (some (i, s))) (swapin_slot fs va i s) (λ r. SafeOr L (r ≡ false) (some i))
  unfolding swapin_slot
  swapin_slot-keeps va i s = bind (kalloc_or_evict-keeps fs L (some (i, s))) λ mem.
      branches (mem == 0) (λ _. returns false (λ p h. none_lost L p h.0))
        λ _. bind (read_page-keeps fs s mem) λ whole.
          branches whole (λ _. map_swapped-keeps va i s mem)
            (λ _. bind (lifted _) λ _. returns false (λ p h. none_lost L p h.0))

  swapin_entry-keeps :
      (va i : ℕ) (pi : PageInfo)
      → Triple
          (λ p. (pi ≡ p.paging.pages i) × Safe L none p)
          (swapin_entry fs va i pi)
          (λ r. SafeOr L (r ≡ false) (some i))
  unfolding swapin_entry
  swapin_entry-keeps va i pi =
      branches (not (is_swapped pi.state)) (λ _. returns false (λ p h. none_lost L p h.1.0))
        λ out.
          cases pi.swap_slot (λ _. returns false (λ p h. none_lost L p h.1.0))
            λ s at_s.
              weaken
                (λ p (e, (t, _)). (
                  t,
                  (
                    ap (λ v. v.state) (sym e) ∙ state_of pi.state out,
                    ap (λ v. v.swap_slot) (sym e) ∙ at_s,
                  ),
                ))
                (swapin_slot-keeps va i s)
    where
      state_of : (st : PageState) → not (is_swapped st) ≡ false → st ≡ swapped
      state_of st e = ground arith

  -- `swapin_page` keeps the tables consistent; the page is lost only where it fails.
  pub swapin_page-keeps :
      (va : ℕ)
      → Triple
          (Safe L none)
          (swapin_page fs va)
          (λ r. SafeOr L (r ≡ false) (get_page_info (pgrounddown va)))
  unfolding swapin_page
  swapin_page-keeps va = bind got λ p. at (get_page_info (pgrounddown va)) p
    where
      at :
          (o : Option ℕ) (p : Proc)
          → Triple {S = fs.State}
              (λ q. (p ≡ q) × Safe L none q)
              (elim o [
                | none ↦ pure false
                | some i ↦ swapin_entry fs (pgrounddown va) i (p.paging.pages i)
              ])
              (λ r. SafeOr L (r ≡ false) o)
      at none p = returns false (λ q h. none_lost L q h.1.0)
      at (some i) p =
          weaken (λ q (e, h). (ap (λ r. r.paging.pages i) e, h))
            (swapin_entry-keeps (pgrounddown va) i (p.paging.pages i))
