-- ===== src/Paging/Tables.antt =====
-- The invariant of a process's paging tables, and the changes that keep it.
use osn_mp2_part_a.Base.{
  ℕ, zero, suc, ◌+◌, ◌<◌, Bool, true, ◌||◌, ◌==◌, Option, none, some, ◌≡◌, refl, sym, ◌∙◌, arith,
  ◌≢◌, Bool-cases, inl, inr, eq_or_ne, subst, ==_ne, ==_refl, false≢true, ==_iff, ap, ◌⊎◌,
}
use osn_mp2_part_a.Paging.{
  PageInfo, PagingInfo, resident, swapped, put_page, is_resident, fork_entry, fork_pages,
  fork_paging, init_paging_info,
}
use osn_mp2_part_a.Paging.Slots.{SwapMap, slot_used, free_swap_slot, max_swap_pages}
use osn_mp2_part_a.Paging.Slots.Laws.{IsValid, empty-IsValid}
use osn_mp2_part_a.Paging.Slots.Alloc.{Allocated, free_swap_slot-IsValid, slot_used-free_swap_slot}

-- Page `i` is in the swap file, in slot `s`.
abbrev pub Owns : (ℕ → PageInfo) → ℕ → ℕ → Type 0
Owns pages i s = ((pages i).state ≡ swapped) × ((pages i).swap_slot ≡ some s)

-- The slot is taken and no page is in it.
abbrev pub Spare : SwapMap → (ℕ → PageInfo) → ℕ → Type 0
Spare m pages s =
    (s < max_swap_pages) × (slot_used m.swap_bitmap s ≡ true) × ((i : ℕ) → ¬ (Owns pages i s))

-- The order of the resident pages: their numbers are distinct and below the next one.
pub record SeqOk (pages : ℕ → PageInfo) (next : ℕ) : Type 0 where
  pub seq_below : (i : ℕ) → (pages i).state ≡ resident → (pages i).fifo_seq < next
  pub seq_distinct :
      (i j : ℕ)
      → (pages i).state ≡ resident
      → (pages j).state ≡ resident
      → (pages i).fifo_seq ≡ (pages j).fifo_seq
      → i ≡ j

-- The swap file: the page in a slot keeps the slot taken, and no two pages are in one slot.
pub record SlotsOk (m : SwapMap) (pages : ℕ → PageInfo) : Type 0 where
  pub bitmap : IsValid m
  pub taken : (i s : ℕ) → Owns pages i s → (s < max_swap_pages) × (slot_used m.swap_bitmap s ≡ true)
  pub apart : (i j s : ℕ) → Owns pages i s → Owns pages j s → i ≡ j

abbrev pub TablesOk : PagingInfo → Type 0
TablesOk p = SeqOk p.pages p.next_fifo_seq × SlotsOk p.swap p.pages

-- Page `i` is in the swap file, but in no slot: what was in it is lost.
abbrev pub Stray : (ℕ → PageInfo) → ℕ → Type 0
Stray pages i = ((pages i).state ≡ swapped) × ((pages i).swap_slot ≡ none)

-- No other page than those of `L` is lost.
pub record Within (L : ℕ → Type 0) (pages : ℕ → PageInfo) : Type 0 where
  pub among : (i : ℕ) → Stray pages i → L i

pub Within-mono :
    {L M : ℕ → Type 0} {pages : ℕ → PageInfo}
    → ((i : ℕ) → L i → M i)
    → Within L pages
    → Within M pages
Within-mono h o = record { among = λ i e. h i (o.among i e) }

-- The pages of `L`, and page `o` where `F` holds.
abbrev pub WithLost : (ℕ → Type 0) → Type 0 → Option ℕ → ℕ → Type 0
WithLost L F o i = L i ⊎ (F × (o ≡ some i))

module _ {L : ℕ → Type 0} {pages : ℕ → PageInfo} (i : ℕ) (v : PageInfo) where
  -- A page that is not lost itself.
  pub put-Within : ¬ (Stray (λ j. v) i) → Within L pages → Within L (put_page pages i v)
  put-Within h o = record {
    among = λ j e. elim (Bool-cases (i == j)) [
      | inl q ↦ absurd (h (rw q at e))
      | inr q ↦ o.among j (rw q at e)
    ];
  }

  -- A page that may be lost.
  pub put_lost-Within :
      Within L pages → Within (WithLost L (Unit {0}) (some i)) (put_page pages i v)
  put_lost-Within o = record {
    among = λ j e. elim (Bool-cases (i == j)) [
      | inl q ↦ inr (tt, ap some ((==_iff i j).0 q))
      | inr q ↦ inl (o.among j (rw q at e))
    ];
  }

  -- A page that is not lost any more.
  pub put_found-Within :
      ¬ (Stray (λ j. v) i)
      → Within (WithLost L (Unit {0}) (some i)) pages
      → Within L (put_page pages i v)
  put_found-Within h o = record {
    among = λ j e. elim (Bool-cases (i == j)) [
      | inl q ↦ absurd (h (rw q at e))
      | inr q ↦ elim (o.among j (rw q at e)) [
        | inl l ↦ l
        | inr (_, r) ↦ absurd (false≢true (sym q ∙ (==_iff i j).1 (some_eq r)))
      ]
    ];
  }
    where
      some_eq : {a b : ℕ} → some a ≡ some b → a ≡ b
      some_eq r = cc

module _ {pages : ℕ → PageInfo} {next : ℕ} (i : ℕ) (v : PageInfo) where
  -- A page that is not resident has no place in the order.
  pub put-SeqOk : v.state ≢ resident → SeqOk pages next → SeqOk (put_page pages i v) next
  put-SeqOk h o = record {
    seq_below = λ j r. ground (arith, o.seq_below j);
    seq_distinct = λ j k r s e. ground (arith, o.seq_distinct j k);
  }

  -- A page that becomes resident takes the next number.
  pub put_next-SeqOk : v.fifo_seq ≡ next → SeqOk pages next → SeqOk (put_page pages i v) (next + 1)
  put_next-SeqOk h o = record {
    seq_below = λ j r. ground (arith, o.seq_below j);
    seq_distinct = λ j k r s e. ground (arith, o.seq_distinct j k, o.seq_below j, o.seq_below k);
  }

  -- A page that keeps its state and number.
  pub put_same-SeqOk :
      v.state ≡ (pages i).state
      → v.fifo_seq ≡ (pages i).fifo_seq
      → SeqOk pages next
      → SeqOk (put_page pages i v) next
  put_same-SeqOk h e o = record {
    seq_below = λ j r. omega (arith, o.seq_below j (sym (states j) ∙ r), numbers j);
    seq_distinct = λ j k r s q.
        o.seq_distinct j k (sym (states j) ∙ r) (sym (states k) ∙ s)
          (sym (numbers j) ∙ q ∙ numbers k);
  }
    where
      states : (j : ℕ) → (put_page pages i v j).state ≡ (pages j).state
      states j = ground arith

      numbers : (j : ℕ) → (put_page pages i v j).fifo_seq ≡ (pages j).fifo_seq
      numbers j = ground arith

module _ {pages : ℕ → PageInfo} {m : SwapMap} (i : ℕ) (v : PageInfo) where
  -- A page that is in no slot leaves the slots as they are.
  pub put-SlotsOk :
      ((s : ℕ) → ¬ (Owns (λ j. v) i s)) → SlotsOk m pages → SlotsOk m (put_page pages i v)
  put-SlotsOk h o = record {
    bitmap = o.bitmap;
    taken = λ j s w. ground (arith, h s, o.taken j s);
    apart = λ j k s w x. ground (arith, h s, o.apart j k s);
  }

  -- A page that goes into a spare slot.
  pub put_slot-SlotsOk :
      (s : ℕ)
      → v.swap_slot ≡ some s
      → Spare m pages s
      → SlotsOk m pages
      → SlotsOk m (put_page pages i v)
  put_slot-SlotsOk s e (h, u, free) o = record {
    bitmap = o.bitmap;
    taken = λ j t w. ground (arith, o.taken j t);
    apart = λ j k t w x. ground (arith, o.apart j k t, free j, free k);
  }

module _ {pages : ℕ → PageInfo} {m : SwapMap} where
  -- A slot that `alloc_swap_slot` has just returned is spare.
  pub alloc-SlotsOk :
      (r : Option ℕ × SwapMap) (s : ℕ)
      → Allocated m r
      → r.0 ≡ some s
      → SlotsOk m pages
      → SlotsOk r.1 pages × Spare r.1 pages s
  alloc-SlotsOk (none, m') s a e o = cc
  alloc-SlotsOk (some t, m') s (small, free, _, now, _, valid) e o =
      subst (λ k. SlotsOk m' pages × Spare m' pages k) (let q : t ≡ s = cc in q)
        (
          record {
            bitmap = valid;
            taken = λ i s w. let (l, u) = o.taken i s w in (l, rw (now s, u) (or_true (t == s)));
            apart = o.apart;
          },
          (small, rw (now t, ==_refl t), λ i w. false≢true (sym free ∙ (o.taken i t w).1)),
        )
    where
      or_true : (b : Bool) → (b || true) ≡ true
      or_true b = ground arith

  -- A spare slot can be freed.
  pub free_slot-SlotsOk :
      (s : ℕ) → Spare m pages s → SlotsOk m pages → SlotsOk (free_swap_slot m s) pages
  free_slot-SlotsOk s (h, u, free) o = record {
    bitmap = free_swap_slot-IsValid o.bitmap s;
    taken = λ i t w.
        let (l, taken) = o.taken i t w in
        elim (eq_or_ne s t) [
          | inl e ↦ absurd (free i (rw e w))
          | inr ne ↦ (l, rw (slot_used-free_swap_slot o.bitmap s t l, ==_ne s t ne) taken)
        ];
    apart = o.apart;
  }

-- So can the slot of a page that forgets it.
pub forget-SlotsOk :
    {pages : ℕ → PageInfo} {m : SwapMap} (i s : ℕ) (v : PageInfo)
    → Owns pages i s
    → v.swap_slot ≡ none
    → SlotsOk m pages
    → SlotsOk (free_swap_slot m s) (put_page pages i v)
forget-SlotsOk i s v w e o =
    free_slot-SlotsOk s ((o.taken i s w).0, (o.taken i s w).1, λ j x. ground (arith, o.apart i j s))
      (put-SlotsOk i v (λ t x. cc) o)

-- The tables of a new process.
pub init-TablesOk : TablesOk init_paging_info
unfolding init_paging_info
init-TablesOk = (
  record { seq_below = λ i r. ground arith; seq_distinct = λ i j r s e. ground arith },
  record {
    bitmap = empty-IsValid;
    taken = λ i s w. ground arith;
    apart = λ i j s w x. ground arith;
  },
)

fork_pages-TablesOk :
    (n j : ℕ) (parent : ℕ → PageInfo) (c : PagingInfo)
    → TablesOk c
    → TablesOk (fork_pages n j parent c)
unfolding fork_pages
fork_pages-TablesOk zero j parent c o = o
fork_pages-TablesOk (suc n) j parent c (seqs, slots) =
    let entry : PageInfo = fork_entry (parent j) (c.pages j) c.next_fifo_seq in
    fork_pages-TablesOk n (j + 1) parent _ (
      elim (Bool-cases (is_resident (parent j).state)) [
        | inl r ↦ rw r (put_next-SeqOk j _ refl seqs)
        | inr r ↦ rw r (put-SeqOk j _ (λ e. cc) seqs)
      ],
      put-SlotsOk j entry (λ s w. ground arith) slots,
    )

-- Whatever its parent's tables hold, a forked process starts with consistent tables of its own.
pub fork-TablesOk : (p : PagingInfo) → TablesOk (fork_paging p init_paging_info)
unfolding fork_paging
fork-TablesOk p = fork_pages-TablesOk 16384 0 p.pages _ init-TablesOk
