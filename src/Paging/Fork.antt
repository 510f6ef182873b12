-- ===== src/Paging/Fork.antt =====
-- What `kfork` gives a child of its parent's paging tables.
use osn_mp2_part_a.Base.{
  ℕ, zero, suc, ◌+◌, ◌<◌, ◌≤◌, Bool, true, false, ◌&&◌, ltb, if◌then◌else◌, none, ◌≡◌, refl, sym,
  ap, ◌∙◌, arith, ◌⊎◌, inl, inr, Bool-cases, eq_or_ne, subst,
}
use osn_mp2_part_a.Paging.{
  PageInfo, PagingInfo, unmapped, resident, is_resident, fork_pages, fork_paging, fork_segments,
  init_paging_info,
}
use osn_mp2_part_a.Paging.Tables.{TablesOk, fork-TablesOk}

-- The child's record of a page, for a page of the parent that is tracked as resident or not.
abbrev pub Copied : Bool → PageInfo → PageInfo → Type 0
Copied true p c =
    (c.state ≡ resident)
    × (c.va ≡ p.va)
    × (c.from_exec ≡ p.from_exec)
    × (c.dirty ≡ false)
    × (c.swap_slot ≡ none)
Copied false p c = c.state ≡ unmapped

abbrev live : (ℕ → PageInfo) → ℕ → Bool
live f k = is_resident (f k).state

-- What `n` rounds of the loop from `j` make of `c`.
record Run (n j : ℕ) (parent : ℕ → PageInfo) (c d : PagingInfo) : Type 0 where
  outside : (k : ℕ) → (k < j) ⊎ (j + n ≤ k) → d.pages k ≡ c.pages k
  inside : (k : ℕ) → j ≤ k → k < j + n → Copied (live parent k) (parent k) (d.pages k)
  grows : c.next_fifo_seq ≤ d.next_fifo_seq
  later :
      (k : ℕ) → j ≤ k → k < j + n → live parent k ≡ true → c.next_fifo_seq ≤ (d.pages k).fifo_seq
  ordered :
      (k l : ℕ)
      → j ≤ k
      → k < l
      → l < j + n
      → live parent k ≡ true
      → live parent l ≡ true
      → (d.pages k).fifo_seq < (d.pages l).fifo_seq

module _ (n j : ℕ) (parent : ℕ → PageInfo) (c c1 d : PagingInfo)
    (others : (k : ℕ) → (k ≡ j → ⊥) → c1.pages k ≡ c.pages k)
    (entry : Copied (live parent j) (parent j) (c1.pages j))
    (number : live parent j ≡ true → (c1.pages j).fifo_seq ≡ c.next_fifo_seq)
    (next : c1.next_fifo_seq ≡ (if live parent j then c.next_fifo_seq + 1 else c.next_fifo_seq))
    (rest : Run n (j + 1) parent c1 d) where
  here : d.pages j ≡ c1.pages j
  here = rest.outside j (inl (omega arith))

  first : live parent j ≡ true → (d.pages j).fifo_seq ≡ c.next_fifo_seq
  first r = ap (λ p. p.fifo_seq) here ∙ number r

  counted : live parent j ≡ true → c1.next_fifo_seq ≡ c.next_fifo_seq + 1
  counted r = rw r at next

  more : c.next_fifo_seq ≤ c1.next_fifo_seq
  more = elim (Bool-cases (live parent j)) [
    | inl r ↦ omega (arith, counted r)
    | inr r ↦ let e : c1.next_fifo_seq ≡ c.next_fifo_seq = rw r at next in omega arith
  ]

  round : Run (suc n) j parent c d
  round = record {
    outside = λ k o.
        rest.outside k (elim o [ inl a ↦ inl (omega arith) | inr a ↦ inr (omega arith) ])
        ∙ others k (λ e. elim o [ inl a ↦ omega arith | inr a ↦ omega arith ]);
    inside = λ k a b. elim (eq_or_ne k j) [
      | inl e ↦
          subst (λ k. Copied (live parent k) (parent k) (d.pages k)) (sym e)
            (subst (λ p. Copied (live parent j) (parent j) p) (sym here) entry)
      | inr e ↦ rest.inside k (omega arith) (omega arith)
    ];
    grows = omega (arith, more, rest.grows);
    later = λ k a b r. elim (eq_or_ne k j) [
      | inl e ↦
          let f : (d.pages k).fifo_seq ≡ c.next_fifo_seq =
            ap (λ i. (d.pages i).fifo_seq) e ∙ first (ap (live parent) (sym e) ∙ r) in
          omega arith
      | inr e ↦ omega (arith, more, rest.later k (omega arith) (omega arith) r)
    ];
    ordered = λ k l a b h r s. elim (eq_or_ne k j) [
      | inl e ↦
          let q : live parent j ≡ true = ap (live parent) (sym e) ∙ r in
          let f : (d.pages k).fifo_seq ≡ c.next_fifo_seq =
            ap (λ i. (d.pages i).fifo_seq) e ∙ first q in
          omega (arith, counted q, rest.later l (omega arith) (omega arith) s)
      | inr e ↦ rest.ordered k l (omega arith) b (omega arith) r s
    ];
  }

fork_pages-Run :
    (n j : ℕ) (parent : ℕ → PageInfo) (c : PagingInfo) → Run n j parent c (fork_pages n j parent c)
unfolding fork_pages
fork_pages-Run zero j parent c = record {
  outside = λ k o. refl;
  inside = λ k a b. absurd (omega arith);
  grows = omega arith;
  later = λ k a b r. absurd (omega arith);
  ordered = λ k l a b h r s. absurd (omega arith);
}
fork_pages-Run (suc n) j parent c =
    round n j parent c _ _ (λ k e. ground (arith, e)) (ground arith) (λ r. ground (arith, r)) refl
      (fork_pages-Run n (j + 1) parent _)

fresh_unmapped : (k : ℕ) → (init_paging_info.pages k).state ≡ unmapped
unfolding init_paging_info
fresh_unmapped k = ground arith

resident-Copied : (b : Bool) (p c : PageInfo) → Copied b p c → c.state ≡ resident → b ≡ true
resident-Copied true p c h r = refl
resident-Copied false p c h r = cc (h, r)

below : (j : ℕ) (b : Bool) → (ltb j 16384 && b) ≡ true → (j < 16384) × (b ≡ true)
below j b e = ground (arith, e)

-- The child of `kfork` starts with consistent paging tables, whatever those of the parent are. A page
-- below 16384 is resident in the child exactly where it is in the parent, with the same address and
-- origin, clean and in no slot; all other pages are unmapped, also those that the parent has in its swap
-- file. The child's order of eviction is that of the addresses, not the parent's.
pub fork_paging_lem :
    (p : PagingInfo)
    → TablesOk (fork_paging p init_paging_info)
      × ((j : ℕ)
          → Copied
              (ltb j 16384 && is_resident (p.pages j).state)
              (p.pages j)
              ((fork_paging p init_paging_info).pages j))
      × ((j k : ℕ)
          → j < k
          → ((fork_paging p init_paging_info).pages j).state ≡ resident
          → ((fork_paging p init_paging_info).pages k).state ≡ resident
          → ((fork_paging p init_paging_info).pages j).fifo_seq
            < ((fork_paging p init_paging_info).pages k).fifo_seq)
unfolding fork_paging
fork_paging_lem p = (
  fork-TablesOk p,
  entry,
  λ j k a r s.
      let (h, l) = of_resident j r in
      let (i, m) = of_resident k s in run.ordered j k (omega arith) a (omega arith) l m,
)
  where
    run : Run 16384 0 p.pages (fork_segments p init_paging_info) (fork_paging p init_paging_info)
    run = fork_pages-Run 16384 0 p.pages (fork_segments p init_paging_info)

    entry :
        (j : ℕ)
        → Copied
            (ltb j 16384 && is_resident (p.pages j).state)
            (p.pages j)
            ((fork_paging p init_paging_info).pages j)
    entry j = elim (Bool-cases (ltb j 16384)) [
      | inl e ↦ rw e (run.inside j (omega arith) (ground (arith, e)))
      | inr e ↦
          rw e (ap (λ q. q.state) (run.outside j (inr (ground (arith, e)))) ∙ fresh_unmapped j)
    ]

    of_resident :
        (j : ℕ)
        → ((fork_paging p init_paging_info).pages j).state ≡ resident
        → (j < 16384) × (live p.pages j ≡ true)
    of_resident j r =
        below j (live p.pages j)
          (resident-Copied (ltb j 16384 && is_resident (p.pages j).state) _ _ (entry j) r)
