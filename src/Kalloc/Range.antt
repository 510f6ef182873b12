-- ===== src/Kalloc/Range.antt =====
-- `freerange` and `kinit`: which pages the allocator starts with.
use osn_mp2_part_a.Base.{
  ℕ, zero, suc, ◌+◌, ◌*◌, ◌%◌, leb, List, [], ◌∷◌, ◌≡◌, refl, arith, ◌≤◌, ◌<◌, ◌≢◌, inl, inr, ◌⊎◌,
  ◌↔◌, Bool-cases, eq_or_ne, ◌∙◌,
}
use osn_mp2_part_a.Base.Result.{ok, >>=-ok}
use osn_mp2_part_a.Riscv.{pgsize, phystop, pgroundup}
use osn_mp2_part_a.Kalloc.{Machine, kfree, push_page, free_pages, kinit}
use osn_mp2_part_a.Kalloc.FreeList.{FreeList, Fresh, kfree_lem}

abbrev pub Elem : ℕ → List ℕ → Type 0
Elem a [] = ⊥
Elem a (x ∷ xs) = (a ≡ x) ⊎ Elem a xs

Fresh-Elem : (p : ℕ) (xs : List ℕ) → ((q : ℕ) → Elem q xs → p ≢ q) → Fresh p xs
Fresh-Elem p [] h = tt
Fresh-Elem p (x ∷ xs) h = (h x (inl refl), Fresh-Elem p xs (λ q m. h q (inr m)))

-- The pages that lie whole between two addresses.
abbrev pub PageIn : ℕ → ℕ → ℕ → Type 0
PageIn p pa_end q = (q % pgsize ≡ 0) × (p ≤ q) × (q + pgsize ≤ pa_end)

-- The free list holds `xs` and the pages between the addresses, and nothing else.
abbrev pub Holds : Machine → List ℕ → ℕ → ℕ → Machine → Type 0
Holds k xs p pa_end k' =
    (ys : List ℕ) × FreeList k' ys
    × (k'.kernel_end ≡ k.kernel_end)
    × ((q : ℕ) → Elem q ys ↔ (Elem q xs ⊎ PageIn p pa_end q))

Holds-none :
    (k : Machine) (xs : List ℕ) (p pa_end : ℕ)
    → FreeList k xs
    → pa_end < p + pgsize
    → Holds k xs p pa_end k
Holds-none k xs p pa_end v h = (xs, v, refl, λ q. (λ e. inl e, back q))
  where
    back : (q : ℕ) → Elem q xs ⊎ PageIn p pa_end q → Elem q xs
    back q (inl e) = e
    back q (inr i) = absurd (omega arith)

Holds-step :
    (k : Machine) (xs : List ℕ) (p pa_end : ℕ) (k' : Machine)
    → p % pgsize ≡ 0
    → p + pgsize ≤ pa_end
    → Holds (push_page k p) (p ∷ xs) (p + pgsize) pa_end k'
    → Holds k xs p pa_end k'
Holds-step k xs p pa_end k' a h (ys, v, e, iff) =
    (ys, v, e, λ q. (λ m. forth q ((iff q).0 m), λ m. (iff q).1 (back q m)))
  where
    forth : (q : ℕ) → Elem q (p ∷ xs) ⊎ PageIn (p + pgsize) pa_end q → Elem q xs ⊎ PageIn p pa_end q
    forth q (inl (inl e)) = inr (omega arith)
    forth q (inl (inr m)) = inl m
    forth q (inr i) = inr (omega arith)

    back : (q : ℕ) → Elem q xs ⊎ PageIn p pa_end q → Elem q (p ∷ xs) ⊎ PageIn (p + pgsize) pa_end q
    back q (inl m) = inl (inr m)
    back q (inr i) = elim (eq_or_ne q p) [ inl e ↦ inl (inl e) | inr ne ↦ inr (omega arith) ]

free_pages_lem :
    (n p pa_end : ℕ) (k : Machine) (xs : List ℕ)
    → p % pgsize ≡ 0
    → k.kernel_end ≤ p
    → pa_end ≤ phystop
    → pa_end < p + n * pgsize
    → ((q : ℕ) → Elem q xs → q < p)
    → FreeList k xs
    → (k' : Machine) × (free_pages n p pa_end k ≡ ok (tt, k')) × Holds k xs p pa_end k'
unfolding free_pages
free_pages_lem zero p pa_end k xs a l t f b v = (k, refl, Holds-none k xs p pa_end v (omega arith))
free_pages_lem (suc n) p pa_end k xs a l t f b v = elim (Bool-cases (leb (p + pgsize) pa_end)) [
  | inr stop ↦ (k, rw stop, Holds-none k xs p pa_end v (ground arith))
  | inl go ↦
      let one =
        kfree_lem k p xs v (record { aligned = a; above = l; below = ground arith })
          (Fresh-Elem p xs (λ q m. omega (arith, b q m))) in
      let (k', run, holds) =
        free_pages_lem n (p + pgsize) pa_end (push_page k p) (p ∷ xs) (omega arith) (omega arith) t
          (omega arith) (below_next p xs b) one.1 in
      (
        k',
        rw go (>>=-ok (kfree p) (λ _. free_pages n (p + pgsize) pa_end) k one.0 ∙ run),
        Holds-step k xs p pa_end k' a (ground arith) holds,
      )
]
  where
    below_next :
        (p : ℕ) (xs : List ℕ)
        → ((q : ℕ) → Elem q xs → q < p)
        → (q : ℕ) → Elem q (p ∷ xs)
        → q < p + pgsize
    below_next p xs b q (inl e) = omega arith
    below_next p xs b q (inr m) = omega (arith, b q m)

-- Started with an empty free list, `kinit` never panics, and leaves a list of distinct pages that
-- holds exactly the whole pages between the end of the kernel and the end of the memory.
pub kinit_lem :
    (k : Machine)
    → k.freelist ≡ 0
    → 0 < k.kernel_end
    → k.kernel_end ≤ phystop
    → (k' : Machine) × (ys : List ℕ) × (kinit k ≡ ok (tt, k'))
      × FreeList k' ys
      × ((q : ℕ) → Elem q ys ↔ PageIn k.kernel_end phystop q)
unfolding kinit
kinit_lem k e pos top =
    let start : FreeList k [] = record { linked = e; pages = tt; distinct = tt; nonzero = pos } in
    let (k', run, (ys, v, _, iff)) =
      free_pages_lem (phystop + 1) (pgroundup k.kernel_end) phystop k [] (omega arith) (omega arith)
        (omega arith) (omega arith) (λ q m. absurd m) start in
    (k', ys, run, v, λ q. (λ m. inside q ((iff q).0 m), λ i. (iff q).1 (inr (omega arith))))
  where
    inside :
        (q : ℕ)
        → Elem q [] ⊎ PageIn (pgroundup k.kernel_end) phystop q
        → PageIn k.kernel_end phystop q
    inside q (inl m) = absurd m
    inside q (inr i) = omega arith
