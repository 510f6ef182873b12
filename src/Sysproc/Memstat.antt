-- ===== src/Sysproc/Memstat.antt =====
-- What `sys_memstat` reports.
use osn_mp2_part_a.Base.{
  ℕ, zero, suc, ◌+◌, ◌-◌, ◌≤◌, Bool, false, ltb, if◌then◌else◌, List, [], ◌∷◌, ◌++◌, length, take,
  ◌≡◌, refl, sym, ap, ◌∙◌, arith, Bool-cases, inl, inr, length-append,
}
use mathlib.Core.List.{append-nil, append_assoc}
use osn_mp2_part_a.Paging.{
  PageInfo, PageState, unmapped, resident, swapped, is_resident, is_swapped, max_tracked_pages,
}
use osn_mp2_part_a.Paging.Kernel.{Proc}
use osn_mp2_part_a.Sysproc.{
  max_pages_info, PageStat, ProcMemStat, page_stat, is_unmapped, one_if, add_page, count_pages,
  mem_stat,
}

-- The pages in use, in the order of their addresses.
unfoldable pub used_pages : ℕ → ℕ → (ℕ → PageInfo) → List PageStat
used_pages zero i pages = []
used_pages (suc n) i pages =
    let rest = used_pages n (i + 1) pages in
    if is_unmapped (pages i).state then rest else page_stat (pages i) ∷ rest

-- How many of them are in a state.
unfoldable pub count_in : (PageState → Bool) → List PageStat → ℕ
count_in test [] = 0
count_in test (s ∷ ss) = one_if (test s.state) + count_in test ss

count_in-append :
    (test : PageState → Bool) (xs ys : List PageStat)
    → count_in test (xs ++ ys) ≡ count_in test xs + count_in test ys
unfolding count_in
count_in-append test [] ys = omega arith
count_in-append test (x ∷ xs) ys = omega (arith, count_in-append test xs ys)

-- The counters of a report fit its pages.
abbrev Counted : ProcMemStat → Type 0
Counted info =
    (info.num_resident_pages ≡ count_in is_resident info.pages)
    × (info.num_swapped_pages ≡ count_in is_swapped info.pages)
    × (info.num_resident_pages + info.num_swapped_pages ≡ length info.pages)

add_page-Counted :
    (pi : PageInfo) (info : ProcMemStat)
    → is_unmapped pi.state ≡ false
    → Counted info
    → Counted (add_page pi info)
unfolding count_in
add_page-Counted pi info e (r, s, t) =
    let one : one_if (is_resident pi.state) + one_if (is_swapped pi.state) ≡ 1 =
      by_state pi.state e in
    (
      omega (arith, count_in-append is_resident info.pages (page_stat pi ∷ [])),
      omega (arith, count_in-append is_swapped info.pages (page_stat pi ∷ [])),
      omega (arith, one, length-append info.pages (page_stat pi ∷ [])),
    )
  where
    by_state :
        (s : PageState) → is_unmapped s ≡ false → one_if (is_resident s) + one_if (is_swapped s) ≡ 1
    by_state unmapped e = absurd (ground arith)
    by_state resident e = refl
    by_state swapped e = refl

count_pages-Counted :
    (n i : ℕ) (pages : ℕ → PageInfo) (info : ProcMemStat)
    → Counted info
    → Counted (count_pages n i pages info)
unfolding count_pages
count_pages-Counted zero i pages info c = c
count_pages-Counted (suc n) i pages info c =
    elim (Bool-cases (ltb (length info.pages) max_pages_info)) [
      | inr e ↦ rw (e, count_pages) c
      | inl e ↦ elim (Bool-cases (is_unmapped (pages i).state)) [
        | inl u ↦ rw (e, u, count_pages) (count_pages-Counted n (i + 1) pages info c)
        | inr u ↦
            rw (e, u, count_pages)
              (count_pages-Counted n (i + 1) pages _ (add_page-Counted (pages i) info u c))
      ]
    ]

take-nil : (n : ℕ) → take {A = PageStat} n [] ≡ []
take-nil zero = refl
take-nil (suc n) = refl

length-take : (n : ℕ) (xs : List PageStat) → length (take n xs) ≤ n
length-take zero xs = omega arith
length-take (suc n) [] = omega arith
length-take (suc n) (x ∷ xs) = omega (arith, length-take n xs)

-- The loop takes the first pages in use, as many as there is room for.
count_pages-used :
    (n i : ℕ) (pages : ℕ → PageInfo) (info : ProcMemStat)
    → length info.pages ≤ max_pages_info
    → (count_pages n i pages info).pages
      ≡ info.pages ++ take (max_pages_info - length info.pages) (used_pages n i pages)
unfolding count_pages used_pages
count_pages-used zero i pages info h = sym (
    ap (λ t. info.pages ++ t) (take-nil (max_pages_info - length info.pages))
    ∙ append-nil info.pages)
count_pages-used (suc n) i pages info h =
    elim (Bool-cases (ltb (length info.pages) max_pages_info)) [
      | inr e ↦
          let full : max_pages_info - length info.pages ≡ 0 = ground arith in
          rw (e, full, count_pages) (sym (append-nil info.pages))
      | inl e ↦ elim (Bool-cases (is_unmapped (pages i).state)) [
        | inl u ↦ rw (e, u, count_pages) (count_pages-used n (i + 1) pages info h)
        | inr u ↦
            let longer : length (info.pages ++ page_stat (pages i) ∷ []) ≡ length info.pages + 1 =
              length-append info.pages (page_stat (pages i) ∷ []) in
            let room : max_pages_info - length info.pages
                ≡ suc (max_pages_info - length (info.pages ++ page_stat (pages i) ∷ [])) =
              ground (arith, longer) in
            rw (e, u, room, count_pages)
              (count_pages-used n (i + 1) pages (add_page (pages i) info) (ground (arith, longer))
                ∙ append_assoc info.pages (page_stat (pages i) ∷ []) (
                    take (max_pages_info - length (info.pages ++ page_stat (pages i) ∷ []))
                      (used_pages n (i + 1) pages)))
      ]
    ]

-- A report of the pages of a process.
abbrev pub Reports : Proc → ProcMemStat → Type 0
Reports p info =
    (info.pages ≡ take max_pages_info (used_pages max_tracked_pages 0 p.paging.pages))
    × (info.num_pages_total ≡ length info.pages)
    × (info.num_pages_total ≤ max_pages_info)
    × (info.num_resident_pages ≡ count_in is_resident info.pages)
    × (info.num_swapped_pages ≡ count_in is_swapped info.pages)
    × (info.num_resident_pages + info.num_swapped_pages ≡ info.num_pages_total)

-- `sys_memstat` reports the pages in use in the order of their addresses, the first 128 of them if there
-- are more, and its counters are those of the pages that it reports.
pub mem_stat_lem : (p : Proc) → Reports p (mem_stat p)
unfolding mem_stat count_in
mem_stat_lem p =
    let pages : (mem_stat p).pages
        ≡ take max_pages_info (used_pages max_tracked_pages 0 p.paging.pages) =
      count_pages-used max_tracked_pages 0 p.paging.pages _ (omega arith) in
    let (r, s, t) = count_pages-Counted max_tracked_pages 0 p.paging.pages _ (refl, refl, refl) in
    (
      pages,
      refl,
      omega (
        arith,
        ap length pages,
        length-take max_pages_info (used_pages max_tracked_pages 0 p.paging.pages),
      ),
      r,
      s,
      t,
    )
