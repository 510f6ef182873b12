-- ===== src/Paging/Fifo.antt =====
-- The victim that `evict_page_fifo` of kernel/vm.c chooses.
use osn_mp2_part_a.Base.{
  ℕ, zero, suc, ◌+◌, ◌≤◌, ◌<◌, true, false, Option, none, some, ◌≡◌, arith, Bool-cases, inl, inr,
  eq_or_ne, subst,
}
use osn_mp2_part_a.Paging.{PageInfo, resident, find_victim, older, max_tracked_pages}

abbrev pub int_max : ℕ
int_max = 0x7FFFFFFF

-- `r` is the oldest resident page below index `n`, the first of those with its number; if there is
-- none, every resident page has the number `bound` or a later one.
abbrev pub Oldest : (ℕ → PageInfo) → ℕ → ℕ → Option ℕ → Type 0
Oldest pages n bound none =
    (j : ℕ) → j < n → (pages j).state ≡ resident → bound ≤ (pages j).fifo_seq
Oldest pages n bound (some k) =
    (k < n)
    × ((pages k).state ≡ resident)
    × ((pages k).fifo_seq < bound)
    × ((j : ℕ) → j < n → (pages j).state ≡ resident → (pages k).fifo_seq ≤ (pages j).fifo_seq)
    × ((j : ℕ) → j < k → (pages j).state ≡ resident → (pages k).fifo_seq < (pages j).fifo_seq)

-- The number that the loop compares with.
abbrev min_of : (ℕ → PageInfo) → ℕ → Option ℕ → ℕ
min_of pages bound none = bound
min_of pages bound (some k) = (pages k).fifo_seq

older-true : (pi : PageInfo) (m : ℕ) → older pi m ≡ true → (pi.state ≡ resident) × (pi.fifo_seq < m)
older-true pi m h = ground arith

older-false : (pi : PageInfo) (m : ℕ) → older pi m ≡ false → pi.state ≡ resident → m ≤ pi.fifo_seq
older-false pi m h e = ground arith

module _ (pages : ℕ → PageInfo) (bound : ℕ) where
  below_min :
      (n : ℕ) (v : Option ℕ)
      → Oldest pages n bound v
      → (j : ℕ) → j < n
      → (pages j).state ≡ resident
      → min_of pages bound v ≤ (pages j).fifo_seq
  below_min n none o j h r = o j h r
  below_min n (some k) o j h r = o.3 j h r

  min_of-le : (n : ℕ) (v : Option ℕ) → Oldest pages n bound v → min_of pages bound v ≤ bound
  min_of-le n none o = omega arith
  min_of-le n (some k) o = omega (arith, o.2)

  take_better :
      (n : ℕ) (v : Option ℕ)
      → Oldest pages n bound v
      → older (pages n) (min_of pages bound v) ≡ true
      → Oldest pages (n + 1) bound (some n)
  take_better n v o b =
      let (r, lt) = older-true (pages n) (min_of pages bound v) b in
      (
        omega arith,
        r,
        omega (arith, lt, min_of-le n v o),
        (λ j h s. elim (eq_or_ne j n) [
          | inl e ↦ rw e (omega arith)
          | inr ne ↦ omega (arith, lt, below_min n v o j (omega arith) s)
        ]),
        λ j h s. omega (arith, lt, below_min n v o j h s),
      )

  keep_old :
      (n : ℕ) (v : Option ℕ)
      → Oldest pages n bound v
      → older (pages n) (min_of pages bound v) ≡ false
      → Oldest pages (n + 1) bound v
  keep_old n none o b = λ j h s. elim (eq_or_ne j n) [
    | inl e ↦ rw e (older-false (pages n) bound b (rw e at s))
    | inr ne ↦ o j (omega arith) s
  ]
  keep_old n (some k) o b = (
    omega (arith, o.0),
    o.1,
    o.2,
    (λ j h s. elim (eq_or_ne j n) [
      | inl e ↦ rw e (older-false (pages n) (pages k).fifo_seq b (rw e at s))
      | inr ne ↦ o.3 j (omega arith) s
    ]),
    o.4,
  )

  find_victim-Oldest :
      (r n : ℕ) (v : Option ℕ) (e : ℕ)
      → n + r ≡ e
      → Oldest pages n bound v
      → Oldest pages e bound (find_victim r n pages v (min_of pages bound v))
  unfolding find_victim
  find_victim-Oldest zero n v e h o =
      let p : n ≡ e = omega arith in subst (λ k. Oldest pages k bound v) p o
  find_victim-Oldest (suc r) n v e h o =
      elim (Bool-cases (older (pages n) (min_of pages bound v))) [
        | inl b ↦ rw b (find_victim-Oldest r (n + 1) (some n) e (omega arith) (take_better n v o b))
        | inr b ↦ rw b (find_victim-Oldest r (n + 1) v e (omega arith) (keep_old n v o b))
      ]

-- Among the tracked pages `evict_page_fifo` chooses the resident page with the least sequence
-- number, the one with the lowest address where several share it. It finds none only if no resident
-- page has a number below 0x7FFFFFFF.
pub find_victim_lem :
    (pages : ℕ → PageInfo)
    → Oldest pages max_tracked_pages int_max (find_victim max_tracked_pages 0 pages none int_max)
find_victim_lem pages =
    find_victim-Oldest pages int_max max_tracked_pages 0 none max_tracked_pages (omega arith)
      (λ j h. absurd (omega arith))
