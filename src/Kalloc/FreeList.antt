-- ===== src/Kalloc/FreeList.antt =====
-- The free list as a list of pages, and `kalloc` and `kfree` as its pop and push.
use osn_mp2_part_a.Base.{
  ℕ, ◌+◌, ◌%◌, ◌^◌, false, List, [], ◌∷◌, ◌≡◌, refl, sym, ◌∙◌, arith, ◌≤◌, ◌<◌, ◌≢◌, All, ◌⊎◌,
  subst,
}
use osn_mp2_part_a.Base.Result.{ok}
use osn_mp2_part_a.Memory.{Memory, load64, within}
use osn_mp2_part_a.Memory.Words.{load64-fill_ne, load64-store64_ne, load64-store64_self, store64_ne}
use osn_mp2_part_a.Cstring.{memset}
use osn_mp2_part_a.Cstring.Moves.{memset_lem}
use osn_mp2_part_a.Riscv.{pgsize, phystop}
use osn_mp2_part_a.Kalloc.{Machine, kfree, kalloc, push_page, pop_page}

-- A page that `kfree` accepts: aligned, above the kernel, below the end of the memory.
pub record IsPage (low : ℕ) (pa : ℕ) : Type 0 where
  pub aligned : pa % pgsize ≡ 0
  pub above : low ≤ pa
  pub below : pa < phystop

-- The words in memory link the pages of the list in their order, and the last holds 0.
abbrev pub Linked : Memory → ℕ → List ℕ → Type 0
Linked m p [] = p ≡ 0
Linked m p (x ∷ xs) = (p ≡ x) × Linked m (load64 m x) xs

abbrev pub Fresh : ℕ → List ℕ → Type 0
Fresh x xs = All (λ y. x ≢ y) xs

abbrev pub Distinct : List ℕ → Type 0
Distinct [] = Unit {0}
Distinct (x ∷ xs) = Fresh x xs × Distinct xs

-- The machine's free list holds the pages `xs`, first to be allocated first.
pub record FreeList (k : Machine) (xs : List ℕ) : Type 0 where
  pub linked : Linked k.mem k.freelist xs
  pub pages : All (IsPage k.kernel_end) xs
  pub distinct : Distinct xs
  pub nonzero : 0 < k.kernel_end

-- Outside the page at `pa` the memory is as before.
abbrev pub SameOutside : ℕ → Memory → Memory → Type 0
SameOutside pa m m' = (a : ℕ) → within pa pgsize a ≡ false → m' a ≡ m a

apart : {pa x : ℕ} → pa % pgsize ≡ 0 → x % pgsize ≡ 0 → pa ≢ x → (pa + pgsize ≤ x) ⊎ (x + 8 ≤ pa)
apart h k ne = omega arith

-- A change inside a page that is not on the list keeps the links.
Linked-frame :
    (low pa : ℕ) (m m' : Memory) (p : ℕ) (xs : List ℕ)
    → pa % pgsize ≡ 0
    → ((q : ℕ) → (pa + pgsize ≤ q) ⊎ (q + 8 ≤ pa) → load64 m' q ≡ load64 m q)
    → Fresh pa xs
    → All (IsPage low) xs
    → Linked m p xs
    → Linked m' p xs
Linked-frame low pa m m' p [] h keep f v l = l
Linked-frame low pa m m' p (x ∷ xs) h keep f v l = (
  l.0,
  rw (keep x (apart h v.0.aligned f.0))
      (Linked-frame low pa m m' (load64 m x) xs h keep f.1 v.1 l.1),
)

load64-memset :
    (m : Memory) (pa c q : ℕ)
    → (pa + pgsize ≤ q) ⊎ (q + 8 ≤ pa)
    → load64 (memset m pa c pgsize) q ≡ load64 m q
load64-memset m pa c q h = rw (memset_lem m pa c pgsize) (load64-fill_ne m pa _ pgsize q h)

memset-SameOutside : (m : Memory) (pa c : ℕ) → SameOutside pa m (memset m pa c pgsize)
memset-SameOutside m pa c = rw (memset_lem m pa c pgsize) (λ a h. rw h)

load64-push_page :
    (k : Machine) (pa q : ℕ)
    → (pa + pgsize ≤ q) ⊎ (q + 8 ≤ pa)
    → load64 (push_page k pa).mem q ≡ load64 k.mem q
load64-push_page k pa q h =
    load64-store64_ne (memset k.mem pa 1 pgsize) pa q k.freelist (omega arith)
    ∙ load64-memset k.mem pa 1 q h

push_page-SameOutside : (k : Machine) (pa : ℕ) → SameOutside pa k.mem (push_page k pa).mem
push_page-SameOutside k pa a h =
    store64_ne (memset k.mem pa 1 pgsize) pa k.freelist a (ground arith)
    ∙ memset-SameOutside k.mem pa 1 a h

head_lt :
    (low : ℕ) (m : Memory) (p : ℕ) (xs : List ℕ) → All (IsPage low) xs → Linked m p xs → p < 2 ^ 64
head_lt low m p [] v l = omega arith
head_lt low m p (x ∷ xs) v l = omega arith

-- On a free list that holds the pages `x ∷ xs`, `kalloc` returns `x`, leaves the list holding `xs`
-- and changes no byte outside the page `x`.
pub kalloc_cons :
    (k : Machine) (x : ℕ) (xs : List ℕ)
    → FreeList k (x ∷ xs)
    → (kalloc k ≡ ok (x, pop_page k))
      × FreeList (pop_page k) xs
      × SameOutside x k.mem (pop_page k).mem
unfolding kalloc
kalloc_cons k x xs v =
    let e = v.linked.0 in
    (
      ground arith,
      record {
        linked =
            subst (λ q. Linked (memset k.mem q 5 pgsize) (load64 k.mem q) xs) (sym e)
              (Linked-frame k.kernel_end x k.mem (memset k.mem x 5 pgsize) _ xs v.pages.0.aligned
                (load64-memset k.mem x 5) v.distinct.0 v.pages.1 v.linked.1);
        pages = v.pages.1;
        distinct = v.distinct.1;
        nonzero = v.nonzero;
      },
      subst (λ q. SameOutside x k.mem (memset k.mem q 5 pgsize)) (sym e)
          (memset-SameOutside k.mem x 5),
    )

-- On an empty free list `kalloc` returns 0 and changes nothing.
pub kalloc_nil : (k : Machine) → FreeList k [] → kalloc k ≡ ok (0, k)
unfolding kalloc
kalloc_nil k v = ground arith

-- `kfree` of a page that is not on the list puts it in front, and changes no byte outside it.
pub kfree_lem :
    (k : Machine) (pa : ℕ) (xs : List ℕ)
    → FreeList k xs
    → IsPage k.kernel_end pa
    → Fresh pa xs
    → (kfree pa k ≡ ok (tt, push_page k pa))
      × FreeList (push_page k pa) (pa ∷ xs)
      × SameOutside pa k.mem (push_page k pa).mem
unfolding kfree
kfree_lem k pa xs v h f = (
  ground arith,
  record {
    linked = (refl, subst (λ q. Linked (push_page k pa).mem q xs) (sym back) kept);
    pages = (h, v.pages);
    distinct = (f, v.distinct);
    nonzero = v.nonzero;
  },
  push_page-SameOutside k pa,
)
  where
    back : load64 (push_page k pa).mem pa ≡ k.freelist
    back =
        load64-store64_self _ pa k.freelist
          (head_lt k.kernel_end k.mem k.freelist xs v.pages v.linked)

    kept : Linked (push_page k pa).mem k.freelist xs
    kept =
        Linked-frame k.kernel_end pa k.mem (push_page k pa).mem k.freelist xs h.aligned
          (load64-push_page k pa) f v.pages v.linked
