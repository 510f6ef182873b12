-- ===== src/Vm/Mapping.antt =====
-- A page that `mappages` has mapped is the one that `walkaddr` finds.
use osn_mp2_part_a.Base.{
  ℕ, ◌+◌, ◌-◌, ◌/◌, ◌%◌, ◌^◌, ◌<◌, true, false, ◌==◌, leb, ◌≡◌, ◌≢◌, refl, arith, ◌∙◌, ap,
}
use osn_mp2_part_a.Base.Result.{ok, pure, ◌>>=◌, >>=-ok}
use osn_mp2_part_a.Memory.{Memory, load64, store64}
use osn_mp2_part_a.Memory.Words.{load64-store64_ne, load64-store64_self}
use osn_mp2_part_a.Riscv.{pgsize, maxva, pte2pa, phystop}
use osn_mp2_part_a.Kalloc.{Machine}
use osn_mp2_part_a.Vm.{
  entry, is_v, is_u, load_pte, store_pte, make_pte, descend, walk_from, walk, walkaddr, map_entry,
  map_from, mappages,
}
use osn_mp2_part_a.Vm.Lookup.{lookup, translate, user_page, walkaddr-translate}

-- For `va` the root leads to the table `mid`, and that to the table `leaf`, a page of its own.
pub record Tables (m : Memory) (pt mid leaf va : ℕ) : Type 0 where
  pub valid_root : is_v (load64 m (entry 2 pt va)) ≡ true
  pub to_mid : pte2pa (load64 m (entry 2 pt va)) ≡ mid
  pub valid_mid : is_v (load64 m (entry 1 mid va)) ≡ true
  pub to_leaf : pte2pa (load64 m (entry 1 mid va)) ≡ leaf
  pub aligned : pt % pgsize ≡ 0
  pub positive : 0 < leaf
  pub not_root : leaf ≢ pt
  pub not_mid : leaf ≢ mid

module _ {m : Memory} {pt mid leaf va : ℕ} (t : Tables m pt mid leaf va) where
  lookup-Tables : lookup m 2 pt va ≡ entry 0 leaf va
  lookup-Tables = rw (t.valid_root, t.to_mid, t.valid_mid, t.to_leaf) refl

  keeps_root :
      (v : ℕ) → load64 (store64 m (entry 0 leaf va) v) (entry 2 pt va) ≡ load64 m (entry 2 pt va)
  keeps_root v =
      load64-store64_ne m (entry 0 leaf va) (entry 2 pt va) v
        (omega (arith, t.aligned, t.to_leaf, t.not_root))

  keeps_mid :
      (v : ℕ) → load64 (store64 m (entry 0 leaf va) v) (entry 1 mid va) ≡ load64 m (entry 1 mid va)
  keeps_mid v =
      load64-store64_ne m (entry 0 leaf va) (entry 1 mid va) v
        (omega (arith, t.to_mid, t.to_leaf, t.not_mid))

  store-Tables : (v : ℕ) → Tables (store64 m (entry 0 leaf va) v) pt mid leaf va
  store-Tables v = record {
    valid_root = ap is_v (keeps_root v) ∙ t.valid_root;
    to_mid = ap pte2pa (keeps_root v) ∙ t.to_mid;
    valid_mid = ap is_v (keeps_mid v) ∙ t.valid_mid;
    to_leaf = ap pte2pa (keeps_mid v) ∙ t.to_leaf;
    aligned = t.aligned;
    positive = t.positive;
    not_root = t.not_root;
    not_mid = t.not_mid;
  }

walk-Tables :
    {pt mid leaf va : ℕ} (k : Machine)
    → Tables k.mem pt mid leaf va
    → va < maxva
    → walk pt va true k ≡ ok (entry 0 leaf va, k)
unfolding walk walk_from descend load_pte ◌>>=◌ pure
walk-Tables {va = va} k t h =
    let low : leb maxva va ≡ false = ground arith in
    rw (low, t.valid_root, t.to_mid, t.valid_mid, t.to_leaf) refl

user_page-make_pte :
    (pa perm : ℕ)
    → pa % pgsize ≡ 0
    → perm < 2 ^ 10
    → is_u perm ≡ true
    → user_page (make_pte pa perm) ≡ pa
user_page-make_pte pa perm a p u =
    let bit : perm / 2 ^ 4 % 2 ≡ 1 = ground (arith, u) in
    let valid : is_v (make_pte pa perm) ≡ true = ground (arith, valid_bit) in
    let user : is_u (make_pte pa perm) ≡ true = ground (arith, user_bit bit) in
    let page : pte2pa (make_pte pa perm) ≡ pa = omega (arith, a, p) in rw (valid, user) page
  where
    valid_bit : make_pte pa perm / 2 ^ 0 % 2 ≡ 1
    valid_bit = omega arith

    user_bit : perm / 2 ^ 4 % 2 ≡ 1 → make_pte pa perm / 2 ^ 4 % 2 ≡ 1
    user_bit e = omega arith

make_pte_word : (pa perm : ℕ) → pa < phystop → perm < 2 ^ 10 → make_pte pa perm < 2 ^ 64
make_pte_word pa perm h p = omega arith

-- The machine with an entry written.
abbrev put_pte : Machine → ℕ → ℕ → Machine
put_pte k a v = record k { mem = store64 k.mem a v }

map_entry-free :
    (k : Machine) (a pa perm : ℕ)
    → 0 < a
    → is_v (load64 k.mem a) ≡ false
    → map_entry a pa perm k ≡ ok (true, put_pte k a (make_pte pa perm))
unfolding map_entry load_pte store_pte ◌>>=◌ pure
map_entry-free k a pa perm pos free = let nz : (a == 0) ≡ false = ground arith in rw (nz, free) refl

one_round :
    (k k' : Machine) (pt va last pa perm a : ℕ)
    → walk pt va true k ≡ ok (a, k)
    → map_entry a pa perm k ≡ ok (true, k')
    → va ≡ last
    → map_from 1 pt va last pa perm k ≡ ok (true, k')
unfolding map_from pure
one_round k k' pt va last pa perm a w e l =
    >>=-ok (walk pt va true) _ k w
    ∙ >>=-ok (map_entry a pa perm) _ k e
    ∙ (let stop : (va == last) ≡ true = ground arith in rw stop refl)

mappages-one :
    (k k' : Machine) (pt va pa perm : ℕ)
    → va % pgsize ≡ 0
    → map_from 1 pt va (va + pgsize - pgsize) pa perm k ≡ ok (true, k')
    → mappages pt va pgsize pa perm k ≡ ok (true, k')
unfolding mappages
mappages-one k k' pt va pa perm al e =
    let ok_va : (va % pgsize == 0) ≡ true = ground arith in rw ok_va e

-- Where the page tables for a page exist and its entry is free, `mappages` of the page succeeds, and
-- afterwards `walkaddr` gives the address that was mapped. The page is one of the memory's, the
-- permissions are flags with PTE_U among them, and the last table is not one of the two before it.
pub mappages-walkaddr :
    (k : Machine) (pt mid leaf va pa perm : ℕ)
    → Tables k.mem pt mid leaf va
    → va % pgsize ≡ 0
    → va < maxva
    → is_v (load64 k.mem (entry 0 leaf va)) ≡ false
    → pa % pgsize ≡ 0
    → pa < phystop
    → perm < 2 ^ 10
    → is_u perm ≡ true
    → (k' : Machine) × (mappages pt va pgsize pa perm k ≡ ok (true, k'))
      × (walkaddr pt va k' ≡ ok (pa, k'))
mappages-walkaddr k pt mid leaf va pa perm t al h free aligned top flags user =
    let k' : Machine = put_pte k (entry 0 leaf va) (make_pte pa perm) in
    (
      k',
      mappages-one k k' pt va pa perm al (
          one_round k k' pt va (va + pgsize - pgsize) pa perm (entry 0 leaf va) (walk-Tables k t h)
            (map_entry-free k (entry 0 leaf va) pa perm (omega (arith, t.positive)) free)
            (omega arith)),
      walkaddr-translate pt va k'
          ∙ ap (λ a. ok (a, k')) (found (store-Tables t (make_pte pa perm))),
    )
  where
    found :
        Tables (store64 k.mem (entry 0 leaf va) (make_pte pa perm)) pt mid leaf va
        → translate (store64 k.mem (entry 0 leaf va) (make_pte pa perm)) pt va ≡ pa
    found s =
        let low : leb maxva va ≡ false = ground arith in
        let nz : (entry 0 leaf va == 0) ≡ false = ground (arith, t.positive) in
        rw (low, lookup-Tables s, nz)
          (ap user_page (
              load64-store64_self k.mem (entry 0 leaf va) (make_pte pa perm)
                (make_pte_word pa perm top flags))
            ∙ user_page-make_pte pa perm aligned flags user)
