-- ===== src/Examples/Machines.antt =====
-- The page allocator on a machine without free pages, and the memory routines.
use osn_mp2_part_a.Base.{ℕ, ◌%◌, ◌^◌, List, [], ◌∷◌, ◌≡◌, refl, arith, ◌↔◌}
use osn_mp2_part_a.Base.Result.{ok}
use osn_mp2_part_a.Memory.{Memory}
use osn_mp2_part_a.Riscv.{phystop}
use osn_mp2_part_a.Kalloc.{Machine, kinit, kalloc, kfree, push_page, pop_page}
use osn_mp2_part_a.Kalloc.FreeList.{FreeList, IsPage, SameOutside, kalloc_cons, kfree_lem}
use osn_mp2_part_a.Kalloc.Range.{kinit_lem, PageIn, Elem}

abbrev bare : Machine
bare = record { kernel_end = 0x80021234; freelist = 0; mem = λ a. 0 }

bare-FreeList : FreeList bare []
bare-FreeList = record { linked = refl; pages = tt; distinct = tt; nonzero = omega arith }

low-IsPage : IsPage 0x80021234 0x80022000
low-IsPage = omega arith

kfree_lem_example :
    (kfree 0x80022000 bare ≡ ok (tt, push_page bare 0x80022000))
    × FreeList (push_page bare 0x80022000) (0x80022000 ∷ [])
    × SameOutside 0x80022000 bare.mem (push_page bare 0x80022000).mem
kfree_lem_example = kfree_lem bare 0x80022000 [] bare-FreeList low-IsPage tt

abbrev one_page : Machine
one_page = push_page bare 0x80022000

kalloc_cons_example :
    (kalloc one_page ≡ ok (0x80022000, pop_page one_page))
    × FreeList (pop_page one_page) []
    × SameOutside 0x80022000 one_page.mem (pop_page one_page).mem
kalloc_cons_example =
    kalloc_cons one_page 0x80022000 [] (kfree_lem bare 0x80022000 [] bare-FreeList low-IsPage tt).1

kinit_lem_example :
    (k' : Machine) × (ys : List ℕ) × (kinit bare ≡ ok (tt, k'))
    × FreeList k' ys
    × ((q : ℕ) → Elem q ys ↔ PageIn 0x80021234 phystop q)
kinit_lem_example = kinit_lem bare refl (omega arith) (omega arith)

abbrev counting : Memory
counting a = a % 2 ^ 8
