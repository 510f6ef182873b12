-- ===== src/Vm/Lookup.antt =====
-- `walk` and `walkaddr` against the translation that the page tables in memory describe.
use osn_mp2_part_a.Base.{
  ℕ, zero, suc, false, ◌&&◌, ◌==◌, ◌<◌, leb, if◌then◌else◌, ◌≡◌, refl, arith, Bool-cases, inl, inr,
  ◌∙◌,
}
use osn_mp2_part_a.Base.Result.{ok, pure, ◌>>=◌, >>=-ok}
use osn_mp2_part_a.Memory.{Memory, load64}
use osn_mp2_part_a.Riscv.{maxva, pte2pa}
use osn_mp2_part_a.Kalloc.{Machine}
use osn_mp2_part_a.Vm.{entry, is_v, is_u, load_pte, descend, walk_from, walk, walkaddr, ismapped}

-- The address of the entry for `va`, from a table of a level down, or 0 where a table is missing.
abbrev pub lookup : Memory → ℕ → ℕ → ℕ → ℕ
lookup m zero pt va = entry 0 pt va
lookup m (suc level) pt va =
    let next = lookup m level (pte2pa (load64 m (entry (suc level) pt va))) va in
    if is_v (load64 m (entry (suc level) pt va)) then next else 0

-- The page that an entry gives to the user, or 0.
abbrev pub user_page : ℕ → ℕ
user_page pte = if is_v pte && is_u pte then pte2pa pte else 0

abbrev pub translate : Memory → ℕ → ℕ → ℕ
translate m pt va =
    if leb maxva va
    then 0
    else if lookup m 2 pt va == 0
    then 0
    else user_page (load64 m (lookup m 2 pt va))

walk_from-lookup :
    (level pt va : ℕ) (k : Machine)
    → walk_from level pt va false k ≡ ok (lookup k.mem level pt va, k)
unfolding walk_from descend load_pte ◌>>=◌ pure
walk_from-lookup zero pt va k = refl
walk_from-lookup (suc level) pt va k =
    elim (Bool-cases (is_v (load64 k.mem (entry (suc level) pt va)))) [
      | inl e ↦ rw e (walk_from-lookup level _ va k)
      | inr e ↦ rw e refl
    ]

walk-lookup :
    (pt va : ℕ) (k : Machine)
    → leb maxva va ≡ false
    → walk pt va false k ≡ ok (lookup k.mem 2 pt va, k)
unfolding walk
walk-lookup pt va k h = rw h (walk_from-lookup 2 pt va k)

page_at :
    (a : ℕ) (k : Machine)
    → (if a == 0 then pure 0 else (load_pte a >>= λ v. pure (user_page v))) k
      ≡ ok (if a == 0 then 0 else user_page (load64 k.mem a), k)
unfolding load_pte ◌>>=◌ pure
page_at a k = elim (Bool-cases (a == 0)) [ inl e ↦ rw e refl | inr e ↦ rw e refl ]

valid_at :
    (a : ℕ) (k : Machine)
    → (if a == 0 then pure false else (load_pte a >>= λ v. pure (is_v v))) k
      ≡ ok (if a == 0 then false else is_v (load64 k.mem a), k)
unfolding load_pte ◌>>=◌ pure
valid_at a k = elim (Bool-cases (a == 0)) [ inl e ↦ rw e refl | inr e ↦ rw e refl ]

-- `walkaddr` never panics and changes nothing; it gives the page to which the tables in memory
-- translate the address for the user, and 0 for an address that is too high or not mapped.
pub walkaddr-translate :
    (pt va : ℕ) (k : Machine) → walkaddr pt va k ≡ ok (translate k.mem pt va, k)
unfolding walkaddr pure
walkaddr-translate pt va k = elim (Bool-cases (leb maxva va)) [
  | inl e ↦ rw e refl
  | inr e ↦
      rw e
        (>>=-ok (walk pt va false) _ k (walk-lookup pt va k e) ∙ page_at (lookup k.mem 2 pt va) k)
]

-- `ismapped` of an address that is not too high changes nothing and tells whether its entry, if there
-- is one, is valid.
pub ismapped-lookup :
    (pt va : ℕ) (k : Machine)
    → va < maxva
    → ismapped pt va k
      ≡ ok (
        if lookup k.mem 2 pt va == 0 then false else is_v (load64 k.mem (lookup k.mem 2 pt va)),
        k,
      )
unfolding ismapped
ismapped-lookup pt va k h =
    >>=-ok (walk pt va false) _ k (walk-lookup pt va k (ground arith))
    ∙ valid_at (lookup k.mem 2 pt va) k
