-- ===== src/Paging/Slots.antt =====
-- The swap-slot bitmap of a process: `alloc_swap_slot` and `free_swap_slot` of kernel/vm.c.
pub mod Laws
pub mod Alloc
use osn_mp2_part_a.Base.{
  ℕ, zero, suc, ◌+◌, ◌-◌, ◌*◌, ◌/◌, ◌%◌, ◌^◌, bit_and, bit_or, Bool, true, false, Option, none,
  some, List, get_or, set, replicate, if◌then◌else◌, leb, bit_set, bit_mask,
}

abbrev pub max_swap_pages : ℕ
max_swap_pages = 1024

abbrev pub swap_bitmap_size : ℕ
swap_bitmap_size = (max_swap_pages + 7) / 8

-- The fields `swap_bitmap` and `swap_used` of `struct paging_info`, the bytes from index 0 on.
-- `swap_used` is an `int`, kept as its 32-bit pattern.
pub record SwapMap : Type 0 where
  pub swap_bitmap : List ℕ
  pub swap_used : ℕ

-- Both fields as `init_paging_info` leaves them.
abbrev pub empty : SwapMap
empty = record { swap_bitmap = replicate swap_bitmap_size 0; swap_used = 0 }

-- `swap_bitmap[i / 8] & (1 << (i % 8))` as a truth value.
unfoldable pub slot_used : List ℕ → ℕ → Bool
slot_used bm i = bit_set (get_or bm (i / 8) 0) (i % 8)

-- `swap_bitmap[i / 8] |= 1 << (i % 8)`
pub mark_slot : List ℕ → ℕ → List ℕ
mark_slot bm i = set bm (i / 8) (bit_or (get_or bm (i / 8) 0) (2 ^ (i % 8)))

-- `swap_bitmap[i / 8] &= ~(1 << (i % 8))`
pub clear_slot : List ℕ → ℕ → List ℕ
clear_slot bm i = set bm (i / 8) (bit_and (get_or bm (i / 8) 0) (bit_mask (i % 8)))

-- The search of `alloc_swap_slot`, with `n` rounds left from index `i`.
unfoldable pub find_free : ℕ → ℕ → List ℕ → Option ℕ
find_free zero i bm = none
find_free (suc n) i bm =
    let rest = find_free n (i + 1) bm in if slot_used bm i then rest else some i

unfoldable pub take_slot : SwapMap → Option ℕ → Option ℕ × SwapMap
take_slot m none = (none, m)
take_slot m (some i) = (
  some i,
  record m { swap_bitmap = mark_slot m.swap_bitmap i; swap_used = (m.swap_used + 1) % 2 ^ 32 },
)

-- The slot, or `none` for -1, and the map after the call.
unfoldable pub alloc_swap_slot : SwapMap → Option ℕ × SwapMap
unfolding take_slot
alloc_swap_slot m = take_slot m (find_free max_swap_pages 0 m.swap_bitmap)

-- The slot is an `int`; the callers pass none below 0.
unfoldable pub free_swap_slot : SwapMap → ℕ → SwapMap
free_swap_slot m slot =
    if leb max_swap_pages slot
    then m
    else if slot_used m.swap_bitmap slot
    then record m {
      swap_bitmap = clear_slot m.swap_bitmap slot;
      swap_used = (m.swap_used + 2 ^ 32 - 1) % 2 ^ 32;
    }
    else m
