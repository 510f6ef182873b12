-- ===== src/Examples/Mappings.antt =====
-- Page tables for the address 0x5000, in three pages from 0x80030000 on.
use osn_mp2_part_a.Base.{true, false, ◌≡◌, refl, arith}
use osn_mp2_part_a.Base.Result.{ok}
use osn_mp2_part_a.Memory.{Memory, load64, store64}
use osn_mp2_part_a.Kalloc.{Machine}
use osn_mp2_part_a.Vm.{entry, is_v, walkaddr, mappages}
use osn_mp2_part_a.Vm.Lookup.{translate, walkaddr-translate}
use osn_mp2_part_a.Vm.Mapping.{Tables, mappages-walkaddr}

abbrev tables : Memory
tables = store64 (store64 (λ a. 0) 0x80030000 0x2000C401) 0x80031000 0x2000C801

abbrev with_tables : Machine
with_tables = record { kernel_end = 0x80021234; freelist = 0; mem = tables }

tables-Tables : Tables tables 0x80030000 0x80031000 0x80032000 0x5000
unfolding load64 store64
tables-Tables = record {
  valid_root = refl;
  to_mid = refl;
  valid_mid = refl;
  to_leaf = refl;
  aligned = refl;
  positive = omega arith;
  not_root = omega arith;
  not_mid = omega arith;
}

leaf_free : is_v (load64 tables (entry 0 0x80032000 0x5000)) ≡ false
unfolding load64 store64
leaf_free = refl

mappages-walkaddr_example :
    (k' : Machine) × (mappages 0x80030000 0x5000 4096 0x80040000 22 with_tables ≡ ok (true, k'))
    × (walkaddr 0x80030000 0x5000 k' ≡ ok (0x80040000, k'))
mappages-walkaddr_example =
    mappages-walkaddr with_tables 0x80030000 0x80031000 0x80032000 0x5000 0x80040000 22
      tables-Tables refl (omega arith) leaf_free refl (omega arith) (omega arith) refl

walkaddr-translate_example :
    walkaddr 0x80030000 0x5008 with_tables ≡ ok (translate tables 0x80030000 0x5008, with_tables)
walkaddr-translate_example = walkaddr-translate 0x80030000 0x5008 with_tables
