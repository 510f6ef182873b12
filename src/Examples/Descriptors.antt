-- ===== src/Examples/Descriptors.antt =====
-- The file table with one open file.
use osn_mp2_part_a.Base.{ℕ, zero, suc, ◌==◌, true, if◌then◌else◌, none, some, [], ◌≡◌, refl, arith}
use osn_mp2_part_a.Base.Result.{ok}
use osn_mp2_part_a.File.{File, Files, fd_none, fd_inode, put_fd}
use osn_mp2_part_a.File.Count.{count, count-put}
use osn_mp2_part_a.File.Refs.{total, Refs}
use osn_mp2_part_a.File.Loops.{Call, perform, perform-Refs}

abbrev no_file : File
no_file = record {
  type = fd_none;
  ref = 0;
  readable = true;
  writable = true;
  object = 0;
  off = 0;
  major = 0;
}

-- Process 0 has file 0 open as 5.
abbrev one_open : Files
one_open = record {
  files = λ f. if f == 0 then record no_file { type = fd_inode; ref = 1; object = 7 } else no_file;
  ofile = put_fd (λ k. none) 5 (some 0);
  released = [];
}

count-nothing : (n f : ℕ) → count n f (λ k. none) ≡ 0
unfolding count
count-nothing zero f = refl
count-nothing (suc n) f = omega (arith, count-nothing n f)

one_open-Refs : Refs (λ f. 0) one_open
one_open-Refs f =
    ground (arith, count-put total f (λ k. none) 5 (some 0) (omega arith), count-nothing total f)

perform-Refs_example :
    (t : Files) × (perform (Call.dup 0 5) one_open ≡ ok (tt, t)) × Refs (λ f. 0) t
perform-Refs_example = perform-Refs (λ f. 0) (Call.dup 0 5) one_open (omega arith) one_open-Refs
