-- ===== src/Examples/FileSystem.antt =====
-- The file system on a small disk: ten blocks, of which the first two are in use, the second one being
-- the bitmap.
use osn_mp2_part_a.Base.{
  ℕ, ◌+◌, ◌&&◌, ◌==◌, if◌then◌else◌, true, false, List, [], ◌∷◌, ◌≡◌, refl, arith, map, replicate,
  suc, ◌≢◌, ap, ◌∙◌, ◌/◌, bit_set,
}
use osn_mp2_part_a.Base.Triple.{AfterOr, Triple}
use osn_mp2_part_a.Sleeplock.{initsleeplock}
use osn_mp2_part_a.Fs.{Fs, Dinode}
use osn_mp2_part_a.Fs.Blocks.Laws.{AllBytes, Reserved, in_use}
use osn_mp2_part_a.Fs.Blocks.Calls.{Allocation, balloc_lem}
use osn_mp2_part_a.Fs.Inodes.{iupdate}
use osn_mp2_part_a.Fs.Inodes.Codec.{Fits, Written, iupdate_lem}
use osn_mp2_part_a.Fs.Path.Elements.{elements}
use osn_mp2_part_a.Fs.Path.Names.{short}
use osn_mp2_part_a.Fs.Path.Split.{names, names-elements}
use osn_mp2_part_a.Fs.Dirs.{namex}
use osn_mp2_part_a.Fs.Dirs.Owned.{Owned}
use osn_mp2_part_a.Fs.Dirs.Walk.{Found, namex-Owned}

abbrev root_dinode : Dinode
root_dinode = record { type = 1; major = 0; minor = 0; nlink = 1; size = 32; addrs = λ k. k }

abbrev small_fs : Fs
small_fs = record {
  sb = record {
    magic = 0x10203040;
    size = 10;
    nblocks = 6;
    ninodes = 16;
    nlog = 0;
    logstart = 2;
    inodestart = 2;
    bmapstart = 1;
  };
  blocks = λ d b a. if b == 1 && a == 0 then 3 else 0;
  inodes = λ i. record {
    dev = 1;
    inum = 5;
    ref = if i == 0 then 1 else 0;
    lock = initsleeplock;
    valid = true;
    disk = root_dinode;
  };
}

small_bytes : AllBytes small_fs
small_bytes d n a = ground arith

second_used : in_use 1 small_fs 1 ≡ true
unfolding bit_set
second_used = refl

small-Reserved : Reserved 1 small_fs
small-Reserved c h =
    let here : c / 8192 + 1 ≡ 1 = omega arith in ap (in_use 1 small_fs) here ∙ second_used

balloc_lem_example : Allocation 1 small_fs
balloc_lem_example = balloc_lem 1 small_fs small_bytes small-Reserved

root-Fits : Fits root_dinode
root-Fits = record {
  type = omega arith;
  major = omega arith;
  minor = omega arith;
  nlink = omega arith;
  size = omega arith;
  addrs = λ k h. omega arith;
}

iupdate_lem_example : AfterOr ⊥ (Written small_fs 0) (iupdate 0 small_fs)
iupdate_lem_example = iupdate_lem 0 small_fs root-Fits

-- "/a//bc"
abbrev some_path : List ℕ
some_path = 47 ∷ 97 ∷ 47 ∷ 47 ∷ 98 ∷ 99 ∷ []

char : {c : ℕ} → suc c ≢ 0
char e = omega (arith, e)

names-elements_example : names 7 some_path (replicate 14 0) ≡ map short (elements some_path)
names-elements_example =
    names-elements 7 some_path (replicate 14 0) refl
      (char, (char, (char, (char, (char, (char, tt)))))) (omega arith)

abbrev one_reference : ℕ → ℕ
one_reference k = if k == 0 then 1 else 0

namex-Owned_example :
    Triple (Owned one_reference) (namex 7 0 some_path false (replicate 14 0)) (Found one_reference)
namex-Owned_example = namex-Owned one_reference 7 0 some_path false (replicate 14 0) (omega arith)
