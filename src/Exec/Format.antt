-- ===== src/Exec/Format.antt =====
-- The headers of a program, in the formats of kernel/elf.h, and what `kexec` of kernel/exec.c records of
-- its segments.
use osn_mp2_part_a.Base.{
  ℕ, zero, suc, ◌+◌, ◌*◌, ◌/◌, ◌%◌, ◌^◌, Bool, not, ◌||◌, ◌==◌, ltb, if◌then◌else◌, List, get_or,
}
use osn_mp2_part_a.Riscv.{pgsize}
use osn_mp2_part_a.Vm.{pte_w, pte_x}
use osn_mp2_part_a.Paging.{PagingInfo}

abbrev pub elf_magic : ℕ
elf_magic = 0x464C457F

abbrev pub elf_prog_load : ℕ
elf_prog_load = 1

-- The number in `n` bytes of a structure, from `off` on.
unfoldable pub field : List ℕ → ℕ → ℕ → ℕ
field bytes off zero = 0
field bytes off (suc n) = get_or bytes off 0 + 2 ^ 8 * field bytes (off + 1) n

-- The fields of `struct elfhdr` that the code uses, and its size.
pub record Elfhdr : Type 0 where
  pub magic : ℕ
  pub entry : ℕ
  pub phoff : ℕ
  pub phnum : ℕ

unfoldable pub elfhdr : List ℕ → Elfhdr
elfhdr b = record {
  magic = field b 0 4;
  entry = field b 24 8;
  phoff = field b 32 8;
  phnum = field b 56 2;
}

abbrev pub sizeof_elfhdr : ℕ
sizeof_elfhdr = 64

-- The same for `struct proghdr`.
pub record Proghdr : Type 0 where
  pub type : ℕ
  pub flags : ℕ
  pub off : ℕ
  pub vaddr : ℕ
  pub filesz : ℕ
  pub memsz : ℕ

unfoldable pub proghdr : List ℕ → Proghdr
proghdr b = record {
  type = field b 0 4;
  flags = field b 4 4;
  off = field b 8 8;
  vaddr = field b 16 8;
  filesz = field b 32 8;
  memsz = field b 40 8;
}

abbrev pub sizeof_proghdr : ℕ
sizeof_proghdr = 56

abbrev pub is_exec : ℕ → Bool
is_exec flags = flags % 2 == 1

abbrev pub is_write : ℕ → Bool
is_write flags = flags / 2 % 2 == 1

unfoldable pub flags2perm : ℕ → ℕ
flags2perm flags = (if is_exec flags then pte_x else 0) + (if is_write flags then pte_w else 0)

abbrev pub clear_segments : PagingInfo → PagingInfo
clear_segments g = record g {
  text_start = 0;
  text_end = 0;
  data_start = 0;
  data_end = 0;
  text_offset = 0;
  data_offset = 0;
  text_filesz = 0;
  data_filesz = 0;
}

-- `vaddr + memsz`
abbrev pub segment_end : Proghdr → ℕ
segment_end ph = (ph.vaddr + ph.memsz) % 2 ^ 64

-- The tests of a header that end in `bad`.
unfoldable pub is_bad : Proghdr → Bool
is_bad ph =
    ltb ph.memsz ph.filesz || (ltb (segment_end ph) ph.vaddr || not (ph.vaddr % pgsize == 0))

-- A segment that can be executed is the text, and another one that can be written the data.
unfoldable pub track_segment : Proghdr → PagingInfo → PagingInfo
track_segment ph g =
    if is_exec ph.flags
    then record g {
      text_start = ph.vaddr;
      text_end = segment_end ph;
      text_offset = ph.off;
      text_filesz = ph.filesz;
    }
    else if is_write ph.flags
    then record g {
      data_start = ph.vaddr;
      data_end = segment_end ph;
      data_offset = ph.off;
      data_filesz = ph.filesz;
    }
    else g
