-- ===== src/Exec/Segments.antt =====
-- The segments that `kexec` records for the fault handler.
use osn_mp2_part_a.Base.{
  ℕ, zero, suc, ◌+◌, ◌%◌, ◌^◌, ◌≤◌, ◌<◌, false, not, ◌==◌, List, length, get_or, ◌≡◌, arith,
  Bool-cases, inl, inr, All, get_or-All,
}
use osn_mp2_part_a.Base.Result.{M, ◌>>=◌}
use osn_mp2_part_a.Riscv.{pgsize}
use osn_mp2_part_a.Paging.{PagingInfo}
use osn_mp2_part_a.Paging.Kernel.{FileSystem, Kernel, Proc, call}
use osn_mp2_part_a.Paging.Kernel.Triple.{Triple, bind, same, lifted, branches, keeps}
use osn_mp2_part_a.Exec.{ExecFiles, load_from}
use osn_mp2_part_a.Exec.Format.{
  Proghdr, field, proghdr, sizeof_proghdr, elf_prog_load, is_exec, is_write, segment_end, is_bad,
  track_segment,
}

-- A segment starts at a page, and the part of it that the file holds ends within it.
abbrev pub Segment : ℕ → ℕ → ℕ → Type 0
Segment start end filesz = (start % pgsize ≡ 0) × (start + filesz ≤ end)

abbrev pub SegmentsOk : PagingInfo → Type 0
SegmentsOk g =
    Segment g.text_start g.text_end g.text_filesz × Segment g.data_start g.data_end g.data_filesz

abbrev pub IsByte : ℕ → Type 0
IsByte b = b < 256

-- A program header whose fields have their widths.
abbrev Sized : Proghdr → Type 0
Sized ph = (ph.vaddr < 2 ^ 64) × (ph.memsz < 2 ^ 64)

field-bound : (bytes : List ℕ) (off : ℕ) → All IsByte bytes → field bytes off 8 < 2 ^ 64
unfolding field
field-bound bytes off h = omega (
  arith,
  byte off,
  byte (off + 1),
  byte (off + 1 + 1),
  byte (off + 1 + 1 + 1),
  byte (off + 1 + 1 + 1 + 1),
  byte (off + 1 + 1 + 1 + 1 + 1),
  byte (off + 1 + 1 + 1 + 1 + 1 + 1),
  byte (off + 1 + 1 + 1 + 1 + 1 + 1 + 1),
)
  where
    byte : (i : ℕ) → get_or bytes i 0 < 256
    byte i = get_or-All IsByte bytes i 0 (omega arith) h

proghdr-Sized : (bytes : List ℕ) → All IsByte bytes → Sized (proghdr bytes)
unfolding proghdr
proghdr-Sized bytes h = (field-bound bytes 16 h, field-bound bytes 40 h)

pub track_segment-SegmentsOk :
    (ph : Proghdr) (g : PagingInfo)
    → Sized ph
    → is_bad ph ≡ false
    → SegmentsOk g
    → SegmentsOk (track_segment ph g)
unfolding track_segment is_bad
track_segment-SegmentsOk ph g (v, m) e (t, d) =
    let fits : Segment ph.vaddr (segment_end ph) ph.filesz = ground arith in
    elim (Bool-cases (is_exec ph.flags)) [
      | inl x ↦ rw x (fits, d)
      | inr x ↦ elim (Bool-cases (is_write ph.flags)) [
        | inl w ↦ rw (x, w) (t, fits)
        | inr w ↦ rw (x, w) (t, d)
      ]
    ]

module _ (fs : FileSystem) (files : ExecFiles fs.State)
    (bytes : (ip off n : ℕ) (s : fs.State) → All IsByte (fs.readi ip off n s).0) where
  abbrev Good : Proc → Type 0
  Good p = SegmentsOk p.paging

  -- The bytes that a read delivers.
  read-then :
      {B : Type 0} (ip off n : ℕ) {k : List ℕ → M (Kernel fs.State) B}
      → ((b : List ℕ) → All IsByte b → Triple Good (k b) (λ _. Good))
      → Triple Good (call (fs.readi ip off n) >>= k) (λ _. Good)
  unfolding call ◌>>=◌
  read-then ip off n t = record {
    run = λ k h. (t (fs.readi ip off n k.fs).0 (bytes ip off n k.fs)).run _ h;
  }

  -- Whatever program headers the file holds, as bytes: the segments that the loop records start at a
  -- page, and what the file holds of them ends within them; where the loop stops at a bad one too.
  pub load_from-SegmentsOk :
      (n ip pt off sz : ℕ)
      → Triple
          (λ p. SegmentsOk p.paging)
          (load_from fs files n ip pt off sz)
          (λ _ p. SegmentsOk p.paging)
  unfolding load_from
  load_from-SegmentsOk zero ip pt off sz = same _
  load_from-SegmentsOk (suc n) ip pt off sz = read-then ip off sizeof_proghdr λ b h.
      branches (not (length b == sizeof_proghdr)) (λ _. same _)
        (λ _.
          branches (not ((proghdr b).type == elf_prog_load))
            (λ _. load_from-SegmentsOk n ip pt _ sz)
            (λ _.
              branches (is_bad (proghdr b)) (λ _. same _)
                (λ e.
                  bind
                    (keeps _
                      λ p g. track_segment-SegmentsOk (proghdr b) p.paging (proghdr-Sized b h) e g)
                    λ _. bind (lifted _) λ sz1.
                      branches (sz1 == 0) (λ _. same _) (λ _. load_from-SegmentsOk n ip pt _ sz1))))
