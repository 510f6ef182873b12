-- ===== src/File/Refs.antt =====
-- The reference counts of open files are right: each is the number of descriptors that name the file,
-- and of the other references. The calls keep this, and so none of them panics.
use osn_mp2_part_a.Base.{
  ℕ, ◌+◌, ◌-◌, ◌*◌, ◌<◌, false, ltb, Option, some, ◌≡◌, refl, sym, ap, arith, Bool-cases, inl, inr,
  subst,
}
use osn_mp2_part_a.Base.Triple.{Total, AfterOr, after}
use osn_mp2_part_a.Proc.{nproc}
use osn_mp2_part_a.File.{Files, nofile, put_fd, filedup, fileclose}
use osn_mp2_part_a.File.Count.{names, count, count-put, count-names}

abbrev pub total : ℕ
total = nproc * nofile

-- `others` is the number of the references to a file that no descriptor holds.
abbrev pub Refs : (ℕ → ℕ) → Files → Type 0
Refs others s = (f : ℕ) → (s.files f).ref ≡ count total f s.ofile + others f

-- One reference to `f` more.
abbrev pub and_one : ℕ → (ℕ → ℕ) → ℕ → ℕ
and_one f others g = others g + names g (some f)

-- The descriptor changes, and the references are those that it holds no more, or not yet.
pub set_fd-Refs :
    (x y : ℕ → ℕ) (s : Files) (k : ℕ) (o : Option ℕ)
    → k < total
    → ((f : ℕ) → x f + names f (s.ofile k) ≡ y f + names f o)
    → Refs x s
    → Refs y (record s { ofile = put_fd s.ofile k o })
set_fd-Refs x y s k o low e h f = omega (arith, count-put total f s.ofile k o low, e f, h f)

-- What `filedup` and `fileclose` do to the counts.
filedup-run :
    (f : ℕ) (s : Files)
    → 0 < (s.files f).ref
    → AfterOr ⊥
        (λ _ t.
          (t.ofile ≡ s.ofile) × ((g : ℕ) → (t.files g).ref ≡ (s.files g).ref + names g (some f)))
        (filedup f s)
unfolding filedup
filedup-run f s h =
    let e : ltb (s.files f).ref 1 ≡ false = ground (arith, h) in
    rw (e, filedup) (refl, λ g. ground arith)

fileclose-run :
    (f : ℕ) (s : Files)
    → 0 < (s.files f).ref
    → AfterOr ⊥
        (λ _ t.
          (t.ofile ≡ s.ofile) × ((g : ℕ) → (t.files g).ref + names g (some f) ≡ (s.files g).ref))
        (fileclose f s)
unfolding fileclose
fileclose-run f s h =
    let e : ltb (s.files f).ref 1 ≡ false = ground (arith, h) in
    elim (Bool-cases (ltb 0 ((s.files f).ref - 1))) [
      | inl b ↦ rw (e, b, fileclose) (refl, λ g. ground (arith, h))
      | inr b ↦ rw (e, b, fileclose) (refl, λ g. ground (arith, h, b))
    ]

same_count :
    (s t : Files) → t.ofile ≡ s.ofile → (g : ℕ) → count total g t.ofile ≡ count total g s.ofile
same_count s t e g = ap (count total g) e

-- A descriptor names the file, or something else refers to it: it is not free.
pub named_ref :
    (x : ℕ → ℕ) (s : Files) (k f : ℕ)
    → k < total
    → s.ofile k ≡ some f
    → Refs x s
    → 0 < (s.files f).ref
named_ref x s k f low e r = omega (arith, count-names total f s.ofile k low e, r f)

-- The table lacks one reference to `f`.
abbrev pub Owed : (ℕ → ℕ) → ℕ → Files → Type 0
Owed x f s = (g : ℕ) → (s.files g).ref + names g (some f) ≡ count total g s.ofile + x g

module _ (x : ℕ → ℕ) (f : ℕ) (D : (ℕ → Option ℕ) → Type 0) where
  -- `D` is what is known of the descriptors.
  pub filedup-gives :
      Total
        (λ s. Refs x s × (0 < (s.files f).ref) × D s.ofile)
        (filedup f)
        (λ _ s. Refs (and_one f x) s × D s.ofile)
  filedup-gives = record {
    run = λ s r.
        after ⊥ (filedup f s)
          (λ _ t h. (λ g. omega (arith, r.0 g, h.1 g, same_count s t h.0 g), subst D (sym h.0) r.2))
          (filedup-run f s r.1);
  }

  pub filedup-pays : Total (λ s. Owed x f s × (0 < (s.files f).ref)) (filedup f) (λ _. Refs x)
  filedup-pays = record {
    run = λ s r.
        after ⊥ (filedup f s) (λ _ t h g. omega (arith, r.0 g, h.1 g, same_count s t h.0 g))
          (filedup-run f s r.1);
  }

  pub fileclose-takes : Total (λ s. Refs (and_one f x) s) (fileclose f) (λ _. Refs x)
  fileclose-takes = record {
    run = λ s r.
        after ⊥ (fileclose f s) (λ _ t h g. omega (arith, r g, h.1 g, same_count s t h.0 g))
          (fileclose-run f s (ground (arith, r f)));
  }

  pub fileclose-owes :
      Total
        (λ s. Refs x s × (0 < (s.files f).ref) × D s.ofile)
        (fileclose f)
        (λ _ s. Owed x f s × D s.ofile)
  fileclose-owes = record {
    run = λ s r.
        after ⊥ (fileclose f s)
          (λ _ t h. (λ g. omega (arith, r.0 g, h.1 g, same_count s t h.0 g), subst D (sym h.0) r.2))
          (fileclose-run f s r.1);
  }
