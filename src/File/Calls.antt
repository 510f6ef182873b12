-- ===== src/File/Calls.antt =====
-- kernel/sysfile.c and kernel/proc.c: the calls on descriptors keep the reference counts right.
use osn_mp2_part_a.Base.{
  ℕ, zero, suc, ◌+◌, ◌<◌, true, false, ◌==◌, ltb, Option, none, some, ◌≡◌, refl, sym, ap, arith,
  Bool-cases, Option-cases, inl, inr, subst,
}
use osn_mp2_part_a.Base.Triple.{Total, AfterOr, bind, returns, matches, weaken, after}
use osn_mp2_part_a.Proc.{nproc}
use osn_mp2_part_a.File.{
  File, Files, nofile, nfile, slot, is_none, find_file, filealloc, argfd, find_fd, set_fd, fdalloc,
  file_at, sys_dup, sys_close, open_file,
}
use osn_mp2_part_a.File.Count.{names, count, count-put}
use osn_mp2_part_a.File.Refs.{
  total, Refs, and_one, Owed, set_fd-Refs, named_ref, filedup-pays, fileclose-takes,
}

find_file-some : (n i : ℕ) (g : ℕ → File) (f : ℕ) → find_file n i g ≡ some f → (g f).ref ≡ 0
unfolding find_file
find_file-some zero i g f e = ground (arith, e)
find_file-some (suc n) i g f e = elim (Bool-cases ((g i).ref == 0)) [
  | inl a ↦ ground (arith, e, a)
  | inr a ↦ ground (arith, find_file-some n (i + 1) g f, e, a)
]

pub find_fd-some :
    (n p i : ℕ) (g : ℕ → Option ℕ) (d : ℕ)
    → find_fd n p i g ≡ some d
    → (g (slot p d) ≡ none) × (d < i + n)
unfolding find_fd
find_fd-some zero p i g d e = ground (arith, e)
find_fd-some (suc n) p i g d e = elim (Bool-cases (is_none (g (slot p i)))) [
  | inl a ↦ ground (arith, e, a)
  | inr a ↦ ground (arith, find_fd-some n p (i + 1) g d, e, a)
]

pub slot_low : (p d : ℕ) → p < nproc → d < nofile → slot p d < total
slot_low p d a b = omega (arith, a, b)

-- What `fdalloc` of `f` leaves.
Given : ℕ → Files → Option ℕ → Files → Type 0
Given f s none t = t ≡ s
Given f s (some d) t =
    (t.files ≡ s.files)
    × ((g : ℕ) → count total g t.ofile ≡ count total g s.ofile + names g (some f))

fdalloc-run : (p f : ℕ) (s : Files) → p < nproc → AfterOr ⊥ (Given f s) (fdalloc p f s)
unfolding fdalloc Given
fdalloc-run p f s low = elim (Option-cases (find_fd nofile p 0 s.ofile)) [
  | inl e ↦ rw (e, fdalloc) refl
  | inr (d, e) ↦
      let h = find_fd-some nofile p 0 s.ofile d e in
      rw (e, fdalloc)
        (
          refl,
          λ g. omega (
            arith,
            count-put total g s.ofile (slot p d) (some f) (slot_low p d low (omega (arith, h.1))),
            ap (names g) h.0,
          ),
        )
]

-- The file that a descriptor in use names.
found :
    (p fd f : ℕ) (s : Files)
    → argfd p fd s ≡ some f
    → (fd < nofile) × (s.ofile (slot p fd) ≡ some f)
found p fd f s e = elim (Bool-cases (ltb fd nofile)) [
  | inl a ↦ ground (arith, e, a)
  | inr a ↦ ground (arith, e, a)
]

module _ (x : ℕ → ℕ) where
  -- After `argfd`,
  abbrev pub Seen : ((ℕ → Option ℕ) → Type 0) → ℕ → ℕ → Option ℕ → Files → Type 0
  Seen D p fd none s = Refs x s × D s.ofile
  Seen D p fd (some f) s = Refs x s × D s.ofile × (fd < nofile) × (s.ofile (slot p fd) ≡ some f)

  -- after `fdalloc` in `sys_dup`,
  abbrev Duped : ℕ → Option ℕ → Files → Type 0
  Duped f none s = Refs x s
  Duped f (some d) s = Owed x f s × (0 < (s.files f).ref)

  -- and after `filealloc` and `fdalloc` in `sys_open`.
  abbrev pub Made : Option ℕ → Files → Type 0
  Made none s = Refs x s
  Made (some f) s = Refs (and_one f x) s

  abbrev Opened : ℕ → Option ℕ → Files → Type 0
  Opened f none s = Refs (and_one f x) s
  Opened f (some d) s = Refs x s

  seen_lem :
      (D : (ℕ → Option ℕ) → Type 0) (p fd : ℕ) (s : Files) (o : Option ℕ)
      → argfd p fd s ≡ o
      → Refs x s
      → D s.ofile
      → Seen D p fd o s
  seen_lem D p fd s none e r d = (r, d)
  seen_lem D p fd s (some f) e r d = let (low, h) = found p fd f s e in (r, d, low, h)

  pub file_at-gives :
      (D : (ℕ → Option ℕ) → Type 0) (p fd : ℕ)
      → Total (λ s. Refs x s × D s.ofile) (file_at p fd) (λ o. Seen D p fd o)
  unfolding file_at
  file_at-gives D p fd = record { run = λ s r. seen_lem D p fd s (argfd p fd s) refl r.0 r.1 }

  duped_lem :
      (f : ℕ) (s t : Files) (o : Option ℕ)
      → Refs x s
      → 0 < (s.files f).ref
      → Given f s o t
      → Duped f o t
  unfolding Given
  duped_lem f s t none r h g = subst (Refs x) (sym g) r
  duped_lem f s t (some d) r h (e, c) = (
    λ g. omega (arith, r g, c g, ap (λ files. (files g).ref) e),
    omega (arith, h, ap (λ files. (files f).ref) e),
  )

  opened_lem :
      (f : ℕ) (s t : Files) (o : Option ℕ) → Refs (and_one f x) s → Given f s o t → Opened f o t
  unfolding Given
  opened_lem f s t none r g = subst (Refs (and_one f x)) (sym g) r
  opened_lem f s t (some d) r (e, c) = λ g. omega (arith, r g, c g, ap (λ files. (files g).ref) e)

  fdalloc-dups :
      (p f : ℕ)
      → p < nproc
      → Total (λ s. Refs x s × (0 < (s.files f).ref)) (fdalloc p f) (λ o. Duped f o)
  fdalloc-dups p f low = record {
    run = λ s r.
        after ⊥ (fdalloc p f s) (λ o t g. duped_lem f s t o r.0 r.1 g) (fdalloc-run p f s low);
  }

  fdalloc-opens : (p f : ℕ) → p < nproc → Total (Refs (and_one f x)) (fdalloc p f) (λ o. Opened f o)
  fdalloc-opens p f low = record {
    run = λ s r. after ⊥ (fdalloc p f s) (λ o t g. opened_lem f s t o r g) (fdalloc-run p f s low);
  }

  -- Nothing is known of the descriptors.
  abbrev pub Any : (ℕ → Option ℕ) → Type 0
  Any g = Unit

  drop_fd :
      (p fd f : ℕ)
      → p < nproc
      → Total (Seen Any p fd (some f)) (set_fd p fd none) (λ _. Refs (and_one f x))
  unfolding set_fd
  drop_fd p fd f low = record {
    run = λ s r.
        set_fd-Refs x (and_one f x) s (slot p fd) none (slot_low p fd low r.2)
          (λ g. omega (arith, ap (names g) r.3)) r.0;
  }

  pub sys_dup-Total : (p fd : ℕ) → p < nproc → Total (Refs x) (sys_dup p fd) (λ _. Refs x)
  unfolding sys_dup
  sys_dup-Total p fd low =
      weaken (λ s r. (r, tt))
        (bind (file_at-gives Any p fd) (λ file.
          matches (Seen Any p fd) file (returns none (λ s h. h.0)) (λ f.
            bind
              (weaken (λ s h. (h.0, named_ref x s (slot p fd) f (slot_low p fd low h.2) h.3 h.0))
                (fdalloc-dups p f low))
              (λ new.
                matches (Duped f) new (returns none (λ s h. h))
                  (λ d. bind (filedup-pays x f Any) (λ _. returns (some d) (λ s h. h)))))))

  pub sys_close-Total : (p fd : ℕ) → p < nproc → Total (Refs x) (sys_close p fd) (λ _. Refs x)
  unfolding sys_close
  sys_close-Total p fd low =
      weaken (λ s r. (r, tt))
        (bind (file_at-gives Any p fd) (λ file.
          matches (Seen Any p fd) file (returns false (λ s h. h.0)) (λ f.
            bind (drop_fd p fd f low)
              (λ _. bind (fileclose-takes x f Any) (λ _. returns true (λ s h. h))))))

  pub filealloc-Total : Total (Refs x) filealloc (λ o. Made o)
  unfolding filealloc
  filealloc-Total = record {
    run = λ s r. elim (Option-cases (find_file nfile 0 s.files)) [
      | inl e ↦ rw (e, filealloc) r
      | inr (f, e) ↦
          rw (e, filealloc) (λ g. ground (arith, r g, find_file-some nfile 0 s.files f e))
    ];
  }

  pub open_file-Total : (p : ℕ) → p < nproc → Total (Refs x) (open_file p) (λ _. Refs x)
  unfolding open_file
  open_file-Total p low = bind filealloc-Total (λ file.
      matches Made file (returns none (λ s h. h)) (λ f. bind (fdalloc-opens p f low) (λ new.
        matches (Opened f) new (bind (fileclose-takes x f Any) (λ _. returns none (λ s h. h)))
          (λ d. returns (some (f, d)) (λ s h. h)))))
