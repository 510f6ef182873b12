-- ===== src/File/Pipes.antt =====
-- kernel/pipe.c and kernel/sysfile.c: `pipealloc` and `sys_pipe` keep the reference counts right.
use osn_mp2_part_a.Base.{
  ℕ, ◌<◌, Bool, true, false, Option, none, some, ◌≡◌, ◌≢◌, refl, sym, ap, ◌∙◌, arith, Option-cases,
  inl, inr, subst,
}
use osn_mp2_part_a.Base.Result.{pure, ◌>>◌}
use osn_mp2_part_a.Base.Triple.{
  Total, AfterOr, bind, returns, branches, matches, weaken, knowing, after,
}
use osn_mp2_part_a.Proc.{nproc}
use osn_mp2_part_a.File.{
  File, Files, nofile, slot, put_fd, fileclose, find_fd, set_fd, fdalloc, pipe_end, set_file,
  pipealloc, pipe_fds, sys_pipe,
}
use osn_mp2_part_a.File.Count.{names, count, count-put, put_fd-other, put_fd-same}
use osn_mp2_part_a.File.Refs.{total, Refs, and_one, set_fd-Refs, fileclose-takes}
use osn_mp2_part_a.File.Calls.{filealloc-Total, Made, find_fd-some, slot_low}

-- What `fdalloc` of `f` does to the descriptors.
Shaped : ℕ → ℕ → Files → Option ℕ → Files → Type 0
Shaped p f s none t = t ≡ s
Shaped p f s (some d) t =
    (t.files ≡ s.files)
    × (t.ofile ≡ put_fd s.ofile (slot p d) (some f))
    × (s.ofile (slot p d) ≡ none)
    × (d < nofile)

fdalloc-Shaped : (p f : ℕ) (s : Files) → AfterOr ⊥ (Shaped p f s) (fdalloc p f s)
unfolding fdalloc Shaped
fdalloc-Shaped p f s = elim (Option-cases (find_fd nofile p 0 s.ofile)) [
  | inl e ↦ rw (e, fdalloc) refl
  | inr (d, e) ↦
      let h = find_fd-some nofile p 0 s.ofile d e in
      rw (e, fdalloc) (refl, refl, h.0, omega (arith, h.1))
]

none_is : (o : Option ℕ) (a : ℕ) → o ≡ none → o ≢ some a
none_is o a e q = ground (arith, e, q)

-- Two references that are not in a descriptor, in the other order.
other_order :
    (x : ℕ → ℕ) (a b : ℕ) (s : Files)
    → Refs (and_one b (and_one a x)) s
    → Refs (and_one a (and_one b x)) s
other_order x a b s r g = omega (arith, r g)

module _ (x : ℕ → ℕ) where
  abbrev Ends : Option (ℕ × ℕ) → Files → Type 0
  Ends none s = Refs x s
  Ends (some (a, b)) s = Refs (and_one a (and_one b x)) s

  set_file-keeps :
      (y : ℕ → ℕ) (f : ℕ) (g : File → File)
      → ((v : File) → (g v).ref ≡ v.ref)
      → Total (Refs y) (set_file f g) (λ _. Refs y)
  unfolding set_file
  set_file-keeps y f g e = record { run = λ s r j. ground (arith, r j, e (s.files f)) }

  -- The end of the failures.
  close_both :
      {A : Type 0} {Q : A → Files → Type 0} (a b : ℕ) (v : A)
      → ((s : Files) → Refs x s → Q v s)
      → Total (Refs (and_one a (and_one b x))) (do fileclose a; fileclose b; pure v) Q
  close_both a b v k =
      bind (fileclose-takes (and_one b x) a (λ _. Unit))
        (λ _. bind (fileclose-takes x b (λ _. Unit)) (λ _. returns v k))

  pipealloc-Ends : (page : Option ℕ) → Total (Refs x) (pipealloc page) (λ o. Ends o)
  unfolding pipealloc
  pipealloc-Ends page = bind (filealloc-Total x) (λ reader.
      matches (Made x) reader (returns none (λ s h. h)) (λ a.
        bind (filealloc-Total (and_one a x)) (λ writer.
          matches (Made (and_one a x)) writer
            (bind (fileclose-takes x a (λ _. Unit)) (λ _. returns none (λ s h. h)))
            (λ b. weaken (other_order x a b) (
              matches (λ o. Refs (and_one a (and_one b x))) page (close_both a b none (λ s h. h))
                (λ pi.
                  bind
                    (set_file-keeps (and_one a (and_one b x)) a (pipe_end pi true false)
                      (λ v. refl))
                    (λ _.
                      bind
                        (set_file-keeps (and_one a (and_one b x)) b (pipe_end pi false true)
                          (λ v. refl))
                        (λ _. returns (some (a, b)) (λ s h. h)))))))))

  -- What is known of the descriptors, with the references but for one more to `f`, or without.
  abbrev Waits :
      ℕ
      → ((ℕ → Option ℕ) → Type 0)
      → (ℕ → (ℕ → Option ℕ) → Type 0)
      → (ℕ → ℕ)
      → Option ℕ
      → Files
      → Type 0
  Waits f D E y none s = Refs (and_one f y) s × D s.ofile
  Waits f D E y (some d) s = Refs y s × E d s.ofile × (d < nofile)

  shaped_lem :
      (y : ℕ → ℕ) (p f : ℕ) (D : (ℕ → Option ℕ) → Type 0) (E : ℕ → (ℕ → Option ℕ) → Type 0)
      → p < nproc
      → ((g : ℕ → Option ℕ) (d : ℕ)
          → D g
          → g (slot p d) ≡ none
          → E d (put_fd g (slot p d) (some f)))
      → (s t : Files) (o : Option ℕ) → Refs (and_one f y) s
      → D s.ofile
      → Shaped p f s o t
      → Waits f D E y o t
  unfolding Shaped
  shaped_lem y p f D E low h s t none r k q =
      subst (λ (t : Files). Refs (and_one f y) t × D t.ofile) (sym q) (r, k)
  shaped_lem y p f D E low h s t (some d) r k (e, q, free, l) = (
    λ g. omega (
      arith,
      r g,
      ap (λ files. (files g).ref) e,
      ap (count total g) q,
      count-put total g s.ofile (slot p d) (some f) (slot_low p d low l),
      ap (names g) free,
    ),
    subst (E d) (sym q) (h s.ofile d k free),
    l,
  )

  fdalloc-Waits :
      (y : ℕ → ℕ) (p f : ℕ) (D : (ℕ → Option ℕ) → Type 0) (E : ℕ → (ℕ → Option ℕ) → Type 0)
      → p < nproc
      → ((g : ℕ → Option ℕ) (d : ℕ)
          → D g
          → g (slot p d) ≡ none
          → E d (put_fd g (slot p d) (some f)))
      → Total (λ s. Refs (and_one f y) s × D s.ofile) (fdalloc p f) (λ o. Waits f D E y o)
  fdalloc-Waits y p f D E low h = record {
    run = λ s r.
        after ⊥ (fdalloc p f s) (λ o t q. shaped_lem y p f D E low h s t o r.0 r.1 q)
          (fdalloc-Shaped p f s);
  }

  -- A descriptor is cleared, and its reference is the caller's again.
  clear_fd :
      (y : ℕ → ℕ) (p d f : ℕ) (D E : (ℕ → Option ℕ) → Type 0)
      → p < nproc
      → d < nofile
      → ((g : ℕ → Option ℕ) → D g → (g (slot p d) ≡ some f) × E (put_fd g (slot p d) none))
      → Total
          (λ s. Refs y s × D s.ofile)
          (set_fd p d none)
          (λ _ s. Refs (and_one f y) s × E s.ofile)
  unfolding set_fd
  clear_fd y p d f D E low l h = record {
    run = λ s r. (
      set_fd-Refs y (and_one f y) s (slot p d) none (slot_low p d low l)
          (λ g. omega (arith, ap (names g) (h s.ofile r.1).0)) r.0,
      (h s.ofile r.1).1,
    );
  }

  -- The descriptors of the first end, and of both.
  abbrev One : ℕ → ℕ → ℕ → (ℕ → Option ℕ) → Type 0
  One p a d g = g (slot p d) ≡ some a

  abbrev Two : ℕ → ℕ → ℕ → ℕ → ℕ → (ℕ → Option ℕ) → Type 0
  Two p a b d e g = (g (slot p d) ≡ some a) × (g (slot p e) ≡ some b) × (slot p d ≢ slot p e)

  two_lem :
      (p a b d e : ℕ) (g : ℕ → Option ℕ)
      → One p a d g
      → g (slot p e) ≡ none
      → Two p a b d e (put_fd g (slot p e) (some b))
  two_lem p a b d e g h free =
      let n : slot p e ≢ slot p d = λ q. none_is (g (slot p e)) a free (ap g q ∙ h) in
      (
        put_fd-other g (slot p e) (slot p d) (some b) n ∙ h,
        put_fd-same g (slot p e) (slot p e) (some b) refl,
        λ q. n (sym q),
      )

  undo :
      (p a b d e : ℕ)
      → p < nproc
      → d < nofile
      → e < nofile
      → Total
          (λ s. Refs x s × Two p a b d e s.ofile × (e < nofile))
          (do set_fd p d none; set_fd p e none; fileclose a; fileclose b; pure false)
          (λ _. Refs x)
  undo p a b d e low l k =
      bind
        (weaken (λ s h. (h.0, h.1))
          (clear_fd x p d a (Two p a b d e) (One p b e) low l
            (λ g h. (h.0, put_fd-other g (slot p d) (slot p e) none h.2 ∙ h.1))))
        (λ _.
          bind (clear_fd (and_one a x) p e b (One p b e) (λ _. Unit) low k (λ g h. (h, tt)))
            (λ _. weaken (λ s h. other_order x a b s h.0) (close_both a b false (λ s h. h))))

  pipe_fds-Total :
      (p : ℕ) (copied : Bool) (a b : ℕ)
      → p < nproc
      → Total (Refs (and_one a (and_one b x))) (pipe_fds p copied a b) (λ _. Refs x)
  unfolding pipe_fds
  pipe_fds-Total p copied a b low =
      bind
        (weaken (λ s h. (h, tt))
          (fdalloc-Waits (and_one b x) p a (λ _. Unit) (One p a) low
            (λ g d _ free. put_fd-same g (slot p d) (slot p d) (some a) refl)))
        (λ fd0.
          matches (Waits a (λ _. Unit) (One p a) (and_one b x)) fd0
            (weaken (λ s h. h.0) (close_both a b false (λ s h. h)))
            (λ d.
              knowing (d < nofile) (λ s h. h.2)
                (λ l.
                  bind
                    (weaken (λ s h. (h.0, h.1))
                      (fdalloc-Waits x p b (One p a d) (Two p a b d) low
                        (λ g e h free. two_lem p a b d e g h free)))
                    (λ fd1.
                      matches (Waits b (One p a d) (Two p a b d) x) fd1
                        (bind
                          (clear_fd (and_one b x) p d a (One p a d) (λ _. Unit) low l
                            (λ g h. (h, tt)))
                          (λ _. weaken (λ s h. h.0) (close_both a b false (λ s h. h))))
                        (λ e.
                          knowing (e < nofile) (λ s h. h.2)
                            (λ k.
                              branches copied (λ _. returns true (λ s h. h.0))
                                (λ _. undo p a b d e low l k)))))))

  pub sys_pipe-Total :
      (p : ℕ) (page : Option ℕ) (copied : Bool)
      → p < nproc
      → Total (Refs x) (sys_pipe p page copied) (λ _. Refs x)
  unfolding sys_pipe
  sys_pipe-Total p page copied low = bind (pipealloc-Ends page) (λ ends.
      matches Ends ends (returns false (λ s h. h)) (λ r. pipe_fds-Total p copied r.0 r.1 low))
