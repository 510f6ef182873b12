-- ===== src/File/Loops.antt =====
-- kernel/proc.c: the loops of `kfork` and `kexit` over the descriptors, and all the calls together.
use osn_mp2_part_a.Base.{Bool, ℕ, zero, suc, ◌+◌, ◌≤◌, ◌<◌, Option, none, some, ◌≡◌, ◌∙◌, ap, arith}
use osn_mp2_part_a.Base.Result.{ok, M, pure, ◌>>=◌, ◌>>◌}
use osn_mp2_part_a.Base.Triple.{Total, AfterOr, bind, returns, matches, weaken, knowing, returned}
use osn_mp2_part_a.Proc.{nproc}
use osn_mp2_part_a.File.Pipes.{sys_pipe-Total}
use osn_mp2_part_a.File.{
  sys_pipe, Files, nofile, slot, put_fd, filedup, fileclose, set_fd, sys_dup, sys_close, open_file,
  dup_all, close_all,
}
use osn_mp2_part_a.File.Count.{names, count-put, put_fd-other}
use osn_mp2_part_a.File.Refs.{
  total, Refs, and_one, Owed, set_fd-Refs, named_ref, filedup-gives, fileclose-owes,
}
use osn_mp2_part_a.File.Calls.{
  slot_low, Seen, Any, file_at-gives, sys_dup-Total, sys_close-Total, open_file-Total,
}

-- The process has no descriptor from `fd` on.
abbrev Clear : ℕ → ℕ → (ℕ → Option ℕ) → Type 0
Clear q fd g = (d : ℕ) → fd ≤ d → d < nofile → g (slot q d) ≡ none

later-Clear : (q fd : ℕ) (g : ℕ → Option ℕ) → Clear q fd g → Clear q (fd + 1) g
later-Clear q fd g c d a b = c d (omega arith) b

put-Clear :
    (q fd : ℕ) (o : Option ℕ) (g : ℕ → Option ℕ)
    → Clear q fd g
    → Clear q (fd + 1) (put_fd g (slot q fd) o)
put-Clear q fd o g c d a b =
    put_fd-other g (slot q fd) (slot q d) o (λ e. omega (arith, e, a)) ∙ c d (omega arith) b

module _ (x : ℕ → ℕ) where
  give_fd :
      (q fd f : ℕ)
      → q < nproc
      → fd < nofile
      → Total
          (λ s. Refs (and_one f x) s × Clear q fd s.ofile)
          (set_fd q fd (some f))
          (λ _ s. Refs x s × Clear q (fd + 1) s.ofile)
  unfolding set_fd
  give_fd q fd f low l = record {
    run = λ s r. (
      set_fd-Refs (and_one f x) x s (slot q fd) (some f) (slot_low q fd low l)
          (λ g. omega (arith, ap (names g) (r.1 fd (omega arith) l))) r.0,
      put-Clear q fd (some f) s.ofile r.1,
    );
  }

  dup_one :
      (p q fd : ℕ) (o : Option ℕ)
      → p < nproc
      → q < nproc
      → Total
          (Seen x (Clear q fd) p fd o)
          (elim o [ none ↦ pure tt | some f ↦ do filedup f; set_fd q fd (some f) ])
          (λ _ s. Refs x s × Clear q (fd + 1) s.ofile)
  dup_one p q fd o low low' =
      matches (Seen x (Clear q fd) p fd) o (returns tt (λ s h. (h.0, later-Clear q fd s.ofile h.1)))
        (λ f.
          knowing (fd < nofile) (λ s h. h.2)
            (λ l.
              bind
                (weaken
                  (λ s h. (h.0, named_ref x s (slot p fd) f (slot_low p fd low l) h.3 h.0, h.1))
                  (filedup-gives x f (Clear q fd)))
                (λ _. give_fd q fd f low' l)))

  dup_all-Total :
      (n p q fd : ℕ)
      → p < nproc
      → q < nproc
      → Total (λ s. Refs x s × Clear q fd s.ofile) (dup_all n p q fd) (λ _. Refs x)
  unfolding dup_all
  dup_all-Total zero p q fd a b = returns tt (λ s h. h.0)
  dup_all-Total (suc n) p q fd a b =
      bind (file_at-gives x (Clear q fd) p fd)
        (λ file. bind (dup_one p q fd file a b) (λ _. dup_all-Total n p q (fd + 1) a b))

  end_fd :
      (p fd f : ℕ)
      → p < nproc
      → fd < nofile
      → Total (λ s. Owed x f s × (s.ofile (slot p fd) ≡ some f)) (set_fd p fd none) (λ _. Refs x)
  unfolding set_fd
  end_fd p fd f low l = record {
    run = λ s r g. omega (
      arith,
      r.0 g,
      count-put total g s.ofile (slot p fd) none (slot_low p fd low l),
      ap (names g) r.1,
    );
  }

  close_one :
      (p fd : ℕ) (o : Option ℕ)
      → p < nproc
      → Total
          (Seen x (Any x) p fd o)
          (elim o [ none ↦ pure tt | some f ↦ do fileclose f; set_fd p fd none ])
          (λ _. Refs x)
  close_one p fd o low = matches (Seen x (Any x) p fd) o (returns tt (λ s h. h.0)) (λ f.
      knowing (fd < nofile) (λ s h. h.2)
        (λ l.
          bind
            (weaken (λ s h. (h.0, named_ref x s (slot p fd) f (slot_low p fd low l) h.3 h.0, h.3))
              (fileclose-owes x f (λ g. g (slot p fd) ≡ some f)))
            (λ _. end_fd p fd f low l)))

  close_all-Total : (n p fd : ℕ) → p < nproc → Total (Refs x) (close_all n p fd) (λ _. Refs x)
  unfolding close_all
  close_all-Total zero p fd low = returns tt (λ s h. h)
  close_all-Total (suc n) p fd low =
      bind (weaken (λ s h. (h, tt)) (file_at-gives x (Any x) p fd))
        (λ file. bind (close_one p fd file low) (λ _. close_all-Total n p (fd + 1) low))

-- The calls that make, copy and drop descriptors, in the parts of them that do; `fork p q` is the loop
-- of `kfork` by `p` for the child `q`, and `exit p` that of `kexit`; `make_pipe` gets the page of the pipe,
-- if there is one, and whether the numbers were copied to the caller.
pub data Call : Type 0 where
  dup close : ℕ → ℕ → Call
  open_new exit : ℕ → Call
  fork : ℕ → ℕ → Call
  make_pipe : ℕ → Option ℕ → Bool → Call

abbrev ignore : {A : Type 0} → M Files A → M Files (Unit {0})
ignore m = m >>= λ _. pure tt

abbrev pub perform : Call → M Files (Unit {0})
perform (dup p fd) = ignore (sys_dup p fd)
perform (close p fd) = ignore (sys_close p fd)
perform (open_new p) = ignore (open_file p)
perform (fork p q) = dup_all nofile p q 0
perform (exit p) = close_all nofile p 0
perform (make_pipe p page copied) = ignore (sys_pipe p page copied)

-- The caller is a process, and the child of `kfork` is one without open files.
abbrev pub Allowed : Call → Files → Type 0
Allowed (dup p fd) s = p < nproc
Allowed (close p fd) s = p < nproc
Allowed (open_new p) s = p < nproc
Allowed (fork p q) s =
    (p < nproc) × (q < nproc) × ((d : ℕ) → d < nofile → s.ofile (slot q d) ≡ none)
Allowed (exit p) s = p < nproc
Allowed (make_pipe p page copied) s = p < nproc

ignore-Total :
    {A : Type 0} (x : ℕ → ℕ) (m : M Files A)
    → Total (Refs x) m (λ _. Refs x)
    → Total (Refs x) (ignore m) (λ _. Refs x)
ignore-Total x m h = bind h (λ _. returns tt (λ s r. r))

perform-After :
    (x : ℕ → ℕ) (c : Call) (s : Files)
    → Allowed c s
    → Refs x s
    → AfterOr ⊥ (λ _. Refs x) (perform c s)
perform-After x (dup p fd) s a r = (ignore-Total x _ (sys_dup-Total x p fd a)).run s r
perform-After x (close p fd) s a r = (ignore-Total x _ (sys_close-Total x p fd a)).run s r
perform-After x (open_new p) s a r = (ignore-Total x _ (open_file-Total x p a)).run s r
perform-After x (fork p q) s a r =
    (dup_all-Total x nofile p q 0 a.0 a.1).run s (r, λ d l h. a.2 d h)
perform-After x (exit p) s a r = (close_all-Total x nofile p 0 a).run s r
perform-After x (make_pipe p page copied) s a r =
    (ignore-Total x _ (sys_pipe-Total x p page copied a)).run s r

-- In a table of files where each count is the number of references to the file, none of the calls on
-- descriptors panics, whether it succeeds or fails, and afterwards each count is that number again.
pub perform-Refs :
    (others : ℕ → ℕ) (c : Call) (s : Files)
    → Allowed c s
    → Refs others s
    → (t : Files) × (perform c s ≡ ok (tt, t)) × Refs others t
perform-Refs others c s a r =
    let (_, t, e, h) = returned (perform c s) (perform-After others c s a r) in (t, e, h)
