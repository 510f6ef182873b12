-- ===== src/Exec/Stack.antt =====
-- Where `kexec` puts the arguments of a program on its stack.
use osn_mp2_part_a.Base.{
  ℕ, ◌+◌, ◌%◌, ◌^◌, ◌≤◌, ◌<◌, false, not, leb, ltb, Option, none, some, List, [], ◌∷◌, length, ◌≡◌,
  refl, arith, All,
}
use osn_mp2_part_a.Base.Triple.{Triple, bind, returns, branches, matches, anything}
use osn_mp2_part_a.Paging.Kernel.{FileSystem}
use osn_mp2_part_a.Exec.{ExecFiles, Arg, maxarg, push, push_args}

-- The strings lie below `top` one below the other, each at its pointer and a multiple of 16, and the
-- last one is at `last`, not below `base`.
abbrev pub Placed : ℕ → ℕ → List Arg → List ℕ → ℕ → Type 0
Placed base top [] [] last = top ≡ last
Placed base top [] (p ∷ ps) last = ⊥
Placed base top (a ∷ args) [] last = ⊥
Placed base top (a ∷ args) (p ∷ ps) last =
    (p + (a.len + 1) ≤ top) × (base ≤ p) × (p % 16 ≡ 0) × Placed base p args ps last

-- No string is longer than the kernel's address space above 0 allows.
abbrev pub Fits : ℕ → Arg → Type 0
Fits base a = a.len + 1 ≤ base

-- One push.
push_lem :
    (base sp n : ℕ)
    → n ≤ base
    → base ≤ sp
    → sp < 2 ^ 64
    → ltb (push sp n) base ≡ false
    → (push sp n + n ≤ sp) × (base ≤ push sp n) × (push sp n % 16 ≡ 0)
push_lem base sp n h k l e = ground arith

-- What the loop of the pushes returns, from argument `argc` on.
abbrev pub ArgsPlaced : ℕ → List Arg → ℕ → ℕ → Option (ℕ × List ℕ) → Type 0
ArgsPlaced base args argc sp none = Unit
ArgsPlaced base args argc sp (some (last, ps)) =
    Placed base sp args ps last × (base ≤ last) × (length ps + argc ≤ maxarg)

module _ (fs : FileSystem) (files : ExecFiles fs.State) (pt base : ℕ) where
  -- From a stack pointer above `base` and below 2^64, where no string is longer than `base`, and within
  -- the 32 arguments: if the loop returns without a failure, every string is in its place on the stack,
  -- aligned and apart from the others, above `base`, and there are at most 32.
  pub push_args-ArgsPlaced :
      (args : List Arg) (argc sp : ℕ)
      → All (Fits base) args
      → base ≤ sp
      → sp < 2 ^ 64
      → argc ≤ maxarg
      → Triple
          (λ k. Unit)
          (push_args fs files pt base args argc sp)
          (λ r k. ArgsPlaced base args argc sp r)
  unfolding push_args
  push_args-ArgsPlaced [] argc sp fit h l c = returns _ λ k u. (refl, h, omega arith)
  push_args-ArgsPlaced (a ∷ rest) argc sp (fit, fits) h l c =
      branches (leb maxarg argc) (λ e. returns none λ k u. tt)
        (λ e.
          branches (ltb (push sp (a.len + 1)) base) (λ f. returns none λ k u. tt)
            (λ f.
              let (below, above, aligned) = push_lem base sp (a.len + 1) fit h l f in
              bind anything λ copied.
                branches (not copied) (λ g. returns none λ k u. tt)
                  (λ g.
                    bind
                      (push_args-ArgsPlaced rest (argc + 1) (push sp (a.len + 1)) fits above
                        (omega arith) (ground arith))
                      λ others.
                        matches (λ o k. ArgsPlaced base rest (argc + 1) (push sp (a.len + 1)) o)
                          others (returns none λ k u. tt)
                          (λ (last, ps). returns _ λ k (placed, low, count).
                            ((below, above, aligned, placed), low, omega arith)))))
