-- ===== src/Sysproc/Bounds.antt =====
-- `sys_sbrk` keeps the size of a process within its address space.
use osn_mp2_part_a.Base.{
  ℕ, ◌+◌, ◌-◌, ◌%◌, ◌^◌, ◌≤◌, ◌<◌, true, not, ◌&&◌, ◌||◌, leb, ltb, if◌then◌else◌, Option, none,
  some, ◌≡◌, arith, Bool-cases, inl, inr,
}
use osn_mp2_part_a.Base.Result.{Result, ok, panic, pure, ◌>>=◌}
use osn_mp2_part_a.Base.Triple.{Triple, After, bind, returns, branches, anything}
use osn_mp2_part_a.Riscv.{pgroundup, trapframe}
use osn_mp2_part_a.Kalloc.{Machine}
use osn_mp2_part_a.Vm.Uvm.{uvmdealloc}
use osn_mp2_part_a.Paging.Kernel.{FileSystem, Kernel, lift, get_proc, set_proc}
use osn_mp2_part_a.Sysproc.{is_negative, sys_sbrk}

-- The smaller of two sizes.
abbrev smaller : ℕ → ℕ → ℕ
smaller oldsz newsz = if leb oldsz newsz then oldsz else newsz

uvmdealloc-size :
    (pt oldsz newsz : ℕ)
    → Triple (λ k. Unit) (uvmdealloc pt oldsz newsz) (λ a k. a ≡ smaller oldsz newsz)
unfolding uvmdealloc
uvmdealloc-size pt oldsz newsz =
    branches (leb oldsz newsz) (λ e. returns oldsz λ k h. ground arith)
      (λ e.
        branches (ltb (pgroundup newsz) (pgroundup oldsz))
          (λ f. bind anything λ _. returns newsz λ k h. ground arith)
          (λ f. returns newsz λ k h. ground arith))

-- What `sys_sbrk n` returns for a process of size `sz`, and the size after it: a growth up to the trap
-- frame, no change for a growth beyond it, and a shrink by `2 ^ 32 - n`, or none below 0.
abbrev pub sbrk_result : ℕ → ℕ → Option ℕ × ℕ
sbrk_result sz n =
    if ltb n (2 ^ 31)
    then (if leb (sz + n) trapframe then (some sz, sz + n) else (none, sz))
    else if leb (2 ^ 32) (sz + n)
    then (some sz, sz + n - 2 ^ 32)
    else (some sz, sz)

abbrev pub Sbrk : ℕ → ℕ → Option ℕ → ℕ → Type 0
Sbrk sz n r after =
    (r ≡ (sbrk_result sz n).0) × (after ≡ (sbrk_result sz n).1) × (after ≤ trapframe)

module _ (fs : FileSystem) (n : ℕ) (k : Kernel fs.State) (small : n < 2 ^ 32)
    (h : k.proc.sz ≤ trapframe) where
  -- The size that a process which gives back memory asks for.
  abbrev wanted : ℕ
  wanted = (k.proc.sz + 2 ^ 64 - (2 ^ 32 - n)) % 2 ^ 64

  shrunk_result :
      (r : Result (ℕ × Machine))
      → is_negative n ≡ true
      → After (λ a t. a ≡ smaller k.proc.sz wanted) r
      → After (λ a t. Sbrk k.proc.sz n (some k.proc.sz) a) r
  shrunk_result (ok (a, t)) e q = ground (arith, q)
  shrunk_result (panic x) e q = tt

  -- `sys_sbrk` of a 32-bit amount by a process whose size is at most the address of the trap frame, if
  -- it returns: the result and the new size, which is at most that address again.
  pub sys_sbrk_lem : After (λ r t. Sbrk k.proc.sz n r t.proc.sz) (sys_sbrk fs n k)
  unfolding sys_sbrk get_proc set_proc lift ◌>>=◌ pure
  sys_sbrk_lem = elim (Bool-cases (ltb 0 n && not (is_negative n))) [
    | inl e ↦
        elim (Bool-cases
          (ltb ((k.proc.sz + n) % 2 ^ 64) k.proc.sz || ltb trapframe ((k.proc.sz + n) % 2 ^ 64))) [
            | inl f ↦ rw (e, f, sys_sbrk) (ground arith)
            | inr f ↦ rw (e, f, sys_sbrk) (ground arith)
          ]
    | inr e ↦ elim (Bool-cases (is_negative n)) [
      | inr f ↦ rw (e, f, sys_sbrk) (ground arith)
      | inl f ↦
          rw (e, f, sys_sbrk)
            (shrink (uvmdealloc k.proc.pagetable k.proc.sz wanted k.machine) (
              shrunk_result _ f
                ((uvmdealloc-size k.proc.pagetable k.proc.sz wanted).run k.machine tt)))
    ]
  ]
    where
      shrink :
          (r : Result (ℕ × Machine))
          → After (λ a t. Sbrk k.proc.sz n (some k.proc.sz) a) r
          → After
              (λ r t. Sbrk k.proc.sz n r t.proc.sz)
              ((lift (λ m. r) >>= λ sz.
                  set_proc (λ q. record q { sz = sz }) >>= λ _. pure (some k.proc.sz))
                k)
      shrink (ok (a, t)) q = q
      shrink (panic x) q = tt
