-- ===== src/Paging/Kernel.antt =====
-- The state that the paging code of kernel/vm.c works on: the machine, the calling process (what
-- `myproc()` returns) and the file system. A call that waits for the disk lets other processes run;
-- the state here is what this process sees with none of them changing it.
pub mod Triple
use osn_mp2_part_a.Base.{ℕ, zero, suc, ◌+◌, Bool, true, Option, List, [], ◌∷◌}
use osn_mp2_part_a.Base.Result.{Result, ok, panic, M, pure}
use osn_mp2_part_a.Memory.{Memory, update}
use osn_mp2_part_a.Kalloc.{Machine}
use osn_mp2_part_a.Paging.{PagingInfo, PageInfo, put}

-- What the paging code calls of kernel/fs.c, kernel/log.c, kernel/file.c and kernel/sysfile.c. An
-- inode is named by a number. `readi` gives the bytes that it delivers, so its count is their
-- length; `writei` gives its count, or `none` for -1; `create` makes an empty file of a name and
-- returns its inode locked; `filealloc` says whether it found an entry; `drop` is `nlink = 0` and
-- `iupdate`.
pub record FileSystem : Type 1 where
  pub State : Type 0
  pub begin_op : State → State
  pub end_op : State → State
  pub ilock : ℕ → State → State
  pub iunlock : ℕ → State → State
  pub iunlockput : ℕ → State → State
  pub readi : ℕ → ℕ → ℕ → State → List ℕ × State
  pub writei : ℕ → ℕ → List ℕ → State → Option ℕ × State
  pub create : List ℕ → State → Option ℕ × State
  pub filealloc : State → Bool × State
  pub drop : ℕ → State → State

-- The fields of `struct proc` that the paging code uses.
pub record Proc : Type 0 where
  pub pid : ℕ
  pub sz : ℕ
  pub pagetable : ℕ
  pub killed : Bool
  pub paging : PagingInfo

pub record Kernel (S : Type 0) : Type 0 where
  pub machine : Machine
  pub proc : Proc
  pub fs : S

module _ {S : Type 0} where
  -- A computation on the machine alone.
  unfoldable pub lift : {A : Type 0} → M Machine A → M (Kernel S) A
  lift m k = elim (m k.machine) [ ok (a, t) ↦ ok (a, record k { machine = t }) | panic e ↦ panic e ]

  -- A call of the file system.
  unfoldable pub call : {A : Type 0} → (S → A × S) → M (Kernel S) A
  call f k = let (a, s) = f k.fs in ok (a, record k { fs = s })

  unfoldable pub act : (S → S) → M (Kernel S) (Unit {0})
  act f k = ok (tt, record k { fs = f k.fs })

  unfoldable pub get_proc : M (Kernel S) Proc
  get_proc k = ok (k.proc, k)

  unfoldable pub set_proc : (Proc → Proc) → M (Kernel S) (Unit {0})
  set_proc f k = ok (tt, record k { proc = f k.proc })

  abbrev pub set_paging : (PagingInfo → PagingInfo) → M (Kernel S) (Unit {0})
  set_paging f = set_proc λ p. record p { paging = f p.paging }

  abbrev pub setkilled : M (Kernel S) (Unit {0})
  setkilled = set_proc λ p. record p { killed = true }

-- The `n` bytes from `pa` on.
pub read_bytes : Memory → ℕ → ℕ → List ℕ
read_bytes m pa zero = []
read_bytes m pa (suc n) = m pa ∷ read_bytes m (pa + 1) n

pub write_bytes : Memory → ℕ → List ℕ → Memory
write_bytes m pa [] = m
write_bytes m pa (b ∷ bs) = write_bytes (update m pa b) (pa + 1) bs

unfoldable pub get_bytes : ℕ → ℕ → M Machine (List ℕ)
get_bytes pa n k = ok (read_bytes k.mem pa n, k)

unfoldable pub put_bytes : ℕ → List ℕ → M Machine (Unit {0})
put_bytes pa bs k = ok (tt, record k { mem = write_bytes k.mem pa bs })
