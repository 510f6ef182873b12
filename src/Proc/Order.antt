-- ===== src/Proc/Order.antt =====
-- The invariant of the process table, and the changes that keep it.
use osn_mp2_part_a.Base.{ℕ, ◌+◌, ◌<◌, Bool, true, false, none, some, ◌≡◌, ◌≢◌, ap, arith}
use osn_mp2_part_a.Proc.{
  Process, ProcState, unused, runnable, running, sleeping, put_proc, free_process, nproc, int_limit,
}

-- Whether a process can run, now or when it is woken up.
abbrev pub is_alive : ProcState → Bool
is_alive sleeping = true
is_alive runnable = true
is_alive running = true
is_alive other = false

abbrev pub is_running : ProcState → Bool
is_running running = true
is_running other = false

-- Processes that are not unused have numbers of their own, below the next one, which is an
-- `int`; the parent of a process is alive, and so is the first process; an unused entry has no parent. `on_cpu` tells which
-- processes run.
pub record TableOk (on_cpu : ℕ → Bool) (f : ℕ → Process) (next init : ℕ) : Type 0 where
  pub pids : (i j : ℕ) → (f i).state ≢ unused → (f j).state ≢ unused → (f i).pid ≡ (f j).pid → i ≡ j
  pub below : (i : ℕ) → (f i).state ≢ unused → (0 < (f i).pid) × ((f i).pid < next)
  pub clear : (i : ℕ) → (f i).state ≡ unused → (f i).parent ≡ none
  pub parents : (i j : ℕ) → (f i).parent ≡ some j → is_alive (f j).state ≡ true
  pub range : (i : ℕ) → (f i).state ≢ unused → i < nproc
  pub init_alive : is_alive (f init).state ≡ true
  pub runs : (i : ℕ) → is_running (f i).state ≡ on_cpu i
  pub started : 0 < next
  pub fits : next < int_limit

-- The same, apart from the entry `i`, which nothing refers to.
pub record OkExcept (on_cpu : ℕ → Bool) (i : ℕ) (f : ℕ → Process) (next init : ℕ) : Type 0 where
  pub pids :
      (j k : ℕ)
      → j ≢ i
      → k ≢ i
      → (f j).state ≢ unused
      → (f k).state ≢ unused
      → (f j).pid ≡ (f k).pid
      → j ≡ k
  pub below : (j : ℕ) → j ≢ i → (f j).state ≢ unused → (0 < (f j).pid) × ((f j).pid < next)
  pub clear : (j : ℕ) → j ≢ i → (f j).state ≡ unused → (f j).parent ≡ none
  pub parents : (j k : ℕ) → j ≢ i → (f j).parent ≡ some k → (k ≢ i) × (is_alive (f k).state ≡ true)
  pub range : (j : ℕ) → j ≢ i → (f j).state ≢ unused → j < nproc
  pub init_alive : (init ≢ i) × (is_alive (f init).state ≡ true)
  pub runs : (j : ℕ) → j ≢ i → is_running (f j).state ≡ on_cpu j
  pub started : 0 < next
  pub fits : next < int_limit

ne_of_alive :
    (f : ℕ → Process) (i j : ℕ) → is_alive (f i).state ≡ false → is_alive (f j).state ≡ true → j ≢ i
ne_of_alive f i j u a = λ e. cc (ap (λ x. is_alive (f x).state) e)

module _ {w : ℕ → Bool} {f : ℕ → Process} {next init : ℕ} (i : ℕ) where
  -- An entry that is free or dead can be taken out.
  pub except : is_alive (f i).state ≡ false → TableOk w f next init → OkExcept w i f next init
  except u o = record {
    pids = λ j k nj nk. o.pids j k;
    below = λ j n. o.below j;
    clear = λ j n. o.clear j;
    parents = λ j k n e. (ne_of_alive f i k u (o.parents j k e), o.parents j k e);
    range = λ j n. o.range j;
    init_alive = (ne_of_alive f i init u o.init_alive, o.init_alive);
    runs = λ j n. o.runs j;
    started = o.started;
    fits = o.fits;
  }

  -- The entry that is out can change.
  pub put-OkExcept :
      (p : Process) → OkExcept w i f next init → OkExcept w i (put_proc f i p) next init
  put-OkExcept p o = record {
    pids = λ j k nj nk. ground (arith, o.pids j k, nj, nk);
    below = λ j n. ground (arith, o.below j, n);
    clear = λ j n. ground (arith, o.clear j, n);
    parents = λ j k n e. ground (arith, o.parents j k, n);
    range = λ j n. ground (arith, o.range j, n);
    init_alive = ground (arith, o.init_alive);
    runs = λ j n. ground (arith, o.runs j, n);
    started = o.started;
    fits = o.fits;
  }

  pub later-OkExcept :
      next + 1 < int_limit → OkExcept w i f next init → OkExcept w i f (next + 1) init
  later-OkExcept h o = record {
    pids = o.pids;
    below = λ j n u. omega (arith, o.below j n u);
    clear = o.clear;
    parents = o.parents;
    range = o.range;
    init_alive = o.init_alive;
    runs = o.runs;
    started = omega arith;
    fits = h;
  }

  -- It comes back as a free entry,
  pub free-TableOk :
      w i ≡ false → OkExcept w i f next init → TableOk w (put_proc f i free_process) next init
  free-TableOk h o = record {
    pids = λ j k u v. ground (arith, o.pids j k);
    below = λ j u. ground (arith, o.below j);
    clear = λ j u. ground (arith, o.clear j);
    parents = λ j k e. ground (arith, o.parents j k);
    range = λ j u. ground (arith, o.range j);
    init_alive = ground (arith, o.init_alive);
    runs = λ j. ground (arith, o.runs j, h);
    started = o.started;
    fits = o.fits;
  }

-- or as a process with a number of its own and a parent that is alive.
pub record IsNew (w : ℕ → Bool) (i : ℕ) (f : ℕ → Process) (next : ℕ) : Type 0 where
  pub low : i < nproc
  pub idle : w i ≡ false
  pub number : (0 < (f i).pid) × ((f i).pid < next)
  pub own : (j : ℕ) → j ≢ i → (f j).state ≢ unused → (f j).pid ≢ (f i).pid

module _ {w : ℕ → Bool} {f : ℕ → Process} {next : ℕ} (i : ℕ) where
  pub put-IsNew :
      (p : Process) → p.pid ≡ (f i).pid → IsNew w i f next → IsNew w i (put_proc f i p) next
  put-IsNew p e v = record {
    low = v.low;
    idle = v.idle;
    number = ground (arith, v.number);
    own = λ j n u. ground (arith, v.own j, n);
  }

module _ {w : ℕ → Bool} {f : ℕ → Process} {next init : ℕ} (i : ℕ) where
  pub live-TableOk :
      (p : Process) (me : ℕ)
      → IsNew w i f next
      → is_alive p.state ≡ true
      → is_running p.state ≡ false
      → p.pid ≡ (f i).pid
      → p.parent ≡ some me
      → me ≢ i
      → is_alive (f me).state ≡ true
      → OkExcept w i f next init
      → TableOk w (put_proc f i p) next init
  live-TableOk p me v a r e par ne live o = record {
    pids = λ j k u x. ground (arith, o.pids j k, v.own j, v.own k, e);
    below = λ j u. ground (arith, o.below j, v.number);
    clear = λ j u. ground (arith, o.clear j);
    parents = λ j k q. ground (arith, o.parents j k);
    range = λ j u. ground (arith, o.range j, v.low);
    init_alive = ground (arith, o.init_alive);
    runs = λ j. ground (arith, o.runs j, v.idle);
    started = o.started;
    fits = o.fits;
  }
