-- ===== src/Proc/Moves.antt =====
-- Changes of processes that keep the invariant of the table.
use osn_mp2_part_a.Base.{
  ℕ, Bool, true, false, ◌==◌, ltb, if◌then◌else◌, none, some, ◌≡◌, ◌≢◌, ◌∙◌, arith, ◌⊎◌, Bool-cases,
  inl, inr,
}
use osn_mp2_part_a.Proc.{Process, unused, zombie, put_proc, nproc}
use osn_mp2_part_a.Proc.Life.{wakeup, woken}
use osn_mp2_part_a.Proc.Order.{TableOk, is_alive, is_running}

-- The process is the same one, in use and on a CPU as before, and alive if it was; its parent is the
-- same or, if it had one, `init`.
pub record Moved (init : ℕ) (p q : Process) : Type 0 where
  pub pid : q.pid ≡ p.pid
  pub idle : (p.state ≡ unused → q.state ≡ unused) × (q.state ≡ unused → p.state ≡ unused)
  pub alive : is_alive p.state ≡ true → is_alive q.state ≡ true
  pub runs : is_running q.state ≡ is_running p.state
  pub parent : (q.parent ≡ p.parent) ⊎ ((q.parent ≡ some init) × (p.parent ≢ none))

module _ {w : ℕ → Bool} {f : ℕ → Process} {next init : ℕ} where
  pub Moved-TableOk :
      (g : ℕ → Process)
      → ((i : ℕ) → Moved init (f i) (g i))
      → TableOk w f next init
      → TableOk w g next init
  Moved-TableOk g h o = record {
    pids = λ i j u v e. ground (arith, o.pids i j, (h i).idle, (h j).idle, (h i).pid, (h j).pid);
    below = λ i u. ground (arith, o.below i, (h i).idle, (h i).pid);
    clear = λ i u. ground (arith, o.clear i, (h i).idle, (h i).parent);
    parents = λ i j e. ground (arith, o.parents i j, (h i).parent, (h j).alive, o.init_alive);
    range = λ i u. ground (arith, o.range i, (h i).idle);
    init_alive = (h init).alive o.init_alive;
    runs = λ i. (h i).runs ∙ o.runs i;
    started = o.started;
    fits = o.fits;
  }

  -- An alive process gets another state in which it is alive.
  pub turn-TableOk :
      (me : ℕ) (p : Process)
      → is_alive (f me).state ≡ true
      → is_alive p.state ≡ true
      → p.pid ≡ (f me).pid
      → p.parent ≡ (f me).parent
      → TableOk w f next init
      → TableOk (λ j. if me == j then is_running p.state else w j) (put_proc f me p) next init
  turn-TableOk me p a b e par o = record {
    pids = λ i j u v q. ground (arith, o.pids i j, a, e);
    below = λ i u. ground (arith, o.below i, a, e);
    clear = λ i u. ground (arith, o.clear i, b);
    parents = λ i j q. ground (arith, o.parents i j, par);
    range = λ i u. ground (arith, o.range i, a);
    init_alive = ground (arith, o.init_alive);
    runs = λ i. ground (arith, o.runs i);
    started = o.started;
    fits = o.fits;
  }

  -- A process dies that is not the first one and has no children.
  pub dead-TableOk :
      (me : ℕ) (p : Process)
      → is_alive (f me).state ≡ true
      → p.state ≡ zombie
      → p.pid ≡ (f me).pid
      → p.parent ≡ (f me).parent
      → me ≢ init
      → ((i : ℕ) → (f i).parent ≢ some me)
      → TableOk w f next init
      → TableOk (λ j. if me == j then false else w j) (put_proc f me p) next init
  dead-TableOk me p a z e par ne none_left o = record {
    pids = λ i j u v q. ground (arith, o.pids i j, a, e);
    below = λ i u. ground (arith, o.below i, a, e);
    clear = λ i u. ground (arith, o.clear i, z);
    parents = λ i j q. ground (arith, o.parents i j, par, none_left i, none_left me);
    range = λ i u. ground (arith, o.range i, a);
    init_alive = ground (arith, o.init_alive, ne);
    runs = λ i. ground (arith, o.runs i, z);
    started = o.started;
    fits = o.fits;
  }

woken-Moved : (init me chan i : ℕ) (p : Process) → Moved init p (woken me chan i p)
woken-Moved init me chan i p = ground arith

pub wakeup-Moved :
    (init me chan : ℕ) (f : ℕ → Process) (i : ℕ) → Moved init (f i) (wakeup me chan f i)
unfolding wakeup
wakeup-Moved init me chan f i = elim (Bool-cases (ltb i nproc)) [
  | inl e ↦ rw e (woken-Moved init me chan i (f i))
  | inr e ↦ rw e (ground arith)
]

-- One step after another.
pub Moved-trans : {init : ℕ} {p q r : Process} → Moved init p q → Moved init q r → Moved init p r
Moved-trans {init} {p} {q} {r} a b = record {
  pid = b.pid ∙ a.pid;
  idle = ground (arith, a.idle, b.idle);
  alive = λ h. b.alive (a.alive h);
  runs = b.runs ∙ a.runs;
  parent = ground (arith, a.parent, b.parent);
}
