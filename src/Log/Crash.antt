-- ===== src/Log/Crash.antt =====
-- A commit is atomic: wherever the power fails, recovery finds the old disk or the new one.
mod Disks
mod Phases
use osn_mp2_part_a.Base.{
  ℕ, zero, suc, ◌+◌, ◌-◌, ◌≤◌, ◌<◌, Bool, true, false, ◌==◌, if◌then◌else◌, ltb, Option, none, some,
  List, [], ◌∷◌, length, ◌≡◌, refl, arith, All, ◌⊎◌, inl, inr, sym, ◌∙◌, ap, Bool-cases,
}
use osn_mp2_part_a.Log.{
  Log, Block, Disk, bread, elem, log_blocks, commit, recover_from_log, restart,
}
use osn_mp2_part_a.Log.Writes.{Outside}
use osn_mp2_part_a.Log.Install.{overlay}
use Disks.{recover_lem, Pending, Done}
use Phases.{commit_leaves}
pub use Disks.{Ready}

-- On the blocks outside the log the two disks agree.
abbrev pub SameOutside : ℕ → Disk → Disk → Type 0
SameOutside start d e = (b : ℕ) → Outside start b → d b ≡ e b

-- The disk after the commit of `s` is cut off by a loss of power (after `s.power` writes) and the
-- machine restarts.
abbrev pub recovered : Log → ℕ → Disk
recovered s p = (recover_from_log (restart s.start (commit s).disk p)).disk

-- The blocks with the transaction of `s` applied.
abbrev pub committed : Log → Disk
committed s = overlay (bread s) s.lh s.disk

-- If the power fails during `commit` before the header is written, which is write number `n + 1`
-- for a transaction of `n` blocks, the recovery at the next start leaves every block outside the log
-- as it was before the transaction. The log is as `Ready` says, and the power lasts through the
-- recovery.
pub commit_lost :
    (s : Log) (p : ℕ)
    → Ready s
    → log_blocks < p
    → s.power ≤ length s.lh
    → SameOutside s.start (recovered s p) s.disk
commit_lost s p ready power h b o =
    let (clear, same) = (commit_leaves s ready).0 h in
    recover_lem (bread s) s.start (commit s).disk [] p power clear tt (omega arith) tt b o
    ∙ same b o

module _ (s : Log) (p : ℕ) (ready : Ready s) (power : log_blocks < p) where
  over :
      (b : ℕ)
      → Outside s.start b
      → (elem b s.lh ≡ false → Outside s.start b → (commit s).disk b ≡ s.disk b)
      → overlay (bread s) s.lh (commit s).disk b ≡ committed s b
  over b o others = elim (Bool-cases (elem b s.lh)) [ inl e ↦ rw e | inr e ↦ rw e (others e o) ]

  late :
      Pending s (commit s).disk ⊎ Done s (commit s).disk
      → SameOutside s.start (recovered s p) (committed s)
  late (inl (listed, held, others)) b o =
      recover_lem (bread s) s.start (commit s).disk s.lh p power listed ready.outside ready.small
        held b o
      ∙ over b o (others b)
  late (inr (clear, done)) b o =
      recover_lem (bread s) s.start (commit s).disk [] p power clear tt (omega arith) tt b o
      ∙ done b o

-- If the power fails during `commit` after the header is written, or not at all, the recovery at the
-- next start leaves every block outside the log as the transaction left it, whichever of its blocks
-- were installed before. The log is as `Ready` says, and the power lasts through the recovery.
pub commit_durable :
    (s : Log) (p : ℕ)
    → Ready s
    → log_blocks < p
    → length s.lh < s.power
    → SameOutside s.start (recovered s p) (committed s)
commit_durable s p ready power h = late s p ready power ((commit_leaves s ready).1 h)
