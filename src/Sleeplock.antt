-- ===== src/Sleeplock.antt =====
-- kernel/sleeplock.c: a long-term lock that is held by a process number. The spin lock inside makes
-- each call one step, up to the point where it sleeps.
use osn_mp2_part_a.Base.{ℕ, Bool, true, false, ◌&&◌, ◌==◌, if◌then◌else◌, Option, none, some}

pub record Sleeplock : Type 0 where
  pub locked : Bool
  pub pid : ℕ

abbrev pub initsleeplock : Sleeplock
initsleeplock = record { locked = false; pid = 0 }

-- One round of the loop of `acquiresleep`: `none` where it sleeps.
unfoldable pub acquiresleep : ℕ → Sleeplock → Option Sleeplock
acquiresleep pid lk = if lk.locked then none else some (record { locked = true; pid = pid })

abbrev pub releasesleep : Sleeplock → Sleeplock
releasesleep lk = record { locked = false; pid = 0 }

abbrev pub holdingsleep : ℕ → Sleeplock → Bool
holdingsleep pid lk = lk.locked && lk.pid == pid
