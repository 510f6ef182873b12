-- ===== src/Log/Crash/Disks.antt =====
-- The disks that `commit` may leave, and what recovery makes of each.
use osn_mp2_part_a.Base.{
  ℕ, ◌+◌, ◌-◌, ◌≤◌, ◌<◌, true, false, ◌==◌, if◌then◌else◌, List, [], ◌∷◌, length, ◌≡◌, refl, arith,
  All, ◌∙◌, ap, ◌≢◌,
}
use osn_mp2_part_a.Log.{
  Log, Block, Disk, bread, bwrite, put_block, elem, log_blocks, recover_from_log, restart,
  read_head, write_head, install_trans, install_from, decode_head, encode_head,
}
use osn_mp2_part_a.Log.Writes.{Outside, Logged, LogUnpinned}
use osn_mp2_part_a.Log.Install.{overlay, Installed, install_from-Installed}

-- The log before a commit: the header on the disk is clear, and no block of the transaction is one
-- of the log's own.
pub record Ready (s : Log) : Type 0 where
  pub header : decode_head (s.disk s.start) ≡ []
  pub unpinned : LogUnpinned s
  pub outside : All (Outside s.start) s.lh
  pub small : length s.lh ≤ log_blocks

pub elem-Outside :
    (start c : ℕ) (bs : List ℕ)
    → All (Outside start) bs
    → start ≤ c
    → c ≤ start + log_blocks
    → elem c bs ≡ false
elem-Outside start c [] o h k = refl
elem-Outside start c (b ∷ bs) o h k = ground (arith, o.0, elem-Outside start c bs o.1 h k)

pub Logged-agree :
    (g : ℕ → Block) (start : ℕ) (bs : List ℕ) (tail : ℕ) (d e : Disk)
    → ((b : ℕ) → start < b → b ≤ start + tail + length bs → e b ≡ d b)
    → Logged g start bs tail d
    → Logged g start bs tail e
Logged-agree g start [] tail d e same l = tt
Logged-agree g start (b ∷ bs) tail d e same l = (
  same (start + tail + 1) (omega arith) (omega arith) ∙ l.0,
  Logged-agree g start bs (tail + 1) d e (λ c h k. same c h (omega arith)) l.1,
)

-- What a commit that loses power may leave on the disk: the old blocks and a clear header; the
-- header and the log of the transaction, whose blocks may or may not be in place; or the new blocks
-- and a clear header.
abbrev pub Old : Log → Disk → Type 0
Old s d = (decode_head (d s.start) ≡ []) × ((b : ℕ) → Outside s.start b → d b ≡ s.disk b)

abbrev pub Pending : Log → Disk → Type 0
Pending s d =
    (decode_head (d s.start) ≡ s.lh)
    × Logged (bread s) s.start s.lh 0 d
    × ((b : ℕ) → elem b s.lh ≡ false → Outside s.start b → d b ≡ s.disk b)

abbrev pub Done : Log → Disk → Type 0
Done s d =
    (decode_head (d s.start) ≡ [])
    × ((b : ℕ) → Outside s.start b → d b ≡ overlay (bread s) s.lh s.disk b)

-- Writing the header changes that block alone, and only with power.
pub write_head_lem :
    (s : Log)
    → LogUnpinned s
    → ((write_head s).disk ≡ (
        if s.power == 0
        then s.disk
        else put_block s.disk s.start (encode_head s.lh (s.disk s.start))))
      × ((write_head s).power ≡ s.power - 1)
      × ((write_head s).start ≡ s.start)
      × ((write_head s).lh ≡ s.lh)
      × ((write_head s).cache ≡ s.cache)
unfolding write_head bwrite
write_head_lem s u = rw (u s.start (omega arith) (omega arith), bread) (ground arith)

pub write_head_other :
    (s : Log) (b : ℕ) → LogUnpinned s → b ≢ s.start → (write_head s).disk b ≡ s.disk b
write_head_other s b u ne = ap (λ d. d b) (write_head_lem s u).0 ∙ ground arith

-- With a header that lists logged blocks, recovery puts them in place.
pub recover_lem :
    (g : ℕ → Block) (start : ℕ) (d : Disk) (bs : List ℕ) (p : ℕ)
    → log_blocks < p
    → decode_head (d start) ≡ bs
    → All (Outside start) bs
    → length bs ≤ log_blocks
    → Logged g start bs 0 d
    → (b : ℕ) → Outside start b
    → (recover_from_log (restart start d p)).disk b ≡ overlay g bs d b
unfolding recover_from_log read_head install_trans
recover_lem g start d bs p power e out small l b o =
    rw e (write_head_other (record t { lh = [] }) b i.unpinned apart ∙ i.installed (omega arith) b)
  where
    s : Log
    s = record (restart start d p) { lh = bs }

    t : Log
    t = install_from true 0 bs s

    i : Installed g s 0 bs t
    i = install_from-Installed true g bs 0 s (omega arith) out (λ b h k. refl) (λ h. l)

    apart : b ≢ t.start
    apart = omega (arith, i.same_start, o)
