-- ===== src/Log/Crash/Phases.antt =====
-- The disks that `commit` leaves, by where in it the power fails.
use osn_mp2_part_a.Base.{
  ℕ, ◌+◌, ◌-◌, ◌≤◌, ◌<◌, true, false, ◌==◌, if◌then◌else◌, ltb, List, [], ◌∷◌, length, ◌≡◌, refl,
  arith, All, ◌⊎◌, inl, inr, sym, ◌∙◌, ap, subst, Bool-cases, ◌≢◌, ==_refl,
}
use osn_mp2_part_a.Log.{
  Log, bread, put_block, elem, log_blocks, commit, write_head, write_log, install_trans,
  decode_head, encode_head,
}
use osn_mp2_part_a.Log.Writes.{
  Outside, Logged, LogUnpinned, Wrote, write_log_from-Wrote, decode-encode,
}
use osn_mp2_part_a.Log.Install.{overlay, Installed, install_from-Installed, install_from_stopped}
use osn_mp2_part_a.Log.Crash.Disks.{
  Ready, Old, Pending, Done, elem-Outside, Logged-agree, write_head_lem, write_head_other,
}

module _ (s : Log) (ready : Ready s) (full : 0 < length s.lh) where
  after_log : Wrote s 0 s.lh (write_log s)
  unfolding write_log
  after_log = write_log_from-Wrote s.lh 0 s (omega (arith, ready.small)) ready.outside

  unpinned_log : LogUnpinned (write_log s)
  unpinned_log b h k =
      ap (λ c. c b) after_log.same_cache
      ∙ ready.unpinned b (omega (arith, after_log.same_start)) (omega (arith, after_log.same_start))

  -- The header after `write_log`.
  abbrev headed : Log
  headed = write_head (write_log s)

  headed_facts :
      (headed.start ≡ s.start)
      × (headed.lh ≡ s.lh)
      × LogUnpinned headed
      × (headed.power ≡ s.power - length s.lh - 1)
  headed_facts =
      let (_, power, start, lh, cache) = write_head_lem (write_log s) unpinned_log in
      (
        start ∙ after_log.same_start,
        lh ∙ after_log.same_lh,
        (λ b h k.
            ap (λ c. c b) cache ∙ unpinned_log b (omega (arith, start)) (omega (arith, start))),
        omega (arith, power, after_log.left),
      )

  headed_other : (b : ℕ) → b ≢ s.start → headed.disk b ≡ (write_log s).disk b
  headed_other b ne =
      write_head_other (write_log s) b unpinned_log (λ e. ne (e ∙ after_log.same_start))

  headed_blocks : (b : ℕ) → Outside s.start b → headed.disk b ≡ s.disk b
  headed_blocks b o =
      headed_other b (omega (arith, o)) ∙ after_log.elsewhere b (omega (arith, o, ready.small))

  -- With power for the log and the header, the header lists the blocks of the transaction and the
  -- log holds them.
  headed_committed :
      length s.lh < s.power
      → (decode_head (headed.disk s.start) ≡ s.lh) × Logged (bread s) s.start s.lh 0 headed.disk
  headed_committed p = (
    ap (λ d. decode_head (d s.start)) (write_head_lem (write_log s) unpinned_log).0 ∙ listed,
    Logged-agree (bread s) s.start s.lh 0 (write_log s).disk headed.disk
        (λ b h k. headed_other b (omega arith)) (after_log.logged (omega arith)),
  )
    where
      on : ((write_log s).power == 0) ≡ false
      on = ground (arith, after_log.left)

      listed :
          decode_head (
            (if (write_log s).power == 0
                then (write_log s).disk
                else put_block
                    (write_log s).disk
                    (write_log s).start
                    (encode_head (write_log s).lh ((write_log s).disk (write_log s).start)))
              s.start)
          ≡ s.lh
      listed =
          rw (on, after_log.same_start, ==_refl s.start, after_log.same_lh) (decode-encode s.lh _)

  abbrev installed_log : Log
  installed_log = install_trans false headed

  abbrev finished : Log
  finished = write_head (record installed_log { lh = [] })

  after_install : Installed (bread s) headed 0 headed.lh installed_log
  unfolding install_trans
  after_install =
      let (start, lh, unpinned, power) = headed_facts in
      install_from-Installed false (bread s) headed.lh 0 headed (rw lh (omega (arith, ready.small)))
        (subst (λ st. All (Outside st) headed.lh) (sym start)
          (subst (All (Outside s.start)) (sym lh) ready.outside))
        unpinned
        (λ h.
          subst (λ st. Logged (bread s) st headed.lh 0 headed.disk) (sym start)
            (subst (λ bs. Logged (bread s) s.start bs 0 headed.disk) (sym lh)
              (headed_committed (room lh power h)).1))
    where
      room :
          headed.lh ≡ s.lh
          → headed.power ≡ s.power - length s.lh - 1
          → length headed.lh ≤ headed.power
          → length s.lh < s.power
      room lh power h = omega (arith, ap length lh, full)

  finished_other : (b : ℕ) → b ≢ s.start → finished.disk b ≡ installed_log.disk b
  finished_other b ne =
      write_head_other (record installed_log { lh = [] }) b after_install.unpinned
        (λ e. ne (e ∙ after_install.same_start ∙ headed_facts.0))

  finished_header : finished.disk s.start ≡ (
      if installed_log.power == 0
      then installed_log.disk s.start
      else encode_head [] (installed_log.disk s.start))
  finished_header =
      let e : installed_log.start ≡ s.start = after_install.same_start ∙ headed_facts.0 in
      ap (λ d. d s.start)
        (write_head_lem (record installed_log { lh = [] }) after_install.unpinned).0
      ∙ rw e (ground (arith, ==_refl s.start))

  -- Power for the log at most: nothing but the log has changed.
  before_header : s.power ≤ length s.lh → Old s finished.disk
  unfolding install_trans
  before_header h = (
    ap decode_head (
          finished_header
          ∙ rw off (still s.start ∙ no_head ∙ after_log.elsewhere s.start (omega arith)))
        ∙ ready.header,
    λ b o. finished_other b (omega (arith, o)) ∙ still b ∙ headed_blocks b o,
  )
    where
      quiet : (headed.power == 0) ≡ true
      quiet = ground (arith, headed_facts.3)

      off : (installed_log.power == 0) ≡ true
      off = ap (λ p. p == 0) (install_from_stopped false 0 headed.lh headed quiet).1 ∙ quiet

      no_head : headed.disk s.start ≡ (write_log s).disk s.start
      no_head =
          ap (λ d. d s.start) (write_head_lem (write_log s) unpinned_log).0
          ∙ rw (let z : ((write_log s).power == 0) ≡ true = ground (arith, after_log.left) in z)

      still : (b : ℕ) → installed_log.disk b ≡ headed.disk b
      still b = ap (λ d. d b) (install_from_stopped false 0 headed.lh headed quiet).0

  -- More power: the transaction is on the disk, in the log or in place.
  leaves_new : length s.lh < s.power → Pending s finished.disk ⊎ Done s finished.disk
  leaves_new h = elim (Bool-cases (installed_log.power == 0)) [
    | inl z ↦ inl (
      ap decode_head (finished_header ∙ rw z (log_kept s.start (omega arith) (omega arith)))
          ∙ (headed_committed h).0,
      Logged-agree (bread s) s.start s.lh 0 headed.disk finished.disk
          (λ b l k.
            finished_other b (omega arith) ∙ log_kept b (omega arith) (omega (arith, ready.small)))
          (headed_committed h).1,
      λ b e o.
          finished_other b (omega (arith, o))
          ∙ after_install.elsewhere b (ap (elem b) headed_facts.1 ∙ e)
          ∙ headed_blocks b o,
    )
    | inr p ↦ inr (
      ap decode_head (finished_header ∙ rw p) ∙ decode-encode [] (installed_log.disk s.start),
      λ b o.
          finished_other b (omega (arith, o))
          ∙ after_install.installed (room p) b
          ∙ ap (λ bs. overlay (bread s) bs headed.disk b) headed_facts.1
          ∙ over b o,
    )
  ]
    where
      log_kept :
          (b : ℕ) → s.start ≤ b → b ≤ s.start + log_blocks → installed_log.disk b ≡ headed.disk b
      log_kept b l k =
          after_install.elsewhere b
            (ap (elem b) headed_facts.1 ∙ elem-Outside s.start b s.lh ready.outside l k)

      room : (installed_log.power == 0) ≡ false → length headed.lh ≤ headed.power
      room p = ground (arith, after_install.left)

      over :
          (b : ℕ)
          → Outside s.start b
          → overlay (bread s) s.lh headed.disk b ≡ overlay (bread s) s.lh s.disk b
      over b o = rw (headed_blocks b o)

-- A commit leaves one of the three disks, by the moment at which the power fails.
pub commit_leaves :
    (s : Log)
    → Ready s
    → (s.power ≤ length s.lh → Old s (commit s).disk)
      × (length s.lh < s.power → Pending s (commit s).disk ⊎ Done s (commit s).disk)
unfolding commit
commit_leaves s ready = elim (Bool-cases (ltb 0 (length s.lh))) [
  | inl full ↦ rw full (before_header s ready (ground arith), leaves_new s ready (ground arith))
  | inr none_to_do ↦ rw none_to_do (
    λ h. (ready.header, λ b o. refl),
    λ h. inr (ready.header, λ b o. no_blocks b s.lh (ground arith)),
  )
]
  where
    no_blocks : (b : ℕ) (bs : List ℕ) → length bs ≤ 0 → s.disk b ≡ overlay (bread s) bs s.disk b
    no_blocks b [] h = refl
    no_blocks b (x ∷ xs) h = elim h [ ]
