-- ===== src/Log/Space.antt =====
-- The reservation of log space: `begin_op` admits an operation only if the log has room for all that
-- the admitted operations may write.
use osn_mp2_part_a.Base.{
  ℕ, suc, ◌+◌, ◌-◌, ◌*◌, ◌≤◌, ◌<◌, Bool, true, false, ◌==◌, if◌then◌else◌, ltb, some, List, [], ◌∷◌,
  ◌++◌, length, length-append, ◌≡◌, refl, arith, inl, inr, Bool-cases, ◌∙◌, ap, ==_refl,
}
use osn_mp2_part_a.Base.Result.{ok}
use osn_mp2_part_a.Log.{
  Log, Block, elem, begin_op, log_write, end_op, finish_op, commit, log_blocks, max_op_blocks,
  write_head, bwrite, bread, write_log, write_log_from, install_trans, install_from, install_one,
}

-- How many more blocks each admitted operation may write.
abbrev pub sum : List ℕ → ℕ
sum [] = 0
sum (c ∷ cs) = c + sum cs

abbrev pub AtMostTen : List ℕ → Type 0
AtMostTen [] = Unit {0}
AtMostTen (c ∷ cs) = (c ≤ max_op_blocks) × AtMostTen cs

-- The log has room for what the admitted operations may still write.
pub record Reserved (s : Log) (cs : List ℕ) : Type 0 where
  pub counted : s.outstanding ≡ length cs
  pub limited : AtMostTen cs
  pub room : length s.lh + sum cs ≤ log_blocks

-- One operation of the list uses one of its blocks, and one operation leaves the list.
pub data Spend : List ℕ → List ℕ → Type 0 where
  this : {c : ℕ} {cs : List ℕ} → Spend (suc c ∷ cs) (c ∷ cs)
  other : {c : ℕ} {cs ds : List ℕ} → Spend cs ds → Spend (c ∷ cs) (c ∷ ds)

pub data Leave : List ℕ → List ℕ → Type 0 where
  this : {c : ℕ} {cs : List ℕ} → Leave (c ∷ cs) cs
  other : {c : ℕ} {cs ds : List ℕ} → Leave cs ds → Leave (c ∷ cs) (c ∷ ds)

-- The calls of the file system's operations, each for one of the admitted operations.
pub data Step : Log → List ℕ → Log → List ℕ → Type 0 where
  begins : {s t : Log} {cs : List ℕ} → begin_op s ≡ some t → Step s cs t (max_op_blocks ∷ cs)
  writes :
      {s t : Log} {cs ds : List ℕ} (b : ℕ) (v : Block)
      → Spend cs ds
      → log_write b v s ≡ ok t
      → Step s cs t ds
  ends : {s t : Log} {cs ds : List ℕ} → Leave cs ds → end_op s ≡ ok t → Step s cs t ds

Spend-sum : {cs ds : List ℕ} → Spend cs ds → (sum cs ≡ suc (sum ds)) × (length ds ≡ length cs)
Spend-sum Spend.this = omega arith
Spend-sum (Spend.other s) = omega (arith, Spend-sum s)

Spend-AtMostTen : {cs ds : List ℕ} → Spend cs ds → AtMostTen cs → AtMostTen ds
Spend-AtMostTen Spend.this h = (omega arith, h.1)
Spend-AtMostTen (Spend.other s) h = (h.0, Spend-AtMostTen s h.1)

Leave-sum : {cs ds : List ℕ} → Leave cs ds → (sum ds ≤ sum cs) × (length cs ≡ suc (length ds))
Leave-sum Leave.this = omega arith
Leave-sum (Leave.other s) = omega (arith, Leave-sum s)

Leave-AtMostTen : {cs ds : List ℕ} → Leave cs ds → AtMostTen cs → AtMostTen ds
Leave-AtMostTen Leave.this h = h.1
Leave-AtMostTen (Leave.other s) h = (h.0, Leave-AtMostTen s h.1)

sum-AtMostTen : (cs : List ℕ) → AtMostTen cs → sum cs ≤ length cs * max_op_blocks
sum-AtMostTen [] h = omega arith
sum-AtMostTen (c ∷ cs) h = omega (arith, sum-AtMostTen cs h.1)

begin_op-Reserved :
    {s t : Log} (cs : List ℕ)
    → Reserved s cs
    → begin_op s ≡ some t
    → Reserved t (max_op_blocks ∷ cs)
unfolding begin_op
begin_op-Reserved cs r e = ground (arith, sum-AtMostTen cs r.limited)

log_write-Reserved :
    {s t : Log} {cs ds : List ℕ} (b : ℕ) (v : Block)
    → Reserved s cs
    → Spend cs ds
    → log_write b v s ≡ ok t
    → Reserved t ds
unfolding log_write
log_write-Reserved {s} b v r sp e =
    ground (arith, Spend-sum sp, Spend-AtMostTen sp r.limited, length-append s.lh (b ∷ []))

bwrite-outstanding : (b : ℕ) (v : Block) (s : Log) → (bwrite b v s).outstanding ≡ s.outstanding
unfolding bwrite
bwrite-outstanding b v s = ground arith

bwrite-lh : (b : ℕ) (v : Block) (s : Log) → (bwrite b v s).lh ≡ s.lh
unfolding bwrite
bwrite-lh b v s = ground arith

write_log_from-outstanding :
    (tail : ℕ) (bs : List ℕ) (s : Log) → (write_log_from tail bs s).outstanding ≡ s.outstanding
unfolding write_log_from
write_log_from-outstanding tail [] s = refl
write_log_from-outstanding tail (b ∷ bs) s =
    write_log_from-outstanding (tail + 1) bs (bwrite (s.start + tail + 1) (bread s b) s)
    ∙ bwrite-outstanding (s.start + tail + 1) (bread s b) s

install_one-outstanding :
    (r : Bool) (tail b : ℕ) (s : Log) → (install_one r tail b s).outstanding ≡ s.outstanding
unfolding install_one
install_one-outstanding true tail b s = bwrite-outstanding b (bread s (s.start + tail + 1)) s
install_one-outstanding false tail b s = bwrite-outstanding b (bread s (s.start + tail + 1)) s

install_from-outstanding :
    (r : Bool) (tail : ℕ) (bs : List ℕ) (s : Log)
    → (install_from r tail bs s).outstanding ≡ s.outstanding
unfolding install_from
install_from-outstanding r tail [] s = refl
install_from-outstanding r tail (b ∷ bs) s =
    install_from-outstanding r (tail + 1) bs (install_one r tail b s)
    ∙ install_one-outstanding r tail b s

commit_keeps :
    (s : Log) → ((commit s).outstanding ≡ s.outstanding) × (length (commit s).lh ≤ length s.lh)
unfolding commit write_head write_log install_trans
commit_keeps s = elim (Bool-cases (ltb 0 (length s.lh))) [
  | inr e ↦ rw e (refl, omega arith)
  | inl e ↦ rw e (
    bwrite-outstanding _ _ _
        ∙ install_from-outstanding false 0 _ _
        ∙ bwrite-outstanding _ _ _
        ∙ write_log_from-outstanding 0 s.lh s,
    omega (arith, ap length (bwrite-lh _ _ _)),
  )
]

finish_op-Reserved : {s t : Log} (ds : List ℕ) → Reserved s ds → finish_op s ≡ ok t → Reserved t ds
unfolding finish_op
finish_op-Reserved {s} ds r e =
    ground (arith, r.counted, r.limited, r.room, commit_keeps (record s { committing = true }))

end_op-Reserved :
    {s t : Log} {cs ds : List ℕ} → Reserved s cs → Leave cs ds → end_op s ≡ ok t → Reserved t ds
unfolding end_op
end_op-Reserved {s} {ds = ds} r l e =
    finish_op-Reserved {s = record s { outstanding = s.outstanding - 1 }} ds
      (record {
        counted = omega (arith, r.counted, Leave-sum l);
        limited = Leave-AtMostTen l r.limited;
        room = omega (arith, r.room, Leave-sum l);
      })
      e

-- Every call of `begin_op` that is admitted, of `log_write` within the ten blocks of its operation,
-- and of `end_op` keeps room in the log for all that the admitted operations may still write.
pub Step-Reserved : {s t : Log} {cs ds : List ℕ} → Step s cs t ds → Reserved s cs → Reserved t ds
Step-Reserved {cs = cs} (Step.begins e) r = begin_op-Reserved cs r e
Step-Reserved (Step.writes b v sp e) r = log_write-Reserved b v r sp e
Step-Reserved (Step.ends l e) r = end_op-Reserved r l e

-- While the room is kept, `log_write` by an operation that has not used up its ten blocks does not
-- panic: it records the block in the header, at most one entry more, and pins its contents.
pub log_write_room :
    (s : Log) (cs ds : List ℕ) (b : ℕ) (v : Block)
    → Reserved s cs
    → Spend cs ds
    → (t : Log) × (log_write b v s ≡ ok t)
      × (elem b t.lh ≡ true)
      × (bread t b ≡ v)
      × (length t.lh ≤ length s.lh + 1)
unfolding log_write
log_write_room s cs ds b v r sp = (
  record s {
    lh = if elem b s.lh then s.lh else s.lh ++ b ∷ [];
    cache = λ c. if b == c then some v else s.cache c;
  },
  ground (arith, Spend-sum sp, r.room, r.counted, some_op sp),
  listed,
  ground (arith, ==_refl b),
  ground (arith, length-append s.lh (b ∷ [])),
)
  where
    some_op : {cs ds : List ℕ} → Spend cs ds → 0 < length cs
    some_op Spend.this = omega arith
    some_op (Spend.other s) = omega arith

    elem-snoc : (xs : List ℕ) → elem b (xs ++ b ∷ []) ≡ true
    elem-snoc [] = ground (arith, ==_refl b)
    elem-snoc (x ∷ xs) = ground (arith, elem-snoc xs)

    listed : elem b (if elem b s.lh then s.lh else s.lh ++ b ∷ []) ≡ true
    listed = elim (Bool-cases (elem b s.lh)) [ inl e ↦ rw e e | inr e ↦ rw e (elem-snoc s.lh) ]
