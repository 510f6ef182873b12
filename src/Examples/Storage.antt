-- ===== src/Examples/Storage.antt =====
-- The log with one block in a transaction, and a pipe that holds one byte.
use osn_mp2_part_a.Base.{
  ℕ, ◌≤◌, Bool, true, false, ◌==◌, if◌then◌else◌, none, some, [], ◌∷◌, length, ◌≡◌, refl, arith,
  ◌⊎◌, inr,
}
use osn_mp2_part_a.Base.Result.{ok}
use osn_mp2_part_a.Log.{Log, bread, elem, begin_op, log_write, restart, decode_head, words}
use osn_mp2_part_a.Log.Crash.{Ready, SameOutside, recovered, committed, commit_lost, commit_durable}
use osn_mp2_part_a.Log.Space.{Reserved, Spend, Step, Step-Reserved, log_write_room}
use osn_mp2_part_a.Pipe.{Pipe, pipewrite, piperead, fresh_pipe, ReadEnd}
use osn_mp2_part_a.Pipe.Queue.{IsValid, held}
use osn_mp2_part_a.Pipe.Transfer.{Wrote, Read, pipewrite_lem, piperead_lem}

-- Block 50 is in the transaction; the power fails after the header is written.
abbrev one_block : Log
one_block = record {
  start = 2;
  lh = 50 ∷ [];
  outstanding = 0;
  committing = true;
  cache = λ b. if b == 50 then some (7 ∷ 8 ∷ []) else none;
  disk = λ b. [];
  power = 2;
}

one_block-Ready : Ready one_block
unfolding decode_head words
one_block-Ready = record {
  header = refl;
  unpinned = λ b h k. ground arith;
  outside = (inr (omega arith), tt);
  small = omega arith;
}

abbrev cut_off : Log
cut_off = record one_block { power = 1 }

cut_off-Ready : Ready cut_off
unfolding decode_head words
cut_off-Ready = record {
  header = refl;
  unpinned = λ b h k. ground arith;
  outside = (inr (omega arith), tt);
  small = omega arith;
}

commit_lost_example : SameOutside 2 (recovered cut_off 40) (λ b. [])
commit_lost_example = commit_lost cut_off 40 cut_off-Ready (omega arith) (omega arith)

commit_durable_example : SameOutside 2 (recovered one_block 40) (committed one_block)
commit_durable_example = commit_durable one_block 40 one_block-Ready (omega arith) (omega arith)

abbrev idle : Log
idle = restart 2 (λ b. []) 99

abbrev busy : Log
busy = record idle { outstanding = 1 }

idle-Reserved : Reserved idle []
idle-Reserved = record { counted = refl; limited = tt; room = omega arith }

first_begin : begin_op idle ≡ some busy
unfolding begin_op
first_begin = ground arith

Step-Reserved_example : Reserved busy (10 ∷ [])
Step-Reserved_example = Step-Reserved (Step.begins first_begin) idle-Reserved

log_write_room_example :
    (t : Log) × (log_write 50 (7 ∷ []) busy ≡ ok t)
    × (elem 50 t.lh ≡ true)
    × (bread t 50 ≡ 7 ∷ [])
    × (length t.lh ≤ 1)
log_write_room_example =
    log_write_room busy (10 ∷ []) (9 ∷ []) 50 (7 ∷ [])
      (record { counted = refl; limited = (omega arith, tt); room = omega arith }) Spend.this

-- A pipe whose counters are about to wrap.
abbrev one_byte : Pipe
one_byte = record (fresh_pipe (λ i. 65)) { nread = 0xFFFFFFFE; nwrite = 0xFFFFFFFF }

one_byte-IsValid : IsValid one_byte
one_byte-IsValid = omega arith

pipewrite_lem_example :
    Wrote one_byte (some 66 ∷ none ∷ []) 0 false (pipewrite false (some 66 ∷ none ∷ []) 0 one_byte)
pipewrite_lem_example = pipewrite_lem false (some 66 ∷ none ∷ []) 0 one_byte one_byte-IsValid

abbrev always : ℕ → Bool
always i = true

piperead_lem_example :
    ((piperead false always 4 one_byte ≡ none)
      × (held one_byte ≡ 0)
      × (one_byte.writeopen ≡ true)
      × (false ≡ false))
    ⊎ (((piperead false always 4 one_byte
            ≡ some (record { count = none; bytes = []; pipe = one_byte }))
          × (held one_byte ≡ 0)
          × (one_byte.writeopen ≡ true)
          × (false ≡ true))
        ⊎ ((r : ReadEnd) × (piperead false always 4 one_byte ≡ some r)
            × Read always 4 0 one_byte r))
piperead_lem_example = piperead_lem false always 4 one_byte one_byte-IsValid
