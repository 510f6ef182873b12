-- ===== src/Examples/Copying.antt =====
-- The string routines on a small memory.
use osn_mp2_part_a.Base.{◌==◌, if◌then◌else◌, some, ◌≡◌, refl, arith, inl}
use osn_mp2_part_a.Memory.{Memory}
use osn_mp2_part_a.Cstring.Text.{safestrcpy, strlen}
use osn_mp2_part_a.Cstring.Text.Laws.{strlen_lem}
use osn_mp2_part_a.Cstring.Text.Safe.{Terminated, safestrcpy_lem}

-- "hi" at 10, and zeros.
abbrev greeting : Memory
greeting a = if a == 10 then 104 else if a == 11 then 105 else 0

strlen_lem_example : strlen 9 greeting 10 ≡ some 2
strlen_lem_example = strlen_lem 9 greeting 10 2 (omega arith) refl (λ j lt. ground arith)

safestrcpy_lem_example : Terminated greeting 40 10 2 (safestrcpy greeting 40 10 2)
safestrcpy_lem_example = safestrcpy_lem greeting 40 10 2 (omega arith) (inl (omega arith))
