-- ===== src/Tests/Proto.antt =====
-- Varints, fields and instructions at concrete bytes.
use longterm.Base.{◌≡◌, some, none, [], ◌∷◌, arith}
use longterm.Mosh.Proto.{next, while_next}
use longterm.Mosh.Proto.Field.{at}
use longterm.Mosh.Proto.Loop.{while_next_exit}
use longterm.Mosh.Instruction.{Instruction, blank, write_instruction, read_instruction, read_field}
use longterm.Mosh.Instruction.RoundTrip.{read_field-Forward, read-write_instruction}

while_next_exit_example : (next (while_next read_field (at (8 ∷ 2 ∷ 130 ∷ [])) blank).0).0 ≡ none
while_next_exit_example =
    while_next_exit read_field read_field-Forward (at (8 ∷ 2 ∷ 130 ∷ [])) blank

abbrev typed : Instruction
typed = record {
  version = 2;
  old_num = 5;
  new_num = 6;
  ack_num = 300;
  throwaway_num = 4;
  diff = 104 ∷ 105 ∷ [];
}

read-write_instruction_example :
    read_instruction (write_instruction typed (1 ∷ 2 ∷ 3 ∷ [])) ≡ some typed
read-write_instruction_example =
    read-write_instruction typed (1 ∷ 2 ∷ 3 ∷ [])
      (record {
        version = omega arith;
        old_num = omega arith;
        new_num = omega arith;
        ack_num = omega arith;
        throwaway_num = omega arith;
        diff = omega arith;
      })
      (omega arith)
