-- ===== src/Mosh/Instruction.antt =====
-- src/moshclient.cpp: the `TransportBuffers.Instruction` that `sendInstruction` writes and
-- `receiveInstruction` reads.
pub mod RoundTrip
use longterm.Base.{ℕ, Bool, true, false, ◌&&◌, Option, none, some, [], leb, ◌==◌, if◌then◌else◌}
use longterm.Base.Words.{Bytes}
use longterm.Mosh.Proto.{Reader, reader, put_uint, put_bytes, varint, bytes, skip, while_next}

pub record Instruction : Type 0 where
  pub version : ℕ
  pub old_num : ℕ
  pub new_num : ℕ
  pub ack_num : ℕ
  pub throwaway_num : ℕ
  pub diff : Bytes

abbrev pub protocol_version : ℕ
protocol_version = 2

-- The random bytes of `RAND_bytes` are an argument.
pub write_instruction : Instruction → Bytes → Bytes
write_instruction i chaff =
    let a = put_uint [] 1 i.version in
    let b = put_uint a 2 i.old_num in
    let c = put_uint b 3 i.new_num in
    let d = put_uint c 4 i.ack_num in
    let e = put_uint d 5 i.throwaway_num in let f = put_bytes e 6 i.diff in put_bytes f 7 chaff

abbrev pub blank : Instruction
blank = record { version = 0; old_num = 0; new_num = 0; ack_num = 0; throwaway_num = 0; diff = [] }

-- The switch on the field of a number.
pub set_number : ℕ → ℕ → Instruction → Instruction
set_number field value i =
    if field == 1
    then record i { version = value }
    else if field == 2
    then record i { old_num = value }
    else if field == 3
    then record i { new_num = value }
    else if field == 4
    then record i { ack_num = value }
    else if field == 5
    then record i { throwaway_num = value }
    else i

pub set_diff : Option Bytes → Instruction → Instruction
set_diff none i = i
set_diff (some diff) i = record i { diff = diff }

pub read_field : ℕ → ℕ → Reader → Instruction → Reader × Instruction
read_field field wire_type r i =
    if (wire_type == 0) && (leb 1 field && leb field 5)
    then ((varint r).after, set_number field (varint r).value i)
    else if (wire_type == 2) && (field == 6)
    then ((bytes r).1, set_diff (bytes r).0 i)
    else (skip wire_type r, i)

-- `none` where the reader is no longer `ok` after the loop.
pub read_instruction : Bytes → Option Instruction
read_instruction data' =
    let (r, i) = while_next read_field (reader data') blank in if r.ok then some i else none
