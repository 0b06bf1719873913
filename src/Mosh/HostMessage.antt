-- ===== src/Mosh/HostMessage.antt =====
-- src/moshclient.cpp: the HostMessage that `applyDiff` reads, three messages deep.
use longterm.Base.{ℕ, Bool, ◌&&◌, ◌||◌, Option, none, some, ◌++◌, ltb, ◌==◌, if◌then◌else◌}
use longterm.Base.Words.{Bytes}
use longterm.Mosh.Proto.{Reader, reader, varint, bytes, skip, while_next}
use longterm.Mosh.Client.{max_of}

-- What a HostMessage changes: the bytes for the terminal, its size and the echoed state.
pub record Changes : Type 0 where
  pub bytes : Bytes
  pub columns : ℕ
  pub rows : ℕ
  pub echo_ack : ℕ

-- `qBound<quint64>(1, number, 4096)`
abbrev pub bound_size : ℕ → ℕ
bound_size n = if ltb n 1 then 1 else if ltb 4096 n then 4096 else n

add_host_bytes : Option Bytes → Changes → Changes
add_host_bytes none ch = ch
add_host_bytes (some more) ch = record ch { bytes = ch.bytes ++ more }

set_size : ℕ → ℕ → Changes → Changes
set_size field n ch =
    if field == 5 then record ch { columns = bound_size n } else record ch { rows = bound_size n }

read_value : ℕ → ℕ → ℕ → Reader → Changes → Reader × Changes
read_value inner_field field wire_type r ch =
    if (inner_field == 2) && ((field == 4) && (wire_type == 2))
    then ((bytes r).1, add_host_bytes (bytes r).0 ch)
    else if (inner_field == 7) && ((field == 8) && (wire_type == 0))
    then ((varint r).after, record ch { echo_ack = max_of ch.echo_ack (varint r).value })
    else if (inner_field == 3) && (((field == 5) || (field == 6)) && (wire_type == 0))
    then ((varint r).after, set_size field (varint r).value ch)
    else (skip wire_type r, ch)

-- A message inside another: its bytes are read by a loop, and what cannot be read is skipped.
read_nested :
    (ℕ → ℕ → Reader → Changes → Reader × Changes) → Bool → ℕ → Reader → Changes → Reader × Changes
read_nested body wanted wire_type r ch =
    if wanted
    then elim (bytes r).0 [
      | none ↦ (skip wire_type (bytes r).1, ch)
      | some inner ↦ ((bytes r).1, (while_next body (reader inner) ch).1)
    ]
    else (skip wire_type r, ch)

read_extension : ℕ → ℕ → Reader → Changes → Reader × Changes
read_extension field wire_type r ch =
    read_nested (read_value field)
      ((wire_type == 2) && ((field == 2) || ((field == 3) || (field == 7)))) wire_type r ch

pub read_host_instruction : ℕ → ℕ → Reader → Changes → Reader × Changes
read_host_instruction field wire_type r ch =
    read_nested read_extension ((field == 1) && (wire_type == 2)) wire_type r ch

unfoldable pub read_host_message : Bytes → Changes → Reader × Changes
read_host_message diff ch = while_next read_host_instruction (reader diff) ch
