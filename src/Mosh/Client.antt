-- ===== src/Mosh/Client.antt =====
-- src/moshclient.h and src/moshclient.cpp: the state of `MoshClient`, by what it is for.
use longterm.Base.{ℕ, ◌+◌, ◌-◌, ◌%◌, ◌^◌, Bool, true, Option, none, some, List, ltb, if◌then◌else◌}
use longterm.Base.Words.{Bytes}
use longterm.Mosh.Fragment.{Assembly}

abbrev pub max_u64 : ℕ
max_u64 = 2 ^ 64 - 1

-- The number of the last state, `quint64(-1)`.
abbrev pub shutdown_num : ℕ
shutdown_num = max_u64

-- `quint64(-2)`, the parent of a received state that is a whole screen.
abbrev pub no_parent : ℕ
no_parent = 2 ^ 64 - 2

abbrev pub add64 : ℕ → ℕ → ℕ
add64 a b = (a + b) % 2 ^ 64

abbrev pub sub64 : ℕ → ℕ → ℕ
sub64 a b = (a + 2 ^ 64 - b) % 2 ^ 64

-- qMax
abbrev pub max_of : ℕ → ℕ → ℕ
max_of a b = if ltb a b then b else a

-- A resize where `columns` is not 0, else keys.
pub record UserEvent : Type 0 where
  pub keys : Bytes
  pub columns : ℕ
  pub rows : ℕ

pub record SentState : Type 0 where
  pub num : ℕ
  pub events : ℕ
  pub timestamp : ℕ

pub record ReceivedState : Type 0 where
  pub num : ℕ
  pub parent : ℕ
  pub diff : Bytes
  pub columns : ℕ
  pub rows : ℕ
  pub scroll_index : ℕ

pub record Output : Type 0 where
  pub bytes : Bytes
  pub replace : Bool
  pub screen : Bytes
  pub skip_lines : ℕ

-- A record of the journal, by its type letter.
pub data Entry : Type 0 where
  address : Bytes → Entry
  note : Bytes → Entry
  seq_reserve : ℕ → Entry
  state_reserve : ℕ → Entry
  front : ℕ → Entry
  screen_state : ReceivedState → Entry
  latest_state : ℕ → Entry
  base : ℕ → Entry
  event : ℕ → UserEvent → Entry
  sent_state : ℕ → ℕ → Entry

-- The journal's file is the list of what was written since it was last truncated, oldest first.
pub record Journal : Type 0 where
  pub file : Option (List Entry)
  pub journal_note : Bytes
  pub seq_reserved : ℕ
  pub journaled_front : ℕ
  pub state_reserved : ℕ
  pub state_floor : ℕ

pub record Socket : Type 0 where
  pub fd : ℕ
  pub created : ℕ

-- `outbox` holds the datagrams handed to `sendto`, oldest first, with their nonces.
pub record Link : Type 0 where
  pub remote : Bytes
  pub sockets : List Socket
  pub last_port_choice : ℕ
  pub last_roundtrip_success : ℕ
  pub next_seq : ℕ
  pub expected_seq : ℕ
  pub saved_timestamp : ℕ
  pub saved_timestamp_at : ℕ
  pub fragment_id : ℕ
  pub assembly : Assembly
  pub outbox : List (ℕ × Bytes)

pub record Sender : Type 0 where
  pub events : List UserEvent
  pub event_base : ℕ
  pub sent : List SentState
  pub assumed : ℕ
  pub next_ack_time : ℕ
  pub next_send_time : ℕ
  pub mindelay_clock : ℕ
  pub last_heard : ℕ
  pub pending_data_ack : Bool
  pub shutdown_in_progress : Bool
  pub shutdown_tries : ℕ
  pub shutdown_start : ℕ
  pub last_ack_sent : ℕ
  pub sent_bytes : List (ℕ × ℕ)
  pub bytes_written : ℕ

-- The mirror terminal is what it was started from and was given since, oldest first.
pub record Mirror : Type 0 where
  pub start_screen : Bytes
  pub start_columns : ℕ
  pub start_rows : ℕ
  pub writes : List (Bytes × ℕ × ℕ)

pub record Receiver : Type 0 where
  pub ack_num : ℕ
  pub states : List (ℕ × ReceivedState)
  pub latest : ℕ
  pub shown_scroll : ℕ
  pub output : List Output
  pub heard : Bool
  pub echo_ack : ℕ
  pub mirror : Mirror

pub data Failure : Type 0 where
  invalid_address invalid_key no_encryption damaged_journal no_socket : Failure
  wrong_version : ℕ → Failure

pub record Client : Type 0 where
  pub link : Link
  pub open link use *
  pub sender : Sender
  pub open sender use *
  pub receiver : Receiver
  pub open receiver use *
  pub journal : Journal
  pub open journal use *
  pub error : Option Failure
  pub finished : Bool

abbrev first_error : Option Failure → Failure → Option Failure
first_error none f = some f
first_error (some e) f = some e

-- `fail`: the first error is kept, and the session is over.
unfoldable pub fail : Failure → Client → Client
fail f c = record c { error = first_error c.error f; finished = true }
