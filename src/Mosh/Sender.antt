-- ===== src/Mosh/Sender.antt =====
-- src/moshclient.cpp, "Sending the user's input".
pub mod History
pub mod Typed
pub mod UserMessage
pub mod Diff
use longterm.Base.{
  ℕ, suc, ◌+◌, ◌-◌, ◌*◌, ◌%◌, ◌^◌, Bool, true, false, ◌&&◌, ◌||◌, not, Option, none, some, List, [],
  ◌∷◌, ◌++◌, ltb, leb, ◌==◌, if◌then◌else◌, length, drop, get_elem?, is_empty,
}
use longterm.Base.Words.{Bytes}
use longterm.Base.Assoc.{insert}
use longterm.Mosh.Proto.{put_uint, put_bytes}
use longterm.Mosh.Fragment.{send_fragments}
use longterm.Mosh.Instruction.{Instruction, write_instruction, protocol_version}
use longterm.Mosh.Client.{
  UserEvent, SentState, Sender, Client, max_u64, shutdown_num, add64, sub64, max_of,
}
use longterm.Mosh.Journal.{
  has_journal, write_entry, rewrite_journal, journal_event, no_state, first, last,
}
use longterm.Mosh.Link.{Env, Outside, send_packets}

abbrev pub ack_interval : ℕ
ack_interval = 3000

abbrev pub ack_delay : ℕ
ack_delay = 100

abbrev pub send_mindelay : ℕ
send_mindelay = 1

abbrev pub active_retry_timeout : ℕ
active_retry_timeout = 10000

abbrev pub shutdown_retries : ℕ
shutdown_retries = 16

abbrev pub max_sent_states : ℕ
max_sent_states = 32

-- `m_sent.at(i)`
abbrev pub at_or : Option SentState → SentState
at_or none = no_state
at_or (some s) = s

abbrev pub state_at : List SentState → ℕ → SentState
state_at ss i = at_or (get_elem? ss i)

-- `m_eventBase + m_events.size()`
abbrev pub event_end : Sender → ℕ
event_end s = s.event_base + length s.events

abbrev pub set_sender : Sender → Client → Client
set_sender s c = record c { sender = s }

abbrev pub append_event : UserEvent → Client → Client
append_event e c = record c { sender = record c.sender { events = c.events ++ e ∷ [] } }

pub last_event : UserEvent → List UserEvent → UserEvent
last_event e [] = e
last_event e (f ∷ es) = last_event f es

-- The last event is one of keys, and was not sent yet.
pub grows : Sender → List UserEvent → Bool
unfolding last_event
grows s [] = false
grows s (e ∷ es) = ((last_event e es).columns == 0) && ltb (last s.sent).events (event_end s)

unfoldable pub add_keys : Bytes → List UserEvent → List UserEvent
add_keys keys [] = []
add_keys keys (e ∷ []) = record e { keys = e.keys ++ keys } ∷ []
add_keys keys (e ∷ (f ∷ es)) = e ∷ add_keys keys (f ∷ es)

abbrev pub of_keys : Bytes → UserEvent
of_keys keys = record { keys = keys; columns = 0; rows = 0 }

abbrev pub of_size : ℕ → ℕ → UserEvent
of_size columns rows = record { keys = []; columns = columns; rows = rows }

unfoldable pub write : Bytes → Client → Client
write keys c =
    let s = record c.sender { bytes_written = c.bytes_written + length keys } in
    let grown = record s { events = add_keys keys s.events } in
    let longer = record s { events = s.events ++ of_keys keys ∷ [] } in
    if c.shutdown_in_progress || is_empty keys
    then c
    else if grows c.sender c.events
    then journal_event (event_end c.sender - 1) (of_keys keys) (set_sender grown c)
    else journal_event (event_end c.sender) (of_keys keys) (set_sender longer c)

-- `columns` and `rows` are int, of which those that are not positive are refused: 0 stands for them.
unfoldable pub resize : ℕ → ℕ → Client → Client
resize columns rows c =
    let e = of_size columns rows in
    if c.shutdown_in_progress || ((columns == 0) || (rows == 0))
    then c
    else journal_event (event_end c.sender) e (append_event e c)

-- The `Instruction` of a `UserMessage` for one event.
pub event_bytes : UserEvent → Bytes
event_bytes e =
    let size = put_uint (put_uint [] 5 e.columns) 6 e.rows in
    if ltb 0 e.columns then put_bytes [] 3 size else put_bytes [] 2 (put_bytes [] 4 e.keys)

pub put_events : Bytes → List UserEvent → Bytes
put_events message [] = message
put_events message (e ∷ es) = put_events (put_bytes message 1 (event_bytes e)) es

pub user_diff : ℕ → Sender → Bytes
user_diff from s = put_events [] (drop (max_of from s.event_base - s.event_base) s.events)

unfoldable pub assumed_loop : Env → ℕ → ℕ → List SentState → ℕ
assumed_loop env assumed i [] = assumed
assumed_loop env assumed i (s ∷ ss) =
    if leb (env.timeout + ack_delay) (sub64 env.now s.timestamp)
    then assumed
    else assumed_loop env i (i + 1) ss

-- Gives the benefit of the doubt to states sent recently enough.
unfoldable pub update_assumed : Env → Sender → Sender
update_assumed env s = record s { assumed = assumed_loop env 0 1 (drop 1 s.sent) }

-- Events the server has are no longer needed.
unfoldable pub pop_events : ℕ → ℕ → List UserEvent → ℕ × List UserEvent
pop_events limit base [] = (base, [])
pop_events limit base (e ∷ es) =
    if ltb base limit then pop_events limit (base + 1) es else (base, e ∷ es)

unfoldable pub forget_events : Sender → Sender
forget_events s =
    let (base, events) = pop_events (first s.sent).events s.event_base s.events in
    record s { event_base = base; events = events }
