-- ===== src/Mosh/Restart/Read.antt =====
-- src/moshclient.cpp: `readJournal` and `journalNote`.
use longterm.Base.{
  ℕ, zero, suc, ◌+◌, ◌-◌, ◌*◌, ◌/◌, ◌%◌, ◌^◌, Bool, true, false, ◌&&◌, ◌||◌, Option, none, some,
  List, [], ◌∷◌, ◌++◌, ltb, leb, ◌==◌, if◌then◌else◌, get_elem?, length, is_empty, take, drop,
}
use longterm.Base.Words.{Bytes, from_big_endian}
use longterm.Base.Assoc.{insert, contains}
use longterm.Mosh.Client.{Client, UserEvent, ReceivedState}
use longterm.Mosh.Journal.{last}

-- `readJournal` at work: `ok` is false where it gave up. What it reads goes into the client.
pub record Progress : Type 0 where
  pub ok : Bool
  pub have_address : Bool
  pub client : Client

abbrev pub give_up : Progress → Progress
give_up p = record p { ok = false }

-- `qFromBigEndian<quint64>(field + at)`
abbrev pub word : ℕ → Bytes → ℕ
word at fields = from_big_endian (take 8 (drop at fields))

-- `qBound<quint64>(1, n, 4096)`
abbrev pub bounded : ℕ → ℕ
bounded n = if ltb n 1 then 1 else if ltb 4096 n then 4096 else n

abbrev pub max_address : ℕ
max_address = 128

unfoldable pub read_address : Bytes → Progress → Progress
read_address fields p =
    let c = p.client in
    if ltb max_address (length fields) || is_empty fields then give_up p else record p {
      have_address = true;
      client = record c { link = record c.link { remote = fields } };
    }

unfoldable pub read_number : (ℕ → Client → Client) → Bytes → Progress → Progress
read_number set fields p =
    if length fields == 8 then record p { client = set (word 0 fields) p.client } else give_up p

abbrev pub set_note : Bytes → Client → Client
set_note t c = record c { journal = record c.journal { journal_note = t } }

abbrev pub set_seq_reserved : ℕ → Client → Client
set_seq_reserved n c = record c { journal = record c.journal { seq_reserved = n } }

abbrev pub set_state_reserved : ℕ → Client → Client
set_state_reserved n c = record c { journal = record c.journal { state_reserved = n } }

abbrev pub set_journaled_front : ℕ → Client → Client
set_journaled_front n c = record c { journal = record c.journal { journaled_front = n } }

abbrev pub set_latest : ℕ → Client → Client
set_latest n c = record c { receiver = record c.receiver { latest = n } }

abbrev pub set_base : ℕ → Client → Client
set_base n c = record c { sender = record c.sender { event_base = n; events = []; sent = [] } }

abbrev pub no_event : UserEvent
no_event = record { keys = []; columns = 0; rows = 0 }

unfoldable pub change_event : ℕ → (UserEvent → UserEvent) → List UserEvent → List UserEvent
change_event i f [] = []
change_event zero f (e ∷ es) = f e ∷ es
change_event (suc i) f (e ∷ es) = e ∷ change_event i f es

-- An event of number `index` is changed, or a new one that is next.
unfoldable pub put_event : ℕ → (UserEvent → UserEvent) → Client → Client
unfolding change_event
put_event index f c =
    let i = index - c.event_base in
    let events = if i == length c.events then c.events ++ no_event ∷ [] else c.events in
    if ltb index c.event_base || ltb (length c.events) i
    then c
    else record c { sender = record c.sender { events = change_event i f events } }

-- `record.at(8) == kind`, of a record that is long enough.
abbrev pub is_kind : ℕ → Bytes → Bool
is_kind kind fields = elim (get_elem? fields 8) [ none ↦ false | some k ↦ k == kind ]

unfoldable pub event_change : Bytes → UserEvent → UserEvent
event_change fields e =
    if is_kind b'K' fields
    then record e { keys = e.keys ++ drop 9 fields }
    else if is_kind b'R' fields && length fields == 17
    then record e {
      columns = bounded (word 9 fields / 2 ^ 32);
      rows = bounded (word 9 fields % 2 ^ 32);
    }
    else e

unfoldable pub read_event : Bytes → Progress → Progress
unfolding put_event event_change
read_event fields p =
    if ltb (length fields) 9
    then give_up p
    else record p { client = put_event (word 0 fields) (event_change fields) p.client }

-- Only the states on top of the front, in their order, with events that there are.
unfoldable pub put_sent : ℕ → ℕ → Client → Client
put_sent num events c =
    if leb c.journaled_front num
      && (leb c.event_base events
          && (leb events (c.event_base + length c.events)
              && (is_empty c.sent || ltb (last c.sent).num num)))
    then record c {
      sender = record c.sender {
        sent = c.sent ++ record { num = num; events = events; timestamp = 0 } ∷ [];
      };
    }
    else c

unfoldable pub read_sent : Bytes → Progress → Progress
unfolding put_sent
read_sent fields p =
    if length fields == 16
    then record p { client = put_sent (word 0 fields) (word 8 fields) p.client }
    else give_up p

abbrev pub put_state : ReceivedState → Client → Client
put_state s c = record c { receiver = record c.receiver { states = insert s.num s c.states } }

unfoldable pub read_state : Bytes → Progress → Progress
read_state fields p =
    let s : ReceivedState = record {
      num = word 0 fields;
      parent = word 8 fields;
      diff = drop 32 fields;
      columns = bounded (word 16 fields / 2 ^ 32);
      rows = bounded (word 16 fields % 2 ^ 32);
      scroll_index = word 24 fields;
    } in
    if ltb (length fields) 32 then give_up p else record p { client = put_state s p.client }

-- The record of a type byte.
unfoldable pub read_record : ℕ → Bytes → Progress → Progress
unfolding read_address read_number read_event read_sent read_state
read_record type fields p =
    if type == b'A'
    then read_address fields p
    else if type == b'N'
    then record p { client = set_note fields p.client }
    else if type == b'Q'
    then read_number set_seq_reserved fields p
    else if type == b'F'
    then read_number set_journaled_front fields p
    else if type == b'L'
    then read_number set_latest fields p
    else if type == b'M'
    then read_number set_state_reserved fields p
    else if type == b'B'
    then read_number set_base fields p
    else if type == b'E'
    then read_event fields p
    else if type == b'T'
    then read_sent fields p
    else if type == b'S'
    then read_state fields p
    else give_up p

-- The length that a record says it has, and what is behind it.
abbrev pub said_length : Bytes → ℕ
said_length bytes = from_big_endian (take 4 (drop 1 bytes))

-- No whole record is left: the last one was being written when the app went.
abbrev pub is_cut : Bytes → Bool
is_cut bytes = ltb (length bytes) 5 || ltb (length (drop 5 bytes)) (said_length bytes)

-- One round more than there are bytes is enough, since each takes five at least.
unfoldable pub read_records : ℕ → Bytes → Progress → Progress
unfolding read_record
read_records rounds [] p = p
read_records zero (type ∷ bytes) p = p
read_records (suc rounds) (type ∷ bytes) p =
    let all = type ∷ bytes in
    let read = read_record type (take (said_length all) (drop 5 all)) p in
    let later = read_records rounds (drop (said_length all) (drop 5 all)) read in
    if is_cut all then p else if read.ok then later else read

abbrev pub max_journal : ℕ
max_journal = 64 * 1024 * 1024

-- `readJournal` of a file, `none` where it cannot be opened.
unfoldable pub read_journal : Option Bytes → Client → Bool × Client
unfolding read_records
read_journal none c = (false, c)
read_journal (some bytes) c =
    let cleared = record c { receiver = record c.receiver { states = [] } } in
    let start : Progress = record { ok = true; have_address = false; client = cleared } in
    let read = read_records (length bytes) bytes start in
    let d = read.client in
    if ltb max_journal (length bytes) then (false, c) else (
      read.ok
          && (read.have_address
              && (ltb 0 d.seq_reserved && (ltb 0 d.state_reserved && contains d.latest d.states))),
      d,
    )

journal_note_of : Option Bytes → Client → Bytes
unfolding read_journal
journal_note_of file reader =
    let (ok, c) = read_journal file reader in if ok then c.journal_note else []
