-- ===== src/Mosh/Journal.antt =====
-- src/moshclient.cpp: what `journal`, `rewriteJournal`, `journalEvent` and `setJournalNote` write.
use longterm.Base.{ℕ, ◌+◌, Bool, true, false, Option, none, some, List, [], ◌∷◌, ◌++◌}
use longterm.Base.Words.{Bytes}
use longterm.Mosh.Client.{
  add64, UserEvent, SentState, ReceivedState, Entry, address, note, seq_reserve, state_reserve,
  front, screen_state, latest_state, base, event, sent_state, Journal, Client, max_of,
}

-- `SeqBlock`
abbrev pub seq_block : ℕ
seq_block = 65536

abbrev pub has_journal : Client → Bool
has_journal c = elim c.file [ none ↦ false | some _ ↦ true ]

abbrev append_entry : Option (List Entry) → Entry → Option (List Entry)
append_entry none e = none
append_entry (some es) e = some (es ++ e ∷ [])

-- `journal(type, data)`: nothing without a journal.
unfoldable pub write_entry : Entry → Client → Client
write_entry e c = record c { journal = record c.journal { file = append_entry c.file e } }

-- `m_sent.first()` and `m_sent.last()`, which the code asks for only of lists that are not empty.
abbrev pub no_state : SentState
no_state = record { num = 0; events = 0; timestamp = 0 }

abbrev pub first : List SentState → SentState
first [] = no_state
first (s ∷ ss) = s

abbrev pub last_from : SentState → List SentState → SentState
last_from s [] = s
last_from s (t ∷ ss) = last_from t ss

abbrev pub last : List SentState → SentState
last [] = no_state
last (s ∷ ss) = last_from s ss

abbrev pub state_entries : List (ℕ × ReceivedState) → List Entry
state_entries [] = []
state_entries ((n, s) ∷ ss) = screen_state s ∷ state_entries ss

abbrev pub event_entries : ℕ → List UserEvent → List Entry
event_entries i [] = []
event_entries i (e ∷ es) = event i e ∷ event_entries (i + 1) es

abbrev pub sent_entries : List SentState → List Entry
sent_entries [] = []
sent_entries (s ∷ ss) = sent_state s.num s.events ∷ sent_entries ss

abbrev pub front_of : List SentState → ℕ → ℕ
front_of [] journaled = journaled
front_of (s ∷ ss) journaled = s.num

-- The whole journal, written anew.
unfoldable pub snapshot : Client → Journal → List Entry
snapshot c j =
    address c.remote
    ∷ note j.journal_note
    ∷ seq_reserve j.seq_reserved
    ∷ state_reserve j.state_reserved
    ∷ front j.journaled_front
    ∷ (state_entries c.states
        ++ latest_state c.latest
          ∷ base c.event_base
          ∷ (event_entries c.event_base c.events ++ sent_entries c.sent))

-- The reservations and the front that `rewriteJournal` leaves.
unfoldable pub renewed : Client → Journal
renewed c = record c.journal {
  seq_reserved = max_of c.seq_reserved (add64 c.next_seq seq_block);
  state_reserved = max_of c.state_reserved (add64 (last c.sent).num seq_block);
  journaled_front = front_of c.sent c.journaled_front;
}

unfoldable pub rewrite_journal : Client → Client
unfolding snapshot renewed
rewrite_journal c = elim c.file [
  | none ↦ c
  | some _ ↦ record c { journal = record (renewed c) { file = some (snapshot c (renewed c)) } }
]

set_journal_note : Bytes → Client → Client
unfolding rewrite_journal
set_journal_note text c =
    rewrite_journal (record c { journal = record c.journal { journal_note = text } })

-- `journalEvent(index, event)`
unfoldable pub journal_event : ℕ → UserEvent → Client → Client
unfolding write_entry
journal_event index e c = write_entry (event index e) c
