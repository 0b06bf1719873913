-- ===== src/Mosh/Restart/Write.antt =====
-- src/moshclient.cpp: the bytes of the journal's records.
use longterm.Base.{ℕ, ◌+◌, ◌*◌, ◌^◌, List, [], ◌∷◌, ◌++◌, ltb, if◌then◌else◌, length}
use longterm.Base.Words.{Bytes, to_big_endian}
use longterm.Mosh.Client.{
  Entry, UserEvent, address, note, seq_reserve, state_reserve, front, screen_state, latest_state,
  base, event, sent_state,
}

-- `number(value)`
abbrev pub number : ℕ → Bytes
number v = to_big_endian 8 v

unfoldable pub letter : Entry → ℕ
letter (address a) = b'A'
letter (note t) = b'N'
letter (seq_reserve n) = b'Q'
letter (state_reserve n) = b'M'
letter (front n) = b'F'
letter (screen_state s) = b'S'
letter (latest_state n) = b'L'
letter (base n) = b'B'
letter (event i e) = b'E'
letter (sent_state n k) = b'T'

-- A size as one number, the columns in its upper half.
abbrev pub size_number : ℕ → ℕ → ℕ
size_number columns rows = columns * 2 ^ 32 + rows

unfoldable pub event_data : UserEvent → Bytes
event_data e =
    if ltb 0 e.columns then b'R' ∷ number (size_number e.columns e.rows) else b'K' ∷ e.keys

unfoldable pub entry_data : Entry → Bytes
unfolding event_data
entry_data (address a) = a
entry_data (note t) = t
entry_data (seq_reserve n) = number n
entry_data (state_reserve n) = number n
entry_data (front n) = number n
entry_data (screen_state s) =
    number s.num
    ++ number s.parent
    ++ number (size_number s.columns s.rows)
    ++ number s.scroll_index
    ++ s.diff
entry_data (latest_state n) = number n
entry_data (base n) = number n
entry_data (event i e) = number i ++ event_data e
entry_data (sent_state n k) = number n ++ number k

-- What `journal` writes: a type byte, a big-endian length and the data.
unfoldable pub record_bytes : Entry → Bytes
unfolding letter entry_data
record_bytes e = letter e ∷ to_big_endian 4 (length (entry_data e)) ++ entry_data e

unfoldable pub journal_bytes : List Entry → Bytes
unfolding record_bytes
journal_bytes [] = []
journal_bytes (e ∷ es) = record_bytes e ++ journal_bytes es
