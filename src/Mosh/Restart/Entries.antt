-- ===== src/Mosh/Restart/Entries.antt =====
-- What the records of a journal say, without their bytes.
use longterm.Base.{ℕ, ◌^◌, ◌≤◌, ◌<◌, ◌≡◌, true, List, [], ◌∷◌, ◌++◌, ltb, if◌then◌else◌, length}
use longterm.Mosh.Client.{
  Entry, UserEvent, address, note, seq_reserve, state_reserve, front, screen_state, latest_state,
  base, event, sent_state,
}
use longterm.Mosh.Restart.Write.{entry_data}
use longterm.Mosh.Restart.Read.{
  Progress, set_note, set_seq_reserved, set_state_reserved, set_journaled_front, set_latest,
  set_base, put_event, put_sent, put_state, max_address,
}

-- A number of 64 bits.
abbrev pub IsWord : ℕ → Type 0
IsWord n = n < 2 ^ 64

-- Sizes that a terminal has.
abbrev pub IsSize : ℕ → ℕ → Type 0
IsSize columns rows = (1 ≤ columns) × (columns ≤ 4096) × (1 ≤ rows) × (rows ≤ 4096)

abbrev pub IsEvent : UserEvent → Type 0
IsEvent e = if ltb 0 e.columns then IsSize e.columns e.rows × (e.keys ≡ []) else e.rows ≡ 0

-- The limits of the types of what a record holds.
abbrev pub Fits : Entry → Type 0
Fits (address a) = (1 ≤ length a) × (length a ≤ max_address)
Fits (note t) = Unit {0}
Fits (seq_reserve n) = IsWord n
Fits (state_reserve n) = IsWord n
Fits (front n) = IsWord n
Fits (screen_state s) =
    IsWord s.num × IsWord s.parent × IsSize s.columns s.rows × IsWord s.scroll_index
Fits (latest_state n) = IsWord n
Fits (base n) = IsWord n
Fits (event i e) = IsWord i × IsEvent e
Fits (sent_state n k) = IsWord n × IsWord k

abbrev pub IsEntry : Entry → Type 0
IsEntry e = Fits e × (length (entry_data e) < 2 ^ 32)

-- What an event adds to the one that it goes into.
unfoldable pub joined : UserEvent → UserEvent → UserEvent
joined e old =
    if ltb 0 e.columns
    then record old { columns = e.columns; rows = e.rows }
    else record old { keys = old.keys ++ e.keys }

-- What a record says, without its bytes.
unfoldable pub take_entry : Entry → Progress → Progress
take_entry (address a) p =
    let c = p.client in
    record p { have_address = true; client = record c { link = record c.link { remote = a } } }
take_entry (note t) p = record p { client = set_note t p.client }
take_entry (seq_reserve n) p = record p { client = set_seq_reserved n p.client }
take_entry (state_reserve n) p = record p { client = set_state_reserved n p.client }
take_entry (front n) p = record p { client = set_journaled_front n p.client }
take_entry (screen_state s) p = record p { client = put_state s p.client }
take_entry (latest_state n) p = record p { client = set_latest n p.client }
take_entry (base n) p = record p { client = set_base n p.client }
take_entry (event i e) p = record p { client = put_event i (joined e) p.client }
take_entry (sent_state n k) p = record p { client = put_sent n k p.client }

unfoldable pub take_entries : List Entry → Progress → Progress
take_entries [] p = p
take_entries (e ∷ es) p = take_entries es (take_entry e p)
