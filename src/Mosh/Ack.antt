-- ===== src/Mosh/Ack.antt =====
-- src/moshclient.cpp: `processAcknowledgment` and `echoedBytes`.
pub mod Known
use longterm.Base.{
  ℕ, Bool, true, false, ◌&&◌, ◌||◌, not, Option, none, some, List, [], ◌∷◌, ltb, leb, ◌==◌,
  if◌then◌else◌,
}
use longterm.Mosh.Client.{SentState, Sender, Client, front, Journal}
use longterm.Mosh.Journal.{has_journal, write_entry, first}

pub known : ℕ → List SentState → Bool
known num [] = false
known num (s ∷ ss) = (s.num == num) || known num ss

pub drop_before : ℕ → List SentState → List SentState
drop_before num [] = []
drop_before num (s ∷ ss) = if ltb s.num num then drop_before num ss else s ∷ ss

-- Only where the front is another one than the journal's.
unfoldable pub journal_front : Client → Client
journal_front c =
    let num = (first c.sent).num in
    let b = record c { journal = record c.journal { journaled_front = num } } in
    if has_journal c && not (num == c.journaled_front) then write_entry (front num) b else c

unfoldable pub process_acknowledgment : ℕ → Client → Client
process_acknowledgment ack_num c =
    let b = record c { sender = record c.sender { sent = drop_before ack_num c.sent } } in
    if known ack_num c.sent then journal_front b else c

-- `upperBound` and one back: the entry of the greatest number that is not above `echo_ack`.
entry_at : ℕ → ℕ → List (ℕ × ℕ) → ℕ
entry_at echo_ack found [] = found
entry_at echo_ack found ((num, bytes) ∷ m) =
    if ltb echo_ack num then found else entry_at echo_ack bytes m

echoed_bytes : Client → ℕ
echoed_bytes c = entry_at c.echo_ack 0 c.sent_bytes
