-- ===== src/Mosh/Restart/Restored.antt =====
-- The client that goes on from a journal has what the one that wrote it had.
use longterm.Base.{
  ◌^◌, ℕ, suc, ◌+◌, ◌≤◌, ◌<◌, ◌≡◌, refl, ap, ◌∙◌, true, false, List, [], ◌∷◌, ◌++◌, map, some,
  arith, All, length, ltb, le→ltb, Bool-cases, ◌==◌, ==→eq, inl, inr,
}
use longterm.Base.Assoc.{Found, Ordered-Found}
use longterm.Mosh.Client.{
  add64, Client, Journal, SentState, ReceivedState, shutdown_num, latest_state, base,
}
use longterm.Mosh.Journal.{
  seq_block, state_entries, event_entries, sent_entries, front_of, snapshot, renewed, last,
  last_from, first,
}
use longterm.Mosh.Send.States.{Chain, Before, IsChain}
use longterm.Mosh.Send.Valid.{IsValid}
use longterm.Mosh.Receiver.Steps.{Rooted}
use longterm.Mosh.Receiver.Screen.{IsReceiver}
use longterm.Base.Words.{Bytes}
use longterm.Mosh.Restart.Read.{is_cut}
use longterm.Mosh.Restart.Write.{journal_bytes}
use longterm.Mosh.Restart.Read.{Progress, read_journal, read_records, max_journal}
use longterm.Mosh.Restart.Entries.{IsEvent, IsEntry, take_entry, take_entries}
use longterm.Mosh.Restart.Cut.{read_records-journal_bytes}
use longterm.Mosh.Restart.Snapshot.{
  take_entries-append, with_client, with_states, with_events, take_entries-states,
  take_entries-events, take_entries-sent, Rises, IsKept, untimed,
}

-- A client with what the journal of another one keeps.
abbrev pub carried : Client → Journal → Client → Client
carried c j m = record m {
  link = record m.link { remote = c.remote };
  sender = record m.sender {
    event_base = c.event_base;
    events = c.events;
    sent = map untimed c.sent;
  };
  receiver = record m.receiver { states = c.states; latest = c.latest };
  journal = record m.journal {
    journal_note = j.journal_note;
    seq_reserved = j.seq_reserved;
    state_reserved = j.state_reserved;
    journaled_front = j.journaled_front;
  };
}

named :
    (m l : List (ℕ × ReceivedState))
    → Rooted m
    → Found m l
    → All (λ (e : ℕ × ReceivedState). e.1.num ≡ e.0) l
named m [] r f = tt
named m ((k, s) ∷ l) r (f, fs) = (r.numbered f, named m l r fs)

Chain-below :
    (s : SentState) (ss : List SentState)
    → Chain s ss
    → (s.num ≤ (last_from s ss).num) × (s.events ≤ (last_from s ss).events)
Chain-below s [] c = (omega arith, omega arith)
Chain-below s (t ∷ ss) (b, c) =
    let (n, e) = Chain-below t ss c in (omega (arith, b.num, n), omega (arith, b.events, e))

Before-rises : (s t : SentState) → Before s t → t.num < shutdown_num → suc s.num ≤ t.num
Before-rises s t b lt = elim (Bool-cases (s.num == t.num)) [
  | inl e ↦ absurd (omega (arith, b.distinct (==→eq s.num t.num e), lt))
  | inr e ↦ ground (arith, b.num, e)
]

Chain-Rises :
    (low : ℕ) (s : SentState) (ss : List SentState)
    → Chain s ss
    → low ≤ s.num
    → (last_from s ss).num < shutdown_num
    → Rises low (s ∷ ss)
Chain-Rises low s [] c le lt = (le, tt)
Chain-Rises low s (t ∷ ss) (b, c) le lt = (
  le,
  Chain-Rises (suc s.num) t ss c (Before-rises s t b (omega (arith, (Chain-below t ss c).0, lt)))
      lt,
)

Chain-IsKept :
    (c : Client) (s : SentState) (ss : List SentState)
    → Chain s ss
    → c.journaled_front ≤ s.num
    → c.event_base ≤ s.events
    → (last_from s ss).events ≤ c.event_base + length c.events
    → All (IsKept c) (s ∷ ss)
Chain-IsKept c s [] ch fronted based within = ((fronted, based, within), tt)
Chain-IsKept c s (t ∷ ss) (b, ch) fronted based within = (
  (fronted, based, omega (arith, b.events, (Chain-below t ss ch).1, within)),
  Chain-IsKept c t ss ch (omega (arith, fronted, b.num)) (omega (arith, based, b.events)) within,
)

sent-IsKept :
    (d : Client) (sent : List SentState)
    → IsChain sent
    → d.journaled_front ≤ (first sent).num
    → d.event_base ≤ (first sent).events
    → (last sent).events ≤ d.event_base + length d.events
    → (last sent).num < shutdown_num
    → Rises 0 sent × All (IsKept d) sent
sent-IsKept d [] ch fronted based within lt = absurd ch
sent-IsKept d (s ∷ ss) ch fronted based within lt =
    (Chain-Rises 0 s ss ch (omega arith) lt, Chain-IsKept d s ss ch fronted based within)

front_of-first : (sent : List SentState) (n : ℕ) → IsChain sent → front_of sent n ≡ (first sent).num
front_of-first [] n ch = absurd ch
front_of-first (s ∷ ss) n ch = refl

-- A client that is not shutting down, as its operations leave it.
pub record IsRunning (c : Client) : Type 0 where
  pub sends : IsValid c.sender
  pub receives : IsReceiver c
  pub stays : c.shutdown_in_progress ≡ false
  pub typed : All IsEvent c.events

take_entries-snapshot :
    (c m : Client)
    → IsRunning c
    → take_entries
        (snapshot c (renewed c))
        record { ok = true; have_address = false; client = with_states [] m }
      ≡ record { ok = true; have_address = true; client = carried c (renewed c) m }
unfolding snapshot renewed take_entries take_entry
take_entries-snapshot c m v =
    let j = renewed c in
    let headed : Client = record m {
      link = record m.link { remote = c.remote };
      receiver = record m.receiver { states = [] };
      journal = record m.journal {
        journal_note = j.journal_note;
        seq_reserved = j.seq_reserved;
        state_reserved = j.state_reserved;
        journaled_front = j.journaled_front;
      };
    } in
    let p1 : Progress = record { ok = true; have_address = true; client = headed } in
    let shown : Client = record headed {
      receiver = record m.receiver { states = c.states; latest = c.latest };
      sender = record m.sender { event_base = c.event_base; events = []; sent = [] };
    } in
    let p3 : Progress = record p1 { client = shown } in
    let p4 = with_client (with_events c.events shown) p3 in
    let events = event_entries c.event_base c.events in
    let sent = sent_entries c.sent in
    let rest = latest_state c.latest ∷ base c.event_base ∷ (events ++ sent) in
    let (rises, kept) =
      sent-IsKept p4.client c.sent v.sends.chain
        (omega (arith, front_of-first c.sent c.journaled_front v.sends.chain)) v.sends.based
        v.sends.within (v.sends.running v.stays) in
    take_entries-append (state_entries c.states) rest p1
    ∙ ap (take_entries rest) (
        take_entries-states c.states [] p1 v.receives.ordered
          (named c.states c.states v.receives.rooted (Ordered-Found 0 c.states v.receives.ordered)))
    ∙ take_entries-append events sent p3
    ∙ ap (take_entries sent) (take_entries-events c.events [] c.event_base p3 (omega arith) v.typed)
    ∙ take_entries-sent c.sent [] 0 p4 (λ k _. refl) rises kept

renewed-positive :
    (c : Client)
    → c.next_seq < 2 ^ 63
    → (last c.sent).num < 2 ^ 63
    → (ltb 0 (renewed c).seq_reserved ≡ true) × (ltb 0 (renewed c).state_reserved ≡ true)
unfolding renewed
renewed-positive c seq num =
    let a : add64 c.next_seq seq_block ≡ c.next_seq + seq_block = omega arith in
    let b : add64 (last c.sent).num seq_block ≡ (last c.sent).num + seq_block = omega arith in
    (ground (arith, a), ground (arith, b))

-- What rewriteJournal writes for a running client is read back by readJournal with the server's
-- address, the note, the reservations, the front, the states and the latest of them, and every
-- event and sent state, all as they were but for their times, where each record is within the
-- limits of its kind (sizes at most 4096, numbers below 2^64, contents below 4 GiB), the file has
-- at most 64 MiB, and the nonces and the number of the last state are below 2^63; a last record
-- that was cut short may follow.
pub read_journal-snapshot :
    (c m : Client) (tail : Bytes)
    → IsRunning c
    → c.next_seq < 2 ^ 63
    → (last c.sent).num < 2 ^ 63
    → All IsEntry (snapshot c (renewed c))
    → is_cut tail ≡ true
    → length (journal_bytes (snapshot c (renewed c)) ++ tail) ≤ max_journal
    → read_journal (some (journal_bytes (snapshot c (renewed c)) ++ tail)) m
      ≡ (true, carried c (renewed c) m)
unfolding read_journal
read_journal-snapshot c m tail v seq num fit cut small =
    let bytes = journal_bytes (snapshot c (renewed c)) ++ tail in
    let start : Progress = record { ok = true; have_address = false; client = with_states [] m } in
    let few : ltb max_journal (length bytes) ≡ false = le→ltb max_journal (length bytes) small in
    let read : read_records (length bytes) bytes start
        ≡ record { ok = true; have_address = true; client = carried c (renewed c) m } =
      read_records-journal_bytes (snapshot c (renewed c)) tail (length bytes) start fit cut
        (omega arith) refl
      ∙ take_entries-snapshot c m v in
    let (nonces, states) = renewed-positive c seq num in
    rw (few, read, nonces, states, v.receives.there) refl
