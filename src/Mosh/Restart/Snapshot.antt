-- ===== src/Mosh/Restart/Snapshot.antt =====
-- What `rewriteJournal` writes, once it is read, is the state that it was written from.
use mathlib.Core.Path.{subst}
use longterm.Base.{
  ℕ, suc, ◌+◌, ◌-◌, ◌≤◌, ◌<◌, ◌≡◌, refl, sym, ap, ◌∙◌, Bool, true, false, ◌||◌, List, [], ◌∷◌, ◌++◌,
  map, arith, All, length, length-append, is_empty, Bool-cases, inl, inr, ltb, leb, ◌==◌,
  append-nil, append_assoc, lt→ltb, le→ltb, eq→==,
}
use longterm.Base.Assoc.{insert, Ordered}
use longterm.Mosh.Client.{Client, Entry, UserEvent, SentState, ReceivedState}
use longterm.Mosh.Journal.{state_entries, event_entries, sent_entries, last}
use longterm.Mosh.Send.States.{last_from-append}
use longterm.Mosh.Restart.Read.{Progress, no_event, change_event, put_event, put_sent}
use longterm.Mosh.Restart.Entries.{IsEvent, joined, take_entry, take_entries}

pub take_entries-append :
    (es fs : List Entry) (p : Progress)
    → take_entries (es ++ fs) p ≡ take_entries fs (take_entries es p)
unfolding take_entries
take_entries-append [] fs p = refl
take_entries-append (e ∷ es) fs p = take_entries-append es fs (take_entry e p)

abbrev pub with_client : Client → Progress → Progress
with_client c p = record p { client = c }

abbrev pub with_states : List (ℕ × ReceivedState) → Client → Client
with_states states c = record c { receiver = record c.receiver { states = states } }

abbrev pub with_events : List UserEvent → Client → Client
with_events events c = record c { sender = record c.sender { events = events } }

abbrev pub with_sent : List SentState → Client → Client
with_sent sent c = record c { sender = record c.sender { sent = sent } }

Ordered-before :
    (low k : ℕ) (v : ReceivedState) (m rest : List (ℕ × ReceivedState))
    → Ordered low (m ++ (k, v) ∷ rest)
    → low ≤ k
Ordered-before low k v [] rest o = o.0
Ordered-before low k v ((j, w) ∷ m) rest o =
    omega (arith, o.0, Ordered-before (suc j) k v m rest o.1)

other_key : (j k : ℕ) → j < k → (j == k) ≡ false
other_key j k h = ground arith

insert-last :
    (low k : ℕ) (v : ReceivedState) (m rest : List (ℕ × ReceivedState))
    → Ordered low (m ++ (k, v) ∷ rest)
    → insert k v m ≡ m ++ (k, v) ∷ []
unfolding insert
insert-last low k v [] rest o = refl
insert-last low k v ((j, w) ∷ m) rest o =
    let less : j < k = Ordered-before (suc j) k v m rest o.1 in
    rw (le→ltb k j (omega (arith, less)), other_key j k less)
      (ap (λ x. (j, w) ∷ x) (insert-last (suc j) k v m rest o.1))

-- The states come in the order of their numbers, each behind the last.
pub take_entries-states :
    (ss done : List (ℕ × ReceivedState)) (p : Progress)
    → Ordered 0 (done ++ ss)
    → All (λ (e : ℕ × ReceivedState). e.1.num ≡ e.0) ss
    → take_entries (state_entries ss) (with_client (with_states done p.client) p)
      ≡ with_client (with_states (done ++ ss) p.client) p
unfolding take_entries take_entry
take_entries-states [] done p o named =
    ap (λ d. with_client (with_states d p.client) p) (sym (append-nil done))
take_entries-states ((k, s) ∷ ss) done p o (e, named) =
    let moved : done ++ (k, s) ∷ [] ++ ss ≡ done ++ (k, s) ∷ ss =
      append_assoc done ((k, s) ∷ []) ss in
    let entered : insert s.num s done ≡ done ++ (k, s) ∷ [] =
      ap (λ i. insert i s done) e ∙ insert-last 0 k s done ss o in
    ap (λ d. take_entries (state_entries ss) (with_client (with_states d p.client) p)) entered
    ∙ take_entries-states ss (done ++ (k, s) ∷ []) p (subst (Ordered 0) (sym moved) o) named
    ∙ ap (λ d. with_client (with_states d p.client) p) moved

joined-no_event : (e : UserEvent) → IsEvent e → joined e no_event ≡ e
unfolding joined
joined-no_event e h = elim (Bool-cases (ltb 0 e.columns)) [
  | inl d ↦ rw d (ap (λ k. record e { keys = k }) (sym (rw d at h).1))
  | inr d ↦
      let zero_rows : e.rows ≡ 0 = rw d at h in
      let zero_columns : e.columns ≡ 0 = ground (arith, d) in
      rw d (
        ap (λ n. record e { columns = n; rows = 0 }) (sym zero_columns)
        ∙ ap (λ n. record e { rows = n }) (sym zero_rows))
]

change_event-last :
    (f : UserEvent → UserEvent) (es : List UserEvent) (e : UserEvent)
    → change_event (length es) f (es ++ e ∷ []) ≡ es ++ f e ∷ []
unfolding change_event
change_event-last f [] e = refl
change_event-last f (g ∷ es) e = ap (λ x. g ∷ x) (change_event-last f es e)

put_event-next :
    (f : UserEvent → UserEvent) (c : Client)
    → put_event (c.event_base + length c.events) f c ≡ with_events (c.events ++ f no_event ∷ []) c
unfolding put_event
put_event-next f c =
    let i : c.event_base + length c.events - c.event_base ≡ length c.events = omega arith in
    let not_before : ltb (c.event_base + length c.events) c.event_base ≡ false = ground arith in
    rw
      (
        i,
        not_before,
        le→ltb (length c.events) (length c.events) (omega arith),
        eq→== (length c.events) (length c.events) refl,
      )
      (ap (λ x. with_events x c) (change_event-last f c.events no_event))

pub take_entries-events :
    (es done : List UserEvent) (i : ℕ) (p : Progress)
    → i ≡ p.client.event_base + length done
    → All IsEvent es
    → take_entries (event_entries i es) (with_client (with_events done p.client) p)
      ≡ with_client (with_events (done ++ es) p.client) p
unfolding take_entries take_entry
take_entries-events [] done i p e all =
    ap (λ d. with_client (with_events d p.client) p) (sym (append-nil done))
take_entries-events (e ∷ es) done i p at (h, all) =
    let c = with_events done p.client in
    let later : Client → Progress =
      λ d. take_entries (event_entries (i + 1) es) (with_client d p) in
    let next = done ++ e ∷ [] in
    let length_next : i + 1 ≡ p.client.event_base + length next =
      omega (arith, at, length-append done (e ∷ [])) in
    ap (λ n. later (put_event n (joined e) c)) at
    ∙ ap later (put_event-next (joined e) c)
    ∙ ap (λ f. later (with_events (done ++ f ∷ []) p.client)) (joined-no_event e h)
    ∙ take_entries-events es next (i + 1) p length_next all
    ∙ ap (λ d. with_client (with_events d p.client) p) (append_assoc done (e ∷ []) es)

-- Numbers from `low` on, that rise.
abbrev pub Rises : ℕ → List SentState → Type 0
Rises low [] = Unit {0}
Rises low (s ∷ ss) = (low ≤ s.num) × Rises (suc s.num) ss

-- What the reader asks of a sent state: not below the front, and events that there are.
abbrev pub IsKept : Client → SentState → Type 0
IsKept c s =
    (c.journaled_front ≤ s.num)
    × (c.event_base ≤ s.events)
    × (s.events ≤ c.event_base + length c.events)

abbrev pub untimed : SentState → SentState
untimed s = record s { timestamp = 0 }

abbrev is_later : List SentState → ℕ → Bool
is_later sent num = is_empty sent || ltb (last sent).num num

put_sent-next :
    (s : SentState) (c : Client)
    → IsKept c s
    → is_later c.sent s.num ≡ true
    → put_sent s.num s.events c ≡ with_sent (c.sent ++ untimed s ∷ []) c
unfolding put_sent
put_sent-next s c (a, b, d) e =
    let a' : leb c.journaled_front s.num ≡ true = ground (arith, a) in
    let b' : leb c.event_base s.events ≡ true = ground (arith, b) in
    let d' : leb s.events (c.event_base + length c.events) ≡ true = ground (arith, d) in
    rw (a', b', d', e) refl

is_later-append :
    (ss : List SentState) (t : SentState) (k : ℕ) → t.num < k → is_later (ss ++ t ∷ []) k ≡ true
is_later-append [] t k h = lt→ltb t.num k h
is_later-append (s ∷ ss) t k h =
    ap (λ (u : SentState). ltb u.num k) (last_from-append s ss t) ∙ lt→ltb t.num k h

pub take_entries-sent :
    (ss done : List SentState) (low : ℕ) (p : Progress)
    → ((k : ℕ) → low ≤ k → is_later done k ≡ true)
    → Rises low ss
    → All (IsKept p.client) ss
    → take_entries (sent_entries ss) (with_client (with_sent done p.client) p)
      ≡ with_client (with_sent (done ++ map untimed ss) p.client) p
unfolding take_entries take_entry
take_entries-sent [] done low p h r all =
    ap (λ d. with_client (with_sent d p.client) p) (sym (append-nil done))
take_entries-sent (s ∷ ss) done low p h (le, r) (k, all) =
    let c = with_sent done p.client in
    ap (λ d. take_entries (sent_entries ss) (with_client d p)) (put_sent-next s c k (h s.num le))
    ∙ take_entries-sent ss (done ++ untimed s ∷ []) (suc s.num) p
        (λ i lt. is_later-append done (untimed s) i lt) r all
    ∙ ap (λ d. with_client (with_sent d p.client) p)
        (append_assoc done (untimed s ∷ []) (map untimed ss))
