-- ===== src/Mosh/Restart/Reading.antt =====
-- Each record of a journal is read as what was written.
use std.Path.{fun_ext}
use longterm.Base.{
  Bool-cases, inl, inr, ℕ, ◌/◌, ◌%◌, ◌^◌, ◌≤◌, ◌≡◌, refl, sym, ap, ◌∙◌, true, false, ◌&&◌, [], ◌∷◌,
  ◌++◌, ltb, ◌==◌, length, take, drop, arith, length-append, take-append, drop-append, append-nil,
}
use longterm.Base.Words.{
  Bytes, to_big_endian, from_big_endian, length-to_big_endian, from-to_big_endian,
}
use longterm.Mosh.Client.{
  Client, Entry, UserEvent, ReceivedState, address, note, seq_reserve, state_reserve, front,
  screen_state, latest_state, base, event, sent_state,
}
use longterm.Mosh.Restart.Write.{number, letter, size_number, event_data, entry_data}
use longterm.Mosh.Restart.Read.{
  Progress, word, bounded, read_address, read_number, set_seq_reserved, set_state_reserved,
  set_journaled_front, set_latest, set_base, put_event, event_change, read_event, read_sent,
  read_state, read_record, max_address, is_kind,
}
use longterm.Mosh.Restart.Entries.{joined, IsSize, Fits, IsEvent, IsWord, take_entry}

length-number : (n : ℕ) → length (number n) ≡ 8
length-number n = length-to_big_endian 8 n

word_fits : (n : ℕ) → IsWord n → from_big_endian (number n) ≡ n
word_fits n h = from-to_big_endian 8 n (omega (arith, h))

word-number : (n : ℕ) (rest : Bytes) → IsWord n → word 0 (number n ++ rest) ≡ n
word-number n rest h =
    ap from_big_endian (take-append 8 (number n) rest (sym (length-number n))) ∙ word_fits n h

drop-number : (n : ℕ) (rest : Bytes) → drop 8 (number n ++ rest) ≡ rest
drop-number n rest = drop-append 8 (number n) rest (sym (length-number n))

word-whole : (n : ℕ) → IsWord n → word 0 (number n) ≡ n
word-whole n h = ap (word 0) (sym (append-nil (number n))) ∙ word-number n [] h

read_number-number :
    (set : ℕ → Client → Client) (n : ℕ) (p : Progress)
    → IsWord n
    → read_number set (number n) p ≡ record p { client = set n p.client }
unfolding read_number
read_number-number set n p h =
    rw (length-number n) (ap (λ m. record p { client = set m p.client }) (word-whole n h))

read_address-Fits :
    (a : Bytes) (p : Progress) → Fits (address a) → read_address a p ≡ take_entry (address a) p
unfolding read_address take_entry
read_address-Fits [] p h = absurd (omega (arith, h.0))
read_address-Fits (b ∷ a) p h =
    let few : ltb max_address (length (b ∷ a)) ≡ false = ground (arith, h.1) in rw few refl

read_sent-Fits :
    (n k : ℕ) (p : Progress)
    → Fits (sent_state n k)
    → read_sent (entry_data (sent_state n k)) p ≡ take_entry (sent_state n k) p
unfolding read_sent take_entry entry_data
read_sent-Fits n k p h =
    let sixteen : length (number n ++ number k) ≡ 16 =
      omega (arith, length-append (number n) (number k), length-number n, length-number k) in
    let second : word 8 (number n ++ number k) ≡ k =
      ap (word 0) (drop-number n (number k)) ∙ word-whole k h.1 in
    rw (sixteen, word-number n (number k) h.0, second) refl

-- Four numbers in front of a difference.
abbrev state_head : ℕ → ℕ → ℕ → ℕ → Bytes → Bytes
state_head a b c d rest = number a ++ number b ++ number c ++ number d ++ rest

state_words :
    (a b c d : ℕ) (rest : Bytes)
    → IsWord a × IsWord b × IsWord c × IsWord d
    → let fields = state_head a b c d rest in
      (word 0 fields ≡ a)
      × (word 8 fields ≡ b)
      × (word 16 fields ≡ c)
      × (word 24 fields ≡ d)
      × (drop 32 fields ≡ rest)
      × (ltb (length fields) 32 ≡ false)
unfolding to_big_endian
state_words a b c d rest (p, q, r, t) =
    let fields = state_head a b c d rest in
    let first : take 8 fields ≡ number a = refl in
    let second : take 8 (drop 8 fields) ≡ number b = refl in
    let third : take 8 (drop 16 fields) ≡ number c = refl in
    let fourth : take 8 (drop 24 fields) ≡ number d = refl in
    (
      ap from_big_endian first ∙ word_fits a p,
      ap from_big_endian second ∙ word_fits b q,
      ap from_big_endian third ∙ word_fits c r,
      ap from_big_endian fourth ∙ word_fits d t,
      refl,
      ground arith,
    )

bounded-size : (n : ℕ) → 1 ≤ n → n ≤ 4096 → bounded n ≡ n
bounded-size n a b = ground arith

columns-size_number : (c r : ℕ) → r ≤ 4096 → size_number c r / 2 ^ 32 ≡ c
columns-size_number c r h = omega arith

rows-size_number : (c r : ℕ) → r ≤ 4096 → size_number c r % 2 ^ 32 ≡ r
rows-size_number c r h = omega arith

read_state-Fits :
    (s : ReceivedState) (p : Progress)
    → Fits (screen_state s)
    → read_state (entry_data (screen_state s)) p ≡ take_entry (screen_state s) p
unfolding read_state take_entry entry_data
read_state-Fits s p (n, a, (c1, c2, r1, r2), l) =
    let size = size_number s.columns s.rows in
    let (w0, w8, w16, w24, end, long) =
      state_words s.num s.parent size s.scroll_index s.diff (n, a, omega (arith, c2, r2), l) in
    rw
      (
        w0,
        w8,
        w16,
        w24,
        end,
        long,
        columns-size_number s.columns s.rows r2,
        rows-size_number s.columns s.rows r2,
        bounded-size s.columns c1 c2,
        bounded-size s.rows r1 r2,
      )
      refl

-- What is written of an event is read as a change that joins it to another.
keys_change :
    (i : ℕ) (keys : Bytes) (old : UserEvent)
    → event_change (number i ++ b'K' ∷ keys) old ≡ record old { keys = old.keys ++ keys }
unfolding event_change to_big_endian
keys_change i keys old = refl

size_word : (i n : ℕ) → IsWord n → word 9 (number i ++ b'R' ∷ number n) ≡ n
unfolding to_big_endian
size_word i n h =
    let there : take 8 (drop 9 (number i ++ b'R' ∷ number n)) ≡ number n = refl in
    ap from_big_endian there ∙ word_fits n h

size_change :
    (i columns rows : ℕ) (old : UserEvent)
    → IsSize columns rows
    → event_change (number i ++ b'R' ∷ number (size_number columns rows)) old
      ≡ record old { columns = columns; rows = rows }
unfolding event_change
size_change i columns rows old (c1, c2, r1, r2) =
    let fields = number i ++ b'R' ∷ number (size_number columns rows) in
    let keys : is_kind b'K' fields ≡ false = unfold to_big_endian in refl in
    let size : (is_kind b'R' fields && length fields == 17) ≡ true = unfold to_big_endian in refl in
    rw
      (
        keys,
        size,
        size_word i (size_number columns rows) (omega (arith, c2, r2)),
        columns-size_number columns rows r2,
        rows-size_number columns rows r2,
        bounded-size columns c1 c2,
        bounded-size rows r1 r2,
      )
      refl

event_change-joined :
    (i : ℕ) (e old : UserEvent)
    → IsEvent e
    → event_change (number i ++ event_data e) old ≡ joined e old
unfolding event_data joined
event_change-joined i e old h = elim (Bool-cases (ltb 0 e.columns)) [
  | inl d ↦ rw d (size_change i e.columns e.rows old (rw d at h).0)
  | inr d ↦ rw d (keys_change i e.keys old)
]

event_long : (i : ℕ) (e : UserEvent) → ltb (length (number i ++ event_data e)) 9 ≡ false
unfolding event_data
event_long i e = elim (Bool-cases (ltb 0 e.columns)) [
  | inl d ↦ rw d (unfold to_big_endian in refl)
  | inr d ↦ rw d (unfold to_big_endian in ground arith)
]

read_event-Fits :
    (i : ℕ) (e : UserEvent) (p : Progress)
    → Fits (event i e)
    → read_event (entry_data (event i e)) p ≡ take_entry (event i e) p
unfolding read_event take_entry entry_data
read_event-Fits i e p (h, k) =
    rw (event_long i e, word-number i (event_data e) h)
      (ap (λ f. record p { client = put_event i f p.client })
        (fun_ext (λ old. event_change-joined i e old k)))

-- A record is taken by its type byte.
pub read_record-Fits :
    (e : Entry) (p : Progress) → Fits e → read_record (letter e) (entry_data e) p ≡ take_entry e p
unfolding read_record letter entry_data take_entry
read_record-Fits (address a) p h = read_address-Fits a p h
read_record-Fits (note t) p h = refl
read_record-Fits (seq_reserve n) p h = read_number-number set_seq_reserved n p h
read_record-Fits (state_reserve n) p h = read_number-number set_state_reserved n p h
read_record-Fits (front n) p h = read_number-number set_journaled_front n p h
read_record-Fits (screen_state s) p h = read_state-Fits s p h
read_record-Fits (latest_state n) p h = read_number-number set_latest n p h
read_record-Fits (base n) p h = read_number-number set_base n p h
read_record-Fits (event i e) p h = read_event-Fits i e p h
read_record-Fits (sent_state n k) p h = read_sent-Fits n k p h
