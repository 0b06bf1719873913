-- ===== src/Mosh/Restart/Cut.antt =====
-- What was written to a journal is read back, and a record that was cut short is left out.
use longterm.Base.{
  ℕ, zero, suc, ◌≤◌, ◌≡◌, refl, ap, ◌∙◌, true, false, List, [], ◌∷◌, ◌++◌, ltb, length, take, drop,
  arith, All, length-append, take-append, drop-append, append_assoc,
}
use longterm.Base.Words.{Bytes, to_big_endian, from_big_endian, from-to_big_endian}
use longterm.Mosh.Client.{
  Entry, address, note, seq_reserve, state_reserve, front, screen_state, latest_state, base, event,
  sent_state,
}
use longterm.Mosh.Restart.Write.{letter, entry_data, record_bytes, journal_bytes}
use longterm.Mosh.Restart.Read.{Progress, read_record, read_records, said_length, is_cut}
use longterm.Mosh.Restart.Reading.{read_record-Fits}
use longterm.Mosh.Restart.Entries.{IsEntry, take_entry, take_entries}

take_entry-ok : (e : Entry) (p : Progress) → (take_entry e p).ok ≡ p.ok
unfolding take_entry
take_entry-ok (address a) p = refl
take_entry-ok (note t) p = refl
take_entry-ok (seq_reserve n) p = refl
take_entry-ok (state_reserve n) p = refl
take_entry-ok (front n) p = refl
take_entry-ok (screen_state s) p = refl
take_entry-ok (latest_state n) p = refl
take_entry-ok (base n) p = refl
take_entry-ok (event i e) p = refl
take_entry-ok (sent_state n k) p = refl

-- A whole record at the front, by its parts.
record_head :
    (e : Entry) (rest : Bytes)
    → (take 4 (drop 1 (record_bytes e ++ rest)) ≡ to_big_endian 4 (length (entry_data e)))
      × (drop 5 (record_bytes e ++ rest) ≡ entry_data e ++ rest)
unfolding record_bytes to_big_endian
record_head e rest = (refl, refl)

record_long : (e : Entry) (rest : Bytes) → ltb (length (record_bytes e ++ rest)) 5 ≡ false
unfolding record_bytes to_big_endian
record_long e rest = ground arith

record_length :
    (e : Entry) (rest : Bytes)
    → IsEntry e
    → said_length (record_bytes e ++ rest) ≡ length (entry_data e)
record_length e rest (h, small) =
    ap from_big_endian (record_head e rest).0
    ∙ from-to_big_endian 4 (length (entry_data e)) (omega (arith, small))

record_whole : (e : Entry) (rest : Bytes) → IsEntry e → is_cut (record_bytes e ++ rest) ≡ false
record_whole e rest h =
    let enough : ltb (length (entry_data e ++ rest)) (length (entry_data e)) ≡ false =
      ground (arith, length-append (entry_data e) rest) in
    rw (record_long e rest, (record_head e rest).1, record_length e rest h) enough

read_records-cut :
    (rounds : ℕ) (tail : Bytes) (p : Progress) → is_cut tail ≡ true → read_records rounds tail p ≡ p
unfolding read_records
read_records-cut rounds [] p h = refl
read_records-cut zero (t ∷ tail) p h = refl
read_records-cut (suc rounds) (t ∷ tail) p h = rw h refl

-- One round of the loop.
read_records-step :
    (rounds type : ℕ) (bytes fields rest : Bytes) (p : Progress)
    → is_cut (type ∷ bytes) ≡ false
    → take (said_length (type ∷ bytes)) (drop 5 (type ∷ bytes)) ≡ fields
    → drop (said_length (type ∷ bytes)) (drop 5 (type ∷ bytes)) ≡ rest
    → (read_record type fields p).ok ≡ true
    → read_records (suc rounds) (type ∷ bytes) p
      ≡ read_records rounds rest (read_record type fields p)
unfolding read_records
read_records-step rounds type bytes fields rest p whole taken left ok =
    rw (whole, taken, left, ok) refl

read_records-record :
    (rounds : ℕ) (e : Entry) (rest : Bytes) (p : Progress)
    → IsEntry e
    → p.ok ≡ true
    → read_records (suc rounds) (record_bytes e ++ rest) p
      ≡ read_records rounds rest (take_entry e p)
unfolding record_bytes
read_records-record rounds e rest p h ok =
    let all = record_bytes e ++ rest in
    let read : read_record (letter e) (entry_data e) p ≡ take_entry e p =
      read_record-Fits e p h.0 in
    let taken : take (said_length all) (drop 5 all) ≡ entry_data e =
      ap (take (said_length all)) (record_head e rest).1
      ∙ take-append (said_length all) (entry_data e) rest (record_length e rest h) in
    let left : drop (said_length all) (drop 5 all) ≡ rest =
      ap (drop (said_length all)) (record_head e rest).1
      ∙ drop-append (said_length all) (entry_data e) rest (record_length e rest h) in
    read_records-step rounds (letter e) _ (entry_data e) rest p (record_whole e rest h) taken left
      (ap (λ x. x.ok) read ∙ take_entry-ok e p ∙ ok)
    ∙ ap (read_records rounds rest) read

length-record_bytes : (e : Entry) → 1 ≤ length (record_bytes e)
unfolding record_bytes
length-record_bytes e = omega arith

-- The records of a journal are read in their order, each for what it says, where each is within the
-- limits of its kind (sizes at most 4096, numbers below 2^64, contents below 4 GiB), and a last
-- record that was cut short is left out.
pub read_records-journal_bytes :
    (es : List Entry) (tail : Bytes) (rounds : ℕ) (p : Progress)
    → All IsEntry es
    → is_cut tail ≡ true
    → length (journal_bytes es ++ tail) ≤ rounds
    → p.ok ≡ true
    → read_records rounds (journal_bytes es ++ tail) p ≡ take_entries es p
unfolding journal_bytes take_entries
read_records-journal_bytes [] tail rounds p all cut enough ok = read_records-cut rounds tail p cut
read_records-journal_bytes (e ∷ es) tail zero p all cut enough ok = absurd (
    omega (
      arith,
      enough,
      length-append (record_bytes e ++ journal_bytes es) tail,
      length-append (record_bytes e) (journal_bytes es),
      length-record_bytes e,
    ))
read_records-journal_bytes (e ∷ es) tail (suc rounds) p (h, all) cut enough ok =
    let rest = journal_bytes es ++ tail in
    let parts : record_bytes e ++ journal_bytes es ++ tail
        ≡ record_bytes e ++ (journal_bytes es ++ tail) =
      append_assoc (record_bytes e) (journal_bytes es) tail in
    ap (λ bytes. read_records (suc rounds) bytes p) parts
    ∙ read_records-record rounds e rest p h ok
    ∙ read_records-journal_bytes es tail rounds (take_entry e p) all cut
        (omega (
          arith,
          enough,
          ap length parts,
          length-append (record_bytes e) rest,
          length-record_bytes e,
        ))
        (take_entry-ok e p ∙ ok)
