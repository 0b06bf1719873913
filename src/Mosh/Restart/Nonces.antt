-- ===== src/Mosh/Restart/Nonces.antt =====
-- A client that goes on from a journal uses no nonce that was used before.
use mathlib.Core.Bool.{false≢true}
use longterm.Base.{
  Option-cases, ℕ, suc, ◌≤◌, ◌≡◌, refl, ap, ◌∙◌, Bool, true, false, ◌||◌, not, Option, some, List,
  [], ◌∷◌, ◌++◌, arith, All, length, is_empty, Bool-cases, inl, inr, ltb,
}
use longterm.Base.Words.{Bytes}
use longterm.Mosh.Client.{
  Client, Entry, address, note, seq_reserve, state_reserve, front, screen_state, latest_state, base,
  event, sent_state, fail,
}
use longterm.Mosh.Journal.{rewrite_journal, journal_event, write_entry}
use longterm.Mosh.Link.{Env, Outside, new_socket, add_socket}
use longterm.Mosh.Link.Nonce.{Rising, reserved_in, FreshNonces}
use longterm.Mosh.Sender.{resize}
use longterm.Mosh.Receiver.{steps_to}
use longterm.Mosh.Restart.Write.{journal_bytes}
use longterm.Mosh.Restart.Read.{max_journal, Progress, put_event, put_sent, is_cut, read_journal}
use longterm.Mosh.Restart.Entries.{IsEntry, take_entry, take_entries}
use longterm.Mosh.Restart.Cut.{read_records-journal_bytes}
use longterm.Mosh.Restart.Resume.{Launch, resume, resumed, set_journal, go_online}

Rising-to : (lo : ℕ) (ps : List (ℕ × Bytes)) (m n : ℕ) → m ≤ n → Rising lo ps m → Rising lo ps n
Rising-to lo [] m n le h = omega (arith, le, h)
Rising-to lo ((k, p) ∷ ps) m n le h = (h.0, Rising-to (suc k) ps m n le h.1)

-- What the entries say is the reservation that the reader ends with.
take_entry-reserved :
    (e : Entry) (p : Progress)
    → (take_entry e p).client.seq_reserved ≡ reserved_in p.client.seq_reserved (e ∷ [])
unfolding take_entry put_event put_sent
take_entry-reserved (address a) p = refl
take_entry-reserved (note t) p = refl
take_entry-reserved (seq_reserve n) p = refl
take_entry-reserved (state_reserve n) p = refl
take_entry-reserved (front n) p = refl
take_entry-reserved (screen_state s) p = refl
take_entry-reserved (latest_state n) p = refl
take_entry-reserved (base n) p = refl
take_entry-reserved (event i e) p = ground arith
take_entry-reserved (sent_state n k) p = ground arith

reserved_in-cons :
    (n : ℕ) (e : Entry) (es : List Entry)
    → reserved_in (reserved_in n (e ∷ [])) es ≡ reserved_in n (e ∷ es)
reserved_in-cons n (address a) es = refl
reserved_in-cons n (note t) es = refl
reserved_in-cons n (seq_reserve k) es = refl
reserved_in-cons n (state_reserve k) es = refl
reserved_in-cons n (front k) es = refl
reserved_in-cons n (screen_state s) es = refl
reserved_in-cons n (latest_state k) es = refl
reserved_in-cons n (base k) es = refl
reserved_in-cons n (event i e) es = refl
reserved_in-cons n (sent_state k l) es = refl

take_entries-reserved :
    (es : List Entry) (p : Progress)
    → (take_entries es p).client.seq_reserved ≡ reserved_in p.client.seq_reserved es
unfolding take_entries
take_entries-reserved [] p = refl
take_entries-reserved (e ∷ es) p =
    take_entries-reserved es (take_entry e p)
    ∙ ap (λ n. reserved_in n es) (take_entry-reserved e p)
    ∙ reserved_in-cons p.client.seq_reserved e es

read_journal-reserved :
    (es : List Entry) (tail : Bytes) (m : Client)
    → All IsEntry es
    → is_cut tail ≡ true
    → (read_journal (some (journal_bytes es ++ tail)) m).0 ≡ true
    → (read_journal (some (journal_bytes es ++ tail)) m).1.seq_reserved
      ≡ reserved_in m.seq_reserved es
unfolding read_journal
read_journal-reserved es tail m all cut ok =
    let bytes = journal_bytes es ++ tail in
    let cleared = record m { receiver = record m.receiver { states = [] } } in
    let start : Progress = record { ok = true; have_address = false; client = cleared } in
    elim (Bool-cases (ltb max_journal (length bytes))) [
      | inl e ↦ absurd (false≢true (rw e at ok))
      | inr e ↦ rw e (
          ap (λ p. p.client.seq_reserved)
            (read_records-journal_bytes es tail (length bytes) start all cut (omega arith) refl)
          ∙ take_entries-reserved es start)
    ]

set_journal-next_seq : (opens : Bool) (c : Client) → (set_journal opens c).1.next_seq ≡ c.next_seq
unfolding set_journal rewrite_journal
set_journal-next_seq true c = refl
set_journal-next_seq false c = refl

go_online-next_seq :
    (env : Env) (l : Launch) (c : Client) → (go_online env l c).1.next_seq ≡ c.next_seq
unfolding go_online new_socket add_socket fail resize journal_event write_entry
go_online-next_seq env l c = elim (Option-cases env.new_fd) [
  | inl e ↦ rw e refl
  | inr (fd, e) ↦ rw e (ground arith)
]

-- Where it succeeds, the next nonce is the reservation that was read.
resume-next_seq :
    (outside : Outside) (env : Env) (l : Launch) (file : Option Bytes) (m : Client)
    → (resume outside env l file m).0 ≡ true
    → ((read_journal file m).0 ≡ true)
      × ((resume outside env l file m).1.next_seq ≡ (read_journal file m).1.seq_reserved)
unfolding resume
resume-next_seq outside env l file m ok =
    let read = (read_journal file m).1 in
    let fails = not (read_journal file m).0 || is_empty (steps_to read.states read.latest) in
    let ready = resumed outside env read in
    elim (Bool-cases fails) [
      | inl e ↦ absurd (false≢true (rw e at ok))
      | inr e ↦ elim (Option-cases l.key_failure) [
        | inr (f, k) ↦ absurd (false≢true (rw (e, k) at ok))
        | inl k ↦ elim (Bool-cases (set_journal l.opens ready).0) [
          | inr o ↦ absurd (false≢true (rw (e, k, o) at ok))
          | inl o ↦ (
            ground (arith, e),
            rw (e, k, o)
                (go_online-next_seq env l (set_journal l.opens ready).1
                  ∙ set_journal-next_seq l.opens ready
                  ∙ unfold resumed in refl),
          )
        ]
      ]
    ]

-- where a new client resumes with success from the journal that another one left, whose records
-- are within their limits and whose last one may have been cut short, it starts above every nonce
-- that the other one used
pub resume-Rising :
    (outside : Outside) (env : Env) (l : Launch) (c m : Client) (es : List Entry) (tail : Bytes)
    → FreshNonces c
    → c.file ≡ some es
    → All IsEntry es
    → is_cut tail ≡ true
    → m.seq_reserved ≡ 0
    → (resume outside env l (some (journal_bytes es ++ tail)) m).0 ≡ true
    → Rising 0 c.outbox (resume outside env l (some (journal_bytes es ++ tail)) m).1.next_seq
resume-Rising outside env l c m es tail fresh file all cut zero ok =
    let (was_read, next) = resume-next_seq outside env l (some (journal_bytes es ++ tail)) m ok in
    let (enough, same) = fresh.reserved es file in
    let reached =
      next
      ∙ read_journal-reserved es tail m all cut was_read
      ∙ ap (λ n. reserved_in n es) zero
      ∙ same in
    Rising-to 0 c.outbox c.next_seq _ (omega (arith, enough, reached)) fresh.rising
