-- ===== src/Mosh/Receiver/Received.antt =====
-- Whatever bytes the server sends as an instruction, the client's invariants stay.
use longterm.Base.{
  [], ℕ, ◌≡◌, refl, sym, inl, inr, ◌||◌, ◌&&◌, not, ◌==◌, ltb, leb, length, is_empty, arith,
  Option-cases, if_intro,
}
use mathlib.Core.Path.{subst}
use longterm.Base.Words.{Bytes}
use longterm.Base.Assoc.{find, contains}
use longterm.Mosh.Client.{Client, ReceivedState, Mirror, Output, Sender, fail}
use longterm.Mosh.Journal.{write_entry, first}
use longterm.Mosh.Link.{Env, Outside}
use longterm.Mosh.HostMessage.{Changes, read_host_message}
use longterm.Mosh.Ack.{process_acknowledgment, journal_front}
use longterm.Mosh.Ack.Known.{process_acknowledgment_lem}
use longterm.Mosh.Send.Valid.{IsValid}
use longterm.Mosh.Send.Steps.{Same, Same-IsValid, rewrite_journal-sender}
use longterm.Mosh.Instruction.{Instruction, protocol_version, read_instruction}
use longterm.Mosh.Receiver.{
  enter_state, steps_to, apply_changes, apply_message, apply_diff, throw_away_until,
  handle_instruction, receive_instruction, total_bytes, max_received_states, max_received_bytes,
}
use longterm.Mosh.Receiver.Screen.{IsReceiver, apply_diff-IsReceiver}
use longterm.Mosh.Receiver.ThrowAway.{throw_away_until-IsReceiver, IsReceiver-receiver}

enter_state-Same :
    (outside : Outside) (env : Env) (base : ReceivedState) (old_num new_num : ℕ) (diff : Bytes)
    (ch : Changes) (m : Mirror) (o : Output) (c : Client)
    → Same c.sender (enter_state outside env base old_num new_num diff ch m o c).sender
unfolding enter_state write_entry
enter_state-Same outside env base old_num new_num diff ch m o c = record {
  sent = refl;
  events = refl;
  base = refl;
  stopping = refl;
}

Same-refl : (s : Sender) → Same s s
Same-refl s = record { sent = refl; events = refl; base = refl; stopping = refl }

module _ (outside : Outside) (env : Env) (old_num new_num : ℕ) (diff : Bytes) where
  abbrev Kept : Client → Client → Type 0
  Kept c d = Same c.sender d.sender

  apply_changes-Same :
      (base : ReceivedState) (ch : Changes) (c : Client)
      → Kept c (apply_changes outside env base old_num new_num diff ch c)
  unfolding apply_changes
  apply_changes-Same base ch c =
      if_intro (Kept c) (old_num == c.latest) _ _
        (λ _. enter_state-Same outside env base old_num new_num diff ch _ _ c)
        (λ _.
          if_intro (Kept c) (is_empty (steps_to c.states old_num)) _ _ (λ _. Same-refl c.sender)
            (λ _. enter_state-Same outside env base old_num new_num diff ch _ _ c))

  apply_message-Same :
      (base : ReceivedState) (c : Client)
      → Kept c (apply_message outside env base old_num new_num diff c)
  unfolding apply_message
  apply_message-Same base c =
      let read =
        read_host_message diff (record {
          bytes = [];
          columns = base.columns;
          rows = base.rows;
          echo_ack = c.echo_ack;
        }) in
      let d = record c { receiver = record c.receiver { echo_ack = read.1.echo_ack } } in
      if_intro (Kept c) read.0.ok (apply_changes outside env base old_num new_num diff read.1 d) d
        (λ _. apply_changes-Same base read.1 d) (λ _. Same-refl c.sender)

  -- Receiving changes leaves what the sender's invariant is about.
  apply_diff-Same : (c : Client) → Kept c (apply_diff outside env old_num new_num diff c)
  unfolding apply_diff
  apply_diff-Same c =
      if_intro (Kept c) (leb new_num c.latest || contains new_num c.states) _ _
        (λ _. Same-refl c.sender)
        (λ _. elim (Option-cases (find old_num c.states)) [
          | inl e ↦ rw e (Same-refl c.sender)
          | inr (base, e) ↦ rw e (apply_message-Same base c)
        ])

throw_away_until-sender :
    (outside : Outside) (num : ℕ) (c : Client) → (throw_away_until outside num c).sender ≡ c.sender
unfolding throw_away_until
throw_away_until-sender outside num c =
    if_intro (λ (d : Client). d.sender ≡ c.sender)
      (not (contains num c.states)
        || (ltb (length c.states) max_received_states
            && ltb (total_bytes c.states) max_received_bytes))
      _ _ (λ _. refl) (λ _. rewrite_journal-sender _)

process_acknowledgment-receiver :
    (num : ℕ) (c : Client) → (process_acknowledgment num c).receiver ≡ c.receiver
unfolding process_acknowledgment journal_front write_entry
process_acknowledgment-receiver num c = ground arith

-- The invariants of both directions.
abbrev pub BothValid : Client → Type 0
BothValid c = IsValid c.sender × IsReceiver c

abbrev timed : Client → Client
timed c = record c { link = record c.link { last_roundtrip_success = (first c.sent).timestamp } }

handle_instruction-BothValid :
    (outside : Outside) (env : Env) (i : Instruction) (c : Client)
    → BothValid c
    → BothValid (handle_instruction outside env i c)
unfolding handle_instruction fail
handle_instruction-BothValid outside env i c (sender, received) =
    let b = process_acknowledgment i.ack_num c in
    let d = apply_diff outside env i.old_num i.new_num i.diff (timed b) in
    let still =
      IsReceiver-receiver c (timed b) (process_acknowledgment-receiver i.ack_num c) received in
    if_intro BothValid (not (i.version == protocol_version)) _ _
      (λ _. (sender, IsReceiver-receiver c _ refl received))
      (λ _. (
        subst IsValid (sym (throw_away_until-sender outside i.throwaway_num d)) (
            Same-IsValid (apply_diff-Same outside env i.old_num i.new_num i.diff (timed b))
              (process_acknowledgment_lem i.ack_num c sender).valid),
        throw_away_until-IsReceiver outside i.throwaway_num d
            (apply_diff-IsReceiver outside env i.old_num i.new_num i.diff (timed b) still),
      ))

-- Whatever bytes arrive as an instruction, a client with a valid sender and sound received states
-- stays such a one.
pub receive_instruction-BothValid :
    (outside : Outside) (env : Env) (bytes : Bytes) (c : Client)
    → BothValid c
    → BothValid (receive_instruction outside env bytes c)
unfolding receive_instruction
receive_instruction-BothValid outside env bytes c v = elim (Option-cases (read_instruction bytes)) [
  | inl e ↦ rw (receive_instruction, e) v
  | inr (i, e) ↦ rw (receive_instruction, e) (handle_instruction-BothValid outside env i c v)
]
