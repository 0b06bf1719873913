-- ===== src/Mosh/Send.antt =====
-- src/moshclient.cpp: the timers and what `tick` sends, as mosh's TransportSender.
pub mod States
pub mod Valid
pub mod Steps
pub mod Keeps
pub mod Named
use longterm.Base.{
  ℕ, suc, ◌+◌, ◌-◌, ◌%◌, ◌^◌, Bool, true, false, ◌&&◌, ◌||◌, not, Option, none, some, List, [], ◌∷◌,
  ◌++◌, ltb, leb, ◌==◌, if◌then◌else◌, length, drop, take, is_empty,
}
use longterm.Base.Words.{Bytes}
use longterm.Base.Assoc.{insert}
use longterm.Mosh.Fragment.{send_fragments}
use longterm.Mosh.Instruction.{Instruction, write_instruction, protocol_version}
use longterm.Mosh.Client.{
  UserEvent, SentState, sent_state, front, Sender, Client, max_u64, shutdown_num, add64, sub64,
  max_of,
}
use longterm.Mosh.Journal.{has_journal, write_entry, rewrite_journal, first, last}
use longterm.Mosh.Link.{Env, Outside, send_packets}
use longterm.Mosh.Sender.{
  set_sender, ack_interval, ack_delay, send_mindelay, active_retry_timeout, shutdown_retries,
  max_sent_states, state_at, event_end, user_diff, update_assumed, forget_events,
}

-- The next time to send, and the minimum delay's clock.
send_times : Env → Sender → ℕ × ℕ
send_times env s =
    let active = ltb env.now (add64 s.last_heard active_retry_timeout) in
    let paced = add64 (last s.sent).timestamp env.send_interval in
    let clock = if s.mindelay_clock == max_u64 then env.now else s.mindelay_clock in
    if not (event_end s == (last s.sent).events)
    then (max_of (add64 clock send_mindelay) paced, clock)
    else if not (event_end s == (state_at s.sent s.assumed).events) && active
    then (if s.mindelay_clock == max_u64
        then (paced, s.mindelay_clock)
        else (max_of paced (add64 s.mindelay_clock send_mindelay), s.mindelay_clock))
    else if not (event_end s == (first s.sent).events) && active
    then (add64 (add64 (last s.sent).timestamp env.timeout) ack_delay, s.mindelay_clock)
    else (max_u64, s.mindelay_clock)

ack_time : Env → ℕ → Sender → ℕ
ack_time env ack_num s =
    let soon = add64 env.now ack_delay in
    if s.shutdown_in_progress || (ack_num == shutdown_num)
    then add64 (last s.sent).timestamp env.send_interval
    else if s.pending_data_ack && ltb soon s.next_ack_time
    then soon
    else s.next_ack_time

unfoldable pub calculate_timers : Env → Client → Client
unfolding send_times ack_time
calculate_timers env c =
    let s = forget_events (update_assumed env c.sender) in
    let (send, clock) = send_times env s in
    set_sender
      (record s {
        next_ack_time = ack_time env c.ack_num s;
        next_send_time = send;
        mindelay_clock = clock;
      })
      c

abbrev pub int_max : ℕ
int_max = 2147483647

-- `none` stands for a session that is over: wait for ever.
wait_time : Env → Client → ℕ × Client
wait_time env c =
    let b = calculate_timers env c in
    let next = if ltb b.next_send_time b.next_ack_time then b.next_send_time else b.next_ack_time in
    let wait = next - env.now in
    if c.finished
    then (int_max, c)
    else if ltb env.now next
    then (if ltb int_max wait then (int_max, b) else (wait, b))
    else (0, b)

-- At most 512 entries are kept, the newest numbers.
abbrev pub trim : List (ℕ × ℕ) → List (ℕ × ℕ)
trim m = drop (length m - 512) m

-- Past 32 states the one 16 from the end goes.
pub remember : SentState → List SentState → List SentState
remember s sent =
    let all = sent ++ s ∷ [] in
    let at = length all - 16 in
    if ltb max_sent_states (length all) then take at all ++ drop (suc at) all else all

pub reserve_state : ℕ → Client → Client
reserve_state num c =
    if has_journal c && (not (num == shutdown_num) && leb c.state_reserved num)
    then rewrite_journal c
    else c

pub add_sent_state : ℕ → ℕ → ℕ → Client → Client
add_sent_state timestamp num events c =
    let b = write_entry (sent_state num events) (reserve_state num c) in
    let s : SentState = record { num = num; events = events; timestamp = timestamp } in
    set_sender
      (record b.sender {
        sent_bytes = trim (insert num b.bytes_written b.sent_bytes);
        sent = remember s b.sent;
      })
      b

-- What the packets of an instruction say.
pub instruction_of : Client → Bytes → ℕ → Instruction
instruction_of c diff new_num = record {
  version = protocol_version;
  old_num = (state_at c.sent c.assumed).num;
  new_num = new_num;
  ack_num = c.ack_num;
  throwaway_num = (first c.sent).num;
  diff = diff;
}

-- The client as the first of the packets is sent.
ready_to_send : ℕ → Client → Client
ready_to_send new_num c =
    let tries = if new_num == shutdown_num then c.shutdown_tries + 1 else c.shutdown_tries in
    record c {
      link = record c.link { fragment_id = add64 c.fragment_id 1 };
      sender = record c.sender { shutdown_tries = tries };
    }

pub send_instruction : Outside → Env → Bytes → ℕ → Client → Client
unfolding ready_to_send
send_instruction outside env diff new_num c =
    let payload = outside.compress (write_instruction (instruction_of c diff new_num) env.chaff) in
    let d =
      send_packets outside env (send_fragments c.fragment_id payload) (ready_to_send new_num c) in
    set_sender (record d.sender { last_ack_sent = d.ack_num; pending_data_ack = false }) d

-- `qMax(m_sent.last().num + 1, m_stateFloor)`
unfoldable pub fresh_num : Client → ℕ
fresh_num c = max_of (add64 (last c.sent).num 1) c.state_floor

abbrev pub sent_at : Env → Client → Client
sent_at env c =
    set_sender
      (record c.sender { next_ack_time = add64 env.now ack_interval; next_send_time = max_u64 }) c

empty_ack_num : Client → ℕ
empty_ack_num c = if c.shutdown_in_progress then shutdown_num else fresh_num c

pub send_empty_ack : Outside → Env → Client → Client
send_empty_ack outside env c =
    let num = empty_ack_num c in
    sent_at env
      (send_instruction outside env [] num (add_sent_state env.now num (event_end c.sender) c))

-- Only the last state's time changes.
pub touch_last : ℕ → List SentState → List SentState
touch_last time [] = []
touch_last time (s ∷ []) = record s { timestamp = time } ∷ []
touch_last time (s ∷ (t ∷ ss)) = s ∷ touch_last time (t ∷ ss)

unfoldable pub receiver_num : Client → ℕ
receiver_num c =
    if c.shutdown_in_progress
    then shutdown_num
    else if event_end c.sender == (last c.sent).events
    then (last c.sent).num
    else fresh_num c

-- The state that the diff makes is there before the instruction that makes it is sent.
pub with_state : Env → Client → Client
with_state env c =
    if receiver_num c == (last c.sent).num
    then set_sender (record c.sender { sent = touch_last env.now c.sent }) c
    else add_sent_state env.now (receiver_num c) (event_end c.sender) c

pub send_to_receiver : Outside → Env → Bytes → Client → Client
send_to_receiver outside env diff c =
    let d = send_instruction outside env diff (receiver_num c) (with_state env c) in
    sent_at env (set_sender (record d.sender { assumed = length d.sent - 1 }) d)
