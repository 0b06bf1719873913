-- ===== src/Mosh/Tick.antt =====
-- src/moshclient.cpp: `tick` and `shutdown`.
pub mod Invariant
use longterm.Base.{
  ℕ, ◌+◌, ◌-◌, ◌^◌, Bool, true, false, ◌&&◌, ◌||◌, not, List, [], ◌∷◌, ltb, leb, ◌==◌,
  if◌then◌else◌,
}
use longterm.Mosh.Client.{SentState, Sender, Client, max_u64, shutdown_num, sub64}
use longterm.Mosh.Journal.{first}
use longterm.Mosh.Link.{Env, Outside}
use longterm.Mosh.Sender.{
  set_sender, active_retry_timeout, shutdown_retries, state_at, event_end, user_diff,
}
use longterm.Mosh.Send.{calculate_timers, send_empty_ack, send_to_receiver}

tick_ack : Outside → Env → Client → Client
tick_ack outside env c =
    let acked = send_empty_ack outside env c in
    if leb c.next_ack_time env.now
    then set_sender (record acked.sender { mindelay_clock = max_u64 }) acked
    else c

-- Nothing new for the server: an acknowledgment if it is time for one.
tick_idle : Outside → Env → Client → Client
tick_idle outside env c =
    let b = tick_ack outside env c in
    if leb b.next_send_time env.now
    then set_sender (record b.sender { next_send_time = max_u64; mindelay_clock = max_u64 }) b
    else b

tick_data : Outside → Env → Client → Client
tick_data outside env c =
    let d =
      send_to_receiver outside env (user_diff (state_at c.sent c.assumed).events c.sender) c in
    set_sender (record d.sender { mindelay_clock = max_u64 }) d

tick_send : Outside → Env → Client → Client
tick_send outside env c =
    if leb c.next_ack_time env.now || leb c.next_send_time env.now
    then (if event_end c.sender == (state_at c.sent c.assumed).events
        then tick_idle outside env c
        else tick_data outside env c)
    else c

-- The shutdown was acknowledged, tried often enough, or got no answer for long enough.
gives_up : Env → Client → Bool
gives_up env c =
    c.shutdown_in_progress
    && (((first c.sent).num == shutdown_num)
        || (leb shutdown_retries c.shutdown_tries
            || leb active_retry_timeout (sub64 env.now c.shutdown_start)))

tick_end : Env → Client → Client
unfolding gives_up
tick_end env c =
    if gives_up env c || (c.last_ack_sent == shutdown_num) then record c { finished = true } else c

pub tick : Outside → Env → Client → Client
tick outside env c =
    if c.finished then c else tick_end env (tick_send outside env (calculate_timers env c))

pub shutdown : Env → Client → Client
shutdown env c =
    if c.shutdown_in_progress || c.finished
    then c
    else set_sender (record c.sender { shutdown_in_progress = true; shutdown_start = env.now }) c
