-- ===== src/Mosh/Tick/Invariant.antt =====
-- `tick` keeps the sender's invariant, whichever of its branches it takes.
use longterm.Base.{ℕ, refl, ◌||◌, leb, ◌==◌, if_intro}
use longterm.Mosh.Client.{Sender, Client, shutdown_num}
use longterm.Mosh.Link.{Env, Outside}
use longterm.Mosh.Sender.{event_end, state_at, forget_events, update_assumed}
use longterm.Mosh.Send.{calculate_timers}
use longterm.Mosh.Send.Valid.{IsValid}
use longterm.Mosh.Send.Steps.{Same-IsValid}
use longterm.Mosh.Send.Keeps.{
  HasRoom, send_empty_ack-IsValid, send_to_receiver-IsValid, calculate_timers-IsValid,
}
use longterm.Mosh.Tick.{
  tick_ack, tick_idle, tick_data, tick_send, gives_up, tick_end, tick, shutdown,
}

abbrev Valid : Client → Type 0
Valid c = IsValid c.sender

timed-IsValid :
    (s : Sender) (send clock : ℕ)
    → IsValid s
    → IsValid (record s { next_send_time = send; mindelay_clock = clock })
timed-IsValid s send clock v =
    Same-IsValid (record { sent = refl; events = refl; base = refl; stopping = refl }) v

tick_ack-IsValid :
    (outside : Outside) (env : Env) (c : Client)
    → Valid c
    → HasRoom c
    → Valid (tick_ack outside env c)
unfolding tick_ack
tick_ack-IsValid outside env c v room =
    if_intro Valid (leb c.next_ack_time env.now) _ _
      (λ _. timed-IsValid _ _ _ (send_empty_ack-IsValid outside env c v room)) (λ _. v)

tick_idle-IsValid :
    (outside : Outside) (env : Env) (c : Client)
    → Valid c
    → HasRoom c
    → Valid (tick_idle outside env c)
unfolding tick_idle
tick_idle-IsValid outside env c v room =
    let kept = tick_ack-IsValid outside env c v room in
    if_intro Valid (leb (tick_ack outside env c).next_send_time env.now) _ _
      (λ _. timed-IsValid _ _ _ kept) (λ _. kept)

tick_data-IsValid :
    (outside : Outside) (env : Env) (c : Client)
    → Valid c
    → HasRoom c
    → Valid (tick_data outside env c)
unfolding tick_data
tick_data-IsValid outside env c v room =
    Same-IsValid (record { sent = refl; events = refl; base = refl; stopping = refl })
      (send_to_receiver-IsValid outside env _ c v room)

tick_send-IsValid :
    (outside : Outside) (env : Env) (c : Client)
    → Valid c
    → HasRoom c
    → Valid (tick_send outside env c)
unfolding tick_send
tick_send-IsValid outside env c v room =
    if_intro Valid (leb c.next_ack_time env.now || leb c.next_send_time env.now) _ _
      (λ _.
        if_intro Valid (event_end c.sender == (state_at c.sent c.assumed).events) _ _
          (λ _. tick_idle-IsValid outside env c v room)
          (λ _. tick_data-IsValid outside env c v room))
      (λ _. v)

tick_end-IsValid : (env : Env) (c : Client) → Valid c → Valid (tick_end env c)
unfolding tick_end
tick_end-IsValid env c v =
    if_intro Valid (gives_up env c || (c.last_ack_sent == shutdown_num)) _ _ (λ _. v) (λ _. v)

calculate_timers-HasRoom : (env : Env) (c : Client) → HasRoom c → HasRoom (calculate_timers env c)
unfolding calculate_timers forget_events update_assumed
calculate_timers-HasRoom env c room = record {
  above_last = room.above_last;
  above_floor = room.above_floor;
}

-- A tick keeps the sender's states in order, at most 32 and never none, with their events between
-- the first one kept and the end, where a number is left for a new state.
pub tick-IsValid :
    (outside : Outside) (env : Env) (c : Client)
    → IsValid c.sender
    → HasRoom c
    → IsValid (tick outside env c).sender
unfolding tick
tick-IsValid outside env c v room =
    if_intro Valid c.finished _ _ (λ _. v)
      (λ _. tick_end-IsValid env _ (
        tick_send-IsValid outside env (calculate_timers env c) (calculate_timers-IsValid env c v)
          (calculate_timers-HasRoom env c room)))

pub shutdown-IsValid : (env : Env) (c : Client) → Valid c → Valid (shutdown env c)
unfolding shutdown
shutdown-IsValid env c v =
    if_intro Valid (c.shutdown_in_progress || c.finished) _ _ (λ _. v)
      (λ _. record {
        chain = v.chain;
        few = v.few;
        based = v.based;
        within = v.within;
        top = v.top;
        running = λ e. cc;
      })
