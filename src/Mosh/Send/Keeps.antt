-- ===== src/Mosh/Send/Keeps.antt =====
-- What the sender sends keeps its invariant.
use longterm.Base.{
  ◌++◌, ℕ, ◌+◌, ◌≤◌, ◌<◌, ◌≡◌, ◌≢◌, refl, true, false, List, [], ◌∷◌, arith, ◌==◌, length,
  length-append, if_intro, ◌||◌,
}
use longterm.Base.Words.{Bytes}
use longterm.Mosh.Client.{UserEvent, Sender, Client, shutdown_num, max_of, add64}
use longterm.Mosh.Journal.{last, write_entry, journal_event}
use longterm.Mosh.Link.{Env, Outside}
use longterm.Mosh.Sender.{add_keys, event_end, resize, of_keys, of_size}
use longterm.Mosh.Send.{
  touch_last, fresh_num, empty_ack_num, receiver_num, with_state, send_empty_ack, send_to_receiver,
  calculate_timers,
}
use longterm.Mosh.Send.Valid.{
  IsValid, length-add_keys, forget_events-IsValid, update_assumed-IsValid, touch_last-SameStates,
}
use longterm.Mosh.Send.Steps.{Same-IsValid, Follows, add_sent_state-IsValid, send_instruction-Same}

-- Unless the session is being shut down, there is a number above the last one and the floor of a
-- resumed session, below the last number of all.
pub record HasRoom (c : Client) : Type 0 where
  pub above_last : c.shutdown_in_progress ≡ false → (last c.sent).num + 1 < shutdown_num
  pub above_floor : c.shutdown_in_progress ≡ false → c.state_floor < shutdown_num

stopping-Follows :
    (s : Sender) → IsValid s → s.shutdown_in_progress ≡ true → Follows s shutdown_num (event_end s)
stopping-Follows s v e = record {
  num_le = v.top;
  distinct = λ _. refl;
  events_le = v.within;
  within = omega arith;
  top = omega arith;
  running = λ f. cc;
}

fresh-Follows :
    (c : Client)
    → IsValid c.sender
    → HasRoom c
    → c.shutdown_in_progress ≡ false
    → Follows c.sender (fresh_num c) (event_end c.sender)
unfolding fresh_num
fresh-Follows c v room e =
    let a = room.above_last e in
    let b = room.above_floor e in
    let w : add64 (last c.sent).num 1 ≡ (last c.sent).num + 1 = omega arith in
    record {
      num_le = rw w (ground arith);
      distinct = λ f. absurd (above (rw w at f));
      events_le = v.within;
      within = omega arith;
      top = rw w (ground (arith, a, b));
      running = λ _. rw w (ground (arith, a, b));
    }
  where
    above : (last c.sent).num ≢ max_of ((last c.sent).num + 1) c.state_floor
    above = ground arith

empty_ack-Follows :
    (c : Client)
    → IsValid c.sender
    → HasRoom c
    → Follows c.sender (empty_ack_num c) (event_end c.sender)
unfolding empty_ack_num
empty_ack-Follows c v room =
    if_intro (λ n. Follows c.sender n (event_end c.sender)) c.shutdown_in_progress _ _
      (stopping-Follows c.sender v) (fresh-Follows c v room)

retimed-IsValid :
    (s : Sender) (ack send : ℕ)
    → IsValid s
    → IsValid (record s { next_ack_time = ack; next_send_time = send })
retimed-IsValid s ack send v =
    Same-IsValid (record { sent = refl; events = refl; base = refl; stopping = refl }) v

pub send_empty_ack-IsValid :
    (outside : Outside) (env : Env) (c : Client)
    → IsValid c.sender
    → HasRoom c
    → IsValid (send_empty_ack outside env c).sender
unfolding send_empty_ack
send_empty_ack-IsValid outside env c v room = retimed-IsValid _ _ _ (
    Same-IsValid (send_instruction-Same outside env [] (empty_ack_num c) _) (
      add_sent_state-IsValid env.now (empty_ack_num c) (event_end c.sender) c v
        (empty_ack-Follows c v room)))

receiver-Follows :
    (c : Client)
    → IsValid c.sender
    → HasRoom c
    → (receiver_num c == (last c.sent).num) ≡ false
    → Follows c.sender (receiver_num c) (event_end c.sender)
unfolding receiver_num
receiver-Follows c v room other =
    if_intro (λ n. Follows c.sender n (event_end c.sender)) c.shutdown_in_progress _ _
      (stopping-Follows c.sender v)
      (λ e.
        if_intro (λ n. Follows c.sender n (event_end c.sender))
          (event_end c.sender == (last c.sent).events) _ _ (λ f. absurd (same e f))
          (λ _. fresh-Follows c v room e))
  where
    same : c.shutdown_in_progress ≡ false → (event_end c.sender == (last c.sent).events) ≡ true → ⊥
    same e f = ground (arith, other)

touched-IsValid :
    (s : Sender) (time : ℕ) → IsValid s → IsValid (record s { sent = touch_last time s.sent })
touched-IsValid s time v =
    let t = touch_last-SameStates time s.sent in
    record {
      chain = t.chain v.chain;
      few = rw t.size v.few;
      based = rw t.first_events v.based;
      within = rw t.last_events v.within;
      top = rw t.last_num v.top;
      running = λ e. rw t.last_num (v.running e);
    }

with_state-IsValid :
    (env : Env) (c : Client) → IsValid c.sender → HasRoom c → IsValid (with_state env c).sender
unfolding with_state
with_state-IsValid env c v room =
    if_intro (λ (d : Client). IsValid d.sender) (receiver_num c == (last c.sent).num) _ _
      (λ _. touched-IsValid c.sender env.now v)
      (λ e.
        add_sent_state-IsValid env.now (receiver_num c) (event_end c.sender) c v
          (receiver-Follows c v room e))

pub send_to_receiver-IsValid :
    (outside : Outside) (env : Env) (diff : Bytes) (c : Client)
    → IsValid c.sender
    → HasRoom c
    → IsValid (send_to_receiver outside env diff c).sender
unfolding send_to_receiver
send_to_receiver-IsValid outside env diff c v room =
    Same-IsValid (record { sent = refl; events = refl; base = refl; stopping = refl })
      (Same-IsValid (send_instruction-Same outside env diff (receiver_num c) _)
        (with_state-IsValid env c v room))

pub calculate_timers-IsValid :
    (env : Env) (c : Client) → IsValid c.sender → IsValid (calculate_timers env c).sender
unfolding calculate_timers
calculate_timers-IsValid env c v =
    Same-IsValid (record { sent = refl; events = refl; base = refl; stopping = refl })
      (forget_events-IsValid _ (update_assumed-IsValid env c.sender v))

-- As many events as before, or more.
longer-IsValid :
    (s : Sender) (events : List UserEvent) (bytes : ℕ)
    → length s.events ≤ length events
    → IsValid s
    → IsValid (record s { events = events; bytes_written = bytes })
longer-IsValid s events bytes h v = record {
  chain = v.chain;
  few = v.few;
  based = v.based;
  within = omega (arith, v.within);
  top = v.top;
  running = v.running;
}

-- The two ways in which `write` changes the events.
pub write_grown :
    (keys : Bytes) (s : Sender)
    → IsValid s
    → IsValid (record s {
      events = add_keys keys s.events;
      bytes_written = s.bytes_written + length keys;
    })
write_grown keys s v = longer-IsValid s _ _ (omega (arith, length-add_keys keys s.events)) v

pub write_longer :
    (keys : Bytes) (s : Sender)
    → IsValid s
    → IsValid (record s {
      events = s.events ++ of_keys keys ∷ [];
      bytes_written = s.bytes_written + length keys;
    })
write_longer keys s v =
    longer-IsValid s _ _ (omega (arith, length-append s.events (of_keys keys ∷ []))) v

pub resize-IsValid :
    (columns rows : ℕ) (c : Client) → IsValid c.sender → IsValid (resize columns rows c).sender
unfolding resize journal_event write_entry
resize-IsValid columns rows c v =
    if_intro (λ (d : Client). IsValid d.sender)
      (c.shutdown_in_progress || ((columns == 0) || (rows == 0))) _ _ (λ _. v)
      (λ _.
        longer-IsValid c.sender _ c.bytes_written
          (omega (arith, length-append c.events (of_size columns rows ∷ []))) v)
