-- ===== src/Mosh/Send/Valid.antt =====
-- The sender's invariant, and the steps inside `Sender` that keep it.
use longterm.Base.{ℕ, suc, ◌+◌, ◌≤◌, ◌<◌, ◌≡◌, refl, ap, false, List, [], ◌∷◌, arith, length}
use longterm.Base.Words.{Bytes}
use longterm.Mosh.Client.{UserEvent, SentState, Sender, shutdown_num}
use longterm.Mosh.Journal.{first, last}
use longterm.Mosh.Link.{Env}
use longterm.Mosh.Sender.{
  max_sent_states, event_end, add_keys, pop_events, forget_events, update_assumed, assumed_loop,
}
use longterm.Mosh.Send.{touch_last}
use longterm.Mosh.Send.States.{Before, Chain, IsChain}

-- The states are in order, their events lie between the first event kept and the end, and a
-- session that is not being shut down has not sent the last number of all.
pub record IsValid (s : Sender) : Type 0 where
  pub chain : IsChain s.sent
  pub few : length s.sent ≤ max_sent_states
  pub based : s.event_base ≤ (first s.sent).events
  pub within : (last s.sent).events ≤ event_end s
  pub top : (last s.sent).num ≤ shutdown_num
  pub running : s.shutdown_in_progress ≡ false → (last s.sent).num < shutdown_num

pub length-add_keys : (keys : Bytes) (es : List UserEvent) → length (add_keys keys es) ≡ length es
unfolding add_keys
length-add_keys keys [] = refl
length-add_keys keys (e ∷ []) = refl
length-add_keys keys (e ∷ (f ∷ es)) = ap suc (length-add_keys keys (f ∷ es))

pub pop_events_end :
    (limit base : ℕ) (es : List UserEvent)
    → (pop_events limit base es).0 + length (pop_events limit base es).1 ≡ base + length es
unfolding pop_events
pop_events_end limit base [] = refl
pop_events_end limit base (e ∷ es) = ground (arith, pop_events_end limit (base + 1) es)

pop_events-le :
    (limit base : ℕ) (es : List UserEvent) → base ≤ limit → (pop_events limit base es).0 ≤ limit
unfolding pop_events
pop_events-le limit base [] h = h
pop_events-le limit base (e ∷ es) h = ground (arith, pop_events-le limit (base + 1) es)

pub forget_events-IsValid : (s : Sender) → IsValid s → IsValid (forget_events s)
unfolding forget_events
forget_events-IsValid s v = record {
  chain = v.chain;
  few = v.few;
  based = pop_events-le (first s.sent).events s.event_base s.events v.based;
  within = omega (arith, v.within, pop_events_end (first s.sent).events s.event_base s.events);
  top = v.top;
  running = v.running;
}

pub update_assumed-IsValid : (env : Env) (s : Sender) → IsValid s → IsValid (update_assumed env s)
unfolding update_assumed
update_assumed-IsValid env s v = record {
  chain = v.chain;
  few = v.few;
  based = v.based;
  within = v.within;
  top = v.top;
  running = v.running;
}

pub assumed_loop-lt :
    (env : Env) (assumed i : ℕ) (ss : List SentState)
    → assumed < i
    → assumed_loop env assumed i ss < i + length ss
unfolding assumed_loop
assumed_loop-lt env assumed i [] h = omega arith
assumed_loop-lt env assumed i (s ∷ ss) h = ground (arith, assumed_loop-lt env i (i + 1) ss)

touch-Chain :
    (time : ℕ) (p s : SentState) (ss : List SentState)
    → Before p s
    → Chain s ss
    → IsChain (p ∷ touch_last time (s ∷ ss))
unfolding touch_last
touch-Chain time p s [] b c = (record { num = b.num; distinct = b.distinct; events = b.events }, tt)
touch-Chain time p s (t ∷ ss) b c = (b, touch-Chain time s t ss c.0 c.1)

-- A list that differs in the last time only.
pub record SameStates (old new : List SentState) : Type 0 where
  pub chain : IsChain old → IsChain new
  pub first_num : (first new).num ≡ (first old).num
  pub first_events : (first new).events ≡ (first old).events
  pub last_num : (last new).num ≡ (last old).num
  pub last_events : (last new).events ≡ (last old).events
  pub size : length new ≡ length old

touch_last-from :
    (time : ℕ) (s : SentState) (ss : List SentState)
    → ((last (touch_last time (s ∷ ss))).num ≡ (last (s ∷ ss)).num)
      × ((last (touch_last time (s ∷ ss))).events ≡ (last (s ∷ ss)).events)
      × (length (touch_last time (s ∷ ss)) ≡ length (s ∷ ss))
unfolding touch_last
touch_last-from time s [] = (refl, refl, refl)
touch_last-from time s (t ∷ []) = (refl, refl, refl)
touch_last-from time s (t ∷ (u ∷ ss)) =
    let h = touch_last-from time t (u ∷ ss) in (h.0, h.1, ap suc h.2)

pub touch_last-SameStates : (time : ℕ) (ss : List SentState) → SameStates ss (touch_last time ss)
unfolding touch_last
touch_last-SameStates time [] = record {
  chain = λ c. c;
  first_num = refl;
  first_events = refl;
  last_num = refl;
  last_events = refl;
  size = refl;
}
touch_last-SameStates time (s ∷ []) = record {
  chain = λ c. tt;
  first_num = refl;
  first_events = refl;
  last_num = refl;
  last_events = refl;
  size = refl;
}
touch_last-SameStates time (s ∷ (t ∷ ss)) =
    let h = touch_last-from time s (t ∷ ss) in
    record {
      chain = λ c. touch-Chain time s t ss c.0 c.1;
      first_num = refl;
      first_events = refl;
      last_num = h.0;
      last_events = h.1;
      size = h.2;
    }
