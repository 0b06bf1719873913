-- ===== src/Tests/Sending.antt =====
-- A client at work. The outside is replaced by functions that keep their input or drop it.
use longterm.Mosh.Sender.Typed.{write-IsTyped, IsTyped}
use longterm.Base.{
  ◌⊎◌, ◌≤◌, ℕ, zero, suc, ◌+◌, ◌≡◌, refl, List, [], ◌∷◌, ◌++◌, true, false, none, some, arith,
  length, map, drop,
}
use longterm.Mosh.Fragment.{no_assembly}
use longterm.Mosh.Client.{UserEvent, SentState, Sender, Client, max_u64}
use longterm.Mosh.Link.{Env, Outside}
use longterm.Mosh.Sender.{of_keys, of_size, user_diff, forget_events, write}
use longterm.Mosh.Sender.History.{history, forget_events-history}
use longterm.Mosh.Sender.Diff.{read_events, read_events-user_diff}
use longterm.Base.{inr}
use longterm.Mosh.Send.{fresh_num, receiver_num, with_state, instruction_of}
use longterm.Mosh.Send.Valid.{IsValid}
use longterm.Mosh.Send.Keeps.{HasRoom}
use longterm.Mosh.Send.Named.{instruction_of-with_state_full}
use longterm.Mosh.Tick.{tick}
use longterm.Mosh.Tick.Invariant.{tick-IsValid}
use longterm.Mosh.Ack.{process_acknowledgment}
use longterm.Mosh.Ack.Known.{AcknowledgedTo, process_acknowledgment_lem}

abbrev pub outside : Outside
outside = record {
  compress = λ bytes. bytes;
  uncompress = λ bytes. some bytes;
  encrypt = λ nonce bytes. bytes;
  decrypt = λ bytes. none;
  describe = λ steps. [];
  lines_scrolled = λ mirror. 0;
}

abbrev pub env : Env
env = record { now = 100500; timeout = 100; send_interval = 20; chaff = []; new_fd = none }

abbrev pub state : ℕ → ℕ → SentState
state num events = record { num = num; events = events; timestamp = 100400 }

-- Two events were sent and one more was typed; the server has the first.
abbrev pub sender : Sender
sender = record {
  events = of_size 80 24 ∷ of_keys (104 ∷ []) ∷ of_keys (105 ∷ []) ∷ [];
  event_base = 0;
  sent = state 3 1 ∷ state 4 2 ∷ [];
  assumed = 1;
  next_ack_time = 100450;
  next_send_time = 100450;
  mindelay_clock = max_u64;
  last_heard = 100300;
  pending_data_ack = false;
  shutdown_in_progress = false;
  shutdown_tries = 0;
  shutdown_start = 0;
  last_ack_sent = 0;
  sent_bytes = [];
  bytes_written = 2;
}

abbrev client_of : Sender → Client
client_of s = record {
  link = record {
    remote = [];
    sockets = [];
    last_port_choice = 0;
    last_roundtrip_success = 0;
    next_seq = 0;
    expected_seq = 0;
    saved_timestamp = 0;
    saved_timestamp_at = 0;
    fragment_id = 0;
    assembly = no_assembly;
    outbox = [];
  };
  sender = s;
  receiver = record {
    ack_num = 9;
    states = [];
    latest = 9;
    shown_scroll = 0;
    output = [];
    heard = true;
    echo_ack = 0;
    mirror = record { start_screen = []; start_columns = 80; start_rows = 24; writes = [] };
  };
  journal = record {
    file = none;
    journal_note = [];
    seq_reserved = 0;
    journaled_front = 0;
    state_reserved = 0;
    state_floor = 0;
  };
  error = none;
  finished = false;
}

abbrev pub client : Client
client = client_of sender

pub client-IsValid : IsValid sender
client-IsValid = record {
  chain = (
    record { num = omega arith; distinct = λ e. absurd (omega arith); events = omega arith },
    tt,
  );
  few = omega arith;
  based = omega arith;
  within = omega arith;
  top = omega arith;
  running = λ _. omega arith;
}

room : HasRoom client
room = record { above_last = λ _. omega arith; above_floor = λ _. omega arith }

tick-IsValid_example : IsValid (tick outside env client).sender
tick-IsValid_example = tick-IsValid outside env client client-IsValid room

write-IsTyped_example : IsTyped (106 ∷ []) sender (write (106 ∷ []) client).sender
write-IsTyped_example = write-IsTyped (106 ∷ []) client client-IsValid

process_acknowledgment_lem_example : AcknowledgedTo 4 client (process_acknowledgment 4 client)
process_acknowledgment_lem_example = process_acknowledgment_lem 4 client client-IsValid

-- The size was forgotten, and the state has it and the first key: the second key is in the diff.
abbrev later : Sender
later = record sender { event_base = 1; events = drop 1 sender.events }

read_events-user_diff_example :
    read_events (user_diff 2 later) ≡ drop 2 (history (of_size 80 24 ∷ []) later)
read_events-user_diff_example = read_events-user_diff (of_size 80 24 ∷ []) later 2 refl (
  (omega arith, omega arith, omega arith, inr (refl, refl)),
  ((omega arith, omega arith, omega arith, inr (refl, refl)), tt),
)

-- The first event is forgotten, since the server has it, and the next one is not.
forget_events-history_example :
    (gone : List UserEvent) × (history ([] ++ gone) (forget_events sender) ≡ history [] sender)
    × (length ([] ++ gone) ≡ (forget_events sender).event_base)
    × ((forget_events sender).event_base ≤ 1)
    × (((forget_events sender).events ≡ []) ⊎ (1 ≤ (forget_events sender).event_base))
forget_events-history_example = forget_events-history [] sender refl

-- 32 states with a number each, one event in each, all assumed to have arrived.
abbrev states_from : ℕ → ℕ → List SentState
states_from zero num = []
states_from (suc n) num = state num num ∷ states_from n (num + 1)

abbrev busy : Client
busy = client_of (record sender { event_base = 0; sent = states_from 32 0; assumed = 31 })

abbrev busier : Client
busier = record busy {
  sender = record busy.sender { events = map (λ s. of_keys (s.num ∷ [])) (states_from 33 0) };
}

instruction_of-with_state_full_example :
    (instruction_of (with_state env busier) (1 ∷ []) (receiver_num busier)).old_num
    ≡ (instruction_of (with_state env busier) (1 ∷ []) (receiver_num busier)).new_num
unfolding receiver_num fresh_num
instruction_of-with_state_full_example =
    instruction_of-with_state_full env (1 ∷ []) busier refl refl refl
