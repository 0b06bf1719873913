-- ===== src/Mosh/Send/Steps.antt =====
-- Every operation on the sender keeps its invariant.
use longterm.Base.{
  ℕ, ◌≤◌, ◌<◌, ◌≡◌, refl, sym, ap, ◌∙◌, Bool, true, false, List, [], ◌∷◌, ◌++◌, arith,
  if◌then◌else◌, is_empty,
}
use mathlib.Core.Path.{subst}
use longterm.Base.Words.{Bytes, to_big_endian}
use longterm.Mosh.Client.{SentState, Entry, sent_state, Sender, Client, shutdown_num, fail}
use longterm.Mosh.Fragment.{send_fragments}
use longterm.Mosh.Instruction.{write_instruction}
use longterm.Mosh.Journal.{last, write_entry, rewrite_journal}
use longterm.Mosh.Link.{
  Env, Outside, timestamp16, timestamp_reply, take_timestamp, reserve_nonce, put_datagram, hop_port,
  new_socket, add_socket, send_packet, send_packets,
}
use longterm.Mosh.Sender.{event_end}
use longterm.Mosh.Send.{
  remember, reserve_state, ready_to_send, instruction_of, add_sent_state, send_instruction,
}
use longterm.Mosh.Send.States.{IsChain, remember_lem}
use longterm.Mosh.Send.Valid.{IsValid}

-- What the invariant reads is the same.
pub record Same (s t : Sender) : Type 0 where
  pub sent : t.sent ≡ s.sent
  pub events : t.events ≡ s.events
  pub base : t.event_base ≡ s.event_base
  pub stopping : t.shutdown_in_progress ≡ s.shutdown_in_progress

pub Same-IsValid : {s t : Sender} → Same s t → IsValid s → IsValid t
Same-IsValid {s} {t} e v = record {
  chain = subst IsChain (sym e.sent) v.chain;
  few = rw e.sent v.few;
  based = rw (e.sent, e.base) v.based;
  within = rw (e.sent, e.base, e.events) v.within;
  top = rw e.sent v.top;
  running = λ r. rw e.sent (v.running (sym e.stopping ∙ r));
}

pub write_entry-sender : (e : Entry) (c : Client) → (write_entry e c).sender ≡ c.sender
unfolding write_entry
write_entry-sender e c = refl

pub rewrite_journal-sender : (c : Client) → (rewrite_journal c).sender ≡ c.sender
unfolding rewrite_journal
rewrite_journal-sender c = ground arith

new_socket-sender : (env : Env) (c : Client) → (new_socket env c).sender ≡ c.sender
unfolding new_socket add_socket fail
new_socket-sender env c = ground arith

hop_port-sender : (env : Env) (c : Client) → (hop_port env c).sender ≡ c.sender
unfolding hop_port
hop_port-sender env c = ground (arith, new_socket-sender env c)

reserve_nonce-sender : (c : Client) → (reserve_nonce c).sender ≡ c.sender
unfolding reserve_nonce
reserve_nonce-sender c = ground (arith, rewrite_journal-sender c)

take_timestamp-sender : (env : Env) (c : Client) → (take_timestamp env c).sender ≡ c.sender
unfolding take_timestamp
take_timestamp-sender env c = ground arith

put_datagram-sender :
    (outside : Outside) (plaintext : Bytes) (c : Client)
    → (put_datagram outside plaintext c).sender ≡ c.sender
unfolding put_datagram
put_datagram-sender outside plaintext c = refl

if-sender :
    {s : Sender} (b : Bool) (x y : Client)
    → x.sender ≡ s
    → y.sender ≡ s
    → (if b then x else y).sender ≡ s
if-sender true x y p q = p
if-sender false x y p q = q

send_packet-sender :
    (outside : Outside) (env : Env) (payload : Bytes) (c : Client)
    → (send_packet outside env payload c).sender ≡ c.sender
unfolding send_packet
send_packet-sender outside env payload c =
    if-sender (is_empty c.sockets) c _ refl (if-sender _ _ _ sent (hop_port-sender env _ ∙ sent))
  where
    sent :
        (put_datagram outside
          ((to_big_endian 2 (timestamp16 env) ++ to_big_endian 2 (timestamp_reply env c))
            ++ payload)
          (reserve_nonce (take_timestamp env c))).sender
        ≡ c.sender
    sent =
        put_datagram-sender outside _ (reserve_nonce (take_timestamp env c))
        ∙ reserve_nonce-sender (take_timestamp env c)
        ∙ take_timestamp-sender env c

pub send_packets-sender :
    (outside : Outside) (env : Env) (fs : List Bytes) (c : Client)
    → (send_packets outside env fs c).sender ≡ c.sender
unfolding send_packets
send_packets-sender outside env [] c = refl
send_packets-sender outside env (f ∷ fs) c =
    send_packets-sender outside env fs (send_packet outside env f c)
    ∙ send_packet-sender outside env f c

pub send_instruction-Same :
    (outside : Outside) (env : Env) (diff : Bytes) (num : ℕ) (c : Client)
    → Same c.sender (send_instruction outside env diff num c).sender
unfolding send_instruction
send_instruction-Same outside env diff num c = record {
  sent = ap (λ t. t.sent) kept;
  events = ap (λ t. t.events) kept;
  base = ap (λ t. t.event_base) kept;
  stopping = ap (λ t. t.shutdown_in_progress) kept;
}
  where
    kept :
        (send_packets outside env
          (send_fragments c.fragment_id
            (outside.compress (write_instruction (instruction_of c diff num) env.chaff)))
          (ready_to_send num c)).sender
        ≡ (ready_to_send num c).sender
    kept = send_packets-sender outside env _ (ready_to_send num c)

pub reserve_state-sender : (num : ℕ) (c : Client) → (reserve_state num c).sender ≡ c.sender
unfolding reserve_state
reserve_state-sender num c = if-sender _ _ c (rewrite_journal-sender c) refl

-- What a state that is added must be.
pub record Follows (s : Sender) (num events : ℕ) : Type 0 where
  pub num_le : (last s.sent).num ≤ num
  pub distinct : (last s.sent).num ≡ num → num ≡ shutdown_num
  pub events_le : (last s.sent).events ≤ events
  pub within : events ≤ event_end s
  pub top : num ≤ shutdown_num
  pub running : s.shutdown_in_progress ≡ false → num < shutdown_num

remember-IsValid :
    (s : Sender) (t : SentState) (bytes : List (ℕ × ℕ))
    → IsValid s
    → Follows s t.num t.events
    → IsValid (record s { sent_bytes = bytes; sent = remember t s.sent })
remember-IsValid s t bytes v f =
    let r =
      remember_lem t s.sent v.chain
        (record { num = f.num_le; distinct = f.distinct; events = f.events_le }) v.few in
    record {
      chain = r.chain;
      few = r.few;
      based = rw r.same_first v.based;
      within = rw r.new_last f.within;
      top = rw r.new_last f.top;
      running = λ e. rw r.new_last (f.running e);
    }

pub add_sent_state-IsValid :
    (time num events : ℕ) (c : Client)
    → IsValid c.sender
    → Follows c.sender num events
    → IsValid (add_sent_state time num events c).sender
unfolding add_sent_state
add_sent_state-IsValid time num events c v f =
    remember-IsValid _ (record { num = num; events = events; timestamp = time }) _
      (subst IsValid (sym kept) v) (subst (λ s. Follows s num events) (sym kept) f)
  where
    kept : (write_entry (sent_state num events) (reserve_state num c)).sender ≡ c.sender
    kept = write_entry-sender _ (reserve_state num c) ∙ reserve_state-sender num c
