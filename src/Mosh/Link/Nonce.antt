-- ===== src/Mosh/Link/Nonce.antt =====
-- No nonce is used twice: neither while the client runs, nor after a restart from its journal.
use longterm.Base.{
  ℕ, suc, ◌+◌, ◌%◌, ◌^◌, ◌≤◌, ◌<◌, ◌≡◌, refl, sym, ap, ◌∙◌, true, false, ◌&&◌, Option, none, some,
  List, [], ◌∷◌, ◌++◌, leb, arith, length, is_empty, if_intro,
}
use longterm.Base.Words.{Bytes, to_big_endian}
use longterm.Mosh.Client.{
  add64, Client, Entry, seq_reserve, UserEvent, SentState, ReceivedState, fail, max_of,
}
use longterm.Mosh.Journal.{
  has_journal, state_entries, event_entries, sent_entries, snapshot, renewed, rewrite_journal,
  seq_block,
}
use longterm.Mosh.Link.{
  Env, Outside, timestamp16, timestamp_reply, take_timestamp, reserve_nonce, put_datagram, hop_port,
  new_socket, add_socket, send_packet, send_packets,
}

-- The nonces of the datagrams rise, from `lo` on and below `hi`.
abbrev pub Rising : ℕ → List (ℕ × Bytes) → ℕ → Type 0
Rising lo [] hi = lo ≤ hi
Rising lo ((n, packet) ∷ ps) hi = (lo ≤ n) × Rising (suc n) ps hi

Rising-append :
    (lo : ℕ) (ps : List (ℕ × Bytes)) (n : ℕ) (packet : Bytes)
    → Rising lo ps n
    → Rising lo (ps ++ (n, packet) ∷ []) (n + 1)
Rising-append lo [] n packet h = (h, omega arith)
Rising-append lo ((m, p) ∷ ps) n packet h = (h.0, Rising-append (suc m) ps n packet h.1)

Rising-more : (lo : ℕ) (ps : List (ℕ × Bytes)) (n : ℕ) → Rising lo ps n → Rising lo ps (n + 1)
Rising-more lo [] n h = omega (arith, h)
Rising-more lo ((m, p) ∷ ps) n h = (h.0, Rising-more (suc m) ps n h.1)

-- The reservation of nonces that a journal was left with.
abbrev pub reserved_in : ℕ → List Entry → ℕ
reserved_in n [] = n
reserved_in n (seq_reserve m ∷ es) = reserved_in m es
reserved_in n (e ∷ es) = reserved_in n es

reserved_in-state_entries :
    (n : ℕ) (ss : List (ℕ × ReceivedState)) (es : List Entry)
    → reserved_in n (state_entries ss ++ es) ≡ reserved_in n es
reserved_in-state_entries n [] es = refl
reserved_in-state_entries n ((k, s) ∷ ss) es = reserved_in-state_entries n ss es

reserved_in-event_entries :
    (n i : ℕ) (us : List UserEvent) (es : List Entry)
    → reserved_in n (event_entries i us ++ es) ≡ reserved_in n es
reserved_in-event_entries n i [] es = refl
reserved_in-event_entries n i (u ∷ us) es = reserved_in-event_entries n (i + 1) us es

reserved_in-sent_entries : (n : ℕ) (ss : List SentState) → reserved_in n (sent_entries ss) ≡ n
reserved_in-sent_entries n [] = refl
reserved_in-sent_entries n (s ∷ ss) = reserved_in-sent_entries n ss

-- No nonce in the outbox will be used again; a journal reserves more than were used, and says so.
pub record FreshNonces (c : Client) : Type 0 where
  pub rising : Rising 0 c.outbox c.next_seq
  pub reserved :
      (es : List Entry)
      → c.file ≡ some es
      → (c.next_seq ≤ c.seq_reserved) × (reserved_in 0 es ≡ c.seq_reserved)

-- As `FreshNonces`, with a nonce left.
record HasNonce (c : Client) : Type 0 where
  fresh : FreshNonces c
  left : (es : List Entry) → c.file ≡ some es → c.next_seq < c.seq_reserved

reserved_in-snapshot :
    (c : Client) → reserved_in 0 (snapshot c (renewed c)) ≡ (renewed c).seq_reserved
unfolding snapshot
reserved_in-snapshot c =
    reserved_in-state_entries _ c.states _
    ∙ reserved_in-event_entries _ c.event_base c.events _
    ∙ reserved_in-sent_entries _ c.sent

-- What the nonces depend on is the same.
record SameNonces (c d : Client) : Type 0 where
  next_seq : d.next_seq ≡ c.next_seq
  outbox : d.outbox ≡ c.outbox
  file : d.file ≡ c.file
  seq_reserved : d.seq_reserved ≡ c.seq_reserved

SameNonces-FreshNonces : (c d : Client) → SameNonces c d → FreshNonces c → FreshNonces d
SameNonces-FreshNonces c d s f = record {
  rising = rw (s.outbox, s.next_seq) f.rising;
  reserved = λ es e.
      let r = f.reserved es (sym s.file ∙ e) in
      (rw (s.next_seq, s.seq_reserved) r.0, r.1 ∙ sym s.seq_reserved);
}

take_timestamp-SameNonces : (env : Env) (c : Client) → SameNonces c (take_timestamp env c)
unfolding take_timestamp
take_timestamp-SameNonces env c = record {
  next_seq = ground arith;
  outbox = ground arith;
  file = ground arith;
  seq_reserved = ground arith;
}

hop_port-SameNonces : (env : Env) (c : Client) → SameNonces c (hop_port env c)
unfolding hop_port new_socket add_socket fail
hop_port-SameNonces env c = record {
  next_seq = ground arith;
  outbox = ground arith;
  file = ground arith;
  seq_reserved = ground arith;
}

abbrev pub reserved_by : Option (List Entry) → ℕ
reserved_by none = 0
reserved_by (some es) = reserved_in 0 es

-- `rewrite_journal`, by whether there is a journal.
rewritten-HasNonce :
    (c : Client) (o : Option (List Entry))
    → c.file ≡ o
    → c.next_seq < 2 ^ 63
    → FreshNonces c
    → HasNonce (elim o [
      | none ↦ c
      | some _ ↦ record c { journal = record (renewed c) { file = some (snapshot c (renewed c)) } }
    ])
unfolding renewed
rewritten-HasNonce c none e lt f = record { fresh = f; left = λ es q. cc }
rewritten-HasNonce c (some old) e lt f =
    let whole : add64 c.next_seq seq_block ≡ c.next_seq + seq_block = omega arith in
    let more : c.next_seq < max_of c.seq_reserved (add64 c.next_seq seq_block) =
      ground (arith, whole) in
    record {
      fresh = record {
        rising = f.rising;
        reserved = λ es q. (omega (arith, more), ap reserved_by (sym q) ∙ reserved_in-snapshot c);
      };
      left = λ es q. more;
    }

has_journal-some : (c : Client) (es : List Entry) → c.file ≡ some es → has_journal c ≡ true
has_journal-some c es e =
    ap (λ (o : Option (List Entry)). elim o [ none ↦ false | some _ ↦ true ]) e

reserve_nonce-HasNonce :
    (c : Client) → c.next_seq < 2 ^ 63 → FreshNonces c → HasNonce (reserve_nonce c)
unfolding reserve_nonce
reserve_nonce-HasNonce c lt f =
    if_intro HasNonce (has_journal c && leb c.seq_reserved c.next_seq) _ _
      (λ _. unfold rewrite_journal in rewritten-HasNonce c c.file refl lt f)
      (λ no. record { fresh = f; left = λ es e. ground (arith, has_journal-some c es e, no) })

put_datagram-FreshNonces :
    (outside : Outside) (plaintext : Bytes) (c : Client)
    → c.next_seq < 2 ^ 63
    → HasNonce c
    → FreshNonces (put_datagram outside plaintext c)
unfolding put_datagram
put_datagram-FreshNonces outside plaintext c lt h =
    let same : c.next_seq % 2 ^ 63 ≡ c.next_seq = omega arith in
    let more : (c.next_seq + 1) % 2 ^ 64 ≡ c.next_seq + 1 = omega arith in
    record {
      rising = rw more (
          if_intro (λ (ps : List (ℕ × Bytes)). Rising 0 ps (c.next_seq + 1))
            (is_empty (outside.encrypt (c.next_seq % 2 ^ 63) plaintext)) _ _
            (λ _. Rising-more 0 c.outbox c.next_seq h.fresh.rising)
            (λ _. rw same (Rising-append 0 c.outbox c.next_seq _ h.fresh.rising)));
      reserved = λ es e. (omega (arith, more, h.left es e), (h.fresh.reserved es e).1);
    }

reserve_nonce-next_seq : (c : Client) → (reserve_nonce c).next_seq ≡ c.next_seq
unfolding reserve_nonce rewrite_journal
reserve_nonce-next_seq c = ground arith

put_datagram-next_seq :
    (outside : Outside) (plaintext : Bytes) (c : Client)
    → (put_datagram outside plaintext c).next_seq ≤ c.next_seq + 1
unfolding put_datagram
put_datagram-next_seq outside plaintext c = omega arith

abbrev Sent : Client → Client → Type 0
Sent c d = FreshNonces d × (d.next_seq ≤ c.next_seq + 1)

packet-Sent :
    (outside : Outside) (plaintext : Bytes) (env : Env) (c : Client)
    → c.next_seq < 2 ^ 63
    → FreshNonces c
    → Sent c (put_datagram outside plaintext (reserve_nonce (take_timestamp env c)))
packet-Sent outside plaintext env c lt f =
    let s = take_timestamp-SameNonces env c in
    let b = take_timestamp env c in
    let same : (reserve_nonce b).next_seq ≡ c.next_seq = reserve_nonce-next_seq b ∙ s.next_seq in
    (
      put_datagram-FreshNonces outside plaintext (reserve_nonce b) (omega (arith, same))
          (reserve_nonce-HasNonce b (omega (arith, s.next_seq)) (SameNonces-FreshNonces c b s f)),
      omega (arith, same, put_datagram-next_seq outside plaintext (reserve_nonce b)),
    )

-- A packet that is sent uses a nonce that was never used and will not be used again.
send_packet-FreshNonces :
    (outside : Outside) (env : Env) (payload : Bytes) (c : Client)
    → c.next_seq < 2 ^ 63
    → FreshNonces c
    → Sent c (send_packet outside env payload c)
unfolding send_packet
send_packet-FreshNonces outside env payload c lt f =
    if_intro (Sent c) (is_empty c.sockets) _ _ (λ _. (f, omega arith))
      (λ _.
        if_intro (Sent c) (is_empty _) _ _ (λ _. sent)
          (λ _. (
            SameNonces-FreshNonces _ _ (hop_port-SameNonces env _) sent.0,
            omega (arith, sent.1, (hop_port-SameNonces env _).next_seq),
          )))
  where
    sent : Sent c (
        put_datagram outside
          ((to_big_endian 2 (timestamp16 env) ++ to_big_endian 2 (timestamp_reply env c))
            ++ payload)
          (reserve_nonce (take_timestamp env c)))
    sent = packet-Sent outside _ env c lt f

-- Until the nonces reach 2^63, sending packets keeps it so that the nonces used rise and stay below
-- the next one, so none comes twice; with a journal the next one stays within the reservation that
-- the journal's records hold, above which a restart goes on.
pub send_packets-FreshNonces :
    (outside : Outside) (env : Env) (fs : List Bytes) (c : Client)
    → c.next_seq + length fs ≤ 2 ^ 63
    → FreshNonces c
    → FreshNonces (send_packets outside env fs c)
unfolding send_packets
send_packets-FreshNonces outside env [] c le f = f
send_packets-FreshNonces outside env (p ∷ fs) c le f =
    let h = send_packet-FreshNonces outside env p c (omega arith) f in
    send_packets-FreshNonces outside env fs (send_packet outside env p c) (omega (arith, h.1)) h.0
