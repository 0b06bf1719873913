-- ===== src/Mosh/Link.antt =====
-- src/moshclient.cpp: `sendPacket`, `newSocket`, `roam` and `timestamp16`.
pub mod Nonce
use longterm.Base.{
  ℕ, ◌+◌, ◌-◌, ◌%◌, ◌^◌, Bool, ◌&&◌, not, Option, none, some, List, [], ◌∷◌, ◌++◌, ltb, leb, ◌==◌,
  if◌then◌else◌, length, drop, is_empty,
}
use longterm.Base.Words.{Bytes, to_big_endian}
use longterm.Mosh.Client.{Client, Mirror, no_socket, fail, sub64}
use longterm.Mosh.Journal.{has_journal, rewrite_journal}

-- What a call finds outside: the clock, read once, the timeouts that it gives with the round trip
-- times, the random chaff and what `socket()` answers.
pub record Env : Type 0 where
  pub now : ℕ
  pub timeout : ℕ
  pub send_interval : ℕ
  pub chaff : Bytes
  pub new_fd : Option ℕ

-- zlib, AES-OCB and libvterm: `encrypt` answers the empty packet on failure, `describe` is
-- `describeScreen`, and `lines_scrolled` what the mirror's last write scrolled off.
pub record Outside : Type 0 where
  pub compress : Bytes → Bytes
  pub uncompress : Bytes → Option Bytes
  pub encrypt : ℕ → Bytes → Bytes
  pub decrypt : Bytes → Option (ℕ × Bytes)
  pub describe : List (Bytes × ℕ × ℕ) → Bytes
  pub lines_scrolled : Mirror → ℕ

abbrev pub max_sockets : ℕ
max_sockets = 10

abbrev pub port_hop_interval : ℕ
port_hop_interval = 10000

abbrev pub no_timestamp : ℕ
no_timestamp = 65535

-- -1 means no timestamp.
pub timestamp16 : Env → ℕ
timestamp16 env = let t = env.now % 65536 in if t == no_timestamp then 0 else t

unfoldable pub add_socket : Env → ℕ → Client → Client
add_socket env fd c =
    let sockets = c.sockets ++ record { fd = fd; created = env.now } ∷ [] in
    record c {
      link = record c.link {
        sockets = drop (length sockets - max_sockets) sockets;
        last_port_choice = env.now;
      };
    }

unfoldable pub new_socket : Env → Client → Client
new_socket env c = elim env.new_fd [ none ↦ fail no_socket c | some fd ↦ add_socket env fd c ]

pub roam : Env → Client → Client
roam env c = if not c.finished && not (is_empty c.sockets) then new_socket env c else c

-- The server's timestamp goes back to it within a second, with the time that it was held.
pub replies : Env → Client → Bool
replies env c = ltb (sub64 env.now c.saved_timestamp_at) 1000

pub timestamp_reply : Env → Client → ℕ
unfolding replies
timestamp_reply env c =
    if replies env c
    then (c.saved_timestamp + sub64 env.now c.saved_timestamp_at) % 65536
    else no_timestamp

unfoldable pub take_timestamp : Env → Client → Client
unfolding replies
take_timestamp env c =
    if replies env c
    then record c {
      link = record c.link { saved_timestamp = no_timestamp; saved_timestamp_at = 0 };
    }
    else c

unfoldable pub reserve_nonce : Client → Client
reserve_nonce c = if has_journal c && leb c.seq_reserved c.next_seq then rewrite_journal c else c

-- `encrypt(m_nextSeq++ & SequenceMask, plaintext)` and `sendto`
unfoldable pub put_datagram : Outside → Bytes → Client → Client
put_datagram outside plaintext c =
    let nonce = c.next_seq % 2 ^ 63 in
    let packet = outside.encrypt nonce plaintext in
    record c {
      link = record c.link {
        next_seq = (c.next_seq + 1) % 2 ^ 64;
        outbox = if is_empty packet then c.outbox else c.outbox ++ (nonce, packet) ∷ [];
      };
    }

unfoldable pub hop_port : Env → Client → Client
hop_port env c =
    if ltb port_hop_interval (sub64 env.now c.last_port_choice)
      && ltb port_hop_interval (sub64 env.now c.last_roundtrip_success)
    then new_socket env c
    else c

unfoldable pub send_packet : Outside → Env → Bytes → Client → Client
send_packet outside env payload c =
    let header = to_big_endian 2 (timestamp16 env) ++ to_big_endian 2 (timestamp_reply env c) in
    let b = reserve_nonce (take_timestamp env c) in
    let packet = outside.encrypt (b.next_seq % 2 ^ 63) (header ++ payload) in
    let d = put_datagram outside (header ++ payload) b in
    if is_empty c.sockets then c else if is_empty packet then d else hop_port env d

unfoldable pub send_packets : Outside → Env → List Bytes → Client → Client
send_packets outside env [] c = c
send_packets outside env (f ∷ fs) c = send_packets outside env fs (send_packet outside env f c)
