-- ===== src/Session/Socks/Request.antt =====
-- A client of SOCKS 5 that asks for a host by its name.
use Prim.Native.Nat.{zero}
use longterm.Base.{
  ◌∙◌, append_assoc, length-append, drop, suc, ltb, ◌*◌, ◌+◌, take-append, ap, none, ◌%◌, ◌/◌,
  is_empty, ◌++◌, some, length, [], ◌∷◌, ℕ, true, false, ◌≡◌, refl, arith,
}
use longterm.Session.Socks.{
  c_string, has_zero, read_socks5, read_version, read_socks, byte_at, connect5, address_end,
  address5, request5, host5, reply5, Peers, connect_to, send_reply, Bytes, Stream,
}

-- One method, which is no authentication.
abbrev pub greeting : Bytes
greeting = 5 ∷ 1 ∷ 0 ∷ []

-- A CONNECT request of RFC 1928 for a domain name.
pub domain_request : Bytes → ℕ → Bytes
domain_request host port = 5 ∷ 1 ∷ 0 ∷ 3 ∷ length host ∷ host ++ port / 256 ∷ port % 256 ∷ []

-- A client whose connection was taken.
abbrev pub new_client : Stream
new_client = record {
  socks_input = [];
  socks_greeted = false;
  closed = false;
  channel = none;
  sent = [];
  written = [];
}

abbrev pub greeted_client : Bytes → Stream
greeted_client input = record new_client {
  socks_input = input;
  socks_greeted = true;
  sent = 5 ∷ 0 ∷ [];
}

-- The client that was connected, with what it sent behind its request.
abbrev pub connected_client : Bytes → ℕ → Bytes → Stream
connected_client host port rest = record (greeted_client []) {
  channel = some (host, port);
  sent = 5 ∷ 0 ∷ reply5 0;
  written = rest;
}

c_string-whole : (host : Bytes) → has_zero host ≡ false → c_string host ≡ host
unfolding c_string has_zero
c_string-whole [] z = refl
c_string-whole (c ∷ host) z = ground (arith, c_string-whole host)

connect_to_open :
    (o : Peers) (host : Bytes) (port : ℕ) (rest input : Bytes)
    → is_empty host ≡ false
    → has_zero host ≡ false
    → o.opens host port ≡ true
    → o.sends (reply5 0) ≡ true
    → o.writes rest ≡ true
    → connect_to o (reply5 0) (reply5 1) host port rest (greeted_client input)
      ≡ connected_client host port rest
unfolding connect_to send_reply
connect_to_open o host port [] input e z h r w = rw (e, c_string-whole host z, h, r)
connect_to_open o host port (c ∷ rest) input e z h r w = rw (e, c_string-whole host z, h, r, w)

host5-domain :
    (o : Peers) (host tail : Bytes)
    → host5 o (5 ∷ 1 ∷ 0 ∷ 3 ∷ length host ∷ host ++ tail) ≡ some host
unfolding host5
host5-domain o host tail = ap some (take-append (length host) host tail refl)

byte_at-behind : (n : ℕ) (xs ys : Bytes) → n ≡ length xs → byte_at n (xs ++ ys) ≡ byte_at 0 ys
byte_at-behind zero [] ys e = refl
byte_at-behind zero (x ∷ xs) ys e = absurd (omega arith)
byte_at-behind (suc n) [] ys e = absurd (omega arith)
byte_at-behind (suc n) (x ∷ xs) ys e = byte_at-behind n xs ys (omega arith)

byte_at-next :
    (n : ℕ) (xs ys : Bytes) (y : ℕ) → n ≡ length xs + 1 → byte_at n (xs ++ y ∷ ys) ≡ byte_at 0 ys
byte_at-next n [] ys y e = ap (λ k. byte_at k (y ∷ ys)) e
byte_at-next zero (x ∷ xs) ys y e = absurd (omega arith)
byte_at-next (suc n) (x ∷ xs) ys y e = byte_at-next n xs ys y (omega arith)

drop-next : (n : ℕ) (xs ys : Bytes) (y z : ℕ) → n ≡ length xs + 2 → drop n (xs ++ y ∷ z ∷ ys) ≡ ys
drop-next n [] ys y z e = ap (λ k. drop k (y ∷ z ∷ ys)) e
drop-next zero (x ∷ xs) ys y z e = absurd (omega arith)
drop-next (suc n) (x ∷ xs) ys y z e = drop-next n xs ys y z (omega arith)

two_bytes : (port : ℕ) → port / 256 * 256 + port % 256 ≡ port
two_bytes port = omega arith

-- The request up to the port.
abbrev head_of : Bytes → Bytes
head_of host = 5 ∷ 1 ∷ 0 ∷ 3 ∷ length host ∷ host

connect5-domain :
    (o : Peers) (host rest : Bytes) (port end : ℕ)
    → end ≡ length (head_of host)
    → is_empty host ≡ false
    → has_zero host ≡ false
    → o.opens host port ≡ true
    → o.sends (reply5 0) ≡ true
    → o.writes rest ≡ true
    → connect5 o end (some host) (greeted_client (head_of host ++ port / 256 ∷ port % 256 ∷ rest))
      ≡ connected_client host port rest
unfolding connect5
connect5-domain o host rest port end l e z h r w =
    let tail : Bytes = port / 256 ∷ port % 256 ∷ rest in
    rw
      (
        byte_at-behind end (head_of host) tail l,
        byte_at-next (end + 1) (head_of host) (port % 256 ∷ rest) (port / 256) (omega (arith, l)),
        drop-next (end + 2) (head_of host) rest (port / 256) (port % 256) (omega (arith, l)),
        two_bytes port,
      )
      (connect_to_open o host port rest (head_of host ++ tail) e z h r w)

request5-domain :
    (o : Peers) (host rest : Bytes) (port : ℕ)
    → is_empty host ≡ false
    → has_zero host ≡ false
    → o.opens host port ≡ true
    → o.sends (reply5 0) ≡ true
    → o.writes rest ≡ true
    → request5 o (greeted_client (head_of host ++ port / 256 ∷ port % 256 ∷ rest))
      ≡ connected_client host port rest
unfolding request5 address5 address_end
request5-domain o host rest port e z h r w =
    let tail : Bytes = port / 256 ∷ port % 256 ∷ rest in
    let n : ltb (length (head_of host ++ tail)) 5 ≡ false =
      ground (arith, length-append host tail) in
    let m : ltb (length (head_of host ++ tail)) (5 + length host + 2) ≡ false =
      ground (arith, length-append host tail) in
    rw (n, m, host5-domain o host tail)
      (connect5-domain o host rest port (5 + length host) (omega arith) e z h r w)

whole_request :
    (host rest : Bytes) (port : ℕ)
    → domain_request host port ++ rest ≡ head_of host ++ port / 256 ∷ port % 256 ∷ rest
unfolding domain_request
whole_request host rest port = append_assoc (head_of host) (port / 256 ∷ port % 256 ∷ []) rest

greeting-request :
    (o : Peers) (request : Bytes)
    → o.sends (5 ∷ 0 ∷ []) ≡ true
    → read_socks o (greeting ++ request) new_client ≡ request5 o (greeted_client request)
unfolding read_socks read_version read_socks5 send_reply has_zero
greeting-request o request h =
    let a : ltb (length (greeting ++ request)) 2 ≡ false = ground arith in
    let b : ltb (length (greeting ++ request)) 3 ≡ false = ground arith in rw (a, b, h)

-- A client of SOCKS 5 that offers no authentication and asks for a host by its name, which has no
-- zero byte, gets a channel to that host and port, the two replies of success, and what it sent
-- behind its request goes into the channel, where the channel opens and the sends succeed.
pub read_socks-domain_request :
    (o : Peers) (host rest : Bytes) (port : ℕ)
    → is_empty host ≡ false
    → has_zero host ≡ false
    → o.opens host port ≡ true
    → o.sends (5 ∷ 0 ∷ []) ≡ true
    → o.sends (reply5 0) ≡ true
    → o.writes rest ≡ true
    → read_socks o (greeting ++ domain_request host port ++ rest) new_client
      ≡ connected_client host port rest
read_socks-domain_request o host rest port e z h g r w =
    greeting-request o (domain_request host port ++ rest) g
    ∙ ap (λ input. request5 o (greeted_client input)) (whole_request host rest port)
    ∙ request5-domain o host rest port e z h r w
