-- ===== src/Session/Socks.antt =====
-- src/sshsession.cpp: readSocks, the requests of SOCKS 4, 4a and 5 on a port for dynamic forwards.
pub mod Chunks
pub mod Pieces
pub mod Request
use longterm.Base.{
  ℕ, ◌+◌, ◌*◌, Bool, true, false, ◌||◌, ◌&&◌, not, Option, none, some, List, [], ◌∷◌, ◌++◌, ◌==◌,
  ltb, leb, if◌then◌else◌, is_empty, length, drop, take, get_elem?,
}
use longterm.Base.Words.{Bytes}

-- The functions of the system, of libssh and of Qt that are called: decimal numbers, the text of an
-- IPv6 address, and whether opening a channel, `send` and `ssh_channel_write` succeed.
pub record Peers : Type 0 where
  pub decimal : ℕ → Bytes
  pub inet_ntop : Bytes → Option Bytes
  pub opens : Bytes → ℕ → Bool
  pub sends : Bytes → Bool
  pub writes : Bytes → Bool

-- A `Stream` before it has a channel. `channel` is the host and port that one was opened to, `sent`
-- what went to the client, `written` what went into the channel.
pub record Stream : Type 0 where
  pub socks_input : Bytes
  pub socks_greeted : Bool
  pub closed : Bool
  pub channel : Option (Bytes × ℕ)
  pub sent : Bytes
  pub written : Bytes

abbrev pub max_socks_request : ℕ
max_socks_request = 512

-- `input.at(i)`, at places that the code has checked.
abbrev pub byte_at : ℕ → Bytes → ℕ
byte_at i input = elim (get_elem? input i) [ none ↦ 0 | some c ↦ c ]

-- What is before the first zero byte, and what follows it.
unfoldable pub split_zero : Bytes → Option (Bytes × Bytes)
split_zero [] = none
split_zero (c ∷ input) =
    if c == 0
    then some ([], input)
    else elim (split_zero input) [ none ↦ none | some p ↦ some (c ∷ p.0, p.1) ]

unfoldable pub has_zero : Bytes → Bool
has_zero [] = false
has_zero (c ∷ input) = c == 0 || has_zero input

unfoldable pub send_reply : Peers → Bytes → Stream → Stream
send_reply o bytes s = record s {
  sent = s.sent ++ bytes;
  closed = if o.sends bytes then s.closed else true;
}

unfoldable pub refuse : Peers → Bytes → Stream → Stream
refuse o bytes s = record (send_reply o bytes s) { closed = true }

abbrev pub success4 : Bytes
success4 = 0 ∷ 0x5a ∷ 0 ∷ 0 ∷ 0 ∷ 0 ∷ 0 ∷ 0 ∷ []

abbrev pub failure4 : Bytes
failure4 = 0 ∷ 0x5b ∷ 0 ∷ 0 ∷ 0 ∷ 0 ∷ 0 ∷ 0 ∷ []

-- SOCKS 5 answers with a code: 0 for success, 1 for a failure, 7 and 8 for what is not supported.
abbrev pub reply5 : ℕ → Bytes
reply5 code = 5 ∷ code ∷ 0 ∷ 1 ∷ 0 ∷ 0 ∷ 0 ∷ 0 ∷ 0 ∷ 0 ∷ []

-- `constData()` of a host, which libssh takes up to its first zero byte.
unfoldable pub c_string : Bytes → Bytes
c_string [] = []
c_string (c ∷ host) = if c == 0 then [] else c ∷ c_string host

unfoldable pub connect_to : Peers → Bytes → Bytes → Bytes → ℕ → Bytes → Stream → Stream
connect_to o success failure host port rest s =
    let t = record (send_reply o success s) {
      channel = some (c_string host, port);
      socks_input = [];
    } in
    if is_empty host || not (o.opens (c_string host) port)
    then refuse o failure s
    else if is_empty rest
    then t
    else record t { written = rest; closed = if o.writes rest then t.closed else true }

abbrev pub dotted : Peers → Bytes → Bytes
dotted o input =
    o.decimal (byte_at 4 input)
    ++ b'.' ∷ o.decimal (byte_at 5 input)
    ++ b'.' ∷ o.decimal (byte_at 6 input)
    ++ b'.' ∷ o.decimal (byte_at 7 input)

-- More is to come, but not without end.
unfoldable pub wait_for_more : Stream → Stream
wait_for_more s =
    if leb max_socks_request (length s.socks_input) then record s { closed = true } else s

abbrev pub names_domain : Bytes → Bool
names_domain input =
    byte_at 4 input == 0
    && (byte_at 5 input == 0 && (byte_at 6 input == 0 && not (byte_at 7 input == 0)))

unfoldable pub connect4 : Peers → Bytes → Bytes → Stream → Stream
connect4 o host rest s =
    let port = byte_at 2 s.socks_input * 256 + byte_at 3 s.socks_input in
    if not (byte_at 1 s.socks_input == 1)
    then refuse o failure4 s
    else connect_to o success4 failure4 host port rest s

unfoldable pub domain4 : Peers → Option (Bytes × Bytes) → Stream → Stream
domain4 o none s = wait_for_more s
domain4 o (some (host, rest)) s = connect4 o host rest s

-- VN CD DSTPORT DSTIP USERID NUL, then DOMAIN NUL for 4a's 0.0.0.x
unfoldable pub user4 : Peers → Option (Bytes × Bytes) → Stream → Stream
user4 o none s = wait_for_more s
user4 o (some (user, rest)) s =
    if names_domain s.socks_input
    then domain4 o (split_zero rest) s
    else connect4 o (dotted o s.socks_input) rest s

unfoldable pub read_socks4 : Peers → Stream → Stream
read_socks4 o s = user4 o (split_zero (drop 8 s.socks_input)) s

-- Where the address of a request ends, for the types of address there are.
unfoldable pub address_end : Bytes → Option ℕ
address_end input =
    if byte_at 3 input == 1
    then some 8
    else if byte_at 3 input == 3
    then some (5 + byte_at 4 input)
    else if byte_at 3 input == 4
    then some 20
    else none

unfoldable pub host5 : Peers → Bytes → Option Bytes
host5 o input =
    if byte_at 3 input == 1
    then some (dotted o input)
    else if byte_at 3 input == 3
    then some (take (byte_at 4 input) (drop 5 input))
    else o.inet_ntop (take 16 (drop 4 input))

unfoldable pub connect5 : Peers → ℕ → Option Bytes → Stream → Stream
connect5 o end none s = refuse o (reply5 1) s
connect5 o end (some host) s =
    let port = byte_at end s.socks_input * 256 + byte_at (end + 1) s.socks_input in
    connect_to o (reply5 0) (reply5 1) host port (drop (end + 2) s.socks_input) s

unfoldable pub address5 : Peers → Option ℕ → Stream → Stream
address5 o none s = refuse o (reply5 8) s
address5 o (some end) s =
    if ltb (length s.socks_input) (end + 2)
    then s
    else if not (byte_at 1 s.socks_input == 1)
    then refuse o (reply5 7) s
    else connect5 o end (host5 o s.socks_input) s

-- VER CMD RSV ATYP DST.ADDR DST.PORT
unfoldable pub request5 : Peers → Stream → Stream
request5 o s = if ltb (length s.socks_input) 5 then s else address5 o (address_end s.socks_input) s

-- VER NMETHODS METHODS, and only no authentication is offered.
unfoldable pub read_socks5 : Peers → Stream → Stream
read_socks5 o s =
    let methods = byte_at 1 s.socks_input in
    if s.socks_greeted
    then request5 o s
    else if ltb (length s.socks_input) 2 || ltb (length s.socks_input) (2 + methods)
    then s
    else if not (has_zero (take methods (drop 2 s.socks_input)))
    then refuse o (5 ∷ 0xff ∷ []) s
    else request5 o (record (send_reply o (5 ∷ 0 ∷ []) s) {
      socks_input = drop (2 + methods) s.socks_input;
      socks_greeted = true;
    })

unfoldable pub read_version : Peers → Stream → Stream
read_version o s =
    if byte_at 0 s.socks_input == 4
    then read_socks4 o s
    else if byte_at 0 s.socks_input == 5
    then read_socks5 o s
    else record s { closed = true }

-- `bytes` is what `recv` gave, nothing at the end of the connection.
unfoldable pub read_socks : Peers → Bytes → Stream → Stream
read_socks o bytes s =
    if is_empty bytes
    then record s { closed = true }
    else read_version o (record s { socks_input = s.socks_input ++ bytes })
