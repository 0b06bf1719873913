-- ===== src/Tests/Proxy.antt =====
-- A SOCKS 5 client that asks for the host "a" at port 443, at once and in two pieces.
use longterm.Session.Socks.Pieces.{read_socks-append}
use longterm.Session.Socks.Request.{
  read_socks-domain_request, connected_client, domain_request, new_client, greeting,
}
use longterm.Session.Socks.Chunks.{is_waiting}
use longterm.Base.Words.{Bytes}
use longterm.Session.Socks.{
  c_string, connect_to, connect5, host5, address_end, address5, byte_at, request5, has_zero,
  send_reply, read_socks5, read_version, read_socks, Peers,
}
use longterm.Base.{◌++◌, [], ◌∷◌, ◌+◌, true, false, ◌≡◌, refl, none}

abbrev peers : Peers
peers = record {
  decimal = λ n. (n + 48) ∷ [];
  inet_ntop = λ address. none;
  opens = λ host port. true;
  sends = λ bytes. true;
  writes = λ bytes. true;
}

abbrev name : Bytes
name = b'a' ∷ []

name-has_zero : has_zero name ≡ false
unfolding has_zero
name-has_zero = refl

read_socks-domain_request_example :
    read_socks peers (greeting ++ domain_request name 443 ++ 22 ∷ []) new_client
    ≡ connected_client name 443 (22 ∷ [])
read_socks-domain_request_example =
    read_socks-domain_request peers name (22 ∷ []) 443 refl name-has_zero refl refl refl refl

-- The greeting and a part of the request, and the rest.
abbrev first_piece : Bytes
first_piece = 5 ∷ 1 ∷ 0 ∷ 5 ∷ 1 ∷ 0 ∷ []

abbrev second_piece : Bytes
second_piece = 3 ∷ 1 ∷ b'a' ∷ 1 ∷ 187 ∷ []

first-waiting : is_waiting (read_socks peers first_piece new_client) ≡ true
unfolding is_waiting read_socks read_version read_socks5 send_reply has_zero request5
first-waiting = refl

first-version :
    byte_at 0 ((read_socks peers first_piece new_client).socks_input ++ second_piece)
    ≡ byte_at 0 (new_client.socks_input ++ first_piece)
unfolding read_socks read_version read_socks5 send_reply has_zero request5
first-version = refl

read_socks-append_example :
    read_socks peers second_piece (read_socks peers first_piece new_client)
    ≡ read_socks peers (first_piece ++ second_piece) new_client
read_socks-append_example =
    read_socks-append peers first_piece second_piece new_client refl first-waiting first-version

-- A request of another version behind the greeting is taken where both come at once, and not where it
-- comes apart from it.
at_once : (read_socks peers (5 ∷ 1 ∷ 0 ∷ 9 ∷ 1 ∷ 0 ∷ second_piece) new_client).closed ≡ false
unfolding read_socks read_version read_socks5 send_reply has_zero request5 address5 address_end
    host5 connect5 connect_to c_string
at_once = refl

apart :
    (read_socks peers
      (9 ∷ 1 ∷ 0 ∷ second_piece)
      (read_socks peers (5 ∷ 1 ∷ 0 ∷ []) new_client)).closed
    ≡ true
unfolding read_socks read_version read_socks5 send_reply has_zero request5
apart = refl
