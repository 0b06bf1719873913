-- ===== src/Tests/Nonces.antt =====
-- Two packets sent by a client with a journal, at the end of its reservation.
use longterm.Base.{sym, ap, [], ◌∷◌, some, arith}
use longterm.Mosh.Client.{Client, seq_reserve}
use longterm.Mosh.Link.{send_packets}
use longterm.Mosh.Link.Nonce.{FreshNonces, reserved_by, send_packets-FreshNonces}
use longterm.Tests.Sending.{outside, env, client}

abbrev journaled : Client
journaled = record client {
  link = record client.link {
    sockets = record { fd = 3; created = 100000 } ∷ [];
    next_seq = 5;
    outbox = (4, 1 ∷ []) ∷ [];
  };
  journal = record client.journal { file = some (seq_reserve 5 ∷ []); seq_reserved = 5 };
}

journaled-FreshNonces : FreshNonces journaled
journaled-FreshNonces = record {
  rising = (omega arith, omega arith);
  reserved = λ es e. (omega arith, ap reserved_by (sym e));
}

send_packets-FreshNonces_example :
    FreshNonces (send_packets outside env ((1 ∷ []) ∷ (2 ∷ []) ∷ []) journaled)
send_packets-FreshNonces_example =
    send_packets-FreshNonces outside env ((1 ∷ []) ∷ (2 ∷ []) ∷ []) journaled (omega arith)
      journaled-FreshNonces
