-- ===== src/Session/Socks/Pieces.antt =====
-- What readSocks makes of two pieces of input, and of both at once.
use mathlib.Core.Path.{subst}
use longterm.Session.Socks.Chunks.{
  byte_at-append, read_socks4_stays, drop-append_le, read_socks5-cases, greeting-append, more,
  is_waiting, greet, is_greeting,
}
use longterm.Base.{
  [], append_assoc, length-append, ==→eq, ◌∷◌, Bool-cases, ◌==◌, sym, inr, ap, ◌∙◌, ◌+◌, inl,
  length, ◌++◌, is_empty, ◌<◌, true, false, ◌≡◌, refl, arith,
}
use longterm.Session.Socks.{
  read_socks4, Bytes, request5, byte_at, read_socks, Peers, send_reply, read_socks5, read_version,
  Stream,
}

read_version-4 :
    (o : Peers) (s : Stream) → byte_at 0 s.socks_input ≡ 4 → read_version o s ≡ read_socks4 o s
unfolding read_version
read_version-4 o s h = ground arith

read_version-5 :
    (o : Peers) (s : Stream) → byte_at 0 s.socks_input ≡ 5 → read_version o s ≡ read_socks5 o s
unfolding read_version
read_version-5 o s h = ground arith

read_socks5-greeted :
    (o : Peers) (s : Stream) → s.socks_greeted ≡ true → read_socks5 o s ≡ request5 o s
unfolding read_socks5
read_socks5-greeted o s h = ground arith

read_socks5-greet :
    (o : Peers) (s : Stream)
    → s.socks_greeted ≡ false
    → is_greeting s.socks_input ≡ true
    → read_socks5 o s ≡ request5 o (greet o s)
unfolding read_socks5
read_socks5-greet o s g h = ground arith

greet-more :
    (o : Peers) (bytes : Bytes) (s : Stream)
    → is_greeting s.socks_input ≡ true
    → greet o (more bytes s) ≡ more bytes (greet o s)
unfolding send_reply
greet-more o bytes s h =
    let (g, b, n) = greeting-append s.socks_input bytes h in
    rw (b, drop-append_le (2 + byte_at 1 s.socks_input) s.socks_input bytes n)

later5 :
    (o : Peers) (bytes : Bytes) (s : Stream)
    → is_waiting (read_socks5 o s) ≡ true
    → byte_at 0 ((read_socks5 o s).socks_input ++ bytes) ≡ 5
    → read_version o (more bytes (read_socks5 o s)) ≡ read_socks5 o (more bytes s)
later5 o bytes s w v = elim (read_socks5-cases o s w) [
  | inl e ↦
      read_version-5 o (more bytes (read_socks5 o s)) v ∙ ap (λ t. read_socks5 o (more bytes t)) e
  | inr (g, h, e) ↦
      read_version-5 o (more bytes (read_socks5 o s)) v
      ∙ ap (λ t. read_socks5 o (more bytes t)) e
      ∙ read_socks5-greeted o (more bytes (greet o s)) refl
      ∙ sym (ap (request5 o) (greet-more o bytes s h))
      ∙ sym (read_socks5-greet o (more bytes s) g (greeting-append s.socks_input bytes h).0)
]

version4_stays :
    (o : Peers) (s : Stream)
    → byte_at 0 s.socks_input ≡ 4
    → is_waiting (read_version o s) ≡ true
    → read_version o s ≡ s
version4_stays o s h w =
    let e = read_version-4 o s h in e ∙ read_socks4_stays o s (subst (λ t. is_waiting t ≡ true) e w)

version5_later :
    (o : Peers) (bytes : Bytes) (s : Stream)
    → 0 < length s.socks_input
    → byte_at 0 s.socks_input ≡ 5
    → is_waiting (read_version o s) ≡ true
    → byte_at 0 ((read_version o s).socks_input ++ bytes) ≡ byte_at 0 s.socks_input
    → read_version o (more bytes (read_version o s)) ≡ read_version o (more bytes s)
version5_later o bytes s n h w v =
    let e = read_version-5 o s h in
    let v5 : byte_at 0 ((read_socks5 o s).socks_input ++ bytes) ≡ 5 =
      subst (λ t. byte_at 0 (t.socks_input ++ bytes) ≡ 5) e (v ∙ h) in
    ap (λ t. read_version o (more bytes t)) e
    ∙ later5 o bytes s (subst (λ t. is_waiting t ≡ true) e w) v5
    ∙ sym (read_version-5 o (more bytes s) (byte_at-append 0 s.socks_input bytes n ∙ h))

no_version :
    (o : Peers) (s : Stream)
    → (byte_at 0 s.socks_input == 4) ≡ false
    → (byte_at 0 s.socks_input == 5) ≡ false
    → is_waiting (read_version o s) ≡ true
    → ⊥
unfolding read_version is_waiting
no_version o s h h5 w = ground arith

later_version :
    (o : Peers) (bytes : Bytes) (s : Stream)
    → 0 < length s.socks_input
    → is_waiting (read_version o s) ≡ true
    → byte_at 0 ((read_version o s).socks_input ++ bytes) ≡ byte_at 0 s.socks_input
    → read_version o (more bytes (read_version o s)) ≡ read_version o (more bytes s)
later_version o bytes s n w v = elim (Bool-cases (byte_at 0 s.socks_input == 4)) [
  | inl h ↦ ap (λ t. read_version o (more bytes t)) (version4_stays o s (==→eq _ _ h) w)
  | inr h ↦ elim (Bool-cases (byte_at 0 s.socks_input == 5)) [
    | inl h5 ↦ version5_later o bytes s n (==→eq _ _ h5) w v
    | inr h5 ↦ absurd (no_version o s h h5 w)
  ]
]

-- Where a first piece leaves the stream waiting, and the request that follows a greeting has the
-- version of the greeting, a second piece that is not empty has the effect that both have at once: the
-- same channel, replies, rest, and state. So a request may come in any pieces.
pub read_socks-append :
    (o : Peers) (a b : Bytes) (s : Stream)
    → is_empty b ≡ false
    → is_waiting (read_socks o a s) ≡ true
    → byte_at 0 ((read_socks o a s).socks_input ++ b) ≡ byte_at 0 (s.socks_input ++ a)
    → read_socks o b (read_socks o a s) ≡ read_socks o (a ++ b) s
unfolding read_socks is_waiting
read_socks-append o [] b s n w v = ground arith
read_socks-append o (x ∷ a) [] s n w v = ground arith
read_socks-append o (x ∷ a) (y ∷ b) s n w v =
    later_version o (y ∷ b) (more (x ∷ a) s) (omega (arith, length-append s.socks_input (x ∷ a))) w
      v
    ∙ ap (λ input. read_version o (record s { socks_input = input }))
        (append_assoc s.socks_input (x ∷ a) (y ∷ b))
