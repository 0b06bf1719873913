-- ===== src/Session/Socks/Chunks.antt =====
-- A request that comes in pieces is read as if it came at once.
use Prim.Native.Nat.{zero}
use mathlib.Core.Option.{none}
use longterm.Base.{
  length-append, ap, length-drop, suc, ◌≤◌, ◌<◌, take, inr, ◌+◌, ◌*◌, inl, ◌||◌, [], Bool-cases,
  length, ◌∷◌, drop, ◌⊎◌, ltb, ◌++◌, ℕ, ◌&&◌, some, not, Option, Bool, true, false, ◌≡◌, refl,
  arith,
}
use longterm.Session.Socks.{
  has_zero, host5, byte_at, reply5, dotted, success4, send_reply, address_end, split_zero, failure4,
  read_socks5, Peers, Bytes, request5, address5, connect5, read_socks4, user4, domain4, connect4,
  wait_for_more, connect_to, refuse, Stream,
}

abbrev pub is_none {ℓ} : {A : Type ℓ} → Option A → Bool
is_none none = true
is_none (some a) = false

-- No channel yet, and not given up.
unfoldable pub is_waiting : Stream → Bool
is_waiting s = not s.closed && is_none s.channel

refuse_ends : (o : Peers) (bytes : Bytes) (s : Stream) → is_waiting (refuse o bytes s) ≡ false
unfolding refuse is_waiting
refuse_ends o bytes s = refl

connect_to_ends :
    (o : Peers) (success failure host : Bytes) (port : ℕ) (rest : Bytes) (s : Stream)
    → is_waiting (connect_to o success failure host port rest s) ≡ false
unfolding connect_to is_waiting
connect_to_ends o success failure host port rest s = ground (arith, refuse_ends o failure s)

wait_for_more_stays : (s : Stream) → is_waiting (wait_for_more s) ≡ true → wait_for_more s ≡ s
unfolding wait_for_more is_waiting
wait_for_more_stays s w = ground arith

connect4_ends :
    (o : Peers) (host rest : Bytes) (s : Stream) → is_waiting (connect4 o host rest s) ≡ false
unfolding connect4
connect4_ends o host rest s = ground (
  arith,
  refuse_ends o failure4 s,
  connect_to_ends o success4 failure4 host (byte_at 2 s.socks_input * 256 + byte_at 3 s.socks_input)
      rest s,
)

domain4_stays :
    (o : Peers) (p : Option (Bytes × Bytes)) (s : Stream)
    → is_waiting (domain4 o p s) ≡ true
    → domain4 o p s ≡ s
unfolding domain4
domain4_stays o none s w = wait_for_more_stays s w
domain4_stays o (some (host, rest)) s w = ground (arith, connect4_ends o host rest s)

user4_stays :
    (o : Peers) (p : Option (Bytes × Bytes)) (s : Stream)
    → is_waiting (user4 o p s) ≡ true
    → user4 o p s ≡ s
unfolding user4
user4_stays o none s w = wait_for_more_stays s w
user4_stays o (some (user, rest)) s w =
    ground
      (arith, domain4_stays o (split_zero rest) s, connect4_ends o (dotted o s.socks_input) rest s)

pub read_socks4_stays :
    (o : Peers) (s : Stream) → is_waiting (read_socks4 o s) ≡ true → read_socks4 o s ≡ s
unfolding read_socks4
read_socks4_stays o s w = user4_stays o (split_zero (drop 8 s.socks_input)) s w

connect5_ends :
    (o : Peers) (end : ℕ) (host : Option Bytes) (s : Stream)
    → is_waiting (connect5 o end host s) ≡ false
unfolding connect5
connect5_ends o end none s = refuse_ends o (reply5 1) s
connect5_ends o end (some host) s =
    connect_to_ends o (reply5 0) (reply5 1) host
      (byte_at end s.socks_input * 256 + byte_at (end + 1) s.socks_input)
      (drop (end + 2) s.socks_input) s

address5_stays :
    (o : Peers) (end : Option ℕ) (s : Stream)
    → is_waiting (address5 o end s) ≡ true
    → address5 o end s ≡ s
unfolding address5
address5_stays o none s w = ground (arith, refuse_ends o (reply5 8) s)
address5_stays o (some end) s w =
    ground (arith, refuse_ends o (reply5 7) s, connect5_ends o end (host5 o s.socks_input) s)

request5_stays : (o : Peers) (s : Stream) → is_waiting (request5 o s) ≡ true → request5 o s ≡ s
unfolding request5
request5_stays o s w = ground (arith, address5_stays o (address_end s.socks_input) s)

-- More input, behind what is there.
abbrev pub more : Bytes → Stream → Stream
more bytes s = record s { socks_input = s.socks_input ++ bytes }

-- The client's side of what readSocks does to a greeting.
abbrev pub greet : Peers → Stream → Stream
greet o s = record (send_reply o (5 ∷ 0 ∷ []) s) {
  socks_input = drop (2 + byte_at 1 s.socks_input) s.socks_input;
  socks_greeted = true;
}

abbrev pub is_greeting : Bytes → Bool
is_greeting input =
    not (ltb (length input) 2 || ltb (length input) (2 + byte_at 1 input))
    && has_zero (take (byte_at 1 input) (drop 2 input))

-- Where the client has yet to be greeted, a greeting that is there is taken, and else it waits.
pub read_socks5-cases :
    (o : Peers) (s : Stream)
    → is_waiting (read_socks5 o s) ≡ true
    → (read_socks5 o s ≡ s)
      ⊎ ((s.socks_greeted ≡ false)
          × (is_greeting s.socks_input ≡ true)
          × (read_socks5 o s ≡ greet o s))
unfolding read_socks5
read_socks5-cases o s w = elim (Bool-cases s.socks_greeted) [
  | inl g ↦ inl (ground (arith, request5_stays o s))
  | inr g ↦ elim (Bool-cases (is_greeting s.socks_input)) [
    | inl h ↦ inr (g, h, ground (arith, request5_stays o (greet o s)))
    | inr h ↦ inl (ground (arith, refuse_ends o (5 ∷ 0xff ∷ []) s))
  ]
]

pub byte_at-append : (i : ℕ) (xs ys : Bytes) → i < length xs → byte_at i (xs ++ ys) ≡ byte_at i xs
byte_at-append i [] ys h = absurd (omega arith)
byte_at-append zero (x ∷ xs) ys h = refl
byte_at-append (suc i) (x ∷ xs) ys h = byte_at-append i xs ys (omega arith)

pub drop-append_le : (n : ℕ) (xs ys : Bytes) → n ≤ length xs → drop n (xs ++ ys) ≡ drop n xs ++ ys
drop-append_le zero xs ys h = refl
drop-append_le (suc n) [] ys h = absurd (omega arith)
drop-append_le (suc n) (x ∷ xs) ys h = drop-append_le n xs ys (omega arith)

take-append_le : (n : ℕ) (xs ys : Bytes) → n ≤ length xs → take n (xs ++ ys) ≡ take n xs
take-append_le zero xs ys h = refl
take-append_le (suc n) [] ys h = absurd (omega arith)
take-append_le (suc n) (x ∷ xs) ys h = ap (◌∷◌ x) (take-append_le n xs ys (omega arith))

-- A greeting is the same one with more behind it.
pub greeting-append :
    (xs ys : Bytes)
    → is_greeting xs ≡ true
    → (is_greeting (xs ++ ys) ≡ true)
      × (byte_at 1 (xs ++ ys) ≡ byte_at 1 xs)
      × (2 + byte_at 1 xs ≤ length xs)
greeting-append xs ys g =
    let n : 2 + byte_at 1 xs ≤ length xs = ground arith in
    let b : byte_at 1 (xs ++ ys) ≡ byte_at 1 xs = byte_at-append 1 xs ys (omega arith) in
    (
      ground (
        arith,
        b,
        drop-append_le 2 xs ys,
        take-append_le (byte_at 1 xs) (drop 2 xs) ys,
        length-drop 2 xs,
        length-append xs ys,
      ),
      b,
      n,
    )
