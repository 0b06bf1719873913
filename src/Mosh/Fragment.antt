-- ===== src/Mosh/Fragment.antt =====
-- src/moshclient.cpp: the fragments of `sendInstruction` and their reassembly in `receiveFragment`.
-- The payload is what zlib makes of an instruction, and any bytes here.
pub mod Codec
pub mod Agree
pub mod Safety
pub mod InOrder
pub mod Send
use Prim.Native.Nat.{bit_or}
use longterm.Base.{
  ℕ, zero, suc, ◌+◌, ◌-◌, ◌/◌, ◌%◌, ◌^◌, Bool, true, false, Option, none, some, List, [], ◌∷◌, ◌++◌,
  ltb, leb, ◌==◌, if◌then◌else◌, length, take, drop, replicate, get_elem?, set, is_empty,
}
use longterm.Base.Words.{Bytes, to_big_endian, from_big_endian}

abbrev pub fragment_header : ℕ
fragment_header = 10

-- MaxDatagram - 8 - 4 - 16 - FragmentHeader
abbrev pub fragment_payload : ℕ
fragment_payload = 1200 - 8 - 4 - 16 - fragment_header

abbrev pub max_fragments : ℕ
max_fragments = 8192

-- The id, then the final bit and the number, then the part.
pub fragment : ℕ → ℕ → Bool → Bytes → Bytes
fragment id number final part =
    to_big_endian 8 id ++ (to_big_endian 2 (bit_or (if final then 32768 else 0) number) ++ part)

-- The loop `do … while (!payload.isEmpty() && number < 0x7fff)`, by the rounds that are left.
pub fragment_loop : ℕ → ℕ → ℕ → Bytes → List Bytes
fragment_loop zero id number payload = []
fragment_loop (suc rounds) id number payload =
    let part = take fragment_payload payload in
    let rest = drop fragment_payload payload in
    fragment id number (is_empty rest) part
    ∷ elim (is_empty rest) [ true ↦ [] | false ↦ fragment_loop rounds id (number + 1) rest ]

pub send_fragments : ℕ → Bytes → List Bytes
send_fragments id payload = fragment_loop 0x7fff id 0 payload

-- `total` is `m_fragmentsTotal`, with `none` for -1.
pub record Assembly : Type 0 where
  pub id : ℕ
  pub parts : List Bytes
  pub arrived : List Bool
  pub count : ℕ
  pub total : Option ℕ

abbrev pub no_assembly : Assembly
no_assembly = record { id = 2 ^ 64 - 1; parts = []; arrived = []; count = 0; total = none }

-- QVector::resize
pub resize {ℓ} : {A : Type ℓ} → ℕ → A → List A → List A
resize n a xs = take n xs ++ replicate (n - length xs) a

pub count_true : List Bool → ℕ
count_true [] = 0
count_true (true ∷ bs) = suc (count_true bs)
count_true (false ∷ bs) = count_true bs

-- Fragments of another id start over.
pub select : Assembly → ℕ → ℕ → Assembly
select a id number = if id == a.id then a else record {
  id = id;
  parts = replicate (number + 1) [];
  arrived = replicate (number + 1) false;
  count = 0;
  total = none;
}

pub make_room : Assembly → ℕ → Assembly
make_room a number =
    if ltb (length a.parts) (number + 1)
    then record a {
      parts = resize (number + 1) [] a.parts;
      arrived = resize (number + 1) false a.arrived;
    }
    else a

pub place : Assembly → ℕ → Bytes → Assembly
place a number part = elim (get_elem? a.arrived number) [
  | some true ↦ a
  | _ ↦ record a {
    parts = set a.parts number part;
    arrived = set a.arrived number true;
    count = a.count + 1;
  }
]

pub close : Assembly → ℕ → Bool → Assembly
close a number false = a
close a number true = record a {
  parts = resize (number + 1) [] a.parts;
  arrived = resize (number + 1) false a.arrived;
  count = count_true (resize (number + 1) false a.arrived);
  total = some (number + 1);
}

pub concat : List Bytes → Bytes
concat [] = []
concat (p ∷ ps) = p ++ concat ps

pub is_complete : Assembly → Bool
is_complete a = elim a.total [ none ↦ false | some n ↦ a.count == n ]

-- The payload, once the fragment completes it.
pub finish : Assembly → Assembly × Option Bytes
finish a =
    if is_complete a
    then (
      record { id = a.id; parts = []; arrived = []; count = 0; total = none },
      some (concat a.parts),
    )
    else (a, none)

pub accept : Assembly → ℕ → ℕ → Bool → Bytes → Assembly × Option Bytes
accept a id number final part =
    if leb max_fragments number
    then (a, none)
    else finish (close (place (make_room (select a id number) number) number part) number final)

pub receive_fragment : Assembly → Bytes → Assembly × Option Bytes
receive_fragment a f =
    let id = from_big_endian (take 8 f) in
    let combined = from_big_endian (take 2 (drop 8 f)) in
    if ltb (length f) fragment_header
    then (a, none)
    else accept a id (combined % 32768) (combined / 32768 % 2 == 1) (drop fragment_header f)

pub collect : Option Bytes → List Bytes → List Bytes
collect none later = later
collect (some payload) later = payload ∷ later

-- The payloads that come out of fragments received one after the other.
pub deliver : Assembly → List Bytes → List Bytes
unfolding collect
deliver a [] = []
deliver a (f ∷ fs) = collect (receive_fragment a f).1 (deliver (receive_fragment a f).0 fs)
