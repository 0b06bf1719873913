-- ===== src/Agent.antt =====
-- src/sshagent.h and src/sshagent.cpp: the agent's side of the ssh-agent protocol.
pub mod Framing
pub mod Signing
use longterm.Base.{
  ℕ, zero, suc, ◌+◌, ◌/◌, ◌%◌, Bool, true, false, ◌&&◌, ◌||◌, not, Option, none, some, List, [],
  ◌∷◌, ◌++◌, ltb, leb, ◌==◌, if◌then◌else◌, length, take, drop, is_empty,
}
use longterm.Base.Words.{Bytes, to_big_endian, from_big_endian}

abbrev pub agent_failure : ℕ
agent_failure = 5

abbrev pub agent_request_identities : ℕ
agent_request_identities = 11

abbrev pub agent_identities_answer : ℕ
agent_identities_answer = 12

abbrev pub agent_sign_request : ℕ
agent_sign_request = 13

abbrev pub agent_sign_response : ℕ
agent_sign_response = 14

abbrev pub max_request_length : ℕ
max_request_length = 262144

-- QByteArray's `==`
abbrev pub same_bytes : Bytes → Bytes → Bool
same_bytes [] [] = true
same_bytes (x ∷ xs) (y ∷ ys) = (x == y) && same_bytes xs ys
same_bytes _ _ = false

pub append_uint32 : Bytes → ℕ → Bytes
append_uint32 out value = out ++ to_big_endian 4 value

pub append_string : Bytes → Bytes → Bytes
unfolding append_uint32
append_string out value = append_uint32 out (length value) ++ value

-- The readers give what they read and what is left of the input.
read_uint32 : Bytes → Option (ℕ × Bytes)
read_uint32 input =
    if ltb (length input) 4 then none else some (from_big_endian (take 4 input), drop 4 input)

abbrev take_string : ℕ → Bytes → Option (Bytes × Bytes)
take_string n input = if ltb (length input) n then none else some (take n input, drop n input)

read_string : Bytes → Option (Bytes × Bytes)
read_string input = elim (read_uint32 input) [ none ↦ none | some (n, rest) ↦ take_string n rest ]

pub data KeyType : Type 0 where
  ed25519 rsa ecdsa_p256 ecdsa_p384 ecdsa_p521 other : KeyType

pub data Digest : Type 0 where
  no_digest sha1 sha256 sha384 sha512 : Digest

-- OpenSSL: `digest_sign` gives the raw signature, empty on failure, and `signature_numbers` the
-- bytes of the two numbers of an ECDSA signature.
pub record Agent : Type 0 where
  pub has_private_key : Bool
  pub key_type : KeyType
  pub public_key_blob : Bytes
  pub digest_sign : Digest → Bytes → Bytes
  pub signature_numbers : Bytes → Option (Bytes × Bytes)

abbrev pub is_valid : Agent → Bool
is_valid a = a.has_private_key && not (is_empty a.public_key_blob)

-- A set top bit would read as negative.
mpint : Bytes → Bytes
mpint [] = []
mpint (b ∷ bs) = if b / 128 % 2 == 1 then 0 ∷ b ∷ bs else b ∷ bs

-- "ecdsa-sha2-nistp" and the curve's size
abbrev nistp : Bytes → Bytes
nistp size =
    101 ∷ 99 ∷ 100 ∷ 115 ∷ 97 ∷ 45 ∷ 115 ∷ 104 ∷ 97 ∷ 50 ∷ 45 ∷ 110 ∷ 105 ∷ 115 ∷ 116 ∷ 112 ∷ size

-- The digest and the name of the algorithm; `&` on the flags is written as arithmetic.
algorithm_of : KeyType → ℕ → Option (Digest × Bytes)
algorithm_of ed25519 flags =
    some (no_digest, 115 ∷ 115 ∷ 104 ∷ 45 ∷ 101 ∷ 100 ∷ 50 ∷ 53 ∷ 53 ∷ 49 ∷ 57 ∷ [])
algorithm_of rsa flags =
    if flags / 4 % 2 == 1
    then some (sha512, 114 ∷ 115 ∷ 97 ∷ 45 ∷ 115 ∷ 104 ∷ 97 ∷ 50 ∷ 45 ∷ 53 ∷ 49 ∷ 50 ∷ [])
    else if flags / 2 % 2 == 1
    then some (sha256, 114 ∷ 115 ∷ 97 ∷ 45 ∷ 115 ∷ 104 ∷ 97 ∷ 50 ∷ 45 ∷ 50 ∷ 53 ∷ 54 ∷ [])
    else some (sha1, 115 ∷ 115 ∷ 104 ∷ 45 ∷ 114 ∷ 115 ∷ 97 ∷ [])
algorithm_of ecdsa_p256 flags = some (sha256, nistp (50 ∷ 53 ∷ 54 ∷ []))
algorithm_of ecdsa_p384 flags = some (sha384, nistp (51 ∷ 56 ∷ 52 ∷ []))
algorithm_of ecdsa_p521 flags = some (sha512, nistp (53 ∷ 50 ∷ 49 ∷ []))
algorithm_of other flags = none

abbrev is_ecdsa : KeyType → Bool
is_ecdsa ecdsa_p256 = true
is_ecdsa ecdsa_p384 = true
is_ecdsa ecdsa_p521 = true
is_ecdsa _ = false

-- OpenSSL gives ECDSA signatures as DER, SSH wants the two numbers.
ssh_signature : Agent → Bytes → Option Bytes
ssh_signature a raw =
    if is_ecdsa a.key_type
    then elim (a.signature_numbers raw) [
      | none ↦ none
      | some (r, s) ↦ some (append_string (append_string [] (mpint r)) (mpint s))
    ]
    else some raw

-- The empty signature stands for a failure.
pub sign : Agent → Bytes → ℕ → Bytes
sign a data' flags = elim (algorithm_of a.key_type flags) [
  | none ↦ []
  | some (digest, algorithm) ↦
      let raw = a.digest_sign digest data' in
      if is_empty raw then [] else elim (ssh_signature a raw) [
        | none ↦ []
        | some signature ↦ append_string (append_string [] algorithm) signature
      ]
]

-- The key, the data and the flags of a request to sign, behind its first byte.
read_sign_request : Bytes → Option (Bytes × Bytes × ℕ)
read_sign_request request = elim (read_string request) [
  | none ↦ none
  | some (key_blob, rest) ↦ elim (read_string rest) [
    | none ↦ none
    | some (data', rest') ↦ elim (read_uint32 rest') [
      | none ↦ none
      | some (flags, _) ↦ some (key_blob, data', flags)
    ]
  ]
]

reply_sign : Agent → Bytes → Bytes
reply_sign a request = elim (read_sign_request request) [
  | none ↦ agent_failure ∷ []
  | some (key_blob, data', flags) ↦
      let signature = sign a data' flags in
      if same_bytes key_blob a.public_key_blob && not (is_empty signature)
      then append_string (agent_sign_response ∷ []) signature
      else agent_failure ∷ []
]

pub reply : Agent → Bytes → Bytes
reply a [] = agent_failure ∷ []
reply a (kind ∷ request) =
    if not (is_valid a)
    then agent_failure ∷ []
    else if kind == agent_request_identities
    then append_string
        (append_string (append_uint32 (agent_identities_answer ∷ []) 1) a.public_key_blob)
        (108 ∷ 111 ∷ 110 ∷ 103 ∷ 116 ∷ 101 ∷ 114 ∷ 109 ∷ [])
    else if kind == agent_sign_request
    then reply_sign a request
    else agent_failure ∷ []

-- The replies to the complete requests at the start of the input, and what is left of it. Each
-- round takes four bytes at least.
process_loop : ℕ → Agent → Bytes → Bytes → Bytes × Bytes
process_loop zero a replies input = (replies, input)
process_loop (suc rounds) a replies input =
    let n = from_big_endian (take 4 input) in
    let rest = drop 4 input in
    let next =
      process_loop rounds a (append_string replies (reply a (take n rest))) (drop n rest) in
    if ltb (length input) 4
    then (replies, input)
    else if ltb max_request_length n
    then (replies, [])
    else if ltb (length rest) n
    then (replies, input)
    else next

pub process : Agent → Bytes → Bytes × Bytes
process a input = process_loop (suc (length input)) a [] input
