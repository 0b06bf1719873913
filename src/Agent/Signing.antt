-- ===== src/Agent/Signing.antt =====
-- What the agent answers to a request to sign, as a client writes it.
use longterm.Base.{
  ℕ, ◌<◌, ◌^◌, ◌≡◌, refl, sym, true, false, ◌&&◌, not, some, [], ◌∷◌, ◌++◌, ltb, arith, length,
  append_assoc, append-nil, length-append, take-append, drop-append, if◌then◌else◌, le→ltb,
  is_empty,
}
use longterm.Base.Words.{Bytes, to_big_endian, length-to_big_endian, from-to_big_endian}
use longterm.Agent.{
  Agent, append_uint32, append_string, read_uint32, read_string, read_sign_request, reply_sign,
  reply, sign, is_valid, same_bytes, agent_sign_request, agent_sign_response, agent_failure,
}

abbrev pub IsU32 : ℕ → Type 0
IsU32 n = n < 2 ^ 32

-- A string as it stands in a request.
abbrev string : Bytes → Bytes
string s = to_big_endian 4 (length s) ++ s

-- A request to sign, behind its first byte.
abbrev pub sign_request : Bytes → Bytes → ℕ → Bytes
sign_request blob text flags = append_uint32 (append_string (append_string [] blob) text) flags

read_uint32-word :
    (n : ℕ) (rest : Bytes) → IsU32 n → read_uint32 (to_big_endian 4 n ++ rest) ≡ some (n, rest)
unfolding read_uint32
read_uint32-word n rest h =
    let word = to_big_endian 4 n in
    let four : 4 ≡ length word = sym (length-to_big_endian 4 n) in
    let long : ltb (length (word ++ rest)) 4 ≡ false =
      le→ltb _ 4 (omega (arith, length-append word rest, four)) in
    rw
      (
        long,
        take-append 4 word rest four,
        drop-append 4 word rest four,
        from-to_big_endian 4 n (omega (arith, h)),
      )
      refl

read_string-string :
    (s rest : Bytes) → IsU32 (length s) → read_string (string s ++ rest) ≡ some (s, rest)
unfolding read_string
read_string-string s rest h =
    let whole : ltb (length (s ++ rest)) (length s) ≡ false =
      le→ltb _ _ (omega (arith, length-append s rest)) in
    rw
      (
        append_assoc (to_big_endian 4 (length s)) s rest,
        read_string,
        read_uint32-word (length s) (s ++ rest) h,
        whole,
        take-append (length s) s rest refl,
        drop-append (length s) s rest refl,
      )
      refl

read-sign_request :
    (blob text : Bytes) (flags : ℕ)
    → IsU32 (length blob)
    → IsU32 (length text)
    → IsU32 flags
    → read_sign_request (sign_request blob text flags) ≡ some (blob, text, flags)
unfolding read_sign_request append_uint32 append_string
read-sign_request blob text flags hb ht hf =
    let word = to_big_endian 4 flags in
    let parts : sign_request blob text flags ≡ string blob ++ (string text ++ (word ++ [])) =
      simp (append_assoc, append-nil) in
    rw
      (
        parts,
        read_sign_request,
        read_string-string blob (string text ++ (word ++ [])) hb,
        read_string-string text (word ++ []) ht,
        read_uint32-word flags [] hf,
      )
      refl

-- An agent with a key signs the data of a well-formed request where the request names its own key,
-- and the signature is not empty; it answers with a failure otherwise.
pub reply-sign_request :
    (a : Agent) (blob text : Bytes) (flags : ℕ)
    → is_valid a ≡ true
    → IsU32 (length blob)
    → IsU32 (length text)
    → IsU32 flags
    → reply a (agent_sign_request ∷ sign_request blob text flags) ≡ (
        if same_bytes blob a.public_key_blob && not (is_empty (sign a text flags))
        then append_string (agent_sign_response ∷ []) (sign a text flags)
        else agent_failure ∷ [])
unfolding reply reply_sign
reply-sign_request a blob text flags valid hb ht hf =
    rw (valid, reply_sign, read-sign_request blob text flags hb ht hf) refl
