-- ===== src/Agent/Framing.antt =====
-- `process` answers every complete request of a stream, in order, and keeps what is incomplete.
use longterm.Base.{
  ℕ, zero, suc, ◌≤◌, ◌≡◌, refl, sym, ap, ◌∙◌, Bool, true, false, ◌&&◌, ◌||◌, List, [], ◌∷◌, ◌++◌,
  ltb, leb, arith, length, take, drop, All, append_assoc, append-nil, length-append, take-append,
  drop-append, le→ltb,
}
use longterm.Base.Words.{
  Bytes, to_big_endian, from_big_endian, length-to_big_endian, from-to_big_endian,
}
use longterm.Agent.{
  Agent, append_uint32, append_string, reply, process_loop, process, max_request_length,
}

-- Requests as a client writes them.
abbrev pub frames : List Bytes → Bytes
frames [] = []
frames (r ∷ rs) = to_big_endian 4 (length r) ++ (r ++ frames rs)

-- The answers to them.
abbrev pub answers : Agent → List Bytes → Bytes
answers a [] = []
answers a (r ∷ rs) = append_string [] (reply a r) ++ answers a rs

-- What is not a request yet: too short for its length, or for what its length says.
abbrev pub is_partial : Bytes → Bool
is_partial tail =
    ltb (length tail) 4
    || (leb (from_big_endian (take 4 tail)) max_request_length
        && ltb (length (drop 4 tail)) (from_big_endian (take 4 tail)))

abbrev pub IsAllowed : Bytes → Type 0
IsAllowed r = length r ≤ max_request_length

process_loop-partial :
    (n : ℕ) (a : Agent) (replies tail : Bytes)
    → is_partial tail ≡ true
    → process_loop n a replies tail ≡ (replies, tail)
unfolding process_loop
process_loop-partial zero a replies tail h = refl
process_loop-partial (suc n) a replies tail h = ground (arith, h)

process_loop-frame :
    (n : ℕ) (a : Agent) (replies r rest : Bytes)
    → IsAllowed r
    → process_loop (suc n) a replies (to_big_endian 4 (length r) ++ (r ++ rest))
      ≡ process_loop n a (append_string replies (reply a r)) rest
unfolding process_loop
process_loop-frame n a replies r rest h =
    let word = to_big_endian 4 (length r) in
    let four : 4 ≡ length word = sym (length-to_big_endian 4 (length r)) in
    let taken : take 4 (word ++ (r ++ rest)) ≡ word = take-append 4 word (r ++ rest) four in
    let left : drop 4 (word ++ (r ++ rest)) ≡ r ++ rest = drop-append 4 word (r ++ rest) four in
    let size : from_big_endian word ≡ length r =
      from-to_big_endian 4 (length r) (omega (arith, h)) in
    let long : ltb (length (word ++ (r ++ rest))) 4 ≡ false =
      le→ltb _ 4 (omega (arith, length-append word (r ++ rest), four)) in
    let small : ltb max_request_length (length r) ≡ false = le→ltb _ _ h in
    let whole : ltb (length (r ++ rest)) (length r) ≡ false =
      le→ltb _ _ (omega (arith, length-append r rest)) in
    rw
      (
        taken,
        left,
        size,
        long,
        small,
        whole,
        take-append (length r) r rest refl,
        drop-append (length r) r rest refl,
      )
      refl

append_string-append : (out value : Bytes) → append_string out value ≡ out ++ append_string [] value
unfolding append_string append_uint32
append_string-append out value = append_assoc out (to_big_endian 4 (length value)) value

process_loop-frames :
    (rs : List Bytes) (n : ℕ) (a : Agent) (replies tail : Bytes)
    → All IsAllowed rs
    → is_partial tail ≡ true
    → length rs ≤ n
    → process_loop n a replies (frames rs ++ tail) ≡ (replies ++ answers a rs, tail)
process_loop-frames [] n a replies tail all p h =
    process_loop-partial n a replies tail p
    ∙ ap (λ (o : Bytes). (o, tail)) (sym (append-nil replies))
process_loop-frames (r ∷ rs) zero a replies tail all p h = absurd (omega arith)
process_loop-frames (r ∷ rs) (suc n) a replies tail (ok, all) p h =
    ap (process_loop (suc n) a replies) (
      append_assoc (to_big_endian 4 (length r)) (r ++ frames rs) tail
      ∙ ap (◌++◌ (to_big_endian 4 (length r))) (append_assoc r (frames rs) tail))
    ∙ process_loop-frame n a replies r (frames rs ++ tail) ok
    ∙ process_loop-frames rs n a (append_string replies (reply a r)) tail all p (omega arith)
    ∙ ap (λ (o : Bytes). (o, tail))
        (ap (λ (o : Bytes). o ++ answers a rs) (append_string-append replies (reply a r))
          ∙ append_assoc replies (append_string [] (reply a r)) (answers a rs))

length-frames : (rs : List Bytes) → length rs ≤ length (frames rs)
length-frames [] = omega arith
length-frames (r ∷ rs) = omega (
  arith,
  length-append (to_big_endian 4 (length r)) (r ++ frames rs),
  length-append r (frames rs),
  length-to_big_endian 4 (length r),
  length-frames rs,
)

-- A stream of requests of at most MaxRequestLength bytes each, with an incomplete one behind them,
-- gives the reply to every request, in order, and leaves the incomplete one.
pub process-frames :
    (a : Agent) (rs : List Bytes) (tail : Bytes)
    → All IsAllowed rs
    → is_partial tail ≡ true
    → process a (frames rs ++ tail) ≡ (answers a rs, tail)
unfolding process
process-frames a rs tail all p =
    process_loop-frames rs (suc (length (frames rs ++ tail))) a [] tail all p
      (omega (arith, length-append (frames rs) tail, length-frames rs))
