-- ===== src/Mosh/Fragment/Send.antt =====
-- `sendInstruction` cuts a payload into parts that are it again, and marks the last of them.
use longterm.Base.{
  ℕ, zero, suc, ◌+◌, ◌*◌, ◌≤◌, ◌<◌, ◌^◌, ◌≡◌, inl, inr, refl, sym, ap, ◌∙◌, true, false, List, [],
  ◌∷◌, ◌++◌, arith, ◌==◌, length, take, drop, is_empty, Bool-cases, length-drop, take-append-drop,
}
use longterm.Base.Words.{Bytes}
use longterm.Mosh.Fragment.{
  Assembly, max_fragments, fragment_payload, fragment, fragment_loop, send_fragments, concat,
  deliver,
}
use longterm.Mosh.Fragment.InOrder.{marked, deliver_all}

-- What a payload is cut into.
chunks : ℕ → Bytes → List Bytes
chunks zero payload = []
chunks (suc rounds) payload =
    take fragment_payload payload ∷ elim (is_empty (drop fragment_payload payload)) [
      | true ↦ []
      | false ↦ chunks rounds (drop fragment_payload payload)
    ]

is_empty-nil : (xs : Bytes) → is_empty xs ≡ true → xs ≡ []
is_empty-nil [] e = refl
is_empty-nil (x ∷ xs) e = cc

is_empty-pos : (xs : Bytes) → is_empty xs ≡ false → 0 < length xs
is_empty-pos [] e = cc
is_empty-pos (x ∷ xs) e = omega arith

module _ (rounds : ℕ) (payload : Bytes) (h : length payload ≤ suc rounds * fragment_payload) where
  rest-le : length (drop fragment_payload payload) ≤ rounds * fragment_payload
  rest-le = omega (arith, length-drop fragment_payload payload)

whole_part :
    (payload : Bytes)
    → is_empty (drop fragment_payload payload) ≡ true
    → take fragment_payload payload ++ [] ≡ payload
whole_part payload e =
    ap (◌++◌ (take fragment_payload payload)) (sym (is_empty-nil _ e))
    ∙ take-append-drop fragment_payload payload

concat-chunks :
    (rounds : ℕ) (payload : Bytes)
    → length payload ≤ suc rounds * fragment_payload
    → concat (chunks (suc rounds) payload) ≡ payload
unfolding chunks concat
concat-chunks zero payload h = elim (Bool-cases (is_empty (drop fragment_payload payload))) [
  | inl e ↦ rw (e, chunks) (whole_part payload e)
  | inr e ↦ absurd (omega (arith, rest-le 0 payload h, is_empty-pos _ e))
]
concat-chunks (suc rounds) payload h =
    elim (Bool-cases (is_empty (drop fragment_payload payload))) [
      | inl e ↦ rw (e, chunks) (whole_part payload e)
      | inr e ↦
          rw (e, chunks)
            (ap (◌++◌ (take fragment_payload payload)) (
                concat-chunks rounds (drop fragment_payload payload)
                  (rest-le (suc rounds) payload h))
              ∙ take-append-drop fragment_payload payload)
    ]

fragment_loop-chunks :
    (rounds id number : ℕ) (payload : Bytes)
    → length payload ≤ suc rounds * fragment_payload
    → fragment_loop (suc rounds) id number payload ≡ marked id number (chunks (suc rounds) payload)
unfolding fragment_loop chunks
fragment_loop-chunks zero id number payload h =
    elim (Bool-cases (is_empty (drop fragment_payload payload))) [
      | inl e ↦ rw (e, fragment_loop, chunks)
      | inr e ↦ absurd (omega (arith, rest-le 0 payload h, is_empty-pos _ e))
    ]
fragment_loop-chunks (suc rounds) id number payload h =
    elim (Bool-cases (is_empty (drop fragment_payload payload))) [
      | inl e ↦ rw (e, fragment_loop, chunks)
      | inr e ↦
          rw (e, fragment_loop, chunks)
            (ap (◌∷◌ (fragment id number false (take fragment_payload payload))) (
              fragment_loop-chunks rounds id (number + 1) (drop fragment_payload payload)
                (rest-le (suc rounds) payload h)))
    ]

length-chunks :
    (rounds k : ℕ) (payload : Bytes)
    → length payload ≤ suc k * fragment_payload
    → length (chunks rounds payload) ≤ suc k
unfolding chunks
length-chunks zero k payload h = omega arith
length-chunks (suc rounds) zero payload h =
    elim (Bool-cases (is_empty (drop fragment_payload payload))) [
      | inl e ↦ rw (e, chunks) (omega arith)
      | inr e ↦ absurd (omega (arith, rest-le 0 payload h, is_empty-pos _ e))
    ]
length-chunks (suc rounds) (suc k) payload h =
    elim (Bool-cases (is_empty (drop fragment_payload payload))) [
      | inl e ↦ rw (e, chunks) (omega arith)
      | inr e ↦
          rw (e, chunks)
            (omega (
              arith,
              length-chunks rounds k (drop fragment_payload payload) (rest-le (suc k) payload h),
            ))
    ]

chunks-pos : (rounds : ℕ) (payload : Bytes) → 0 < length (chunks (suc rounds) payload)
unfolding chunks
chunks-pos rounds payload = omega arith

-- The rounds are a variable, so that nothing runs through all of them.
deliver_loop :
    (rounds id : ℕ) (a : Assembly) (payload : Bytes)
    → id < 2 ^ 64
    → (id == a.id) ≡ false
    → max_fragments ≤ suc rounds
    → length payload ≤ max_fragments * fragment_payload
    → deliver a (fragment_loop (suc rounds) id 0 payload) ≡ payload ∷ []
deliver_loop rounds id a payload hi e hr h =
    let fits : length payload ≤ suc rounds * fragment_payload = omega arith in
    rw (fragment_loop-chunks rounds id 0 payload fits) (
      deliver_all id hi a (chunks (suc rounds) payload) e (chunks-pos rounds payload)
        (length-chunks (suc rounds) 8191 payload h)
      ∙ ap (λ (l : Bytes). l ∷ []) (concat-chunks rounds payload fits))

-- A client that is not in the middle of the same id gets a payload of at most MaxFragments parts
-- from the fragments that `sendInstruction` cuts it into, once and unchanged.
pub deliver-send_fragments :
    (id : ℕ) (a : Assembly) (payload : Bytes)
    → id < 2 ^ 64
    → (id == a.id) ≡ false
    → length payload ≤ max_fragments * fragment_payload
    → deliver a (send_fragments id payload) ≡ payload ∷ []
unfolding send_fragments
deliver-send_fragments id a payload hi e h = deliver_loop 0x7ffe id a payload hi e (omega arith) h
