-- ===== src/Mosh/Proto/Loop.antt =====
-- The readers never move backwards, and `while (reader.next(…))` ends by its own test.
use longterm.Base.{
  ℕ, zero, suc, ◌+◌, ◌≤◌, ◌<◌, ◌≡◌, refl, sym, ap, ◌∙◌, inl, inr, Bool, true, false, Option, none,
  some, [], ◌∷◌, arith, length, length-drop, Option-cases,
}
use longterm.Base.Words.{Bytes}
use longterm.Mosh.Proto.{
  Reader, add_group, varint_loop, varint, fail, bytes, advance, skip, next_key, next_from, next,
  each_field, while_next,
}

varint_loop-le :
    (rest : Bytes) (ok : Bool) (shift value : ℕ)
    → length (varint_loop rest ok shift value).after.rest ≤ length rest
unfolding varint_loop
varint_loop-le [] ok shift value = omega arith
varint_loop-le (b ∷ rest) ok shift value =
    ground (arith, varint_loop-le rest ok (shift + 7) (add_group value b shift))

-- A read that is successful takes a byte at least.
varint_loop-lt :
    (rest : Bytes) (ok : Bool) (shift value : ℕ)
    → (varint_loop rest ok shift value).read ≡ true
    → length (varint_loop rest ok shift value).after.rest < length rest
unfolding varint_loop
varint_loop-lt [] ok shift value h = ground arith
varint_loop-lt (b ∷ rest) ok shift value h =
    ground (arith, varint_loop-le rest ok (shift + 7) (add_group value b shift))

pub varint-le : (r : Reader) → length (varint r).after.rest ≤ length r.rest
unfolding varint
varint-le r = varint_loop-le r.rest r.ok 0 0

varint-lt : (r : Reader) → (varint r).read ≡ true → length (varint r).after.rest < length r.rest
unfolding varint
varint-lt r = varint_loop-lt r.rest r.ok 0 0

pub bytes-le : (r : Reader) → length (bytes r).1.rest ≤ length r.rest
unfolding bytes fail
bytes-le r = ground (arith, varint-le r, length-drop (varint r).value (varint r).after.rest)

pub advance-le : (count : ℕ) (r : Reader) → length (advance count r).rest ≤ length r.rest
unfolding advance fail
advance-le count r = ground (arith, length-drop count r.rest)

pub skip-le : (wire_type : ℕ) (r : Reader) → length (skip wire_type r).rest ≤ length r.rest
unfolding skip fail
skip-le w r = ground (arith, varint-le r, bytes-le r, advance-le 8 r, advance-le 4 r)

next_from-lt :
    (r : Reader) (ok : Bool) (rest : Bytes) {fw : ℕ × ℕ}
    → (next_from r ok rest).0 ≡ some fw
    → length (next_from r ok rest).1.rest < length r.rest
unfolding next_from next_key fail
next_from-lt r false rest h = ground arith
next_from-lt r true [] h = ground arith
next_from-lt r true (b ∷ rest) h = ground (arith, varint-lt r)

pub next-lt :
    (r : Reader) {fw : ℕ × ℕ} → (next r).0 ≡ some fw → length (next r).1.rest < length r.rest
unfolding next
next-lt r h = next_from-lt r r.ok r.rest h

next_from_stays :
    (r : Reader) (ok : Bool) (rest : Bytes)
    → r.ok ≡ ok
    → r.rest ≡ rest
    → (next_from r ok rest).0 ≡ none
    → (next (next_from r ok rest).1).0 ≡ none
unfolding next next_from next_key fail
next_from_stays r false rest e f h = rw (e, next_from)
next_from_stays r true [] e f h = rw (e, f, next_from)
next_from_stays r true (b ∷ rest) e f h = ground arith

-- A reader that has answered `false` goes on to.
next_stays : (r : Reader) → (next r).0 ≡ none → (next (next r).1).0 ≡ none
unfolding next
next_stays r h = next_from_stays r r.ok r.rest refl refl h

next_from-le :
    (r : Reader) (ok : Bool) (rest : Bytes) → length (next_from r ok rest).1.rest ≤ length r.rest
unfolding next_from next_key fail
next_from-le r false rest = omega arith
next_from-le r true [] = omega arith
next_from-le r true (b ∷ rest) = ground (arith, varint-le r)

next-le : (r : Reader) → length (next r).1.rest ≤ length r.rest
unfolding next
next-le r = next_from-le r r.ok r.rest

-- A loop's body that does not move its reader backwards.
abbrev pub Forward {ℓ} : {S : Type ℓ} → (ℕ → ℕ → Reader → S → Reader × S) → Type ℓ
Forward {S} body =
    (field wire_type : ℕ) (r : Reader) (s : S)
    → length (body field wire_type r s).0.rest ≤ length r.rest

module _ {ℓ} {S : Type ℓ} (body : ℕ → ℕ → Reader → S → Reader × S) (forward : Forward body) where
  each_field_end :
      (fuel : ℕ) (r : Reader) (s : S)
      → (next r).0 ≡ none
      → each_field body (suc fuel) r s ≡ ((next r).1, s)
  unfolding each_field
  each_field_end fuel r s e = rw (e, each_field)

  each_field_step :
      (fuel : ℕ) (r : Reader) (s : S) {field wire_type : ℕ}
      → (next r).0 ≡ some (field, wire_type)
      → each_field body (suc fuel) r s
        ≡ each_field body fuel
            (body field wire_type (next r).1 s).0
            (body field wire_type (next r).1 s).1
  unfolding each_field
  each_field_step fuel r s e = rw (e, each_field)

  shorter :
      (r : Reader) (s : S) (field wire_type : ℕ)
      → (next r).0 ≡ some (field, wire_type)
      → length (body field wire_type (next r).1 s).0.rest < length r.rest
  shorter r s field wire_type e = omega (arith, next-lt r e, forward field wire_type (next r).1 s)

  each_field_fuel :
      (n m : ℕ) (r : Reader) (s : S)
      → length r.rest < n
      → length r.rest < m
      → each_field body n r s ≡ each_field body m r s
  each_field_fuel zero m r s p q = absurd (omega arith)
  each_field_fuel (suc n) zero r s p q = absurd (omega arith)
  each_field_fuel (suc n) (suc m) r s p q = elim (Option-cases (next r).0) [
    | inl e ↦ each_field_end n r s e ∙ sym (each_field_end m r s e)
    | inr ((f, w), e) ↦
        each_field_step n r s e
        ∙ each_field_fuel n m (body f w (next r).1 s).0 (body f w (next r).1 s).1
            (omega (arith, shorter r s f w e)) (omega (arith, shorter r s f w e))
        ∙ sym (each_field_step m r s e)
  ]

  pub while_next_end :
      (r : Reader) (s : S) → (next r).0 ≡ none → while_next body r s ≡ ((next r).1, s)
  unfolding while_next
  while_next_end r s e = each_field_end (length r.rest) r s e

  pub while_next_step :
      (r : Reader) (s : S) {field wire_type : ℕ}
      → (next r).0 ≡ some (field, wire_type)
      → while_next body r s
        ≡ while_next body
            (body field wire_type (next r).1 s).0
            (body field wire_type (next r).1 s).1
  unfolding while_next
  while_next_step r s {field} {wire_type} e =
      each_field_step (length r.rest) r s e
      ∙ each_field_fuel (length r.rest) _ _ _ (shorter r s field wire_type e) (omega arith)

  -- One round, where what `next` gives is known.
  pub while_next_round :
      (r : Reader) (s : S) (field wire_type : ℕ) (r' : Reader) (after : Reader × S)
      → next r ≡ (some (field, wire_type), r')
      → body field wire_type r' s ≡ after
      → while_next body r s ≡ while_next body after.0 after.1
  while_next_round r s field wire_type r' after e f =
      while_next_step r s (ap (λ t. t.0) e)
      ∙ ap
          (λ (t : Option (ℕ × ℕ) × Reader).
            while_next body (body field wire_type t.1 s).0 (body field wire_type t.1 s).1)
          e
      ∙ ap (λ (t : Reader × S). while_next body t.0 t.1) f

  pub while_next_done :
      (ok : Bool) (s : S)
      → while_next body (record { rest = []; ok = ok }) s ≡ (record { rest = []; ok = ok }, s)
  unfolding while_next each_field next next_from
  while_next_done true s = refl
  while_next_done false s = refl

  each_field_exit :
      (n : ℕ) (r : Reader) (s : S) → length r.rest < n → (next (each_field body n r s).0).0 ≡ none
  each_field_exit zero r s p = absurd (omega arith)
  each_field_exit (suc n) r s p = elim (Option-cases (next r).0) [
    | inl e ↦ rw (each_field_end n r s e) (next_stays r e)
    | inr ((f, w), e) ↦ rw (each_field_step n r s e) (
        each_field_exit n (body f w (next r).1 s).0 (body f w (next r).1 s).1
          (omega (arith, shorter r s f w e)))
  ]

  -- A loop with a body that does not move backwards ends where `next` says that nothing is left.
  pub while_next_exit : (r : Reader) (s : S) → (next (while_next body r s).0).0 ≡ none
  unfolding while_next
  while_next_exit r s = each_field_exit (suc (length r.rest)) r s (omega arith)

  each_field-le :
      (n : ℕ) (r : Reader) (s : S) → length (each_field body n r s).0.rest ≤ length r.rest
  each_field-le zero r s = unfold each_field in omega arith
  each_field-le (suc n) r s = elim (Option-cases (next r).0) [
    | inl e ↦ rw (each_field_end n r s e) (next-le r)
    | inr ((f, w), e) ↦ rw (each_field_step n r s e) (
        omega (
          arith,
          shorter r s f w e,
          each_field-le n (body f w (next r).1 s).0 (body f w (next r).1 s).1,
        ))
  ]

  pub while_next-le : (r : Reader) (s : S) → length (while_next body r s).0.rest ≤ length r.rest
  unfolding while_next
  while_next-le r s = each_field-le (suc (length r.rest)) r s
