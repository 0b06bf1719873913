-- ===== src/Mosh/Fragment/Codec.antt =====
-- The header of a fragment is read back as it was written.
use Prim.Native.Nat.{bit_or}
use longterm.Base.{
  ℕ, ◌+◌, ◌/◌, ◌%◌, ◌^◌, ◌<◌, ◌≤◌, ◌≡◌, sym, Bool, true, false, ◌++◌, arith, le→ltb, ◌==◌,
  if◌then◌else◌, length, take, drop, take-append, drop-append, length-append, append_assoc,
}
use longterm.Base.Bits.{bit_or_high}
use longterm.Base.Words.{Bytes, to_big_endian, length-to_big_endian, from-to_big_endian}
use longterm.Mosh.Fragment.{Assembly, fragment, accept, receive_fragment}

abbrev flag : Bool → ℕ
flag final = if final then 32768 else 0

flagged :
    (number : ℕ) (final : Bool) → number < 32768 → bit_or (flag final) number ≡ flag final + number
flagged number true h = bit_or_high 15 1 number h
flagged number false h = bit_or_high 15 0 number h

flag-lt : {number : ℕ} (final : Bool) → number < 32768 → flag final + number < 65536
flag-lt true h = omega arith
flag-lt false h = omega arith

flag_number : (number : ℕ) (final : Bool) → number < 32768 → (flag final + number) % 32768 ≡ number
flag_number number true h = omega arith
flag_number number false h = omega arith

flag_final :
    (number : ℕ) (final : Bool) → number < 32768 → ((flag final + number) / 32768 % 2 == 1) ≡ final
flag_final number true h = ground arith
flag_final number false h = ground arith

module _ (id word : ℕ) (part : Bytes) where
  abbrev written : Bytes
  written = to_big_endian 8 id ++ (to_big_endian 2 word ++ part)

  id_part : take 8 written ≡ to_big_endian 8 id
  id_part = take-append 8 (to_big_endian 8 id) _ (omega (arith, length-to_big_endian 8 id))

  after_id : drop 8 written ≡ to_big_endian 2 word ++ part
  after_id = drop-append 8 (to_big_endian 8 id) _ (omega (arith, length-to_big_endian 8 id))

  word_part : take 2 (drop 8 written) ≡ to_big_endian 2 word
  word_part =
      rw after_id
        (take-append 2 (to_big_endian 2 word) part (omega (arith, length-to_big_endian 2 word)))

  header_length : length (to_big_endian 8 id ++ to_big_endian 2 word) ≡ 10
  header_length = omega (
    arith,
    length-append (to_big_endian 8 id) (to_big_endian 2 word),
    length-to_big_endian 8 id,
    length-to_big_endian 2 word,
  )

  body_part : drop 10 written ≡ part
  body_part =
      rw (← append_assoc (to_big_endian 8 id) (to_big_endian 2 word) part)
        (drop-append 10 (to_big_endian 8 id ++ to_big_endian 2 word) part (sym header_length))

  written-le : 10 ≤ length written
  written-le = rw (← append_assoc (to_big_endian 8 id) (to_big_endian 2 word) part) (
      omega (arith, header_length, length-append (to_big_endian 8 id ++ to_big_endian 2 word) part))

-- A fragment that was written reaches the assembly with its id, number, final bit and part.
pub receive_fragment-fragment :
    (a : Assembly) (id number : ℕ) (final : Bool) (part : Bytes)
    → id < 2 ^ 64
    → number < 32768
    → receive_fragment a (fragment id number final part) ≡ accept a id number final part
unfolding receive_fragment fragment
receive_fragment-fragment a id number final part hi hn = rw (flagged number final hn) (
    decoded (flag final + number) (flag-lt final hn) (flag_number number final hn)
      (flag_final number final hn))
  where
    decoded :
        (word : ℕ)
        → word < 65536
        → word % 32768 ≡ number
        → (word / 32768 % 2 == 1) ≡ final
        → receive_fragment a (written id word part) ≡ accept a id number final part
    decoded word hw hm hf = rw (
      id_part id word part,
      word_part id word part,
      body_part id word part,
      from-to_big_endian 8 id hi,
      from-to_big_endian 2 word hw,
      hm,
      hf,
      le→ltb (length (written id word part)) 10 (written-le id word part),
    )
