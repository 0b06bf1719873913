-- ===== src/Mosh/Proto/Field.antt =====
-- Fields written by `putUint` and `putBytes`, read by `next`, `varint` and `bytes`.
use Prim.Native.Nat.{bit_or}
use longterm.Base.{
  ℕ, ◌+◌, ◌*◌, ◌/◌, ◌%◌, ◌≤◌, ◌<◌, ◌≡◌, sym, ap, ◌∙◌, true, some, [], ◌∷◌, ◌++◌, arith, length,
  take-append, drop-append, append_assoc, length-append, ◌^◌,
}
use longterm.Base.Bits.{bit_or_high}
use longterm.Base.Words.{Bytes}
use longterm.Mosh.Proto.{
  Reader, put_varint, put_uint, put_bytes, varint, bytes, next_from, next_key, next, int_max,
}
use longterm.Mosh.Proto.Varint.{
  length-put_varint, IsU64, varint-put_varint, put_varint-append, put_varint-cons, found,
}

abbrev pub at : Bytes → Reader
at rest = record { rest = rest; ok = true }

abbrev pub IsField : ℕ → Type 0
IsField field = (1 ≤ field) × (field ≤ int_max)

next_from-cons :
    (r : Reader) (rest : Bytes) {b : ℕ} {bs : Bytes}
    → rest ≡ b ∷ bs
    → next_from r true rest ≡ next_key (varint r)
unfolding next_from
next_from-cons r rest e = rw (e, next_from)

next_key-found :
    (key : ℕ) (rest : Bytes)
    → IsField (key / 8)
    → next_key (found key rest true) ≡ (some (key / 8, key % 8), at rest)
unfolding next_key
next_key-found key rest h = ground arith

-- A key written as `(field << 3) | type`.
next-key :
    (key : ℕ) (rest : Bytes)
    → key < 2 ^ 64
    → IsField (key / 8)
    → next (at (put_varint [] key ++ rest)) ≡ (some (key / 8, key % 8), at rest)
unfolding next
next-key key rest h k =
    let (b, bs, e) = put_varint-cons key in
    next_from-cons (at (put_varint [] key ++ rest)) (put_varint [] key ++ rest)
      (ap (λ (t : Bytes). t ++ rest) e)
    ∙ ap next_key (varint-put_varint key true rest h)
    ∙ next_key-found key rest k

put_uint_parts :
    (out : Bytes) (field value : ℕ)
    → put_uint out field value ≡ out ++ (put_varint [] (field * 8) ++ put_varint [] value)
unfolding put_uint
put_uint_parts out field value =
    put_varint-append (put_varint out (field * 8)) value
    ∙ ap (λ (t : Bytes). t ++ put_varint [] value) (put_varint-append out (field * 8))
    ∙ append_assoc out (put_varint [] (field * 8)) (put_varint [] value)

bytes_key : (field : ℕ) → bit_or (field * 8) 2 ≡ field * 8 + 2
bytes_key field = bit_or_high 3 field 2 (omega arith)

put_bytes_parts :
    (out : Bytes) (field : ℕ) (bs : Bytes)
    → put_bytes out field bs
      ≡ out ++ (put_varint [] (field * 8 + 2) ++ (put_varint [] (length bs) ++ bs))
unfolding put_bytes
put_bytes_parts out field bs =
    let key : Bytes = put_varint [] (field * 8 + 2) in
    rw (
      bytes_key field,
      put_varint-append out (field * 8 + 2),
      put_varint-append (out ++ key) (length bs),
      append_assoc (out ++ key) (put_varint [] (length bs)) bs,
      append_assoc out key (put_varint [] (length bs) ++ bs),
    )

pub put_uint-append :
    (out : Bytes) (field value : ℕ) → put_uint out field value ≡ out ++ put_uint [] field value
put_uint-append out field value =
    put_uint_parts out field value
    ∙ ap (λ (t : Bytes). out ++ t) (sym (put_uint_parts [] field value))

pub put_bytes-append :
    (out : Bytes) (field : ℕ) (bs : Bytes) → put_bytes out field bs ≡ out ++ put_bytes [] field bs
put_bytes-append out field bs =
    put_bytes_parts out field bs ∙ ap (λ (t : Bytes). out ++ t) (sym (put_bytes_parts [] field bs))

pub length-put_bytes :
    (field : ℕ) (bs : Bytes)
    → IsField field
    → IsU64 (length bs)
    → length (put_bytes [] field bs) ≤ 20 + length bs
length-put_bytes field bs f h = omega (
  arith,
  ap length (put_bytes_parts [] field bs),
  length-append (put_varint [] (field * 8 + 2)) (put_varint [] (length bs) ++ bs),
  length-append (put_varint [] (length bs)) bs,
  length-put_varint (field * 8 + 2) (omega arith),
  length-put_varint (length bs) h,
)

pub length-put_uint :
    (field value : ℕ) → IsField field → IsU64 value → length (put_uint [] field value) ≤ 20
length-put_uint field value f h = omega (
  arith,
  ap length (put_uint_parts [] field value),
  length-append (put_varint [] (field * 8)) (put_varint [] value),
  length-put_varint (field * 8) (omega arith),
  length-put_varint value h,
)

-- After the key of `putUint` comes its value.
pub next-put_uint :
    (field value : ℕ) (rest : Bytes)
    → IsField field
    → next (at (put_uint [] field value ++ rest))
      ≡ (some (field, 0), at (put_varint [] value ++ rest))
next-put_uint field value rest h =
    let q : field * 8 / 8 ≡ field = omega arith in
    let m : field * 8 % 8 ≡ 0 = omega arith in
    rw
      (
        put_uint_parts [] field value,
        append_assoc (put_varint [] (field * 8)) (put_varint [] value) rest,
      )
      (next-key (field * 8) (put_varint [] value ++ rest) (omega arith) (rw q h) ∙ rw (q, m))

pub next-put_bytes :
    (field : ℕ) (bs rest : Bytes)
    → IsField field
    → next (at (put_bytes [] field bs ++ rest))
      ≡ (some (field, 2), at (put_varint [] (length bs) ++ (bs ++ rest)))
next-put_bytes field bs rest h =
    let q : (field * 8 + 2) / 8 ≡ field = omega arith in
    let m : (field * 8 + 2) % 8 ≡ 2 = omega arith in
    rw
      (
        put_bytes_parts [] field bs,
        append_assoc (put_varint [] (field * 8 + 2)) (put_varint [] (length bs) ++ bs) rest,
        append_assoc (put_varint [] (length bs)) bs rest,
      )
      (next-key (field * 8 + 2) (put_varint [] (length bs) ++ (bs ++ rest)) (omega arith) (rw q h)
        ∙ rw (q, m))

-- The length that `putBytes` writes is a varint, and its bytes follow.
pub bytes-put_varint :
    (bs rest : Bytes)
    → IsU64 (length bs)
    → bytes (at (put_varint [] (length bs) ++ (bs ++ rest))) ≡ (some bs, at rest)
unfolding bytes
bytes-put_varint bs rest h = rw (varint-put_varint (length bs) true (bs ++ rest) h) (
    ground (
      arith,
      length-append bs rest,
      take-append (length bs) bs rest,
      drop-append (length bs) bs rest,
    ))
