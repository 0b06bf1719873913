-- ===== src/Mosh/Proto.antt =====
-- src/moshclient.cpp, "Protocol buffers": the writers and `ProtoReader`.
pub mod Loop
pub mod Varint
pub mod Field
use Prim.Native.Nat.{bit_or}
use mathlib.Core.WellFounded.{Acc}
use mathlib.Core.Logic.{dite}
use native.Mathlib.Decide.{dec_lt}
use longterm.Base.{
  ℕ, zero, suc, ◌+◌, ◌*◌, ◌/◌, ◌%◌, ◌^◌, ◌≤◌, ◌<◌, Bool, true, false, ◌||◌, Option, none, some,
  List, [], ◌∷◌, ◌++◌, arith, ltb, ◌==◌, if◌then◌else◌, length, take, drop,
}
use longterm.Base.Order.{lt_wf}
use longterm.Base.Words.{Bytes}

div-lt : (v : ℕ) → ¬ (v < 128) → v / 128 < v
div-lt v more = omega arith

-- What `while (value >= 0x80)` appends: seven bits a byte, lowest first, then the last byte.
varint_bytes : (v : ℕ) → Acc ◌<◌ v → Bytes
varint_bytes v (Acc.intro _ smaller) =
    dite (dec_lt v 128) (λ _. v ∷ [])
      (λ more. bit_or (v % 128) 128 ∷ varint_bytes (v / 128) (smaller (v / 128) (div-lt v more)))

pub put_varint : Bytes → ℕ → Bytes
put_varint out value = out ++ varint_bytes value (lt_wf.apply value)

pub put_uint : Bytes → ℕ → ℕ → Bytes
put_uint out field value = put_varint (put_varint out (field * 8)) value

pub put_bytes : Bytes → ℕ → Bytes → Bytes
put_bytes out field bytes =
    put_varint (put_varint out (bit_or (field * 8) 2)) (length bytes) ++ bytes

-- `rest` is what of `m_data` stands from `m_pos` on.
pub record Reader : Type 0 where
  pub rest : Bytes
  pub ok : Bool

abbrev pub reader : Bytes → Reader
reader bytes = record { rest = bytes; ok = true }

-- A varint's `*value` is set on failure too, and some callers use it then.
pub record VarintRead : Type 0 where
  pub read : Bool
  pub value : ℕ
  pub after : Reader

-- `*value |= quint64(byte & 0x7f) << shift`
add_group : ℕ → ℕ → ℕ → ℕ
add_group value byte shift = bit_or value (byte % 128 * 2 ^ shift % 2 ^ 64)

varint_loop : Bytes → Bool → ℕ → ℕ → VarintRead
varint_loop [] ok shift value = record {
  read = false;
  value = value;
  after = record { rest = []; ok = false };
}
varint_loop (byte ∷ rest) ok shift value =
    let value' = add_group value byte shift in
    let more = varint_loop rest ok (shift + 7) value' in
    if ltb shift 64
    then (if byte / 128 % 2 == 0
        then record { read = true; value = value'; after = record { rest = rest; ok = ok } }
        else more)
    else record { read = false; value = value; after = record { rest = byte ∷ rest; ok = false } }

pub varint : Reader → VarintRead
varint r = varint_loop r.rest r.ok 0 0

pub fail : Reader → Reader
fail r = record r { ok = false }

-- `none` stands for `false`, which leaves `*value` as it was.
pub bytes : Reader → Option Bytes × Reader
bytes r =
    let v = varint r in
    let rest = v.after.rest in
    if v.read
    then (if ltb (length rest) v.value
        then (none, fail v.after)
        else (some (take v.value rest), record { rest = drop v.value rest; ok = v.after.ok }))
    else (none, fail v.after)

pub advance : ℕ → Reader → Reader
advance count r =
    if ltb (length r.rest) count then fail r else record r { rest = drop count r.rest }

unfoldable pub skip : ℕ → Reader → Reader
skip wire_type r =
    if wire_type == 0
    then (varint r).after
    else if wire_type == 1
    then advance 8 r
    else if wire_type == 2
    then (bytes r).1
    else if wire_type == 5
    then advance 4 r
    else fail r

abbrev pub int_max : ℕ
int_max = 2147483647

-- The field and the wire type, `none` for `false`.
next_key : VarintRead → Option (ℕ × ℕ) × Reader
next_key key =
    let field = key.value / 8 in
    if key.read
    then (if (field == 0) || ltb int_max field
        then (none, fail key.after)
        else (some (field, key.value % 8), key.after))
    else (none, fail key.after)

next_from : Reader → Bool → Bytes → Option (ℕ × ℕ) × Reader
next_from r false rest = (none, r)
next_from r true [] = (none, r)
next_from r true (b ∷ rest) = next_key (varint r)

pub next : Reader → Option (ℕ × ℕ) × Reader
unfolding next_from
next r = next_from r r.ok r.rest

-- `while (reader.next(&field, &wireType)) body`, over the loop's variables.
each_field {ℓ} : {S : Type ℓ} → (ℕ → ℕ → Reader → S → Reader × S) → ℕ → Reader → S → Reader × S
each_field body zero r s = (r, s)
each_field body (suc fuel) r s = elim (next r).0 [
  | none ↦ ((next r).1, s)
  | some (field, wire_type) ↦
      let (r', s') = body field wire_type (next r).1 s in each_field body fuel r' s'
]

-- Each round takes a byte, so as many rounds as there are bytes and one more are enough.
pub while_next {ℓ} : {S : Type ℓ} → (ℕ → ℕ → Reader → S → Reader × S) → Reader → S → Reader × S
while_next body r s = each_field body (suc (length r.rest)) r s
