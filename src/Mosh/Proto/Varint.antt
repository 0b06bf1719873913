-- ===== src/Mosh/Proto/Varint.antt =====
-- `ProtoReader::varint` reads back what `putVarint` wrote.
use Prim.Native.Nat.{bit_or}
use mathlib.Core.WellFounded.{Acc}
use mathlib.Core.Logic.{dif_pos, dif_neg}
use native.Mathlib.Decide.{dec_lt}
use native.Mathlib.Nat.{pow-le-pow_right, mul-le-mul_right, div-add-mod, pow-suc}
use native.Mathlib.Bridge.{le_prop}
use native.Mathlib.Numerals.{towards_suc}
use longterm.Base.Order.{lt_wf}
use longterm.Base.{
  ℕ, zero, suc, ◌≤◌, refl, [], length, ◌+◌, ◌*◌, ◌/◌, ◌%◌, ◌^◌, ◌<◌, ◌≡◌, ap, ◌∙◌, Bool, true, ◌∷◌,
  ◌++◌, arith,
}
use longterm.Base.Bits.{bit_or_low}
use longterm.Base.Words.{Bytes}
use longterm.Mosh.Proto.{
  div-lt, VarintRead, add_group, varint_bytes, varint_loop, varint, put_varint,
}

abbrev pub IsU64 : ℕ → Type 0
IsU64 v = v < 2 ^ 64

abbrev pub found : ℕ → Bytes → Bool → VarintRead
found v rest ok = record { read = true; value = v; after = record { rest = rest; ok = ok } }

low_group : (v : ℕ) → bit_or (v % 128) 128 ≡ v % 128 + 128
low_group v = bit_or_low 7 (v % 128) 1 (omega arith)

add_group_lem :
    (value byte shift : ℕ)
    → value < 2 ^ shift
    → byte % 128 * 2 ^ shift < 2 ^ 64
    → add_group value byte shift ≡ value + byte % 128 * 2 ^ shift
unfolding add_group
add_group_lem value byte shift h k =
    let e : byte % 128 * 2 ^ shift % 2 ^ 64 ≡ byte % 128 * 2 ^ shift = omega arith in
    rw e (bit_or_low shift value (byte % 128) h)

pow-add_seven : (s : ℕ) → 2 ^ (s + 7) ≡ 128 * 2 ^ s
pow-add_seven s = simp towards_suc (omega arith)

-- A bit that is set in a 64-bit number stands below bit 64.
shift-lt : (v shift : ℕ) → 0 < v → v * 2 ^ shift < 2 ^ 64 → shift < 64
shift-lt v shift pos h = elim (dec_lt shift 64) [
  | yes p ↦ p
  | no p ↦ absurd (
      omega (
        arith,
        pow-le-pow_right {n = 2} (omega arith) {i = 64} {j = shift} (omega arith),
        mul-le-mul_right (2 ^ shift) pos,
      ))
]

split_group : (v shift : ℕ) → v * 2 ^ shift ≡ v % 128 * 2 ^ shift + v / 128 * 2 ^ (shift + 7)
split_group v shift = omega (
  arith,
  ap (λ (t : ℕ). t * 2 ^ shift) (div-add-mod v 128),
  ap (λ (t : ℕ). v / 128 * t) (pow-add_seven shift),
)

group-lt : (g acc shift : ℕ) → g < 128 → acc < 2 ^ shift → acc + g * 2 ^ shift < 2 ^ (shift + 7)
group-lt g acc shift hg ha =
    omega (arith, pow-add_seven shift, mul-le-mul_right {m = g} {n = 127} (2 ^ shift) (omega arith))

last_step :
    (v acc shift : ℕ) (ok : Bool) (rest : Bytes)
    → v < 128
    → shift < 64
    → acc < 2 ^ shift
    → acc + v * 2 ^ shift < 2 ^ 64
    → varint_loop (v ∷ rest) ok shift acc ≡ found (acc + v * 2 ^ shift) rest ok
unfolding varint_loop
last_step v acc shift ok rest hv hs ha hb =
    let e : v % 128 ≡ v = omega arith in
    ground (arith, e, add_group_lem acc v shift, ap (λ (t : ℕ). t * 2 ^ shift) e)

group_step :
    (g acc shift : ℕ) (ok : Bool) (rest : Bytes)
    → g < 128
    → shift < 64
    → acc < 2 ^ shift
    → acc + g * 2 ^ shift < 2 ^ 64
    → varint_loop ((g + 128) ∷ rest) ok shift acc
      ≡ varint_loop rest ok (shift + 7) (acc + g * 2 ^ shift)
unfolding varint_loop
group_step g acc shift ok rest hv hs ha hb =
    let e : (g + 128) % 128 ≡ g = omega arith in
    ground (arith, e, add_group_lem acc (g + 128) shift, ap (λ (t : ℕ). t * 2 ^ shift) e)

varint_loop-varint_bytes :
    (v : ℕ) (w : Acc ◌<◌ v) (acc shift : ℕ) (ok : Bool) (rest : Bytes)
    → shift < 64
    → acc < 2 ^ shift
    → acc + v * 2 ^ shift < 2 ^ 64
    → varint_loop (varint_bytes v w ++ rest) ok shift acc ≡ found (acc + v * 2 ^ shift) rest ok
unfolding varint_bytes
varint_loop-varint_bytes v (Acc.intro _ smaller) acc shift ok rest hs ha hb = elim (dec_lt v 128) [
  | yes p ↦ rw (dif_pos (dec_lt v 128) le_prop p) (last_step v acc shift ok rest p hs ha hb)
  | no p ↦
      rw (dif_neg (dec_lt v 128) p, low_group v)
        (group_step (v % 128) acc shift ok _ (omega arith) hs ha
            (omega (arith, split_group v shift))
          ∙ varint_loop-varint_bytes (v / 128) (smaller (v / 128) (div-lt v p)) _ (shift + 7) ok
              rest
              (shift-lt (v / 128) (shift + 7) (omega arith) (omega (arith, split_group v shift)))
              (group-lt (v % 128) acc shift (omega arith) ha) (omega (arith, split_group v shift))
          ∙ ap (λ (t : ℕ). found t rest ok) (omega (arith, split_group v shift)))
]

-- The 64-bit number that `put_varint` wrote is read back, and what follows is left.
pub varint-put_varint :
    (v : ℕ) (ok : Bool) (rest : Bytes)
    → IsU64 v
    → varint (record { rest = put_varint [] v ++ rest; ok = ok }) ≡ found v rest ok
unfolding varint put_varint
varint-put_varint v ok rest h =
    varint_loop-varint_bytes v (lt_wf.apply v) 0 0 ok rest (omega arith) (omega arith) (omega arith)
    ∙ ap (λ (t : ℕ). found t rest ok) (omega arith)

-- `putVarint` appends, and what it appends does not depend on what stands before.
pub put_varint-append : (out : Bytes) (v : ℕ) → put_varint out v ≡ out ++ put_varint [] v
unfolding put_varint
put_varint-append out v = refl

varint_bytes-cons : (v : ℕ) (w : Acc ◌<◌ v) → (b : ℕ) × (bs : Bytes) × (varint_bytes v w ≡ b ∷ bs)
unfolding varint_bytes
varint_bytes-cons v (Acc.intro _ smaller) = elim (dec_lt v 128) [
  | yes p ↦ (v, [], dif_pos (dec_lt v 128) le_prop p _ _)
  | no p ↦ (bit_or (v % 128) 128, _, dif_neg (dec_lt v 128) p _ _)
]

pub put_varint-cons : (v : ℕ) → (b : ℕ) × (bs : Bytes) × (put_varint [] v ≡ b ∷ bs)
unfolding put_varint
put_varint-cons v = varint_bytes-cons v (lt_wf.apply v)

-- `k + 1` groups of seven bits at most.
length-varint_bytes :
    (k v : ℕ) (w : Acc ◌<◌ v) → v < 128 ^ suc k → length (varint_bytes v w) ≤ suc k
unfolding varint_bytes
length-varint_bytes zero v (Acc.intro _ smaller) h = elim (dec_lt v 128) [
  | yes p ↦ rw (dif_pos (dec_lt v 128) le_prop p) (omega arith)
  | no p ↦ absurd (omega arith)
]
length-varint_bytes (suc k) v (Acc.intro _ smaller) h = elim (dec_lt v 128) [
  | yes p ↦ rw (dif_pos (dec_lt v 128) le_prop p) (omega arith)
  | no p ↦ rw (dif_neg (dec_lt v 128) p) (
      omega (
        arith,
        length-varint_bytes k (v / 128) (smaller (v / 128) (div-lt v p))
            (omega (arith, pow-suc 128 (suc k))),
      ))
]

pub length-put_varint : (v : ℕ) → IsU64 v → length (put_varint [] v) ≤ 10
unfolding put_varint
length-put_varint v h = length-varint_bytes 9 v (lt_wf.apply v) (omega arith)
