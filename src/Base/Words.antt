-- ===== src/Base/Words.antt =====
-- Bytes and big-endian words: Qt's `qToBigEndian` and `qFromBigEndian` for `n` bytes.
use Prim.Native.Nat.{ℕ, zero, suc, ◌+◌, ◌*◌, ◌/◌, ◌%◌, ◌^◌, ◌<◌}
use mathlib.Core.Path.{◌≡◌, refl}
use mathlib.Core.List.{List, [], ◌∷◌, ◌++◌}
use native.Mathlib.Omega.{arith}
use native.Mathlib.Nat.{pow-suc}
use longterm.Base.Lists.{length, length-append}

abbrev pub Bytes : Type 0
Bytes = List ℕ

abbrev pub IsByte : ℕ → Type 0
IsByte b = b < 256

-- The lowest byte stands last.
unfoldable pub to_big_endian : ℕ → ℕ → Bytes
to_big_endian zero v = []
to_big_endian (suc n) v = to_big_endian n (v / 256) ++ (v % 256) ∷ []

unfoldable pub big_endian_from : ℕ → Bytes → ℕ
big_endian_from high [] = high
big_endian_from high (b ∷ bs) = big_endian_from (high * 256 + b) bs

unfoldable pub from_big_endian : Bytes → ℕ
unfolding big_endian_from
from_big_endian bs = big_endian_from 0 bs

pub length-to_big_endian : (n v : ℕ) → length (to_big_endian n v) ≡ n
unfolding to_big_endian
length-to_big_endian zero v = refl
length-to_big_endian (suc n) v = omega (
  arith,
  length-append (to_big_endian n (v / 256)) ((v % 256) ∷ []),
  length-to_big_endian n (v / 256),
)

big_endian_from-append :
    (high b : ℕ) (bs : Bytes)
    → big_endian_from high (bs ++ b ∷ []) ≡ big_endian_from high bs * 256 + b
unfolding big_endian_from
big_endian_from-append high b [] = refl
big_endian_from-append high b (c ∷ bs) = big_endian_from-append (high * 256 + c) b bs

-- A number that fits its bytes is read back.
pub from-to_big_endian : (n v : ℕ) → v < 256 ^ n → from_big_endian (to_big_endian n v) ≡ v
unfolding from_big_endian to_big_endian
from-to_big_endian zero v h = omega arith
from-to_big_endian (suc n) v h = omega (
  arith,
  big_endian_from-append 0 (v % 256) (to_big_endian n (v / 256)),
  from-to_big_endian n (v / 256) (omega (arith, pow-suc 256 n)),
)
