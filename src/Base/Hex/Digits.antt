-- ===== src/Base/Hex/Digits.antt =====
-- Lower-case hexadecimal, as an instance of the codec.
use mathlib.Core.Path.{◌≡◌, refl}
use mathlib.Core.Logic.{◌≢◌}
use mathlib.Core.Bool.{◌&&◌}
use mathlib.Core.Option.{Option, none, some}
use mathlib.Core.List.{[], ◌∷◌}
use Prim.Native.Nat.{ℕ, ◌+◌, ◌-◌, ◌*◌, ◌/◌, ◌%◌, ◌<◌}
use native.Mathlib.Omega.{arith}
use cow_rs.Base.Tests.{leb, ltb, if◌then◌else◌}
use cow_rs.Base.Lists.{All}
use cow_rs.Base.Bytes.{Bytes}
use cow_rs.Base.Panics.{◌>>=◌}
use cow_rs.Base.Hex.{Text, IsByte, HexCodec}

digit : ℕ → ℕ
digit n = if ltb n 10 then n + 48 else n + 87

value : ℕ → Option ℕ
value c =
    if leb 48 c && leb c 57
    then some (c - 48)
    else if leb 97 c && leb c 102
    then some (c - 87)
    else none

pub hex_encode : Bytes → Text
hex_encode [] = []
hex_encode (b ∷ bs) = digit (b / 16) ∷ digit (b % 16) ∷ hex_encode bs

pub hex_decode : Text → Option Bytes
hex_decode [] = some []
hex_decode (c ∷ []) = none
hex_decode (c ∷ d ∷ rest) = do
  hi ← value c
  lo ← value d
  bs ← hex_decode rest
  some ((hi * 16 + lo) ∷ bs)

value-digit : (n : ℕ) → n < 16 → value (digit n) ≡ some n
unfolding value digit
value-digit n h = ground arith

digit-ne-x : (n : ℕ) → n < 16 → digit n ≢ b'x'
unfolding digit
digit-ne-x n h = ground arith

pub no_marker : (bs : Bytes) → All IsByte bs → All (λ c. c ≢ b'x') (hex_encode bs)
unfolding hex_encode
no_marker [] h = tt
no_marker (b ∷ bs) (small, h) =
    (digit-ne-x (b / 16) (omega arith), (digit-ne-x (b % 16) (omega arith), no_marker bs h))

pub hex_decode-hex_encode : (bs : Bytes) → All IsByte bs → hex_decode (hex_encode bs) ≡ some bs
unfolding hex_encode hex_decode
hex_decode-hex_encode [] h = refl
hex_decode-hex_encode (b ∷ bs) (small, h) =
    let whole : b / 16 * 16 + b % 16 ≡ b = omega arith in
    rw (
      value-digit (b / 16) (omega arith),
      value-digit (b % 16) (omega arith),
      hex_decode-hex_encode bs h,
      whole,
    )

unfoldable pub lower_hex : HexCodec
lower_hex = record {
  encode = hex_encode;
  decode = hex_decode;
  no_marker = no_marker;
  decode_encode = hex_decode-hex_encode;
}
