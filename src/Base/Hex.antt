-- ===== src/Base/Hex.antt =====
-- `alloy_primitives::hex`, whose source is not part of the repository, and prefixes of texts. A text
-- is the list of its code points.
pub mod Digits
pub mod Words
use mathlib.Core.Path.{◌≡◌}
use mathlib.Core.Bool.{◌&&◌}
use mathlib.Core.Logic.{◌≢◌}
use mathlib.Core.Option.{Option, some}
use mathlib.Core.List.{List, [], ◌∷◌}
use Prim.Native.Nat.{ℕ, ◌<◌}
use native.Mathlib.Omega.{arith}
use cow_rs.Base.Tests.{◌==◌, if◌then◌else◌, ==_iff}
use cow_rs.Base.Lists.{All}
use cow_rs.Base.Bytes.{Bytes}

abbrev pub Text : Type 0
Text = List ℕ

abbrev pub IsByte : ℕ → Type 0
IsByte b = b < 256

-- Encoding writes hexadecimal digits only, and decoding reads them back.
pub record HexCodec : Type 0 where
  pub encode : Bytes → Text
  pub decode : Text → Option Bytes
  pub no_marker : (bs : Bytes) → All IsByte bs → All (λ c. c ≢ b'x') (encode bs)
  pub decode_encode : (bs : Bytes) → All IsByte bs → decode (encode bs) ≡ some bs

-- `s.trim_start_matches("0x")`: every leading copy goes.
pub trim_start_0x : Text → Text
trim_start_0x [] = []
trim_start_0x (a ∷ []) = a ∷ []
trim_start_0x (a ∷ b ∷ rest) =
    let trimmed = trim_start_0x rest in if a == b'0' && b == b'x' then trimmed else a ∷ b ∷ rest

-- `s.strip_prefix("0x").map_or(s, |s| s)`: one copy goes.
abbrev pub strip_0x : Text → Text
strip_0x [] = []
strip_0x (a ∷ []) = a ∷ []
strip_0x (a ∷ b ∷ rest) = if a == b'0' && b == b'x' then rest else a ∷ b ∷ rest

-- `format!("0x{s}")`.
abbrev pub prefix_0x : Text → Text
prefix_0x s = b'0' ∷ b'x' ∷ s

trim_start_0x_plain : (s : Text) → All (λ c. c ≢ b'x') s → trim_start_0x s ≡ s
unfolding trim_start_0x
trim_start_0x_plain [] h = λ i. []
trim_start_0x_plain (a ∷ []) h = λ i. a ∷ []
trim_start_0x_plain (a ∷ b ∷ rest) h = ground (arith, h.1.0)

-- One prefix in front of text without an `x` is all that is trimmed.
pub trim_start_0x-prefix_0x : (s : Text) → All (λ c. c ≢ b'x') s → trim_start_0x (prefix_0x s) ≡ s
unfolding trim_start_0x
trim_start_0x-prefix_0x s h = trim_start_0x_plain s h
