-- ===== src/AppData/Base32.antt =====
-- crates/app-data/src/cid.rs, `decode_base32_lower_nopad`: base32 without padding, as bits in a
-- 32-bit buffer.
pub mod Buffer
pub mod Numbers
use cow_rs.Base.{
  ℕ, ◌+◌, ◌-◌, ◌*◌, ◌/◌, ◌%◌, ◌^◌, leb, ltb, ◌==◌, not, ◌&&◌, if◌then◌else◌, Option, none, some,
  List, [], ◌∷◌, ◌++◌, Result, ok, err, ◌>>=◌, ◌>>◌, app_data, or_fail, fail_if,
}
use cow_rs.Base.Bytes.{Bytes}
use cow_rs.Base.Hex.{Text}

abbrev pub base32_value : ℕ → Option ℕ
base32_value c =
    if leb b'a' c && leb c b'z'
    then some (c - b'a')
    else if leb b'A' c && leb c b'Z'
    then some (c - b'A')
    else if leb b'2' c && leb c b'7'
    then some (c - b'2' + 26)
    else none

-- The variables of the loop.
pub record State : Type 0 where
  pub out : Bytes
  pub buf : ℕ
  pub bits : ℕ

abbrev pub start : State
start = record { out = []; buf = 0; bits = 0 }

-- `buf << 5` loses what leaves 32 bits, and the five bits that come in are clear.
abbrev pub shift_in : ℕ → ℕ → ℕ
shift_in buf v = buf * 32 % 2 ^ 32 + v

abbrev pub step : State → ℕ → State
step s v =
    let buf = shift_in s.buf v in
    let bits = s.bits + 5 in
    if leb 8 bits
    then record { out = s.out ++ buf / 2 ^ (bits - 8) % 256 ∷ []; buf = buf; bits = bits - 8 }
    else record { out = s.out; buf = buf; bits = bits }

unfoldable pub loop : State → Text → Result State
loop s [] = ok s
loop s (c ∷ cs) = do
  v ← or_fail (base32_value c) (app_data "invalid base32 character")
  loop (step s v) cs

abbrev pub trailing : State → ℕ
trailing s = s.buf % 2 ^ s.bits

abbrev pub finish : State → Result Bytes
finish s =
    fail_if (ltb 0 s.bits && not (trailing s == 0))
      (app_data "non-canonical base32: trailing bits not zero")
    >> ok s.out

unfoldable pub decode_base32_lower_nopad : Text → Result Bytes
decode_base32_lower_nopad text = do s ← loop start text; finish s
