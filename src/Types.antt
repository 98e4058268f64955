-- ===== src/Types.antt =====
-- crates/types/src/lib.rs and unsigned_order.rs: the protocol's enums and the order before signing.
pub mod Flags
pub mod Trade
mod Tests
use cow_rs.Base.{ℕ, String, Bool, true, false, ◌+◌, ltb, if◌then◌else◌, ◌^◌, ◌-◌, min, not}
use cow_rs.Base.{Result, ok, err, CowError, parse}
use cow_rs.Base.Bytes.{Bytes, all_zero}
use Prim.Native.String.{len}
use text.Mathlib.Text.{◌==◌ as str_eq}

pub data OrderKind : Type 0 where
  sell buy : OrderKind

pub data TokenBalance : Type 0 where
  erc20 external internal : TokenBalance

pub data SigningScheme : Type 0 where
  eip712 eth_sign eip1271 pre_sign : SigningScheme

abbrev pub is_sell : OrderKind → Bool
is_sell sell = true
is_sell buy = false

abbrev pub is_buy : OrderKind → Bool
is_buy buy = true
is_buy sell = false

unfoldable pub kind_as_str : OrderKind → String
kind_as_str sell = "sell"
kind_as_str buy = "buy"

unfoldable pub balance_as_str : TokenBalance → String
balance_as_str erc20 = "erc20"
balance_as_str external = "external"
balance_as_str internal = "internal"

unfoldable pub scheme_as_str : SigningScheme → String
scheme_as_str eip712 = "eip712"
scheme_as_str eth_sign = "ethsign"
scheme_as_str eip1271 = "eip1271"
scheme_as_str pre_sign = "presign"

unfoldable pub kind_of_str : String → Result OrderKind
kind_of_str s =
    if str_eq s "sell"
    then ok sell
    else if str_eq s "buy"
    then ok buy
    else err (parse "OrderKind" "unknown value")

unfoldable pub balance_of_str : String → Result TokenBalance
balance_of_str s =
    if str_eq s "erc20"
    then ok erc20
    else if str_eq s "external"
    then ok external
    else if str_eq s "internal"
    then ok internal
    else err (parse "TokenBalance" "unknown value")

unfoldable pub scheme_of_str : String → Result SigningScheme
scheme_of_str s =
    if str_eq s "eip712"
    then ok eip712
    else if str_eq s "ethsign"
    then ok eth_sign
    else if str_eq s "eip1271"
    then ok eip1271
    else if str_eq s "presign"
    then ok pre_sign
    else err (parse "SigningScheme" "unknown value")

-- Amounts are `U256`, `valid_to` is a `u32`; addresses and hashes are their bytes.
pub record UnsignedOrder : Type 0 where
  pub sell_token : Bytes
  pub buy_token : Bytes
  pub receiver : Bytes
  pub sell_amount : ℕ
  pub buy_amount : ℕ
  pub valid_to : ℕ
  pub app_data : Bytes
  pub fee_amount : ℕ
  pub kind : OrderKind
  pub partially_fillable : Bool
  pub sell_token_balance : TokenBalance
  pub buy_token_balance : TokenBalance

unfoldable pub is_expired : UnsignedOrder → ℕ → Bool
is_expired o timestamp = ltb o.valid_to timestamp

unfoldable pub has_custom_receiver : UnsignedOrder → Bool
has_custom_receiver o = not (all_zero o.receiver)

-- `saturating_add` on `U256`.
unfoldable pub total_amount : UnsignedOrder → ℕ
total_amount o = min (o.sell_amount + o.buy_amount) (2 ^ 256 - 1)
