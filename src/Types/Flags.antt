-- ===== src/Types/Flags.antt =====
-- crates/types/src/flags.rs: order and trade flags as the bits of one byte.
pub mod RoundTrip
use Prim.Native.Nat.{bit_and, bit_or}
use cow_rs.Base.{
  ℕ, ◌+◌, ◌*◌, ◌/◌, ◌%◌, ◌^◌, Bool, true, false, not, ◌==◌, if◌then◌else◌, Result, ok, err, ◌>>=◌,
  parse, List, [], ◌∷◌, Option, none, some,
}
use cow_rs.Types.{
  OrderKind, sell, buy, TokenBalance, erc20, external, internal, SigningScheme, eip712, eth_sign,
  eip1271, pre_sign,
}

pub record OrderFlags : Type 0 where
  pub kind : OrderKind
  pub partially_fillable : Bool
  pub sell_token_balance : TokenBalance
  pub buy_token_balance : TokenBalance

pub record TradeFlags : Type 0 where
  pub order_flags : OrderFlags
  pub signing_scheme : SigningScheme

abbrev pub kind_offset : ℕ
kind_offset = 0

abbrev pub partially_fillable_offset : ℕ
partially_fillable_offset = 1

abbrev pub sell_token_balance_offset : ℕ
sell_token_balance_offset = 2

abbrev pub buy_token_balance_offset : ℕ
buy_token_balance_offset = 4

abbrev pub signing_scheme_offset : ℕ
signing_scheme_offset = 5

-- `<<` and `>>` on `u8`.
abbrev shl : ℕ → ℕ → ℕ
shl x k = x * 2 ^ k % 256

abbrev shr : ℕ → ℕ → ℕ
shr x k = x / 2 ^ k

pub encode_kind : OrderKind → ℕ
encode_kind sell = 0
encode_kind buy = 1

pub encode_partially_fillable : Bool → ℕ
encode_partially_fillable pf = shl (if pf then 1 else 0) partially_fillable_offset

sell_token_balance_index : TokenBalance → ℕ
sell_token_balance_index erc20 = 0
sell_token_balance_index external = 2
sell_token_balance_index internal = 3

pub encode_sell_token_balance : TokenBalance → ℕ
unfolding sell_token_balance_index
encode_sell_token_balance balance = shl (sell_token_balance_index balance) sell_token_balance_offset

buy_token_balance_index : TokenBalance → ℕ
buy_token_balance_index erc20 = 0
buy_token_balance_index external = 0
buy_token_balance_index internal = 1

pub encode_buy_token_balance : TokenBalance → ℕ
unfolding buy_token_balance_index
encode_buy_token_balance balance = shl (buy_token_balance_index balance) buy_token_balance_offset

signing_scheme_index : SigningScheme → ℕ
signing_scheme_index eip712 = 0
signing_scheme_index eth_sign = 1
signing_scheme_index eip1271 = 2
signing_scheme_index pre_sign = 3

pub encode_signing_scheme : SigningScheme → ℕ
unfolding signing_scheme_index
encode_signing_scheme scheme = shl (signing_scheme_index scheme) signing_scheme_offset

unfoldable pub encode_order_flags : OrderFlags → ℕ
unfolding encode_kind encode_partially_fillable encode_sell_token_balance encode_buy_token_balance
encode_order_flags flags =
    bit_or
      (bit_or (bit_or (encode_kind flags.kind) (encode_partially_fillable flags.partially_fillable))
        (encode_sell_token_balance flags.sell_token_balance))
      (encode_buy_token_balance flags.buy_token_balance)

-- The `match` on the two bits of the sell balance.
decode_sell_index : ℕ → Result TokenBalance
decode_sell_index index =
    if index == 0
    then ok erc20
    else if index == 2
    then ok external
    else if index == 3
    then ok internal
    else err (parse "sellTokenBalance" "invalid flag index")

unfoldable pub decode_order_flags : ℕ → Result OrderFlags
unfolding decode_sell_index
decode_order_flags bits = do
  let kind_index = bit_and (shr bits kind_offset) 0x01
  let pf_index = bit_and (shr bits partially_fillable_offset) 0x01
  let sell_index = bit_and (shr bits sell_token_balance_offset) 0x03
  let buy_index = bit_and (shr bits buy_token_balance_offset) 0x01
  let kind = if kind_index == 0 then sell else buy
  let partially_fillable = not (pf_index == 0)
  sell_token_balance ← decode_sell_index sell_index
  let buy_token_balance = if buy_index == 0 then erc20 else internal
  ok (record {
    kind = kind;
    partially_fillable = partially_fillable;
    sell_token_balance = sell_token_balance;
    buy_token_balance = buy_token_balance;
  })

-- `SCHEMES[index]`; the mask keeps the index below 4.
unfoldable pub decode_signing_scheme : ℕ → Result SigningScheme
decode_signing_scheme bits =
    let index = bit_and (shr bits signing_scheme_offset) 0x03 in
    ok (
      if index == 0
      then eip712
      else if index == 1
      then eth_sign
      else if index == 2
      then eip1271
      else pre_sign)

unfoldable pub encode_trade_flags : TradeFlags → ℕ
unfolding encode_order_flags encode_signing_scheme
encode_trade_flags flags =
    bit_or (encode_order_flags flags.order_flags) (encode_signing_scheme flags.signing_scheme)

unfoldable pub decode_trade_flags : ℕ → Result TradeFlags
decode_trade_flags bits = do
  order_flags ← decode_order_flags bits
  signing_scheme ← decode_signing_scheme bits
  ok (record { order_flags = order_flags; signing_scheme = signing_scheme })

unfoldable pub normalize_buy_token_balance : TokenBalance → TokenBalance
normalize_buy_token_balance erc20 = erc20
normalize_buy_token_balance external = erc20
normalize_buy_token_balance internal = internal
