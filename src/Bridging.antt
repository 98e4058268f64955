-- ===== src/Bridging.antt =====
-- crates/bridging/src/types.rs: the requests, quotes and errors that providers and the SDK exchange.

pub mod Quotes
pub mod Registry
pub mod Tokens
pub mod Fees
pub mod Events
pub mod Deposit
pub mod NearIntents
mod Tests
use cow_rs.Base.{
  ℕ, ◌-◌, String, Bool, true, false, Option, none, some, ltb, ◌≡◌, refl, ◌⊎◌, inl, inr,
}
use cow_rs.Base.Bytes.{Bytes}
use cow_rs.Base.Hex.{Text}
use cow_rs.Base.{CowError}
use cow_rs.Types.{OrderKind}
use cow_rs.AppData.Doc.{CowHook}

-- Messages keep their fixed part.
pub data BridgeError : Type 0 where
  no_providers no_quote same_chain only_sell_order_supported no_intermediate_tokens : BridgeError
  no_routes quote_does_not_match_deposit_address sell_amount_too_small timeout : BridgeError
  api_error invalid_api_response tx_build_error quote_error invalid_bridge : String → BridgeError
  provider_not_found : Text → BridgeError
  cow : CowError → BridgeError

abbrev pub bridge_error_priority : BridgeError → ℕ
bridge_error_priority e = elim e [
  | sell_amount_too_small ↦ 10
  | only_sell_order_supported ↦ 9
  | _ ↦ 1
]

pub data Checked {ℓ} (A : Type ℓ) : Type ℓ where
  ok : A → Checked A
  err : BridgeError → Checked A

infixl 5 ◌>>=◌
abbrev pub ◌>>=◌ {ℓ κ} : {A : Type ℓ} {B : Type κ} → Checked A → (A → Checked B) → Checked B
err e >>= next = err e
ok value >>= next = next value

pub Checked-cases {ℓ} :
    {A : Type ℓ} (c : Checked A) → ((a : A) × (c ≡ ok a)) ⊎ ((e : BridgeError) × (c ≡ err e))
Checked-cases (ok a) = inl (a, refl)
Checked-cases (err e) = inr (e, refl)

pub data BridgeStatus : Type 0 where
  in_progress executed expired refund unknown : BridgeStatus

-- An address of an EVM chain, or whatever another chain calls a token.
pub data TokenAddress : Type 0 where
  evm : Bytes → TokenAddress
  raw : Text → TokenAddress

abbrev pub to_evm : TokenAddress → Option Bytes
to_evm (evm a) = some a
to_evm (raw s) = none

pub record QuoteBridgeRequest : Type 0 where
  pub sell_chain_id : ℕ
  pub buy_chain_id : ℕ
  pub sell_token : Bytes
  pub sell_token_decimals : ℕ
  pub buy_token : TokenAddress
  pub buy_token_decimals : ℕ
  pub sell_amount : ℕ
  pub account : Bytes
  pub owner : Option Bytes
  pub receiver : Option Text
  pub bridge_recipient : Option Text
  pub slippage_bps : ℕ
  pub bridge_slippage_bps : Option ℕ
  pub kind : OrderKind

pub record QuoteBridgeResponse : Type 0 where
  pub provider : Text
  pub sell_amount : ℕ
  pub buy_amount : ℕ
  pub fee_amount : ℕ
  pub estimated_secs : ℕ
  pub bridge_hook : Option CowHook

-- `saturating_sub`.
abbrev pub net_buy_amount : QuoteBridgeResponse → ℕ
net_buy_amount q = q.buy_amount - q.fee_amount

pub record BridgeAmounts : Type 0 where
  pub sell_amount : ℕ
  pub buy_amount : ℕ

pub record BridgingFee : Type 0 where
  pub fee_bps : ℕ
  pub amount_in_sell_currency : ℕ
  pub amount_in_buy_currency : ℕ

-- `BridgeCosts` wraps the bridging fee.
pub record BridgeQuoteAmountsAndCosts : Type 0 where
  pub before_fee : BridgeAmounts
  pub after_fee : BridgeAmounts
  pub after_slippage : BridgeAmounts
  pub bridging_fee : BridgingFee
  pub slippage_bps : ℕ

pub record MultiQuoteResult : Type 0 where
  pub provider_dapp_id : Text
  pub quote : Option BridgeQuoteAmountsAndCosts
  pub error : Option BridgeError
