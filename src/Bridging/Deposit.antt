-- ===== src/Bridging/Deposit.antt =====
-- crates/bridging/src/across.rs: the call that deposits into the Across bridge.
pub mod Call
use cow_rs.Base.{ℕ, ◌^◌, String, Option, none, some, List, [], ◌∷◌, ◌++◌, concat, take, replicate}
use cow_rs.Base.Bytes.{Bytes}
use cow_rs.Base.Decimal.{parse_uint}
use cow_rs.Base.Hex.{Text}
use cow_rs.Base.U256.{U256Ops}
use cow_rs.Base.Words.{pad_address, u256_bytes}
use cow_rs.Bridging.{tx_build_error, Checked, ok, err, ◌>>=◌, to_evm, QuoteBridgeRequest}
use cow_rs.Bridging.Fees.{AcrossSuggestedFeesResponse, value_or, apply_pct_fee}
use cow_rs.Bridging.Registry.{by_chain, across_spoke_pool_addresses}

pub record AcrossDepositCallParams : Type 0 where
  pub request : QuoteBridgeRequest
  pub suggested_fees : AcrossSuggestedFeesResponse
  pub cow_shed_account : Bytes

pub record EvmCall : Type 0 where
  pub to : Bytes
  pub call_data : Bytes
  pub value : ℕ

-- `ok_or_else`.
abbrev pub ok_or_build_error : String → Option Bytes → Checked Bytes
ok_or_build_error message none = err (tx_build_error message)
ok_or_build_error message (some a) = ok a

abbrev pub address_or : Bytes → Option Bytes → Bytes
address_or default none = default
address_or default (some a) = a

abbrev pub amount_or : ℕ → Checked ℕ → ℕ
amount_or default (ok v) = v
amount_or default (err e) = default

unfoldable pub deposit_selector : (String → Bytes) → Bytes
deposit_selector keccak256 = take 4 (
    keccak256
      "depositV3(address,address,address,address,uint256,uint256,uint256,address,uint32,uint32,uint32,bytes)")

-- `parse::<Address>` is that of `alloy_primitives`.
module _ (parse_address : Text → Option Bytes) where
  abbrev pub parsed : Option Text → Option Bytes
  parsed none = none
  parsed (some text) = parse_address text

  module _ (u : U256Ops) where
    abbrev pub output_amount_of : AcrossDepositCallParams → ℕ
    output_amount_of p = amount_or p.request.sell_amount (
        apply_pct_fee u p.request.sell_amount
          (value_or 0 (parse_uint (2 ^ 128) p.suggested_fees.total_relay_fee.pct)))

    abbrev pub call_words : AcrossDepositCallParams → Bytes → List Bytes
    call_words p buy_token =
        pad_address p.cow_shed_account
        ∷ pad_address (address_or p.request.account (parsed p.request.receiver))
        ∷ pad_address p.request.sell_token
        ∷ pad_address buy_token
        ∷ u256_bytes p.request.sell_amount
        ∷ u256_bytes (output_amount_of p)
        ∷ u256_bytes p.request.buy_chain_id
        ∷ pad_address
            (address_or (replicate 20 0) (parse_address p.suggested_fees.exclusive_relayer))
        ∷ u256_bytes (value_or 0 (parse_uint (2 ^ 32) p.suggested_fees.timestamp))
        ∷ u256_bytes (value_or 0 (parse_uint (2 ^ 32) p.suggested_fees.fill_deadline))
        ∷ u256_bytes (value_or 0 (parse_uint (2 ^ 32) p.suggested_fees.exclusivity_deadline))
        ∷ u256_bytes 384
        ∷ u256_bytes 0
        ∷ []

    module _ (keccak256 : String → Bytes) where
      unfoldable pub create_across_deposit_call : AcrossDepositCallParams → Checked EvmCall
      create_across_deposit_call p = do
        spoke_pool ←
            ok_or_build_error "spoke pool not found for chain"
              (by_chain p.request.sell_chain_id across_spoke_pool_addresses)
        buy_token ←
            ok_or_build_error "Across requires an EVM buy_token; got TokenAddress::Raw"
              (to_evm p.request.buy_token)
        ok (record {
          to = spoke_pool;
          call_data = deposit_selector keccak256 ++ concat (call_words p buy_token);
          value = 0;
        })
