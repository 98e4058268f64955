-- ===== src/EthFlow.antt =====
-- crates/ethflow/src/lib.rs: orders that sell the native currency, which a contract places.
pub mod Calls
mod Tests
use cow_rs.Base.{
  ℕ, ◌-◌, ◌^◌, String, Bool, if◌then◌else◌, true, false, Option, none, some, List, [], ◌∷◌, ◌++◌,
  concat, replicate, take,
}
use cow_rs.Base.Bytes.{Bytes, be_bytes}
use cow_rs.Settlement.Encoder.{selector}
use cow_rs.Signing.Eip712.{abi_address, abi_u256, abi_u32, abi_bool}

-- Integers; `negsuc n` is - (n + 1).
pub data ℤ : Type 0 where
  pos negsuc : ℕ → ℤ

pub record EthFlowOrderData : Type 0 where
  pub buy_token : Bytes
  pub receiver : Bytes
  pub sell_amount : ℕ
  pub buy_amount : ℕ
  pub app_data : Bytes
  pub fee_amount : ℕ
  pub valid_to : ℕ
  pub partially_fillable : Bool
  pub quote_id : ℤ

pub record EthFlowTransaction : Type 0 where
  pub to : Bytes
  pub call_data : Bytes
  pub value : ℕ

-- `to_be_bytes` of an `i64`, in two's complement.
abbrev pub i64_bytes : ℤ → Bytes
i64_bytes (pos n) = be_bytes 8 n
i64_bytes (negsuc n) = be_bytes 8 (2 ^ 64 - 1 - n)

abbrev pub fill : ℤ → ℕ
fill (pos n) = 0
fill (negsuc n) = 0xff

unfoldable pub abi_i64 : ℤ → Bytes
abi_i64 v = replicate 24 (fill v) ++ i64_bytes v

abbrev pub order_words : EthFlowOrderData → List Bytes
order_words order =
    abi_address order.buy_token
    ∷ abi_address order.receiver
    ∷ abi_u256 order.sell_amount
    ∷ abi_u256 order.buy_amount
    ∷ order.app_data
    ∷ abi_u256 order.fee_amount
    ∷ abi_u32 order.valid_to
    ∷ abi_bool order.partially_fillable
    ∷ abi_i64 order.quote_id
    ∷ []

-- `keccak256` is `alloy_primitives`'.
module _ (keccak256 : String → Bytes) where
  unfoldable pub encode_eth_flow_create_order : EthFlowOrderData → Bytes
  encode_eth_flow_create_order order =
      selector keccak256
        "createOrder((address,address,uint256,uint256,bytes32,uint256,uint32,bool,int64))"
      ++ concat (order_words order)

  unfoldable pub build_eth_flow_transaction : Bytes → EthFlowOrderData → EthFlowTransaction
  build_eth_flow_transaction contract order = record {
    to = contract;
    call_data = encode_eth_flow_create_order order;
    value = order.sell_amount;
  }

unfoldable pub is_eth_flow_order_data {ℓ} : {A : Type ℓ} → Option A → Bool
is_eth_flow_order_data (some data_of_order) = true
is_eth_flow_order_data none = false
