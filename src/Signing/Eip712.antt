-- ===== src/Signing/Eip712.antt =====
-- crates/signing/src/eip712.rs: the typed-data hashes that owners sign.
pub mod Commits
use cow_rs.Base.{
  ℕ, String, Bool, if◌then◌else◌, List, [], ◌∷◌, ◌++◌, concat, replicate, Result, ok, err, ◌>>=◌,
  api, or_fail,
}
use cow_rs.Base.Bytes.{Bytes, be_bytes, as_bytes}
use cow_rs.Base.Hex.{Text, HexCodec, trim_start_0x}
use cow_rs.Types.{OrderKind, sell, buy, TokenBalance, balance_as_str, UnsignedOrder}
use cow_rs.Types.Flags.{normalize_buy_token_balance}

abbrev pub settlement_contract : Bytes
settlement_contract =
    0x90 ∷ 0x08 ∷ 0xd1 ∷ 0x9f ∷ 0x58 ∷ 0xaa ∷ 0xbd ∷ 0x9e ∷ 0xd0 ∷ 0xd6 ∷ 0x09 ∷ 0x71 ∷ 0x56 ∷ 0x5a
    ∷ 0xa8 ∷ 0x51 ∷ 0x05 ∷ 0x60 ∷ 0xab ∷ 0x41 ∷ []

abbrev pub abi_address : Bytes → Bytes
abi_address a = replicate 12 0 ++ a

abbrev pub abi_u256 : ℕ → Bytes
abi_u256 v = be_bytes 32 v

abbrev pub abi_u32 : ℕ → Bytes
abi_u32 v = replicate 28 0 ++ be_bytes 4 v

abbrev pub abi_bool : Bool → Bytes
abi_bool v = abi_u32 (if v then 1 else 0)

abbrev pub kind_bytes : OrderKind → Bytes
kind_bytes sell = as_bytes "sell"
kind_bytes buy = as_bytes "buy"

pub record OrderDomain : Type 0 where
  pub name : String
  pub version : String
  pub chain_id : ℕ
  pub verifying_contract : Bytes

abbrev pub for_chain : ℕ → OrderDomain
for_chain chain_id = record {
  name = "Gnosis Protocol";
  version = "v2";
  chain_id = chain_id;
  verifying_contract = settlement_contract;
}

pub record OrderTypedData : Type 0 where
  pub domain : OrderDomain
  pub primary_type : String
  pub order : UnsignedOrder

unfoldable pub build_order_typed_data : UnsignedOrder → ℕ → OrderTypedData
build_order_typed_data order chain_id = record {
  domain = for_chain chain_id;
  primary_type = "GPv2Order.Data";
  order = order;
}

unfoldable pub normalize_order : UnsignedOrder → UnsignedOrder
normalize_order order = record order {
  buy_token_balance = normalize_buy_token_balance order.buy_token_balance;
}

-- `hashify`: a number as one word.
unfoldable pub hashify : ℕ → Bytes
hashify value = be_bytes 32 value

-- `keccak256` is `alloy_primitives`'.
module _ (keccak256 : Bytes → Bytes) where
  unfoldable pub domain_type_hash : Bytes
  domain_type_hash = keccak256 (
      as_bytes "EIP712Domain(string name,string version,uint256 chainId,address verifyingContract)")

  unfoldable pub order_type_hash : Bytes
  order_type_hash = keccak256 (
      as_bytes
        "Order(address sellToken,address buyToken,address receiver,uint256 sellAmount,uint256 buyAmount,uint32 validTo,bytes32 appData,uint256 feeAmount,string kind,bool partiallyFillable,string sellTokenBalance,string buyTokenBalance)")

  abbrev pub domain_words : Bytes → Bytes → ℕ → Bytes → List Bytes
  domain_words name_hash version_hash chain_id contract =
      domain_type_hash ∷ name_hash ∷ version_hash ∷ abi_u256 chain_id ∷ abi_address contract ∷ []

  unfoldable pub domain_separator : ℕ → Bytes
  domain_separator chain_id = keccak256 (
      concat (
        domain_words (keccak256 (as_bytes "Gnosis Protocol")) (keccak256 (as_bytes "v2")) chain_id
          settlement_contract))

  unfoldable pub domain_separator_from : OrderDomain → Bytes
  domain_separator_from d = keccak256 (
      concat (
        domain_words (keccak256 (as_bytes d.name)) (keccak256 (as_bytes d.version)) d.chain_id
          d.verifying_contract))

  unfoldable pub eip712_hash : TokenBalance → Bytes
  eip712_hash b = keccak256 (as_bytes (balance_as_str b))

  abbrev pub order_words : UnsignedOrder → List Bytes
  order_words o =
      order_type_hash
      ∷ abi_address o.sell_token
      ∷ abi_address o.buy_token
      ∷ abi_address o.receiver
      ∷ abi_u256 o.sell_amount
      ∷ abi_u256 o.buy_amount
      ∷ abi_u32 o.valid_to
      ∷ o.app_data
      ∷ abi_u256 o.fee_amount
      ∷ keccak256 (kind_bytes o.kind)
      ∷ abi_bool o.partially_fillable
      ∷ eip712_hash o.sell_token_balance
      ∷ eip712_hash o.buy_token_balance
      ∷ []

  unfoldable pub order_hash : UnsignedOrder → Bytes
  order_hash o = keccak256 (concat (order_words o))

  unfoldable pub signing_digest : Bytes → Bytes → Bytes
  signing_digest domain_sep o_hash =
      keccak256 (concat ((0x19 ∷ 0x01 ∷ []) ∷ domain_sep ∷ o_hash ∷ []))

  abbrev pub hash_typed_data : Bytes → Bytes → Bytes
  hash_typed_data = signing_digest

  unfoldable pub typed_data_digest : OrderTypedData → Bytes
  typed_data_digest t = signing_digest (domain_separator t.domain.chain_id) (order_hash t.order)

  unfoldable pub cancellations_type_hash : Bytes
  cancellations_type_hash = keccak256 (as_bytes "OrderCancellations(bytes[] orderUids)")

  module _ (hex : HexCodec) where
    -- The loop over the UIDs: the hashes of their bytes, until one is not hexadecimal.
    unfoldable pub element_hashes : List Text → Result Bytes
    element_hashes [] = ok []
    element_hashes (uid ∷ uids) = do
      bytes ← or_fail (hex.decode (trim_start_0x uid)) (api 0 "invalid orderUid")
      rest ← element_hashes uids
      ok (keccak256 bytes ++ rest)

    unfoldable pub cancellations_hash : List Text → Result Bytes
    cancellations_hash order_uids = do
      elements ← element_hashes order_uids
      ok (keccak256 (concat (cancellations_type_hash ∷ keccak256 elements ∷ [])))

    unfoldable pub hash_order_cancellations : ℕ → List Text → Result Bytes
    hash_order_cancellations chain_id order_uids = do
      ch ← cancellations_hash order_uids
      ok (signing_digest (domain_separator chain_id) ch)

    unfoldable pub hash_order_cancellation : ℕ → Text → Result Bytes
    hash_order_cancellation chain_id order_uid = hash_order_cancellations chain_id (order_uid ∷ [])
