-- ===== src/Settlement/Refunds.antt =====
-- crates/settlement/src/refunds.rs: the calldata of refunds, and what is left to refund.
pub mod Calldata
use cow_rs.Base.{
  ℕ, ◌+◌, ◌-◌, ◌<◌, ◌≡◌, String, Bool, ltb, List, [], ◌∷◌, ◌++◌, length, concat, Option, none, some,
  Result, ok, err, ◌>>=◌, api, or_fail,
}
use cow_rs.Base.Bytes.{Bytes}
use cow_rs.Base.Hex.{Text, HexCodec, trim_start_0x}
use cow_rs.Base.Words.{u256_be, pad_into}
use cow_rs.Settlement.Encoder.{selector}

pub data RefundType : Type 0 where
  settlement eth_flow : RefundType

pub record OrderRefund : Type 0 where
  pub order_uid : Text
  pub refund_type : RefundType

unfoldable pub decode_uid : HexCodec → Text → Result Bytes
decode_uid hex uid = or_fail (hex.decode (trim_start_0x uid)) (api 0 "invalid orderUid")

-- The one `bytes` argument of a call, behind its selector.
abbrev pub bytes_call : Bytes → Bytes → Bytes
bytes_call sel uid = sel ++ (concat (u256_be 32 ∷ u256_be (length uid) ∷ []) ++ pad_into uid)

module _ (hex : HexCodec) (keccak256 : String → Bytes) where
  unfoldable pub settlement_refund_calldata : Text → Result Bytes
  settlement_refund_calldata order_uid = do
    uid_bytes ← decode_uid hex order_uid
    ok (bytes_call (selector keccak256 "freeFilledAmountStorage(bytes)") uid_bytes)

  unfoldable pub ethflow_refund_calldata : Text → Result Bytes
  ethflow_refund_calldata order_uid = do
    uid_bytes ← decode_uid hex order_uid
    ok (bytes_call (selector keccak256 "invalidateOrder(bytes)") uid_bytes)

unfoldable pub is_refundable : ℕ → ℕ → Bool
is_refundable filled_amount total_amount = ltb filled_amount total_amount

-- `saturating_sub`.
unfoldable pub refund_amount : ℕ → ℕ → ℕ
refund_amount filled_amount total_amount = total_amount - filled_amount
