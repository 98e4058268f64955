-- ===== src/Settlement/Refunds/Calldata.antt =====
-- The calldata of a refund holds the order's UID.
use cow_rs.Base.{
  ℕ, String, ◌%◌, ◌^◌, ◌<◌, ◌≡◌, refl, ◌∙◌, ap, List, [], ◌∷◌, ◌++◌, length, concat, take, drop,
  All, ok, arith, true, ◌↔◌, length-append, length-take, drop-append, take-append,
}
use cow_rs.Base.Bytes.{Bytes}
use cow_rs.Base.Hex.{IsByte, HexCodec, prefix_0x, trim_start_0x-prefix_0x}
use cow_rs.Base.Words.{IsWord, u256_be, pad_into, u256}
use cow_rs.Base.Words.Rows.{
  u256_be-IsWord, pad_into-append, length-pad_into, pad32_len-mod, length-concat,
}
use cow_rs.Base.Words.Read.{u64_at, u256-append}
use cow_rs.Base.Words.Layout.{IsAt}
use cow_rs.Settlement.Encoder.{selector}
use cow_rs.Settlement.Refunds.{
  bytes_call, decode_uid, settlement_refund_calldata, ethflow_refund_calldata, is_refundable,
  refund_amount,
}

-- A call with one argument of type `bytes`: behind the selector stand the offset 32, the length and
-- the bytes, and the arguments fill whole words.
pub record IsBytesCall (sel uid calldata : Bytes) : Type 0 where
  pub selects : take 4 calldata ≡ sel
  pub offset : u256 (drop 4 calldata) 0 ≡ 32
  pub size : u256 (drop 4 calldata) 32 ≡ length uid
  pub content : IsAt uid 64 (drop 4 calldata)
  pub whole_words : length calldata % 32 ≡ 4

bytes_call-IsBytesCall :
    (sel uid : Bytes)
    → length sel ≡ 4
    → length uid < 2 ^ 64
    → IsBytesCall sel uid (bytes_call sel uid)
bytes_call-IsBytesCall sel uid h fits =
    let ws : List Bytes = u256_be 32 ∷ u256_be (length uid) ∷ [] in
    let words : All IsWord ws = (u256_be-IsWord 32, (u256_be-IsWord (length uid), tt)) in
    let head_size = length-concat ws words in
    let (zs, padding) = pad_into-append uid in
    let arguments = drop-append 4 sel (concat ws ++ pad_into uid) h in
    record {
      selects = take-append 4 sel (concat ws ++ pad_into uid) h;
      offset = rw arguments (
          u256-append (concat ws) (pad_into uid) 0 (omega arith)
          ∙ u64_at ws 0 words (omega arith) 32 refl (omega arith));
      size = rw arguments (
          u256-append (concat ws) (pad_into uid) 32 (omega arith)
          ∙ u64_at ws 1 words (omega arith) (length uid) refl fits);
      content = (
        zs,
        ap (drop 64) arguments ∙ drop-append 64 (concat ws) (pad_into uid) head_size ∙ padding,
      );
      whole_words = omega (
        arith,
        length-append sel (concat ws ++ pad_into uid),
        length-append (concat ws) (pad_into uid),
        length-pad_into uid,
        pad32_len-mod (length uid),
      );
    }

selector_width :
    (keccak256 : String → Bytes) (s : String)
    → length (keccak256 s) ≡ 32
    → length (selector keccak256 s) ≡ 4
unfolding selector
selector_width keccak256 s h = omega (arith, length-take 4 (keccak256 s))

decode_uid_lem :
    (hex : HexCodec) (uid : Bytes)
    → All IsByte uid
    → decode_uid hex (prefix_0x (hex.encode uid)) ≡ ok uid
unfolding decode_uid
decode_uid_lem hex uid h =
    rw (trim_start_0x-prefix_0x (hex.encode uid) (hex.no_marker uid h), hex.decode_encode uid h)

-- Where the hash has 32 bytes, for the text of a UID of fewer than 2 ^ 64 bytes with one prefix
-- `0x`, both refunds give a call, each behind its own selector, whose one argument decodes to that
-- UID and fills whole words.
refund_calldata-IsBytesCall :
    (hex : HexCodec) (keccak256 : String → Bytes) (uid : Bytes)
    → ((s : String) → length (keccak256 s) ≡ 32)
    → All IsByte uid
    → length uid < 2 ^ 64
    → (free : Bytes) × (invalidate : Bytes) × (settlement_refund_calldata hex keccak256
          (prefix_0x (hex.encode uid))
        ≡ ok free)
      × (ethflow_refund_calldata hex keccak256 (prefix_0x (hex.encode uid)) ≡ ok invalidate)
      × IsBytesCall (selector keccak256 "freeFilledAmountStorage(bytes)") uid free
      × IsBytesCall (selector keccak256 "invalidateOrder(bytes)") uid invalidate
unfolding settlement_refund_calldata ethflow_refund_calldata
refund_calldata-IsBytesCall hex keccak256 uid width bytes fits =
    let free = selector keccak256 "freeFilledAmountStorage(bytes)" in
    let invalidate = selector keccak256 "invalidateOrder(bytes)" in
    let decoded = decode_uid_lem hex uid bytes in
    (
      bytes_call free uid,
      bytes_call invalidate uid,
      rw decoded,
      rw decoded,
      bytes_call-IsBytesCall free uid
          (selector_width keccak256 "freeFilledAmountStorage(bytes)" (width _)) fits,
      bytes_call-IsBytesCall invalidate uid
          (selector_width keccak256 "invalidateOrder(bytes)" (width _)) fits,
    )

-- A refund is possible just when the amount to refund is positive.
pub is_refundable_iff :
    (filled_amount total_amount : ℕ)
    → (is_refundable filled_amount total_amount ≡ true)
      ↔ (0 < refund_amount filled_amount total_amount)
unfolding is_refundable refund_amount
is_refundable_iff filled_amount total_amount = ground arith
