-- ===== src/Signing/Calldata.antt =====
-- crates/signing/src/calldata.rs: the calldata of `setPreSignature` and `invalidateOrder`.
use cow_rs.Base.{
  ℕ, String, Bool, if◌then◌else◌, ◌%◌, ◌^◌, ◌<◌, ◌≡◌, refl, ◌∙◌, ap, List, [], ◌∷◌, ◌++◌, length,
  concat, take, drop, All, ok, arith, Result, ◌>>=◌, length-append, length-take, drop-append,
  take-append,
}
use cow_rs.Base.Bytes.{Bytes}
use cow_rs.Base.Hex.{IsByte, Text, HexCodec, prefix_0x, trim_start_0x-prefix_0x}
use cow_rs.Base.Words.{IsWord, u256_be, pad_into, u256}
use cow_rs.Base.Words.Rows.{
  u256_be-IsWord, pad_into-append, length-pad_into, pad32_len-mod, length-concat,
}
use cow_rs.Base.Words.Read.{u64_at, u256-append}
use cow_rs.Base.Words.Layout.{IsAt}
use cow_rs.Settlement.Encoder.{selector}
use cow_rs.Settlement.Refunds.{bytes_call, decode_uid}

-- Two head words, the offset of the bytes and the flag, stand before the length and the bytes.
abbrev pub pre_signature_head : Bytes → Bool → List Bytes
pre_signature_head uid signed =
    u256_be 64 ∷ u256_be (if signed then 1 else 0) ∷ u256_be (length uid) ∷ []

module _ (hex : HexCodec) (keccak256 : String → Bytes) where
  unfoldable pub set_pre_signature_calldata : Text → Bool → Result Bytes
  set_pre_signature_calldata order_uid signed = do
    uid_bytes ← decode_uid hex order_uid
    ok (
        selector keccak256 "setPreSignature(bytes,bool)"
        ++ (concat (pre_signature_head uid_bytes signed) ++ pad_into uid_bytes))

  unfoldable pub invalidate_order_calldata : Text → Result Bytes
  invalidate_order_calldata order_uid = do
    uid_bytes ← decode_uid hex order_uid
    ok (bytes_call (selector keccak256 "invalidateOrder(bytes)") uid_bytes)

-- A call of `setPreSignature` for the UID with the flag.
pub record IsSigningCall (sel uid : Bytes) (signed : Bool) (calldata : Bytes) : Type 0 where
  pub selects : take 4 calldata ≡ sel
  pub offset : u256 (drop 4 calldata) 0 ≡ 64
  pub flag : u256 (drop 4 calldata) 32 ≡ (if signed then 1 else 0)
  pub size : u256 (drop 4 calldata) 64 ≡ length uid
  pub content : IsAt uid 96 (drop 4 calldata)
  pub whole_words : length calldata % 32 ≡ 4

pre_signature-IsSigningCall :
    (sel uid : Bytes) (signed : Bool)
    → length sel ≡ 4
    → length uid < 2 ^ 64
    → IsSigningCall sel uid signed (sel ++ (concat (pre_signature_head uid signed) ++ pad_into uid))
pre_signature-IsSigningCall sel uid signed h fits =
    let ws : List Bytes = pre_signature_head uid signed in
    let flag : ℕ = if signed then 1 else 0 in
    let words : All IsWord ws =
      (u256_be-IsWord 64, (u256_be-IsWord flag, (u256_be-IsWord (length uid), tt))) in
    let (zs, padding) = pad_into-append uid in
    let arguments = drop-append 4 sel (concat ws ++ pad_into uid) h in
    let small : flag < 2 ^ 64 = ground arith in
    record {
      selects = take-append 4 sel (concat ws ++ pad_into uid) h;
      offset = rw arguments (
          u256-append (concat ws) (pad_into uid) 0 (omega (arith, length-concat ws words))
          ∙ u64_at ws 0 words (omega arith) 64 refl (omega arith));
      flag = rw arguments (
          u256-append (concat ws) (pad_into uid) 32 (omega (arith, length-concat ws words))
          ∙ u64_at ws 1 words (omega arith) flag refl small);
      size = rw arguments (
          u256-append (concat ws) (pad_into uid) 64 (omega (arith, length-concat ws words))
          ∙ u64_at ws 2 words (omega arith) (length uid) refl fits);
      content = (
        zs,
        ap (drop 96) arguments
            ∙ drop-append 96 (concat ws) (pad_into uid) (length-concat ws words)
            ∙ padding,
      );
      whole_words = omega (
        arith,
        length-append sel (concat ws ++ pad_into uid),
        length-append (concat ws) (pad_into uid),
        length-concat ws words,
        length-pad_into uid,
        pad32_len-mod (length uid),
      );
    }

-- Where the hash has 32 bytes, for the text of a UID of fewer than 2 ^ 64 bytes with one prefix
-- `0x`, the pre-signature is a call whose arguments are that UID and the flag.
set_pre_signature-IsSigningCall :
    (hex : HexCodec) (keccak256 : String → Bytes) (uid : Bytes) (signed : Bool)
    → ((s : String) → length (keccak256 s) ≡ 32)
    → All IsByte uid
    → length uid < 2 ^ 64
    → (calldata : Bytes) × (set_pre_signature_calldata hex keccak256
          (prefix_0x (hex.encode uid))
          signed
        ≡ ok calldata)
      × IsSigningCall (selector keccak256 "setPreSignature(bytes,bool)") uid signed calldata
unfolding set_pre_signature_calldata decode_uid selector
set_pre_signature-IsSigningCall hex keccak256 uid signed width bytes fits = (
  _,
  rw (
    trim_start_0x-prefix_0x (hex.encode uid) (hex.no_marker uid bytes),
    hex.decode_encode uid bytes,
  ),
  pre_signature-IsSigningCall _ uid signed
      (omega (
        arith,
        length-take 4 (keccak256 "setPreSignature(bytes,bool)"),
        width "setPreSignature(bytes,bool)",
      ))
      fits,
)
