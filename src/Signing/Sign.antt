-- ===== src/Signing/Sign.antt =====
-- crates/signing/src/utils.rs: orders and cancellations signed with an owner's key, and the results
-- that need no key.
use cow_rs.Base.{ℕ, ◌≡◌, refl, List, [], ◌∷◌, concat, Result, ok, ◌>>=◌}
use cow_rs.Base.Bytes.{Bytes, as_bytes}
use cow_rs.Base.Hex.{Text, HexCodec, prefix_0x}
use cow_rs.Types.{UnsignedOrder, SigningScheme}
use cow_rs.Signing.Eip712.{domain_separator, order_hash, signing_digest, cancellations_hash}

pub data EcdsaSigningScheme : Type 0 where
  eip712 eth_sign : EcdsaSigningScheme

unfoldable pub into_signing_scheme : EcdsaSigningScheme → SigningScheme
into_signing_scheme eip712 = SigningScheme.eip712
into_signing_scheme eth_sign = SigningScheme.eth_sign

pub record SigningResult : Type 0 where
  pub signature : Text
  pub signing_scheme : SigningScheme

-- The key is a function from digests to the 65 bytes of a signature.
module _ (hex : HexCodec) (keccak256 : Bytes → Bytes) (sign_hash : Bytes → Result Bytes) where
  unfoldable pub presign_result : Bytes → SigningResult
  presign_result owner = record {
    signature = prefix_0x (hex.encode owner);
    signing_scheme = SigningScheme.pre_sign;
  }

  unfoldable pub eip1271_result : Bytes → SigningResult
  eip1271_result signature_bytes = record {
    signature = prefix_0x (hex.encode signature_bytes);
    signing_scheme = SigningScheme.eip1271;
  }

  unfoldable pub eth_sign_digest : Bytes → Bytes
  eth_sign_digest hash =
      keccak256
        (concat ((0x19 ∷ as_bytes "Ethereum Signed Message:") ∷ (0x0a ∷ as_bytes "32") ∷ hash ∷ []))

  unfoldable pub digest_of : EcdsaSigningScheme → ℕ → Bytes → Bytes
  digest_of eip712 chain_id hash =
      signing_digest keccak256 (domain_separator keccak256 chain_id) hash
  digest_of eth_sign chain_id hash = eth_sign_digest hash

  unfoldable pub signing_result : EcdsaSigningScheme → Bytes → Result SigningResult
  signing_result scheme digest = do
    sig_bytes ← sign_hash digest
    ok (record {
      signature = prefix_0x (hex.encode sig_bytes);
      signing_scheme = into_signing_scheme scheme;
    })

  unfoldable pub sign_order : UnsignedOrder → ℕ → EcdsaSigningScheme → Result SigningResult
  sign_order order chain_id scheme =
      signing_result scheme (digest_of scheme chain_id (order_hash keccak256 order))

  unfoldable pub sign_order_cancellations :
      List Text → ℕ → EcdsaSigningScheme → Result SigningResult
  sign_order_cancellations order_uids chain_id scheme = do
    c_hash ← cancellations_hash keccak256 hex order_uids
    signing_result scheme (digest_of scheme chain_id c_hash)

  unfoldable pub sign_order_cancellation : Text → ℕ → EcdsaSigningScheme → Result SigningResult
  sign_order_cancellation order_uid = sign_order_cancellations (order_uid ∷ [])

  -- An `eth_sign` signature of an order does not depend on the chain that it is made for, and nor
  -- does one of cancellations.
  sign_order-eth_sign :
      (order : UnsignedOrder) (order_uids : List Text) (c d : ℕ)
      → (sign_order order c eth_sign ≡ sign_order order d eth_sign)
        × (sign_order_cancellations order_uids c eth_sign
            ≡ sign_order_cancellations order_uids d eth_sign)
  unfolding sign_order sign_order_cancellations digest_of
  sign_order-eth_sign order order_uids c d = (refl, refl)
