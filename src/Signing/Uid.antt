-- ===== src/Signing/Uid.antt =====
-- crates/signing/src/eip712.rs and utils.rs: the identity of an order, packed and read back.
use cow_rs.Base.{
  ℕ, not, ◌==◌, [], ◌∷◌, ◌++◌, length, concat, drop, All, ◌<◌, ◌^◌, ◌≡◌, ap, sym, ◌∙◌, arith,
  Result, ok, ◌>>=◌, ◌>>◌, parse, or_fail, fail_if, take-append, drop-append, drop-drop,
  length-append, All-append,
}
use cow_rs.Base.Bytes.{Bytes, be_bytes, from_be, from_be-be_bytes, length-be_bytes}
use cow_rs.Base.Hex.{Text, IsByte, HexCodec, prefix_0x, trim_start_0x, trim_start_0x-prefix_0x}
use cow_rs.Base.Hex.Words.{be_bytes-IsByte}
use cow_rs.Base.Words.{slice, IsWord, IsAddress}
use cow_rs.Types.{UnsignedOrder}
use cow_rs.Signing.Eip712.{domain_separator, order_hash, signing_digest}

abbrev pub order_uid_length : ℕ
order_uid_length = 56

pub record OrderUidParams : Type 0 where
  pub order_digest : Bytes
  pub owner : Bytes
  pub valid_to : ℕ

abbrev pub uid_bytes : Bytes → Bytes → ℕ → Bytes
uid_bytes order_digest owner valid_to = concat (order_digest ∷ owner ∷ be_bytes 4 valid_to ∷ [])

unfoldable pub params_of : Bytes → OrderUidParams
params_of bytes = record {
  order_digest = slice 0 32 bytes;
  owner = slice 32 52 bytes;
  valid_to = from_be (slice 52 56 bytes);
}

module _ (hex : HexCodec) where
  unfoldable pub pack_order_uid_params : Bytes → Bytes → ℕ → Text
  pack_order_uid_params order_digest owner valid_to =
      prefix_0x (hex.encode (uid_bytes order_digest owner valid_to))

  unfoldable pub extract_order_uid_params : Text → Result OrderUidParams
  extract_order_uid_params order_uid = do
    bytes ← or_fail (hex.decode (trim_start_0x order_uid)) (parse "orderUid" "invalid hex")
    fail_if (not (length bytes == order_uid_length)) (parse "orderUid" "invalid length")
    ok (params_of bytes)

  unfoldable pub compute_order_uid : (Bytes → Bytes) → ℕ → UnsignedOrder → Bytes → Text
  compute_order_uid keccak256 chain_id order owner =
      let digest =
        signing_digest keccak256 (domain_separator keccak256 chain_id)
          (order_hash keccak256 order) in
      prefix_0x (hex.encode (uid_bytes digest owner order.valid_to))

  abbrev pub generate_order_id : (Bytes → Bytes) → ℕ → UnsignedOrder → Bytes → Text
  generate_order_id = compute_order_uid

module _ (p : OrderUidParams) (h : IsWord p.order_digest) (k : IsAddress p.owner)
    (fits : p.valid_to < 2 ^ 32) where
  abbrev bytes : Bytes
  bytes = uid_bytes p.order_digest p.owner p.valid_to

  length-uid_bytes : length bytes ≡ 56
  length-uid_bytes = omega (
    arith,
    length-append p.order_digest (p.owner ++ (be_bytes 4 p.valid_to ++ [])),
    length-append p.owner (be_bytes 4 p.valid_to ++ []),
    length-append (be_bytes 4 p.valid_to) [],
    length-be_bytes 4 p.valid_to,
  )

  params_of-uid_bytes : params_of bytes ≡ p
  unfolding params_of
  params_of-uid_bytes =
      let tail : Bytes = be_bytes 4 p.valid_to ++ [] in
      let d₁ : drop 32 bytes ≡ p.owner ++ tail =
        drop-append 32 p.order_digest (p.owner ++ tail) h in
      let d₂ : drop 52 bytes ≡ tail =
        sym (drop-drop 32 20 bytes) ∙ ap (drop 20) d₁ ∙ drop-append 20 p.owner tail k in
      rw (
        take-append 32 p.order_digest (p.owner ++ tail) h,
        d₁,
        take-append 20 p.owner tail k,
        d₂,
        take-append 4 (be_bytes 4 p.valid_to) [] (length-be_bytes 4 p.valid_to),
        from_be-be_bytes 4 p.valid_to fits,
      )

  -- A digest of 32 bytes, an owner of 20 and an expiry below 2 ^ 32 are read back from their UID.
  pub extract_order_uid-pack_order_uid :
      (hex : HexCodec)
      → All IsByte p.order_digest
      → All IsByte p.owner
      → extract_order_uid_params hex (pack_order_uid_params hex p.order_digest p.owner p.valid_to)
        ≡ ok p
  unfolding extract_order_uid_params pack_order_uid_params
  extract_order_uid-pack_order_uid hex b₁ b₂ =
      let all : All IsByte bytes = All-append IsByte p.order_digest _ b₁ (
        All-append IsByte p.owner _ b₂
          (All-append IsByte (be_bytes 4 p.valid_to) [] (be_bytes-IsByte 4 p.valid_to) tt)) in
      rw (
        trim_start_0x-prefix_0x (hex.encode bytes) (hex.no_marker bytes all),
        hex.decode_encode bytes all,
        length-uid_bytes,
        params_of-uid_bytes,
      )
