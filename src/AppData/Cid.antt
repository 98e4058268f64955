-- ===== src/AppData/Cid.antt =====
-- crates/app-data/src/cid.rs: content identifiers of app data, written in base 16 and read in base
-- 16 and base 32.
pub mod RoundTrip
use cow_rs.Base.{
  ℕ, Bool, not, ltb, ◌==◌, ◌||◌, if◌then◌else◌, List, [], ◌∷◌, ◌++◌, length, get_or, drop, Result,
  ok, err, ◌>>=◌, ◌>>◌, app_data, or_fail, fail_if,
}
use cow_rs.Base.Bytes.{Bytes}
use cow_rs.Base.Hex.{Text, HexCodec, prefix_0x, strip_0x}
use cow_rs.Base.Words.{slice}
use cow_rs.AppData.Base32.{decode_base32_lower_nopad}

abbrev pub cid_version : ℕ
cid_version = 0x01

abbrev pub multicodec_raw : ℕ
multicodec_raw = 0x55

abbrev pub hash_keccak256 : ℕ
hash_keccak256 = 0x1b

abbrev pub hash_len : ℕ
hash_len = 0x20

abbrev pub multicodec_dag_pb : ℕ
multicodec_dag_pb = 0x70

abbrev pub hash_sha2_256 : ℕ
hash_sha2_256 = 0x12

pub record CidComponents : Type 0 where
  pub version : ℕ
  pub codec : ℕ
  pub hash_function : ℕ
  pub hash_length : ℕ
  pub digest : Bytes

abbrev pub components_of : Bytes → CidComponents
components_of bytes = record {
  version = get_or bytes 0 0;
  codec = get_or bytes 1 0;
  hash_function = get_or bytes 2 0;
  hash_length = get_or bytes 3 0;
  digest = drop 4 bytes;
}

unfoldable pub decode_cid : Bytes → Result CidComponents
decode_cid bytes = do
  fail_if (ltb (length bytes) 4) (app_data "CID bytes too short")
  ok (components_of bytes)

module _ (hex : HexCodec) where
  unfoldable pub to_cid_bytes : ℕ → ℕ → ℕ → ℕ → Text → Result Bytes
  to_cid_bytes version multicodec hashing_algorithm hashing_length multihash_hex = do
    hash_bytes ← or_fail (hex.decode (strip_0x multihash_hex)) (app_data "invalid hex")
    ok (version ∷ multicodec ∷ hashing_algorithm ∷ hashing_length ∷ hash_bytes)

  unfoldable pub appdata_hex_to_cid : Text → Result Text
  appdata_hex_to_cid app_data_hex = do
    bytes ← or_fail (hex.decode (strip_0x app_data_hex)) (app_data "invalid hex")
    fail_if (not (length bytes == hash_len)) (app_data "appDataHex must be 32 bytes")
    ok (b'f' ∷ hex.encode (cid_version ∷ multicodec_raw ∷ hash_keccak256 ∷ hash_len ∷ bytes))

  unfoldable pub decode_multibase : Text → Result Bytes
  decode_multibase [] = err (app_data "empty CID string")
  decode_multibase (prefix ∷ body) =
      if prefix == b'f' || prefix == b'F'
      then or_fail (hex.decode body) (app_data "invalid CID hex")
      else if prefix == b'b' || prefix == b'B'
      then decode_base32_lower_nopad body
      else err (app_data "unsupported CID multibase prefix")

  unfoldable pub cid_to_appdata_hex : Text → Result Text
  cid_to_appdata_hex cid = do
    bytes ← decode_multibase cid
    fail_if (ltb (length bytes) 36) (app_data "CID too short")
    ok (prefix_0x (hex.encode (slice 4 36 bytes)))

  unfoldable pub app_data_hex_to_cid_legacy_aux : Text → Result Text
  app_data_hex_to_cid_legacy_aux app_data_hex = do
    cid_bytes ← to_cid_bytes cid_version multicodec_dag_pb hash_sha2_256 hash_len app_data_hex
    ok (b'f' ∷ hex.encode cid_bytes)

  abbrev pub is_empty : Text → Bool
  is_empty cid = length cid == 0

  unfoldable pub assert_cid : Text → Text → Result (Unit {0})
  assert_cid cid app_data_hex =
      fail_if (is_empty cid) (app_data "Error getting CID from appDataHex")

  unfoldable pub app_data_hex_to_cid_legacy : Text → Result Text
  app_data_hex_to_cid_legacy app_data_hex = do
    cid ← app_data_hex_to_cid_legacy_aux app_data_hex
    assert_cid cid app_data_hex
    ok cid

  unfoldable pub parse_cid : Text → Result CidComponents
  parse_cid ipfs_hash = do
    bytes ← decode_multibase ipfs_hash
    fail_if (ltb (length bytes) 4) (app_data "CID too short")
    ok (components_of bytes)

  unfoldable pub extract_digest : Text → Result Text
  extract_digest cid = do components ← parse_cid cid; ok (prefix_0x (hex.encode components.digest))
