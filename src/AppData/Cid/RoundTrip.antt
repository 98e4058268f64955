-- ===== src/AppData/Cid/RoundTrip.antt =====
-- The identifier of an app-data hash gives the hash back.
use cow_rs.Base.{◌≡◌, ◌∷◌, All, ok, arith, take-all}
use cow_rs.Base.Bytes.{Bytes}
use cow_rs.Base.Hex.{Text, IsByte, HexCodec, prefix_0x}
use cow_rs.Base.Words.{IsWord}
use cow_rs.AppData.Base32.Numbers.{IsBase32, decode-IsBase32_iff}
use cow_rs.AppData.Cid.{
  cid_version, multicodec_raw, hash_keccak256, hash_len, appdata_hex_to_cid, decode_multibase,
  cid_to_appdata_hex, parse_cid, extract_digest,
}

abbrev pub cid_bytes : Bytes → Bytes
cid_bytes digest = cid_version ∷ multicodec_raw ∷ hash_keccak256 ∷ hash_len ∷ digest

-- What every reader makes of an identifier of the hash.
pub record Identifies (hex : HexCodec) (digest : Bytes) (cid : Text) : Type 0 where
  pub app_data : cid_to_appdata_hex hex cid ≡ ok (prefix_0x (hex.encode digest))
  pub extracted : extract_digest hex cid ≡ ok (prefix_0x (hex.encode digest))
  pub parsed :
      parse_cid hex cid
      ≡ ok (record {
        version = 1;
        codec = 0x55;
        hash_function = 0x1b;
        hash_length = 32;
        digest = digest;
      })

module _ (hex : HexCodec) (digest : Bytes) (width : IsWord digest) (small : All IsByte digest) where
  cid_bytes-Identifies :
      (cid : Text) → decode_multibase hex cid ≡ ok (cid_bytes digest) → Identifies hex digest cid
  unfolding cid_to_appdata_hex extract_digest parse_cid
  cid_bytes-Identifies cid e = record {
    app_data = rw (e, width, take-all 32 digest (omega arith));
    extracted = rw (e, width);
    parsed = rw (e, width);
  }

  -- For the text of a hash of 32 bytes an identifier is made, and it is read as these bytes, not hashed
  -- again, and their header; and so is every base 32 form of the same bytes, behind either letter.
  pub appdata_hex_to_cid-Identifies :
      (body : Text)
      → IsBase32 body (cid_bytes digest)
      → (cid : Text) × (appdata_hex_to_cid hex (prefix_0x (hex.encode digest)) ≡ ok cid)
        × Identifies hex digest cid
        × Identifies hex digest (b'b' ∷ body)
        × Identifies hex digest (b'B' ∷ body)
  unfolding appdata_hex_to_cid decode_multibase
  appdata_hex_to_cid-Identifies body h =
      let bytes : All IsByte (cid_bytes digest) =
        (omega arith, (omega arith, (omega arith, (omega arith, small)))) in
      let base32 = (decode-IsBase32_iff body (cid_bytes digest)).1 h in
      (
        b'f' ∷ hex.encode (cid_bytes digest),
        rw (hex.decode_encode digest small, width),
        cid_bytes-Identifies _ (rw (hex.decode_encode (cid_bytes digest) bytes)),
        cid_bytes-Identifies _ base32,
        cid_bytes-Identifies _ base32,
      )
