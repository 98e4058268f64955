-- ===== src/AppData/Json.antt =====
-- crates/app-data/src/hash.rs: the deterministic JSON of a document and its hash.
pub mod Canonical
use cow_rs.Base.{ℕ, Bool, true, false, if◌then◌else◌, Result, ok, err, ◌>>=◌}
use cow_rs.Base.Bytes.{Bytes, bytes_le}
use cow_rs.Base.Json.{
  Value, null, bool, number, string, array, object, Items, nil, cons, Fields, end, field,
}
use cow_rs.Base.Hex.{Text, HexCodec, prefix_0x}
use cow_rs.AppData.Doc.{AppDataDoc, Metadata, latest_app_data_version, new_doc}
use cow_rs.Base.{none, some}

-- One step of the stable sort by key: a field goes in front of the first one with a key that is not
-- smaller.
abbrev pub insert_field : Bytes → Value → Fields → Fields
insert_field k v end = field k v end
insert_field k v (field j w fs) =
    let rest = insert_field k v fs in
    if bytes_le k j then field k v (field j w fs) else field j w rest

unfoldable mutual
  pub sort_keys : Value → Value
  sort_keys null = null
  sort_keys (bool b) = bool b
  sort_keys (number n) = number n
  sort_keys (string s) = string s
  sort_keys (array xs) = array (sort_items xs)
  sort_keys (object fs) = object (sort_fields fs)

  pub sort_items : Items → Items
  sort_items nil = nil
  sort_items (cons v xs) = cons (sort_keys v) (sort_items xs)

  pub sort_fields : Fields → Fields
  sort_fields end = end
  sort_fields (field k v fs) = insert_field k (sort_keys v) (sort_fields fs)

-- `serde_json::to_value` and `to_string`, and `keccak256`, are parameters.
module _ (to_value : AppDataDoc → Result Value) (to_string : Value → Result Bytes) where
  unfoldable pub stringify_deterministic : AppDataDoc → Result Bytes
  stringify_deterministic doc = do value ← to_value doc; to_string (sort_keys value)

  abbrev pub appdata_json : AppDataDoc → Result Bytes
  appdata_json = stringify_deterministic

  module _ (keccak256 : Bytes → Bytes) where
    unfoldable pub appdata_hex : AppDataDoc → Result Bytes
    appdata_hex doc = do json ← stringify_deterministic doc; ok (keccak256 json)

    module _ (hex : HexCodec) where
      unfoldable pub build_order_app_data : Text → Result Text
      build_order_app_data app_code = do
        hash ← appdata_hex (new_doc app_code)
        ok (prefix_0x (hex.encode hash))

      unfoldable pub build_app_data_doc_full : Text → Metadata → Result (Bytes × Text)
      build_app_data_doc_full app_code metadata = do
        json ← stringify_deterministic (record {
          version = latest_app_data_version;
          app_code = some app_code;
          environment = none;
          metadata = metadata;
        })
        ok (json, prefix_0x (hex.encode (keccak256 json)))

      unfoldable pub build_app_data_doc : Text → Metadata → Result Text
      build_app_data_doc app_code metadata = do
        full ← build_app_data_doc_full app_code metadata
        ok full.1
