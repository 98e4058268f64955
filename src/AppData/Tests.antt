-- ===== src/AppData/Tests.antt =====
-- Documents, their JSON and their identifiers at concrete values.
use cow_rs.Base.{
  ◌≡◌, ◌↔◌, refl, ap, get_or, none, some, List, [], ◌∷◌, length, replicate, All-replicate, Result,
  ok, arith,
}
use cow_rs.Base.Bytes.{Bytes, as_bytes, be_bytes}
use cow_rs.Base.Hex.{IsByte, Text, prefix_0x}
use cow_rs.Base.Hex.Digits.{lower_hex}
use cow_rs.Base.Json.{
  Value, null, number, array, nil, cons, object, end, field, Same, objects, swapped,
}
use cow_rs.AppData.Base32.{loop, decode_base32_lower_nopad}
use cow_rs.AppData.Base32.Numbers.{IsBase32, decode-IsBase32_iff}
use cow_rs.AppData.Cid.{appdata_hex_to_cid}
use cow_rs.AppData.Cid.RoundTrip.{cid_bytes, Identifies, appdata_hex_to_cid-Identifies}
use cow_rs.AppData.Doc.{AppDataDoc, no_metadata, twap}
use cow_rs.AppData.Merge.{merge_app_data_doc}
use cow_rs.AppData.Merge.Laws.{IsMerge, merge_app_data_doc_laws}
use cow_rs.AppData.Validation.{ValidationError, validate_constraints}
use cow_rs.AppData.Validation.Allowed.{IsAllowed, validate_constraints_iff}
use cow_rs.AppData.Json.{sort_keys, appdata_hex, stringify_deterministic}
use cow_rs.AppData.Json.Canonical.{IsCanonical, appdata_hex-Same}

-- The base 32 form of the two bytes of "hi".
decode-IsBase32_iff_example :
    (decode_base32_lower_nopad (as_bytes "nbuq") ≡ ok (as_bytes "hi"))
    ↔ IsBase32 (as_bytes "nbuq") (as_bytes "hi")
decode-IsBase32_iff_example = decode-IsBase32_iff (as_bytes "nbuq") (as_bytes "hi")

abbrev doc : Text → AppDataDoc
doc code = record {
  version = as_bytes "1.14.0";
  app_code = some code;
  environment = none;
  metadata = record no_metadata { order_class = some twap };
}

abbrev first : AppDataDoc
first = doc (as_bytes "first")

abbrev second : AppDataDoc
second = doc (as_bytes "second")

abbrev third : AppDataDoc
third = doc (as_bytes "third")

merge_app_data_doc_example :
    IsMerge first second (merge_app_data_doc first second)
    × (merge_app_data_doc (merge_app_data_doc first second) third
        ≡ merge_app_data_doc first (merge_app_data_doc second third))
    × (merge_app_data_doc first first ≡ first)
merge_app_data_doc_example = merge_app_data_doc_laws first second third

abbrev no_errors : List ValidationError
no_errors = []

validate_constraints_example :
    (validate_constraints first no_errors ≡ []) ↔ ((no_errors ≡ []) × IsAllowed first)
validate_constraints_example = validate_constraints_iff first no_errors

abbrev one : Value
one = number (b'1' ∷ [])

-- The value of a document, its fields not in order, and the same value with its fields in order.
abbrev shuffled : Value
shuffled = object (field (as_bytes "b") (array (cons one nil)) (field (as_bytes "a") null end))

abbrev sorted : Value
sorted = object (field (as_bytes "a") null (field (as_bytes "b") (array (cons one nil)) end))

abbrev value_of : AppDataDoc → Result Value
value_of d = ok shuffled

-- The first key alone stands for the text.
abbrev written : Value → Result Bytes
written (object (field k v fs)) = ok k
written other = ok []

abbrev hash : Bytes → Bytes
hash bs = be_bytes 32 (length bs)

shuffled-Same : Same shuffled sorted
shuffled-Same = objects (
    swapped (as_bytes "b") (as_bytes "a") (array (cons one nil)) null end
      (λ e. absurd (omega (arith, ap (λ (bs : Bytes). get_or bs 0 0) e))))

appdata_hex-Same_example :
    (stringify_deterministic value_of written first ≡ written sorted)
    × (appdata_hex value_of written hash first ≡ ok (hash (as_bytes "a")))
    × Same shuffled (sort_keys shuffled)
    × IsCanonical (sort_keys shuffled)
appdata_hex-Same_example =
    appdata_hex-Same value_of written hash first shuffled sorted (as_bytes "a") refl shuffled-Same
      (refl, tt, (tt, (tt, tt), tt)) refl

abbrev body : Text
body = as_bytes "afkrwiaha4dqobyha4dqobyha4dqobyha4dqobyha4dqobyha4dqobyha4"

appdata_hex_to_cid-Identifies_example :
    (cid : Text) × (appdata_hex_to_cid lower_hex (prefix_0x (lower_hex.encode (replicate 32 7)))
      ≡ ok cid)
    × Identifies lower_hex (replicate 32 7) cid
    × Identifies lower_hex (replicate 32 7) (b'b' ∷ body)
    × Identifies lower_hex (replicate 32 7) (b'B' ∷ body)
unfolding decode_base32_lower_nopad loop
appdata_hex_to_cid-Identifies_example =
    appdata_hex_to_cid-Identifies lower_hex (replicate 32 7) refl
      (All-replicate IsByte 32 7 (omega arith)) body
      ((decode-IsBase32_iff body (cid_bytes (replicate 32 7))).0 refl)
