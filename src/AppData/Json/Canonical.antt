-- ===== src/AppData/Json/Canonical.antt =====
-- The order of fields does not reach the hash.
use cow_rs.Base.{
  ◌≡◌, ◌≢◌, refl, ap, sym, ◌∙◌, true, false, Bool-cases, inl, inr, ok, Result, [], ◌∷◌, arith,
}
use cow_rs.Base.Bytes.{Bytes, bytes_le, bytes_le_total, bytes_le_antisymm}
use cow_rs.Base.Json.{
  Value, null, bool, number, string, array, object, Items, nil, cons, Fields, end, field, Same,
  same, arrays, objects, SameItems, nils, conses, SameFields, ends, fields, swapped, chained,
}
use cow_rs.AppData.Doc.{AppDataDoc}
use cow_rs.AppData.Json.{
  insert_field, sort_keys, sort_items, sort_fields, appdata_hex, stringify_deterministic,
}

bytes_le_trans :
    (xs ys zs : Bytes) → bytes_le xs ys ≡ true → bytes_le ys zs ≡ true → bytes_le xs zs ≡ true
bytes_le_trans [] ys zs h k = refl
bytes_le_trans (x ∷ xs) [] zs h k = cc
bytes_le_trans (x ∷ xs) (y ∷ ys) [] h k = cc
bytes_le_trans (x ∷ xs) (y ∷ ys) (z ∷ zs) h k = ground (arith, bytes_le_trans xs ys zs)

module _ (k j : Bytes) (v w : Value) (lt : bytes_le k j ≡ true) (gt : bytes_le j k ≡ false) where
  insert_field_lt :
      (fs : Fields)
      → insert_field k v (insert_field j w fs) ≡ insert_field j w (insert_field k v fs)
  insert_field_lt end = rw (lt, gt)
  insert_field_lt (field i u fs) = elim (Bool-cases (bytes_le j i)) [
    | inl before ↦ rw (before, lt, bytes_le_trans k j i lt before, gt, before)
    | inr behind ↦ elim (Bool-cases (bytes_le k i)) [
      | inl first ↦ rw (behind, first, gt, behind)
      | inr later ↦ rw (behind, later, behind) (ap (field i u) (insert_field_lt fs))
    ]
  ]

insert_field_comm :
    (k j : Bytes) (v w : Value) (fs : Fields)
    → k ≢ j
    → insert_field k v (insert_field j w fs) ≡ insert_field j w (insert_field k v fs)
insert_field_comm k j v w fs h = elim (Bool-cases (bytes_le j k)) [
  | inr gt ↦ insert_field_lt k j v w (bytes_le_total j k gt) gt fs
  | inl le ↦ elim (Bool-cases (bytes_le k j)) [
    | inl ge ↦ absurd (h (bytes_le_antisymm k j ge le))
    | inr gt ↦ sym (insert_field_lt j k w v le gt fs)
  ]
]

mutual
  unfolding sort_keys sort_items sort_fields

  Same-sort_keys : {v w : Value} → Same v w → sort_keys v ≡ sort_keys w
  Same-sort_keys (same v) = refl
  Same-sort_keys (arrays h) = ap array (Same-sort_items h)
  Same-sort_keys (objects h) = ap object (Same-sort_fields h)

  Same-sort_items : {xs ys : Items} → SameItems xs ys → sort_items xs ≡ sort_items ys
  Same-sort_items nils = refl
  Same-sort_items (conses h k) = cc (Same-sort_keys h, Same-sort_items k)

  Same-sort_fields : {fs gs : Fields} → SameFields fs gs → sort_fields fs ≡ sort_fields gs
  Same-sort_fields ends = refl
  Same-sort_fields (fields k h r) = cc (Same-sort_keys h, Same-sort_fields r)
  Same-sort_fields (swapped k j v w fs h) =
      insert_field_comm k j (sort_keys v) (sort_keys w) (sort_fields fs) h
  Same-sort_fields (chained h k) = Same-sort_fields h ∙ Same-sort_fields k

-- The keys of every object at every depth are in order.
abbrev pub LowerBound : Bytes → Fields → Type 0
LowerBound k end = Unit
LowerBound k (field j v fs) = bytes_le k j ≡ true

abbrev mutual
  pub IsCanonical : Value → Type 0
  IsCanonical null = Unit
  IsCanonical (bool b) = Unit
  IsCanonical (number n) = Unit
  IsCanonical (string s) = Unit
  IsCanonical (array xs) = AreCanonical xs
  IsCanonical (object fs) = IsOrdered fs

  pub AreCanonical : Items → Type 0
  AreCanonical nil = Unit
  AreCanonical (cons v xs) = IsCanonical v × AreCanonical xs

  pub IsOrdered : Fields → Type 0
  IsOrdered end = Unit
  IsOrdered (field k v fs) = LowerBound k fs × IsCanonical v × IsOrdered fs

LowerBound-insert :
    (i k : Bytes) (v : Value) (fs : Fields)
    → bytes_le i k ≡ true
    → LowerBound i fs
    → LowerBound i (insert_field k v fs)
LowerBound-insert i k v end h b = h
LowerBound-insert i k v (field j w fs) h b = elim (Bool-cases (bytes_le k j)) [
  | inl first ↦ rw first h
  | inr later ↦ rw later b
]

IsOrdered-insert :
    (k : Bytes) (v : Value) (fs : Fields)
    → IsCanonical v
    → IsOrdered fs
    → IsOrdered (insert_field k v fs)
IsOrdered-insert k v end h o = (tt, h, tt)
IsOrdered-insert k v (field j w fs) h (b, c, o) = elim (Bool-cases (bytes_le k j)) [
  | inl first ↦ rw first (first, h, (b, c, o))
  | inr later ↦
      rw later
        (LowerBound-insert j k v fs (bytes_le_total k j later) b, c, IsOrdered-insert k v fs h o)
]

mutual
  unfolding sort_keys sort_items sort_fields

  sort_keys-IsCanonical : (v : Value) → IsCanonical (sort_keys v)
  sort_keys-IsCanonical null = tt
  sort_keys-IsCanonical (bool b) = tt
  sort_keys-IsCanonical (number n) = tt
  sort_keys-IsCanonical (string s) = tt
  sort_keys-IsCanonical (array xs) = sort_items-AreCanonical xs
  sort_keys-IsCanonical (object fs) = sort_fields-IsOrdered fs

  sort_items-AreCanonical : (xs : Items) → AreCanonical (sort_items xs)
  sort_items-AreCanonical nil = tt
  sort_items-AreCanonical (cons v xs) = (sort_keys-IsCanonical v, sort_items-AreCanonical xs)

  sort_fields-IsOrdered : (fs : Fields) → IsOrdered (sort_fields fs)
  sort_fields-IsOrdered end = tt
  sort_fields-IsOrdered (field k v fs) =
      IsOrdered-insert k (sort_keys v) (sort_fields fs) (sort_keys-IsCanonical v)
        (sort_fields-IsOrdered fs)

bytes_le_refl : (xs : Bytes) → bytes_le xs xs ≡ true
bytes_le_refl xs = elim (Bool-cases (bytes_le xs xs)) [
  | inl le ↦ le
  | inr gt ↦ bytes_le_total xs xs gt
]

-- A field in front of the sorted ones is the same value, in another place.
SameFields-refl : (fs : Fields) → SameFields fs fs
SameFields-refl end = ends
SameFields-refl (field k v fs) = fields k (same v) (SameFields-refl fs)

SameFields-insert :
    (k : Bytes) (v : Value) (fs : Fields) → SameFields (field k v fs) (insert_field k v fs)
SameFields-insert k v end = SameFields-refl (field k v end)
SameFields-insert k v (field j w fs) = elim (Bool-cases (bytes_le k j)) [
  | inl first ↦ rw first (SameFields-refl (field k v (field j w fs)))
  | inr later ↦ rw later (
      chained (swapped k j v w fs (differ k j later))
        (fields j (same w) (SameFields-insert k v fs)))
]
  where
    differ : (k j : Bytes) → bytes_le k j ≡ false → k ≢ j
    differ k j later e = cc (bytes_le_refl j, later, e)

mutual
  unfolding sort_keys sort_items sort_fields

  sort_keys-Same : (v : Value) → Same v (sort_keys v)
  sort_keys-Same null = same null
  sort_keys-Same (bool b) = same (bool b)
  sort_keys-Same (number n) = same (number n)
  sort_keys-Same (string s) = same (string s)
  sort_keys-Same (array xs) = arrays (sort_items-Same xs)
  sort_keys-Same (object fs) = objects (sort_fields-Same fs)

  sort_items-Same : (xs : Items) → SameItems xs (sort_items xs)
  sort_items-Same nil = nils
  sort_items-Same (cons v xs) = conses (sort_keys-Same v) (sort_items-Same xs)

  sort_fields-Same : (fs : Fields) → SameFields fs (sort_fields fs)
  sort_fields-Same end = ends
  sort_fields-Same (field k v fs) =
      chained (fields k (sort_keys-Same v) (sort_fields-Same fs))
        (SameFields-insert k (sort_keys v) (sort_fields fs))

-- Sorting changes nothing that is in order.
insert_first :
    (k : Bytes) (v : Value) (fs : Fields) → LowerBound k fs → insert_field k v fs ≡ field k v fs
insert_first k v end h = refl
insert_first k v (field j w fs) h = rw h

mutual
  unfolding sort_keys sort_items sort_fields

  sort_keys_of_IsCanonical : (v : Value) → IsCanonical v → sort_keys v ≡ v
  sort_keys_of_IsCanonical null h = refl
  sort_keys_of_IsCanonical (bool b) h = refl
  sort_keys_of_IsCanonical (number n) h = refl
  sort_keys_of_IsCanonical (string s) h = refl
  sort_keys_of_IsCanonical (array xs) h = ap array (sort_items_of_AreCanonical xs h)
  sort_keys_of_IsCanonical (object fs) h = ap object (sort_fields_of_IsOrdered fs h)

  sort_items_of_AreCanonical : (xs : Items) → AreCanonical xs → sort_items xs ≡ xs
  sort_items_of_AreCanonical nil h = refl
  sort_items_of_AreCanonical (cons v xs) (h, k) =
      cc (sort_keys_of_IsCanonical v h, sort_items_of_AreCanonical xs k)

  sort_fields_of_IsOrdered : (fs : Fields) → IsOrdered fs → sort_fields fs ≡ fs
  sort_fields_of_IsOrdered end h = refl
  sort_fields_of_IsOrdered (field k v fs) (b, h, o) =
      rw (sort_keys_of_IsCanonical v h, sort_fields_of_IsOrdered fs o) (insert_first k v fs b)

-- Where the JSON value of a document is the same as `canonical` but for the order of fields, and
-- `canonical` has the keys of every object in order and has a text, the document is written as that text,
-- and its hash is the hash of the text. Sorting the value of the document gives such a `canonical`.
pub appdata_hex-Same :
    (to_value : AppDataDoc → Result Value) (to_string : Value → Result Bytes)
    (keccak256 : Bytes → Bytes) (doc : AppDataDoc) (v canonical : Value) (json : Bytes)
    → to_value doc ≡ ok v
    → Same v canonical
    → IsCanonical canonical
    → to_string canonical ≡ ok json
    → (stringify_deterministic to_value to_string doc ≡ to_string canonical)
      × (appdata_hex to_value to_string keccak256 doc ≡ ok (keccak256 json))
      × Same v (sort_keys v)
      × IsCanonical (sort_keys v)
unfolding appdata_hex stringify_deterministic
appdata_hex-Same to_value to_string keccak256 doc v canonical json e h k w =
    let sorted : sort_keys v ≡ canonical =
      Same-sort_keys h ∙ sort_keys_of_IsCanonical canonical k in
    (rw (e, sorted) refl, rw (e, sorted, w) refl, sort_keys-Same v, sort_keys-IsCanonical v)
