-- ===== src/Base/Words/Arrays.antt =====
-- ABI arrays of dynamic elements, as crates/settlement/src/encoder.rs and
-- crates/weiroll/src/types.rs write them, and where their elements stand.
use mathlib.Core.List.{append-nil, append_assoc}
use cow_rs.Base.{
  ℕ, ◌+◌, ◌*◌, ◌^◌, ◌<◌, ◌≡◌, ◌∙◌, some, List, [], ◌∷◌, ◌++◌, length, drop, concat, get_elem?,
  arith, length-append, drop-append,
}
use cow_rs.Base.Bytes.{Bytes}
use cow_rs.Base.Words.{u256_bytes, u256}
use cow_rs.Base.Words.Rows.{u256_bytes-IsWord}
use cow_rs.Base.Words.Layout.{
  IsAt, IsAt-inner, u256-IsAt, offsets, length-offsets, tuple_of, part_at, tuple_of-IsAt,
}

-- The count, the offsets and the elements: the array of dynamic tuples of both callers.
unfoldable pub dynamic_array : List Bytes → Bytes
dynamic_array [] = u256_bytes 0
dynamic_array (enc ∷ encoded) =
    let count = length (enc ∷ encoded) in
    u256_bytes count ++ (offsets (count * 32) (enc ∷ encoded) ++ concat (enc ∷ encoded))

-- The offsets of an array of dynamic elements are relative to the end of its length word.
abbrev pub element_at : Bytes → ℕ → ℕ → ℕ
element_at buf pos i = part_at buf (pos + 32) i

pub count_word :
    (n : ℕ) (body : Bytes) (pos : ℕ) (buf : Bytes)
    → n < 2 ^ 256
    → IsAt (u256_bytes n ++ body) pos buf
    → (u256 buf pos ≡ n) × IsAt body (pos + 32) buf
count_word n body pos buf h (rest, e) =
    let split = e ∙ append_assoc (u256_bytes n) body rest in
    let w = u256_bytes-IsWord n in
    let there : drop 32 (u256_bytes n ++ body) ≡ body ++ [] =
      rw append-nil (drop-append 32 (u256_bytes n) body w) in
    (
      u256-IsAt n pos buf h (body ++ rest, split),
      IsAt-inner body 32 (u256_bytes n ++ body) pos buf
          (omega (arith, length-append (u256_bytes n) body)) ([], there) (rest, e),
    )

-- Element `i` of an array of dynamic elements.
pub dynamic_array-IsAt :
    (encoded : List Bytes) (i : ℕ) (piece : Bytes) (pos : ℕ) (buf : Bytes)
    → get_elem? encoded i ≡ some piece
    → length (dynamic_array encoded) < 2 ^ 256
    → IsAt (dynamic_array encoded) pos buf
    → (u256 buf pos ≡ length encoded) × IsAt piece (element_at buf pos i) buf
unfolding dynamic_array
dynamic_array-IsAt [] i piece pos buf h fits here = cc
dynamic_array-IsAt (enc ∷ encoded) i piece pos buf h fits here =
    let all = enc ∷ encoded in
    let order : length all * 32 ≡ 32 * length all = omega arith in
    let body = offsets (length all * 32) all ++ concat all in
    let w = u256_bytes-IsWord (length all) in
    let total = length-append (u256_bytes (length all)) body in
    let parts = length-append (offsets (length all * 32) all) (concat all) in
    let head = length-offsets (length all * 32) all in
    let whole : length (u256_bytes (length all) ++ body) < 2 ^ 256 = fits in
    let (count, there) = count_word (length all) body pos buf (omega arith) here in
    let tuple : IsAt (tuple_of all) (pos + 32) buf = rw (← order) there in
    let size : length (tuple_of all) < 2 ^ 256 = omega (
      arith,
      length-append (offsets (32 * length all) all) (concat all),
      length-offsets (32 * length all) all,
    ) in
    (count, tuple_of-IsAt all i piece (pos + 32) buf h size tuple)

pub length-dynamic_array :
    (encoded : List Bytes)
    → length (dynamic_array encoded) ≡ 32 + 32 * length encoded + length (concat encoded)
unfolding dynamic_array
length-dynamic_array [] = u256_bytes-IsWord 0
length-dynamic_array (enc ∷ encoded) =
    let all = enc ∷ encoded in
    let body = offsets (length all * 32) all ++ concat all in
    omega (
      arith,
      u256_bytes-IsWord (length all),
      length-append (u256_bytes (length all)) body,
      length-append (offsets (length all * 32) all) (concat all),
      length-offsets (length all * 32) all,
    )
