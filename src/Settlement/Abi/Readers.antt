-- ===== src/Settlement/Abi/Readers.antt =====
-- Readers of arrays of words at a position, and that they read what was encoded.
use cow_rs.Base.{
  ℕ, ◌+◌, ◌^◌, ◌<◌, ◌≡◌, refl, ap, List, [], ◌∷◌, ◌++◌, map, length, drop, concat, All, arith,
  length-append, length-map,
}
use mathlib.Core.Path.{ap₂}
use cow_rs.Base.Bytes.{Bytes, from_be, from_be-be_bytes}
use cow_rs.Base.Words.{IsWord, IsAddress, pad_address, u256_bytes, u256}
use cow_rs.Base.Words.Rows.{length-concat, u256_bytes-IsWord, pad_address-IsWord}
use cow_rs.Base.Words.Layout.{IsAt, words_at, words_at-concat}
use cow_rs.Base.Words.Arrays.{count_word}
use cow_rs.Settlement.Abi.{abi_encode_address_array, abi_encode_u256_array}

abbrev pub addresses_at : Bytes → ℕ → List Bytes
addresses_at buf pos = map (drop 12) (words_at buf (pos + 32) (u256 buf pos))

abbrev pub u256s_at : Bytes → ℕ → List ℕ
u256s_at buf pos = map from_be (words_at buf (pos + 32) (u256 buf pos))

addresses_lem :
    (as_bytes : List Bytes)
    → All IsAddress as_bytes
    → map (drop 12) (map pad_address as_bytes) ≡ as_bytes
unfolding pad_address
addresses_lem [] h = refl
addresses_lem (a ∷ rest) (width, h) = ap (◌∷◌ a) (addresses_lem rest h)

addresses-IsWord : (addrs : List Bytes) → All IsAddress addrs → All IsWord (map pad_address addrs)
addresses-IsWord [] h = tt
addresses-IsWord (a ∷ addrs) (width, h) = (pad_address-IsWord a width, addresses-IsWord addrs h)

u256s_lem : (vs : List ℕ) → All (λ v. v < 2 ^ 256) vs → map from_be (map u256_bytes vs) ≡ vs
unfolding u256_bytes
u256s_lem [] h = refl
u256s_lem (v ∷ vs) (small, h) = ap₂ (◌∷◌) (from_be-be_bytes 32 v small) (u256s_lem vs h)

u256s-IsWord : (vs : List ℕ) → All IsWord (map u256_bytes vs)
u256s-IsWord [] = tt
u256s-IsWord (v ∷ vs) = (u256_bytes-IsWord v, u256s-IsWord vs)

pub addresses_at-array :
    (addrs : List Bytes) (pos : ℕ) (buf : Bytes)
    → length (abi_encode_address_array addrs) < 2 ^ 256
    → All IsAddress addrs
    → IsAt (abi_encode_address_array addrs) pos buf
    → addresses_at buf pos ≡ addrs
unfolding abi_encode_address_array
addresses_at-array addrs pos buf h widths here =
    let ws = map pad_address addrs in
    let words = addresses-IsWord addrs widths in
    let size : length (u256_bytes (length addrs) ++ concat ws) < 2 ^ 256 = h in
    let small : length addrs < 2 ^ 256 = omega (
      arith,
      length-append (u256_bytes (length addrs)) (concat ws),
      length-concat ws words,
      length-map pad_address addrs,
    ) in
    let (count, body) = count_word (length addrs) (concat ws) pos buf small here in
    rw
      (
        count,
        ← length-map pad_address addrs,
        words_at-concat (map pad_address addrs) (pos + 32) buf (addresses-IsWord addrs widths) body,
      )
      (addresses_lem addrs widths)

pub u256s_at-array :
    (vs : List ℕ) (pos : ℕ) (buf : Bytes)
    → length (abi_encode_u256_array vs) < 2 ^ 256
    → All (λ v. v < 2 ^ 256) vs
    → IsAt (abi_encode_u256_array vs) pos buf
    → u256s_at buf pos ≡ vs
unfolding abi_encode_u256_array
u256s_at-array vs pos buf h small here =
    let ws = map u256_bytes vs in
    let words = u256s-IsWord vs in
    let size : length (u256_bytes (length vs) ++ concat ws) < 2 ^ 256 = h in
    let few : length vs < 2 ^ 256 = omega (
      arith,
      length-append (u256_bytes (length vs)) (concat ws),
      length-concat ws words,
      length-map u256_bytes vs,
    ) in
    let (count, body) = count_word (length vs) (concat ws) pos buf few here in
    rw
      (
        count,
        ← length-map u256_bytes vs,
        words_at-concat (map u256_bytes vs) (pos + 32) buf (u256s-IsWord vs) body,
      )
      (u256s_lem vs small)
