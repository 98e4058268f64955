-- ===== src/Base/Words/Rows.antt =====
-- The length of each written word, padding, and buffers that are a row of words.
use Prim.Native.Nat.{ℕ, zero, suc, ◌+◌, ◌-◌, ◌*◌, ◌%◌, ◌<◌, ◌≤◌}
use mathlib.Core.Path.{◌≡◌, refl}
use mathlib.Core.Logic.{inl, inr}
use mathlib.Core.Bool.{Bool}
use mathlib.Core.List.{List, [], ◌∷◌, ◌++◌, append-nil, append_assoc}
use native.Mathlib.Omega.{arith}
use cow_rs.Base.Tests.{◌==◌, Bool-cases}
use cow_rs.Base.Lists.{
  length, take, drop, replicate, get_or, concat, All, length-append, length-replicate, take-append,
  drop-append, drop-drop, take-drop-take,
}
use cow_rs.Base.Bytes.{Bytes, length-be_bytes}
use cow_rs.Base.Words.{
  IsWord, IsAddress, pad_address, u256_bytes, u256_be, bool_word, pad32_len, pad_into,
}

-- Each writer makes one word.

pub pad_address-IsWord : (a : Bytes) → IsAddress a → IsWord (pad_address a)
unfolding pad_address
pad_address-IsWord a h = omega arith

pub u256_bytes-IsWord : (v : ℕ) → IsWord (u256_bytes v)
unfolding u256_bytes
u256_bytes-IsWord v = length-be_bytes 32 v

pub u256_be-IsWord : (v : ℕ) → IsWord (u256_be v)
unfolding u256_be
u256_be-IsWord v = omega (arith, length-be_bytes 8 v)

pub bool_word-IsWord : (b : Bool) → IsWord (bool_word b)
unfolding bool_word
bool_word-IsWord b = refl

-- Data padded by `pad_into` fills whole words.
pub length-pad_into : (bs : Bytes) → length (pad_into bs) ≡ pad32_len (length bs)
unfolding pad_into pad32_len
length-pad_into bs = ground (
  arith,
  length-append bs (replicate (32 - length bs % 32) 0),
  length-replicate {A = ℕ} (32 - length bs % 32) 0,
)

pub pad32_len-le : (n : ℕ) → n ≤ pad32_len n
unfolding pad32_len
pad32_len-le n = ground arith

pub pad32_len-mod : (n : ℕ) → pad32_len n % 32 ≡ 0
unfolding pad32_len
pad32_len-mod n = ground arith

-- The padding only follows the data.
pub pad_into-append : (bs : Bytes) → (zs : Bytes) × (pad_into bs ≡ bs ++ zs)
unfolding pad_into
pad_into-append bs = elim (Bool-cases (length bs % 32 == 0)) [
  | inl e ↦ ([], rw (e, append-nil))
  | inr e ↦ (replicate (32 - length bs % 32) 0, rw e)
]

pub take-pad_into : (bs rest : Bytes) → take (length bs) (pad_into bs ++ rest) ≡ bs
take-pad_into bs rest =
    let (zs, e) = pad_into-append bs in
    rw (e, append_assoc) (take-append (length bs) bs (zs ++ rest) refl)

-- Rows of words.

pub length-concat : (ws : List Bytes) → All IsWord ws → length (concat ws) ≡ 32 * length ws
length-concat [] h = refl
length-concat (w ∷ ws) (h, hs) = omega (arith, length-append w (concat ws), length-concat ws hs)

pub word_at :
    (ws : List Bytes) (i : ℕ)
    → All IsWord ws
    → i < length ws
    → take 32 (drop (32 * i) (concat ws)) ≡ get_or ws i []
word_at [] i hs h = elim h [ ]
word_at (w ∷ ws) zero (e, hs) h = take-append 32 w (concat ws) e
word_at (w ∷ ws) (suc i) (e, hs) h =
    let split : 32 * suc i ≡ 32 + 32 * i = omega arith in
    rw (split, ← drop-drop, drop-append 32 w (concat ws) e) (word_at ws i hs (omega arith))

-- A slice inside one word of the row.
pub slice_at :
    (ws : List Bytes) (i k n : ℕ)
    → All IsWord ws
    → i < length ws
    → k + n ≤ 32
    → take n (drop (32 * i + k) (concat ws)) ≡ take n (drop k (get_or ws i []))
slice_at ws i k n hs h fits =
    rw (← drop-drop, ← take-drop-take k n 32 (drop (32 * i) (concat ws)) fits, word_at ws i hs h)
