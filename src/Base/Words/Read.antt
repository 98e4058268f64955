-- ===== src/Base/Words/Read.antt =====
-- Each reader gives back what the writer put into its word of a row.
use Prim.Native.Nat.{ℕ, ◌+◌, ◌-◌, ◌*◌, ◌<◌, ◌≤◌, ◌^◌}
use mathlib.Core.Path.{◌≡◌, ap}
use mathlib.Core.Bool.{Bool, true, false}
use mathlib.Core.List.{List, [], ◌++◌}
use native.Mathlib.Omega.{arith}
use cow_rs.Base.Lists.{length, take, drop, get_or, concat, All, take-all, take-drop-append}
use cow_rs.Base.Bytes.{Bytes, be_bytes, from_be, from_be-be_bytes}
use cow_rs.Base.Words.{
  IsWord, IsAddress, pad_address, u256_bytes, u256_be, bool_word, slice, addr, u256, u32v, bool_v,
  b256,
}
use cow_rs.Base.Words.Rows.{slice_at, word_at}

module _ (ws : List Bytes) (i : ℕ) (words : All IsWord ws) (bound : i < length ws) where
  slice_word :
      (k n : ℕ)
      → k + n ≤ 32
      → slice (32 * i + k) (32 * i + (k + n)) (concat ws) ≡ take n (drop k (get_or ws i []))
  slice_word k n fits =
      let size : 32 * i + (k + n) - (32 * i + k) ≡ n = omega arith in
      rw size (slice_at ws i k n words bound fits)

  whole_word : slice (32 * i) (32 * i + 32) (concat ws) ≡ get_or ws i []
  whole_word =
      let size : 32 * i + 32 - 32 * i ≡ 32 = omega arith in rw size (word_at ws i words bound)

  pub addr_at :
      (a : Bytes) → get_or ws i [] ≡ pad_address a → IsAddress a → addr (concat ws) (32 * i) ≡ a
  unfolding addr pad_address
  addr_at a e h = rw (slice_word 12 20 (omega arith), e) (take-all 20 a (omega arith))

  pub u32v_at : (v : ℕ) → get_or ws i [] ≡ u256_be v → v < 2 ^ 32 → u32v (concat ws) (32 * i) ≡ v
  unfolding u32v u256_be be_bytes
  u32v_at v e h = rw (slice_word 28 4 (omega arith), e) (from_be-be_bytes 4 v h)

  pub bool_at : (b : Bool) → get_or ws i [] ≡ bool_word b → bool_v (concat ws) (32 * i) ≡ b
  unfolding bool_v bool_word from_be
  bool_at true e = rw (slice_word 31 1 (omega arith), e)
  bool_at false e = rw (slice_word 31 1 (omega arith), e)

  pub u256_at :
      (v : ℕ) → get_or ws i [] ≡ u256_bytes v → v < 2 ^ 256 → u256 (concat ws) (32 * i) ≡ v
  unfolding u256 u256_bytes
  u256_at v e h = rw (whole_word, e) (from_be-be_bytes 32 v h)

  pub b256_at : (w : Bytes) → get_or ws i [] ≡ w → b256 (concat ws) (32 * i) ≡ w
  unfolding b256
  b256_at w e = rw whole_word e

  -- A `u64` written with `u256_be` is read as a `U256`.
  pub u64_at : (v : ℕ) → get_or ws i [] ≡ u256_be v → v < 2 ^ 64 → u256 (concat ws) (32 * i) ≡ v
  unfolding u256 u256_be from_be
  u64_at v e h = rw (whole_word, e) (from_be-be_bytes 8 v h)

module _ (front rest : Bytes) (off : ℕ) (bound : off + 32 ≤ length front) where
  front_word :
      (k n : ℕ)
      → k + n ≡ 32
      → slice (off + k) (off + 32) (front ++ rest) ≡ slice (off + k) (off + 32) front
  front_word k n e =
      let size : off + 32 - (off + k) ≡ n = omega arith in
      rw size (take-drop-append (off + k) n front rest (omega arith))

  pub addr-append : addr (front ++ rest) off ≡ addr front off
  unfolding addr
  addr-append = front_word 12 20 (omega arith)

  whole_front : slice off (off + 32) (front ++ rest) ≡ slice off (off + 32) front
  whole_front =
      let size : off + 32 - off ≡ 32 = omega arith in
      rw size (take-drop-append off 32 front rest bound)

  pub u256-append : u256 (front ++ rest) off ≡ u256 front off
  unfolding u256
  u256-append = ap from_be whole_front

  pub b256-append : b256 (front ++ rest) off ≡ b256 front off
  unfolding b256
  b256-append = whole_front
