-- ===== src/Base/Words.antt =====
-- ABI words of 32 bytes: the writers and readers that composable/src/twap.rs, gat.rs and
-- stop_loss.rs each define for themselves.
pub mod Rows
pub mod Read
pub mod Layout
pub mod Arrays
pub mod Collisions
use Prim.Native.Nat.{ℕ, ◌+◌, ◌-◌, ◌%◌}
use mathlib.Core.Path.{◌≡◌}
use mathlib.Core.Bool.{Bool, not}
use mathlib.Core.List.{[], ◌∷◌, ◌++◌}
use cow_rs.Base.Tests.{◌==◌, if◌then◌else◌}
use cow_rs.Base.Lists.{length, take, drop, replicate}
use cow_rs.Base.Bytes.{Bytes, be_bytes, from_be}

abbrev pub IsWord : Bytes → Type 0
IsWord w = length w ≡ 32

abbrev pub IsAddress : Bytes → Type 0
IsAddress a = length a ≡ 20

-- Writers.

unfoldable pub pad_address : Bytes → Bytes
pad_address bytes = replicate 12 0 ++ bytes

unfoldable pub u256_bytes : ℕ → Bytes
u256_bytes v = be_bytes 32 v

unfoldable pub u256_be : ℕ → Bytes
u256_be v = replicate 24 0 ++ be_bytes 8 v

unfoldable pub bool_word : Bool → Bytes
bool_word v = replicate 31 0 ++ (if v then 1 else 0) ∷ []

-- `n.is_multiple_of(32)` and the next multiple of 32.
unfoldable pub pad32_len : ℕ → ℕ
pad32_len n = if n % 32 == 0 then n else n + (32 - n % 32)

-- What `pad_into` appends to the buffer: the data and zeros up to a 32-byte boundary.
unfoldable pub pad_into : Bytes → Bytes
pad_into bytes =
    let rem = length bytes % 32 in if rem == 0 then bytes else bytes ++ replicate (32 - rem) 0

-- Readers, at a byte offset of the buffer; each caller has checked the buffer's length.

-- `bytes[lo..hi]` of a slice that is in range.
abbrev pub slice : ℕ → ℕ → Bytes → Bytes
slice lo hi bytes = take (hi - lo) (drop lo bytes)

unfoldable pub addr : Bytes → ℕ → Bytes
addr bytes off = slice (off + 12) (off + 32) bytes

unfoldable pub u256 : Bytes → ℕ → ℕ
u256 bytes off = from_be (slice off (off + 32) bytes)

unfoldable pub u32v : Bytes → ℕ → ℕ
u32v bytes off = from_be (slice (off + 28) (off + 32) bytes)

-- Of the byte `bytes[off + 31]`.
unfoldable pub bool_v : Bytes → ℕ → Bool
bool_v bytes off = not (from_be (slice (off + 31) (off + 32) bytes) == 0)

unfoldable pub b256 : Bytes → ℕ → Bytes
b256 bytes off = slice off (off + 32) bytes
