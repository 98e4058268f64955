-- ===== src/Base/Hex/Words.antt =====
-- The bytes of ABI words are bytes.
use cow_rs.Base.{
  ℕ, zero, suc, ◌-◌, ◌/◌, ◌%◌, ◌==◌, inl, inr, Bool-cases, [], ◌∷◌, length, replicate, All, arith,
  All-append, All-replicate,
}
use cow_rs.Base.Bytes.{Bytes, be_bytes}
use cow_rs.Base.Hex.{IsByte}
use cow_rs.Base.Words.{pad_address, u256_be, pad_into}

zeros-IsByte : (n : ℕ) → All IsByte (replicate n 0)
zeros-IsByte n = All-replicate IsByte n 0 (omega arith)

pub be_bytes-IsByte : (k v : ℕ) → All IsByte (be_bytes k v)
unfolding be_bytes
be_bytes-IsByte zero v = tt
be_bytes-IsByte (suc k) v =
    All-append IsByte (be_bytes k (v / 256)) (v % 256 ∷ []) (be_bytes-IsByte k (v / 256))
      (omega arith, tt)

pub pad_address-IsByte : (a : Bytes) → All IsByte a → All IsByte (pad_address a)
unfolding pad_address
pad_address-IsByte a h = All-append IsByte (replicate 12 0) a (zeros-IsByte 12) h

pub u256_be-IsByte : (v : ℕ) → All IsByte (u256_be v)
unfolding u256_be
u256_be-IsByte v =
    All-append IsByte (replicate 24 0) (be_bytes 8 v) (zeros-IsByte 24) (be_bytes-IsByte 8 v)

pub pad_into-IsByte : (bs : Bytes) → All IsByte bs → All IsByte (pad_into bs)
unfolding pad_into
pad_into-IsByte bs h = elim (Bool-cases (length bs % 32 == 0)) [
  | inl whole ↦ rw whole h
  | inr part ↦ rw part (
      All-append IsByte bs (replicate (32 - length bs % 32) 0) h
        (zeros-IsByte (32 - length bs % 32)))
]
