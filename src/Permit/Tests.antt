-- ===== src/Permit/Tests.antt =====
-- Permits at concrete values.
use cow_rs.Base.{◌≡◌, ◌⊎◌, refl, true, false, length, take, replicate, Result, ok, arith}
use cow_rs.Base.Bytes.{Bytes, be_bytes, length-be_bytes}
use cow_rs.Base.Words.Collisions.{Collision}
use cow_rs.Permit.{
  PermitInfo, Erc20PermitInfo, PermitHookData, permit_selector, permit_digest,
  permit_domain_separator, build_permit_hook, new_permit_info, with_nonce, with_deadline,
  is_expired,
}
use cow_rs.Permit.Commits.{IsPermit, SamePermit, permit_digest_inj}
use cow_rs.Permit.Calls.{IsPermitCall, build_permit_hook-IsPermitCall}

-- A hash of 32 bytes.
abbrev hash : Bytes → Bytes
hash bs = be_bytes 32 (length bs)

abbrev allowance : PermitInfo
allowance = record {
  token_address = replicate 20 1;
  owner = replicate 20 2;
  spender = replicate 20 3;
  value = 1_000_000;
  nonce = 4;
  deadline = 1_700_000_000;
}

abbrev next_allowance : PermitInfo
next_allowance = record allowance { nonce = 5 }

abbrev usdc : Erc20PermitInfo
usdc = record { name = "USD Coin"; version = "2"; chain_id = 1 }

allowance-IsPermit : IsPermit allowance usdc
allowance-IsPermit = record {
  token_address = refl;
  owner = refl;
  spender = refl;
  value = omega arith;
  nonce = omega arith;
  deadline = omega arith;
  chain_id = omega arith;
}

next_allowance-IsPermit : IsPermit next_allowance usdc
next_allowance-IsPermit = record {
  token_address = refl;
  owner = refl;
  spender = refl;
  value = omega arith;
  nonce = omega arith;
  deadline = omega arith;
  chain_id = omega arith;
}

-- Two permits that this hash does not tell apart.
permit_digest_inj_example : SamePermit allowance usdc next_allowance usdc ⊎ Collision hash
unfolding permit_digest permit_domain_separator be_bytes
permit_digest_inj_example =
    permit_digest_inj hash allowance next_allowance usdc usdc (λ bs. length-be_bytes 32 (length bs))
      allowance-IsPermit next_allowance-IsPermit refl

abbrev signature : Bytes
signature = replicate 65 27

abbrev key : Bytes → Result Bytes
key digest = ok signature

build_permit_hook-IsPermitCall_example :
    (hook : PermitHookData) × (build_permit_hook hash key allowance usdc ≡ ok hook)
    × (hook.target ≡ replicate 20 1)
    × (take 4 hook.calldata ≡ permit_selector hash)
    × IsPermitCall allowance signature hook.calldata
build_permit_hook-IsPermitCall_example =
    build_permit_hook-IsPermitCall hash key allowance usdc signature
      (λ bs. length-be_bytes 32 (length bs)) allowance-IsPermit refl (omega arith) refl

-- The builder makes the same permit, and its deadline is its last second.
builders_expire :
    (with_deadline
        (with_nonce
          (new_permit_info (replicate 20 1) (replicate 20 2) (replicate 20 3) 1_000_000)
          4)
        1_700_000_000
      ≡ allowance)
    × (is_expired allowance 1_700_000_000 ≡ false)
    × (is_expired allowance 1_700_000_001 ≡ true)
unfolding new_permit_info with_nonce with_deadline is_expired
builders_expire = (refl, refl, refl)
