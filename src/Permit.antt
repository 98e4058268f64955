-- ===== src/Permit.antt =====
-- crates/permit: the permits that let a spender move an owner's tokens, signed off chain, with
-- types.rs the data and eip2612.rs the digests, signatures and calls. The name and the version of a
-- token are ASCII texts, whose code points are their bytes.
pub mod Commits
pub mod Calls
mod Tests
use cow_rs.Base.{
  ℕ, ◌^◌, ◌-◌, ◌==◌, ltb, not, String, Bool, none, List, [], ◌∷◌, ◌++◌, length, concat, take, drop,
  replicate, get_or, Result, ok, ◌>>=◌,
}
use cow_rs.Base.Bytes.{Bytes, be_bytes, as_bytes}
use cow_rs.Base.Hex.{Text, HexCodec, prefix_0x}
use cow_rs.AppData.Doc.{CowHook}
use cow_rs.Signing.Eip712.{abi_address, abi_u256}

pub record PermitInfo : Type 0 where
  pub token_address : Bytes
  pub owner : Bytes
  pub spender : Bytes
  pub value : ℕ
  pub nonce : ℕ
  pub deadline : ℕ

unfoldable pub new_permit_info : Bytes → Bytes → Bytes → ℕ → PermitInfo
new_permit_info token_address owner spender value = record {
  token_address = token_address;
  owner = owner;
  spender = spender;
  value = value;
  nonce = 0;
  deadline = 0;
}

unfoldable pub with_nonce : PermitInfo → ℕ → PermitInfo
with_nonce info nonce = record info { nonce = nonce }

unfoldable pub with_deadline : PermitInfo → ℕ → PermitInfo
with_deadline info deadline = record info { deadline = deadline }

unfoldable pub is_expired : PermitInfo → ℕ → Bool
is_expired info timestamp = ltb info.deadline timestamp

unfoldable pub is_zero_allowance : PermitInfo → Bool
is_zero_allowance info = info.value == 0

unfoldable pub is_unlimited_allowance : PermitInfo → Bool
is_unlimited_allowance info = info.value == 2 ^ 256 - 1

pub record Erc20PermitInfo : Type 0 where
  pub name : String
  pub version : String
  pub chain_id : ℕ

pub record PermitHookData : Type 0 where
  pub target : Bytes
  pub calldata : Bytes
  pub gas_limit : ℕ

unfoldable pub has_calldata : PermitHookData → Bool
has_calldata hook = not (length hook.calldata == 0)

unfoldable pub calldata_len : PermitHookData → ℕ
calldata_len hook = length hook.calldata

-- `to_string` prints a number, and hexadecimal text is lower case.
unfoldable pub into_cow_hook : HexCodec → (ℕ → Text) → PermitHookData → CowHook
into_cow_hook hex to_string hook = record {
  target = prefix_0x (hex.encode hook.target);
  call_data = prefix_0x (hex.encode hook.calldata);
  gas_limit = to_string hook.gas_limit;
  dapp_id = none;
}

abbrev pub permit_gas_limit : ℕ
permit_gas_limit = 100_000

abbrev pub abi_u64 : ℕ → Bytes
abi_u64 v = replicate 24 0 ++ be_bytes 8 v

-- Bytes 0 to 32 of the signature are `r`, 32 to 64 `s` and the last is `v`.
abbrev pub call_words : PermitInfo → Bytes → List Bytes
call_words info signature =
    abi_address info.owner
    ∷ abi_address info.spender
    ∷ abi_u256 info.value
    ∷ abi_u256 info.nonce
    ∷ abi_u64 info.deadline
    ∷ (replicate 31 0 ++ get_or signature 64 0 ∷ [])
    ∷ take 32 signature
    ∷ take 32 (drop 32 signature)
    ∷ []

-- `keccak256` is `alloy_primitives`'.
module _ (keccak256 : Bytes → Bytes) where
  unfoldable pub domain_type_hash : Bytes
  domain_type_hash = keccak256 (
      as_bytes "EIP712Domain(string name,string version,uint256 chainId,address verifyingContract)")

  unfoldable pub permit_type_hash : Bytes
  permit_type_hash = keccak256 (
      as_bytes "Permit(address owner,address spender,uint256 value,uint256 nonce,uint256 deadline)")

  abbrev pub domain_words : String → String → ℕ → Bytes → List Bytes
  domain_words name version chain_id token =
      domain_type_hash
      ∷ keccak256 (as_bytes name)
      ∷ keccak256 (as_bytes version)
      ∷ abi_u64 chain_id
      ∷ abi_address token
      ∷ []

  unfoldable pub permit_domain_separator : String → String → ℕ → Bytes → Bytes
  permit_domain_separator name version chain_id token =
      keccak256 (concat (domain_words name version chain_id token))

  abbrev pub permit_words : PermitInfo → List Bytes
  permit_words info =
      permit_type_hash
      ∷ abi_address info.owner
      ∷ abi_address info.spender
      ∷ abi_u256 info.value
      ∷ abi_u256 info.nonce
      ∷ abi_u64 info.deadline
      ∷ []

  unfoldable pub permit_digest : Bytes → PermitInfo → Bytes
  permit_digest domain_sep info =
      keccak256
        ((0x19 ∷ 0x01 ∷ []) ++ concat (domain_sep ∷ keccak256 (concat (permit_words info)) ∷ []))

  -- The digest that is signed for a permit of a token.
  abbrev pub digest_to_sign : PermitInfo → Erc20PermitInfo → Bytes
  digest_to_sign info erc20_info =
      permit_digest
        (permit_domain_separator erc20_info.name erc20_info.version erc20_info.chain_id
          info.token_address)
        info

  unfoldable pub permit_selector : Bytes
  permit_selector =
      take 4 (
        keccak256
          (as_bytes "permit(address,address,uint256,uint256,uint256,uint8,bytes32,bytes32)"))

  unfoldable pub build_permit_calldata : PermitInfo → Bytes → Bytes
  build_permit_calldata info signature = permit_selector ++ concat (call_words info signature)

  -- The key is a function from digests to the 65 bytes of a signature.
  module _ (sign_hash : Bytes → Result Bytes) where
    unfoldable pub sign_permit : PermitInfo → Erc20PermitInfo → Result Bytes
    sign_permit info erc20_info = sign_hash (digest_to_sign info erc20_info)

    unfoldable pub build_permit_hook : PermitInfo → Erc20PermitInfo → Result PermitHookData
    build_permit_hook info erc20_info = do
      signature ← sign_permit info erc20_info
      ok (record {
        target = info.token_address;
        calldata = build_permit_calldata info signature;
        gas_limit = permit_gas_limit;
      })
