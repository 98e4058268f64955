-- ===== src/Bridging/Registry.antt =====
-- crates/bridging/src/utils.rs and across.rs: the registries of addresses, and tokens carried over
-- from one chain to another by their symbol. A map is an association list.
pub mod Adapt
use cow_rs.Base.{
  ℕ, String, ◌==◌, ◌||◌, Bool, false, if◌then◌else◌, Option, none, some, List, [], ◌∷◌,
}
use cow_rs.Base.Bytes.{Bytes, be_bytes, bytes_eq}
use cow_rs.Base.Panics.{◌>>=◌}
use text.Mathlib.Text.{◌==◌ as str_eq}

-- `"0x…".parse::<Address>()` of a literal.
unfoldable pub address : ℕ → Bytes
unfolding be_bytes
address n = be_bytes 20 n

abbrev pub by_chain {ℓ} : {A : Type ℓ} → ℕ → List (ℕ × A) → Option A
by_chain id [] = none
by_chain id ((chain, a) ∷ rest) = if chain == id then some a else by_chain id rest

abbrev pub member : Bytes → List Bytes → Bool
member a [] = false
member a (b ∷ bs) = bytes_eq b a || member a bs

unfoldable pub priority_stablecoin_tokens : List (ℕ × List Bytes)
priority_stablecoin_tokens =
    (
      1,
      address 0xa0b86991c6218b36c1d19d4a2e9eb0ce3606eb48
          ∷ address 0xdac17f958d2ee523a2206206994597c13d831ec7
          ∷ [],
    )
    ∷ (
      56,
      address 0x8ac76a51cc950d9822d68b83fe1ad97b32cd580d
          ∷ address 0x55d398326f99059ff775485246999027b3197955
          ∷ [],
    )
    ∷ (
      100,
      address 0xddafbb505ad214d7b80b1f830fccc89b60fb7a83
          ∷ address 0x2a22f9c3b484c3629090feed35f17ff8f88f76f0
          ∷ address 0x4ecaba5870353805a9f068101a40e0f32ed605c6
          ∷ [],
    )
    ∷ (
      137,
      address 0x3c499c542cef5e3811e1192ce70d8cc03d5c3359
          ∷ address 0xc2132d05d31c914a87c6611c10748aeb04b58e8f
          ∷ [],
    )
    ∷ (
      8453,
      address 0x833589fcd6edb6e08f4c7c32d4f71b54bda02913
          ∷ address 0xfde4c96c8593536e31f229ea8f37b2ada2699bb2
          ∷ [],
    )
    ∷ (
      42161,
      address 0xaf88d065e77c8cc2239327c5edb3a432268e5831
          ∷ address 0xfd086bc7cd5c481dcc9c85ebe478a1c0b69fcbb9
          ∷ [],
    )
    ∷ (
      43114,
      address 0xb97ef9ef8734c71904d8002f8b6bc66dd9c48a6e
          ∷ address 0x9702230a8ea53601f5cd2dc00fdbc13d4df4a8c7
          ∷ [],
    )
    ∷ (
      59144,
      address 0x176211869ca2b568f2a7d4ee941e073a821ee1ff
          ∷ address 0xa219439258ca9da29e9cc4ce5596924745e12b93
          ∷ [],
    )
    ∷ (11155111, address 0x1c7d4b196cb0c7b01d743fbc6116a902379c7238 ∷ [])
    ∷ []

unfoldable pub is_stablecoin_priority_token : ℕ → Bytes → Bool
is_stablecoin_priority_token chain_id token_address =
    elim (by_chain chain_id priority_stablecoin_tokens) [
      | none ↦ false
      | some tokens ↦ member token_address tokens
    ]

unfoldable pub across_spoke_pool_addresses : List (ℕ × Bytes)
across_spoke_pool_addresses =
    (1, address 0x5c7bcd6e7de5423a257d81b442095a1a6ced35c5)
    ∷ (42161, address 0xe35e9842fceaca96570b734083f4a58e8f7c5f2a)
    ∷ (8453, address 0x09aea4b2242abc8bb4bb78d537a67a245a7bec64)
    ∷ (11155111, address 0x5ef6c01e11889d86803e0b23e3cb3f9e9d97b662)
    ∷ (137, address 0x9295ee1d8c5b022be115a2ad3c30c72e34e7f096)
    ∷ (56, address 0x4e8e101924ede233c13e2d8622dc8aed2872d505)
    ∷ (59144, address 0x7e63a5f1a8f0b4d0934b2f2327daed3f6bb2ee75)
    ∷ (9745, address 0x50039faefebef707cfd94d6d462fe6d10b39207a)
    ∷ (57073, address 0xef684c38f94f48775959ecf2012d7e864ffb9dd4)
    ∷ (10, address 0x6f26bf09b1c792e3228e5467807a900a503c0281)
    ∷ []

unfoldable pub across_math_contract_addresses : List (ℕ × Bytes)
across_math_contract_addresses =
    (1, address 0xf2ae6728b6f146556977af0a68bfbf5bada22863)
    ∷ (42161, address 0x5771a4b4029832e79a75de7b485e5fbbec28848f)
    ∷ (8453, address 0xd4e943dc6ddc885f6229ce33c2e3dfe402a12c81)
    ∷ []

-- The symbols and addresses of a chain.
abbrev pub AcrossChainConfig : Type 0
AcrossChainConfig = List (String × Bytes)

unfoldable pub across_token_mapping : List (ℕ × AcrossChainConfig)
across_token_mapping =
    (
      1,
      ("usdc", address 0xa0b86991c6218b36c1d19d4a2e9eb0ce3606eb48)
          ∷ ("weth", address 0xc02aaa39b223fe8d0a0e5c4f27ead9083c756cc2)
          ∷ ("wbtc", address 0x2260fac5e5542a773aa44fbcfedf7c193bc2c599)
          ∷ ("dai", address 0x6b175474e89094c44da98b954eedeac495271d0f)
          ∷ ("usdt", address 0xdac17f958d2ee523a2206206994597c13d831ec7)
          ∷ [],
    )
    ∷ (
      137,
      ("usdc", address 0x3c499c542cef5e3811e1192ce70d8cc03d5c3359)
          ∷ ("weth", address 0x7ceb23fd6bc0add59e62ac25578270cff1b9f619)
          ∷ ("wbtc", address 0x1bfd67037b42cf73acf2047067bd4f2c47d9bfd6)
          ∷ ("dai", address 0x8f3cf7ad23cd3cadbd9735aff958023239c6a063)
          ∷ ("usdt", address 0xc2132d05d31c914a87c6611c10748aeb04b58e8f)
          ∷ [],
    )
    ∷ (
      42161,
      ("usdc", address 0xaf88d065e77c8cc2239327c5edb3a432268e5831)
          ∷ ("weth", address 0x82af49447d8a07e3bd95bd0d56f35241523fbab1)
          ∷ ("wbtc", address 0x2f2a2543b76a4166549f7aab2e75bef0aefc5b0f)
          ∷ ("dai", address 0xda10009cbd5d07dd0cecc66161fc93d7c9000da1)
          ∷ ("usdt", address 0xfd086bc7cd5c481dcc9c85ebe478a1c0b69fcbb9)
          ∷ [],
    )
    ∷ (
      8453,
      ("usdc", address 0x833589fcd6edb6e08f4c7c32d4f71b54bda02913)
          ∷ ("weth", address 0x4200000000000000000000000000000000000006)
          ∷ ("dai", address 0x50c5725949a6f0c72e6c4a641f24049a917db0cb)
          ∷ [],
    )
    ∷ (
      10,
      ("usdc", address 0x0b2c639c533813f4aa9d7837caf62653d097ff85)
          ∷ ("weth", address 0x4200000000000000000000000000000000000006)
          ∷ ("wbtc", address 0x68f180fcce6836688e9084f035309e29bf0a2095)
          ∷ ("dai", address 0xda10009cbd5d07dd0cecc66161fc93d7c9000da1)
          ∷ ("usdt", address 0x94b008aa00579c1307b0ef2c499ad98a8ce58e58)
          ∷ [],
    )
    ∷ []

abbrev pub get_token_symbol : Bytes → AcrossChainConfig → Option String
get_token_symbol token_address [] = none
get_token_symbol token_address ((symbol, a) ∷ tokens) =
    if bytes_eq a token_address then some symbol else get_token_symbol token_address tokens

abbrev pub get_token_address : String → AcrossChainConfig → Option Bytes
get_token_address token_symbol [] = none
get_token_address token_symbol ((symbol, a) ∷ tokens) =
    if str_eq symbol token_symbol then some a else get_token_address token_symbol tokens

unfoldable pub get_chain_configs : ℕ → ℕ → Option (AcrossChainConfig × AcrossChainConfig)
get_chain_configs source_chain_id target_chain_id = do
  source ← by_chain source_chain_id across_token_mapping
  target ← by_chain target_chain_id across_token_mapping
  some (source, target)

unfoldable pub get_token_by_address_and_chain_id : Bytes → ℕ → Option (String × Bytes)
get_token_by_address_and_chain_id token_address chain_id = do
  config ← by_chain chain_id across_token_mapping
  symbol ← get_token_symbol token_address config
  some (symbol, token_address)

-- The lookup, and the table that it is made in.
abbrev pub adapt_in : List (ℕ × AcrossChainConfig) → Bytes → ℕ → ℕ → Option Bytes
adapt_in mapping token_address source_chain_id target_chain_id = do
  source_config ← by_chain source_chain_id mapping
  symbol ← get_token_symbol token_address source_config
  target_config ← by_chain target_chain_id mapping
  get_token_address symbol target_config

unfoldable pub adapt_token : Bytes → ℕ → ℕ → Option Bytes
adapt_token token_address source_chain_id target_chain_id =
    adapt_in across_token_mapping token_address source_chain_id target_chain_id

unfoldable pub adapt_tokens : List Bytes → ℕ → ℕ → List Bytes
adapt_tokens [] source_chain_id target_chain_id = []
adapt_tokens (a ∷ tokens) source_chain_id target_chain_id =
    let rest = adapt_tokens tokens source_chain_id target_chain_id in
    elim (adapt_token a source_chain_id target_chain_id) [ none ↦ rest | some b ↦ b ∷ rest ]
