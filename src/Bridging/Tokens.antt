-- ===== src/Bridging/Tokens.antt =====
-- crates/bridging/src/utils.rs and sdk.rs: the token that a swap ends with before the bridge.
pub mod Choice
pub mod Sorted
use mathlib.Core.List.{Perm}
use cow_rs.Base.{
  ℕ, ◌≤◌, ◌<◌, ◌==◌, not, ◌&&◌, Bool, true, false, if◌then◌else◌, Option, none, some, List, [], ◌∷◌,
  map, length, replicate,
}
use cow_rs.Base.Bytes.{Bytes, bytes_eq}
use cow_rs.Base.Hex.{Text}
use cow_rs.Types.{OrderKind}
use cow_rs.Bridging.{
  BridgeError, no_intermediate_tokens, tx_build_error, Checked, ok, err, ◌>>=◌, TokenAddress, evm,
  raw, to_evm, QuoteBridgeRequest, QuoteBridgeResponse,
}
use cow_rs.Bridging.Registry.{member, is_stablecoin_priority_token}

abbrev pub native_currency_address : Bytes
native_currency_address = replicate 20 0xee

-- `TokenPriority`, by its discriminants.
abbrev pub lowest : ℕ
lowest = 1

abbrev pub low : ℕ
low = 2

abbrev pub medium : ℕ
medium = 3

abbrev pub high : ℕ
high = 4

abbrev pub highest : ℕ
highest = 5

unfoldable pub is_correlated_token : Bytes → List Bytes → Bool
is_correlated_token token_address correlated_tokens = member token_address correlated_tokens

unfoldable pub token_priority : ℕ → Bytes → List Bytes → Bytes → ℕ
token_priority source_chain_id source correlated a =
    let is_native = bytes_eq a native_currency_address in
    let is_sell_native = bytes_eq source native_currency_address in
    if bytes_eq a source && not (is_sell_native && is_native)
    then highest
    else if is_stablecoin_priority_token source_chain_id a
    then high
    else if is_correlated_token a correlated
    then medium
    else if is_native && not is_sell_native
    then low
    else lowest

abbrev pub Scored : Type 0
Scored = Bytes × ℕ

abbrev pub first_of : List Scored → Checked Bytes
first_of [] = err no_intermediate_tokens
first_of ((a, p) ∷ rest) = ok a

abbrev pub without : Bytes → List Bytes → List Bytes
without source [] = []
without source (a ∷ others) =
    let rest = without source others in if bytes_eq a source then rest else a ∷ rest

-- No priority of the list is above the bound.
abbrev pub Bounded : ℕ → List Scored → Type 0
Bounded bound [] = Unit
Bounded bound ((a, p) ∷ rest) = (p ≤ bound) × Bounded bound rest

abbrev pub IsDescending : List Scored → Type 0
IsDescending [] = Unit
IsDescending ((a, p) ∷ rest) = Bounded p rest × IsDescending rest

-- `sort_unstable_by_key(Reverse)`: the same entries with falling priorities, equal ones in any order.
pub record UnstableSort : Type 0 where
  pub sort : List Scored → List Scored
  pub sort-IsDescending : (xs : List Scored) → IsDescending (sort xs)
  pub sort-perm : (xs : List Scored) → Perm (sort xs) xs

abbrev pub kept : Bytes → List Bytes → Bool → List Bytes
kept source candidates allow = if allow then candidates else without source candidates

abbrev pub is_empty : List Bytes → Bool
is_empty [] = true
is_empty (a ∷ others) = false

module _ (u : UnstableSort) where
  abbrev pub choose : ℕ → Bytes → List Bytes → List Bytes → Checked Bytes
  choose chain source filtered correlated =
      if is_empty filtered
      then err no_intermediate_tokens
      else first_of
          (u.sort (map (λ (a : Bytes). (a, token_priority chain source correlated a)) filtered))

  unfoldable pub determine_intermediate_token :
      ℕ → Bytes → List Bytes → List Bytes → Bool → Checked Bytes
  determine_intermediate_token chain source [] correlated allow = err no_intermediate_tokens
  determine_intermediate_token chain source (a ∷ []) correlated allow = ok a
  determine_intermediate_token chain source (a ∷ b ∷ others) correlated allow =
      choose chain source (kept source (a ∷ b ∷ others) allow) correlated
