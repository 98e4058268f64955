-- ===== src/Bridging/Registry/Adapt.antt =====
-- Carrying a token to another chain and back.
use cow_rs.Base.{
  ℕ, String, ◌≡◌, refl, Bool, true, ◌&&◌, not, some, List, [], ◌∷◌, arith, Bool-cases, inl, inr,
  and-eq-true, some_inj, ap, false, ◌==◌,
}
use cow_rs.Base.Bytes.{Bytes, bytes_eq, bytes_eq_iff}
use cow_rs.Base.Panics.{>>=-eq-some}
use text.Mathlib.Text.{◌==◌ as str_eq}
use text.Mathlib.TextEquality.{eq_iff}
use cow_rs.Bridging.Registry.{
  address, by_chain, across_token_mapping, AcrossChainConfig, get_token_symbol, get_token_address,
  adapt_token, adapt_in,
}

-- No symbol of the configuration stands twice, and no address does.
abbrev fresh : String → Bytes → AcrossChainConfig → Bool
fresh s a [] = true
fresh s a ((t, b) ∷ tokens) = not (str_eq s t) && not (bytes_eq a b) && fresh s a tokens

abbrev distinct : AcrossChainConfig → Bool
distinct [] = true
distinct ((s, a) ∷ tokens) = fresh s a tokens && distinct tokens

abbrev all_distinct : List (ℕ × AcrossChainConfig) → Bool
all_distinct [] = true
all_distinct ((chain, config) ∷ rest) = distinct config && all_distinct rest

table : all_distinct across_token_mapping ≡ true
unfolding across_token_mapping address
table = refl

not-true : (b : Bool) → not b ≡ true → b ≡ false
not-true true h = cc
not-true false h = refl

str_eq_sym : (s t : String) → str_eq s t ≡ false → str_eq t s ≡ false
str_eq_sym s t h = ground (arith, eq_iff s t, eq_iff t s)

bytes_eq_refl : (a : Bytes) → bytes_eq a a ≡ true
bytes_eq_refl a = (bytes_eq_iff a a).1 refl

fresh-address :
    (s : String) (a : Bytes) (tokens : AcrossChainConfig) (t : String) (b : Bytes)
    → fresh s a tokens ≡ true
    → get_token_address t tokens ≡ some b
    → bytes_eq a b ≡ false
fresh-address s a [] t b f e = cc
fresh-address s a ((u, c) ∷ tokens) t b f e =
    let (first, rest) = and-eq-true _ _ f in
    let (names, bytes) = and-eq-true _ _ first in
    elim (Bool-cases (str_eq u t)) [
      | inl here ↦ let same : c ≡ b = some_inj (rw here at e) in rw (← same) (not-true _ bytes)
      | inr there ↦ fresh-address s a tokens t b rest (rw there at e)
    ]

fresh-symbol :
    (s : String) (a : Bytes) (tokens : AcrossChainConfig) (t : String) (b : Bytes)
    → fresh s a tokens ≡ true
    → get_token_symbol b tokens ≡ some t
    → str_eq s t ≡ false
fresh-symbol s a [] t b f e = cc
fresh-symbol s a ((u, c) ∷ tokens) t b f e =
    let (first, rest) = and-eq-true _ _ f in
    let (names, bytes) = and-eq-true _ _ first in
    elim (Bool-cases (bytes_eq c b)) [
      | inl here ↦ let same : u ≡ t = some_inj (rw here at e) in rw (← same) (not-true _ names)
      | inr there ↦ fresh-symbol s a tokens t b rest (rw there at e)
    ]

-- In a configuration without doubles each lookup undoes the other.
symbol-address :
    (config : AcrossChainConfig) (s : String) (a : Bytes)
    → distinct config ≡ true
    → get_token_address s config ≡ some a
    → get_token_symbol a config ≡ some s
symbol-address [] s a d e = cc
symbol-address ((t, b) ∷ tokens) s a d e =
    let (first, rest) = and-eq-true _ _ d in
    elim (Bool-cases (str_eq t s)) [
      | inl here ↦
          let same : b ≡ a = some_inj (rw here at e) in
          let name : t ≡ s = (eq_iff t s).0 here in rw (same, bytes_eq_refl a) (ap some name)
      | inr there ↦
          let deeper : get_token_address s tokens ≡ some a = rw there at e in
          rw (fresh-address t b tokens s a first deeper) (symbol-address tokens s a rest deeper)
    ]

address-symbol :
    (config : AcrossChainConfig) (s : String) (a : Bytes)
    → distinct config ≡ true
    → get_token_symbol a config ≡ some s
    → get_token_address s config ≡ some a
address-symbol [] s a d e = cc
address-symbol ((t, b) ∷ tokens) s a d e =
    let (first, rest) = and-eq-true _ _ d in
    elim (Bool-cases (bytes_eq b a)) [
      | inl here ↦
          let same : t ≡ s = some_inj (rw here at e) in
          let bytes : b ≡ a = (bytes_eq_iff b a).0 here in
          rw (same, (eq_iff s s).1 refl) (ap some bytes)
      | inr there ↦
          let deeper : get_token_symbol a tokens ≡ some s = rw there at e in
          rw (fresh-symbol t b tokens s a first deeper) (address-symbol tokens s a rest deeper)
    ]

distinct_of :
    (mapping : List (ℕ × AcrossChainConfig)) (id : ℕ) (config : AcrossChainConfig)
    → all_distinct mapping ≡ true
    → by_chain id mapping ≡ some config
    → distinct config ≡ true
distinct_of [] id config d e = cc
distinct_of ((chain, c) ∷ rest) id config d e =
    let (first, others) = and-eq-true _ _ d in
    elim (Bool-cases (chain == id)) [
      | inl here ↦ let same : c ≡ config = some_inj (rw here at e) in rw (← same) first
      | inr there ↦ distinct_of rest id config others (rw there at e)
    ]

adapt_in-adapt_in :
    (mapping : List (ℕ × AcrossChainConfig)) (a b : Bytes) (source target : ℕ)
    → all_distinct mapping ≡ true
    → adapt_in mapping a source target ≡ some b
    → adapt_in mapping b target source ≡ some a
adapt_in-adapt_in mapping a b source target d e =
    let (cs, at_source, e₁) = >>=-eq-some (by_chain source mapping) _ e in
    let (symbol, named, e₂) = >>=-eq-some (get_token_symbol a cs) _ e₁ in
    let (ct, at_target, found) = >>=-eq-some (by_chain target mapping) _ e₂ in
    rw
      (
        at_target,
        symbol-address ct symbol b (distinct_of mapping target ct d at_target) found,
        at_source,
      )
      (address-symbol cs symbol a (distinct_of mapping source cs d at_source) named)

-- A token that is carried over to another chain is carried back to where it came from.
pub adapt_token-adapt_token :
    (a b : Bytes) (source target : ℕ)
    → adapt_token a source target ≡ some b
    → adapt_token b target source ≡ some a
unfolding adapt_token
adapt_token-adapt_token a b source target e =
    adapt_in-adapt_in across_token_mapping a b source target table e
