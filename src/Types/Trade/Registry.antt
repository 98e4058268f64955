-- ===== src/Types/Trade/Registry.antt =====
-- The registry keeps its vector and its map in step, and gives each token one index for good.
use cow_rs.Base.{
  ℕ, zero, suc, ◌+◌, ◌≡◌, refl, ap, ◌⊎◌, ◌↔◌, inl, inr, none, some, List, [], ◌∷◌, ◌++◌, length,
  get_elem?, arith, Option-cases, Bool-cases, some_inj, length-append,
}
use cow_rs.Base.Bytes.{Bytes, bytes_eq, bytes_eq_iff}
use cow_rs.Types.Trade.{SettlementTokenRegistry, lookup, index, index_found, empty_registry}

-- The map holds exactly the positions of the vector.
pub record IsConsistent (r : SettlementTokenRegistry) : Type 0 where
  pub agree :
      (t : Bytes) (i : ℕ) → (lookup t r.token_map ≡ some i) ↔ (get_elem? r.tokens i ≡ some t)

pub empty_registry-IsConsistent : IsConsistent empty_registry
empty_registry-IsConsistent = record { agree = λ t i. (λ h. cc, λ h. cc) }

get_elem?-push_old :
    (xs : List Bytes) (x : Bytes) (i : ℕ) {t : Bytes}
    → get_elem? xs i ≡ some t
    → get_elem? (xs ++ x ∷ []) i ≡ some t
get_elem?-push_old [] x i h = cc
get_elem?-push_old (y ∷ xs) x zero h = h
get_elem?-push_old (y ∷ xs) x (suc i) h = get_elem?-push_old xs x i h

get_elem?-push_last : (xs : List Bytes) (x : Bytes) → get_elem? (xs ++ x ∷ []) (length xs) ≡ some x
get_elem?-push_last [] x = refl
get_elem?-push_last (y ∷ xs) x = get_elem?-push_last xs x

get_elem?-push_inv :
    (xs : List Bytes) (x : Bytes) (i : ℕ) {t : Bytes}
    → get_elem? (xs ++ x ∷ []) i ≡ some t
    → (get_elem? xs i ≡ some t) ⊎ ((i ≡ length xs) × (x ≡ t))
get_elem?-push_inv [] x zero h = inr (refl, some_inj h)
get_elem?-push_inv [] x (suc i) h = cc
get_elem?-push_inv (y ∷ xs) x zero h = inl h
get_elem?-push_inv (y ∷ xs) x (suc i) h = elim (get_elem?-push_inv xs x i h) [
  | inl old ↦ inl old
  | inr (last, same) ↦ inr (ap suc last, same)
]

module _ (r : SettlementTokenRegistry) (token : Bytes) where
  -- The registry after a token that the map did not hold.
  abbrev extended : SettlementTokenRegistry
  extended = (index_found r token none).0

  extended-IsConsistent : IsConsistent r → lookup token r.token_map ≡ none → IsConsistent extended
  extended-IsConsistent c new = record {
    agree = λ t i. (
      λ h. elim (Bool-cases (bytes_eq token t)) [
        | inl e ↦
            let same = (bytes_eq_iff token t).0 e in
            let last : length r.tokens ≡ i = some_inj (rw e at h) in
            rw (← last, ← same) (get_elem?-push_last r.tokens token)
        | inr e ↦ get_elem?-push_old r.tokens token i ((c.agree t i).0 (rw e at h))
      ],
      λ h. elim (get_elem?-push_inv r.tokens token i h) [
        | inl old ↦ elim (Bool-cases (bytes_eq token t)) [
          | inl e ↦ cc ((c.agree t i).1 old, (bytes_eq_iff token t).0 e)
          | inr e ↦ rw e ((c.agree t i).1 old)
        ]
        | inr (last, same) ↦ rw ((bytes_eq_iff token t).1 same, last)
      ],
    );
  }

  pub index-IsConsistent : IsConsistent r → IsConsistent (index r token).0
  unfolding index
  index-IsConsistent c = elim (Option-cases (lookup token r.token_map)) [
    | inl new ↦ rw new (extended-IsConsistent c new)
    | inr (i, old) ↦ rw old c
  ]

  -- The index is the token's position.
  pub get_elem?-index :
      IsConsistent r → get_elem? (index r token).0.tokens (index r token).1 ≡ some token
  unfolding index
  get_elem?-index c = elim (Option-cases (lookup token r.token_map)) [
    | inl new ↦ rw new (get_elem?-push_last r.tokens token)
    | inr (i, old) ↦ rw old ((c.agree token i).0 old)
  ]

  -- Tokens registered before keep their positions.
  pub index_keeps :
      (i : ℕ) {t : Bytes}
      → get_elem? r.tokens i ≡ some t
      → get_elem? (index r token).0.tokens i ≡ some t
  unfolding index
  index_keeps i h = elim (Option-cases (lookup token r.token_map)) [
    | inl new ↦ rw new (get_elem?-push_old r.tokens token i h)
    | inr (j, old) ↦ rw old h
  ]

  -- A registered token is found again at its index, and the registry is left as it was.
  index_of_registered :
      IsConsistent r → (i : ℕ) → get_elem? r.tokens i ≡ some token → index r token ≡ (r, i)
  unfolding index
  index_of_registered c i h = rw ((c.agree token i).1 h)

  -- The registry grows by the token's index or not at all.
  pub length-index :
      (length (index r token).0.tokens ≡ length r.tokens)
      ⊎ (length (index r token).0.tokens ≡ (index r token).1 + 1)
  unfolding index
  length-index = elim (Option-cases (lookup token r.token_map)) [
    | inl new ↦ inr (rw new (omega (arith, length-append r.tokens (token ∷ []))))
    | inr (j, old) ↦ inl (rw old)
  ]

-- From a consistent registry, after a token and then any other are registered, the first is found
-- at the index that it was given, and the registry is left as it is.
index-index :
    (r : SettlementTokenRegistry) (token other : Bytes)
    → IsConsistent r
    → index (index (index r token).0 other).0 token
      ≡ ((index (index r token).0 other).0, (index r token).1)
index-index r token other c =
    let r₁ = (index r token).0 in
    index_of_registered (index r₁ other).0 token
      (index-IsConsistent r₁ other (index-IsConsistent r token c)) (index r token).1
      (index_keeps r₁ other (index r token).1 (get_elem?-index r token c))
