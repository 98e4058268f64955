-- ===== src/Composable/Multiplexer/Orders.antt =====
-- The managed set under its operations, by identity and by position.
use cow_rs.Base.{
  ℕ, zero, suc, ◌≤◌, ◌<◌, ◌≡◌, ◌⊎◌, inl, inr, refl, sym, ◌∙◌, Bool, true, false, not, ◌==◌,
  if◌then◌else◌, none, some, List, [], ◌∷◌, length, get_elem?, set, ok, err, app_data, Bool-cases,
  arith, le→leb, lt→leb, lt_or_le,
}
use cow_rs.Base.Bytes.{Bytes, bytes_eq, bytes_eq_iff}
use cow_rs.Composable.Types.{ConditionalOrderParams}
use cow_rs.Composable.Params.{order_id}
use cow_rs.Composable.Multiplexer.{
  Multiplexer, remove, update, retain, find, get_by_id, get_by_index,
}

module _ {A : Type 0} where
  find-retain :
      (test keep : A → Bool) (xs : List A)
      → ((x : A) → test x ≡ true → keep x ≡ true)
      → find test (retain keep xs) ≡ find test xs
  find-retain test keep [] h = refl
  find-retain test keep (x ∷ xs) h =
      let ih = find-retain test keep xs h in let hx = h x in ground (arith, ih)

  find-retain-none :
      (test : A → Bool) (xs : List A) → find test (retain (λ x. not (test x)) xs) ≡ none
  find-retain-none test [] = refl
  find-retain-none test (x ∷ xs) = let ih = find-retain-none test xs in ground (arith, ih)

  get_elem?-set :
      (xs : List A) (i j : ℕ) (v : A)
      → i < length xs
      → get_elem? (set xs i v) j ≡ (if j == i then some v else get_elem? xs j)
  get_elem?-set [] i j v h = absurd (omega arith)
  get_elem?-set (x ∷ xs) zero zero v h = refl
  get_elem?-set (x ∷ xs) zero (suc j) v h = ground arith
  get_elem?-set (x ∷ xs) (suc i) zero v h = ground arith
  get_elem?-set (x ∷ xs) (suc i) (suc j) v h = ground (arith, get_elem?-set xs i j v (omega arith))

other_id :
    (x id other : Bytes)
    → bytes_eq id other ≡ false
    → bytes_eq x other ≡ true
    → not (bytes_eq x id) ≡ true
other_id x id other differ found = elim (Bool-cases (bytes_eq x id)) [
  | inl same ↦
      let e : id ≡ other = sym ((bytes_eq_iff x id).0 same) ∙ (bytes_eq_iff x other).0 found in
      let f = (bytes_eq_iff id other).1 e in cc
  | inr apart ↦ rw apart
]

module _ (keccak256 : Bytes → Bytes) where
  -- After `remove` of an identity, looking it up finds nothing, and looking up any other finds
  -- what it found before.
  pub get_by_id-remove :
      (m : Multiplexer) (id other : Bytes)
      → get_by_id keccak256 (remove keccak256 m id) other
        ≡ (if bytes_eq id other then none else get_by_id keccak256 m other)
  unfolding get_by_id remove
  get_by_id-remove m id other = elim (Bool-cases (bytes_eq id other)) [
    | inl same ↦
        let e : id ≡ other = (bytes_eq_iff id other).0 same in
        rw (same, e) (find-retain-none (λ p. bytes_eq (order_id keccak256 p) other) m.orders)
    | inr differ ↦ rw differ (
        find-retain (λ p. bytes_eq (order_id keccak256 p) other)
          (λ p. not (bytes_eq (order_id keccak256 p) id)) m.orders
          λ x found. other_id (order_id keccak256 x) id other differ found)
  ]

-- An update at an index in range succeeds, puts the parameters at that index and keeps all other
-- positions; at an index out of range it is an error.
get_by_index-update :
    (m : Multiplexer) (index : ℕ) (params : ConditionalOrderParams) (i : ℕ)
    → ((updated : Multiplexer) × (index < length m.orders)
        × (update m index params ≡ ok updated)
        × (get_by_index updated i ≡ (if i == index then some params else get_by_index m i)))
      ⊎ ((length m.orders ≤ index) × (update m index params ≡ err (app_data "index out of range")))
unfolding update get_by_index
get_by_index-update m index params i = elim (lt_or_le index (length m.orders)) [
  | inl inside ↦ inl (
    record { orders = set m.orders index params; location = m.location },
    inside,
    rw (lt→leb (length m.orders) index inside),
    get_elem?-set m.orders index i params inside,
  )
  | inr outside ↦ inr (outside, rw (le→leb (length m.orders) index outside))
]
