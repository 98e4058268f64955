-- ===== src/Composable/Merkle/Layers.antt =====
-- One layer of the tree: a node, its sibling and their parent in the next layer.
use cow_rs.Base.{
  ℕ, zero, suc, ◌+◌, ◌-◌, ◌/◌, ◌%◌, ◌<◌, ◌≡◌, refl, ◌∙◌, ◌⊎◌, inl, inr, true, false, ltb, ◌==◌,
  Option, none, some, List, [], ◌∷◌, length, get_elem?, arith, Bool-cases, some_inj, lt→ltb,
}
use cow_rs.Base.Bytes.{Bytes, bytes_le, bytes_le_total, bytes_le_antisymm}
use cow_rs.Composable.Merkle.{sibling, hash_pair, next_layer}

-- The sibling by position: the neighbour in the pair, if the pair is full.
abbrev neighbour : List Bytes → ℕ → Option (Option Bytes)
neighbour [] i = none
neighbour (a ∷ []) zero = some none
neighbour (a ∷ []) (suc i) = none
neighbour (a ∷ b ∷ rest) zero = some (some b)
neighbour (a ∷ b ∷ rest) (suc zero) = some (some a)
neighbour (a ∷ b ∷ rest) (suc (suc i)) = neighbour rest i

ltb_shift : (i n : ℕ) → ltb (suc (suc i)) (suc (suc n)) ≡ ltb i n
ltb_shift i n = ground arith

sibling_shift :
    (a b : Bytes) (rest : List Bytes) (i : ℕ)
    → sibling (a ∷ b ∷ rest) (suc (suc i)) ≡ sibling rest i
sibling_shift a b rest i = elim (Bool-cases (i % 2 == 0)) [
  | inl e ↦
      let even : (suc (suc i) % 2 == 0) ≡ true = ground arith in
      let next : suc (suc i) + 1 ≡ suc (suc (i + 1)) = omega arith in
      rw (even, e, next, ltb_shift (i + 1) (length rest))
  | inr e ↦
      let odd : (suc (suc i) % 2 == 0) ≡ false = ground arith in
      let here : i ≡ suc (i - 1) = ground arith in
      let before : suc (suc i) - 1 ≡ suc (suc (i - 1)) = ground arith in rw (odd, e, before)
]

sibling-neighbour :
    (layer : List Bytes) (i : ℕ) → i < length layer → sibling layer i ≡ neighbour layer i
sibling-neighbour [] i h = elim h [ ]
sibling-neighbour (a ∷ []) zero h = refl
sibling-neighbour (a ∷ []) (suc i) h = absurd (omega arith)
sibling-neighbour (a ∷ b ∷ rest) zero h =
    rw (lt→ltb (0 + 1) (suc (suc (length rest))) (omega arith))
sibling-neighbour (a ∷ b ∷ rest) (suc zero) h = refl
sibling-neighbour (a ∷ b ∷ rest) (suc (suc i)) h =
    sibling_shift a b rest i ∙ sibling-neighbour rest i (omega arith)

module _ (keccak256 : Bytes → Bytes) where
  -- The order of a pair does not change its hash.
  pub hash_pair_comm : (a b : Bytes) → hash_pair keccak256 a b ≡ hash_pair keccak256 b a
  unfolding hash_pair
  hash_pair_comm a b = elim (Bool-cases (bytes_le a b)) [
    | inl h ↦ elim (Bool-cases (bytes_le b a)) [
      | inl k ↦ rw (bytes_le_antisymm a b h k)
      | inr k ↦ rw (h, k)
    ]
    | inr h ↦ rw (h, bytes_le_total a b h)
  ]

  -- The parent of a node is made of the node and its sibling, if it has one.
  abbrev Parent : List Bytes → ℕ → Bytes → Type 0
  Parent layer i node =
      ((s : Bytes) × (neighbour layer i ≡ some (some s))
        × (get_elem? (next_layer keccak256 layer) (i / 2) ≡ some (hash_pair keccak256 node s)))
      ⊎ ((neighbour layer i ≡ some none)
          × (get_elem? (next_layer keccak256 layer) (i / 2) ≡ some node))

  neighbour-Parent :
      (layer : List Bytes) (i : ℕ) (node : Bytes)
      → get_elem? layer i ≡ some node
      → Parent layer i node
  unfolding next_layer
  neighbour-Parent [] i node h = cc
  neighbour-Parent (a ∷ []) zero node h = inr (refl, h)
  neighbour-Parent (a ∷ []) (suc i) node h = cc
  neighbour-Parent (a ∷ b ∷ rest) zero node h = inl (b, refl, rw (some_inj h))
  neighbour-Parent (a ∷ b ∷ rest) (suc zero) node h =
      inl (a, refl, rw (some_inj h, hash_pair_comm a node))
  neighbour-Parent (a ∷ b ∷ rest) (suc (suc i)) node h =
      let half : suc (suc i) / 2 ≡ suc (i / 2) = omega arith in
      rw half (neighbour-Parent rest i node h)

  -- The same, for the sibling that the loop computes.
  pub sibling_parent :
      (layer : List Bytes) (i : ℕ) (node : Bytes)
      → i < length layer
      → get_elem? layer i ≡ some node
      → ((s : Bytes) × (sibling layer i ≡ some (some s))
          × (get_elem? (next_layer keccak256 layer) (i / 2) ≡ some (hash_pair keccak256 node s)))
        ⊎ ((sibling layer i ≡ some none)
            × (get_elem? (next_layer keccak256 layer) (i / 2) ≡ some node))
  sibling_parent layer i node h e =
      rw (sibling-neighbour layer i h) (neighbour-Parent layer i node e)

  pub length-next_layer :
      (layer : List Bytes) → length (next_layer keccak256 layer) ≡ (length layer + 1) / 2
  unfolding next_layer
  length-next_layer [] = refl
  length-next_layer (a ∷ []) = refl
  length-next_layer (a ∷ b ∷ rest) = omega (arith, length-next_layer rest)
