-- ===== src/Composable/Merkle/Proofs.antt =====
-- The proof of a leaf, folded up by its verifier, gives the root of the tree.
use mathlib.Core.List.{append-nil, append_assoc}
use cow_rs.Base.{
  Bool, Bool-cases, if◌then◌else◌, ℕ, zero, suc, ◌/◌, ◌≤◌, ◌≡◌, refl, sym, ap, ◌∙◌, inl, inr, true,
  false, ltb, ◌==◌, some, List, [], ◌∷◌, ◌++◌, length, get_elem?, get_elem?_inv, arith, some_inj,
}
use cow_rs.Base.Bytes.{Bytes, bytes_le}
use cow_rs.Composable.Merkle.{
  hash_pair, next_layer, root_loop, merkle_root, proof_loop, generate_proof,
}
use cow_rs.Composable.Merkle.Layers.{sibling_parent, length-next_layer}

-- `<` of `bytes32`: one sequence is before another in the order of the bytes.
abbrev pub bytes_lt : Bytes → Bytes → Bool
bytes_lt [] [] = false
bytes_lt [] (y ∷ ys) = true
bytes_lt (x ∷ xs) [] = false
bytes_lt (x ∷ xs) (y ∷ ys) = let rest = bytes_lt xs ys in if x == y then rest else ltb x y

bytes_le_of_lt : (xs ys : Bytes) → bytes_lt xs ys ≡ true → bytes_le xs ys ≡ true
bytes_le_of_lt [] [] h = refl
bytes_le_of_lt [] (y ∷ ys) h = refl
bytes_le_of_lt (x ∷ xs) [] h = cc
bytes_le_of_lt (x ∷ xs) (y ∷ ys) h = ground (arith, bytes_le_of_lt xs ys)

eq_of_bytes_le : (xs ys : Bytes) → bytes_le xs ys ≡ true → bytes_lt xs ys ≡ false → xs ≡ ys
eq_of_bytes_le [] [] h k = refl
eq_of_bytes_le [] (y ∷ ys) h k = cc
eq_of_bytes_le (x ∷ xs) [] h k = cc
eq_of_bytes_le (x ∷ xs) (y ∷ ys) h k = ground (arith, eq_of_bytes_le xs ys)

module _ (keccak256 : Bytes → Bytes) where
  -- `MerkleProof._hashPair` of the contract: the smaller of the two comes first.
  abbrev pub commutative_hash : Bytes → Bytes → Bytes
  commutative_hash a b = if bytes_lt a b then keccak256 (a ++ b) else keccak256 (b ++ a)

  hash_pair-commutative_hash : (a b : Bytes) → hash_pair keccak256 a b ≡ commutative_hash a b
  unfolding hash_pair
  hash_pair-commutative_hash a b = elim (Bool-cases (bytes_lt a b)) [
    | inl lt ↦ rw (lt, bytes_le_of_lt a b lt) refl
    | inr ge ↦ elim (Bool-cases (bytes_le a b)) [
      | inl le ↦ rw (ge, le) (cc (eq_of_bytes_le a b le ge))
      | inr gt ↦ rw (ge, gt) refl
    ]
  ]

  -- `MerkleProof.processProof` of the contract: the leaf is hashed with one sibling after the other.
  abbrev pub process_proof : Bytes → List Bytes → Bytes
  process_proof computed [] = computed
  process_proof computed (s ∷ proof) = process_proof (commutative_hash computed s) proof

  -- What both loops give for a layer and the position of a node, in front of the siblings so far.
  abbrev Verifies : ℕ → List Bytes → ℕ → Bytes → List Bytes → Type 0
  Verifies fuel layer index node proof =
      (root : Bytes) × (siblings : List Bytes) × (root_loop keccak256 fuel layer ≡ some (root ∷ []))
      × (proof_loop keccak256 fuel layer index proof ≡ some (proof ++ siblings))
      × (process_proof node siblings ≡ root)

  Verifies-step :
      (fuel : ℕ) (a b : Bytes) (rest : List Bytes) (index : ℕ) (node : Bytes) (proof : List Bytes)
      → get_elem? (a ∷ b ∷ rest) index ≡ some node
      → ((parent : Bytes) (proof' : List Bytes)
          → get_elem? (next_layer keccak256 (a ∷ b ∷ rest)) (index / 2) ≡ some parent
          → Verifies fuel (next_layer keccak256 (a ∷ b ∷ rest)) (index / 2) parent proof')
      → Verifies (suc fuel) (a ∷ b ∷ rest) index node proof
  unfolding root_loop proof_loop
  Verifies-step fuel a b rest index node proof e above =
      elim (sibling_parent keccak256 (a ∷ b ∷ rest) index node
        (get_elem?_inv (a ∷ b ∷ rest) index [] e).0 e) [
          | inl (s, found, up) ↦
              let (root, siblings, r, p, v) =
                above (hash_pair keccak256 node s) (proof ++ s ∷ []) up in
              (
                root,
                s ∷ siblings,
                rw many r,
                rw (many, found) (p ∙ ap some (append_assoc proof (s ∷ []) siblings)),
                ap (λ (h : Bytes). process_proof h siblings)
                      (sym (hash_pair-commutative_hash node s))
                    ∙ v,
              )
          | inr (alone, up) ↦
              let (root, siblings, r, p, v) = above node proof up in
              (root, siblings, rw many r, rw (many, alone) p, v)
        ]
    where
      many : ltb 1 (suc (suc (length rest))) ≡ true
      many = ground arith

  loops-Verify :
      (fuel : ℕ) (layer : List Bytes) (index : ℕ) (node : Bytes) (proof : List Bytes)
      → get_elem? layer index ≡ some node
      → length layer ≤ fuel
      → Verifies fuel layer index node proof
  unfolding root_loop proof_loop
  loops-Verify fuel [] index node proof e h = cc
  loops-Verify zero (a ∷ layer) index node proof e h = absurd (omega arith)
  loops-Verify (suc fuel) (a ∷ []) zero node proof e h =
      (a, [], refl, rw append-nil, sym (some_inj e))
  loops-Verify (suc fuel) (a ∷ []) (suc index) node proof e h = cc
  loops-Verify (suc fuel) (a ∷ b ∷ rest) index node proof e h =
      Verifies-step fuel a b rest index node proof e λ parent proof' up.
        loops-Verify fuel (next_layer keccak256 (a ∷ b ∷ rest)) (index / 2) parent proof' up
          (omega (arith, length-next_layer keccak256 (a ∷ b ∷ rest)))

  merkle_root-root_loop :
      (leaves : List Bytes) (root : Bytes)
      → root_loop keccak256 (suc (length leaves)) leaves ≡ some (root ∷ [])
      → merkle_root keccak256 leaves ≡ some root
  unfolding merkle_root root_loop
  merkle_root-root_loop [] root h = cc
  merkle_root-root_loop (a ∷ []) root h = cc
  merkle_root-root_loop (a ∷ b ∷ rest) root h =
      let more : (suc (suc (length rest)) == 1) ≡ false = ground arith in rw (more, h)

  -- For every hash function and every leaf at an index of the list of leaves, the root and the
  -- proof are computed, without running out of fuel or of range, and the contract's verifier takes
  -- the leaf and the proof to the root.
  pub process_proof-generate_proof :
      (leaves : List Bytes) (index : ℕ) (leaf : Bytes)
      → get_elem? leaves index ≡ some leaf
      → (root : Bytes) × (proof : List Bytes) × (merkle_root keccak256 leaves ≡ some root)
        × (generate_proof keccak256 leaves index ≡ some proof)
        × (process_proof leaf proof ≡ root)
  unfolding generate_proof
  process_proof-generate_proof leaves index leaf e =
      let (root, proof, r, p, v) =
        loops-Verify (suc (length leaves)) leaves index leaf [] e (omega arith) in
      (root, proof, merkle_root-root_loop leaves root r, p, v)
