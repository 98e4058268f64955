-- ===== src/Composable/Merkle.antt =====
-- crates/composable/src/multiplexer.rs, the Merkle tree: roots and proofs over hashed pairs.
pub mod Layers
pub mod Proofs
use cow_rs.Base.{
  ℕ, zero, suc, ◌+◌, ◌-◌, ◌/◌, ◌%◌, Bool, ltb, ◌==◌, if◌then◌else◌, Option, none, some, List, [],
  ◌∷◌, ◌++◌, length, get_elem?,
}
use cow_rs.Base.Panics.{◌>>=◌}
use cow_rs.Base.Bytes.{Bytes, bytes_le}

-- `layer[i]` panics out of range, and `none` stands for that.
abbrev pub sibling : List Bytes → ℕ → Option (Option Bytes)
sibling layer index =
    if index % 2 == 0
    then if ltb (index + 1) (length layer)
      then (get_elem? layer (index + 1) >>= λ s. some (some s))
      else some none
    else (get_elem? layer (index - 1) >>= λ s. some (some s))

abbrev pub push_sibling : List Bytes → Option Bytes → List Bytes
push_sibling proof none = proof
push_sibling proof (some s) = proof ++ s ∷ []

-- `keccak256` is `alloy_primitives`'.
module _ (keccak256 : Bytes → Bytes) where
  pub hash_pair : Bytes → Bytes → Bytes
  hash_pair a b = if bytes_le a b then keccak256 (a ++ b) else keccak256 (b ++ a)

  -- One round of the `while` loops: the pairs of the layer, an odd last node passed on.
  pub next_layer : List Bytes → List Bytes
  next_layer [] = []
  next_layer (a ∷ []) = a ∷ []
  next_layer (a ∷ b ∷ rest) = hash_pair a b ∷ next_layer rest

  -- The loops have fuel for one round more than the layer has nodes.
  pub root_loop : ℕ → List Bytes → Option (List Bytes)
  root_loop zero layer = none
  root_loop (suc fuel) layer =
      let rest = root_loop fuel (next_layer layer) in
      if ltb 1 (length layer) then rest else some layer

  unfoldable pub merkle_root : List Bytes → Option Bytes
  merkle_root leaves =
      if length leaves == 1
      then get_elem? leaves 0
      else root_loop (suc (length leaves)) leaves >>= λ layer. get_elem? layer 0

  pub proof_loop : ℕ → List Bytes → ℕ → List Bytes → Option (List Bytes)
  proof_loop zero layer index proof = none
  proof_loop (suc fuel) layer index proof =
      let rest = λ (s : Option Bytes).
        proof_loop fuel (next_layer layer) (index / 2) (push_sibling proof s) in
      if ltb 1 (length layer) then sibling layer index >>= rest else some proof

  unfoldable pub generate_proof : List Bytes → ℕ → Option (List Bytes)
  generate_proof leaves index = proof_loop (suc (length leaves)) leaves index []
