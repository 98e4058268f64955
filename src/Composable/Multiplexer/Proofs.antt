-- ===== src/Composable/Multiplexer/Proofs.antt =====
-- The proofs that the multiplexer exports are proofs against its root.
use cow_rs.Base.{
  ℕ, suc, ◌+◌, ◌≡◌, refl, sym, ap, ◌∙◌, some, List, [], ◌∷◌, length, get_elem?, get_elem?_inv,
  get_elem?-map, map, All, ok, arith, lt→leb,
}
use mathlib.Core.Path.{ap₂}
use cow_rs.Base.Bytes.{Bytes}
use cow_rs.Composable.Types.{ConditionalOrderParams}
use cow_rs.Composable.Params.{order_id}
use cow_rs.Composable.Merkle.{merkle_root}
use cow_rs.Composable.Merkle.Proofs.{process_proof, process_proof-generate_proof}
use cow_rs.Composable.Multiplexer.{
  OrderProof, ProofWithParams, Multiplexer, range, collect, map_ok, without_id, leaf_hash, root_of,
  root, proof_of, dump_proofs_and_params,
}

abbrev proof_with : ConditionalOrderParams → List Bytes → Bytes → OrderProof
proof_with params siblings id = record { id = id; proof = siblings; params = params }

module _ (keccak256 : Bytes → Bytes) where
  -- An entry's proof takes the leaf of its parameters to the root of the multiplexer.
  abbrev pub IsProven : Multiplexer → ProofWithParams → Type 0
  IsProven m entry =
      (hash : Bytes) × (root keccak256 m ≡ some (ok (some hash)))
      × (process_proof keccak256 (leaf_hash keccak256 entry.params) entry.proof ≡ hash)

  root_of-nonempty :
      (orders : List ConditionalOrderParams) (i : ℕ) (params : ConditionalOrderParams)
      (hash : Bytes)
      → get_elem? orders i ≡ some params
      → merkle_root keccak256 (map (leaf_hash keccak256) orders) ≡ some hash
      → root_of keccak256 orders ≡ some (ok (some hash))
  unfolding root_of
  root_of-nonempty [] i params hash found h = cc
  root_of-nonempty (p ∷ orders) i params hash found h = rw h

  -- For every position that holds an order the proof is computed, carries the order and its
  -- identity, and the contract's verifier takes the order's leaf and the proof to the
  -- multiplexer's root.
  proof_of-IsProven :
      (m : Multiplexer) (index : ℕ) (params : ConditionalOrderParams)
      → get_elem? m.orders index ≡ some params
      → (entry : OrderProof) × (proof_of keccak256 m index ≡ some (ok entry))
        × (entry.id ≡ order_id keccak256 params)
        × (entry.params ≡ params)
        × IsProven m (without_id entry)
  unfolding proof_of
  proof_of-IsProven m index params found =
      let inside = (get_elem?_inv m.orders index params found).0 in
      let (hash, siblings, r, p, v) =
        process_proof-generate_proof keccak256 (map (leaf_hash keccak256) m.orders) index
          (leaf_hash keccak256 params) (get_elem?-map (leaf_hash keccak256) m.orders index found) in
      (
        proof_with params siblings (order_id keccak256 params),
        rw (lt→leb (length m.orders) index inside, found, p),
        refl,
        refl,
        (hash, root_of-nonempty m.orders index params hash found r, v),
      )

  -- The export from a position on.
  abbrev Dumps : Multiplexer → ℕ → List ConditionalOrderParams → Type 0
  Dumps m start orders =
      (entries : List ProofWithParams) × (collect
          (map (λ i. map_ok without_id (proof_of keccak256 m i)) (range start (length orders)))
        ≡ some (ok entries))
      × (map (λ (e : ProofWithParams). e.params) entries ≡ orders)
      × All (IsProven m) entries

  dump_from :
      (m : Multiplexer) (start : ℕ) (orders : List ConditionalOrderParams)
      → ((i : ℕ) (params : ConditionalOrderParams)
          → get_elem? orders i ≡ some params
          → get_elem? m.orders (start + i) ≡ some params)
      → Dumps m start orders
  dump_from m start [] h = ([], refl, refl, tt)
  dump_from m start (p ∷ orders) h =
      let here : start + 0 ≡ start = omega arith in
      let (entry, e, _, same, proven) =
        proof_of-IsProven m start p (ap (get_elem? m.orders) (sym here) ∙ h 0 p refl) in
      let (entries, es, all, rest) = dump_from m (suc start) orders λ i params found.
        let next : suc start + i ≡ start + suc i = omega arith in
        ap (get_elem? m.orders) next ∙ h (suc i) params found in
      (without_id entry ∷ entries, rw (e, es), ap₂ (◌∷◌) same all, (proven, rest))

  -- For every hash function and every multiplexer the export succeeds with one entry for each
  -- order, in order, and the contract's verifier takes the leaf of each entry and its proof to the
  -- multiplexer's root.
  pub dump_proofs_and_params-IsProven :
      (m : Multiplexer)
      → (entries : List ProofWithParams) × (dump_proofs_and_params keccak256 m ≡ some (ok entries))
        × (map (λ (e : ProofWithParams). e.params) entries ≡ m.orders)
        × All (IsProven m) entries
  unfolding dump_proofs_and_params
  dump_proofs_and_params-IsProven m =
      dump_from m 0 m.orders
        λ i params found. let here : 0 + i ≡ i = omega arith in ap (get_elem? m.orders) here ∙ found
