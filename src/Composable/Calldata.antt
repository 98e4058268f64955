-- ===== src/Composable/Calldata.antt =====
-- crates/composable/src/calldata.rs: the calldata of ComposableCoW, the contract of conditional orders.
pub mod Reads
pub mod Parts
use cow_rs.Base.{ℕ, ◌+◌, ◌*◌, String, Bool, if◌then◌else◌, List, [], ◌∷◌, ◌++◌, length, concat, map}
use cow_rs.Base.Bytes.{Bytes}
use cow_rs.Base.Words.{pad_address, u256_be, pad_into, pad32_len}
use cow_rs.Settlement.Encoder.{selector}
use cow_rs.Composable.Types.{ConditionalOrderParams, ProofLocation, location_to_u8}
use cow_rs.Composable.Params.{params_bytes}

pub record ProofStruct : Type 0 where
  pub location : ProofLocation
  pub proof_data : Bytes

-- A length word and the padded bytes.
abbrev pub bytes_enc : Bytes → Bytes
bytes_enc bytes = u256_be (length bytes) ++ pad_into bytes

unfoldable pub encode_proof_struct : ProofStruct → Bytes
encode_proof_struct proof =
    concat (u256_be (location_to_u8 proof.location) ∷ u256_be 64 ∷ []) ++ bytes_enc proof.proof_data

-- The same bytes as those that the identity of an order is the hash of.
abbrev pub encode_params_tuple : ConditionalOrderParams → Bytes
encode_params_tuple params = params_bytes params

-- A proof as a length word and its pairs of words.
abbrev pub pairs_enc : List (Bytes × Bytes) → Bytes
pairs_enc proof =
    u256_be (length proof) ++ concat (map (λ (pair : Bytes × Bytes). pair.0 ++ pair.1) proof)

-- The head words of a call, and its dynamic parts behind them.
abbrev pub arguments : List Bytes → List Bytes → Bytes
arguments head parts = concat head ++ concat parts

abbrev pub set_root_head : Bytes → Bytes → List Bytes
set_root_head root proof_enc = root ∷ u256_be 96 ∷ u256_be (96 + length proof_enc) ∷ []

abbrev pub set_root_with_context_head : Bytes → Bytes → Bytes → Bytes → List Bytes
set_root_with_context_head root proof_enc params_enc factory =
    root
    ∷ u256_be 160
    ∷ u256_be (160 + length proof_enc)
    ∷ pad_address factory
    ∷ u256_be (160 + length proof_enc + length params_enc)
    ∷ []

-- The bytes of the tuple of parameters, and of a proof, as the code counts them.
unfoldable pub tuple_size : ConditionalOrderParams → ℕ
tuple_size params = 3 * 32 + 32 + pad32_len (length params.static_input)

unfoldable pub proof_size : List (Bytes × Bytes) → ℕ
proof_size proof = 32 + length proof * 64

abbrev pub create_with_context_head : ConditionalOrderParams → Bytes → Bool → List Bytes
create_with_context_head params factory dispatch =
    u256_be 128
    ∷ pad_address factory
    ∷ u256_be (128 + tuple_size params)
    ∷ u256_be (if dispatch then 1 else 0)
    ∷ []

abbrev pub create_head : ConditionalOrderParams → List (Bytes × Bytes) → List Bytes
create_head params proof =
    u256_be 96
    ∷ u256_be (96 + tuple_size params)
    ∷ u256_be (96 + tuple_size params + proof_size proof)
    ∷ []

module _ (keccak256 : String → Bytes) where
  unfoldable pub set_root_calldata : Bytes → ProofStruct → ConditionalOrderParams → Bytes
  set_root_calldata root proof params =
      let proof_enc = encode_proof_struct proof in
      let params_enc = encode_params_tuple params in
      selector keccak256 "setRoot(bytes32,(uint256,bytes),(address,bytes32,bytes))"
      ++ arguments (set_root_head root proof_enc) (proof_enc ∷ params_enc ∷ [])

  unfoldable pub set_root_with_context_calldata :
      Bytes → ProofStruct → ConditionalOrderParams → Bytes → Bytes → Bytes
  set_root_with_context_calldata root proof params factory factory_data =
      let proof_enc = encode_proof_struct proof in
      let params_enc = encode_params_tuple params in
      selector keccak256
        "setRootWithContext(bytes32,(uint256,bytes),(address,bytes32,bytes),address,bytes)"
      ++ arguments (set_root_with_context_head root proof_enc params_enc factory)
          (proof_enc ∷ params_enc ∷ bytes_enc factory_data ∷ [])

  unfoldable pub create_with_context_calldata :
      ConditionalOrderParams → Bytes → Bytes → Bool → Bytes
  create_with_context_calldata params factory factory_data dispatch =
      let params_enc = encode_params_tuple params in
      selector keccak256 "createWithContext((address,bytes32,bytes),address,bytes,bool)"
      ++ arguments (create_with_context_head params factory dispatch)
          (params_enc ∷ bytes_enc factory_data ∷ [])

  unfoldable pub create_calldata : ConditionalOrderParams → List (Bytes × Bytes) → Bytes → Bytes
  create_calldata params proof offchain_input =
      let params_enc = encode_params_tuple params in
      selector keccak256 "create((address,bytes32,bytes),bytes32[2][],bytes)"
      ++ arguments (create_head params proof)
          (params_enc ∷ pairs_enc proof ∷ bytes_enc offchain_input ∷ [])

  unfoldable pub remove_calldata : Bytes → Bytes
  remove_calldata order_id = selector keccak256 "remove(bytes32)" ++ order_id
