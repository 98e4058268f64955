-- ===== src/Composable/Calldata/Parts.antt =====
-- Where the contract finds the arguments of the calls.
use cow_rs.Base.{
  ℕ, zero, suc, ◌+◌, ◌*◌, ◌^◌, ◌<◌, ◌≡◌, refl, ap, ◌∙◌, String, Bool, if◌then◌else◌, some, List, [],
  ◌∷◌, ◌++◌, length, concat, take, drop, All, get_or, get_elem?, arith, some_inj, length-append,
  length-take, drop-append,
}
use cow_rs.Base.Bytes.{Bytes}
use cow_rs.Base.Words.{IsWord, IsAddress, u256_be, addr, b256, u256}
use cow_rs.Base.Words.Rows.{pad_address-IsWord, u256_be-IsWord, length-concat}
use cow_rs.Base.Words.Read.{u64_at, b256_at, addr_at, u256-append, b256-append, addr-append}
use cow_rs.Base.Words.Layout.{IsAt, IsAt-skip}
use cow_rs.Settlement.Encoder.{selector}
use cow_rs.Composable.Types.{ConditionalOrderParams}
use cow_rs.Composable.Params.{params_bytes}
use cow_rs.Composable.Params.RoundTrip.{IsParams}
use cow_rs.Composable.Calldata.Reads.{
  HasBytes, IsParamsTuple, IsProofTuple, IsPairs, IsPair, bytes_enc-HasBytes,
  params_bytes-IsParamsTuple, encode_proof_struct-IsProofTuple, pairs_enc-IsPairs,
  length-params_bytes, length-pairs_enc, length-encode_proof_struct, tuple_size-bound,
}
use cow_rs.Composable.Calldata.{
  ProofStruct, bytes_enc, encode_proof_struct, pairs_enc, arguments, set_root_with_context_head,
  create_head, set_root_with_context_calldata, create_calldata, tuple_size, proof_size,
  create_with_context_head, create_with_context_calldata,
}

part_IsAt :
    (parts : List Bytes) (k : ℕ) (piece : Bytes)
    → get_elem? parts k ≡ some piece
    → IsAt piece (length (concat (take k parts))) (concat parts)
part_IsAt [] k piece e = cc
part_IsAt (p ∷ parts) zero piece e =
    (concat parts, ap (λ (q : Bytes). q ++ concat parts) (some_inj e))
part_IsAt (p ∷ parts) (suc k) piece e =
    rw (length-append p (concat (take k parts))) (
      IsAt-skip p piece (length (concat (take k parts))) (concat parts) (part_IsAt parts k piece e))

module _ (head : List Bytes) (words : All IsWord head) (parts : List Bytes) where
  -- The part at the offset that a head word holds.
  part_here :
      (i k start : ℕ) (piece : Bytes)
      → i < length head
      → get_or head i [] ≡ u256_be start
      → get_elem? parts k ≡ some piece
      → start ≡ 32 * length head + length (concat (take k parts))
      → start < 2 ^ 64
      → IsAt piece (u256 (arguments head parts) (32 * i)) (arguments head parts)
  part_here i k start piece bound word e place fits =
      let offset : u256 (arguments head parts) (32 * i) ≡ start =
        u256-append (concat head) (concat parts) (32 * i) (omega (arith, length-concat head words))
        ∙ u64_at head i words bound start word fits in
      rw (offset, place, ← length-concat head words)
        (IsAt-skip (concat head) piece (length (concat (take k parts))) (concat parts)
          (part_IsAt parts k piece e))

-- What holds of a part in front of any rest holds of the buffer behind the offset.
read {κ} :
    (P : Bytes → Type κ) (piece : Bytes) (off : ℕ) (buf : Bytes)
    → IsAt piece off buf
    → ((rest : Bytes) → P (piece ++ rest))
    → P (drop off buf)
read P piece off buf (rest, e) holds = rw e (holds rest)

-- The arguments of `setRootWithContext`: the words, and each dynamic argument read where its offset
-- says.
pub record IsSetRoot (root : Bytes) (proof : ProofStruct) (params : ConditionalOrderParams)
    (context context_data args : Bytes) : Type 0 where
  pub root_word : b256 args 0 ≡ root
  pub proof_tuple : IsProofTuple proof (drop (u256 args 32) args)
  pub params_tuple : IsParamsTuple params (drop (u256 args 64) args)
  pub factory_word : addr args 96 ≡ context
  pub factory_bytes : HasBytes context_data 0 (drop (u256 args 128) args)

-- The arguments of `create`.
pub record IsCreate (params : ConditionalOrderParams) (proof : List (Bytes × Bytes))
    (offchain args : Bytes) : Type 0 where
  pub params_tuple : IsParamsTuple params (drop (u256 args 0) args)
  pub proof_pairs : IsPairs proof (drop (u256 args 32) args)
  pub offchain_bytes : HasBytes offchain 0 (drop (u256 args 64) args)

-- The arguments of `createWithContext`.
pub record IsCreateWithContext (params : ConditionalOrderParams) (context context_data : Bytes)
    (dispatch : Bool) (args : Bytes) : Type 0 where
  pub params_tuple : IsParamsTuple params (drop (u256 args 0) args)
  pub factory_word : addr args 32 ≡ context
  pub factory_bytes : HasBytes context_data 0 (drop (u256 args 64) args)
  pub dispatch_word : u256 args 96 ≡ (if dispatch then 1 else 0)

arguments-IsSetRoot :
    (root : Bytes) (proof : ProofStruct) (params : ConditionalOrderParams)
    (factory factory_data : Bytes)
    → IsWord root
    → IsAddress factory
    → IsParams params
    → length proof.proof_data + length params.static_input + 512 < 2 ^ 64
    → length factory_data < 2 ^ 64
    → IsSetRoot root proof params factory factory_data (
        arguments
          (set_root_with_context_head root
            (encode_proof_struct proof)
            (params_bytes params)
            factory)
          (encode_proof_struct proof ∷ params_bytes params ∷ bytes_enc factory_data ∷ []))
arguments-IsSetRoot root proof params factory factory_data width address typed small fits =
    let proof_enc : Bytes = encode_proof_struct proof in
    let params_enc : Bytes = params_bytes params in
    let head : List Bytes = set_root_with_context_head root proof_enc params_enc factory in
    let parts : List Bytes = proof_enc ∷ params_enc ∷ bytes_enc factory_data ∷ [] in
    let words : All IsWord head = (
      width,
      (
        u256_be-IsWord _,
        (u256_be-IsWord _, (pad_address-IsWord factory address, (u256_be-IsWord _, tt))),
      ),
    ) in
    let size = length-concat head words in
    let proof_len = length-encode_proof_struct proof in
    let params_len = length-params_bytes params typed in
    let bound = tuple_size-bound params in
    record {
      root_word =
          b256-append (concat head) (concat parts) 0 (omega arith)
          ∙ b256_at head 0 words (omega arith) root refl;
      proof_tuple =
          read (IsProofTuple proof) proof_enc _ (arguments head parts)
            (part_here head words parts 1 0 160 proof_enc (omega arith) refl refl (omega arith)
              (omega arith))
            (λ rest. encode_proof_struct-IsProofTuple proof rest (omega arith));
      params_tuple =
          read (IsParamsTuple params) params_enc _ (arguments head parts)
            (part_here head words parts 2 1 (160 + length proof_enc) params_enc (omega arith) refl
              refl (omega (arith, length-append proof_enc [])) (omega arith))
            (λ rest. params_bytes-IsParamsTuple params rest typed);
      factory_word =
          addr-append (concat head) (concat parts) 96 (omega arith)
          ∙ addr_at head 3 words (omega arith) factory refl address;
      factory_bytes =
          read (HasBytes factory_data 0) (bytes_enc factory_data) _ (arguments head parts)
            (part_here head words parts 4 2 (160 + length proof_enc + length params_enc)
              (bytes_enc factory_data) (omega arith) refl refl
              (omega
                (arith, length-append proof_enc (params_enc ++ []), length-append params_enc []))
              (omega arith))
            (λ rest. bytes_enc-HasBytes factory_data rest fits);
    }

arguments-IsCreate :
    (params : ConditionalOrderParams) (proof : List (Bytes × Bytes)) (offchain_input : Bytes)
    → IsParams params
    → All IsPair proof
    → length params.static_input + 64 * length proof + 512 < 2 ^ 64
    → length offchain_input < 2 ^ 64
    → IsCreate params proof offchain_input (
        arguments
          (create_head params proof)
          (params_bytes params ∷ pairs_enc proof ∷ bytes_enc offchain_input ∷ []))
unfolding proof_size
arguments-IsCreate params proof offchain_input typed pairs small fits =
    let params_enc : Bytes = params_bytes params in
    let proof_enc : Bytes = pairs_enc proof in
    let head : List Bytes = create_head params proof in
    let parts : List Bytes = params_enc ∷ proof_enc ∷ bytes_enc offchain_input ∷ [] in
    let words : All IsWord head = (u256_be-IsWord _, (u256_be-IsWord _, (u256_be-IsWord _, tt))) in
    let params_len = length-params_bytes params typed in
    let proof_len = length-pairs_enc proof pairs in
    let bound = tuple_size-bound params in
    record {
      params_tuple =
          read (IsParamsTuple params) params_enc _ (arguments head parts)
            (part_here head words parts 0 0 96 params_enc (omega arith) refl refl (omega arith)
              (omega arith))
            (λ rest. params_bytes-IsParamsTuple params rest typed);
      proof_pairs =
          read (IsPairs proof) proof_enc _ (arguments head parts)
            (part_here head words parts 1 1 (96 + tuple_size params) proof_enc (omega arith) refl
              refl (omega (arith, length-append params_enc [])) (omega arith))
            (λ rest. pairs_enc-IsPairs proof rest pairs (omega arith));
      offchain_bytes =
          read (HasBytes offchain_input 0) (bytes_enc offchain_input) _ (arguments head parts)
            (part_here head words parts 2 2 (96 + tuple_size params + proof_size proof)
              (bytes_enc offchain_input) (omega arith) refl refl
              (omega
                (arith, length-append params_enc (proof_enc ++ []), length-append proof_enc []))
              (omega arith))
            (λ rest. bytes_enc-HasBytes offchain_input rest fits);
    }

arguments-IsCreateWithContext :
    (params : ConditionalOrderParams) (factory factory_data : Bytes) (dispatch : Bool)
    → IsParams params
    → IsAddress factory
    → length params.static_input + 512 < 2 ^ 64
    → length factory_data < 2 ^ 64
    → IsCreateWithContext params factory factory_data dispatch (
        arguments
          (create_with_context_head params factory dispatch)
          (params_bytes params ∷ bytes_enc factory_data ∷ []))
arguments-IsCreateWithContext params factory factory_data dispatch typed address small fits =
    let params_enc : Bytes = params_bytes params in
    let head : List Bytes = create_with_context_head params factory dispatch in
    let parts : List Bytes = params_enc ∷ bytes_enc factory_data ∷ [] in
    let words : All IsWord head = (
      u256_be-IsWord _,
      (pad_address-IsWord factory address, (u256_be-IsWord _, (u256_be-IsWord _, tt))),
    ) in
    let size = length-concat head words in
    let params_len = length-params_bytes params typed in
    let bound = tuple_size-bound params in
    let flag : (if dispatch then 1 else 0) < 2 ^ 64 = ground arith in
    record {
      params_tuple =
          read (IsParamsTuple params) params_enc _ (arguments head parts)
            (part_here head words parts 0 0 128 params_enc (omega arith) refl refl (omega arith)
              (omega arith))
            (λ rest. params_bytes-IsParamsTuple params rest typed);
      factory_word =
          addr-append (concat head) (concat parts) 32 (omega arith)
          ∙ addr_at head 1 words (omega arith) factory refl address;
      factory_bytes =
          read (HasBytes factory_data 0) (bytes_enc factory_data) _ (arguments head parts)
            (part_here head words parts 2 1 (128 + tuple_size params) (bytes_enc factory_data)
              (omega arith) refl refl (omega (arith, length-append params_enc [])) (omega arith))
            (λ rest. bytes_enc-HasBytes factory_data rest fits);
      dispatch_word =
          u256-append (concat head) (concat parts) 96 (omega arith)
          ∙ u64_at head 3 words (omega arith) (if dispatch then 1 else 0) refl flag;
    }

behind_selector :
    (keccak256 : String → Bytes) (sig : String) (args : Bytes)
    → ((s : String) → length (keccak256 s) ≡ 32)
    → drop 4 (selector keccak256 sig ++ args) ≡ args
unfolding selector
behind_selector keccak256 sig args width =
    drop-append 4 (take 4 (keccak256 sig)) args
      (omega (arith, length-take 4 (keccak256 sig), width sig))

-- Where the hash has 32 bytes, the root, the salt and the pairs 32, the handler and the factory 20, each
-- byte string is shorter than 2 ^ 64, and those in front of the last are so together with 512 bytes
-- more, the contract reads the arguments of `setRootWithContext`, `create` and `createWithContext` behind
-- their selectors, following the offsets: the words, the tuples of the proof and of the parameters with
-- their bytes, the pairs of the proof, and the byte strings.
pub calldata-IsSetRoot-IsCreate :
    (keccak256 : String → Bytes) (root : Bytes) (proof : ProofStruct)
    (params : ConditionalOrderParams) (factory factory_data : Bytes) (pairs : List (Bytes × Bytes))
    (offchain_input : Bytes) (dispatch : Bool)
    → ((s : String) → length (keccak256 s) ≡ 32)
    → IsWord root
    → IsAddress factory
    → IsParams params
    → All IsPair pairs
    → length proof.proof_data + length params.static_input + 512 < 2 ^ 64
    → length params.static_input + 64 * length pairs + 512 < 2 ^ 64
    → length factory_data < 2 ^ 64
    → length offchain_input < 2 ^ 64
    → IsSetRoot root proof params factory factory_data
        (drop 4 (set_root_with_context_calldata keccak256 root proof params factory factory_data))
      × IsCreate params pairs offchain_input
          (drop 4 (create_calldata keccak256 params pairs offchain_input))
      × IsCreateWithContext params factory factory_data dispatch
          (drop 4 (create_with_context_calldata keccak256 params factory factory_data dispatch))
unfolding set_root_with_context_calldata create_calldata create_with_context_calldata
calldata-IsSetRoot-IsCreate keccak256 root proof params factory factory_data pairs offchain_input
      dispatch width word address typed paired small fits context_fits input_fits =
    (
      rw (behind_selector keccak256 _ _ width) (
          arguments-IsSetRoot root proof params factory factory_data word address typed small
            context_fits),
      rw (behind_selector keccak256 _ _ width)
          (arguments-IsCreate params pairs offchain_input typed paired fits input_fits),
      rw (behind_selector keccak256 _ _ width) (
          arguments-IsCreateWithContext params factory factory_data dispatch typed address
            (omega arith) context_fits),
    )
