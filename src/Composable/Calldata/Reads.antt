-- ===== src/Composable/Calldata/Reads.antt =====
-- The reader of the contract: tuples, byte strings and pairs of words at the start of a buffer.
use mathlib.Core.List.{append_assoc, append-nil}
use cow_rs.Base.{
  ℕ, zero, suc, ◌+◌, ◌*◌, ◌^◌, ◌<◌, ◌≤◌, ◌≡◌, refl, sym, ap, ◌∙◌, List, [], ◌∷◌, ◌++◌, length,
  concat, take, drop, All, get_or, map, arith, length-append, drop-append, take-append,
}
use cow_rs.Base.Bytes.{Bytes}
use cow_rs.Base.Words.{IsWord, u256_be, pad_into, pad32_len, addr, b256, u256}
use cow_rs.Base.Words.Rows.{u256_be-IsWord, length-concat, take-pad_into, length-pad_into}
use cow_rs.Base.Words.Read.{u64_at, b256_at, addr_at, u256-append, b256-append, addr-append}
use cow_rs.Composable.Types.{
  ConditionalOrderParams, ProofLocation, location_to_u8, private, emitted, swarm, waku, reserved,
  ipfs,
}
use cow_rs.Composable.Params.{head_words, params_bytes}
use cow_rs.Composable.Params.RoundTrip.{IsParams, head_words-IsWord}
use cow_rs.Composable.Calldata.{
  ProofStruct, bytes_enc, encode_proof_struct, pairs_enc, tuple_size, proof_size,
}

-- A word with the length at the offset, and the bytes behind it.
abbrev pub HasBytes : Bytes → ℕ → Bytes → Type 0
HasBytes bytes off buf =
    (u256 buf off ≡ length bytes) × (take (length bytes) (drop (off + 32) buf) ≡ bytes)

-- The tuple of parameters: two words, and the input at the offset that the third holds.
pub record IsParamsTuple (p : ConditionalOrderParams) (buf : Bytes) : Type 0 where
  pub handler : addr buf 0 ≡ p.handler
  pub salt : b256 buf 32 ≡ p.salt
  pub static_input : HasBytes p.static_input (u256 buf 64) buf

-- The tuple of a proof: the location, and the bytes at the offset that the second word holds.
pub record IsProofTuple (proof : ProofStruct) (buf : Bytes) : Type 0 where
  pub location : u256 buf 0 ≡ location_to_u8 proof.location
  pub proof_data : HasBytes proof.proof_data (u256 buf 32) buf

-- Pairs of words that follow one another.
abbrev pub read_pairs : ℕ → Bytes → List (Bytes × Bytes)
read_pairs zero buf = []
read_pairs (suc n) buf = (take 32 buf, take 32 (drop 32 buf)) ∷ read_pairs n (drop 64 buf)

-- An array of pairs of words, behind their count.
pub record IsPairs (pairs : List (Bytes × Bytes)) (buf : Bytes) : Type 0 where
  pub count : u256 buf 0 ≡ length pairs
  pub elements : read_pairs (length pairs) (drop 32 buf) ≡ pairs

abbrev pub IsPair : Bytes × Bytes → Type 0
IsPair pair = IsWord pair.0 × IsWord pair.1

module _ (ws : List Bytes) (words : All IsWord ws) (bytes rest : Bytes) (i : ℕ)
    (last : length ws ≡ suc i) (here : get_or ws i [] ≡ u256_be (length bytes))
    (fits : length bytes < 2 ^ 64) where
  -- Behind a row of words, the last of which holds the length.
  row-HasBytes : HasBytes bytes (32 * i) (concat ws ++ (pad_into bytes ++ rest))
  row-HasBytes =
      let size = length-concat ws words in
      (
        u256-append (concat ws) (pad_into bytes ++ rest) (32 * i) (omega arith)
            ∙ u64_at ws i words (omega arith) (length bytes) here fits,
        rw (drop-append (32 * i + 32) (concat ws) (pad_into bytes ++ rest) (omega arith))
            (take-pad_into bytes rest),
      )

pub bytes_enc-HasBytes :
    (bytes rest : Bytes) → length bytes < 2 ^ 64 → HasBytes bytes 0 (bytes_enc bytes ++ rest)
bytes_enc-HasBytes bytes rest fits =
    let whole : bytes_enc bytes ++ rest
        ≡ concat (u256_be (length bytes) ∷ []) ++ (pad_into bytes ++ rest) =
      simp (append_assoc, append-nil) in
    rw whole (
      row-HasBytes (u256_be (length bytes) ∷ []) (u256_be-IsWord _, tt) bytes rest 0 refl refl fits)

pub params_bytes-IsParamsTuple :
    (p : ConditionalOrderParams) (rest : Bytes)
    → IsParams p
    → IsParamsTuple p (params_bytes p ++ rest)
unfolding params_bytes
params_bytes-IsParamsTuple p rest h =
    let ws = head_words p in
    let words = head_words-IsWord p h in
    let size = length-concat ws words in
    let more = pad_into p.static_input ++ rest in
    let offset : u256 (concat ws ++ more) 64 ≡ 96 =
      u256-append (concat ws) more 64 (omega arith)
      ∙ u64_at ws 2 words (omega arith) 96 refl (omega arith) in
    rw (append_assoc (concat ws) (pad_into p.static_input) rest) (record {
      handler =
          addr-append (concat ws) more 0 (omega arith)
          ∙ addr_at ws 0 words (omega arith) p.handler refl h.handler_width;
      salt =
          b256-append (concat ws) more 32 (omega arith)
          ∙ b256_at ws 1 words (omega arith) p.salt refl;
      static_input =
          rw offset
            (row-HasBytes ws words p.static_input rest 3 refl refl (omega (arith, h.input_fits)));
    })

location_lt : (location : ProofLocation) → location_to_u8 location < 2 ^ 64
unfolding location_to_u8
location_lt private = omega arith
location_lt emitted = omega arith
location_lt swarm = omega arith
location_lt waku = omega arith
location_lt reserved = omega arith
location_lt ipfs = omega arith

abbrev proof_words : ProofStruct → List Bytes
proof_words proof =
    u256_be (location_to_u8 proof.location) ∷ u256_be 64 ∷ u256_be (length proof.proof_data) ∷ []

pub encode_proof_struct-IsProofTuple :
    (proof : ProofStruct) (rest : Bytes)
    → length proof.proof_data < 2 ^ 64
    → IsProofTuple proof (encode_proof_struct proof ++ rest)
unfolding encode_proof_struct
encode_proof_struct-IsProofTuple proof rest fits =
    let ws : List Bytes = proof_words proof in
    let words : All IsWord ws = (u256_be-IsWord _, (u256_be-IsWord _, (u256_be-IsWord _, tt))) in
    let size = length-concat ws words in
    let more = pad_into proof.proof_data ++ rest in
    let whole : encode_proof_struct proof ++ rest ≡ concat ws ++ more =
      simp (append_assoc, append-nil) in
    let offset : u256 (concat ws ++ more) 32 ≡ 64 =
      u256-append (concat ws) more 32 (omega arith)
      ∙ u64_at ws 1 words (omega arith) 64 refl (omega arith) in
    rw whole (record {
      location =
          u256-append (concat ws) more 0 (omega arith)
          ∙ u64_at ws 0 words (omega arith) (location_to_u8 proof.location) refl
              (location_lt proof.location);
      proof_data = rw offset (row-HasBytes ws words proof.proof_data rest 2 refl refl fits);
    })

abbrev joined : List (Bytes × Bytes) → Bytes
joined pairs = concat (map (λ (pair : Bytes × Bytes). pair.0 ++ pair.1) pairs)

read_pairs-joined :
    (pairs : List (Bytes × Bytes)) (rest : Bytes)
    → All IsPair pairs
    → read_pairs (length pairs) (joined pairs ++ rest) ≡ pairs
read_pairs-joined [] rest h = refl
read_pairs-joined (pair ∷ pairs) rest ((ha, hb), h) =
    let more : Bytes = joined pairs ++ rest in
    let whole : joined (pair ∷ pairs) ++ rest ≡ pair.0 ++ (pair.1 ++ more) = simp append_assoc in
    let behind : drop 64 (joined (pair ∷ pairs) ++ rest) ≡ more =
      ap (drop 64) (append_assoc (pair.0 ++ pair.1) (joined pairs) rest)
      ∙ drop-append 64 (pair.0 ++ pair.1) more (omega (arith, length-append pair.0 pair.1)) in
    rw behind (
      rw
        (
          whole,
          take-append 32 pair.0 (pair.1 ++ more) ha,
          drop-append 32 pair.0 (pair.1 ++ more) ha,
          take-append 32 pair.1 more hb,
          read_pairs-joined pairs rest h,
        )
        refl)

pub pairs_enc-IsPairs :
    (pairs : List (Bytes × Bytes)) (rest : Bytes)
    → All IsPair pairs
    → length pairs < 2 ^ 64
    → IsPairs pairs (pairs_enc pairs ++ rest)
pairs_enc-IsPairs pairs rest h fits =
    let word : Bytes = u256_be (length pairs) in
    let width : IsWord word = u256_be-IsWord (length pairs) in
    record {
      count =
          ap (λ (buf : Bytes). u256 buf 0) (append_assoc word (joined pairs) rest)
          ∙ u256-append word (joined pairs ++ rest) 0 (omega arith)
          ∙ ap (λ (buf : Bytes). u256 buf 0) (sym (append-nil word))
          ∙ u64_at (word ∷ []) 0 (width, tt) (omega arith) (length pairs) refl fits;
      elements =
          ap (λ (buf : Bytes). read_pairs (length pairs) (drop 32 buf))
            (append_assoc word (joined pairs) rest)
          ∙ ap (read_pairs (length pairs)) (drop-append 32 word (joined pairs ++ rest) width)
          ∙ read_pairs-joined pairs rest h;
    }

-- The sizes that the offsets are computed from are those of the parts.
pub length-params_bytes :
    (p : ConditionalOrderParams) → IsParams p → length (params_bytes p) ≡ tuple_size p
unfolding params_bytes tuple_size
length-params_bytes p h = omega (
  arith,
  length-concat (head_words p) (head_words-IsWord p h),
  length-append (concat (head_words p)) (pad_into p.static_input),
  length-pad_into p.static_input,
)

length-joined :
    (pairs : List (Bytes × Bytes)) → All IsPair pairs → length (joined pairs) ≡ length pairs * 64
length-joined [] h = refl
length-joined (pair ∷ pairs) ((ha, hb), h) = omega (
  arith,
  length-append (pair.0 ++ pair.1) (joined pairs),
  length-append pair.0 pair.1,
  length-joined pairs h,
)

pub length-pairs_enc :
    (pairs : List (Bytes × Bytes)) → All IsPair pairs → length (pairs_enc pairs) ≡ proof_size pairs
unfolding proof_size
length-pairs_enc pairs h = omega (
  arith,
  length-append (u256_be (length pairs)) (joined pairs),
  u256_be-IsWord (length pairs),
  length-joined pairs h,
)

pad32_len-bound : (n : ℕ) → pad32_len n ≤ n + 31
unfolding pad32_len
pad32_len-bound n = ground arith

pub length-encode_proof_struct :
    (proof : ProofStruct) → length (encode_proof_struct proof) ≤ length proof.proof_data + 127
unfolding encode_proof_struct
length-encode_proof_struct proof =
    let head : List Bytes = u256_be (location_to_u8 proof.location) ∷ u256_be 64 ∷ [] in
    let words : All IsWord head = (u256_be-IsWord _, (u256_be-IsWord _, tt)) in
    omega (
      arith,
      length-append (concat head) (bytes_enc proof.proof_data),
      length-concat head words,
      length-append (u256_be (length proof.proof_data)) (pad_into proof.proof_data),
      u256_be-IsWord (length proof.proof_data),
      length-pad_into proof.proof_data,
      pad32_len-bound (length proof.proof_data),
    )

pub tuple_size-bound : (p : ConditionalOrderParams) → tuple_size p ≤ length p.static_input + 159
unfolding tuple_size
tuple_size-bound p = omega (arith, pad32_len-bound (length p.static_input))
