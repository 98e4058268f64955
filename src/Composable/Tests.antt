-- ===== src/Composable/Tests.antt =====
-- Conditional orders and their multiplexer at concrete values.
use cow_rs.Base.{
  ℕ, String, drop, ◌<◌, ◌≡◌, ◌⊎◌, refl, true, false, if◌then◌else◌, none, some, List, [], ◌∷◌, map,
  length, replicate, All, All-replicate, ok, arith,
}
use cow_rs.Base.Bytes.{Bytes, be_bytes, bytes_eq}
use cow_rs.Base.Hex.{IsByte}
use cow_rs.Base.Hex.Digits.{lower_hex}
use cow_rs.Composable.Types.{ConditionalOrderParams, GpV2OrderStruct, emitted}
use cow_rs.Composable.Gat
use cow_rs.Composable.Gat.Codec.{IsOrderStruct}
use cow_rs.Composable.StopLoss
use cow_rs.Base.{◌↔◌, ◌+◌, ◌^◌, ◌++◌}
use cow_rs.Base.Words.{u256}
use cow_rs.Base.Bytes.{from_be}
use cow_rs.Composable.Utils.{transform_data_to_struct}
use cow_rs.Composable.Utils.Raw.{transform_data_to_struct-eq-none_iff}
use cow_rs.Composable.Params.{encode_params, decode_params}
use cow_rs.Composable.Params.RoundTrip.{IsParams, decode_params-encode_params}
use cow_rs.Composable.Calldata.{
  ProofStruct, set_root_with_context_calldata, create_calldata, create_with_context_calldata,
}
use cow_rs.Composable.Calldata.Parts.{
  IsSetRoot, IsCreate, IsCreateWithContext, calldata-IsSetRoot-IsCreate,
}
use cow_rs.Composable.Merkle.{merkle_root, generate_proof}
use cow_rs.Composable.Merkle.Proofs.{process_proof, process_proof-generate_proof}
use cow_rs.Composable.Multiplexer.{
  ProofWithParams, Multiplexer, remove, get_by_id, dump_proofs_and_params,
}
use cow_rs.Composable.Multiplexer.Orders.{get_by_id-remove}
use cow_rs.Composable.Multiplexer.Proofs.{IsProven, dump_proofs_and_params-IsProven}

-- A hash of 32 bytes.
abbrev hash : Bytes → Bytes
hash bs = be_bytes 32 (length bs)

abbrev weth : Bytes
weth = replicate 20 1

abbrev dai : Bytes
dai = replicate 20 2

abbrev leaves : List Bytes
leaves = replicate 32 1 ∷ replicate 32 2 ∷ replicate 32 3 ∷ []

process_proof-generate_proof_example :
    (root : Bytes) × (proof : List Bytes) × (merkle_root hash leaves ≡ some root)
    × (generate_proof hash leaves 2 ≡ some proof)
    × (process_proof hash (replicate 32 3) proof ≡ root)
process_proof-generate_proof_example =
    process_proof-generate_proof hash leaves 2 (replicate 32 3) refl

abbrev params : ℕ → ConditionalOrderParams
params n = record { handler = weth; salt = replicate 32 n; static_input = n ∷ n ∷ n ∷ [] }

decode_params-encode_params_example :
    decode_params lower_hex (encode_params lower_hex (params 7)) ≡ ok (params 7)
decode_params-encode_params_example =
    decode_params-encode_params (params 7)
      (record { handler_width = refl; salt_width = refl; input_fits = omega arith }) lower_hex
      (All-replicate IsByte 20 1 (omega arith)) (All-replicate IsByte 32 7 (omega arith))
      (All-replicate IsByte 3 7 (omega arith))

params-IsParams : IsParams (params 7)
params-IsParams = record { handler_width = refl; salt_width = refl; input_fits = omega arith }

-- An offset of 160 in data of 128 bytes.
abbrev cut_short : Bytes
cut_short = replicate 95 0 ++ 160 ∷ replicate 32 0

transform_data_to_struct_panics_example : (transform_data_to_struct cut_short ≡ none) ↔ (
    (length cut_short < u256 cut_short 64 + 32)
    ⊎ ((u256 cut_short (u256 cut_short 64) < 2 ^ 64)
        × (length cut_short < u256 cut_short 64 + 32 + u256 cut_short (u256 cut_short 64))))
unfolding u256 from_be
transform_data_to_struct_panics_example =
    transform_data_to_struct-eq-none_iff cut_short (omega arith) (omega arith)

abbrev mux : Multiplexer
mux = record { orders = params 1 ∷ params 2 ∷ params 3 ∷ []; location = emitted }

dump_proofs_and_params-IsProven_example :
    (entries : List ProofWithParams) × (dump_proofs_and_params hash mux ≡ some (ok entries))
    × (map (λ (e : ProofWithParams). e.params) entries ≡ mux.orders)
    × All (IsProven hash mux) entries
dump_proofs_and_params-IsProven_example = dump_proofs_and_params-IsProven hash mux

get_by_id-remove_example :
    get_by_id hash (remove hash mux weth) dai
    ≡ (if bytes_eq weth dai then none else get_by_id hash mux dai)
get_by_id-remove_example = get_by_id-remove hash mux weth dai

abbrev gpv2_order : GpV2OrderStruct
gpv2_order = record {
  sell_token = weth;
  buy_token = dai;
  receiver = replicate 20 0;
  sell_amount = 500;
  buy_amount = 400;
  valid_to = 1_234_567;
  app_data = replicate 32 0;
  fee_amount = 0;
  kind = replicate 32 4;
  partially_fillable = true;
  sell_token_balance = replicate 32 5;
  buy_token_balance = replicate 32 6;
}

gpv2_order-IsOrderStruct : IsOrderStruct gpv2_order
gpv2_order-IsOrderStruct = record {
  sell_token_width = refl;
  buy_token_width = refl;
  receiver_width = refl;
  sell_amount_fits = omega arith;
  buy_amount_fits = omega arith;
  valid_to_fits = omega arith;
  app_data_width = refl;
  fee_amount_fits = omega arith;
  kind_width = refl;
  sell_token_balance_width = refl;
  buy_token_balance_width = refl;
}

abbrev gat : Gat.GatOrder
gat = record {
  terms = record { order = gpv2_order; start_time = 1_000_000; tx_deadline = 2_000_000 };
  salt = replicate 32 8;
}

abbrev stop_loss : StopLoss.StopLossOrder
stop_loss = record {
  terms = record {
    sell_token = weth;
    buy_token = dai;
    sell_amount = 1_000;
    buy_amount = 900;
    app_data = replicate 32 0;
    receiver = replicate 20 0;
    is_sell_order = true;
    is_partially_fillable = false;
    valid_to = 9_999_999;
    strike_price = 1_000_000_000_000_000_000;
    sell_token_price_oracle = replicate 20 3;
    buy_token_price_oracle = replicate 20 4;
    token_amount_in_eth = false;
  };
  salt = replicate 32 8;
}

-- A hash of texts of 32 bytes.
abbrev text_hash : String → Bytes
text_hash _ = replicate 32 9

abbrev emitted_proof : ProofStruct
emitted_proof = record { location = emitted; proof_data = 8 ∷ [] }

abbrev proof_pairs : List (Bytes × Bytes)
proof_pairs = (replicate 32 1, replicate 32 2) ∷ []

calldata-IsSetRoot-IsCreate_example :
    IsSetRoot (replicate 32 5) emitted_proof (params 7) weth (4 ∷ []) (
      drop 4 (
        set_root_with_context_calldata text_hash
          (replicate 32 5)
          emitted_proof
          (params 7)
          weth
          (4 ∷ [])))
    × IsCreate
        (params 7)
        proof_pairs
        []
        (drop 4 (create_calldata text_hash (params 7) proof_pairs []))
    × IsCreateWithContext
        (params 7)
        weth
        (4 ∷ [])
        true
        (drop 4 (create_with_context_calldata text_hash (params 7) weth (4 ∷ []) true))
calldata-IsSetRoot-IsCreate_example =
    calldata-IsSetRoot-IsCreate text_hash (replicate 32 5) emitted_proof (params 7) weth (4 ∷ [])
      proof_pairs [] true (λ _. refl) refl refl params-IsParams ((refl, refl), tt) (omega arith)
      (omega arith) (omega arith) (omega arith)
