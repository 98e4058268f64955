-- ===== src/Composable/Multiplexer.antt =====
-- crates/composable/src/multiplexer.rs: a set of conditional orders under one Merkle root. A panic
-- is `none`; the texts of errors leave the formatted numbers out.
pub mod Orders
pub mod Proofs
use cow_rs.Base.{
  ℕ, zero, suc, ◌+◌, Bool, not, leb, if◌then◌else◌, Option, none, some, List, [], ◌∷◌, ◌++◌, map,
  length, get_elem?, set, Result, ok, err, app_data,
}
use cow_rs.Base.Panics.{◌>>=◌}
use cow_rs.Base.Bytes.{Bytes, bytes_eq}
use cow_rs.Composable.Types.{ConditionalOrderParams, ProofLocation}
use cow_rs.Composable.Params.{order_id}
use cow_rs.Composable.Merkle.{merkle_root, generate_proof}

pub record OrderProof : Type 0 where
  pub id : Bytes
  pub proof : List Bytes
  pub params : ConditionalOrderParams

pub record ProofWithParams : Type 0 where
  pub proof : List Bytes
  pub params : ConditionalOrderParams

pub record Multiplexer : Type 0 where
  pub orders : List ConditionalOrderParams
  pub location : ProofLocation

abbrev pub new : ProofLocation → Multiplexer
new place = record { orders = []; location = place }

abbrev pub with_orders : Multiplexer → List ConditionalOrderParams → Multiplexer
with_orders m orders = record { orders = orders; location = m.location }

unfoldable pub add : Multiplexer → ConditionalOrderParams → Multiplexer
add m params = with_orders m (m.orders ++ params ∷ [])

-- `Vec::retain`, `Iterator::find`.
abbrev pub retain {ℓ} : {A : Type ℓ} → (A → Bool) → List A → List A
retain keep [] = []
retain keep (x ∷ xs) = if keep x then x ∷ retain keep xs else retain keep xs

abbrev pub find {ℓ} : {A : Type ℓ} → (A → Bool) → List A → Option A
find test [] = none
find test (x ∷ xs) = if test x then some x else find test xs

-- `(start..start + n)`.
abbrev pub range : ℕ → ℕ → List ℕ
range start zero = []
range start (suc n) = start ∷ range (suc start) n

-- `collect` of results that are computed one after the other: the first error or panic ends it.
abbrev pub cons_result {ℓ} : {A : Type ℓ} → A → Option (Result (List A)) → Option (Result (List A))
cons_result a none = none
cons_result a (some (err e)) = some (err e)
cons_result a (some (ok rest)) = some (ok (a ∷ rest))

abbrev pub collect {ℓ} : {A : Type ℓ} → List (Option (Result A)) → Option (Result (List A))
collect [] = some (ok [])
collect (none ∷ results) = none
collect (some (err e) ∷ results) = some (err e)
collect (some (ok a) ∷ results) = cons_result a (collect results)

unfoldable pub update : Multiplexer → ℕ → ConditionalOrderParams → Result Multiplexer
update m index params =
    if leb (length m.orders) index
    then err (app_data "index out of range")
    else ok (with_orders m (set m.orders index params))

unfoldable pub get_by_index : Multiplexer → ℕ → Option ConditionalOrderParams
get_by_index m index = get_elem? m.orders index

unfoldable pub len : Multiplexer → ℕ
len m = length m.orders

unfoldable pub clear : Multiplexer → Multiplexer
clear m = with_orders m []

unfoldable pub with_proof_location : Multiplexer → ProofLocation → Multiplexer
with_proof_location m place = record { orders = m.orders; location = place }

abbrev pub without_id : OrderProof → ProofWithParams
without_id p = record { proof = p.proof; params = p.params }

abbrev pub map_ok {ℓ κ} :
    {A : Type ℓ} {B : Type κ} → (A → B) → Option (Result A) → Option (Result B)
map_ok f none = none
map_ok f (some (err e)) = some (err e)
map_ok f (some (ok a)) = some (ok (f a))

-- `keccak256` is `alloy_primitives`'.
module _ (keccak256 : Bytes → Bytes) where
  unfoldable pub remove : Multiplexer → Bytes → Multiplexer
  remove m id = with_orders m (retain (λ p. not (bytes_eq (order_id keccak256 p) id)) m.orders)

  unfoldable pub get_by_id : Multiplexer → Bytes → Option ConditionalOrderParams
  get_by_id m id = find (λ p. bytes_eq (order_id keccak256 p) id) m.orders

  unfoldable pub order_ids : Multiplexer → List Bytes
  order_ids m = map (order_id keccak256) m.orders

  unfoldable pub leaf_hash : ConditionalOrderParams → Bytes
  leaf_hash params = keccak256 (order_id keccak256 params)

  unfoldable pub root_of : List ConditionalOrderParams → Option (Result (Option Bytes))
  root_of [] = some (ok none)
  root_of (p ∷ orders) = do
    hash ← merkle_root keccak256 (map leaf_hash (p ∷ orders))
    some (ok (some hash))

  abbrev pub root : Multiplexer → Option (Result (Option Bytes))
  root m = root_of m.orders

  unfoldable pub proof_of : Multiplexer → ℕ → Option (Result OrderProof)
  proof_of m index =
      if leb (length m.orders) index
      then some (err (app_data "index out of range"))
      else (get_elem? m.orders index >>= λ params.
          generate_proof keccak256 (map leaf_hash m.orders) index >>= λ proof.
          some (ok (record { id = order_id keccak256 params; proof = proof; params = params })))

  unfoldable pub dump_proofs_and_params : Multiplexer → Option (Result (List ProofWithParams))
  dump_proofs_and_params m =
      collect (map (λ i. map_ok without_id (proof_of m i)) (range 0 (length m.orders)))
