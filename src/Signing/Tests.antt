-- ===== src/Signing/Tests.antt =====
-- Digests, signatures, identifiers and calldata of concrete orders.
use cow_rs.Base.{
  ℕ, String, ◌≡◌, ◌⊎◌, refl, false, List, [], ◌∷◌, length, replicate, All-replicate, Result, ok,
  arith,
}
use cow_rs.Base.Bytes.{Bytes, be_bytes, length-be_bytes}
use cow_rs.Base.Hex.{IsByte, Text}
use cow_rs.Base.Hex.Digits.{lower_hex}
use cow_rs.Types.{sell, buy, erc20, internal, UnsignedOrder}
use cow_rs.Signing.Eip712.{signing_digest, domain_separator, order_hash}
use cow_rs.Signing.Eip712.Commits.{IsTyped, signing_digest_inj}
use cow_rs.Base.Words.Collisions.{Collision}
use cow_rs.Signing.Uid.{
  OrderUidParams, pack_order_uid_params, extract_order_uid_params, extract_order_uid-pack_order_uid,
}

-- A hash of 32 bytes, of which two inputs of one length collide.
abbrev hash : Bytes → Bytes
hash bs = be_bytes 32 (length bs)

abbrev sale : UnsignedOrder
sale = record {
  sell_token = replicate 20 1;
  buy_token = replicate 20 2;
  receiver = replicate 20 3;
  sell_amount = 1_000;
  buy_amount = 900;
  valid_to = 1_000_000;
  app_data = replicate 32 4;
  fee_amount = 0;
  kind = sell;
  partially_fillable = false;
  sell_token_balance = erc20;
  buy_token_balance = internal;
}

abbrev purchase : UnsignedOrder
purchase = record sale { kind = buy; valid_to = 2_000_000 }

sale-IsTyped : IsTyped sale
sale-IsTyped = record {
  sell_token = refl;
  buy_token = refl;
  receiver = refl;
  sell_amount = omega arith;
  buy_amount = omega arith;
  valid_to = omega arith;
  app_data = refl;
  fee_amount = omega arith;
}

purchase-IsTyped : IsTyped purchase
purchase-IsTyped = record {
  sell_token = refl;
  buy_token = refl;
  receiver = refl;
  sell_amount = omega arith;
  buy_amount = omega arith;
  valid_to = omega arith;
  app_data = refl;
  fee_amount = omega arith;
}

abbrev mainnet : ℕ
mainnet = 1

abbrev gnosis : ℕ
gnosis = 100

-- A sale for one chain and a purchase for another: the two have one digest here.
signing_digest_inj_example : ((mainnet ≡ gnosis) × (sale ≡ purchase)) ⊎ Collision hash
unfolding signing_digest domain_separator order_hash be_bytes
signing_digest_inj_example =
    signing_digest_inj hash (λ bs. length-be_bytes 32 (length bs)) mainnet gnosis sale purchase
      (omega arith) (omega arith) sale-IsTyped purchase-IsTyped refl

abbrev identity : OrderUidParams
identity = record { order_digest = replicate 32 17; owner = replicate 20 34; valid_to = 1_000_000 }

extract_order_uid-pack_order_uid_example :
    extract_order_uid_params lower_hex
      (pack_order_uid_params lower_hex (replicate 32 17) (replicate 20 34) 1_000_000)
    ≡ ok identity
extract_order_uid-pack_order_uid_example =
    extract_order_uid-pack_order_uid identity refl refl (omega arith) lower_hex
      (All-replicate IsByte 32 17 (omega arith)) (All-replicate IsByte 20 34 (omega arith))

-- The signature of a key that answers with the digest itself.
abbrev sign : Bytes → Result Bytes
sign digest = ok digest

abbrev order_uids : List Text
order_uids = (b'a' ∷ b'b' ∷ []) ∷ []

abbrev named_hash : String → Bytes
named_hash s = replicate 32 9
