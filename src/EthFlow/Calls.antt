-- ===== src/EthFlow/Calls.antt =====
-- What the contract of native orders reads from a call.
use cow_rs.Base.{
  ℕ, ◌+◌, ◌*◌, ◌^◌, ◌-◌, ◌/◌, ◌%◌, if◌then◌else◌, zero, suc, ◌<◌, ◌≡◌, refl, ◌∙◌, String, Bool,
  true, false, List, [], ◌∷◌, ◌++◌, length, concat, take, drop, replicate, All, arith, length-take,
  drop-append, ap, sym,
}
use mathlib.Core.List.{append_assoc, append-nil}
use native.Mathlib.Nat.{pow-suc, mul_assoc}
use cow_rs.Base.Bytes.{Bytes, be_bytes, from_be, length-be_bytes, from_be-append}
use cow_rs.Base.Words.{
  IsWord, IsAddress, pad_address, u256_bytes, u256_be, bool_word, addr, u256, b256, bool_v,
}
use cow_rs.Base.Words.Read.{addr_at, u256_at, b256_at, bool_at, u64_at}
use cow_rs.Settlement.Encoder.{selector}
use cow_rs.Signing.Eip712.{abi_bool, abi_u32}
use cow_rs.EthFlow.{
  ℤ, pos, negsuc, EthFlowOrderData, abi_i64, order_words, encode_eth_flow_create_order,
  build_eth_flow_transaction,
}

-- An `int64` as a word of 256 bits in two's complement.
abbrev pub IsInt64Word : ℤ → ℕ → Type 0
IsInt64Word (pos n) word = word ≡ n
IsInt64Word (negsuc n) word = word + n + 1 ≡ 2 ^ 256

abbrev pub IsInt64 : ℤ → Type 0
IsInt64 (pos n) = n < 2 ^ 63
IsInt64 (negsuc n) = n < 2 ^ 63

-- The fields have the widths of their types.
pub record IsTyped (order : EthFlowOrderData) : Type 0 where
  pub buy_token : IsAddress order.buy_token
  pub receiver : IsAddress order.receiver
  pub sell_amount : order.sell_amount < 2 ^ 256
  pub buy_amount : order.buy_amount < 2 ^ 256
  pub app_data : IsWord order.app_data
  pub fee_amount : order.fee_amount < 2 ^ 256
  pub valid_to : order.valid_to < 2 ^ 32
  pub quote_id : IsInt64 order.quote_id

-- The arguments of `createOrder` are the fields of the order.
pub record IsCreateOrder (order : EthFlowOrderData) (args : Bytes) : Type 0 where
  pub buy_token : addr args 0 ≡ order.buy_token
  pub receiver : addr args 32 ≡ order.receiver
  pub sell_amount : u256 args 64 ≡ order.sell_amount
  pub buy_amount : u256 args 96 ≡ order.buy_amount
  pub app_data : b256 args 128 ≡ order.app_data
  pub fee_amount : u256 args 160 ≡ order.fee_amount
  pub valid_to : u256 args 192 ≡ order.valid_to
  pub partially_fillable : bool_v args 224 ≡ order.partially_fillable
  pub quote_id : IsInt64Word order.quote_id (u256 args 256)

u32_word : (v : ℕ) → v < 2 ^ 32 → abi_u32 v ≡ u256_be v
unfolding u256_be be_bytes
u32_word v h = let b₃ : v / 256 / 256 / 256 / 256 ≡ 0 = omega (arith, h) in rw b₃ refl

flag_word : (b : Bool) → abi_bool b ≡ bool_word b
unfolding bool_word be_bytes
flag_word true = refl
flag_word false = refl

abi_i64-IsWord : (v : ℤ) → IsWord (abi_i64 v)
unfolding abi_i64
abi_i64-IsWord (pos n) = omega (arith, length-be_bytes 8 n)
abi_i64-IsWord (negsuc n) = omega (arith, length-be_bytes 8 (2 ^ 64 - 1 - n))

-- Bytes in front of a number count by its power.
from_be-front :
    (xs : Bytes) (k v : ℕ) → v < 256 ^ k → from_be (xs ++ be_bytes k v) ≡ from_be xs * 256 ^ k + v
unfolding be_bytes
from_be-front xs zero v h = rw (append-nil xs) (omega (arith, h))
from_be-front xs (suc k) v h =
    let power = pow-suc 256 k in
    let rest = from_be-front xs k (v / 256) (omega (arith, h, power)) in
    let last = from_be-append (xs ++ be_bytes k (v / 256)) (v % 256) in
    let whole : from_be (xs ++ be_bytes (suc k) v) ≡ from_be xs * 256 ^ k * 256 + v =
      rw (← append_assoc xs (be_bytes k (v / 256)) (v % 256 ∷ [])) (omega (arith, last, rest)) in
    whole
    ∙ ap (λ (m : ℕ). m + v)
        (mul_assoc (from_be xs) (256 ^ k) 256 ∙ ap (λ (m : ℕ). from_be xs * m) (sym power))

abi_i64-IsInt64Word : (v : ℤ) → IsInt64 v → IsInt64Word v (from_be (abi_i64 v))
unfolding abi_i64 from_be
abi_i64-IsInt64Word (pos n) h = omega (arith, from_be-front (replicate 24 0) 8 n (omega (arith, h)))
abi_i64-IsInt64Word (negsuc n) h =
    omega (arith, from_be-front (replicate 24 255) 8 (2 ^ 64 - 1 - n) (omega arith), h)

module _ (order : EthFlowOrderData) (h : IsTyped order) where
  abbrev words : List Bytes
  words = order_words order

  words-IsWord : All IsWord words
  words-IsWord = (
    omega (arith, h.buy_token),
    (
      omega (arith, h.receiver),
      (
        length-be_bytes 32 order.sell_amount,
        (
          length-be_bytes 32 order.buy_amount,
          (
            h.app_data,
            (
              length-be_bytes 32 order.fee_amount,
              (
                omega (arith, length-be_bytes 4 order.valid_to),
                (
                  omega (arith, length-be_bytes 4 (if order.partially_fillable then 1 else 0)),
                  (abi_i64-IsWord order.quote_id, tt),
                ),
              ),
            ),
          ),
        ),
      ),
    ),
  )

  int_word : u256 (concat words) 256 ≡ from_be (abi_i64 order.quote_id)
  unfolding u256 b256
  int_word = ap from_be (b256_at words 8 words-IsWord (omega arith) _ refl)

  words-IsCreateOrder : IsCreateOrder order (concat words)
  unfolding pad_address u256_bytes
  words-IsCreateOrder = record {
    buy_token = addr_at words 0 words-IsWord (omega arith) _ refl h.buy_token;
    receiver = addr_at words 1 words-IsWord (omega arith) _ refl h.receiver;
    sell_amount = u256_at words 2 words-IsWord (omega arith) _ refl h.sell_amount;
    buy_amount = u256_at words 3 words-IsWord (omega arith) _ refl h.buy_amount;
    app_data = b256_at words 4 words-IsWord (omega arith) _ refl;
    fee_amount = u256_at words 5 words-IsWord (omega arith) _ refl h.fee_amount;
    valid_to =
        u64_at words 6 words-IsWord (omega arith) _ (u32_word order.valid_to h.valid_to)
          (omega (arith, h.valid_to));
    partially_fillable =
        bool_at words 7 words-IsWord (omega arith) _ (flag_word order.partially_fillable);
    quote_id = rw int_word (abi_i64-IsInt64Word order.quote_id h.quote_id);
  }

-- Where the hash has 32 bytes and the fields have their widths, the transaction calls the contract
-- with the sold amount as its value, and the fields of the order as its arguments, the identifier of
-- the quote in two's complement.
pub build_eth_flow_transaction-IsCreateOrder :
    (keccak256 : String → Bytes) (contract : Bytes) (order : EthFlowOrderData)
    → ((s : String) → length (keccak256 s) ≡ 32)
    → IsTyped order
    → ((build_eth_flow_transaction keccak256 contract order).to ≡ contract)
      × ((build_eth_flow_transaction keccak256 contract order).value ≡ order.sell_amount)
      × IsCreateOrder order (drop 4 (build_eth_flow_transaction keccak256 contract order).call_data)
unfolding build_eth_flow_transaction encode_eth_flow_create_order selector
build_eth_flow_transaction-IsCreateOrder keccak256 contract order width h =
    let create : String =
      "createOrder((address,address,uint256,uint256,bytes32,uint256,uint32,bool,int64))" in
    let arguments : drop 4 (take 4 (keccak256 create) ++ concat (order_words order))
        ≡ concat (order_words order) =
      drop-append 4 (take 4 (keccak256 create)) (concat (order_words order))
        (omega (arith, length-take 4 (keccak256 create), width create)) in
    (refl, refl, rw arguments (words-IsCreateOrder order h))
