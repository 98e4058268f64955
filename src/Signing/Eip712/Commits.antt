-- ===== src/Signing/Eip712/Commits.antt =====
-- What a signature commits to.
use cow_rs.Base.{
  ℕ, ◌≡◌, ◌⊎◌, inl, refl, ap, List, [], ◌∷◌, length, drop, get_or, All, ◌<◌, ◌^◌, arith, Bool, true,
  false, if◌then◌else◌,
}
use cow_rs.Base.Bytes.{Bytes, as_bytes, be_bytes, length-be_bytes}
use cow_rs.Base.Words.{IsWord, IsAddress}
use cow_rs.Base.Words.Collisions.{Collision, and_then, words_inj, be_bytes_inj, same_or_Collision}
use cow_rs.Types.{
  OrderKind, sell, buy, TokenBalance, erc20, external, internal, balance_as_str, UnsignedOrder,
}
use cow_rs.Signing.Eip712.{
  abi_address, abi_u32, abi_bool, kind_bytes, settlement_contract, domain_words, domain_type_hash,
  order_type_hash, domain_separator, eip712_hash, order_words, order_hash, signing_digest,
}

-- The fields have the widths of their types.
pub record IsTyped (o : UnsignedOrder) : Type 0 where
  pub sell_token : IsAddress o.sell_token
  pub buy_token : IsAddress o.buy_token
  pub receiver : IsAddress o.receiver
  pub sell_amount : o.sell_amount < 2 ^ 256
  pub buy_amount : o.buy_amount < 2 ^ 256
  pub valid_to : o.valid_to < 2 ^ 32
  pub app_data : IsWord o.app_data
  pub fee_amount : o.fee_amount < 2 ^ 256

abi_bool_inj : (a b : Bool) → abi_bool a ≡ abi_bool b → a ≡ b
unfolding be_bytes
abi_bool_inj true true e = refl
abi_bool_inj true false e = absurd (omega (arith, ap (λ (bs : Bytes). get_or bs 31 0) e))
abi_bool_inj false true e = absurd (omega (arith, ap (λ (bs : Bytes). get_or bs 31 0) e))
abi_bool_inj false false e = refl

kind_bytes_inj : (a b : OrderKind) → kind_bytes a ≡ kind_bytes b → a ≡ b
kind_bytes_inj sell sell e = refl
kind_bytes_inj sell buy e = absurd (omega (arith, ap (length {A = ℕ}) e))
kind_bytes_inj buy sell e = absurd (omega (arith, ap (length {A = ℕ}) e))
kind_bytes_inj buy buy e = refl

balance_bytes_inj :
    (a b : TokenBalance) → as_bytes (balance_as_str a) ≡ as_bytes (balance_as_str b) → a ≡ b
unfolding balance_as_str
balance_bytes_inj erc20 erc20 e = refl
balance_bytes_inj erc20 external e = absurd (omega (arith, ap (length {A = ℕ}) e))
balance_bytes_inj erc20 internal e = absurd (omega (arith, ap (length {A = ℕ}) e))
balance_bytes_inj external erc20 e = absurd (omega (arith, ap (length {A = ℕ}) e))
balance_bytes_inj external external e = refl
balance_bytes_inj external internal e = absurd (omega (arith, ap (λ (bs : Bytes). get_or bs 0 0) e))
balance_bytes_inj internal erc20 e = absurd (omega (arith, ap (length {A = ℕ}) e))
balance_bytes_inj internal external e = absurd (omega (arith, ap (λ (bs : Bytes). get_or bs 0 0) e))
balance_bytes_inj internal internal e = refl

module _ (keccak256 : Bytes → Bytes) where
  module _ (width : (bs : Bytes) → IsWord (keccak256 bs)) where
    abi_address_inj : (a b : Bytes) → abi_address a ≡ abi_address b → a ≡ b
    abi_address_inj a b e = ap (drop 12) e

    abi_address-IsWord : (a : Bytes) → IsAddress a → IsWord (abi_address a)
    abi_address-IsWord a h = omega arith

    abi_u32-IsWord : (v : ℕ) → IsWord (abi_u32 v)
    abi_u32-IsWord v = omega (arith, length-be_bytes 4 v)

    order_words-IsWord : (o : UnsignedOrder) → IsTyped o → All IsWord (order_words keccak256 o)
    unfolding order_type_hash eip712_hash
    order_words-IsWord o h = (
      width _,
      (
        abi_address-IsWord o.sell_token h.sell_token,
        (
          abi_address-IsWord o.buy_token h.buy_token,
          (
            abi_address-IsWord o.receiver h.receiver,
            (
              length-be_bytes 32 o.sell_amount,
              (
                length-be_bytes 32 o.buy_amount,
                (
                  abi_u32-IsWord o.valid_to,
                  (
                    h.app_data,
                    (
                      length-be_bytes 32 o.fee_amount,
                      (
                        width _,
                        (
                          abi_u32-IsWord (if o.partially_fillable then 1 else 0),
                          (width _, (width _, tt)),
                        ),
                      ),
                    ),
                  ),
                ),
              ),
            ),
          ),
        ),
      ),
    )

    module _ (o p : UnsignedOrder) (h : IsTyped o) (k : IsTyped p) where
      abbrev field : ℕ → UnsignedOrder → Bytes
      field i q = get_or (order_words keccak256 q) i []

      -- Equal rows of words are of equal orders, but for the fields that are hashed.
      order_words_inj :
          order_words keccak256 o ≡ order_words keccak256 p
          → o.kind ≡ p.kind
          → o.sell_token_balance ≡ p.sell_token_balance
          → o.buy_token_balance ≡ p.buy_token_balance
          → o ≡ p
      order_words_inj e kind sell_balance buy_balance =
          let at : (i : ℕ) → field i o ≡ field i p =
            λ i. ap (λ (ws : List Bytes). get_or ws i []) e in
          let f₁ : o.sell_token ≡ p.sell_token = abi_address_inj _ _ (at 1) in
          let f₂ : o.buy_token ≡ p.buy_token = abi_address_inj _ _ (at 2) in
          let f₃ : o.receiver ≡ p.receiver = abi_address_inj _ _ (at 3) in
          let f₄ : o.sell_amount ≡ p.sell_amount =
            be_bytes_inj 32 _ _ h.sell_amount k.sell_amount (at 4) in
          let f₅ : o.buy_amount ≡ p.buy_amount =
            be_bytes_inj 32 _ _ h.buy_amount k.buy_amount (at 5) in
          let f₆ : o.valid_to ≡ p.valid_to =
            be_bytes_inj 4 _ _ h.valid_to k.valid_to (ap (drop 28) (at 6)) in
          let f₇ : o.app_data ≡ p.app_data = at 7 in
          let f₈ : o.fee_amount ≡ p.fee_amount =
            be_bytes_inj 32 _ _ h.fee_amount k.fee_amount (at 8) in
          let f₉ : o.partially_fillable ≡ p.partially_fillable = abi_bool_inj _ _ (at 10) in cc

      order_hash_inj :
          order_hash keccak256 o ≡ order_hash keccak256 p → (o ≡ p) ⊎ Collision keccak256
      unfolding order_hash eip712_hash
      order_hash_inj e = and_then (same_or_Collision keccak256 _ _ e) λ joined.
          let words =
            words_inj (order_words keccak256 o) (order_words keccak256 p) (order_words-IsWord o h)
              (order_words-IsWord p k) refl joined in
          let at : (i : ℕ) → field i o ≡ field i p =
            λ i. ap (λ (ws : List Bytes). get_or ws i []) words in
          and_then (same_or_Collision keccak256 _ _ (at 9)) λ kinds.
            and_then (same_or_Collision keccak256 _ _ (at 11)) λ sells.
              and_then (same_or_Collision keccak256 _ _ (at 12)) λ buys. inl (
                order_words_inj words (kind_bytes_inj _ _ kinds) (balance_bytes_inj _ _ sells)
                  (balance_bytes_inj _ _ buys))

    abbrev name_hash : Bytes
    name_hash = keccak256 (as_bytes "Gnosis Protocol")

    abbrev version_hash : Bytes
    version_hash = keccak256 (as_bytes "v2")

    abbrev separator_words : ℕ → List Bytes
    separator_words c = domain_words keccak256 name_hash version_hash c settlement_contract

    separator_words-IsWord : (c : ℕ) → All IsWord (separator_words c)
    unfolding domain_type_hash
    separator_words-IsWord c = (width _, (width _, (width _, (length-be_bytes 32 c, (refl, tt)))))

    domain_separator_inj :
        (c d : ℕ)
        → c < 2 ^ 64
        → d < 2 ^ 64
        → domain_separator keccak256 c ≡ domain_separator keccak256 d
        → (c ≡ d) ⊎ Collision keccak256
    unfolding domain_separator
    domain_separator_inj c d h k e = and_then (same_or_Collision keccak256 _ _ e) λ joined.
        let words : separator_words c ≡ separator_words d =
          words_inj (separator_words c) (separator_words d) (separator_words-IsWord c)
            (separator_words-IsWord d) refl joined in
        inl (
          be_bytes_inj 32 c d (omega arith) (omega arith)
            (ap (λ (ws : List Bytes). get_or ws 3 []) words))

    abbrev signed : ℕ → UnsignedOrder → Bytes
    signed c o = signing_digest keccak256 (domain_separator keccak256 c) (order_hash keccak256 o)

    -- A digest to sign, of typed orders and chain identifiers below 2 ^ 64, determines the chain and
    -- the whole order, or two inputs of the hash collide.
    pub signing_digest_inj :
        (c d : ℕ) (o p : UnsignedOrder)
        → c < 2 ^ 64
        → d < 2 ^ 64
        → IsTyped o
        → IsTyped p
        → signed c o ≡ signed d p
        → ((c ≡ d) × (o ≡ p)) ⊎ Collision keccak256
    unfolding signing_digest domain_separator order_hash
    signing_digest_inj c d o p hc hd ho hp e =
        and_then (same_or_Collision keccak256 _ _ e) λ joined.
          let parts =
            words_inj (domain_separator keccak256 c ∷ order_hash keccak256 o ∷ [])
              (domain_separator keccak256 d ∷ order_hash keccak256 p ∷ []) (width _, (width _, tt))
              (width _, (width _, tt)) refl (ap (drop 2) joined) in
          and_then (domain_separator_inj c d hc hd (ap (λ (ws : List Bytes). get_or ws 0 []) parts))
            λ chains.
              and_then (order_hash_inj o p ho hp (ap (λ (ws : List Bytes). get_or ws 1 []) parts))
                λ orders. inl (chains, orders)
