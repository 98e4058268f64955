-- ===== src/Settlement/Encoder/Layout.antt =====
-- The calldata of a settlement, read by following its offsets.
use mathlib.Core.List.{append-nil}
use cow_rs.Base.{
  ℕ, String, zero, suc, ◌*◌, ◌^◌, ◌≤◌, ◌<◌, ◌≡◌, refl, ap, ◌∙◌, some, List, [], ◌∷◌, ◌++◌, map,
  length, drop, concat, All, get_elem?, get_elem?-map, some_inj, arith, length-append, length-take,
  length-map, drop-append,
}
use cow_rs.Base.Bytes.{Bytes}
use cow_rs.Base.Words.{IsAddress, u256}
use cow_rs.Base.Words.Layout.{IsAt, offsets, tuple_of, part_at, tuple_of-IsAt}
use cow_rs.Base.Words.Arrays.{element_at, dynamic_array-IsAt}
use cow_rs.Types.Trade.{EncodedTrade}
use cow_rs.Settlement.Abi.{
  EncodedInteraction, abi_encode_address_array, abi_encode_u256_array, abi_encode_trade,
  abi_encode_trades, abi_encode_interaction, abi_encode_interaction_array,
}
use cow_rs.Settlement.Abi.Trades.{trade_at, IsTradeData, trade_at-abi_encode_trade}
use cow_rs.Base.{ap}
use cow_rs.Settlement.Abi.Readers.{addresses_at, addresses_at-array, u256s_at, u256s_at-array}
use cow_rs.Settlement.Encoder.{
  SettlementEncoder, Interactions, InteractionStage, pre, intra, post, stage_of, stage_to_usize,
  abi_encode_interactions, selector, settle_signature, encode_settlement,
}

-- The position of a parameter of a call, which its selector precedes.
abbrev pub param_at : Bytes → ℕ → ℕ
param_at buf k = part_at buf 4 k

sections : SettlementEncoder → List Bytes
sections e =
    abi_encode_address_array e.tokens.tokens
    ∷ abi_encode_u256_array e.clearing_prices
    ∷ abi_encode_trades e.trades
    ∷ abi_encode_interactions e.interactions
    ∷ []

stages : Interactions → List Bytes
stages x =
    abi_encode_interaction_array x.before
    ∷ abi_encode_interaction_array x.between
    ∷ abi_encode_interaction_array x.after
    ∷ []

stage_found :
    (x : Interactions) (stage : InteractionStage)
    → get_elem? (stages x) (stage_to_usize stage)
      ≡ some (abi_encode_interaction_array (stage_of x stage))
unfolding stages
stage_found x pre = refl
stage_found x intra = refl
stage_found x post = refl

length-concat_ge :
    (parts : List Bytes) (k : ℕ) {part : Bytes}
    → get_elem? parts k ≡ some part
    → length part ≤ length (concat parts)
length-concat_ge [] k h = cc
length-concat_ge (p ∷ parts) zero h =
    let same : length p ≡ length _ = ap length (some_inj h) in
    omega (arith, length-append p (concat parts))
length-concat_ge (p ∷ parts) (suc k) h =
    omega (arith, length-append p (concat parts), length-concat_ge parts k h)

encode_settlement_lem :
    (keccak256 : String → Bytes) (e : SettlementEncoder)
    → encode_settlement keccak256 e ≡ selector keccak256 settle_signature ++ tuple_of (sections e)
unfolding encode_settlement sections
encode_settlement_lem keccak256 e = refl

abi_encode_interactions_lem : (x : Interactions) → abi_encode_interactions x ≡ tuple_of (stages x)
unfolding abi_encode_interactions stages
abi_encode_interactions_lem x = refl

-- What the hash and the encoder have to satisfy: the hash has 32 bytes, tokens and prices have their
-- widths, and the calldata has less than 2 ^ 256 bytes.
pub record IsEncodable (keccak256 : String → Bytes) (e : SettlementEncoder) : Type 0 where
  pub hash_width : (s : String) → length (keccak256 s) ≡ 32
  pub token_widths : All IsAddress e.tokens.tokens
  pub prices_fit : All (λ v. v < 2 ^ 256) e.clearing_prices
  pub size_fits : length (encode_settlement keccak256 e) < 2 ^ 256

module _ (keccak256 : String → Bytes) (e : SettlementEncoder) (h : IsEncodable keccak256 e) where
  abbrev calldata : Bytes
  calldata = encode_settlement keccak256 e

  selector_width : length (selector keccak256 settle_signature) ≡ 4
  unfolding selector
  selector_width =
      omega (arith, length-take 4 (keccak256 settle_signature), h.hash_width settle_signature)

  tuple_size : length (tuple_of (sections e)) < 2 ^ 256
  tuple_size =
      let fits : length (selector keccak256 settle_signature ++ tuple_of (sections e)) < 2 ^ 256 =
        rw (← encode_settlement_lem keccak256 e) h.size_fits in
      omega (arith, length-append (selector keccak256 settle_signature) (tuple_of (sections e)))

  tuple_here : IsAt (tuple_of (sections e)) 4 calldata
  tuple_here =
      let there : drop 4 (selector keccak256 settle_signature ++ tuple_of (sections e))
          ≡ tuple_of (sections e) ++ [] =
        rw append-nil (
          drop-append 4 (selector keccak256 settle_signature) (tuple_of (sections e))
            selector_width) in
      ([], rw encode_settlement_lem there)

  section-IsAt :
      (k : ℕ) (section : Bytes)
      → get_elem? (sections e) k ≡ some section
      → IsAt section (param_at calldata k) calldata
  section-IsAt k section found =
      tuple_of-IsAt (sections e) k section 4 calldata found tuple_size tuple_here

  section_size :
      (k : ℕ) (section : Bytes) → get_elem? (sections e) k ≡ some section → length section < 2 ^ 256
  section_size k section found =
      let total = tuple_size in
      omega (
        arith,
        length-append (offsets (32 * length (sections e)) (sections e)) (concat (sections e)),
        length-concat_ge (sections e) k found,
      )

  -- Where the hash has 32 bytes, tokens have 20, prices are below 2 ^ 256 and the calldata is
  -- shorter than 2 ^ 256, decoding the first two parameters of the calldata gives the tokens and
  -- their prices.
  pub encode_settlement-tokens :
      (addresses_at calldata (param_at calldata 0) ≡ e.tokens.tokens)
      × (u256s_at calldata (param_at calldata 1) ≡ e.clearing_prices)
  unfolding sections
  encode_settlement-tokens =
      let tokens = abi_encode_address_array e.tokens.tokens in
      let prices = abi_encode_u256_array e.clearing_prices in
      (
        addresses_at-array e.tokens.tokens (param_at calldata 0) calldata
            (section_size 0 tokens refl) h.token_widths (section-IsAt 0 tokens refl),
        u256s_at-array e.clearing_prices (param_at calldata 1) calldata (section_size 1 prices refl)
            h.prices_fit (section-IsAt 1 prices refl),
      )

  -- Where the hash has 32 bytes, tokens have 20, prices are below 2 ^ 256 and the calldata is
  -- shorter than 2 ^ 256, the third parameter of the calldata is an array with as many elements as
  -- there are trades, wherever there is one, and decoding the element at an index gives the trade
  -- at that index, where its fields have the widths of their types.
  pub encode_settlement-trade :
      (i : ℕ) {t : EncodedTrade}
      → get_elem? e.trades i ≡ some t
      → IsTradeData t
      → (u256 calldata (param_at calldata 2) ≡ length e.trades)
        × (trade_at (drop (element_at calldata (param_at calldata 2) i) calldata) ≡ t)
  unfolding sections
  encode_settlement-trade i {t} found widths =
      let trades = abi_encode_trades e.trades in
      let (count, (rest, there)) =
        dynamic_array-IsAt (map abi_encode_trade e.trades) i (abi_encode_trade t)
          (param_at calldata 2) calldata (get_elem?-map abi_encode_trade e.trades i found)
          (section_size 2 trades refl) (section-IsAt 2 trades refl) in
      (
        count ∙ length-map abi_encode_trade e.trades,
        ap trade_at there ∙ trade_at-abi_encode_trade t rest widths,
      )

  stages_size : length (tuple_of (stages e.interactions)) < 2 ^ 256
  unfolding sections
  stages_size =
      rw (← abi_encode_interactions_lem e.interactions)
        (section_size 3 (abi_encode_interactions e.interactions) refl)

  stages_here : IsAt (tuple_of (stages e.interactions)) (param_at calldata 3) calldata
  unfolding sections
  stages_here =
      rw (← abi_encode_interactions_lem e.interactions)
        (section-IsAt 3 (abi_encode_interactions e.interactions) refl)

  -- Where the hash has 32 bytes, tokens have 20, prices are below 2 ^ 256 and the calldata is
  -- shorter than 2 ^ 256, the fourth parameter has an array for each stage, with as many elements
  -- as the stage has interactions, wherever it has one, and the encoding of each interaction
  -- stands where its offset says.
  pub encode_settlement-interaction :
      (stage : InteractionStage) (i : ℕ) {ix : EncodedInteraction}
      → get_elem? (stage_of e.interactions stage) i ≡ some ix
      → (u256 calldata (part_at calldata (param_at calldata 3) (stage_to_usize stage))
          ≡ length (stage_of e.interactions stage))
        × IsAt
            (abi_encode_interaction ix)
            (element_at calldata (part_at calldata (param_at calldata 3) (stage_to_usize stage)) i)
            calldata
  encode_settlement-interaction stage i {ix} found =
      let ixs = stage_of e.interactions stage in
      let k = stage_to_usize stage in
      let arr = abi_encode_interaction_array ixs in
      let here =
        tuple_of-IsAt (stages e.interactions) k arr (param_at calldata 3) calldata
          (stage_found e.interactions stage) stages_size stages_here in
      let total = stages_size in
      let size : length arr < 2 ^ 256 = omega (
        arith,
        length-append (offsets (32 * length (stages e.interactions)) (stages e.interactions))
            (concat (stages e.interactions)),
        length-concat_ge (stages e.interactions) k (stage_found e.interactions stage),
      ) in
      let (count, there) =
        dynamic_array-IsAt (map abi_encode_interaction ixs) i (abi_encode_interaction ix)
          (part_at calldata (param_at calldata 3) k) calldata
          (get_elem?-map abi_encode_interaction ixs i found) size here in
      (count ∙ length-map abi_encode_interaction ixs, there)
