-- ===== src/Bridging/Deposit/Call.antt =====
-- What the contract reads from a deposit call.
use cow_rs.Base.{
  ℕ, ◌+◌, ◌-◌, ◌*◌, ◌^◌, ◌<◌, ◌≤◌, ◌≡◌, refl, ◌∙◌, String, Option, none, some, List, [], ◌++◌,
  length, concat, take, drop, replicate, All, arith, length-take, drop-append, take-append, get_or,
  Option-cases, inl, inr,
}
use cow_rs.Base.Bytes.{Bytes}
use cow_rs.Base.Decimal.{parse_uint, parse_uint-lt}
use cow_rs.Base.Hex.{Text}
use cow_rs.Base.U256.{U256Ops}
use cow_rs.Base.Words.{IsWord, IsAddress, pad_address, u256_bytes, addr, u256}
use cow_rs.Base.Words.Rows.{pad_address-IsWord, u256_bytes-IsWord}
use cow_rs.Base.Words.Read.{addr_at, u256_at}
use cow_rs.Bridging.{ok, evm}
use cow_rs.Bridging.Fees.{pct_100_percent, value_or}
use cow_rs.Bridging.Fees.Rates.{IsFeeAt, left-IsFeeAt}
use cow_rs.Bridging.Fees.Accounts.{fee_left, left, left_le}
use cow_rs.Bridging.Registry.{by_chain, across_spoke_pool_addresses}
use cow_rs.Bridging.Deposit.{
  AcrossDepositCallParams, EvmCall, address_or, parsed, output_amount_of, call_words,
  deposit_selector, create_across_deposit_call,
}

-- What parsing gives fits its type.
abbrev pub Fits : ℕ → Option ℕ → Type 0
Fits bound none = Unit
Fits bound (some v) = v < bound

-- Addresses have 20 bytes.
abbrev pub IsAddressParser : (Text → Option Bytes) → Type 0
IsAddressParser parse_address =
    (text : Text) (a : Bytes) → parse_address text ≡ some a → IsAddress a

value_or-lt : (bound : ℕ) (text : Text) → 0 < bound → value_or 0 (parse_uint bound text) < bound
value_or-lt bound text h = elim (Option-cases (parse_uint bound text)) [
  | inl failed ↦ rw failed h
  | inr (v, e) ↦ rw e (parse_uint-lt bound v text h e)
]

address_or-IsAddress :
    (default : Bytes) (found : Option Bytes)
    → IsAddress default
    → ((a : Bytes) → found ≡ some a → IsAddress a)
    → IsAddress (address_or default found)
address_or-IsAddress default none h k = h
address_or-IsAddress default (some a) h k = k a refl

parsed-IsAddress :
    (parse_address : Text → Option Bytes)
    → IsAddressParser parse_address
    → (text : Option Text) (a : Bytes) → parsed parse_address text ≡ some a
    → IsAddress a
parsed-IsAddress parse_address h none a e = cc
parsed-IsAddress parse_address h (some text) a e = h text a e

-- The widths of the request's fields.
pub record IsDepositRequest (p : AcrossDepositCallParams) (bought : Bytes) : Type 0 where
  pub account : IsAddress p.request.account
  pub sell_token : IsAddress p.request.sell_token
  pub buy_token : IsAddress bought
  pub cow_shed_account : IsAddress p.cow_shed_account
  pub sell_amount : p.request.sell_amount < 2 ^ 192
  pub buy_chain_id : p.request.buy_chain_id < 2 ^ 64

-- A call of `depositV3` whose arguments are those of the request, the receiver the account where
-- none is given, and whose output is the input without the fee at the rate.
pub record IsDepositCall (parse_address : Text → Option Bytes) (p : AcrossDepositCallParams)
    (pct : ℕ) (selector spoke_pool buy_token : Bytes) (call : EvmCall) : Type 0 where
  pub to : call.to ≡ spoke_pool
  pub value : call.value ≡ 0
  pub selects : take 4 call.call_data ≡ selector
  pub depositor : addr (drop 4 call.call_data) 0 ≡ p.cow_shed_account
  pub recipient :
      addr (drop 4 call.call_data) 32
      ≡ address_or p.request.account (parsed parse_address p.request.receiver)
  pub input_token : addr (drop 4 call.call_data) 64 ≡ p.request.sell_token
  pub output_token : addr (drop 4 call.call_data) 96 ≡ buy_token
  pub input_amount : u256 (drop 4 call.call_data) 128 ≡ p.request.sell_amount
  pub output_amount :
      (fee : ℕ) × (u256 (drop 4 call.call_data) 160 + fee ≡ p.request.sell_amount)
      × IsFeeAt pct pct_100_percent p.request.sell_amount fee
  pub destination_chain_id : u256 (drop 4 call.call_data) 192 ≡ p.request.buy_chain_id
  pub quote_timestamp :
      u256 (drop 4 call.call_data) 256 ≡ value_or 0 (parse_uint (2 ^ 32) p.suggested_fees.timestamp)
  pub fill_deadline :
      u256 (drop 4 call.call_data) 288
      ≡ value_or 0 (parse_uint (2 ^ 32) p.suggested_fees.fill_deadline)
  pub message : u256 (drop 4 call.call_data) (u256 (drop 4 call.call_data) 352) ≡ 0

module _ (parse_address : Text → Option Bytes) (u : U256Ops) (p : AcrossDepositCallParams)
    (buy_token : Bytes) (h : IsDepositRequest p buy_token)
    (parser : IsAddressParser parse_address) where
  abbrev words : List Bytes
  words = call_words parse_address u p buy_token

  receiver-IsAddress :
      IsAddress (address_or p.request.account (parsed parse_address p.request.receiver))
  receiver-IsAddress =
      address_or-IsAddress p.request.account (parsed parse_address p.request.receiver) h.account
        (parsed-IsAddress parse_address parser p.request.receiver)

  relayer-IsAddress :
      IsAddress (address_or (replicate 20 0) (parse_address p.suggested_fees.exclusive_relayer))
  relayer-IsAddress =
      address_or-IsAddress (replicate 20 0) (parse_address p.suggested_fees.exclusive_relayer) refl
        (parser p.suggested_fees.exclusive_relayer)

  words-IsWord : All IsWord words
  words-IsWord = (
    pad_address-IsWord p.cow_shed_account h.cow_shed_account,
    (
      pad_address-IsWord _ receiver-IsAddress,
      (
        pad_address-IsWord p.request.sell_token h.sell_token,
        (
          pad_address-IsWord buy_token h.buy_token,
          (
            u256_bytes-IsWord p.request.sell_amount,
            (
              u256_bytes-IsWord (output_amount_of parse_address u p),
              (
                u256_bytes-IsWord p.request.buy_chain_id,
                (
                  pad_address-IsWord _ relayer-IsAddress,
                  (
                    u256_bytes-IsWord (value_or 0 (parse_uint (2 ^ 32) p.suggested_fees.timestamp)),
                    (
                      u256_bytes-IsWord
                          (value_or 0 (parse_uint (2 ^ 32) p.suggested_fees.fill_deadline)),
                      (
                        u256_bytes-IsWord (
                            value_or 0 (parse_uint (2 ^ 32) p.suggested_fees.exclusivity_deadline)),
                        (u256_bytes-IsWord 384, (u256_bytes-IsWord 0, tt)),
                      ),
                    ),
                  ),
                ),
              ),
            ),
          ),
        ),
      ),
    ),
  )

  address_at :
      (i : ℕ) (a : Bytes)
      → i < 13
      → get_or words i [] ≡ pad_address a
      → IsAddress a
      → addr (concat words) (32 * i) ≡ a
  address_at i a b e w = addr_at words i words-IsWord b a e w

  number_at :
      (i v : ℕ)
      → i < 13
      → get_or words i [] ≡ u256_bytes v
      → v < 2 ^ 256
      → u256 (concat words) (32 * i) ≡ v
  number_at i v b e w = u256_at words i words-IsWord b v e w

  output_of :
      (pct : ℕ)
      → parse_uint (2 ^ 128) p.suggested_fees.total_relay_fee.pct ≡ some pct
      → pct ≤ pct_100_percent
      → output_amount_of parse_address u p ≡ left p.request.sell_amount pct
  output_of pct e k = rw (e, fee_left u p.request.sell_amount pct h.sell_amount k) refl

  deposit-IsDepositCall :
      (sel spoke_pool : Bytes) (pct : ℕ)
      → length sel ≡ 4
      → parse_uint (2 ^ 128) p.suggested_fees.total_relay_fee.pct ≡ some pct
      → pct ≤ pct_100_percent
      → IsDepositCall parse_address p pct sel spoke_pool buy_token
          (record { to = spoke_pool; call_data = sel ++ concat words; value = 0 })
  deposit-IsDepositCall sel spoke_pool pct four e k =
      let arguments : drop 4 (sel ++ concat words) ≡ concat words =
        drop-append 4 sel (concat words) four in
      let less = left_le p.request.sell_amount pct in
      let output : u256 (concat words) 160 ≡ left p.request.sell_amount pct =
        number_at 5 (output_amount_of parse_address u p) (omega arith) refl
          (rw (output_of pct e k) (omega (arith, h.sell_amount)))
        ∙ output_of pct e k in
      let stamp = value_or-lt (2 ^ 32) p.suggested_fees.timestamp (omega arith) in
      let deadline = value_or-lt (2 ^ 32) p.suggested_fees.fill_deadline (omega arith) in
      let place = number_at 11 384 (omega arith) refl (omega arith) in
      record {
        to = refl;
        value = refl;
        selects = take-append 4 sel (concat words) four;
        depositor = rw arguments (address_at 0 _ (omega arith) refl h.cow_shed_account);
        recipient = rw arguments (address_at 1 _ (omega arith) refl receiver-IsAddress);
        input_token = rw arguments (address_at 2 _ (omega arith) refl h.sell_token);
        output_token = rw arguments (address_at 3 _ (omega arith) refl h.buy_token);
        input_amount =
            rw arguments (number_at 4 _ (omega arith) refl (omega (arith, h.sell_amount)));
        output_amount = rw arguments (
          p.request.sell_amount - left p.request.sell_amount pct,
          omega arith,
          left-IsFeeAt pct_100_percent p.request.sell_amount pct (omega arith) k,
        );
        destination_chain_id =
            rw arguments (number_at 6 _ (omega arith) refl (omega (arith, h.buy_chain_id)));
        quote_timestamp = rw arguments (number_at 8 _ (omega arith) refl (omega arith));
        fill_deadline = rw arguments (number_at 9 _ (omega arith) refl (omega arith));
        message = rw (arguments, place) (number_at 12 0 (omega arith) refl (omega arith));
      }

-- For a chain with a spoke pool, a bought token of an EVM chain, a parsed fee of at most 100 %, a hash
-- of 32 bytes, parsed addresses of 20 and fields in range, the deposit call is made, and it is a call
-- with the arguments of the request.
pub create_across_deposit_call-IsDepositCall :
    (parse_address : Text → Option Bytes) (u : U256Ops) (keccak256 : String → Bytes)
    (p : AcrossDepositCallParams) (spoke_pool buy_token : Bytes) (pct : ℕ)
    → IsAddressParser parse_address
    → ((s : String) → length (keccak256 s) ≡ 32)
    → by_chain p.request.sell_chain_id across_spoke_pool_addresses ≡ some spoke_pool
    → p.request.buy_token ≡ evm buy_token
    → IsDepositRequest p buy_token
    → parse_uint (2 ^ 128) p.suggested_fees.total_relay_fee.pct ≡ some pct
    → pct ≤ pct_100_percent
    → (call : EvmCall) × (create_across_deposit_call parse_address u keccak256 p ≡ ok call)
      × IsDepositCall parse_address p pct (deposit_selector keccak256) spoke_pool buy_token call
unfolding create_across_deposit_call deposit_selector
create_across_deposit_call-IsDepositCall parse_address u keccak256 p spoke_pool buy_token pct parser
      width pool token h e k =
    (
      _,
      rw (pool, token) refl,
      deposit-IsDepositCall parse_address u p buy_token h parser (deposit_selector keccak256)
          spoke_pool pct (omega (arith, length-take 4 (keccak256 _), width _)) e k,
    )
