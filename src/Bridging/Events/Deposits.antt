-- ===== src/Bridging/Events/Deposits.antt =====
-- The deposit of an order, in the logs of a transaction that settles trades and makes deposits.
use cow_rs.Base.{
  ℕ, ◌^◌, ◌<◌, ◌≡◌, refl, ◌&&◌, Bool, true, false, String, Option, some, List, [], ◌∷◌, ◌++◌,
  length, get_elem?, All,
}
use cow_rs.Base.Bytes.{Bytes, bytes_eq, bytes_eq_iff}
use cow_rs.Base.Hex.{Text, HexCodec, prefix_0x}
use cow_rs.Bridging.Registry.{by_chain, across_spoke_pool_addresses}
use cow_rs.Bridging.Events.{
  EvmLogEntry, AcrossDepositEvent, CowTradeEvent, collect, is_settlement, is_deposit, is_trade,
  parse_across_deposit_event, parse_cow_trade_event, across_funds_deposited_topic0,
  cow_trade_event_topic0, get_across_deposit_events, get_cow_trade_events, deposit_params, position,
  deposit_of, get_deposit_params,
}
use cow_rs.Bridging.Events.Logs.{
  IsDeposit, IsTrade, deposit_log, trade_log, parse_across-deposit_log, parse_cow_trade-trade_log,
}

-- The chain, its two contracts, and the settlement contract that a caller may name.
pub record Contracts : Type 0 where
  pub chain_id : ℕ
  pub spoke_pool : Bytes
  pub settlement : Bytes
  pub settlement_override : Option Bytes

bytes_eq_self : (a : Bytes) → bytes_eq a a ≡ true
bytes_eq_self a = (bytes_eq_iff a a).1 refl

and_false : (b : Bool) → (b && false) ≡ false
and_false true = refl
and_false false = refl

abbrev pub IsOther : Text → CowTradeEvent → Type 0
IsOther order_id t = bytes_eq t.order_uid order_id ≡ false

position-first :
    (order_id : Text) (before : List CowTradeEvent) (t : CowTradeEvent) (after : List CowTradeEvent)
    → All (IsOther order_id) before
    → t.order_uid ≡ order_id
    → position order_id (before ++ t ∷ after) ≡ some (length before)
position-first order_id [] t after h e = rw (e, bytes_eq_self order_id) refl
position-first order_id (b ∷ before) t after (h, hs) e =
    rw (h, position-first order_id before t after hs e) refl

deposit_of-first :
    (chain_id : ℕ) (ds : List AcrossDepositEvent) (before : List CowTradeEvent) (t : CowTradeEvent)
    (after : List CowTradeEvent) (d : AcrossDepositEvent)
    → All (IsOther t.order_uid) before
    → get_elem? ds (length before) ≡ some d
    → deposit_of chain_id t.order_uid ds (some (before ++ t ∷ after))
      ≡ some (some (deposit_params chain_id d))
deposit_of-first chain_id [] before t after d h e = cc
deposit_of-first chain_id (d' ∷ ds) before t after d h e =
    rw (position-first t.order_uid before t after h refl, e) refl

module _ (hex : HexCodec) (keccak256 : String → Bytes) (c : Contracts) where
  -- Both contracts are those that the code looks for, and the hash tells the two events apart.
  pub record IsDeployed : Type 0 where
    pub spoke_pool : by_chain c.chain_id across_spoke_pool_addresses ≡ some c.spoke_pool
    pub settlement : is_settlement c.chain_id c.settlement_override c.settlement ≡ true
    pub deposit_is_no_trade :
        bytes_eq (across_funds_deposited_topic0 keccak256) (cow_trade_event_topic0 keccak256)
        ≡ false
    pub trade_is_no_deposit :
        bytes_eq (cow_trade_event_topic0 keccak256) (across_funds_deposited_topic0 keccak256)
        ≡ false

  abbrev pub with_uid : CowTradeEvent → Bytes → CowTradeEvent
  with_uid e uid = record e { order_uid = prefix_0x (hex.encode uid) }

  -- Logs that are emitted for the deposits and the trades, among others, each in its order.
  pub data Emitted : List EvmLogEntry → List AcrossDepositEvent → List CowTradeEvent → Type 0 where
    nothing : Emitted [] [] []
    deposit :
        (e : AcrossDepositEvent) (message : Bytes) {logs : List EvmLogEntry}
        {ds : List AcrossDepositEvent} {ts : List CowTradeEvent}
        → IsDeposit e
        → Emitted logs ds ts
        → Emitted
            (deposit_log c.spoke_pool (across_funds_deposited_topic0 keccak256) e message ∷ logs)
            (e ∷ ds)
            ts
    trade :
        (e : CowTradeEvent) (uid : Bytes) {logs : List EvmLogEntry} {ds : List AcrossDepositEvent}
        {ts : List CowTradeEvent}
        → IsTrade e
        → length uid < 2 ^ 64
        → Emitted logs ds ts
        → Emitted
            (trade_log c.settlement (cow_trade_event_topic0 keccak256) e uid ∷ logs)
            ds
            (with_uid e uid ∷ ts)
    other :
        (log : EvmLogEntry) {logs : List EvmLogEntry} {ds : List AcrossDepositEvent}
        {ts : List CowTradeEvent}
        → is_deposit keccak256 c.spoke_pool log ≡ false
        → is_trade keccak256 c.chain_id c.settlement_override log ≡ false
        → Emitted logs ds ts
        → Emitted (log ∷ logs) ds ts

  module _ (deployed : IsDeployed) where
    collect-deposits :
        {logs : List EvmLogEntry} {ds : List AcrossDepositEvent} {ts : List CowTradeEvent}
        → Emitted logs ds ts
        → collect (is_deposit keccak256 c.spoke_pool) parse_across_deposit_event logs ≡ some ds
    unfolding collect
    collect-deposits nothing = refl
    collect-deposits (deposit e message h rest) =
        rw
          (
            bytes_eq_self c.spoke_pool,
            bytes_eq_self (across_funds_deposited_topic0 keccak256),
            parse_across-deposit_log c.spoke_pool (across_funds_deposited_topic0 keccak256) e
                message h,
            collect-deposits rest,
          )
          refl
    collect-deposits (trade e uid h fits rest) =
        rw (deployed.trade_is_no_deposit, and_false (bytes_eq c.settlement c.spoke_pool))
          (collect-deposits rest)
    collect-deposits (other log no_deposit no_trade rest) = rw no_deposit (collect-deposits rest)

    collect-trades :
        {logs : List EvmLogEntry} {ds : List AcrossDepositEvent} {ts : List CowTradeEvent}
        → Emitted logs ds ts
        → collect
            (is_trade keccak256 c.chain_id c.settlement_override)
            (parse_cow_trade_event hex)
            logs
          ≡ some ts
    unfolding collect
    collect-trades nothing = refl
    collect-trades (deposit e message h rest) =
        rw
          (
            deployed.deposit_is_no_trade,
            and_false (is_settlement c.chain_id c.settlement_override c.spoke_pool),
          )
          (collect-trades rest)
    collect-trades (trade e uid h fits rest) =
        rw
          (
            deployed.settlement,
            bytes_eq_self (cow_trade_event_topic0 keccak256),
            parse_cow_trade-trade_log hex c.settlement (cow_trade_event_topic0 keccak256) e uid h
                fits,
            collect-trades rest,
          )
          refl
    collect-trades (other log no_deposit no_trade rest) = rw no_trade (collect-trades rest)

    -- In the logs of deployed contracts, with the deposits and the trades that they are emitted for,
    -- the deposits and the trades are read back in order, and an order has the deposit with the index
    -- of its first trade.
    pub get_deposit_params-Emitted :
        (logs : List EvmLogEntry) (ds : List AcrossDepositEvent) (before after : List CowTradeEvent)
        (t : CowTradeEvent) (d : AcrossDepositEvent)
        → Emitted logs ds (before ++ t ∷ after)
        → All (IsOther t.order_uid) before
        → get_elem? ds (length before) ≡ some d
        → (get_across_deposit_events keccak256 c.chain_id logs ≡ some ds)
          × (get_cow_trade_events keccak256 hex c.chain_id logs c.settlement_override
              ≡ some (before ++ t ∷ after))
          × (get_deposit_params keccak256 hex c.chain_id t.order_uid logs c.settlement_override
              ≡ some (some (deposit_params c.chain_id d)))
    unfolding get_across_deposit_events get_cow_trade_events get_deposit_params
    get_deposit_params-Emitted logs ds before after t d emitted others at =
        let deposits : get_across_deposit_events keccak256 c.chain_id logs ≡ some ds =
          rw deployed.spoke_pool (collect-deposits emitted) in
        let trades : get_cow_trade_events keccak256 hex c.chain_id logs c.settlement_override
            ≡ some (before ++ t ∷ after) =
          collect-trades emitted in
        (
          deposits,
          trades,
          rw (deposits, trades) (deposit_of-first c.chain_id ds before t after d others at),
        )
