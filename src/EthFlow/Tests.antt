-- ===== src/EthFlow/Tests.antt =====
-- Orders of the native currency at concrete values.
use cow_rs.Base.{String, ◌≡◌, refl, false, drop, replicate, arith}
use cow_rs.Base.Bytes.{Bytes}
use cow_rs.EthFlow.{negsuc, EthFlowOrderData, build_eth_flow_transaction}
use cow_rs.EthFlow.Calls.{IsTyped, IsCreateOrder, build_eth_flow_transaction-IsCreateOrder}

abbrev hash : String → Bytes
hash s = replicate 32 9

abbrev contract : Bytes
contract = replicate 20 7

-- Its quote has the identifier -5.
abbrev order : EthFlowOrderData
order = record {
  buy_token = replicate 20 1;
  receiver = replicate 20 2;
  sell_amount = 1_000_000;
  buy_amount = 2_000_000;
  app_data = replicate 32 3;
  fee_amount = 0;
  valid_to = 1_700_000_000;
  partially_fillable = false;
  quote_id = negsuc 4;
}

order-IsTyped : IsTyped order
order-IsTyped = record {
  buy_token = refl;
  receiver = refl;
  sell_amount = omega arith;
  buy_amount = omega arith;
  app_data = refl;
  fee_amount = omega arith;
  valid_to = omega arith;
  quote_id = omega arith;
}

build_eth_flow_transaction-IsCreateOrder_example :
    ((build_eth_flow_transaction hash contract order).to ≡ contract)
    × ((build_eth_flow_transaction hash contract order).value ≡ 1_000_000)
    × IsCreateOrder order (drop 4 (build_eth_flow_transaction hash contract order).call_data)
build_eth_flow_transaction-IsCreateOrder_example =
    build_eth_flow_transaction-IsCreateOrder hash contract order (λ s. refl) order-IsTyped
