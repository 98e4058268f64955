-- ===== src/Composable/Twap/Tests.antt =====
-- A TWAP order of four parts.
use cow_rs.Base.{◌+◌, ◌<◌, ◌≤◌, ◌≡◌, refl, true, false, replicate, ok, arith}
use cow_rs.Base.Bytes.{Bytes}
use cow_rs.Base.U256.{wrapping}
use cow_rs.Types.{sell}
use cow_rs.Composable.Types.{TwapData, TwapStruct, starts_at, auto}
use cow_rs.Composable.Twap.{TwapOrder, is_valid, data_to_struct, struct_to_data}
use cow_rs.Composable.Twap.Parts.{data_to_struct_parts}

abbrev weth : Bytes
weth = replicate 20 1

abbrev dai : Bytes
dai = replicate 20 2

abbrev terms : TwapData
terms = record {
  sell_token = weth;
  buy_token = dai;
  receiver = replicate 20 0;
  sell_amount = 1_000;
  buy_amount = 903;
  start_time = starts_at 1_700_000_000;
  part_duration = 3_600;
  num_parts = 4;
  app_data = replicate 32 0;
  partially_fillable = false;
  kind = sell;
  duration_of_part = auto;
}

abbrev twap : TwapOrder
twap = record { terms = terms; salt = replicate 32 5 }

abbrev part : TwapStruct
part = record {
  sell_token = weth;
  buy_token = dai;
  receiver = replicate 20 0;
  part_sell_amount = 250;
  min_part_limit = 225;
  t0 = 1_700_000_000;
  n = 4;
  t = 3_600;
  span = 0;
  app_data = replicate 32 0;
}

twap_valid : is_valid twap ≡ true
unfolding is_valid
twap_valid = refl

data_to_struct_parts_example :
    (s : TwapStruct) × (data_to_struct terms ≡ ok s)
    × (0 < s.part_sell_amount)
    × ((struct_to_data wrapping s).sell_amount ≡ 1_000)
    × ((struct_to_data wrapping s).buy_amount ≤ 903)
    × (903 < (struct_to_data wrapping s).buy_amount + 4)
data_to_struct_parts_example =
    data_to_struct_parts wrapping twap twap_valid (omega arith) (omega arith)
