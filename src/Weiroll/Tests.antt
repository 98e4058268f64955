-- ===== src/Weiroll/Tests.antt =====
-- A plan of one command and two slots.
use cow_rs.Base.{◌+◌, ◌≡◌, refl, [], ◌∷◌, map, replicate, arith}
use cow_rs.Base.Bytes.{Bytes, be_bytes}
use cow_rs.Base.Words.{u256, u256_be}
use cow_rs.Base.Words.Layout.{part_at, words_at}
use cow_rs.Weiroll.{WeirollCommand, WeirollPlanner, pack, plan, abi_encode_execute}
use cow_rs.Weiroll.Layout.{IsCommand, Fits, execute-commands}

abbrev command : WeirollCommand
command = record {
  flags = 1;
  value = 0;
  gas = 21_000;
  target = replicate 20 9;
  selector = 1 ∷ 2 ∷ 3 ∷ 4 ∷ [];
  in_out = 0 ∷ 1 ∷ 255 ∷ 255 ∷ [];
}

abbrev planner : WeirollPlanner
planner = record { commands = command ∷ []; slots = (1 ∷ 2 ∷ []) ∷ replicate 33 5 ∷ [] }

abbrev calldata : Bytes
calldata = abi_encode_execute (plan planner).commands (plan planner).slots

command-IsCommand : IsCommand command
command-IsCommand = record { target_width = refl; selector_width = refl; in_out_width = refl }

planner-Fits : Fits planner
unfolding u256_be be_bytes
planner-Fits = omega arith

execute-commands_example :
    words_at calldata (part_at calldata 4 0 + 32) (u256 calldata (part_at calldata 4 0))
    ≡ map pack planner.commands
execute-commands_example = execute-commands planner (command-IsCommand, tt) planner-Fits
