-- ===== src/Weiroll.antt =====
-- crates/weiroll: packed commands, the planner of scripts, and the calldata that executes a script.
pub mod Layout
pub mod Pack
mod Tests
use cow_rs.Base.{
  ℕ, zero, suc, ◌+◌, ◌-◌, ◌*◌, ◌/◌, ◌%◌, Option, none, some, List, [], ◌∷◌, ◌++◌, map, length,
  replicate, concat,
}
use cow_rs.Base.Bytes.{Bytes, be_bytes}
use cow_rs.Base.Words.{u256_be}

pub record WeirollCommand : Type 0 where
  pub flags : ℕ
  pub value : ℕ
  pub gas : ℕ
  pub target : Bytes
  pub selector : Bytes
  pub in_out : Bytes

abbrev pub fields : WeirollCommand → List Bytes
fields c =
    (c.flags ∷ []) ∷ (c.value ∷ []) ∷ be_bytes 2 c.gas ∷ c.target ∷ c.selector ∷ c.in_out ∷ []

-- The fields fill the word from its first byte to its last.
unfoldable pub pack : WeirollCommand → Bytes
pack c = concat (fields c)

pub record WeirollScript : Type 0 where
  pub commands : List Bytes
  pub slots : List Bytes

pub record WeirollPlanner : Type 0 where
  pub commands : List WeirollCommand
  pub slots : List Bytes

abbrev pub new_planner : WeirollPlanner
new_planner = record { commands = []; slots = [] }

unfoldable pub add_command : WeirollPlanner → WeirollCommand → WeirollPlanner
add_command p cmd = record p { commands = p.commands ++ cmd ∷ [] }

unfoldable pub add_state_slot : WeirollPlanner → Bytes → WeirollPlanner × ℕ
add_state_slot p bytes = (record p { slots = p.slots ++ bytes ∷ [] }, length p.slots)

unfoldable pub plan : WeirollPlanner → WeirollScript
plan p = record { commands = map pack p.commands; slots = p.slots }

abbrev pub pad_u256 : ℕ → Bytes
pad_u256 value = u256_be value

-- The offsets advance by the length word and `slot.len().div_ceil(32) * 32` bytes.
abbrev pub slot_offsets : ℕ → List Bytes → Bytes
slot_offsets current_offset [] = []
slot_offsets current_offset (slot ∷ slots) =
    pad_u256 current_offset
    ++ slot_offsets (current_offset + (32 + (length slot + 31) / 32 * 32)) slots

abbrev pub encode_slot : Bytes → Bytes
encode_slot slot = pad_u256 (length slot) ++ (slot ++ replicate ((32 - length slot % 32) % 32) 0)

abbrev pub execute_selector : Bytes
execute_selector = 0xde ∷ 0x79 ∷ 0x2b ∷ 0xe1 ∷ []

unfoldable pub abi_encode_execute : List Bytes → List Bytes → Bytes
abi_encode_execute commands slots =
    let commands_offset : ℕ = 64 in
    let commands_data_len = 32 + length commands * 32 in
    let state_offset = commands_offset + commands_data_len in
    execute_selector
    ++ (pad_u256 commands_offset
        ++ (pad_u256 state_offset
            ++ (pad_u256 (length commands)
                ++ (concat commands
                    ++ (pad_u256 (length slots)
                        ++ (slot_offsets (length slots * 32) slots
                            ++ concat (map encode_slot slots)))))))

pub data WeirollCommandFlags : Type 0 where
  delegate_call call static_call call_with_value : WeirollCommandFlags

pub record WeirollContractRef : Type 0 where
  pub address : Bytes
  pub abi : Bytes
  pub command_flags : WeirollCommandFlags

abbrev pub or_call : Option WeirollCommandFlags → WeirollCommandFlags
or_call none = call
or_call (some f) = f

unfoldable pub create_weiroll_contract :
    Bytes → Bytes → Option WeirollCommandFlags → WeirollContractRef
create_weiroll_contract address abi command_flags = record {
  address = address;
  abi = abi;
  command_flags = or_call command_flags;
}

unfoldable pub create_weiroll_library : Bytes → Bytes → WeirollContractRef
create_weiroll_library address abi = record {
  address = address;
  abi = abi;
  command_flags = delegate_call;
}
