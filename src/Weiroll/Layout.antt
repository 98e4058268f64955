-- ===== src/Weiroll/Layout.antt =====
-- The calldata of a script, read by following its offsets.
use mathlib.Core.List.{append-nil, append_assoc}
use mathlib.Core.Path.{ap₂}
use native.Mathlib.Nat.{pow-suc}
use cow_rs.Base.{
  ℕ, zero, suc, ◌+◌, ◌-◌, ◌*◌, ◌/◌, ◌%◌, ◌^◌, ◌<◌, ◌≡◌, refl, sym, ap, ◌∙◌, some, List, [], ◌∷◌,
  ◌++◌, map, length, replicate, concat, All, get_elem?, get_elem?-map, arith, length-append,
  length-replicate, length-map,
}
use cow_rs.Base.Bytes.{Bytes, be_bytes, length-be_bytes}
use cow_rs.Base.Words.{IsWord, IsAddress, u256_bytes, u256_be, u256}
use cow_rs.Base.Words.Rows.{u256_bytes-IsWord, u256_be-IsWord, length-concat}
use cow_rs.Base.Words.Layout.{
  IsAt, offsets, length-offsets, tuple_of, part_at, tuple_of-IsAt, words_at, words_at-concat,
}
use cow_rs.Base.Words.Arrays.{
  dynamic_array, length-dynamic_array, dynamic_array-IsAt, element_at, count_word,
}
use cow_rs.Weiroll.{
  WeirollCommand, pack, plan, WeirollPlanner, slot_offsets, encode_slot, execute_selector,
  abi_encode_execute, pad_u256,
}

-- The fields have the widths of their types.
pub record IsCommand (c : WeirollCommand) : Type 0 where
  pub target_width : IsAddress c.target
  pub selector_width : length c.selector ≡ 4
  pub in_out_width : length c.in_out ≡ 4

pack-IsWord : (c : WeirollCommand) → IsCommand c → IsWord (pack c)
unfolding pack
pack-IsWord c h =
    let t = h.target_width in
    let s = h.selector_width in
    let io = h.in_out_width in
    let g = length-be_bytes 2 c.gas in
    let last = length-append c.in_out [] in
    let fourth = length-append c.selector (c.in_out ++ []) in
    let third = length-append c.target (c.selector ++ (c.in_out ++ [])) in
    let second = length-append (be_bytes 2 c.gas) (c.target ++ (c.selector ++ (c.in_out ++ []))) in
    omega arith

commands-IsWord : (cs : List WeirollCommand) → All IsCommand cs → All IsWord (map pack cs)
commands-IsWord [] h = tt
commands-IsWord (c ∷ cs) (first, rest) = (pack-IsWord c first, commands-IsWord cs rest)

be_bytes-zero : (m : ℕ) → be_bytes m 0 ≡ replicate m 0
unfolding be_bytes
be_bytes-zero zero = refl
be_bytes-zero (suc m) = ap (λ bs. bs ++ 0 ∷ []) (be_bytes-zero m) ∙ replicate-snoc m
  where
    replicate-snoc : (m : ℕ) → replicate {A = ℕ} m 0 ++ 0 ∷ [] ≡ replicate (suc m) 0
    replicate-snoc zero = refl
    replicate-snoc (suc m) = ap (◌∷◌ 0) (replicate-snoc m)

be_bytes-small : (m k v : ℕ) → v < 256 ^ k → be_bytes (m + k) v ≡ replicate m 0 ++ be_bytes k v
unfolding be_bytes
be_bytes-small m zero v h =
    let none_left : v ≡ 0 = omega arith in
    let size : m + 0 ≡ m = omega arith in rw (none_left, size, append-nil) (be_bytes-zero m)
be_bytes-small m (suc k) v h =
    let size : m + suc k ≡ suc (m + k) = omega arith in
    ap (λ n. be_bytes n v) size
    ∙ ap (λ bs. bs ++ v % 256 ∷ []) (be_bytes-small m k (v / 256) (omega (arith, pow-suc 256 k)))
    ∙ append_assoc (replicate m 0) (be_bytes k (v / 256)) (v % 256 ∷ [])

-- A `usize` padded to a word.
pad_lem : (v : ℕ) → v < 2 ^ 64 → u256_be v ≡ u256_bytes v
unfolding u256_be u256_bytes
pad_lem v h = sym (be_bytes-small 24 8 v h)

encode_slot_size : (slot : Bytes) → length (encode_slot slot) ≡ 32 + (length slot + 31) / 32 * 32
encode_slot_size slot = omega (
  arith,
  length-append (u256_be (length slot)) (slot ++ replicate ((32 - length slot % 32) % 32) 0),
  u256_be-IsWord (length slot),
  length-append slot (replicate ((32 - length slot % 32) % 32) 0),
  length-replicate {A = ℕ} ((32 - length slot % 32) % 32) 0,
)

-- The offsets are those of the encoded slots, while they fit.
slot_offsets_lem :
    (c : ℕ) (slots : List Bytes)
    → c + length (concat (map encode_slot slots)) < 2 ^ 64
    → slot_offsets c slots ≡ offsets c (map encode_slot slots)
slot_offsets_lem c [] h = refl
slot_offsets_lem c (slot ∷ slots) h =
    let total = length-append (encode_slot slot) (concat (map encode_slot slots)) in
    let size = encode_slot_size slot in
    let next : c + length (encode_slot slot) ≡ c + (32 + (length slot + 31) / 32 * 32) =
      omega arith in
    ap₂ (◌++◌) (pad_lem c (omega arith))
      (rw next (slot_offsets_lem (c + (32 + (length slot + 31) / 32 * 32)) slots (omega arith)))

abbrev commands_array : List Bytes → Bytes
commands_array commands = u256_bytes (length commands) ++ concat commands

abbrev parts : List Bytes → List Bytes → List Bytes
parts commands slots = commands_array commands ∷ dynamic_array (map encode_slot slots) ∷ []

slots_array :
    (slots : List Bytes)
    → length slots * 32 + length (concat (map encode_slot slots)) < 2 ^ 64
    → pad_u256 (length slots)
        ++ (slot_offsets (length slots * 32) slots ++ concat (map encode_slot slots))
      ≡ dynamic_array (map encode_slot slots)
unfolding dynamic_array
slots_array [] h = rw (append-nil (pad_u256 0)) (pad_lem 0 (omega arith))
slots_array (slot ∷ slots) h =
    let same = length-map encode_slot slots in
    rw (
      pad_lem (length (slot ∷ slots)) (omega arith),
      slot_offsets_lem (length (slot ∷ slots) * 32) (slot ∷ slots) (omega arith),
      same,
    )

execute_lem :
    (commands slots : List Bytes)
    → All IsWord commands
    → length commands * 32 + length slots * 32 + length (concat (map encode_slot slots)) + 96
      < 2 ^ 64
    → abi_encode_execute commands slots ≡ execute_selector ++ tuple_of (parts commands slots)
unfolding abi_encode_execute
execute_lem commands slots words fits =
    let size = length-concat commands words in
    let whole = length-append (u256_bytes (length commands)) (concat commands) in
    let w = u256_bytes-IsWord (length commands) in
    let second : 64 + (32 + length commands * 32) ≡ 64 + length (commands_array commands) =
      omega arith in
    ap (λ bs. execute_selector ++ bs)
      (rw (
        pad_lem 64 (omega arith),
        pad_lem (64 + (32 + length commands * 32)) (omega arith),
        pad_lem (length commands) (omega arith),
        slots_array slots (omega arith),
        second,
        append-nil (dynamic_array (map encode_slot slots)),
        append-nil (u256_bytes (64 + length (commands_array commands))),
        append_assoc (u256_bytes (length commands)) (concat commands)
            (dynamic_array (map encode_slot slots)),
        append_assoc (u256_bytes 64) (u256_bytes (64 + length (commands_array commands))) _,
      ))

-- The script of a plan fits the address space of the offsets.
abbrev pub Fits : WeirollPlanner → Type 0
Fits p =
    length p.commands * 32 + length p.slots * 32 + length (concat (map encode_slot p.slots)) + 96
    < 2 ^ 64

module _ (p : WeirollPlanner) (commands_fit : All IsCommand p.commands) (fits : Fits p) where
  abbrev calldata : Bytes
  calldata = abi_encode_execute (plan p).commands (plan p).slots

  abbrev packed : List Bytes
  packed = map pack p.commands

  words : All IsWord packed
  words = commands-IsWord p.commands commands_fit

  execute-plan : calldata ≡ execute_selector ++ tuple_of (parts packed p.slots)
  unfolding plan
  execute-plan = execute_lem packed p.slots words (omega (arith, length-map pack p.commands))

  slots_size : length (dynamic_array (map encode_slot p.slots)) < 2 ^ 64 + 2 ^ 64
  slots_size =
      omega (arith, length-dynamic_array (map encode_slot p.slots), length-map encode_slot p.slots)

  tuple_here : IsAt (tuple_of (parts packed p.slots)) 4 calldata
  tuple_here = ([], rw (execute-plan, append-nil (tuple_of (parts packed p.slots))))

  tuple_size : length (tuple_of (parts packed p.slots)) < 2 ^ 256
  tuple_size = omega (
    arith,
    slots_size,
    length-map pack p.commands,
    length-concat packed words,
    length-append (u256_bytes (length packed)) (concat packed),
    u256_bytes-IsWord (length packed),
    length-append (offsets 64 (parts packed p.slots)) (concat (parts packed p.slots)),
    length-offsets 64 (parts packed p.slots),
    length-append (commands_array packed) (dynamic_array (map encode_slot p.slots) ++ []),
    length-append (dynamic_array (map encode_slot p.slots)) [],
  )

  part_here :
      (k : ℕ) (part : Bytes)
      → get_elem? (parts packed p.slots) k ≡ some part
      → IsAt part (part_at calldata 4 k) calldata
  part_here k part found =
      tuple_of-IsAt (parts packed p.slots) k part 4 calldata found tuple_size tuple_here

  -- Where targets have 20 bytes, selectors and arguments 4, and the script fits 2 ^ 64 bytes,
  -- decoding the first parameter of the calldata of a plan gives its packed commands in order.
  pub execute-commands :
      words_at calldata (part_at calldata 4 0 + 32) (u256 calldata (part_at calldata 4 0))
      ≡ map pack p.commands
  execute-commands =
      let (count, there) =
        count_word (length packed) (concat packed) (part_at calldata 4 0) calldata
          (omega (arith, length-map pack p.commands)) (part_here 0 (commands_array packed) refl) in
      rw count (words_at-concat packed (part_at calldata 4 0 + 32) calldata words there)

  -- Where targets have 20 bytes, selectors and arguments 4, and the script fits 2 ^ 64 bytes, the
  -- second parameter of the calldata of a plan has as many elements as the plan has slots,
  -- wherever it has one, and each slot stands, behind its length and padded, where its offset
  -- says.
  execute-slot :
      (i : ℕ) {slot : Bytes}
      → get_elem? p.slots i ≡ some slot
      → (u256 calldata (part_at calldata 4 1) ≡ length p.slots)
        × IsAt (encode_slot slot) (element_at calldata (part_at calldata 4 1) i) calldata
  execute-slot i {slot} found =
      let (count, there) =
        dynamic_array-IsAt (map encode_slot p.slots) i (encode_slot slot) (part_at calldata 4 1)
          calldata (get_elem?-map encode_slot p.slots i found) (omega (arith, slots_size))
          (part_here 1 (dynamic_array (map encode_slot p.slots)) refl) in
      (count ∙ length-map encode_slot p.slots, there)
