-- ===== src/AppData/Validation.antt =====
-- crates/app-data/src/validation.rs: the constraints on a document. A text is its UTF-8 bytes.
pub mod Allowed
use cow_rs.Base.{
  ℕ, ◌+◌, ◌-◌, ◌*◌, ◌^◌, ltb, leb, ◌==◌, not, ◌&&◌, ◌||◌, Bool, true, false, if◌then◌else◌, Option,
  none, some, List, [], ◌∷◌, ◌++◌, length, drop,
}
use cow_rs.Base.Bytes.{bytes_eq, as_bytes}
use cow_rs.Base.Decimal.{is_digit, parse_uint}
use cow_rs.Base.Hex.{Text}
use cow_rs.AppData.Doc.{
  AppDataDoc, Metadata, CowHook, OrderInteractionHooks, PartnerFee, PartnerFeeEntry, OrderClassKind,
  class_as_str, entries,
}

-- Messages keep the value that they are about.
pub data ValidationError : Type 0 where
  invalid_app_code : Text → ValidationError
  invalid_hook_target : Text → ValidationError
  invalid_hook_gas_limit : Text → ValidationError
  partner_fee_bps_too_high : ℕ → ValidationError
  unknown_order_class : Text → ValidationError
  invalid_replaced_order_uid : Text → ValidationError

-- `Vec::push`.
abbrev pub push : List ValidationError → ValidationError → List ValidationError
push errors e = errors ++ e ∷ []

abbrev pub push_if : Bool → ValidationError → List ValidationError → List ValidationError
push_if test e errors = if test then push errors e else errors

-- `char::is_ascii_hexdigit`.
abbrev pub is_ascii_hexdigit : ℕ → Bool
is_ascii_hexdigit c = is_digit c || (leb b'a' c && leb c b'f') || (leb b'A' c && leb c b'F')

abbrev pub all_hexdigits : Text → Bool
all_hexdigits [] = true
all_hexdigits (c ∷ cs) = is_ascii_hexdigit c && all_hexdigits cs

-- `starts_with("0x")` and all of the rest.
abbrev pub is_0x_hex : Text → Bool
is_0x_hex [] = false
is_0x_hex (a ∷ []) = false
is_0x_hex (a ∷ b ∷ rest) = (a == b'0' && b == b'x') && all_hexdigits rest

unfoldable pub is_eth_address : Text → Bool
is_eth_address s = length s == 42 && is_0x_hex s

unfoldable pub is_order_uid : Text → Bool
is_order_uid uid = length uid == 114 && is_0x_hex uid

abbrev pub parse_u64 : Text → Option ℕ
parse_u64 text = parse_uint (2 ^ 64) text

abbrev pub is_none {ℓ} : {A : Type ℓ} → Option A → Bool
is_none none = true
is_none (some a) = false

unfoldable pub validate_app_code : Option Text → List ValidationError → List ValidationError
validate_app_code none errors = errors
validate_app_code (some code) errors =
    if length code == 0
    then push errors (invalid_app_code code)
    else if ltb 50 (length code)
    then push errors (invalid_app_code code)
    else errors

unfoldable pub validate_single_hook : CowHook → List ValidationError → List ValidationError
validate_single_hook hook errors =
    push_if (is_none (parse_u64 hook.gas_limit)) (invalid_hook_gas_limit hook.gas_limit)
      (push_if (not (is_eth_address hook.target)) (invalid_hook_target hook.target) errors)

unfoldable pub validate_hook_list : List CowHook → List ValidationError → List ValidationError
validate_hook_list [] errors = errors
validate_hook_list (hook ∷ hooks) errors =
    validate_hook_list hooks (validate_single_hook hook errors)

-- `if let Some(value)`.
abbrev pub if_some {ℓ} :
    {A : Type ℓ}
    → (A → List ValidationError → List ValidationError)
    → Option A
    → List ValidationError
    → List ValidationError
if_some f none errors = errors
if_some f (some a) errors = f a errors

unfoldable pub validate_hooks : OrderInteractionHooks → List ValidationError → List ValidationError
validate_hooks hooks errors =
    if_some validate_hook_list hooks.post (if_some validate_hook_list hooks.pre errors)

abbrev pub check_bps : ℕ → List ValidationError → List ValidationError
check_bps bps errors = push_if (ltb 10_000 bps) (partner_fee_bps_too_high bps) errors

unfoldable pub validate_entries : List PartnerFeeEntry → List ValidationError → List ValidationError
validate_entries [] errors = errors
validate_entries (e ∷ es) errors = validate_entries es (
    if_some check_bps e.price_improvement_bps
      (if_some check_bps e.surplus_bps (if_some check_bps e.volume_bps errors)))

unfoldable pub validate_partner_fee : PartnerFee → List ValidationError → List ValidationError
validate_partner_fee fee errors = validate_entries (entries fee) errors

abbrev pub is_known_class : Text → Bool
is_known_class s =
    bytes_eq s (as_bytes "market")
    || bytes_eq s (as_bytes "limit")
    || bytes_eq s (as_bytes "liquidity")
    || bytes_eq s (as_bytes "twap")

unfoldable pub validate_order_class : OrderClassKind → List ValidationError → List ValidationError
validate_order_class kind errors =
    push_if (not (is_known_class (class_as_str kind))) (unknown_order_class (class_as_str kind))
      errors

unfoldable pub validate_replaced_order_uid : Text → List ValidationError → List ValidationError
validate_replaced_order_uid uid errors =
    push_if (not (is_order_uid uid)) (invalid_replaced_order_uid uid) errors

unfoldable pub validate_metadata : Metadata → List ValidationError → List ValidationError
validate_metadata meta errors = if_some validate_replaced_order_uid meta.replaced_order (
    if_some validate_order_class meta.order_class
      (if_some validate_partner_fee meta.partner_fee (if_some validate_hooks meta.hooks errors)))

unfoldable pub validate_constraints : AppDataDoc → List ValidationError → List ValidationError
validate_constraints doc errors =
    validate_metadata doc.metadata (validate_app_code doc.app_code errors)
