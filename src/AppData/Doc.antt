-- ===== src/AppData/Doc.antt =====
-- crates/app-data/src/types.rs: the app-data document. Texts are their UTF-8 bytes.
pub mod Builders
use cow_rs.Base.{ℕ, Bool, Option, none, some, List, [], ◌∷◌}
use cow_rs.Base.Bytes.{as_bytes}
use cow_rs.Base.Hex.{Text}

pub data OrderClassKind : Type 0 where
  market limit liquidity twap : OrderClassKind

abbrev pub class_as_str : OrderClassKind → Text
class_as_str market = as_bytes "market"
class_as_str limit = as_bytes "limit"
class_as_str liquidity = as_bytes "liquidity"
class_as_str twap = as_bytes "twap"

pub data Referrer : Type 0 where
  address : Text → Referrer
  code : Text → Referrer

unfoldable pub as_address : Referrer → Option Text
as_address (address a) = some a
as_address (code c) = none

unfoldable pub as_code : Referrer → Option Text
as_code (address a) = none
as_code (code c) = some c

pub record Utm : Type 0 where
  pub utm_source : Option Text
  pub utm_medium : Option Text
  pub utm_campaign : Option Text
  pub utm_content : Option Text
  pub utm_term : Option Text

pub record Quote : Type 0 where
  pub slippage_bips : ℕ
  pub smart_slippage : Option Bool

pub record Widget : Type 0 where
  pub app_code : Text
  pub environment : Option Text

pub record PartnerFeeEntry : Type 0 where
  pub volume_bps : Option ℕ
  pub surplus_bps : Option ℕ
  pub price_improvement_bps : Option ℕ
  pub max_volume_bps : Option ℕ
  pub recipient : Text

pub record Bridging : Type 0 where
  pub provider : Text
  pub destination_chain_id : Text
  pub destination_token_address : Text
  pub quote_id : Option Text
  pub quote_signature : Option Text
  pub attestation_signature : Option Text
  pub quote_body : Option Text

pub record Flashloan : Type 0 where
  pub loan_amount : Text
  pub liquidity_provider_address : Text
  pub protocol_adapter_address : Text
  pub receiver_address : Text
  pub token_address : Text

pub record WrapperEntry : Type 0 where
  pub wrapper_address : Text
  pub wrapper_data : Option Text
  pub is_omittable : Option Bool

pub record UserConsent : Type 0 where
  pub terms : Text
  pub accepted_date : Text

pub record CowHook : Type 0 where
  pub target : Text
  pub call_data : Text
  pub gas_limit : Text
  pub dapp_id : Option Text

pub record OrderInteractionHooks : Type 0 where
  pub version : Option Text
  pub pre : Option (List CowHook)
  pub post : Option (List CowHook)

pub data PartnerFee : Type 0 where
  single : PartnerFeeEntry → PartnerFee
  multiple : List PartnerFeeEntry → PartnerFee

unfoldable pub entries : PartnerFee → List PartnerFeeEntry
entries (single e) = e ∷ []
entries (multiple es) = es

find_volume : List PartnerFeeEntry → Option ℕ
find_volume [] = none
find_volume (e ∷ es) = elim e.volume_bps [ some bps ↦ some bps | none ↦ find_volume es ]

-- The first entry with a volume fee.
unfoldable pub get_partner_fee_bps : Option PartnerFee → Option ℕ
unfolding find_volume
get_partner_fee_bps none = none
get_partner_fee_bps (some fee) = find_volume (entries fee)

unfoldable pub volume_fee : ℕ → Text → PartnerFeeEntry
volume_fee volume_bps recipient = record {
  volume_bps = some volume_bps;
  surplus_bps = none;
  price_improvement_bps = none;
  max_volume_bps = none;
  recipient = recipient;
}

unfoldable pub surplus_fee : ℕ → ℕ → Text → PartnerFeeEntry
surplus_fee surplus_bps max_volume_bps recipient = record {
  volume_bps = none;
  surplus_bps = some surplus_bps;
  price_improvement_bps = none;
  max_volume_bps = some max_volume_bps;
  recipient = recipient;
}

unfoldable pub price_improvement_fee : ℕ → ℕ → Text → PartnerFeeEntry
price_improvement_fee price_improvement_bps max_volume_bps recipient = record {
  volume_bps = none;
  surplus_bps = none;
  price_improvement_bps = some price_improvement_bps;
  max_volume_bps = some max_volume_bps;
  recipient = recipient;
}

abbrev pub unless_empty : List CowHook → Option (List CowHook)
unless_empty [] = none
unless_empty (h ∷ hs) = some (h ∷ hs)

unfoldable pub new_hooks : List CowHook → List CowHook → OrderInteractionHooks
new_hooks pre post = record { version = none; pre = unless_empty pre; post = unless_empty post }

-- `OrderClass` and `ReplacedOrder` wrap one field each, the kind and the UID.
pub record Metadata : Type 0 where
  pub referrer : Option Referrer
  pub utm : Option Utm
  pub quote : Option Quote
  pub order_class : Option OrderClassKind
  pub hooks : Option OrderInteractionHooks
  pub widget : Option Widget
  pub partner_fee : Option PartnerFee
  pub replaced_order : Option Text
  pub signer : Option Text
  pub bridging : Option Bridging
  pub flashloan : Option Flashloan
  pub wrappers : Option (List WrapperEntry)
  pub user_consents : Option (List UserConsent)

abbrev pub no_metadata : Metadata
no_metadata = record {
  referrer = none;
  utm = none;
  quote = none;
  order_class = none;
  hooks = none;
  widget = none;
  partner_fee = none;
  replaced_order = none;
  signer = none;
  bridging = none;
  flashloan = none;
  wrappers = none;
  user_consents = none;
}

pub record AppDataDoc : Type 0 where
  pub version : Text
  pub app_code : Option Text
  pub environment : Option Text
  pub metadata : Metadata

abbrev pub latest_app_data_version : Text
latest_app_data_version = as_bytes "1.14.0"

unfoldable pub new_doc : Text → AppDataDoc
new_doc app_code = record {
  version = latest_app_data_version;
  app_code = some app_code;
  environment = none;
  metadata = no_metadata;
}
