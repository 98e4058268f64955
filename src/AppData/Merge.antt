-- ===== src/AppData/Merge.antt =====
-- crates/app-data/src/hash.rs, `merge_app_data_doc`.
pub mod Laws
use cow_rs.Base.{Bool, Option, none, some, List, [], ◌∷◌}
use cow_rs.Base.Hex.{Text}
use cow_rs.AppData.Doc.{AppDataDoc, Metadata}

-- `if other.is_some() { base = other }`, and the same for a text that is not empty.
abbrev pub or_keep {ℓ} : {A : Type ℓ} → Option A → Option A → Option A
or_keep (some a) base = some a
or_keep none base = base

abbrev pub unless_blank : Text → Text → Text
unless_blank [] base = base
unless_blank (c ∷ cs) base = c ∷ cs

unfoldable pub merge_metadata : Metadata → Metadata → Metadata
merge_metadata base om = record base {
  referrer = or_keep om.referrer base.referrer;
  utm = or_keep om.utm base.utm;
  quote = or_keep om.quote base.quote;
  order_class = or_keep om.order_class base.order_class;
  hooks = or_keep om.hooks base.hooks;
  widget = or_keep om.widget base.widget;
  partner_fee = or_keep om.partner_fee base.partner_fee;
  replaced_order = or_keep om.replaced_order base.replaced_order;
  signer = or_keep om.signer base.signer;
}

unfoldable pub merge_app_data_doc : AppDataDoc → AppDataDoc → AppDataDoc
unfolding merge_metadata
merge_app_data_doc base other = record {
  version = unless_blank other.version base.version;
  app_code = or_keep other.app_code base.app_code;
  environment = or_keep other.environment base.environment;
  metadata = merge_metadata base.metadata other.metadata;
}
