-- ===== src/AppData/Merge/Laws.antt =====
-- What a merge keeps, and what it loses.
use cow_rs.Base.{◌≡◌, refl, Option, none, some, [], ◌∷◌}
use cow_rs.Base.Hex.{Text}
use cow_rs.AppData.Doc.{AppDataDoc}
use cow_rs.AppData.Merge.{or_keep, unless_blank, merge_app_data_doc}

or_keep_assoc {ℓ} :
    {A : Type ℓ} (a b c : Option A) → or_keep c (or_keep b a) ≡ or_keep (or_keep c b) a
or_keep_assoc a b none = refl
or_keep_assoc a b (some c) = refl

unless_blank_assoc :
    (a b c : Text) → unless_blank c (unless_blank b a) ≡ unless_blank (unless_blank c b) a
unless_blank_assoc a b [] = refl
unless_blank_assoc a b (c ∷ cs) = refl

or_keep_self {ℓ} : {A : Type ℓ} (a : Option A) → or_keep a a ≡ a
or_keep_self none = refl
or_keep_self (some a) = refl

unless_blank_self : (a : Text) → unless_blank a a ≡ a
unless_blank_self [] = refl
unless_blank_self (c ∷ cs) = refl

-- What the second document has replaces what the first has, and what it lacks is kept.
abbrev pub Overrides {ℓ} : {A : Type ℓ} → Option A → Option A → Option A → Type ℓ
Overrides (some new) old merged = merged ≡ some new
Overrides none old merged = merged ≡ old

abbrev pub OverridesText : Text → Text → Text → Type 0
OverridesText [] old merged = merged ≡ old
OverridesText (c ∷ cs) old merged = merged ≡ c ∷ cs

or_keep-Overrides {ℓ} : {A : Type ℓ} (new old : Option A) → Overrides new old (or_keep new old)
or_keep-Overrides (some new) old = refl
or_keep-Overrides none old = refl

unless_blank-OverridesText : (new old : Text) → OverridesText new old (unless_blank new old)
unless_blank-OverridesText [] old = refl
unless_blank-OverridesText (c ∷ cs) old = refl

-- Every field of the merged document, from those of the two.
pub record IsMerge (a b merged : AppDataDoc) : Type 0 where
  pub version : OverridesText b.version a.version merged.version
  pub app_code : Overrides b.app_code a.app_code merged.app_code
  pub environment : Overrides b.environment a.environment merged.environment
  pub referrer : Overrides b.metadata.referrer a.metadata.referrer merged.metadata.referrer
  pub utm : Overrides b.metadata.utm a.metadata.utm merged.metadata.utm
  pub quote : Overrides b.metadata.quote a.metadata.quote merged.metadata.quote
  pub order_class :
      Overrides b.metadata.order_class a.metadata.order_class merged.metadata.order_class
  pub hooks : Overrides b.metadata.hooks a.metadata.hooks merged.metadata.hooks
  pub widget : Overrides b.metadata.widget a.metadata.widget merged.metadata.widget
  pub partner_fee :
      Overrides b.metadata.partner_fee a.metadata.partner_fee merged.metadata.partner_fee
  pub replaced_order :
      Overrides b.metadata.replaced_order a.metadata.replaced_order merged.metadata.replaced_order
  pub signer : Overrides b.metadata.signer a.metadata.signer merged.metadata.signer
  pub bridging : merged.metadata.bridging ≡ a.metadata.bridging
  pub flashloan : merged.metadata.flashloan ≡ a.metadata.flashloan
  pub wrappers : merged.metadata.wrappers ≡ a.metadata.wrappers
  pub user_consents : merged.metadata.user_consents ≡ a.metadata.user_consents

merge_app_data_doc-IsMerge : (a b : AppDataDoc) → IsMerge a b (merge_app_data_doc a b)
unfolding merge_app_data_doc
merge_app_data_doc-IsMerge a b = record {
  version = unless_blank-OverridesText b.version a.version;
  app_code = or_keep-Overrides b.app_code a.app_code;
  environment = or_keep-Overrides b.environment a.environment;
  referrer = or_keep-Overrides b.metadata.referrer a.metadata.referrer;
  utm = or_keep-Overrides b.metadata.utm a.metadata.utm;
  quote = or_keep-Overrides b.metadata.quote a.metadata.quote;
  order_class = or_keep-Overrides b.metadata.order_class a.metadata.order_class;
  hooks = or_keep-Overrides b.metadata.hooks a.metadata.hooks;
  widget = or_keep-Overrides b.metadata.widget a.metadata.widget;
  partner_fee = or_keep-Overrides b.metadata.partner_fee a.metadata.partner_fee;
  replaced_order = or_keep-Overrides b.metadata.replaced_order a.metadata.replaced_order;
  signer = or_keep-Overrides b.metadata.signer a.metadata.signer;
  bridging = refl;
  flashloan = refl;
  wrappers = refl;
  user_consents = refl;
}

-- Of the version, the application, the environment and nine fields of the metadata, a merge takes
-- what the second document has and keeps the first document's where the second has none; the bridge,
-- the flash loan, the wrappers and the consents are the first document's, whatever the second has.
-- Merging is associative, and merging a document into itself changes nothing.
pub merge_app_data_doc_laws :
    (a b c : AppDataDoc)
    → IsMerge a b (merge_app_data_doc a b)
      × (merge_app_data_doc (merge_app_data_doc a b) c
          ≡ merge_app_data_doc a (merge_app_data_doc b c))
      × (merge_app_data_doc a a ≡ a)
unfolding merge_app_data_doc
merge_app_data_doc_laws a b c = (
  merge_app_data_doc-IsMerge a b,
  simp (or_keep_assoc, unless_blank_assoc),
  simp (or_keep_self, unless_blank_self),
)
