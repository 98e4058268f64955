-- ===== src/AppData/Doc/Builders.antt =====
-- crates/app-data/src/types.rs: the builders of a document and of its metadata.
use cow_rs.Base.{some, List}
use cow_rs.Base.Hex.{Text}
use cow_rs.AppData.Doc.{
  AppDataDoc, Metadata, Referrer, Utm, Quote, OrderClassKind, OrderInteractionHooks, Widget,
  PartnerFee, Bridging, Flashloan, WrapperEntry, UserConsent,
}

unfoldable pub with_referrer : Metadata → Referrer → Metadata
with_referrer m value = record m { referrer = some value }

unfoldable pub with_utm : Metadata → Utm → Metadata
with_utm m value = record m { utm = some value }

unfoldable pub with_quote : Metadata → Quote → Metadata
with_quote m value = record m { quote = some value }

unfoldable pub with_order_class : Metadata → OrderClassKind → Metadata
with_order_class m value = record m { order_class = some value }

unfoldable pub with_hooks : Metadata → OrderInteractionHooks → Metadata
with_hooks m value = record m { hooks = some value }

unfoldable pub with_widget : Metadata → Widget → Metadata
with_widget m value = record m { widget = some value }

unfoldable pub with_partner_fee : Metadata → PartnerFee → Metadata
with_partner_fee m value = record m { partner_fee = some value }

unfoldable pub with_replaced_order : Metadata → Text → Metadata
with_replaced_order m value = record m { replaced_order = some value }

unfoldable pub with_signer : Metadata → Text → Metadata
with_signer m value = record m { signer = some value }

unfoldable pub with_bridging : Metadata → Bridging → Metadata
with_bridging m value = record m { bridging = some value }

unfoldable pub with_flashloan : Metadata → Flashloan → Metadata
with_flashloan m value = record m { flashloan = some value }

unfoldable pub with_wrappers : Metadata → List WrapperEntry → Metadata
with_wrappers m value = record m { wrappers = some value }

unfoldable pub with_user_consents : Metadata → List UserConsent → Metadata
with_user_consents m value = record m { user_consents = some value }

unfoldable pub doc_with_referrer : AppDataDoc → Referrer → AppDataDoc
doc_with_referrer doc value = record doc { metadata = with_referrer doc.metadata value }

unfoldable pub doc_with_utm : AppDataDoc → Utm → AppDataDoc
doc_with_utm doc value = record doc { metadata = with_utm doc.metadata value }

unfoldable pub doc_with_order_class : AppDataDoc → OrderClassKind → AppDataDoc
doc_with_order_class doc value = record doc { metadata = with_order_class doc.metadata value }

unfoldable pub doc_with_hooks : AppDataDoc → OrderInteractionHooks → AppDataDoc
doc_with_hooks doc value = record doc { metadata = with_hooks doc.metadata value }

unfoldable pub doc_with_partner_fee : AppDataDoc → PartnerFee → AppDataDoc
doc_with_partner_fee doc value = record doc { metadata = with_partner_fee doc.metadata value }

unfoldable pub doc_with_replaced_order : AppDataDoc → Text → AppDataDoc
doc_with_replaced_order doc value = record doc { metadata = with_replaced_order doc.metadata value }

unfoldable pub doc_with_signer : AppDataDoc → Text → AppDataDoc
doc_with_signer doc value = record doc { metadata = with_signer doc.metadata value }

unfoldable pub doc_with_bridging : AppDataDoc → Bridging → AppDataDoc
doc_with_bridging doc value = record doc { metadata = with_bridging doc.metadata value }

unfoldable pub doc_with_flashloan : AppDataDoc → Flashloan → AppDataDoc
doc_with_flashloan doc value = record doc { metadata = with_flashloan doc.metadata value }

unfoldable pub doc_with_wrappers : AppDataDoc → List WrapperEntry → AppDataDoc
doc_with_wrappers doc value = record doc { metadata = with_wrappers doc.metadata value }

unfoldable pub doc_with_user_consents : AppDataDoc → List UserConsent → AppDataDoc
doc_with_user_consents doc value = record doc { metadata = with_user_consents doc.metadata value }

unfoldable pub doc_with_environment : AppDataDoc → Text → AppDataDoc
doc_with_environment doc env = record doc { environment = some env }
