-- ===== src/AppData.antt =====
-- crates/app-data: content identifiers of app-data documents and the constraints on a document.
pub mod Base32
pub mod Cid
pub mod Doc
pub mod Merge
pub mod Validation
pub mod Json
mod Tests
