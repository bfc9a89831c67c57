-- ===== src/Apps.antt =====
-- The web applications of apps/.
pub mod OffsetList
pub mod LiveVat
mod Tests
