-- ===== src/Shared.antt =====
-- packages/shared: the code that the services have in common.
pub mod Text
pub mod Ocr
pub mod Errors
pub mod Tx
pub mod Outbox
pub mod SwedishId
