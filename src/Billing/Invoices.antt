-- ===== src/Billing/Invoices.antt =====
-- services/billing/src/invoices: drafts, sending, crediting, reminders and recurring invoices.
pub mod Repository
pub mod Lines
pub mod Service
pub mod Cron
pub mod Templates
pub mod Resolve
pub mod Ledger
pub mod Refinement
mod Tests
