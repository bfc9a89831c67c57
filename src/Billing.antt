-- ===== src/Billing.antt =====
-- services/billing.
pub mod Vat
pub mod Dates
pub mod Store
pub mod Invoices
pub mod CompanySettings
pub mod Idempotency
pub mod Payments
pub mod Deliveries
pub mod Automation
pub mod Calls
pub mod Paging
pub mod Customers
pub mod Consumers
pub mod Samples
mod Tests
