-- ===== src/Payments.antt =====
-- services/payments/src: incoming payments, from the bank's reports and files to the events that billing
-- books them by.
pub mod Store
pub mod Transactions
pub mod Matching
pub mod Admin
pub mod Stripe
pub mod Books
pub mod Deliveries
pub mod Import
pub mod Settlement
pub mod Samples
mod Tests
