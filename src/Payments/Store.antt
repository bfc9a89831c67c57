-- ===== src/Payments/Store.antt =====
-- The tables of payments' database that the modelled code reads and writes, from the row types in
-- services/payments/src. Of the times only those that a decision or an event uses are kept, in
-- milliseconds; a number stands for a correlation id.
use faktureringssystemet.Prelude.{ℕ, String, Option, List}
use faktureringssystemet.Prelude.Int.{ℤ}
use faktureringssystemet.Shared.Text.{Text}
use faktureringssystemet.Shared.Errors.{Result}
use faktureringssystemet.Billing.Store.{InvoiceStatus}

pub data BankTransactionSource : Type 0 where
  bgmax webhook_mockbank : BankTransactionSource

pub data BankTransactionStatus : Type 0 where
  pending matched unmatched manual_review ignored : BankTransactionStatus

pub data UnmatchedReason : Type 0 where
  unknown_bankgiro unknown_ocr overpayment ambiguous : UnmatchedReason

pub record BankTransactionIntake : Type 0 where
  pub source : BankTransactionSource
  pub external_id : Text
  pub bankgiro : Text
  pub ocr : Text
  pub payer_name : Option Text
  pub amount_ore : ℕ
  pub booked_at : ℕ

pub record BankTransactionRow : Type 0 where
  pub id : ℕ
  pub tenant_id : Option ℕ
  pub source : BankTransactionSource
  pub external_id : Text
  pub bankgiro : Text
  pub ocr : Text
  pub payer_name : Option Text
  pub amount_ore : ℕ
  pub booked_at : ℕ
  pub status : BankTransactionStatus
  pub unmatched_reason : Option UnmatchedReason
  pub matched_invoice_id : Option ℕ
  pub ignored_reason : Option Text

pub record StripePaymentRow : Type 0 where
  pub tenant_id : ℕ
  pub invoice_id : ℕ
  pub stripe_session_id : Text
  pub checkout_url : Text
  pub expires_at : ℕ
  pub stripe_event_id : Option Text
  pub amount_ore : ℕ
  pub currency : String
  pub paid_at : Option ℕ

pub data PaymentEventType : Type 0 where
  payment_matched payment_partial : PaymentEventType

-- An event of payments' outbox with its payload. A matched transaction has a tenant.
pub record PaymentEvent : Type 0 where
  pub event_type : PaymentEventType
  pub tenant_id : Option ℕ
  pub correlation_id : ℕ
  pub invoice_id : ℕ
  pub amount_ore : ℕ
  pub payment_id : Text
  pub booked_at : ℕ

-- The metadata of an entry is left out.
pub record PaymentAuditEntry : Type 0 where
  pub tenant_id : ℕ
  pub actor_user_id : ℕ
  pub action : String
  pub resource_id : ℕ
  pub correlation_id : ℕ

pub record PaymentsDb : Type 0 where
  pub transactions : List BankTransactionRow
  pub stripe_payments : List StripePaymentRow
  pub outbox : List PaymentEvent
  pub audit_log : List PaymentAuditEntry
  pub next_transaction_id : ℕ

-- What billing answers about an invoice; `status` is a text there, of the same words.
pub record InvoiceForMatching : Type 0 where
  pub current_invoice_id : ℕ
  pub status : InvoiceStatus
  pub remaining_ore : ℤ
  pub currency : String

-- The calls of billing over the network. Each may fail.
pub record BillingClient : Type 0 where
  pub resolve_tenant_by_bankgiro : Text → ℕ → Result (Option ℕ)
  pub resolve_invoice_by_ocr : ℕ → Text → ℕ → Result (Option InvoiceForMatching)
  pub resolve_invoice_by_id : ℕ → ℕ → ℕ → Result (Option InvoiceForMatching)
