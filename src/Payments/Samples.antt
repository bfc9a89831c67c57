-- ===== src/Payments/Samples.antt =====
-- Payments, answers of billing and databases that the tests share.
use faktureringssystemet.Prelude.{true, ◌==◌, if◌then◌else◌, none, some, [], ◌∷◌}
use faktureringssystemet.Prelude.Int.{pos}
use faktureringssystemet.Shared.Text.{Text, codes, text_eq}
use faktureringssystemet.Shared.Errors.{Error, ok, err}
use faktureringssystemet.Billing.Store.{InvoiceStatus, RequestContext}
use faktureringssystemet.Payments.Store.{
  BankTransactionSource, BankTransactionStatus, BankTransactionRow, UnmatchedReason,
  StripePaymentRow, PaymentEvent, PaymentEventType, PaymentsDb, InvoiceForMatching, BillingClient,
}
use faktureringssystemet.Payments.Matching.{MatchInput}
use faktureringssystemet.Payments.Books.Steps.{no_payments}
use faktureringssystemet.Payments.Stripe.{Provider, CheckoutSession, StripeCheckoutEvent}
use faktureringssystemet.Payments.Import.{Runtime}

abbrev pub open_invoice : InvoiceForMatching
open_invoice = record {
  current_invoice_id = 7;
  status = InvoiceStatus.sent;
  remaining_ore = pos 125000;
  currency = "SEK";
}

-- Billing knows one bankgiro and one reference.
abbrev pub billing_up : BillingClient
billing_up = record {
  resolve_tenant_by_bankgiro = λ b c. ok (if text_eq b (codes "50501055") then some 1 else none);
  resolve_invoice_by_ocr =
      λ t ocr c. ok (if text_eq ocr (codes "133") then some open_invoice else none);
  resolve_invoice_by_id = λ t i c. ok (if i == 7 then some open_invoice else none);
}

abbrev pub billing_down : BillingClient
billing_down = record {
  resolve_tenant_by_bankgiro = λ b c. err Error.internal_error;
  resolve_invoice_by_ocr = λ t ocr c. err Error.internal_error;
  resolve_invoice_by_id = λ t i c. err Error.internal_error;
}

abbrev pub report : MatchInput
report = record {
  source = BankTransactionSource.webhook_mockbank;
  external_id = codes "e-1";
  bankgiro = codes "5050-1055";
  ocr = codes "133";
  amount_ore = 125000;
  payer_name = none;
  booked_at = 1000;
  correlation_id = 5;
}

abbrev pub pending_report : BankTransactionRow
pending_report = record {
  id = 1;
  tenant_id = none;
  source = BankTransactionSource.webhook_mockbank;
  external_id = codes "e-1";
  bankgiro = codes "50501055";
  ocr = codes "133";
  payer_name = none;
  amount_ore = 125000;
  booked_at = 1000;
  status = BankTransactionStatus.pending;
  unmatched_reason = none;
  matched_invoice_id = none;
  ignored_reason = none;
}

abbrev pub one_pending : PaymentsDb
one_pending = record no_payments { transactions = pending_report ∷ []; next_transaction_id = 2 }

abbrev pub matched_report : BankTransactionRow
matched_report = record pending_report {
  tenant_id = some 1;
  status = BankTransactionStatus.matched;
  matched_invoice_id = some 7;
}

abbrev pub report_event : PaymentEvent
report_event = record {
  event_type = PaymentEventType.payment_matched;
  tenant_id = some 1;
  correlation_id = 5;
  invoice_id = 7;
  amount_ore = 125000;
  payment_id = codes "webhook:mockbank:e-1";
  booked_at = 1000;
}

abbrev pub one_matched : PaymentsDb
one_matched = record one_pending { transactions = matched_report ∷ []; outbox = report_event ∷ [] }

abbrev pub reviewed_report : BankTransactionRow
reviewed_report = record pending_report {
  tenant_id = some 1;
  status = BankTransactionStatus.manual_review;
  unmatched_reason = some UnmatchedReason.unknown_ocr;
}

abbrev pub one_for_review : PaymentsDb
one_for_review = record one_pending { transactions = reviewed_report ∷ [] }

abbrev pub admin : RequestContext
admin = record { user_id = 9; tenant_id = 1; correlation_id = 6 }

abbrev pub session : CheckoutSession
session = record { session_id = codes "cs-1"; url = codes "https://pay/1"; expires_at = 5000 }

abbrev pub provider : Provider
provider = λ a currency t i. ok session

abbrev pub waiting_session : StripePaymentRow
waiting_session = record {
  tenant_id = 1;
  invoice_id = 7;
  stripe_session_id = codes "cs-1";
  checkout_url = codes "https://pay/1";
  expires_at = 5000;
  stripe_event_id = none;
  amount_ore = 125000;
  currency = "SEK";
  paid_at = none;
}

abbrev pub one_session : PaymentsDb
one_session = record no_payments { stripe_payments = waiting_session ∷ [] }

abbrev pub checkout_completed : StripeCheckoutEvent
checkout_completed = record { id = codes "evt-1"; is_completed = true; session_id = codes "cs-1" }

abbrev pub one_paid : PaymentsDb
one_paid = record no_payments {
  stripe_payments =
      record waiting_session { stripe_event_id = some (codes "evt-1"); paid_at = some 2000 } ∷ [];
  outbox =
      record {
        event_type = PaymentEventType.payment_matched;
        tenant_id = some 1;
        correlation_id = 5;
        invoice_id = 7;
        amount_ore = 125000;
        payment_id = codes "stripe:cs-1";
        booked_at = 2000;
      }
      ∷ [];
}

-- A runtime that reads one amount and one date.
abbrev pub runtime : Runtime
runtime = record {
  number = λ s. if text_eq s (codes "125000") then some (pos 125000) else none;
  midnight = λ s. if text_eq s (codes "2026-01-31") then some 1000 else none;
  iso = λ t. codes "2026-01-31T00:00:00.000Z";
  sha256 = λ s. s;
}

abbrev pub file : Text
file = codes "5050-1055|133|125000||2026-01-31|a-1"
