-- ===== src/Payments/Settlement/Tests.antt =====
-- A payment of a concrete invoice, from the bank's report to the invoice that is paid.
use faktureringssystemet.Prelude.{
  ℕ, ◌≡◌, refl, true, some, [], ◌∷◌, arith, if◌then◌else◌, find_first,
}
use faktureringssystemet.Prelude.Int.{pos, ◌≤ℤ◌, ◌-ℤ◌}
use faktureringssystemet.Shared.Text.{codes, to_number}
use faktureringssystemet.Shared.Errors.{ok}
use faktureringssystemet.Shared.Ocr.{is_valid_ocr, luhn_check_digit}
use faktureringssystemet.Shared.SwedishId.{normalize_bankgiro}
use faktureringssystemet.Billing.Store.{InvoiceStatus, InvoiceRow, Db}
use faktureringssystemet.Billing.CompanySettings.{resolve_tenant_by_bankgiro}
use faktureringssystemet.Billing.Invoices.Repository.{
  is_invoice, paid_of, with_status, lock_by_id, paid_ore, sum_payments,
}
use faktureringssystemet.Billing.Invoices.Resolve.{
  resolve_by_ocr, find_by_ocr, resolve_from, resolve_current,
}
use faktureringssystemet.Billing.Payments.{
  apply, is_bookable, mark_processed, book, insert_payment, set_paid_if_covered,
}
use faktureringssystemet.Billing.Samples.{sold, sent_invoice, paid_outcome}
use faktureringssystemet.Payments.Store.{PaymentEvent, PaymentEventType}
use faktureringssystemet.Payments.Matching.{normalized, matched_with, decide_match}
use faktureringssystemet.Payments.Samples.{report, report_event}
use faktureringssystemet.Payments.Settlement.{client_of, update_of}
use faktureringssystemet.Payments.Settlement.Laws.{HasUniqueIds, is_full, matched_then_settled}

abbrev event : PaymentEvent
event = record report_event { invoice_id = 1 }

abbrev settled : Db
settled = record sold {
  invoices = record sent_invoice { status = InvoiceStatus.paid } ∷ [];
  payments =
      record {
        tenant_id = 1;
        invoice_id = 1;
        payment_id = codes "webhook:mockbank:e-1";
        amount_ore = 125000;
      }
      ∷ [];
  processed_events = 41 ∷ [];
}

sold-HasUniqueIds : HasUniqueIds sold
sold-HasUniqueIds t i = ground arith

decision :
    decide_match (client_of sold) (normalized report)
    ≡ ok (matched_with 1 1 PaymentEventType.payment_matched)
unfolding decide_match normalize_bankgiro is_valid_ocr to_number luhn_check_digit
    resolve_tenant_by_bankgiro resolve_by_ocr find_by_ocr resolve_from resolve_current paid_ore
    sum_payments ◌-ℤ◌
decision = refl

booking : apply (update_of 41 event) sold ≡ ok (paid_outcome, settled)
unfolding apply mark_processed book lock_by_id insert_payment paid_ore set_paid_if_covered
    sum_payments
booking = refl

matched_then_settled_example :
    (t : ℕ) × (e : InvoiceRow) × (some 1 ≡ some t)
    × (find_first (is_invoice t 1) sold.invoices ≡ some e)
    × (is_bookable e.status ≡ true)
    × (pos (paid_of t 1 settled) ≤ℤ e.total_incl_vat_ore)
    × (find_first (is_invoice t 1) settled.invoices
        ≡ some (
            if is_full PaymentEventType.payment_matched
            then with_status InvoiceStatus.paid e
            else e))
matched_then_settled_example =
    matched_then_settled sold settled (normalized report)
      (matched_with 1 1 PaymentEventType.payment_matched) event 41 paid_outcome sold-HasUniqueIds
      decision refl booking refl refl
