-- ===== src/Billing/Payments.antt =====
-- services/billing/src/payments/service.ts and repository.ts: booking an incoming payment. The time of
-- booking is left out; what is logged as an alarm is part of the outcome.
pub mod Laws
use faktureringssystemet.Prelude.{
  ℕ, Bool, true, false, ◌&&◌, not, Option, none, some, List, [], ◌∷◌, ◌++◌, String, str_eq,
  if◌then◌else◌, ◌==◌, ltb, update_where, count_where,
}
use faktureringssystemet.Prelude.Int.{pos, leb_ℤ, ltb_ℤ}
use faktureringssystemet.Shared.Text.{Text, text_eq}
use faktureringssystemet.Shared.Errors.{Error, Result, ok, err}
use faktureringssystemet.Shared.Tx.{Tx, pure, gets, modify, or_throw, ◌>>=◌, ◌>>◌}
use faktureringssystemet.Billing.Store.{InvoiceStatus, InvoiceRow, PaymentRow, Db}
use faktureringssystemet.Billing.Invoices.Repository.{is_invoice, lock_by_id, paid_ore, with_status}

pub record PaymentApplyUpdate : Type 0 where
  pub event_id : ℕ
  pub tenant_id : ℕ
  pub invoice_id : ℕ
  pub payment_id : Text
  pub amount_ore : ℕ

-- The two alarms that are logged.
pub data Alarm : Type 0 where
  unexpected_status overpaid : Alarm

pub record PaymentApplyOutcome : Type 0 where
  pub applied : Bool
  pub payment_inserted : Bool
  pub invoice_marked_paid : Bool
  pub alarms : List Alarm

-- BOOKABLE_STATUSES
abbrev pub is_bookable : InvoiceStatus → Bool
is_bookable InvoiceStatus.sent = true
is_bookable InvoiceStatus.overdue = true
is_bookable _ = false

-- INSERT … ON CONFLICT DO NOTHING, and whether the row was new.
unfoldable pub mark_processed : ℕ → Tx Db Bool
mark_processed event = do
  there ← gets (λ (db : Db). count_where (λ e. e == event) db.processed_events)
  let fresh = there == 0
  modify (λ db. record db {
    processed_events = if fresh then db.processed_events ++ event ∷ [] else db.processed_events;
  })
  pure fresh

abbrev pub is_payment : ℕ → Text → PaymentRow → Bool
is_payment t p r = r.tenant_id == t && text_eq r.payment_id p

unfoldable pub insert_payment : ℕ → ℕ → Text → ℕ → Tx Db Bool
insert_payment t i payment amount = do
  there ← gets (λ (db : Db). count_where (is_payment t payment) db.payments)
  let fresh = there == 0
  modify (λ db. record db {
    payments =
        if fresh
        then db.payments
          ++ record { tenant_id = t; invoice_id = i; payment_id = payment; amount_ore = amount }
            ∷ []
        else db.payments;
  })
  pure fresh

-- The invoices that `setPaidIfCovered` sets to paid.
abbrev pub is_covered : ℕ → ℕ → ℕ → InvoiceRow → Bool
is_covered t i paid r =
    is_invoice t i r && (is_bookable r.status && leb_ℤ r.total_incl_vat_ore (pos paid))

unfoldable pub set_paid_if_covered : ℕ → ℕ → ℕ → Tx Db ℕ
set_paid_if_covered t i paid = do
  n ← gets (λ (db : Db). count_where (is_covered t i paid) db.invoices)
  modify (λ db. record db {
    invoices = update_where (is_covered t i paid) (with_status InvoiceStatus.paid) db.invoices;
  })
  pure n

abbrev alarm_if : Bool → Alarm → List Alarm
alarm_if true a = a ∷ []
alarm_if false a = []

-- `apply` for an event that is new.
unfoldable pub book : PaymentApplyUpdate → Tx Db PaymentApplyOutcome
book u = do
  invoice ← or_throw (← lock_by_id u.tenant_id u.invoice_id) Error.plain_error
  inserted ← insert_payment u.tenant_id invoice.id u.payment_id u.amount_ore
  paid ← paid_ore u.tenant_id invoice.id
  marked ← set_paid_if_covered u.tenant_id invoice.id paid
  pure (record {
    applied = true;
    payment_inserted = inserted;
    invoice_marked_paid = ltb 0 marked;
    alarms =
        alarm_if (not (is_bookable invoice.status)) Alarm.unexpected_status
        ++ alarm_if (ltb_ℤ invoice.total_incl_vat_ore (pos paid)) Alarm.overpaid;
  })

abbrev pub not_applied : PaymentApplyOutcome
not_applied = record {
  applied = false;
  payment_inserted = false;
  invoice_marked_paid = false;
  alarms = [];
}

unfoldable pub apply : PaymentApplyUpdate → Tx Db PaymentApplyOutcome
apply u = do
  fresh ← mark_processed u.event_id
  let rest = book u
  if fresh then rest else pure not_applied
