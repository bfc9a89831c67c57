-- ===== src/Billing/Tests.antt =====
-- What calls do to a small database of billing.
use faktureringssystemet.Prelude.{
  ◌≡◌, refl, true, ℕ, zero, suc, inl, ◌==◌, ◌&&◌, some, arith, ltb, leb, find_first, count_where,
  ◌+◌, if◌then◌else◌, select, [], ◌∷◌,
}
use faktureringssystemet.Prelude.Int.{pos, leb_ℤ}
use faktureringssystemet.Prelude.Rows.{as_count}
use faktureringssystemet.Shared.Errors.{Error, ok, err}
use faktureringssystemet.Shared.Text.{codes, text_eq}
use faktureringssystemet.Shared.Tx.{Tx}
use faktureringssystemet.Billing.Store.{InvoiceStatus, DeliveryStatus, InvoiceRow, Db}
use faktureringssystemet.Billing.Invoices.Repository.{
  settings_or_default, is_invoice, lock_by_id, paid_ore, paid_of, sum_payments, with_status,
  is_settings_of,
}
use faktureringssystemet.Billing.Invoices.Templates.{remove_template}
use faktureringssystemet.Billing.Invoices.Repository.{write_audit_log}
use faktureringssystemet.Billing.Invoices.Ledger.{ledger_of, Steps}
use faktureringssystemet.Billing.Invoices.Ledger.Series.{has_number}
use faktureringssystemet.Billing.Payments.{
  PaymentApplyUpdate, PaymentApplyOutcome, is_bookable, mark_processed, book, insert_payment,
  set_paid_if_covered, not_applied,
}
use faktureringssystemet.Billing.Payments as Payments
use faktureringssystemet.Billing.Payments.Laws.{apply_settles, apply_payment_twice}
use faktureringssystemet.Billing.Deliveries.{
  BounceType, DeliveryUpdate, DeliveryOutcome, not_reported, apply_report, advance_delivery_status,
  invalidate_on_hard_bounce,
}
use faktureringssystemet.Billing.Deliveries as Deliveries
use faktureringssystemet.Billing.Deliveries.Laws.{apply_moves, reported}
use faktureringssystemet.Billing.Invoices.Resolve.{resolve_by_ocr, resolved_as}
use faktureringssystemet.Billing.Invoices.Resolve.Laws.{Chain, IsEnd, resolve_by_ocr_ends}
use faktureringssystemet.Billing.Consumers.{deliver, on_message, valid, acked}
use faktureringssystemet.Billing.Consumers.Laws.{delivered}
use faktureringssystemet.Billing.Calls.{handle, handle_all, is_for_any, drop_template}
use faktureringssystemet.Billing.Calls.Laws.{
  numbers_unbroken, sent_is_kept, handle_all-Steps, tenants_apart,
}
use faktureringssystemet.Billing.Invoices.Ledger.Frozen.{Keeps}
use faktureringssystemet.Billing.Samples.{
  empty, calls, sent_invoice, sold, whole_payment, paid_outcome, paid_up, bounced, bounce_outcome,
  returned, ctx, generated_invoice, subscribed, ending_calls,
}
use faktureringssystemet.Billing.Invoices.Ledger.Tenants.{is_of, HasOwn}

numbers_unbroken_example :
    count_where (has_number 1 1) (handle_all calls empty).invoices
    ≡ as_count (
        leb 1 1
        && ltb 1 (settings_or_default 1 (handle_all calls empty).settings).next_invoice_number)
numbers_unbroken_example = numbers_unbroken calls empty 1 1 refl tt

handle_all-Steps_example :
    Steps (is_for_any calls) (ledger_of empty) (ledger_of (handle_all calls empty))
handle_all-Steps_example = handle_all-Steps calls empty

sent_is_kept_example :
    (r' : InvoiceRow) × (find_first (is_invoice 1 1) (handle_all ending_calls subscribed).invoices
      ≡ some r')
    × Keeps generated_invoice r'
sent_is_kept_example =
    sent_is_kept ending_calls subscribed 1 1 generated_invoice refl (λ e. ground arith)

template_forgotten : (handle (drop_template ctx 1) subscribed).invoices ≡ sent_invoice ∷ []
unfolding handle remove_template write_audit_log
template_forgotten = refl

payment_run : Payments.apply whole_payment sold ≡ ok (paid_outcome, paid_up)
unfolding Payments.apply mark_processed book lock_by_id insert_payment paid_ore set_paid_if_covered
    sum_payments
payment_run = refl

apply_settles_example :
    (r : InvoiceRow) × (find_first (is_invoice 1 1) sold.invoices ≡ some r)
    × (paid_of 1 1 paid_up
        ≡ paid_of 1 1 sold
          + (if count_where
                  (λ p. p.tenant_id == 1 && text_eq p.payment_id whole_payment.payment_id)
                  sold.payments
                == 0
              then 125000
              else 0))
    × (paid_outcome.payment_inserted ≡ (
        count_where
          (λ p. p.tenant_id == 1 && text_eq p.payment_id whole_payment.payment_id)
          sold.payments
        == 0))
    × (find_first (is_invoice 1 1) paid_up.invoices
        ≡ some (
            if is_bookable r.status && leb_ℤ r.total_incl_vat_ore (pos (paid_of 1 1 paid_up))
            then with_status InvoiceStatus.paid r
            else r))
apply_settles_example = apply_settles whole_payment sold paid_up paid_outcome payment_run refl

apply_payment_twice_example : Payments.apply whole_payment paid_up ≡ ok (not_applied, paid_up)
apply_payment_twice_example =
    apply_payment_twice whole_payment sold paid_up paid_outcome payment_run

bounce_run : Deliveries.apply bounced sold ≡ ok (bounce_outcome, returned)
unfolding Deliveries.apply mark_processed apply_report advance_delivery_status
    invalidate_on_hard_bounce
bounce_run = refl

apply_moves_example :
    find_first (is_invoice 1 1) returned.invoices
    ≡ some (reported DeliveryStatus.bounced sent_invoice)
apply_moves_example =
    apply_moves bounced sold returned bounce_outcome sent_invoice bounce_run refl refl

resolve_by_ocr_ends_example :
    (e : InvoiceRow) × (resolve_by_ocr 1 (codes "133") sold
      ≡ ok (resolved_as e (paid_of 1 e.id sold), sold))
    × Chain 1 sold sent_invoice e
    × IsEnd 1 sold sent_invoice e
resolve_by_ocr_ends_example = resolve_by_ocr_ends 1 (codes "133") sold sent_invoice refl

-- A booking whose first delivery meets a fault that passes.
abbrev faulty : ℕ → PaymentApplyUpdate → Tx Db PaymentApplyOutcome
faulty zero u db = err Error.plain_error
faulty (suc n) u db = Payments.apply u db

faulty_run : delivered faulty (λ n db. db) (λ n. true) (valid whole_payment) sold ≡ (acked, paid_up)
unfolding deliver on_message Payments.apply mark_processed book lock_by_id insert_payment paid_ore
    set_paid_if_covered sum_payments
faulty_run = refl

-- Another tenant's invoice beside the one of `subscribed`.
abbrev shared : Db
shared = record subscribed {
  invoices = generated_invoice ∷ record sent_invoice { id = 5; tenant_id = 2 } ∷ [];
}

shared-HasOwn : HasOwn 2 (ledger_of shared)
shared-HasOwn = λ i. inl refl

tenants_apart_example :
    (select (is_of 2) (handle_all ending_calls shared).invoices
      ≡ record sent_invoice { id = 5; tenant_id = 2 } ∷ [])
    × (select (is_settings_of 2) (handle_all ending_calls shared).settings ≡ [])
    × HasOwn 2 (ledger_of (handle_all ending_calls shared))
tenants_apart_example = tenants_apart ending_calls shared 2 refl shared-HasOwn
