-- ===== src/Billing/Invoices/Tests.antt =====
-- Runs of services/billing/src/invoices and of the nightly job on a small database.
use faktureringssystemet.Prelude.{◌+◌, ◌≡◌, ◌⊎◌, refl, none, some, [], ◌∷◌, update_where, true}
use faktureringssystemet.Prelude.Int.{pos, ◌-ℤ◌, neg, ◌+ℤ◌}
use faktureringssystemet.Shared.Text.{Text, codes, to_decimal}
use faktureringssystemet.Shared.Errors.{ok}
use faktureringssystemet.Shared.Tx.{begin}
use faktureringssystemet.Shared.SwedishId.{
  is_valid_bankgiro, is_valid_org_number, luhn, normalize_bankgiro,
}
use faktureringssystemet.Shared.Ocr.{derive_ocr, luhn_check_digit, luhn_loop}
use faktureringssystemet.Billing.Dates.{
  Date, RecurrenceInterval, add_days, next_day, days_in_month, is_leap,
}
use faktureringssystemet.Billing.Vat.{
  VatRate, compute_line, exact_line_excl_vat, round_half_up, sum_totals,
}
use faktureringssystemet.Billing.Store.{
  InvoiceStatus, InvoiceTemplateRow, CompanySettingsRow, InvoiceRow, InvoiceItemRow, Db,
}
use faktureringssystemet.Billing.Invoices.Repository.{
  is_invoice, as_sent, find_customer, insert_invoice, insert_items, lock_by_id, find_by_id,
  find_items, mark_sent, insert_snapshot, paid_ore, sum_payments, supersede, lock_for_update,
  bump_invoice_number, write_event, write_audit_log, write_cron_audit_log,
}
use faktureringssystemet.Billing.Invoices.Lines.{zero_vat_line}
use faktureringssystemet.Billing.Invoices.Service.{Detail, detail, allocate_number, send_in_tx}
use faktureringssystemet.Billing.Invoices.Cron.{
  not_created, created, reminder_items, write_reminder, remind_unless_paid, remind_locked,
  create_reminder_in_tx, generate_from_template_in_tx,
}
use faktureringssystemet.Billing.Invoices.Ledger.{ledger_of, next_number, taken, find}
use faktureringssystemet.Billing.Invoices.Refinement.{send_effect}
use faktureringssystemet.Billing.Invoices.Refinement.Nightly.{remind_once}
use faktureringssystemet.Billing.CompanySettings.{resolve_tenant_by_bankgiro, lazy_get, update_row}
use faktureringssystemet.Billing.CompanySettings as CompanySettings
use faktureringssystemet.Billing.CompanySettings.Laws.{update_resolves}
use faktureringssystemet.Billing.Automation.{Run, catch_up, empty_summary}
use faktureringssystemet.Billing.Automation.Laws.{catch_up_ends}
use faktureringssystemet.Billing.Calls.{send, configure, handle}
use faktureringssystemet.Billing.Samples.{
  ctx, today, drafted, sold, sent_invoice, empty, own_details, sender,
}

abbrev sent_invoice2 : InvoiceRow
sent_invoice2 = as_sent 2 (codes "232") sent_invoice

abbrev sent_detail : Detail
sent_detail = record { row = sent_invoice2; lines = []; paid = 0; remaining = pos 125000 }

abbrev after_send : Db
after_send = handle (send ctx 1) drafted

send_run : send_in_tx ctx 1 drafted ≡ ok (sent_detail, after_send)
unfolding handle send_in_tx lock_by_id find_customer find_items lock_for_update bump_invoice_number
    mark_sent insert_snapshot write_event write_audit_log detail find_by_id paid_ore sum_payments
    derive_ocr to_decimal luhn_check_digit ◌-ℤ◌ ◌+ℤ◌ neg
send_run = refl

send_effect_example :
    let l = ledger_of drafted in
    (r : InvoiceRow) × (ocr : Text) × (find 1 1 l ≡ some r)
    × (r.status ≡ InvoiceStatus.draft)
    × (derive_ocr (next_number 1 l) ≡ some ocr)
    × (ledger_of after_send ≡ record l {
      rows = update_where (is_invoice 1 1) (as_sent (next_number 1 l) ocr) l.rows;
      settings = taken 1 l.settings;
    })
send_effect_example = send_effect ctx 1 drafted after_send sent_detail send_run

abbrev late : Date
late = record { year = 2026; month = 6; day = 20 }

abbrev reminded : Db
reminded = (begin (create_reminder_in_tx late ctx 1) sold).1

reminder_run : create_reminder_in_tx late ctx 1 sold ≡ ok (created 2, reminded)
unfolding create_reminder_in_tx lock_by_id remind_locked paid_ore sum_payments remind_unless_paid
    write_reminder find_customer find_items allocate_number lock_for_update bump_invoice_number
    derive_ocr to_decimal luhn_check_digit reminder_items zero_vat_line compute_line
    exact_line_excl_vat round_half_up sum_totals add_days next_day days_in_month is_leap
    insert_invoice insert_items supersede insert_snapshot write_event write_cron_audit_log ◌-ℤ◌ ◌+ℤ◌
    neg
reminder_run = refl

remind_once_example : create_reminder_in_tx late ctx 1 reminded ≡ ok (not_created, reminded)
remind_once_example = remind_once late late ctx ctx 1 2 sold reminded refl reminder_run

-- A template of a customer with a date long past.
abbrev monthly_template : InvoiceTemplateRow
monthly_template = record {
  id = 1;
  tenant_id = 1;
  customer_id = 7;
  interval = RecurrenceInterval.monthly;
  next_generation_date = record { year = 2026; month = 4; day = 1 };
  billing_day = 1;
  is_active = true;
  currency = none;
  lines = [];
}

abbrev start : Run
start = record { db = record sold { templates = monthly_template ∷ [] }; summary = empty_summary 1 }

catch_up_ends_example :
    let r = catch_up 36 today ctx 1 start in
    (generate_from_template_in_tx today ctx 1 r.db ≡ ok (not_created, r.db))
    ⊎ ((r.summary.errors ≡ 0 + 1) ⊎ (r.summary.recurring_generated ≡ 0 + 36))
catch_up_ends_example = catch_up_ends 36 today ctx 1 start

abbrev configured : Db
configured = handle (configure ctx own_details) empty

abbrev new_sender : CompanySettingsRow
new_sender = record sender { next_invoice_number = 1 }

configure_run : CompanySettings.update ctx own_details empty ≡ ok (new_sender, configured)
unfolding handle CompanySettings.update lazy_get update_row write_audit_log is_valid_bankgiro
    is_valid_org_number luhn luhn_loop normalize_bankgiro
configure_run = refl

update_resolves_example :
    resolve_tenant_by_bankgiro (codes "5050-1055") configured ≡ ok (1, configured)
update_resolves_example =
    update_resolves ctx own_details (codes "5050-1055") empty configured new_sender configure_run
      refl

abbrev sold_line : InvoiceItemRow
sold_line = record {
  invoice_id = 1;
  tenant_id = 1;
  item = record {
    position = 1;
    description = "Konsulttid";
    quantity = pos 2000;
    unit = "st";
    unit_price_ore = 50000;
    vat_rate = VatRate.rate_25;
    line_excl_vat_ore = pos 100000;
    line_vat_ore = pos 25000;
    line_incl_vat_ore = pos 125000;
  };
}
