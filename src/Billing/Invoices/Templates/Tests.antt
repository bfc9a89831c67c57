-- ===== src/Billing/Invoices/Templates/Tests.antt =====
-- A template at concrete inputs: created in May for June, and generated from in June.
use faktureringssystemet.Prelude.{ℕ, ◌≡◌, refl, none}
use faktureringssystemet.Shared.Errors.{ok, err}
use faktureringssystemet.Shared.Ocr.{derive_ocr, luhn_check_digit}
use faktureringssystemet.Shared.Text.{to_decimal, codes}
use faktureringssystemet.Billing.Dates.{Date, RecurrenceInterval, day_of_month}
use faktureringssystemet.Billing.Vat.{compute_line, exact_line_excl_vat, round_half_up}
use faktureringssystemet.Billing.Store.{Db}
use faktureringssystemet.Billing.Samples.{sold, ctx, today, one_line, sender}
use faktureringssystemet.Billing.Invoices.Repository.{
  find_customer, write_audit_log, lock_for_update, bump_invoice_number,
}
use faktureringssystemet.Billing.Invoices.Lines.{to_items}
use faktureringssystemet.Billing.Invoices.Service.{Allocated, allocate_number}
use faktureringssystemet.Billing.Invoices.Cron.{created, generate_from_template_in_tx}
use faktureringssystemet.Billing.Invoices.Templates.{
  CreateInvoiceTemplateInput, template_row, create_template_in_tx,
}
use faktureringssystemet.Billing.Invoices.Templates.Due.{created_generates}

abbrev first_of_june : Date
first_of_june = record { year = 2026; month = 6; day = 1 }

abbrev monthly : CreateInvoiceTemplateInput
monthly = record {
  customer_id = 7;
  interval = RecurrenceInterval.monthly;
  next_generation_date = first_of_june;
  currency = none;
  lines = one_line.lines;
}

abbrev with_template : Db
with_template = elim (create_template_in_tx today ctx monthly sold) [
  | ok (r, db) ↦ db
  | err e ↦ sold
]

abbrev numbered : Db
numbered = elim (allocate_number ctx with_template) [ ok (a, db) ↦ db | err e ↦ sold ]

template_run :
    create_template_in_tx today ctx monthly sold ≡ ok (template_row 1 1 monthly, with_template)
unfolding create_template_in_tx find_customer to_items compute_line exact_line_excl_vat
    round_half_up write_audit_log day_of_month
template_run = refl

abbrev second : Allocated
second = record { number = 2; ocr = codes "232"; settings = sender }

number_run : allocate_number ctx with_template ≡ ok (second, numbered)
unfolding allocate_number lock_for_update bump_invoice_number derive_ocr luhn_check_digit to_decimal
    create_template_in_tx find_customer to_items compute_line exact_line_excl_vat round_half_up
    write_audit_log
number_run = refl

created_generates_example :
    (n : ℕ) × (db3 : Db) × (generate_from_template_in_tx first_of_june ctx 1 with_template
      ≡ ok (created n, db3))
created_generates_example =
    created_generates today first_of_june ctx monthly sold with_template numbered
      (template_row 1 1 monthly) second template_run refl refl refl number_run
