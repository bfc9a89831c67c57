-- ===== src/Billing/Invoices/Cron.antt =====
-- services/billing/src/invoices/services.ts: what the nightly job does with invoices and templates, and
-- the chain that a payment reference leads along.
use faktureringssystemet.Prelude.{
  ℕ, Bool, true, false, ◌&&◌, ◌||◌, not, Option, none, some, List, [], ◌∷◌, or_else, is_some,
  if◌then◌else◌, ◌==◌, select, count_where,
}
use faktureringssystemet.Prelude.Int.{pos, ◌-ℤ◌, leb_ℤ, pos_part}
use faktureringssystemet.Shared.Errors.{Error, Result, ok, err}
use faktureringssystemet.Shared.Tx.{Tx, pure, gets, or_throw, lift, ◌>>=◌, ◌>>◌}
use faktureringssystemet.Billing.Vat.{InvoiceTotals}
use faktureringssystemet.Billing.Dates.{Date, date_ltb, add_days, advance_by_interval}
use faktureringssystemet.Billing.Store.{
  InvoiceType, InvoiceStatus, InvoiceRow, InvoiceItem, CustomerRow, InvoiceTemplateRow,
  CompanySettingsRow, EventPayload, Db, RequestContext,
}
use faktureringssystemet.Billing.Invoices.Repository.{
  InsertInvoiceData, find_customer, insert_invoice, insert_items, lock_by_id, find_items,
  insert_snapshot, paid_ore, find_settings, write_event, write_cron_audit_log, mark_overdue_bulk,
  supersede, lock_template, advance_template_date,
}
use faktureringssystemet.Billing.Invoices.Lines.{
  to_items, totals_of, zero_vat_line, build_snapshot_payload,
}
use faktureringssystemet.Billing.Invoices.Service.{
  is_plain_invoice, allocate_number, Allocated, settings_terms,
}

-- REMINDABLE
abbrev pub is_remindable : InvoiceStatus → Bool
is_remindable InvoiceStatus.sent = true
is_remindable InvoiceStatus.overdue = true
is_remindable _ = false

-- The first three early returns of `createReminderInTx`.
abbrev pub may_remind : InvoiceRow → Bool
may_remind r =
    is_plain_invoice r.invoice_type
    && is_remindable r.status
    && not (is_some r.reminds_invoice_id || is_some r.superseded_by_invoice_id)

-- `{ created, reminderInvoiceId }`, and the same of a generated invoice.
pub data Created : Type 0 where
  not_created : Created
  created : ℕ → Created

abbrev add_first : Result InvoiceItem → Result InvoiceItem → Result (List InvoiceItem)
add_first (ok a) (ok b) = ok (a ∷ b ∷ [])
add_first (ok a) (err e) = err e
add_first (err e) r = err e

abbrev pub reminder_data :
    Date → InvoiceRow → CustomerRow → InvoiceTotals → Allocated → InsertInvoiceData
reminder_data today original customer totals a = record {
  customer_id = original.customer_id;
  invoice_number = some a.number;
  ocr_number = some a.ocr;
  invoice_type = InvoiceType.reminder;
  status = InvoiceStatus.sent;
  date_issued = today;
  date_due = add_days today (or_else customer.payment_terms_days a.settings.payment_terms_days);
  currency = original.currency;
  total_excl_vat_ore = totals.total_excl_vat_ore;
  total_vat_ore = totals.total_vat_ore;
  total_incl_vat_ore = totals.total_incl_vat_ore;
  credits_invoice_id = none;
  reminds_invoice_id = some original.id;
  parent_template_id = none;
}

-- The two lines, without VAT: what remains, and the fee.
unfoldable pub reminder_items : ℕ → ℕ → Result (List InvoiceItem)
reminder_items remaining_ore fee_ore =
    add_first (zero_vat_line 1 "Resterande belopp faktura" remaining_ore)
      (zero_vat_line 2 "Påminnelseavgift" fee_ore)

-- `createReminderInTx` from where the amount that remains is known. The number of the reminded invoice
-- is left out of the first line's description.
unfoldable pub write_reminder : Date → RequestContext → InvoiceRow → ℕ → Tx Db Created
write_reminder today ctx original remaining_ore = do
  customer ← or_throw (← find_customer ctx.tenant_id original.customer_id) Error.bad_request
  a ← allocate_number ctx
  items ← lift (reminder_items remaining_ore a.settings.reminder_fee_ore)
  reminder ←
      insert_invoice ctx.tenant_id (reminder_data today original customer (totals_of items) a)
  insert_items ctx.tenant_id reminder.id items
  supersede ctx.tenant_id original.id reminder.id
  rows ← find_items ctx.tenant_id reminder.id
  insert_snapshot ctx.tenant_id reminder.id
      (build_snapshot_payload reminder rows a.settings customer (some original))
  write_event ctx (EventPayload.invoice_reminder_sent reminder.id original.id)
  write_cron_audit_log ctx "invoice.reminder_created" original.id
  pure (created reminder.id)

-- What remains is positive where a reminder is written, so it is a natural number there.
unfoldable pub remind_unless_paid : Date → RequestContext → InvoiceRow → ℕ → Tx Db Created
remind_unless_paid today ctx original paid =
    let remaining = original.total_incl_vat_ore -ℤ pos paid in
    let rest = write_reminder today ctx original (pos_part remaining) in
    if leb_ℤ remaining (pos 0) then pure not_created else rest

unfoldable pub remind_locked : Date → RequestContext → InvoiceRow → Tx Db Created
remind_locked today ctx original =
    let rest = (do
      paid ← paid_ore ctx.tenant_id original.id
      remind_unless_paid today ctx original paid) in
    if may_remind original then rest else pure not_created

unfoldable pub create_reminder_in_tx : Date → RequestContext → ℕ → Tx Db Created
create_reminder_in_tx today ctx original_id = do
  found ← lock_by_id ctx.tenant_id original_id
  elim found [ none ↦ pure not_created | some original ↦ remind_locked today ctx original ]

-- `listReminderCandidates`: past due, unpaid, a plain invoice, itself no reminder and not yet reminded.
unfoldable pub find_reminder_candidates : ℕ → Date → Tx Db (List InvoiceRow)
find_reminder_candidates t today = gets (λ db.
    select
      (λ (r : InvoiceRow).
        r.tenant_id == t
        && date_ltb r.date_due today
        && is_remindable r.status
        && is_plain_invoice r.invoice_type
        && not (is_some r.reminds_invoice_id)
        && count_where
            (λ (m : InvoiceRow). elim m.reminds_invoice_id [ none ↦ false | some i ↦ i == r.id ])
            db.invoices
          == 0)
      db.invoices)

unfoldable pub mark_overdue : Date → RequestContext → Tx Db ℕ
mark_overdue today ctx = mark_overdue_bulk ctx.tenant_id today

-- A template that is due: active, with a date that is not after today.
abbrev pub is_due : Date → InvoiceTemplateRow → Bool
is_due today t = t.is_active && not (date_ltb today t.next_generation_date)

abbrev pub recurring_data :
    InvoiceTemplateRow
    → CustomerRow
    → Option CompanySettingsRow
    → InvoiceTotals
    → Allocated
    → InsertInvoiceData
recurring_data template customer found totals a = record {
  customer_id = template.customer_id;
  invoice_number = some a.number;
  ocr_number = some a.ocr;
  invoice_type = InvoiceType.invoice;
  status = InvoiceStatus.sent;
  date_issued = template.next_generation_date;
  date_due =
      add_days template.next_generation_date
        (or_else customer.payment_terms_days (or_else (settings_terms found) 30));
  currency = or_else template.currency "SEK";
  total_excl_vat_ore = totals.total_excl_vat_ore;
  total_vat_ore = totals.total_vat_ore;
  total_incl_vat_ore = totals.total_incl_vat_ore;
  credits_invoice_id = none;
  reminds_invoice_id = none;
  parent_template_id = some template.id;
}

unfoldable pub write_recurring : RequestContext → InvoiceTemplateRow → Tx Db Created
write_recurring ctx template = do
  customer ← or_throw (← find_customer ctx.tenant_id template.customer_id) Error.bad_request
  found ← find_settings ctx.tenant_id
  items ← lift (to_items template.lines)
  a ← allocate_number ctx
  invoice ←
      insert_invoice ctx.tenant_id (recurring_data template customer found (totals_of items) a)
  insert_items ctx.tenant_id invoice.id items
  rows ← find_items ctx.tenant_id invoice.id
  insert_snapshot ctx.tenant_id invoice.id
      (build_snapshot_payload invoice rows a.settings customer none)
  write_event ctx (EventPayload.invoice_sent invoice.id)
  write_cron_audit_log ctx "invoice.generated_recurring" invoice.id
  advance_template_date ctx.tenant_id template.id
      (advance_by_interval template.next_generation_date template.interval template.billing_day)
  pure (created invoice.id)

abbrev generate_locked : Date → RequestContext → InvoiceTemplateRow → Tx Db Created
generate_locked today ctx template =
    let rest = write_recurring ctx template in
    if is_due today template then rest else pure not_created

unfoldable pub generate_from_template_in_tx : Date → RequestContext → ℕ → Tx Db Created
generate_from_template_in_tx today ctx template_id = do
  found ← lock_template ctx.tenant_id template_id
  elim found [ none ↦ pure not_created | some template ↦ generate_locked today ctx template ]

-- `listDueTemplates`
unfoldable pub find_due_templates : ℕ → Date → Tx Db (List InvoiceTemplateRow)
find_due_templates t today =
    gets
      (λ db. select (λ (r : InvoiceTemplateRow). r.tenant_id == t && is_due today r) db.templates)
