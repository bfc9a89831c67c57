-- ===== src/Billing/Invoices/Refinement/Numbered.antt =====
-- The operations of services/billing/src/invoices/services.ts that add an invoice under a fresh number:
-- crediting, reminding and generating from a template.
use faktureringssystemet.Prelude.{
  ℕ, ◌+◌, ◌≡◌, ◌≢◌, refl, ap, inl, inr, true, some, List, [], ◌∷◌, ◌++◌, arith, find_first,
  update_where, Option-cases, find_first-append, find_first_holds, select,
}
use faktureringssystemet.Shared.Text.{Text}
use faktureringssystemet.Shared.Errors.{ok, Result-cases}
use faktureringssystemet.Shared.Ocr.{derive_ocr}
use faktureringssystemet.Billing.Invoices.Lines.{totals_of, credit_items_from}
use faktureringssystemet.Billing.Dates.{Date}
use faktureringssystemet.Billing.Store.{
  InvoiceStatus, InvoiceRow, InvoiceItem, CustomerRow, Db, RequestContext,
}
use faktureringssystemet.Billing.Invoices.Repository.{
  is_invoice, is_item_of, is_customer, find_customer, InsertInvoiceData, row_of, insert_invoice,
  insert_items, lock_by_id, find_items, with_status, set_status, insert_snapshot,
  settings_or_default, lock_for_update, bump_invoice_number, write_event, write_audit_log,
  write_cron_audit_log, supersede, as_superseded,
}
use faktureringssystemet.Billing.Invoices.Service.{
  Detail, Allocated, allocate_number, is_creditable, credit_data, write_credit, credit_in_tx,
}
use faktureringssystemet.Billing.Invoices.Cron.{
  Created, is_remindable, reminder_data, reminder_items, write_reminder,
}
use faktureringssystemet.Billing.Invoices.Ledger.{
  Ledger, ledger_of, next_number, taken, find, Follows, Step, Steps, by, one_step, Steps-trans,
  issue, move_status,
}
use faktureringssystemet.Billing.Invoices.Refinement.{detail_reads}

pub allocate_effect :
    (ctx : RequestContext) (db db' : Db) (a : Allocated)
    → allocate_number ctx db ≡ ok (a, db')
    → let l = ledger_of db in
      (a.number ≡ next_number ctx.tenant_id l)
      × (derive_ocr (next_number ctx.tenant_id l) ≡ some a.ocr)
      × (a.settings ≡ settings_or_default ctx.tenant_id db.settings)
      × (db' ≡ record db { settings = taken ctx.tenant_id db.settings })
unfolding allocate_number lock_for_update bump_invoice_number
allocate_effect ctx db db' a h = ground arith

-- What the ledger shows of an invoice that is added under a fresh number.
abbrev pub Issued : RequestContext → Db → InsertInvoiceData → Type 0
Issued ctx db x =
    (x.invoice_number ≡ some (next_number ctx.tenant_id (ledger_of db)))
    × (ocr : Text) × (x.ocr_number ≡ some ocr)
    × (derive_ocr (next_number ctx.tenant_id (ledger_of db)) ≡ some ocr)

abbrev pub with_issued : RequestContext → InsertInvoiceData → Ledger → Ledger
with_issued ctx x l = record l {
  rows = l.rows ++ row_of ctx.tenant_id l.next_id x ∷ [];
  settings = taken ctx.tenant_id l.settings;
  next_id = l.next_id + 1;
}

write_credit_effect :
    (today : Date) (ctx : RequestContext) (r : InvoiceRow) (items : List InvoiceItem)
    (c : CustomerRow) (db db' : Db) (d : Detail)
    → write_credit today ctx r items c db ≡ ok (d, db')
    → (x : InsertInvoiceData) × Issued ctx db x
      × (x.status ≡ InvoiceStatus.settled)
      × (ledger_of db' ≡ record (with_issued ctx x (ledger_of db)) {
        rows =
            update_where
              (is_invoice ctx.tenant_id r.id)
              (with_status InvoiceStatus.credited)
              (with_issued ctx x (ledger_of db)).rows;
      })
unfolding write_credit find_items insert_invoice insert_items set_status insert_snapshot write_event
    write_audit_log
write_credit_effect today ctx r items c db db' d h = elim (Result-cases (allocate_number ctx db)) [
  | inl ((a, db1), e) ↦
      let (n, o, s, same) = allocate_effect ctx db db1 a e in
      (
        credit_data today r (totals_of items) a,
        (ap some n, a.ocr, refl, o),
        refl,
        grind (arith, detail_reads),
      )
  | inr (e, bad) ↦ absurd (ground arith)
]

creditable-Follows : (s : InvoiceStatus) → is_creditable s ≡ true → Follows s InvoiceStatus.credited
creditable-Follows InvoiceStatus.sent h = Follows.credit_sent
creditable-Follows InvoiceStatus.overdue h = Follows.credit_overdue
creditable-Follows InvoiceStatus.paid h = Follows.credit_paid
creditable-Follows _ h = absurd (ground arith)

pub remindable-Follows :
    (s : InvoiceStatus) → is_remindable s ≡ true → Follows s InvoiceStatus.superseded
remindable-Follows InvoiceStatus.sent h = Follows.remind_sent
remindable-Follows InvoiceStatus.overdue h = Follows.remind_overdue
remindable-Follows _ h = absurd (ground arith)

pub found_id : (t i : ℕ) (l : Ledger) (r : InvoiceRow) → find t i l ≡ some r → r.id ≡ i
found_id t i l r h = let p = find_first_holds (is_invoice t i) l.rows h in ground arith

-- Adding an invoice under a fresh number is a step.
pub issue-Step :
    (ctx : RequestContext) (db : Db) (x : InsertInvoiceData)
    → Issued ctx db x
    → x.status ≢ InvoiceStatus.draft
    → Step (ledger_of db) ctx.tenant_id (with_issued ctx x (ledger_of db))
issue-Step ctx db x (n, ocr, o, e) s =
    issue (row_of ctx.tenant_id db.next_invoice_id x) ocr refl s n o e

pub find_issued :
    (ctx : RequestContext) (db : Db) (x : InsertInvoiceData) (i : ℕ) (r : InvoiceRow)
    → find ctx.tenant_id i (ledger_of db) ≡ some r
    → find ctx.tenant_id i (with_issued ctx x (ledger_of db)) ≡ some r
find_issued ctx db x i r h = find_first-append (is_invoice ctx.tenant_id i) db.invoices _ h

credit_parts :
    (today : Date) (ctx : RequestContext) (id : ℕ) (db db' : Db) (d : Detail)
    → credit_in_tx today ctx id db ≡ ok (d, db')
    → (r : InvoiceRow) × (items : List InvoiceItem) × (c : CustomerRow) × (find ctx.tenant_id id
          (ledger_of db)
        ≡ some r)
      × (is_creditable r.status ≡ true)
      × (write_credit today ctx r items c db ≡ ok (d, db'))
unfolding credit_in_tx lock_by_id find_items find_customer
credit_parts today ctx id db db' d h = elim (Option-cases (find ctx.tenant_id id (ledger_of db))) [
  | inl missing ↦ absurd (ground arith)
  | inr (r, found) ↦
      elim (Option-cases (find_first (is_customer ctx.tenant_id r.customer_id) db.customers)) [
        | inl missing ↦ absurd (ground arith)
        | inr (c, known) ↦ (
          r,
          credit_items_from 0 (select (is_item_of ctx.tenant_id id) db.items),
          c,
          found,
          ground arith,
          ground arith,
        )
      ]
]

-- A successful credit adds the note under the next number and moves the original to credited.
pub credit_in_tx-Steps :
    (today : Date) (ctx : RequestContext) (id : ℕ) (db db' : Db) (d : Detail)
    → credit_in_tx today ctx id db ≡ ok (d, db')
    → Steps (by ctx.tenant_id) (ledger_of db) (ledger_of db')
credit_in_tx-Steps today ctx id db db' d h =
    let (r, items, c, found, creditable, w) = credit_parts today ctx id db db' d h in
    let (x, issued, settled, same) = write_credit_effect today ctx r items c db db' d w in
    let e : r.id ≡ id = found_id ctx.tenant_id id (ledger_of db) r found in
    rw (same, e)
      (Steps-trans (one_step (issue-Step ctx db x issued (λ p. cc))) (
        one_step (
          move_status ctx.tenant_id id r InvoiceStatus.credited (find_issued ctx db x id r found)
            (creditable-Follows r.status creditable))))

pub write_reminder_effect :
    (today : Date) (ctx : RequestContext) (r : InvoiceRow) (rest : ℕ) (db db' : Db) (o : Created)
    → write_reminder today ctx r rest db ≡ ok (o, db')
    → (x : InsertInvoiceData) × Issued ctx db x
      × (x.status ≡ InvoiceStatus.sent)
      × (ledger_of db' ≡ record (with_issued ctx x (ledger_of db)) {
        rows =
            update_where
              (is_invoice ctx.tenant_id r.id)
              (as_superseded db.next_invoice_id)
              (with_issued ctx x (ledger_of db)).rows;
      })
unfolding write_reminder find_customer find_items insert_invoice insert_items supersede
    insert_snapshot write_event write_cron_audit_log
write_reminder_effect today ctx r rest db db' o h =
    elim (Option-cases (find_first (is_customer ctx.tenant_id r.customer_id) db.customers)) [
      | inl missing ↦ absurd (ground arith)
      | inr (c, known) ↦ elim (Result-cases (allocate_number ctx db)) [
        | inr (e, bad) ↦ absurd (ground arith)
        | inl ((a, db1), e) ↦
            let (n, series, s, same) = allocate_effect ctx db db1 a e in
            elim (Result-cases (reminder_items rest a.settings.reminder_fee_ore)) [
              | inr (e2, bad) ↦ absurd (ground arith)
              | inl (items, ei) ↦ (
                reminder_data today r c (totals_of items) a,
                (ap some n, a.ocr, refl, series),
                refl,
                ground arith,
              )
            ]
      ]
    ]
