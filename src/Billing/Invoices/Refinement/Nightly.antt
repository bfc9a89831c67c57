-- ===== src/Billing/Invoices/Refinement/Nightly.antt =====
-- The nightly job's operations of services/billing/src/invoices/services.ts as steps of the ledger.
use faktureringssystemet.Prelude.{
  ℕ, ◌≡◌, refl, ap, inl, inr, Bool, List, map, true, false, ◌⊎◌, some, arith, find_first,
  update_where, Option-cases, Bool-cases, find_first_holds, ◌∙◌, if◌then◌else◌,
}
use faktureringssystemet.Prelude.Int.{pos, pos_part, ◌-ℤ◌, leb_ℤ}
use faktureringssystemet.Prelude.Rows.{find_updated}
use faktureringssystemet.Shared.Errors.{ok, Result-cases}
use faktureringssystemet.Billing.Invoices.Lines.{to_items, totals_of}
use faktureringssystemet.Billing.Dates.{Date}
use faktureringssystemet.Billing.Store.{
  InvoiceStatus, InvoiceRow, InvoiceTemplateRow, Db, RequestContext,
}
use faktureringssystemet.Billing.Invoices.Repository.{
  is_settings_of, is_customer, find_customer, InsertInvoiceData, insert_invoice, insert_items,
  lock_by_id, find_items, insert_snapshot, find_settings, write_event, write_cron_audit_log,
  paid_ore, lock_template, advance_template_date, with_next_date, mark_overdue_bulk, is_template,
  is_past_due, with_status, paid_of, is_invoice, as_superseded,
}
use faktureringssystemet.Billing.Invoices.Service.{allocate_number}
use faktureringssystemet.Billing.Invoices.Cron.{
  Created, not_created, created, is_remindable, may_remind, write_reminder, remind_unless_paid,
  remind_locked, create_reminder_in_tx, recurring_data, write_recurring,
  generate_from_template_in_tx, mark_overdue, is_due,
}
use faktureringssystemet.Billing.Invoices.Ledger.{
  Ledger, ledger_of, owner_of, owners_kept, find, Step, Steps, by, done, one_step, Steps-trans,
  replace_by, fall_due,
}
use faktureringssystemet.Billing.Invoices.Refinement.Numbered.{
  allocate_effect, Issued, with_issued, issue-Step, find_issued, found_id, remindable-Follows,
  write_reminder_effect,
}

-- A call that answers `created` went all the way; any other left the database alone.
pub reminder_parts :
    (today : Date) (ctx : RequestContext) (id : ℕ) (db db' : Db) (o : Created)
    → create_reminder_in_tx today ctx id db ≡ ok (o, db')
    → ((db' ≡ db) × (o ≡ not_created))
      ⊎ ((r : InvoiceRow) × (rest : ℕ) × (find ctx.tenant_id id (ledger_of db) ≡ some r)
          × (may_remind r ≡ true)
          × (write_reminder today ctx r rest db ≡ ok (o, db')))
unfolding create_reminder_in_tx lock_by_id remind_locked paid_ore remind_unless_paid
reminder_parts today ctx id db db' o h =
    elim (Option-cases (find ctx.tenant_id id (ledger_of db))) [
      | inl missing ↦ inl (ground arith, ground arith)
      | inr (r, found) ↦ elim (Bool-cases (may_remind r)) [
        | inr refused ↦ inl (ground arith, ground arith)
        | inl may ↦
            elim (Bool-cases
              (leb_ℤ (r.total_incl_vat_ore -ℤ pos (paid_of ctx.tenant_id r.id db)) (pos 0))) [
                | inl settled ↦ inl (ground arith, ground arith)
                | inr open_ ↦ inr (
                  r,
                  pos_part (r.total_incl_vat_ore -ℤ pos (paid_of ctx.tenant_id r.id db)),
                  found,
                  may,
                  ground arith,
                )
              ]
      ]
    ]

may_remind_status : (r : InvoiceRow) → may_remind r ≡ true → is_remindable r.status ≡ true
may_remind_status r h = ground arith

-- A reminder that is created is a fresh invoice, and its original is superseded by it.
pub create_reminder_in_tx-Steps :
    (today : Date) (ctx : RequestContext) (id : ℕ) (db db' : Db) (o : Created)
    → create_reminder_in_tx today ctx id db ≡ ok (o, db')
    → Steps (by ctx.tenant_id) (ledger_of db) (ledger_of db')
create_reminder_in_tx-Steps today ctx id db db' o h =
    elim (reminder_parts today ctx id db db' o h) [
      | inl (same, none_) ↦ rw same done
      | inr (r, rest, found, may, w) ↦
          let (x, issued, sent, same) = write_reminder_effect today ctx r rest db db' o w in
          let e : r.id ≡ id = found_id ctx.tenant_id id (ledger_of db) r found in
          rw (same, e)
            (Steps-trans (one_step (issue-Step ctx db x issued (λ p. cc))) (
              one_step (
                replace_by ctx.tenant_id id db.next_invoice_id r (find_issued ctx db x id r found)
                  (remindable-Follows r.status (may_remind_status r may)))))
    ]

owners-next_date :
    (p : InvoiceTemplateRow → Bool) (d : Date) (ts : List InvoiceTemplateRow)
    → map owner_of (update_where p (with_next_date d) ts) ≡ map owner_of ts
owners-next_date p d ts = owners_kept p (with_next_date d) ts (λ t. refl)

write_recurring_effect :
    (ctx : RequestContext) (t : InvoiceTemplateRow) (db db' : Db) (o : Created)
    → write_recurring ctx t db ≡ ok (o, db')
    → (x : InsertInvoiceData) × Issued ctx db x
      × (x.status ≡ InvoiceStatus.sent)
      × (ledger_of db' ≡ with_issued ctx x (ledger_of db))
unfolding write_recurring find_customer find_settings find_items insert_invoice insert_items
    insert_snapshot write_event write_cron_audit_log advance_template_date
write_recurring_effect ctx t db db' o h =
    elim (Option-cases (find_first (is_customer ctx.tenant_id t.customer_id) db.customers)) [
      | inl missing ↦ absurd (ground arith)
      | inr (c, known) ↦ elim (Result-cases (to_items t.lines)) [
        | inr (e, bad) ↦ absurd (ground arith)
        | inl (items, ei) ↦ elim (Result-cases (allocate_number ctx db)) [
          | inr (e, bad) ↦ absurd (ground arith)
          | inl ((a, db1), e) ↦
              let (n, series, s, same) = allocate_effect ctx db db1 a e in
              (
                recurring_data t c (find_first (is_settings_of ctx.tenant_id) db.settings)
                    (totals_of items) a,
                (ap some n, a.ocr, refl, series),
                refl,
                grind (arith, owners-next_date),
              )
        ]
      ]
    ]

-- Generating from a template adds one fresh invoice, or does nothing.
pub generate_from_template_in_tx-Steps :
    (today : Date) (ctx : RequestContext) (id : ℕ) (db db' : Db) (o : Created)
    → generate_from_template_in_tx today ctx id db ≡ ok (o, db')
    → Steps (by ctx.tenant_id) (ledger_of db) (ledger_of db')
unfolding generate_from_template_in_tx lock_template
generate_from_template_in_tx-Steps today ctx id db db' o h =
    elim (Option-cases (find_first (is_template ctx.tenant_id id) db.templates)) [
      | inl missing ↦ let same : db' ≡ db = ground arith in rw same done
      | inr (t, found) ↦ elim (Bool-cases (is_due today t)) [
        | inr early ↦ let same : db' ≡ db = ground arith in rw same done
        | inl due ↦
            let (x, issued, sent, same) = write_recurring_effect ctx t db db' o (ground arith) in
            rw same (one_step (issue-Step ctx db x issued (λ p. cc)))
      ]
    ]

pub write_recurring_creates :
    (ctx : RequestContext) (t : InvoiceTemplateRow) (db db' : Db) (o : Created)
    → write_recurring ctx t db ≡ ok (o, db')
    → o ≡ created db.next_invoice_id
unfolding write_recurring find_customer find_settings find_items insert_invoice insert_items
    insert_snapshot write_event write_cron_audit_log advance_template_date
write_recurring_creates ctx t db db' o h =
    elim (Option-cases (find_first (is_customer ctx.tenant_id t.customer_id) db.customers)) [
      | inl missing ↦ absurd (ground arith)
      | inr (c, known) ↦ elim (Result-cases (to_items t.lines)) [
        | inr (e, bad) ↦ absurd (ground arith)
        | inl (items, ei) ↦ elim (Result-cases (allocate_number ctx db)) [
          | inr (e, bad) ↦ absurd (ground arith)
          | inl ((a, db1), e) ↦
              let (n, series, s, same) = allocate_effect ctx db db1 a e in ground arith
        ]
      ]
    ]

-- A template that generates nothing leaves the database alone.
pub generate_idle :
    (today : Date) (ctx : RequestContext) (id : ℕ) (db db' : Db)
    → generate_from_template_in_tx today ctx id db ≡ ok (not_created, db')
    → db' ≡ db
unfolding generate_from_template_in_tx lock_template
generate_idle today ctx id db db' h =
    elim (Option-cases (find_first (is_template ctx.tenant_id id) db.templates)) [
      | inl missing ↦ ground arith
      | inr (t, found) ↦ elim (Bool-cases (is_due today t)) [
        | inr early ↦ ground arith
        | inl due ↦
            let c = write_recurring_creates ctx t db db' not_created (ground arith) in
            absurd (ground arith)
      ]
    ]

-- Marking what is past due is a step.
pub mark_overdue-Step :
    (today : Date) (ctx : RequestContext) (db db' : Db) (n : ℕ)
    → mark_overdue today ctx db ≡ ok (n, db')
    → Step (ledger_of db) ctx.tenant_id (ledger_of db')
unfolding mark_overdue mark_overdue_bulk
mark_overdue-Step today ctx db db' n h =
    let same : ledger_of db' ≡ record (ledger_of db) {
      rows =
          update_where (is_past_due ctx.tenant_id today) (with_status InvoiceStatus.overdue)
            db.invoices;
    } =
      ground arith in
    rw same (fall_due ctx.tenant_id today)

superseded_found :
    (t i j by : ℕ) (l : Ledger) (r : InvoiceRow)
    → j ≡ i
    → find t i l ≡ some r
    → find_first (is_invoice t i) (update_where (is_invoice t j) (as_superseded by) l.rows)
      ≡ some (as_superseded by r)
superseded_found t i j by l r e h =
    let q = find_first_holds (is_invoice t i) l.rows h in
    let k : is_invoice t j r ≡ true = rw e q in
    find_updated (is_invoice t i) (is_invoice t j) (as_superseded by) l.rows (λ x. refl) h
    ∙ ap (λ b. some (if b then as_superseded by r else r)) k

superseded_is_final :
    (today : Date) (ctx : RequestContext) (id by : ℕ) (db : Db) (r : InvoiceRow)
    → find ctx.tenant_id id (ledger_of db) ≡ some (as_superseded by r)
    → create_reminder_in_tx today ctx id db ≡ ok (not_created, db)
unfolding create_reminder_in_tx lock_by_id remind_locked
superseded_is_final today ctx id by db r h =
    let refused : may_remind (as_superseded by r) ≡ false = ground arith in ground arith

-- Where a reminder was created, no second one is: the call answers that none was created and leaves the
-- database alone, on any day and by any caller of the tenant.
pub remind_once :
    (today later : Date) (ctx ctx' : RequestContext) (id n : ℕ) (db db' : Db)
    → ctx'.tenant_id ≡ ctx.tenant_id
    → create_reminder_in_tx today ctx id db ≡ ok (created n, db')
    → create_reminder_in_tx later ctx' id db' ≡ ok (not_created, db')
unfolding create_reminder_in_tx lock_by_id remind_locked
remind_once today later ctx ctx' id n db db' tenant h =
    elim (reminder_parts today ctx id db db' (created n) h) [
      | inl (same, none_) ↦ absurd (ground arith)
      | inr (r, rest, found, may, w) ↦
          let (x, issued, sent, same) =
            write_reminder_effect today ctx r rest db db' (created n) w in
          let e : r.id ≡ id = found_id ctx.tenant_id id (ledger_of db) r found in
          let there : find ctx.tenant_id id (ledger_of db')
              ≡ some (as_superseded db.next_invoice_id r) =
            ap (find ctx.tenant_id id) same
            ∙ superseded_found ctx.tenant_id id r.id db.next_invoice_id
                (with_issued ctx x (ledger_of db)) r e (find_issued ctx db x id r found) in
          superseded_is_final later ctx' id db.next_invoice_id db' r
            (ap (λ t. find t id (ledger_of db')) tenant ∙ there)
    ]
