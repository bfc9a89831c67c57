-- ===== src/Billing/Invoices/Templates/Due.antt =====
-- From a template that was created to the invoice that the nightly job generates from it.
use faktureringssystemet.Prelude.{
  ℕ, ◌≡◌, ◌∙◌, refl, ap, inl, inr, true, false, some, none, List, [], ◌∷◌, arith, find_first,
  Option-cases, count_where, Bool, ◌==◌,
}
use faktureringssystemet.Prelude.Rows.{find_first-append_none}
use faktureringssystemet.Shared.Errors.{Error, ok, err, Result-cases}
use faktureringssystemet.Billing.Dates.{Date, date_ltb}
use faktureringssystemet.Billing.Store.{
  CustomerRow, InvoiceItem, InvoiceTemplateRow, Db, RequestContext, SnapshotRow,
}
use faktureringssystemet.Billing.Invoices.Repository.{
  is_customer, is_template, find_customer, find_settings, find_items, insert_invoice, insert_items,
  insert_snapshot, write_event, write_cron_audit_log, advance_template_date, lock_template,
  write_audit_log,
}
use faktureringssystemet.Billing.Invoices.Lines.{to_items}
use faktureringssystemet.Billing.Invoices.Service.{Allocated, allocate_number}
use faktureringssystemet.Billing.Invoices.Cron.{
  created, is_due, write_recurring, generate_from_template_in_tx,
}
use faktureringssystemet.Billing.Invoices.Refinement.Nightly.{write_recurring_creates}
use faktureringssystemet.Billing.Invoices.Templates.{
  CreateInvoiceTemplateInput, template_row, create_template_in_tx,
}
use faktureringssystemet.Billing.Invoices.Templates.Laws.{create_effect, json_CanCompute}
use faktureringssystemet.Billing.Invoices.Refinement.Numbered.{allocate_effect}

abbrev pub is_snapshot_of : ℕ → SnapshotRow → Bool
is_snapshot_of id s = s.invoice_id == id

-- Nothing stops an invoice whose customer is there, whose lines compute and whose number is given,
-- under an id that no snapshot has.
write_recurring_works :
    (ctx : RequestContext) (t : InvoiceTemplateRow) (db db2 : Db) (c : CustomerRow)
    (items : List InvoiceItem) (a : Allocated) (e : Error)
    → find_first (is_customer ctx.tenant_id t.customer_id) db.customers ≡ some c
    → to_items t.lines ≡ ok items
    → allocate_number ctx db ≡ ok (a, db2)
    → count_where (is_snapshot_of db2.next_invoice_id) db2.snapshots ≡ 0
    → write_recurring ctx t db ≡ err e
    → ⊥
unfolding write_recurring find_customer find_settings find_items insert_invoice insert_items
    insert_snapshot write_event write_cron_audit_log advance_template_date
write_recurring_works ctx t db db2 c items a e known lines number new failed =
    ground (arith, known, lines, number, new, failed)

known_customer :
    (today : Date) (ctx : RequestContext) (input : CreateInvoiceTemplateInput) (db db' : Db)
    (row : InvoiceTemplateRow)
    → create_template_in_tx today ctx input db ≡ ok (row, db')
    → (c : CustomerRow) × (find_first (is_customer ctx.tenant_id input.customer_id) db.customers
        ≡ some c)
unfolding create_template_in_tx find_customer write_audit_log
known_customer today ctx input db db' row h =
    elim (Option-cases (find_first (is_customer ctx.tenant_id input.customer_id) db.customers)) [
      | inl missing ↦ absurd (ground arith)
      | inr (c, found) ↦ (c, found)
    ]

generated :
    (d : Date) (ctx : RequestContext) (id : ℕ) (t : InvoiceTemplateRow) (db : Db)
    → find_first (is_template ctx.tenant_id id) db.templates ≡ some t
    → is_due d t ≡ true
    → generate_from_template_in_tx d ctx id db ≡ write_recurring ctx t db
unfolding generate_from_template_in_tx lock_template
generated d ctx id t db found due = ground (arith, found, due)

-- A template that was created under a fresh id, where the next invoice id is fresh too, generates
-- an invoice from its first date on, whenever the tenant's next number is given then: neither its
-- customer nor its lines can stop it.
pub created_generates :
    (today d : Date) (ctx : RequestContext) (input : CreateInvoiceTemplateInput) (db db' db2 : Db)
    (row : InvoiceTemplateRow) (a : Allocated)
    → create_template_in_tx today ctx input db ≡ ok (row, db')
    → find_first (is_template ctx.tenant_id db.next_template_id) db.templates ≡ none
    → count_where (is_snapshot_of db.next_invoice_id) db.snapshots ≡ 0
    → date_ltb d input.next_generation_date ≡ false
    → allocate_number ctx db' ≡ ok (a, db2)
    → (n : ℕ) × (db3 : Db) × (generate_from_template_in_tx d ctx row.id db' ≡ ok (created n, db3))
created_generates today d ctx input db db' db2 row a h fresh new_id reached number =
    let (new, lines, templates, customers, snapshots, next) =
      create_effect today ctx input db db' row h in
    let (c, known) = known_customer today ctx input db db' row h in
    let t = template_row ctx.tenant_id db.next_template_id input in
    let (items, good) = json_CanCompute input.lines lines in
    let self : is_template ctx.tenant_id db.next_template_id t ≡ true = ground arith in
    let found : find_first (is_template ctx.tenant_id db.next_template_id) db'.templates ≡ some t =
      ap (find_first (is_template ctx.tenant_id db.next_template_id)) templates
      ∙ find_first-append_none (is_template ctx.tenant_id db.next_template_id) db.templates (t ∷ [])
          fresh
      ∙ rw self refl in
    let due : is_due d t ≡ true = rw reached refl in
    let runs = generated d ctx db.next_template_id t db' found due in
    let known' = ap (find_first (is_customer ctx.tenant_id input.customer_id)) customers ∙ known in
    let (n, ocr, settings, frame) = allocate_effect ctx db' db2 a number in
    let new_id' : count_where (is_snapshot_of db2.next_invoice_id) db2.snapshots ≡ 0 =
      ap (λ (x : Db). count_where (is_snapshot_of x.next_invoice_id) x.snapshots) frame
      ∙ ap (λ i. count_where (is_snapshot_of i) db'.snapshots) next
      ∙ ap (count_where (is_snapshot_of db.next_invoice_id)) snapshots
      ∙ new_id in
    elim (Result-cases (write_recurring ctx t db')) [
      | inr (e, bad) ↦
          absurd (write_recurring_works ctx t db' db2 c items a e known' good number new_id' bad)
      | inl ((o, db3), done) ↦
          let kind = write_recurring_creates ctx t db' db3 o done in
          let id : row.id ≡ db.next_template_id = ap (λ r. r.id) new in
          (
            db'.next_invoice_id,
            db3,
            ap (λ k. generate_from_template_in_tx d ctx k db') id
                ∙ runs
                ∙ done
                ∙ ap (λ k. ok (k, db3)) kind,
          )
    ]
