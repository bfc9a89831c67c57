-- ===== src/Billing/Invoices/Refinement.antt =====
-- The operations of services/billing/src/invoices/services.ts as steps of the ledger.
pub mod Numbered
pub mod Nightly
pub mod Templates
use faktureringssystemet.Prelude.{
  ℕ, ◌+◌, ◌≡◌, ◌≢◌, refl, sym, ap, ◌∙◌, inl, inr, Bool, true, false, Option, none, some, List, [],
  ◌∷◌, ◌++◌, arith, find_first, select, update_where, delete_where, Option-cases, or_else,
}
use faktureringssystemet.Shared.Text.{Text}
use faktureringssystemet.Shared.Errors.{Error, Result, ok, err, Result-cases}
use faktureringssystemet.Shared.Ocr.{derive_ocr}
use faktureringssystemet.Shared.Tx.{Tx}
use faktureringssystemet.Billing.Vat.{InvoiceTotals}
use faktureringssystemet.Billing.Invoices.Lines.{to_items, totals_of, credit_items_from}
use faktureringssystemet.Billing.Dates.{Date}
use faktureringssystemet.Billing.Store.{
  InvoiceStatus, InvoiceRow, InvoiceItem, CustomerRow, LineInputDto, Db, RequestContext,
}
use faktureringssystemet.Billing.Invoices.Repository.{
  is_invoice, find_customer, insert_invoice, insert_items, lock_by_id, find_by_id, find_items,
  replace_items, DraftFields, with_draft_fields, InsertInvoiceData, row_of, update_draft, mark_sent,
  as_sent, with_status, set_status, delete_invoice, insert_snapshot, paid_ore, find_settings,
  is_customer, is_settings_of, is_item_of, settings_or_default, lock_for_update,
  bump_invoice_number, write_event, write_audit_log,
}
use faktureringssystemet.Billing.Invoices.Service.{
  Detail, detail, write_credit, assert_dates, replace_lines, allocate_number, CreateInvoiceInput,
  draft_data, UpdateInvoiceInput, Allocated, credit_data, is_creditable, send_in_tx, create_in_tx,
  update, remove, credit_in_tx, create_for, choose_customer,
}
use faktureringssystemet.Billing.Invoices.Ledger.{
  Ledger, ledger_of, next_number, taken, find, Step, Steps, done, then_step, send_draft, add_draft,
  edit_draft, delete_draft,
}
use faktureringssystemet.Billing.Customers.{Deps}
use faktureringssystemet.Billing.Customers as Customers
use faktureringssystemet.Billing.Customers.Frame.{create-SameBooks}

pub detail_reads :
    (ctx : RequestContext) (id : ℕ) (db db' : Db) (d : Detail)
    → detail ctx id db ≡ ok (d, db')
    → db' ≡ db
unfolding detail find_by_id find_items paid_ore
detail_reads ctx id db db' d h = ground arith

-- A send that succeeds found a draft of the tenant, and changes of the ledger two things only: the draft
-- is sent under the tenant's next number with the reference derived from it, and that number is taken.
pub send_effect :
    (ctx : RequestContext) (id : ℕ) (db db' : Db) (d : Detail)
    → send_in_tx ctx id db ≡ ok (d, db')
    → let l = ledger_of db in
      (r : InvoiceRow) × (ocr : Text) × (find ctx.tenant_id id l ≡ some r)
      × (r.status ≡ InvoiceStatus.draft)
      × (derive_ocr (next_number ctx.tenant_id l) ≡ some ocr)
      × (ledger_of db' ≡ record l {
        rows =
            update_where
              (is_invoice ctx.tenant_id id)
              (as_sent (next_number ctx.tenant_id l) ocr)
              l.rows;
        settings = taken ctx.tenant_id l.settings;
      })
unfolding send_in_tx lock_by_id find_customer find_items lock_for_update bump_invoice_number
    mark_sent insert_snapshot write_event write_audit_log
send_effect ctx id db db' d h = elim (Option-cases (find ctx.tenant_id id (ledger_of db))) [
  | inl missing ↦ absurd (ground arith)
  | inr (r, found) ↦ elim (Option-cases (derive_ocr (next_number ctx.tenant_id (ledger_of db)))) [
    | inl bad ↦ absurd (ground arith)
    | inr (ocr, e) ↦ (r, ocr, found, ground arith, e, grind (arith, detail_reads))
  ]
]

-- A successful send is the ledger's step that sends a draft.
pub send_in_tx-Step :
    (ctx : RequestContext) (id : ℕ) (db db' : Db) (d : Detail)
    → send_in_tx ctx id db ≡ ok (d, db')
    → Step (ledger_of db) ctx.tenant_id (ledger_of db')
send_in_tx-Step ctx id db db' d h =
    let (r, ocr, found, draft, e, same) = send_effect ctx id db db' d h in
    rw same (send_draft ctx.tenant_id id r ocr found draft e)

remove_effect :
    (ctx : RequestContext) (id : ℕ) (db db' : Db) (u : Unit {0})
    → remove ctx id db ≡ ok (u, db')
    → let l = ledger_of db in
      (r : InvoiceRow) × (find ctx.tenant_id id l ≡ some r)
      × (r.status ≡ InvoiceStatus.draft)
      × (ledger_of db' ≡ record l { rows = delete_where (is_invoice ctx.tenant_id id) l.rows })
unfolding remove lock_by_id delete_invoice write_audit_log
remove_effect ctx id db db' u h = elim (Option-cases (find ctx.tenant_id id (ledger_of db))) [
  | inl missing ↦ absurd (ground arith)
  | inr (r, found) ↦ (r, found, ground arith, ground arith)
]

pub remove-Step :
    (ctx : RequestContext) (id : ℕ) (db db' : Db) (u : Unit {0})
    → remove ctx id db ≡ ok (u, db')
    → Step (ledger_of db) ctx.tenant_id (ledger_of db')
remove-Step ctx id db db' u h =
    let (r, found, draft, same) = remove_effect ctx id db db' u h in
    rw same (delete_draft ctx.tenant_id id r found draft)

replace_lines_reads :
    (ctx : RequestContext) (id : ℕ) (r : InvoiceRow) (lines : Option (List LineInputDto))
    (db db' : Db) (t : InvoiceTotals)
    → replace_lines ctx id r lines db ≡ ok (t, db')
    → ledger_of db' ≡ ledger_of db
unfolding replace_lines replace_items insert_items
replace_lines_reads ctx id r none db db' t h = ground arith
replace_lines_reads ctx id r (some lines) db db' t h = elim (Result-cases (to_items lines)) [
  | inl (items, e) ↦ ground arith
  | inr (e, bad) ↦ absurd (ground arith)
]

abbrev new_fields : UpdateInvoiceInput → InvoiceRow → InvoiceTotals → DraftFields
new_fields input r t = record {
  date_issued = or_else input.date_issued r.date_issued;
  date_due = or_else input.date_due r.date_due;
  currency = or_else input.currency r.currency;
  total_excl_vat_ore = t.total_excl_vat_ore;
  total_vat_ore = t.total_vat_ore;
  total_incl_vat_ore = t.total_incl_vat_ore;
}

update_effect :
    (today : Date) (ctx : RequestContext) (id : ℕ) (input : UpdateInvoiceInput) (db db' : Db)
    (d : Detail)
    → update today ctx id input db ≡ ok (d, db')
    → let l = ledger_of db in
      (r : InvoiceRow) × (x : DraftFields) × (find ctx.tenant_id id l ≡ some r)
      × (r.status ≡ InvoiceStatus.draft)
      × (ledger_of db' ≡ record l {
        rows = update_where (is_invoice ctx.tenant_id id) (with_draft_fields x) l.rows;
      })
unfolding update lock_by_id assert_dates update_draft write_audit_log
update_effect today ctx id input db db' d h =
    elim (Option-cases (find ctx.tenant_id id (ledger_of db))) [
      | inl missing ↦ absurd (ground arith)
      | inr (r, found) ↦ elim (Result-cases (replace_lines ctx id r input.lines db)) [
        | inl ((t, db1), e) ↦ (
          r,
          new_fields input r t,
          found,
          ground arith,
          grind (arith, detail_reads, replace_lines_reads ctx id r input.lines db db1 t e),
        )
        | inr (e, bad) ↦ absurd (ground arith)
      ]
    ]

pub update-Step :
    (today : Date) (ctx : RequestContext) (id : ℕ) (input : UpdateInvoiceInput) (db db' : Db)
    (d : Detail)
    → update today ctx id input db ≡ ok (d, db')
    → Step (ledger_of db) ctx.tenant_id (ledger_of db')
update-Step today ctx id input db db' d h =
    let (r, x, found, draft, same) = update_effect today ctx id input db db' d h in
    rw same (edit_draft ctx.tenant_id id r x found draft)

create_effect :
    (today : Date) (ctx : RequestContext) (input : CreateInvoiceInput) (customer : ℕ) (db db' : Db)
    (d : Detail)
    → create_for today ctx input customer db ≡ ok (d, db')
    → let l = ledger_of db in
      (x : InsertInvoiceData) × (x.status ≡ InvoiceStatus.draft)
      × (x.invoice_number ≡ none)
      × (ledger_of db' ≡ record l {
        rows = l.rows ++ row_of ctx.tenant_id l.next_id x ∷ [];
        next_id = l.next_id + 1;
      })
unfolding create_for find_customer find_settings assert_dates insert_invoice insert_items
    write_audit_log
create_effect today ctx input customer db db' d h =
    elim (Option-cases (find_first (is_customer ctx.tenant_id customer) db.customers)) [
      | inl missing ↦ absurd (ground arith)
      | inr (c, found) ↦ elim (Result-cases (to_items input.lines)) [
        | inl (items, e) ↦ (
          draft_data today input c (find_first (is_settings_of ctx.tenant_id) db.settings)
              (totals_of items),
          refl,
          refl,
          grind (arith, detail_reads),
        )
        | inr (e, bad) ↦ absurd (ground arith)
      ]
    ]

-- Choosing the customer leaves the ledger alone, also where the customer is created.
choose_customer_reads :
    (deps : Deps) (ctx : RequestContext) (input : CreateInvoiceInput) (db db' : Db) (id : ℕ)
    → choose_customer deps ctx input db ≡ ok (id, db')
    → ledger_of db' ≡ ledger_of db
unfolding choose_customer
choose_customer_reads deps ctx input db db' id h = elim (Option-cases input.customer_id) [
  | inr (known, e) ↦ ground (arith, e, h)
  | inl missing ↦ elim (Option-cases input.customer) [
    | inl neither ↦ absurd (ground (arith, missing, neither, h))
    | inr (new, e) ↦ elim (Result-cases (Customers.create_in_tx deps ctx new db)) [
      | inr (x, bad) ↦ absurd (ground (arith, missing, e, bad, h))
      | inl ((v, db1), good) ↦
          let same : db1 ≡ db' = ground (arith, missing, e, good, h) in
          ap ledger_of (sym same ∙ create-SameBooks deps ctx new db db1 v good)
    ]
  ]
]

pub create_in_tx-Step :
    (deps : Deps) (today : Date) (ctx : RequestContext) (input : CreateInvoiceInput) (db db' : Db)
    (d : Detail)
    → create_in_tx deps today ctx input db ≡ ok (d, db')
    → Step (ledger_of db) ctx.tenant_id (ledger_of db')
unfolding create_in_tx
create_in_tx-Step deps today ctx input db db' d h =
    elim (Result-cases (choose_customer deps ctx input db)) [
      | inr (e, bad) ↦ absurd (ground arith)
      | inl ((customer, db1), chosen) ↦
          let (x, draft, unnumbered, same) =
            create_effect today ctx input customer db1 db' d (ground arith) in
          let reads = choose_customer_reads deps ctx input db db1 customer chosen in
          rw (← reads, same)
            (add_draft (row_of ctx.tenant_id db1.next_invoice_id x) refl draft unnumbered)
    ]
