-- ===== src/Billing/Invoices/Templates/Laws.antt =====
-- Templates of recurring invoices are such that they can be generated from.
use faktureringssystemet.Prelude.{
  ℕ, ◌≡◌, refl, inl, inr, List, [], ◌∷◌, ◌++◌, arith, ◌&&◌, All, All-append, find_first,
  update_where, or_else, Option-cases,
}
use faktureringssystemet.Prelude.Rows.{All-update_where}
use faktureringssystemet.Shared.Errors.{ok, Result-cases}
use faktureringssystemet.Billing.Dates.{Date}
use faktureringssystemet.Billing.Store.{
  InvoiceItem, InvoiceTemplateRow, LineInputDto, Db, RequestContext,
}
use faktureringssystemet.Billing.Invoices.Repository.{
  is_customer, is_template, find_customer, write_audit_log,
}
use faktureringssystemet.Billing.Invoices.Lines.{to_items}
use faktureringssystemet.Billing.Invoices.Templates.{
  CreateInvoiceTemplateInput, UpdateInvoiceTemplateInput, to_json_line, to_json_lines, template_row,
  create_template_in_tx, is_joined, with_update, update_template,
}
use faktureringssystemet.Billing.Invoices.Lines.Laws.{to_items_relabelled}

-- The lines of a template can be computed.
abbrev pub CanCompute : List LineInputDto → Type 0
CanCompute lines = (items : List InvoiceItem) × (to_items lines ≡ ok items)

abbrev pub IsUsable : InvoiceTemplateRow → Type 0
IsUsable t = CanCompute t.lines

pub json_CanCompute :
    (lines : List LineInputDto) → CanCompute lines → CanCompute (to_json_lines lines)
json_CanCompute lines (items, h) = to_items_relabelled to_json_line lines (λ l. refl) h

pub create_effect :
    (today : Date) (ctx : RequestContext) (input : CreateInvoiceTemplateInput) (db db' : Db)
    (row : InvoiceTemplateRow)
    → create_template_in_tx today ctx input db ≡ ok (row, db')
    → (row ≡ template_row ctx.tenant_id db.next_template_id input)
      × CanCompute input.lines
      × (db'.templates ≡ db.templates ++ template_row ctx.tenant_id db.next_template_id input ∷ [])
      × (db'.customers ≡ db.customers)
      × (db'.snapshots ≡ db.snapshots)
      × (db'.next_invoice_id ≡ db.next_invoice_id)
unfolding create_template_in_tx find_customer write_audit_log
create_effect today ctx input db db' row h =
    elim (Option-cases (find_first (is_customer ctx.tenant_id input.customer_id) db.customers)) [
      | inl missing ↦ absurd (ground arith)
      | inr (c, found) ↦ elim (Result-cases (to_items input.lines)) [
        | inr (e, bad) ↦ absurd (ground arith)
        | inl (items, good) ↦
            (ground arith, (items, good), ground arith, ground arith, ground arith, ground arith)
      ]
    ]

update_effect :
    (today : Date) (ctx : RequestContext) (id : ℕ) (input : UpdateInvoiceTemplateInput)
    (db db' : Db) (row : InvoiceTemplateRow)
    → update_template today ctx id input db ≡ ok (row, db')
    → (current : InvoiceTemplateRow) × CanCompute (or_else input.lines current.lines)
      × (db'.templates
          ≡ update_where (is_template ctx.tenant_id id) (with_update input current) db.templates)
unfolding update_template write_audit_log
update_effect today ctx id input db db' row h =
    elim (Option-cases
      (find_first (λ r. is_template ctx.tenant_id id r && is_joined db r) db.templates)) [
        | inl missing ↦ absurd (ground arith)
        | inr (current, found) ↦
            elim (Result-cases (to_items (or_else input.lines current.lines))) [
              | inr (e, bad) ↦ absurd (ground arith)
              | inl (items, good) ↦ elim (Option-cases input.next_generation_date) [
                | inl kept ↦ (current, (items, good), ground arith)
                | inr (next, new) ↦ (current, (items, good), ground arith)
              ]
            ]
      ]

-- Every template that is written can be computed from.
create-AllUsable :
    (today : Date) (ctx : RequestContext) (input : CreateInvoiceTemplateInput) (db db' : Db)
    (row : InvoiceTemplateRow)
    → create_template_in_tx today ctx input db ≡ ok (row, db')
    → All IsUsable db.templates
    → All IsUsable db'.templates
create-AllUsable today ctx input db db' row h a =
    let (new, lines, same, customers, snapshots, next) =
      create_effect today ctx input db db' row h in
    rw same (All-append IsUsable db.templates _ a (json_CanCompute input.lines lines, tt))

update-AllUsable :
    (today : Date) (ctx : RequestContext) (id : ℕ) (input : UpdateInvoiceTemplateInput)
    (db db' : Db) (row : InvoiceTemplateRow)
    → update_template today ctx id input db ≡ ok (row, db')
    → All IsUsable db.templates
    → All IsUsable db'.templates
update-AllUsable today ctx id input db db' row h a =
    let (current, lines, same) = update_effect today ctx id input db db' row h in
    rw same (
      All-update_where IsUsable (is_template ctx.tenant_id id) (with_update input current)
        db.templates (λ t k. json_CanCompute (or_else input.lines current.lines) lines) a)
