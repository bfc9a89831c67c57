-- ===== src/Billing/Invoices/Refinement/Templates.antt =====
-- The calls on templates in services/billing/src/invoices and the steps of the ledger.
use faktureringssystemet.Prelude.{
  ℕ, ◌+◌, ◌≡◌, refl, ap, inl, inr, Bool, ◌&&◌, some, List, [], ◌∷◌, ◌++◌, map, arith, find_first,
  update_where, delete_where, or_else, Option-cases, Bool-cases,
}
use faktureringssystemet.Shared.Errors.{ok, Result-cases}
use faktureringssystemet.Billing.Dates.{Date}
use faktureringssystemet.Billing.Store.{InvoiceTemplateRow, Db, RequestContext}
use faktureringssystemet.Billing.Invoices.Repository.{
  is_customer, is_template, find_customer, write_audit_log,
}
use faktureringssystemet.Billing.Invoices.Lines.{to_items}
use faktureringssystemet.Billing.Invoices.Templates.{
  CreateInvoiceTemplateInput, UpdateInvoiceTemplateInput, template_row, create_template_in_tx,
  is_joined, with_update, update_template, remove_template, is_generated_from, without_template,
}
use faktureringssystemet.Billing.Invoices.Ledger.{
  Owner, owner_of, is_owner, owners_kept, ledger_of, Step, Steps, by, done, add_template,
  delete_template,
}

owners-append :
    (ts : List InvoiceTemplateRow) (t : InvoiceTemplateRow)
    → map owner_of (ts ++ t ∷ []) ≡ map owner_of ts ++ owner_of t ∷ []
owners-append [] t = refl
owners-append (s ∷ ts) t = ap (λ os. owner_of s ∷ os) (owners-append ts t)

owners-delete_where :
    (t i : ℕ) (ts : List InvoiceTemplateRow)
    → map owner_of (delete_where (is_template t i) ts)
      ≡ delete_where (is_owner t i) (map owner_of ts)
owners-delete_where t i [] = refl
owners-delete_where t i (s ∷ ts) = elim (Bool-cases (is_template t i s)) [
  | inl hit ↦ rw (hit, owners-delete_where t i ts) refl
  | inr miss ↦ rw (miss, owners-delete_where t i ts) refl
]

-- A template that any test of the tenant's id finds has its owner in the ledger.
owner_found :
    (t i : ℕ) (q : InvoiceTemplateRow → Bool) (ts : List InvoiceTemplateRow)
    (r : InvoiceTemplateRow)
    → find_first (λ x. is_template t i x && q x) ts ≡ some r
    → (o : Owner) × (find_first (is_owner t i) (map owner_of ts) ≡ some o)
owner_found t i q [] r h = absurd (ground arith)
owner_found t i q (s ∷ ts) r h = elim (Bool-cases (is_owner t i (owner_of s))) [
  | inl own ↦ (owner_of s, rw own refl)
  | inr other ↦
      let (o, rest) = owner_found t i q ts r (ground (arith, h, other)) in (o, rw other rest)
]

pub create_template_in_tx-Step :
    (today : Date) (ctx : RequestContext) (input : CreateInvoiceTemplateInput) (db db' : Db)
    (row : InvoiceTemplateRow)
    → create_template_in_tx today ctx input db ≡ ok (row, db')
    → Step (ledger_of db) ctx.tenant_id (ledger_of db')
unfolding create_template_in_tx find_customer write_audit_log
create_template_in_tx-Step today ctx input db db' row h =
    elim (Option-cases (find_first (is_customer ctx.tenant_id input.customer_id) db.customers)) [
      | inl missing ↦ absurd (ground arith)
      | inr (c, found) ↦ elim (Result-cases (to_items input.lines)) [
        | inr (e, bad) ↦ absurd (ground arith)
        | inl (items, good) ↦
            let new = template_row ctx.tenant_id db.next_template_id input in
            let same : db' ≡ record db {
              templates = db.templates ++ new ∷ [];
              next_template_id = db.next_template_id + 1;
              audit_log = db'.audit_log;
            } =
              ground arith in
            rw (same, owners-append db.templates new) (add_template ctx.tenant_id)
      ]
    ]

pub update_template-Steps :
    (today : Date) (ctx : RequestContext) (id : ℕ) (input : UpdateInvoiceTemplateInput)
    (db db' : Db) (row : InvoiceTemplateRow)
    → update_template today ctx id input db ≡ ok (row, db')
    → Steps (by ctx.tenant_id) (ledger_of db) (ledger_of db')
unfolding update_template write_audit_log
update_template-Steps today ctx id input db db' row h =
    elim (Option-cases
      (find_first (λ r. is_template ctx.tenant_id id r && is_joined db r) db.templates)) [
        | inl missing ↦ absurd (ground arith)
        | inr (current, found) ↦
            elim (Result-cases (to_items (or_else input.lines current.lines))) [
              | inr (e, bad) ↦ absurd (ground arith)
              | inl (items, good) ↦
                  let same : db' ≡ record db {
                    templates =
                        update_where (is_template ctx.tenant_id id) (with_update input current)
                          db.templates;
                    audit_log = db'.audit_log;
                  } =
                    elim (Option-cases input.next_generation_date) [
                      | inl kept ↦ ground arith
                      | inr (next, new) ↦ ground arith
                    ] in
                  let owners =
                    owners_kept (is_template ctx.tenant_id id) (with_update input current)
                      db.templates (λ t. refl) in
                  rw (same, owners) done
            ]
      ]

pub remove_template-Step :
    (ctx : RequestContext) (id : ℕ) (db db' : Db) (u : Unit {0})
    → remove_template ctx id db ≡ ok (u, db')
    → Step (ledger_of db) ctx.tenant_id (ledger_of db')
unfolding remove_template write_audit_log
remove_template-Step ctx id db db' u h =
    elim (Option-cases
      (find_first (λ r. is_template ctx.tenant_id id r && is_joined db r) db.templates)) [
        | inl missing ↦ absurd (ground arith)
        | inr (current, found) ↦
            let (o, own) = owner_found ctx.tenant_id id (is_joined db) db.templates current found in
            let same : db' ≡ record db {
              templates = delete_where (is_template ctx.tenant_id id) db.templates;
              invoices = update_where (is_generated_from id) without_template db.invoices;
              audit_log = db'.audit_log;
            } =
              ground arith in
            rw (same, owners-delete_where ctx.tenant_id id db.templates)
              (delete_template ctx.tenant_id id o own)
      ]
