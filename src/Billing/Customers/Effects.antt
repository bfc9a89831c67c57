-- ===== src/Billing/Customers/Effects.antt =====
-- What the calls of services/billing/src/customers that write come to when they succeed.
use faktureringssystemet.Prelude.{
  ℕ, ◌+◌, ◌≡◌, inl, inr, ◌⊎◌, false, some, [], ◌∷◌, ◌++◌, arith, find_first, update_where,
  delete_where, count_where, Bool-cases, Option-cases,
}
use faktureringssystemet.Shared.Errors.{ok, Result-cases}
use faktureringssystemet.Billing.Store.{CustomerRow, Db, RequestContext}
use faktureringssystemet.Billing.Invoices.Repository.{is_customer, find_customer, write_audit_log}
use faktureringssystemet.Billing.Customers.{
  Deps, CreateCustomerInput, UpdateCustomerInput, CustomerView, Identity, identify, is_person,
  customer_row, create_in_tx, with_columns, has_columns, update, remove, refuses_org_number,
  references,
}

pub create_effect :
    (deps : Deps) (ctx : RequestContext) (input : CreateCustomerInput) (db db' : Db)
    (v : CustomerView)
    → create_in_tx deps ctx input db ≡ ok (v, db')
    → (who : Identity) × (identify deps input ≡ ok who)
      × (count_where (is_person ctx.tenant_id who.pnr_hmac) db.customers ≡ 0)
      × (db'.customers
          ≡ db.customers ++ customer_row ctx.tenant_id db.next_customer_id input who ∷ [])
      × (db'.next_customer_id ≡ db.next_customer_id + 1)
unfolding create_in_tx write_audit_log
create_effect deps ctx input db db' v h = elim (Result-cases (identify deps input)) [
  | inr (e, bad) ↦ absurd (ground arith)
  | inl (who, good) ↦ (who, good, ground arith, ground arith, ground arith)
]

pub update_effect :
    (ctx : RequestContext) (id : ℕ) (input : UpdateCustomerInput) (db db' : Db) (v : CustomerView)
    → update ctx id input db ≡ ok (v, db')
    → (db' ≡ db)
      ⊎ ((c : CustomerRow) × (find_first (is_customer ctx.tenant_id id) db.customers ≡ some c)
          × (refuses_org_number input.org_number c ≡ false)
          × (db'.customers
              ≡ update_where (is_customer ctx.tenant_id id) (with_columns input) db.customers)
          × (db'.next_customer_id ≡ db.next_customer_id))
unfolding update find_customer write_audit_log
update_effect ctx id input db db' v h =
    elim (Option-cases (find_first (is_customer ctx.tenant_id id) db.customers)) [
      | inl missing ↦ absurd (ground arith)
      | inr (c, found) ↦ elim (Bool-cases (has_columns input)) [
        | inr nothing ↦ inl (ground arith)
        | inl some_ ↦ inr (c, found, ground arith, ground arith, ground arith)
      ]
    ]

pub remove_effect :
    (ctx : RequestContext) (id : ℕ) (db db' : Db) (u : Unit {0})
    → remove ctx id db ≡ ok (u, db')
    → (references id db ≡ 0)
      × (db'.customers ≡ delete_where (is_customer ctx.tenant_id id) db.customers)
      × (db'.next_customer_id ≡ db.next_customer_id)
unfolding remove find_customer write_audit_log
remove_effect ctx id db db' u h =
    elim (Option-cases (find_first (is_customer ctx.tenant_id id) db.customers)) [
      | inl missing ↦ absurd (ground arith)
      | inr (c, found) ↦ (ground arith, ground arith, ground arith)
    ]
