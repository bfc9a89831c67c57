-- ===== src/Billing/Customers/Frame.antt =====
-- What services/billing/src/customers does not touch.
use faktureringssystemet.Prelude.{
  ℕ, ◌≡◌, refl, inl, inr, arith, find_first, Bool-cases, Option-cases,
}
use faktureringssystemet.Shared.Errors.{ok, Result-cases}
use faktureringssystemet.Shared.Tx.{Tx, begin}
use faktureringssystemet.Billing.Store.{Db, RequestContext}
use faktureringssystemet.Billing.Invoices.Repository.{is_customer, find_customer, write_audit_log}
use faktureringssystemet.Billing.Customers.{
  Deps, CreateCustomerInput, UpdateCustomerInput, CustomerView, identify, create_in_tx, has_columns,
  update, remove,
}
use faktureringssystemet.Billing.Customers.Calls.{CustomerCall, create, edit, delete, handle}

-- Only customers and the audit log differ.
abbrev pub SameBooks : Db → Db → Type 0
SameBooks db db' = db' ≡ record db {
  customers = db'.customers;
  next_customer_id = db'.next_customer_id;
  audit_log = db'.audit_log;
}

pub create-SameBooks :
    (deps : Deps) (ctx : RequestContext) (input : CreateCustomerInput) (db db' : Db)
    (v : CustomerView)
    → create_in_tx deps ctx input db ≡ ok (v, db')
    → SameBooks db db'
unfolding create_in_tx write_audit_log
create-SameBooks deps ctx input db db' v h = elim (Result-cases (identify deps input)) [
  | inr (e, bad) ↦ absurd (ground arith)
  | inl (who, good) ↦ ground arith
]

update-SameBooks :
    (ctx : RequestContext) (id : ℕ) (input : UpdateCustomerInput) (db db' : Db) (v : CustomerView)
    → update ctx id input db ≡ ok (v, db')
    → SameBooks db db'
unfolding update find_customer write_audit_log
update-SameBooks ctx id input db db' v h =
    elim (Option-cases (find_first (is_customer ctx.tenant_id id) db.customers)) [
      | inl missing ↦ absurd (ground arith)
      | inr (c, found) ↦ elim (Bool-cases (has_columns input)) [
        | inr nothing ↦ let same : db' ≡ db = ground arith in rw same refl
        | inl some_ ↦ ground arith
      ]
    ]

remove-SameBooks :
    (ctx : RequestContext) (id : ℕ) (db db' : Db) (u : Unit {0})
    → remove ctx id db ≡ ok (u, db')
    → SameBooks db db'
unfolding remove find_customer write_audit_log
remove-SameBooks ctx id db db' u h =
    elim (Option-cases (find_first (is_customer ctx.tenant_id id) db.customers)) [
      | inl missing ↦ absurd (ground arith)
      | inr (c, found) ↦ ground arith
    ]

begin-SameBooks :
    {A : Type 0} (m : Tx Db A) (db : Db)
    → ((a : A) (db' : Db) → m db ≡ ok (a, db') → SameBooks db db')
    → SameBooks db (begin m db).1
begin-SameBooks m db h = elim (Result-cases (m db)) [
  | inl ((a, db'), e) ↦ rw e (h a db' e)
  | inr (e, bad) ↦ rw bad refl
]

pub handle-SameBooks : (c : CustomerCall) (db : Db) → SameBooks db (handle c db)
unfolding handle
handle-SameBooks (create deps ctx input) db =
    begin-SameBooks (create_in_tx deps ctx input) db
      (λ v db' e. create-SameBooks deps ctx input db db' v e)
handle-SameBooks (edit ctx id input) db =
    begin-SameBooks (update ctx id input) db (λ v db' e. update-SameBooks ctx id input db db' v e)
handle-SameBooks (delete ctx id) db =
    begin-SameBooks (remove ctx id) db (λ u db' e. remove-SameBooks ctx id db db' u e)
