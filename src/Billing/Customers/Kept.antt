-- ===== src/Billing/Customers/Kept.antt =====
-- Customers that invoices or templates refer to, under the calls of services/billing/src/customers.
use faktureringssystemet.Prelude.{
  ℕ, ◌≡◌, ◌≢◌, ◌∙◌, refl, sym, ap, inl, inr, some, List, [], ◌∷◌, arith, find_first,
  find_first-append, Bool-cases,
}
use faktureringssystemet.Prelude.Rows.{find_updated, find_kept}
use faktureringssystemet.Shared.Errors.{ok, Result-cases}
use faktureringssystemet.Shared.Tx.{Tx, begin}
use faktureringssystemet.Billing.Store.{CustomerRow, Db, RequestContext}
use faktureringssystemet.Billing.Invoices.Repository.{is_customer}
use faktureringssystemet.Billing.Customers.{
  Deps, CreateCustomerInput, UpdateCustomerInput, CustomerView, create_in_tx, with_columns, update,
  remove, references,
}
use faktureringssystemet.Billing.Customers.Calls.{
  CustomerCall, create, edit, delete, handle, handle_all,
}
use faktureringssystemet.Billing.Customers.Effects.{create_effect, update_effect, remove_effect}
use faktureringssystemet.Billing.Customers.Frame.{handle-SameBooks}

-- The same customer, with its personal number, if it has one.
abbrev pub IsSame : CustomerRow → CustomerRow → Type 0
IsSame c c' = (c'.customer_type ≡ c.customer_type) × (c'.pnr_hmac ≡ c.pnr_hmac)

abbrev pub StillThere : ℕ → ℕ → CustomerRow → Db → Type 0
StillThere t i c db =
    (c' : CustomerRow) × (find_first (is_customer t i) db.customers ≡ some c') × IsSame c c'

unchanged :
    (t i : ℕ) (c : CustomerRow) (db : Db)
    → find_first (is_customer t i) db.customers ≡ some c
    → StillThere t i c db
unchanged t i c db found = (c, found, (refl, refl))

begin-StillThere :
    {A : Type 0} (m : Tx Db A) (t i : ℕ) (c : CustomerRow) (db : Db)
    → find_first (is_customer t i) db.customers ≡ some c
    → ((a : A) (db' : Db) → m db ≡ ok (a, db') → StillThere t i c db')
    → StillThere t i c (begin m db).1
begin-StillThere m t i c db found h = elim (Result-cases (m db)) [
  | inl ((a, db'), e) ↦ rw e (h a db' e)
  | inr (e, bad) ↦ rw bad (unchanged t i c db found)
]

create-StillThere :
    (deps : Deps) (ctx : RequestContext) (input : CreateCustomerInput) (t i : ℕ) (c : CustomerRow)
    (db db' : Db) (v : CustomerView)
    → find_first (is_customer t i) db.customers ≡ some c
    → create_in_tx deps ctx input db ≡ ok (v, db')
    → StillThere t i c db'
create-StillThere deps ctx input t i c db db' v found h =
    let (who, good, new, same, next) = create_effect deps ctx input db db' v h in
    (c, rw same (find_first-append (is_customer t i) db.customers _ found), (refl, refl))

update-StillThere :
    (ctx : RequestContext) (id : ℕ) (input : UpdateCustomerInput) (t i : ℕ) (c : CustomerRow)
    (db db' : Db) (v : CustomerView)
    → find_first (is_customer t i) db.customers ≡ some c
    → update ctx id input db ≡ ok (v, db')
    → StillThere t i c db'
update-StillThere ctx id input t i c db db' v found h =
    elim (update_effect ctx id input db db' v h) [
      | inl same ↦ rw same (unchanged t i c db found)
      | inr (d, there, may, same, next) ↦
          let hit = is_customer ctx.tenant_id id in
          let at =
            find_updated (is_customer t i) hit (with_columns input) db.customers (λ x. refl)
              found in
          elim (Bool-cases (hit c)) [
            | inl own ↦ (with_columns input c, rw same (at ∙ rw own refl), (refl, refl))
            | inr other ↦ (c, rw same (at ∙ rw other refl), (refl, refl))
          ]
    ]

remove-StillThere :
    (ctx : RequestContext) (id t i : ℕ) (c : CustomerRow) (db db' : Db) (u : Unit {0})
    → find_first (is_customer t i) db.customers ≡ some c
    → references i db ≢ 0
    → remove ctx id db ≡ ok (u, db')
    → StillThere t i c db'
remove-StillThere ctx id t i c db db' u found held h =
    let (free, same, next) = remove_effect ctx id db db' u h in
    let other : id ≢ i = λ e. held (ap (λ k. references k db) (sym e) ∙ free) in
    (
      c,
      rw same (
          find_kept (is_customer t i) (is_customer ctx.tenant_id id) db.customers
            (λ x k. ground arith) found),
      (refl, refl),
    )

handle-StillThere :
    (call : CustomerCall) (t i : ℕ) (c : CustomerRow) (db : Db)
    → find_first (is_customer t i) db.customers ≡ some c
    → references i db ≢ 0
    → StillThere t i c (handle call db)
unfolding handle
handle-StillThere (create deps ctx input) t i c db found held =
    begin-StillThere (create_in_tx deps ctx input) t i c db found
      (λ v db' e. create-StillThere deps ctx input t i c db db' v found e)
handle-StillThere (edit ctx id input) t i c db found held =
    begin-StillThere (update ctx id input) t i c db found
      (λ v db' e. update-StillThere ctx id input t i c db db' v found e)
handle-StillThere (delete ctx id) t i c db found held =
    begin-StillThere (remove ctx id) t i c db found
      (λ u db' e. remove-StillThere ctx id t i c db db' u found held e)

-- A customer that an invoice or a template refers to is there after any calls on customers, also ones that fail, as a
-- customer of the same kind and with the same personal number.
pub referenced_stay :
    (calls : List CustomerCall) (t i : ℕ) (c : CustomerRow) (db : Db)
    → find_first (is_customer t i) db.customers ≡ some c
    → references i db ≢ 0
    → StillThere t i c (handle_all calls db)
unfolding handle_all
referenced_stay [] t i c db found held = unchanged t i c db found
referenced_stay (call ∷ calls) t i c db found held =
    let (c', there, (kind, person)) = handle-StillThere call t i c db found held in
    let books = handle-SameBooks call db in
    let held' : references i (handle call db) ≢ 0 = λ e. held (sym (ap (references i) books) ∙ e) in
    let (c2, found2, (kind2, person2)) =
      referenced_stay calls t i c' (handle call db) there held' in
    (c2, found2, (kind2 ∙ kind, person2 ∙ person))
