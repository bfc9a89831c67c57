-- ===== src/Billing/Customers/Laws.antt =====
-- What services/billing/src/customers keeps of its customers.
use faktureringssystemet.Prelude.{
  ℕ, ◌≤◌, ◌≡◌, ◌∙◌, refl, sym, ap, inl, inr, false, some, List, [], ◌∷◌, ◌++◌, arith, All-append,
  count_where, count_where-append, Bool-cases, Option-cases,
}
use faktureringssystemet.Prelude.Rows.{
  All-delete_where, count_where-delete_where, count_where-update_where, All-update_one,
  count_where_mono,
}
use faktureringssystemet.Shared.Text.{Text, text_eq→≡}
use faktureringssystemet.Shared.Errors.{ok, Result-cases}
use faktureringssystemet.Shared.Tx.{Tx, begin}
use faktureringssystemet.Billing.Store.{CustomerRow, Db, RequestContext}
use faktureringssystemet.Billing.Invoices.Repository.{is_customer}
use faktureringssystemet.Billing.Customers.{
  Deps, CreateCustomerInput, UpdateCustomerInput, CustomerView, is_person, customer_row,
  create_in_tx, with_columns, update, remove, refuses_org_number,
}
use faktureringssystemet.Billing.Customers.Calls.{
  CustomerCall, create, edit, delete, handle, handle_all,
}
use faktureringssystemet.Billing.Customers.Sound.{
  IsSound, IsShaped, has_id, identified_shape, type-cases,
}
use faktureringssystemet.Billing.Customers.Effects.{create_effect, update_effect, remove_effect}

-- A new row whose personal number no row of its tenant has.
persons_added :
    (t : ℕ) (g : Text) (xs : List CustomerRow) (row : CustomerRow)
    → count_where (is_person row.tenant_id row.pnr_hmac) xs ≡ 0
    → count_where (is_person t (some g)) xs ≤ 1
    → count_where (is_person t (some g)) (xs ++ row ∷ []) ≤ 1
persons_added t g xs row new one =
    let c = count_where-append (is_person t (some g)) xs (row ∷ []) in
    elim (Bool-cases (is_person t (some g) row)) [
      | inr other ↦ rw (c, other) (omega (arith, one))
      | inl hit ↦ elim (Option-cases row.pnr_hmac) [
        | inl company ↦ absurd (ground (arith, company, hit))
        | inr (h, person) ↦
            let own : row.tenant_id ≡ t = ground (arith, hit) in
            let same : h ≡ g = text_eq→≡ h g (ground (arith, person, hit)) in
            let none_ : count_where (is_person t (some g)) xs ≡ 0 =
              ap (λ k. count_where (is_person t k) xs) (ap some (sym same) ∙ sym person)
              ∙ ap (λ k. count_where (is_person k row.pnr_hmac) xs) (sym own)
              ∙ new in
            rw (c, none_, hit) (omega arith)
      ]
    ]

create-IsSound :
    (deps : Deps) (ctx : RequestContext) (input : CreateCustomerInput) (db db' : Db)
    (v : CustomerView)
    → create_in_tx deps ctx input db ≡ ok (v, db')
    → IsSound db
    → IsSound db'
create-IsSound deps ctx input db db' v h s =
    let (who, good, new, same, next) = create_effect deps ctx input db db' v h in
    let row = customer_row ctx.tenant_id db.next_customer_id input who in
    record {
      shaped = rw same (
          All-append IsShaped db.customers (row ∷ []) s.shaped
            (identified_shape deps input who ctx.tenant_id db.next_customer_id good, tt));
      persons = λ t g. rw same (persons_added t g db.customers row new (s.persons t g));
      ids = λ i.
          let c = count_where-append (has_id i) db.customers (row ∷ []) in
          let k = s.ids i in rw (same, next, c) (ground (arith, k));
    }

-- What is written on a row of a company or a private person keeps its shape.
columns_shape :
    (input : UpdateCustomerInput) (c : CustomerRow)
    → refuses_org_number input.org_number c ≡ false
    → IsShaped c
    → IsShaped (with_columns input c)
columns_shape input c may h = elim (type-cases c.customer_type) [
  | inl firm ↦ elim (Option-cases input.org_number) [
    | inl kept ↦ rw kept h
    | inr (n, new) ↦ rw (new, firm) (ground (arith, firm, h))
  ]
  | inr person ↦ elim (Option-cases input.org_number) [
    | inl kept ↦ rw kept h
    | inr (n, new) ↦ absurd (ground (arith, person, new, may))
  ]
]

one_customer : (t i : ℕ) (db : Db) → IsSound db → count_where (is_customer t i) db.customers ≤ 1
one_customer t i db s =
    let m = count_where_mono (is_customer t i) (has_id i) db.customers (λ c h. ground arith) in
    let k = s.ids i in ground (arith, m, k)

update-IsSound :
    (ctx : RequestContext) (id : ℕ) (input : UpdateCustomerInput) (db db' : Db) (v : CustomerView)
    → update ctx id input db ≡ ok (v, db')
    → IsSound db
    → IsSound db'
update-IsSound ctx id input db db' v h s = elim (update_effect ctx id input db db' v h) [
  | inl same ↦ rw same s
  | inr (c, found, may, same, next) ↦
      let hit = is_customer ctx.tenant_id id in
      record {
        shaped = rw same (
            All-update_one IsShaped hit (with_columns input) db.customers c
              (one_customer ctx.tenant_id id db s) found (columns_shape input c may) s.shaped);
        persons = λ t g.
            rw
              (
                same,
                count_where-update_where (is_person t (some g)) hit (with_columns input)
                    db.customers (λ x. refl),
              )
              (s.persons t g);
        ids = λ i.
            rw
              (
                same,
                next,
                count_where-update_where (has_id i) hit (with_columns input) db.customers
                    (λ x. refl),
              )
              (s.ids i);
      }
]

remove-IsSound :
    (ctx : RequestContext) (id : ℕ) (db db' : Db) (u : Unit {0})
    → remove ctx id db ≡ ok (u, db')
    → IsSound db
    → IsSound db'
remove-IsSound ctx id db db' u h s =
    let (free, same, next) = remove_effect ctx id db db' u h in
    let hit = is_customer ctx.tenant_id id in
    record {
      shaped = rw same (All-delete_where IsShaped hit db.customers s.shaped);
      persons = λ t g.
          let less = count_where-delete_where (is_person t (some g)) hit db.customers in
          let one = s.persons t g in rw same (omega (arith, less, one));
      ids = λ i.
          let less = count_where-delete_where (has_id i) hit db.customers in
          let k = s.ids i in rw (same, next) (omega (arith, less, k));
    }

-- A transaction whose success keeps the customers sound keeps them sound.
begin-IsSound :
    {A : Type 0} (m : Tx Db A) (db : Db)
    → ((a : A) (db' : Db) → m db ≡ ok (a, db') → IsSound db')
    → IsSound db
    → IsSound (begin m db).1
begin-IsSound m db h s = elim (Result-cases (m db)) [
  | inl ((a, db'), e) ↦ rw e (h a db' e)
  | inr (e, bad) ↦ rw bad s
]

handle-IsSound : (c : CustomerCall) (db : Db) → IsSound db → IsSound (handle c db)
unfolding handle
handle-IsSound (create deps ctx input) db s =
    begin-IsSound (create_in_tx deps ctx input) db
      (λ v db' e. create-IsSound deps ctx input db db' v e s) s
handle-IsSound (edit ctx id input) db s =
    begin-IsSound (update ctx id input) db (λ v db' e. update-IsSound ctx id input db db' v e s) s
handle-IsSound (delete ctx id) db s =
    begin-IsSound (remove ctx id) db (λ u db' e. remove-IsSound ctx id db db' u e s) s

-- After any calls, also ones that fail, on customers that were sound: they are sound.
pub customers-IsSound : (cs : List CustomerCall) (db : Db) → IsSound db → IsSound (handle_all cs db)
unfolding handle_all
customers-IsSound [] db s = s
customers-IsSound (c ∷ cs) db s = customers-IsSound cs (handle c db) (handle-IsSound c db s)
