-- ===== src/Billing/Payments/Laws.antt =====
-- What booking a payment does.
use faktureringssystemet.Prelude.{
  ℕ, ◌+◌, ◌≡◌, ◌∙◌, refl, ap, inl, inr, ◌⊎◌, true, false, ◌&&◌, some, List, [], ◌∷◌, ◌++◌, arith,
  if◌then◌else◌, ◌==◌, find_first, select, update_where, count_where, count_where-append,
  Option-cases, Bool-cases, find_first_holds,
}
use faktureringssystemet.Prelude.Int.{pos, leb_ℤ}
use faktureringssystemet.Prelude.Rows.{find_updated}
use faktureringssystemet.Shared.Errors.{ok}
use faktureringssystemet.Shared.Text.{text_eq}
use faktureringssystemet.Billing.Store.{InvoiceStatus, InvoiceRow, PaymentRow, Db}
use faktureringssystemet.Billing.Invoices.Repository.{
  is_invoice, is_payment_of, lock_by_id, paid_ore, paid_of, sum_payments, with_status,
}
use faktureringssystemet.Billing.Invoices.Ledger.{ledger_of, Steps, by, done, one_step, pay}
use faktureringssystemet.Billing.Payments.{
  PaymentApplyUpdate, PaymentApplyOutcome, not_applied, is_payment, is_covered, mark_processed,
  insert_payment, set_paid_if_covered, book, apply, is_bookable,
}

abbrev payment_of : PaymentApplyUpdate → ℕ → PaymentRow
payment_of u i = record {
  tenant_id = u.tenant_id;
  invoice_id = i;
  payment_id = u.payment_id;
  amount_ore = u.amount_ore;
}

-- The payments after the insertion, which a payment that is there already leaves alone.
abbrev pub payments_after : PaymentApplyUpdate → ℕ → Db → List PaymentRow
payments_after u i db =
    if count_where (is_payment u.tenant_id u.payment_id) db.payments == 0
    then db.payments ++ payment_of u i ∷ []
    else db.payments

pub book_effect :
    (u : PaymentApplyUpdate) (db db' : Db) (o : PaymentApplyOutcome)
    → book u db ≡ ok (o, db')
    → (r : InvoiceRow) × (find_first (is_invoice u.tenant_id u.invoice_id) db.invoices ≡ some r)
      × (r.id ≡ u.invoice_id)
      × (o.applied ≡ true)
      × (o.payment_inserted ≡ (count_where (is_payment u.tenant_id u.payment_id) db.payments == 0))
      × (db' ≡ record db {
        payments = payments_after u u.invoice_id db;
        invoices =
            update_where
              (is_covered u.tenant_id u.invoice_id (
                sum_payments (
                  select
                    (is_payment_of u.tenant_id u.invoice_id)
                    (payments_after u u.invoice_id db))))
              (with_status InvoiceStatus.paid)
              db.invoices;
      })
unfolding book lock_by_id insert_payment paid_ore set_paid_if_covered
book_effect u db db' o h =
    elim (Option-cases (find_first (is_invoice u.tenant_id u.invoice_id) db.invoices)) [
      | inl missing ↦ absurd (ground arith)
      | inr (r, found) ↦
          let p = find_first_holds (is_invoice u.tenant_id u.invoice_id) db.invoices found in
          let e : r.id ≡ u.invoice_id = ground arith in
          (r, found, e, ground arith, ground arith, ground arith)
    ]

apply_parts :
    (u : PaymentApplyUpdate) (db db' : Db) (o : PaymentApplyOutcome)
    → apply u db ≡ ok (o, db')
    → ((o ≡ not_applied) × (db' ≡ db))
      ⊎ ((count_where (λ e. e == u.event_id) db.processed_events ≡ 0)
          × (book u (record db { processed_events = db.processed_events ++ u.event_id ∷ [] })
              ≡ ok (o, db')))
unfolding apply mark_processed
apply_parts u db db' o h =
    elim (Bool-cases (count_where (λ e. e == u.event_id) db.processed_events == 0)) [
      | inl fresh ↦ inr (ground arith, ground arith)
      | inr old ↦ inl (ground arith, ground arith)
    ]

-- An event that was applied is not applied again: the second delivery changes nothing.
pub apply_payment_twice :
    (u : PaymentApplyUpdate) (db db' : Db) (o : PaymentApplyOutcome)
    → apply u db ≡ ok (o, db')
    → apply u db' ≡ ok (not_applied, db')
unfolding apply mark_processed
apply_payment_twice u db db' o h = elim (apply_parts u db db' o h) [
  | inl (e, same) ↦ ground arith
  | inr (fresh, b) ↦
      let (r, found, e, a, n, same) = book_effect u _ db' o b in
      let c = count_where-append (λ x. x == u.event_id) db.processed_events (u.event_id ∷ []) in
      let k : count_where (λ x. x == u.event_id) db'.processed_events == 0 ≡ false =
        rw same (ground arith) in
      rw k refl
]

sum_payments_added :
    (t i : ℕ) (p : PaymentRow) (ps : List PaymentRow)
    → sum_payments (select (is_payment_of t i) (ps ++ p ∷ []))
      ≡ sum_payments (select (is_payment_of t i) ps)
        + (if is_payment_of t i p then p.amount_ore else 0)
unfolding sum_payments
sum_payments_added t i p [] = ground arith
sum_payments_added t i p (q ∷ ps) = ground (arith, sum_payments_added t i p ps)

covered_found :
    (t i paid : ℕ) (xs : List InvoiceRow) (r : InvoiceRow)
    → find_first (is_invoice t i) xs ≡ some r
    → find_first
        (is_invoice t i)
        (update_where (is_covered t i paid) (with_status InvoiceStatus.paid) xs)
      ≡ some (
          if is_bookable r.status && leb_ℤ r.total_incl_vat_ore (pos paid)
          then with_status InvoiceStatus.paid r
          else r)
covered_found t i paid xs r h =
    let q = find_first_holds (is_invoice t i) xs h in
    let f =
      find_updated (is_invoice t i) (is_covered t i paid) (with_status InvoiceStatus.paid) xs
        (λ x. refl) h in
    let e : is_covered t i paid r
        ≡ (is_bookable r.status && leb_ℤ r.total_incl_vat_ore (pos paid)) =
      rw q refl in
    f ∙ ap (λ b. some (if b then with_status InvoiceStatus.paid r else r)) e

added_amount :
    (u : PaymentApplyUpdate) (db : Db)
    → sum_payments
        (select (is_payment_of u.tenant_id u.invoice_id) (payments_after u u.invoice_id db))
      ≡ paid_of u.tenant_id u.invoice_id db
        + (if count_where (is_payment u.tenant_id u.payment_id) db.payments == 0
            then u.amount_ore
            else 0)
added_amount u db =
    let c = sum_payments_added u.tenant_id u.invoice_id (payment_of u u.invoice_id) db.payments in
    elim (Bool-cases (count_where (is_payment u.tenant_id u.payment_id) db.payments == 0)) [
      | inl new ↦ rw new (c ∙ ground arith)
      | inr old ↦ rw old (omega arith)
    ]

-- An event that is applied books its amount on the invoice, unless the tenant has a payment under the same payment id
-- already, and says whether it did; it sets the invoice to paid exactly if it is sent or overdue and all that is booked covers its total.
pub apply_settles :
    (u : PaymentApplyUpdate) (db db' : Db) (o : PaymentApplyOutcome)
    → apply u db ≡ ok (o, db')
    → o.applied ≡ true
    → (r : InvoiceRow) × (find_first (is_invoice u.tenant_id u.invoice_id) db.invoices ≡ some r)
      × (paid_of u.tenant_id u.invoice_id db'
          ≡ paid_of u.tenant_id u.invoice_id db
            + (if count_where
                    (λ p. p.tenant_id == u.tenant_id && text_eq p.payment_id u.payment_id)
                    db.payments
                  == 0
                then u.amount_ore
                else 0))
      × (o.payment_inserted ≡ (
          count_where
            (λ p. p.tenant_id == u.tenant_id && text_eq p.payment_id u.payment_id)
            db.payments
          == 0))
      × (find_first (is_invoice u.tenant_id u.invoice_id) db'.invoices
          ≡ some (
              if is_bookable r.status
                && leb_ℤ r.total_incl_vat_ore (pos (paid_of u.tenant_id u.invoice_id db'))
              then with_status InvoiceStatus.paid r
              else r))
apply_settles u db db' o h k = elim (apply_parts u db db' o h) [
  | inl (e, same) ↦ absurd (ground arith)
  | inr (fresh, b) ↦
      let (r, found, e, a, n, same) = book_effect u _ db' o b in
      let pays : db'.payments ≡ payments_after u u.invoice_id db =
        ap (λ (d : Db). d.payments) same in
      let rows : db'.invoices
          ≡ update_where
              (is_covered u.tenant_id u.invoice_id (paid_of u.tenant_id u.invoice_id db'))
              (with_status InvoiceStatus.paid) db.invoices =
        rw pays (ap (λ (d : Db). d.invoices) same) in
      (
        r,
        found,
        ap (λ ps. sum_payments (select (is_payment_of u.tenant_id u.invoice_id) ps)) pays
            ∙ added_amount u db,
        n,
        ap (find_first (is_invoice u.tenant_id u.invoice_id)) rows
            ∙ covered_found u.tenant_id u.invoice_id (paid_of u.tenant_id u.invoice_id db')
                db.invoices r found,
      )
]

-- Booking a payment is a step of the ledger, or leaves the ledger alone.
pub apply-Steps :
    (u : PaymentApplyUpdate) (db db' : Db) (o : PaymentApplyOutcome)
    → apply u db ≡ ok (o, db')
    → Steps (by u.tenant_id) (ledger_of db) (ledger_of db')
apply-Steps u db db' o h = elim (apply_parts u db db' o h) [
  | inl (e, same) ↦ rw same done
  | inr (fresh, b) ↦
      let (r, found, e, a, n, same) = book_effect u _ db' o b in
      rw same (
        one_step (
          pay u.tenant_id u.invoice_id (
            sum_payments (
              select (is_payment_of u.tenant_id u.invoice_id) (payments_after u u.invoice_id db)))))
]
