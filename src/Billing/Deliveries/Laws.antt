-- ===== src/Billing/Deliveries/Laws.antt =====
-- What a delivery report does.
use faktureringssystemet.Prelude.{
  ℕ, ◌≡◌, ◌∙◌, refl, sym, ap, inl, inr, ◌⊎◌, Bool, true, false, some, List, [], ◌∷◌, ◌++◌, arith,
  if◌then◌else◌, ◌==◌, ltb, find_first, update_where, count_where, count_where-append, Bool-cases,
  find_first_holds,
}
use mathlib.Core.Path.{ap₂}
use faktureringssystemet.Prelude.Rows.{find_updated}
use faktureringssystemet.Shared.Errors.{ok, Result-cases}
use faktureringssystemet.Shared.Tx.{pure, ◌>>◌}
use faktureringssystemet.Billing.Store.{DeliveryStatus, InvoiceRow, Db}
use faktureringssystemet.Billing.Invoices.Repository.{is_invoice}
use faktureringssystemet.Billing.Payments.{mark_processed}
use faktureringssystemet.Billing.Invoices.Ledger.{
  Ledger, ledger_of, Steps, by, done, one_step, deliver,
}
use faktureringssystemet.Billing.Deliveries.{
  delivery_rank, DeliveryUpdate, DeliveryOutcome, is_behind, with_delivery, advance_delivery_status,
  customer_id_for_invoice, invalidate_customer_email, audit_email_invalidated, shut_off,
  invalidate_on_hard_bounce, not_reported, apply_report, apply,
}

bounce_ledger :
    (u : DeliveryUpdate) (db db' : Db) (b : Bool)
    → invalidate_on_hard_bounce u db ≡ ok (b, db')
    → (ledger_of db' ≡ ledger_of db) × (db'.processed_events ≡ db.processed_events)
unfolding invalidate_on_hard_bounce customer_id_for_invoice shut_off invalidate_customer_email
    audit_email_invalidated
bounce_ledger u db db' b h = ground arith

abbrev moved : DeliveryUpdate → Db → Db
moved u db = record db {
  invoices =
      update_where (is_behind u.tenant_id u.invoice_id u.delivery_status)
        (with_delivery u.delivery_status) db.invoices;
}

report_effect :
    (u : DeliveryUpdate) (db db' : Db) (o : DeliveryOutcome)
    → apply_report u db ≡ ok (o, db')
    → (o.applied ≡ true)
      × (db'.processed_events ≡ db.processed_events)
      × (ledger_of db' ≡ record (ledger_of db) {
        rows =
            update_where
              (is_behind u.tenant_id u.invoice_id u.delivery_status)
              (with_delivery u.delivery_status)
              db.invoices;
      })
unfolding apply_report advance_delivery_status
report_effect u db db' o h = elim (Result-cases (invalidate_on_hard_bounce u (moved u db))) [
  | inr (e, bad) ↦ absurd (ground arith)
  | inl ((b, db1), e) ↦
      let (same, events) = bounce_ledger u (moved u db) db1 b e in
      let at_end : db' ≡ db1 = ground arith in
      (
        ground arith,
        ap (λ (d : Db). d.processed_events) at_end ∙ events,
        ap ledger_of at_end ∙ same,
      )
]

apply_parts :
    (u : DeliveryUpdate) (db db' : Db) (o : DeliveryOutcome)
    → apply u db ≡ ok (o, db')
    → ((o ≡ not_reported) × (db' ≡ db))
      ⊎ ((count_where (λ e. e == u.event_id) db.processed_events ≡ 0)
          × (apply_report u
                (record db { processed_events = db.processed_events ++ u.event_id ∷ [] })
              ≡ ok (o, db')))
unfolding apply mark_processed
apply_parts u db db' o h =
    elim (Bool-cases (count_where (λ e. e == u.event_id) db.processed_events == 0)) [
      | inl fresh ↦ inr (ground arith, ground arith)
      | inr old ↦ inl (ground arith, ground arith)
    ]

-- A report that was applied is not applied again: the second delivery of the event changes nothing.
apply_report_twice :
    (u : DeliveryUpdate) (db db' : Db) (o : DeliveryOutcome)
    → apply u db ≡ ok (o, db')
    → apply u db' ≡ ok (not_reported, db')
unfolding apply mark_processed
apply_report_twice u db db' o h = elim (apply_parts u db db' o h) [
  | inl (e, same) ↦ ground arith
  | inr (fresh, b) ↦
      let (a, events, same) = report_effect u _ db' o b in
      let c = count_where-append (λ x. x == u.event_id) db.processed_events (u.event_id ∷ []) in
      let k : count_where (λ x. x == u.event_id) db'.processed_events == 0 ≡ false =
        rw events (ground arith) in
      rw k refl
]

-- Applying a report is a step of the ledger, or leaves the ledger alone.
pub apply-Steps :
    (u : DeliveryUpdate) (db db' : Db) (o : DeliveryOutcome)
    → apply u db ≡ ok (o, db')
    → Steps (by u.tenant_id) (ledger_of db) (ledger_of db')
apply-Steps u db db' o h = elim (apply_parts u db db' o h) [
  | inl (e, same) ↦ rw same done
  | inr (fresh, b) ↦
      let (a, events, same) = report_effect u _ db' o b in
      rw same (one_step (deliver u.tenant_id u.invoice_id u.delivery_status))
]

-- What a report does to the row it is about.
abbrev pub reported : DeliveryStatus → InvoiceRow → InvoiceRow
reported next r =
    if ltb (delivery_rank r.delivery_status) (delivery_rank next) then with_delivery next r else r

-- An event that is applied moves its invoice's delivery to the status reported if that ranks higher, and
-- leaves the invoice as it is otherwise.
pub apply_moves :
    (u : DeliveryUpdate) (db db' : Db) (o : DeliveryOutcome) (r : InvoiceRow)
    → apply u db ≡ ok (o, db')
    → o.applied ≡ true
    → find_first (is_invoice u.tenant_id u.invoice_id) db.invoices ≡ some r
    → find_first (is_invoice u.tenant_id u.invoice_id) db'.invoices
      ≡ some (reported u.delivery_status r)
apply_moves u db db' o r h k found = elim (apply_parts u db db' o h) [
  | inl (e, same) ↦ absurd (ground arith)
  | inr (fresh, b) ↦
      let (a, events, same) = report_effect u _ db' o b in
      let f =
        find_updated (is_invoice u.tenant_id u.invoice_id)
          (is_behind u.tenant_id u.invoice_id u.delivery_status) (with_delivery u.delivery_status)
          db.invoices (λ x. refl) found in
      let q = find_first_holds (is_invoice u.tenant_id u.invoice_id) db.invoices found in
      let e : is_behind u.tenant_id u.invoice_id u.delivery_status r
          ≡ ltb (delivery_rank r.delivery_status) (delivery_rank u.delivery_status) =
        rw q refl in
      ap (λ (l : Ledger). find_first (is_invoice u.tenant_id u.invoice_id) l.rows) same
      ∙ f
      ∙ ap (λ x. some (if x then with_delivery u.delivery_status r else r)) e
]

rank_injective : (a b : DeliveryStatus) → delivery_rank a ≡ delivery_rank b → a ≡ b
rank_injective a b h = ground arith

-- The later of two statuses in an order does not depend on which comes first.
module _ {S : Type 0} (rank : S → ℕ) (injective : (a b : S) → rank a ≡ rank b → a ≡ b) where
  abbrev top : S → S → S
  top s a = if ltb (rank s) (rank a) then a else s

  top_swap : (s a b : S) → top (top s a) b ≡ top (top s b) a
  top_swap s a b = elim (Bool-cases (rank a == rank b)) [
    | inl e ↦ let q = injective a b (ground arith) in rw q refl
    | inr e ↦ ground arith
  ]

abbrev moved_row : ℕ → ℕ → DeliveryStatus → InvoiceRow → InvoiceRow
moved_row t i s x = if is_behind t i s x then with_delivery s x else x

moved_status :
    (t i : ℕ) (a : DeliveryStatus) (r : InvoiceRow)
    → moved_row t i a r
      ≡ with_delivery
          (if is_invoice t i r
            then top delivery_rank rank_injective r.delivery_status a
            else r.delivery_status)
          r
moved_status t i a r = elim (Bool-cases (is_invoice t i r)) [
  | inr other ↦ rw other refl
  | inl own ↦ rw own (elim (Bool-cases (ltb (delivery_rank r.delivery_status) (delivery_rank a))) [
    | inl up ↦ rw up refl
    | inr kept ↦ rw kept refl
  ])
]

abbrev after_both : Bool → DeliveryStatus → DeliveryStatus → DeliveryStatus → DeliveryStatus
after_both own s a b =
    if own then top delivery_rank rank_injective (top delivery_rank rank_injective s a) b else s

moved_twice :
    (t i : ℕ) (a b : DeliveryStatus) (r : InvoiceRow)
    → moved_row t i b (moved_row t i a r)
      ≡ with_delivery (after_both (is_invoice t i r) r.delivery_status a b) r
moved_twice t i a b r =
    let s =
      if is_invoice t i r
      then top delivery_rank rank_injective r.delivery_status a
      else r.delivery_status in
    ap (moved_row t i b) (moved_status t i a r)
    ∙ moved_status t i b (with_delivery s r)
    ∙ elim (Bool-cases (is_invoice t i r)) [ inl own ↦ rw own refl | inr other ↦ rw other refl ]

both_swap : (own : Bool) (s a b : DeliveryStatus) → after_both own s a b ≡ after_both own s b a
both_swap true s a b = top_swap delivery_rank rank_injective s a b
both_swap false s a b = refl

row_swap :
    (t i : ℕ) (a b : DeliveryStatus) (r : InvoiceRow)
    → moved_row t i b (moved_row t i a r) ≡ moved_row t i a (moved_row t i b r)
row_swap t i a b r =
    moved_twice t i a b r
    ∙ ap (λ s. with_delivery s r) (both_swap (is_invoice t i r) r.delivery_status a b)
    ∙ sym (moved_twice t i b a r)

rows_swap :
    (t i : ℕ) (a b : DeliveryStatus) (rs : List InvoiceRow)
    → update_where
        (is_behind t i b)
        (with_delivery b)
        (update_where (is_behind t i a) (with_delivery a) rs)
      ≡ update_where
          (is_behind t i a)
          (with_delivery a)
          (update_where (is_behind t i b) (with_delivery b) rs)
rows_swap t i a b [] = refl
rows_swap t i a b (r ∷ rs) = ap₂ ◌∷◌ (row_swap t i a b r) (rows_swap t i a b rs)

-- Two reports on an invoice may come in either order: the invoices are the same after both.
reports_commute :
    (t i : ℕ) (a b : DeliveryStatus) (db : Db)
    → (advance_delivery_status t i a >> (advance_delivery_status t i b >> pure tt)) db
      ≡ (advance_delivery_status t i b >> (advance_delivery_status t i a >> pure tt)) db
unfolding advance_delivery_status
reports_commute t i a b db =
    ap (λ rs. ok (tt, record db { invoices = rs })) (rows_swap t i a b db.invoices)
