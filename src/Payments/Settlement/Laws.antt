-- ===== src/Payments/Settlement/Laws.antt =====
-- A matched payment at billing: services/payments/src/matching and services/billing/src/payments together.
use faktureringssystemet.Prelude.{
  ℕ, ◌+◌, ◌≤◌, ◌≡◌, refl, sym, ap, ◌∙◌, inl, inr, Bool, true, false, ◌&&◌, Option, none, some,
  arith, if◌then◌else◌, or_else, find_first, count_where, Bool-cases, Option-cases,
  find_first_holds,
}
use faktureringssystemet.Prelude.Int.{ℤ, pos, ◌-ℤ◌, ◌≤ℤ◌, leb_ℤ, -ℤ_parts}
use faktureringssystemet.Prelude.Rows.{found_by_key}
use faktureringssystemet.Shared.Text.{Text}
use faktureringssystemet.Shared.Errors.{Error, ok, err}
use faktureringssystemet.Billing.Store.{InvoiceStatus, InvoiceRow, Db}
use faktureringssystemet.Billing.Invoices.Repository.{is_invoice, paid_of, with_status}
use faktureringssystemet.Billing.Invoices.Resolve.{
  has_text, has_ocr, resolved_as, find_by_ocr, resolve_by_ocr,
}
use faktureringssystemet.Billing.Invoices.Resolve.Laws.{Chain, here, onwards, resolve_by_ocr_ends}
use faktureringssystemet.Billing.Payments.{PaymentApplyOutcome, apply, is_bookable}
use faktureringssystemet.Billing.Payments.Laws.{apply_settles}
use faktureringssystemet.Payments.Store.{PaymentEvent, PaymentEventType, InvoiceForMatching}
use faktureringssystemet.Payments.Matching.{
  MatchInput, MatchDecision, decide_match, event_for, event_from, is_matched, is_open, eq_ℤ,
}
use faktureringssystemet.Payments.Matching.Laws.{matched_pays_open}
use faktureringssystemet.Payments.Settlement.{answer_of, for_matching, client_of, update_of}

-- No two invoices of a tenant have the same id.
abbrev pub HasUniqueIds : Db → Type 0
HasUniqueIds db = (t i : ℕ) → count_where (is_invoice t i) db.invoices ≤ 1

-- An invoice on the way from one that is found by any test is found under its own id.
Chain-found :
    (t : ℕ) (db : Db) (p : InvoiceRow → Bool) (start e : InvoiceRow)
    → HasUniqueIds db
    → find_first p db.invoices ≡ some start
    → start.tenant_id ≡ t
    → Chain t db start e
    → find_first (is_invoice t e.id) db.invoices ≡ some e
Chain-found t db p start e u found tenant here =
    found_by_key p (is_invoice t start.id) db.invoices (u t start.id) found (ground arith)
Chain-found t db p start e u found tenant (onwards {r} c i s on there) =
    let k = find_first_holds (is_invoice t i) db.invoices there in
    let same : e.id ≡ i = ground arith in
    ap (λ x. find_first (is_invoice t x) db.invoices) same ∙ there

has_ocr_tenant : (t : ℕ) (ocr : Text) (r : InvoiceRow) → has_ocr t ocr r ≡ true → r.tenant_id ≡ t
has_ocr_tenant t ocr r h = elim (Bool-cases (has_text ocr r.ocr_number)) [
  | inl y ↦ ground arith
  | inr n ↦ absurd (ground arith)
]

unknown_ocr :
    (t : ℕ) (ocr : Text) (db : Db)
    → find_first (has_ocr t ocr) db.invoices ≡ none
    → resolve_by_ocr t ocr db ≡ err Error.not_found
unfolding resolve_by_ocr find_by_ocr
unknown_ocr t ocr db h = rw h refl

-- What billing answers for a reference is about an invoice that it finds under the id of the answer.
answered_found :
    (db : Db) (t c : ℕ) (ocr : Text) (invoice : InvoiceForMatching)
    → HasUniqueIds db
    → (client_of db).resolve_invoice_by_ocr t ocr c ≡ ok (some invoice)
    → (e : InvoiceRow) × (find_first (is_invoice t e.id) db.invoices ≡ some e)
      × (invoice ≡ for_matching (resolved_as e (paid_of t e.id db)))
answered_found db t c ocr invoice u h =
    elim (Option-cases (find_first (has_ocr t ocr) db.invoices)) [
      | inl missing ↦
          let told = sym (ap (answer_of for_matching) (unknown_ocr t ocr db missing)) ∙ h in
          absurd (ground arith)
      | inr (m, found) ↦
          let (e, same, way, end) = resolve_by_ocr_ends t ocr db m found in
          let holds = find_first_holds (has_ocr t ocr) db.invoices found in
          let tenant : m.tenant_id ≡ t = has_ocr_tenant t ocr m holds in
          let told = sym (ap (answer_of for_matching) same) ∙ h in
          (e, Chain-found t db (has_ocr t ocr) m e u found tenant way, ground arith)
    ]

event_parts :
    (input : MatchInput) (d : MatchDecision) (type : Option PaymentEventType) (i : Option ℕ)
    (e : PaymentEvent)
    → event_from input d type i ≡ some e
    → (is_matched d.on_row.status ≡ true)
      × (type ≡ some e.event_type)
      × (i ≡ some e.invoice_id)
      × (e.amount_ore ≡ input.amount_ore)
      × (e.tenant_id ≡ d.on_row.tenant_id)
event_parts input d none i e h = absurd (ground arith)
event_parts input d (some type) none e h = absurd (ground arith)
event_parts input d (some type) (some i) e h = elim (Bool-cases (is_matched d.on_row.status)) [
  | inr other ↦ absurd (ground arith)
  | inl matched ↦ (matched, ground arith, ground arith, ground arith, ground arith)
]

abbrev pub is_full : PaymentEventType → Bool
is_full PaymentEventType.payment_matched = true
is_full PaymentEventType.payment_partial = false

-- The amounts: what is paid with the payment is at most the total, and all of it exactly if the payment
-- is all that remained.
covers :
    (total : ℤ) (paid amount : ℕ)
    → pos amount ≤ℤ (total -ℤ pos paid)
    → (pos (paid + amount) ≤ℤ total)
      × (leb_ℤ total (pos (paid + amount)) ≡ eq_ℤ (pos amount) (total -ℤ pos paid))
covers total paid amount h =
    let p = -ℤ_parts total (pos paid) in (omega (arith, p, h), ground (arith, p, h))

open_bookable : (s : InvoiceStatus) → is_open s ≡ is_bookable s
open_bookable s = ground arith

full_if :
    (b : Bool) (type : PaymentEventType)
    → some type
      ≡ some (if b then PaymentEventType.payment_matched else PaymentEventType.payment_partial)
    → is_full type ≡ b
full_if b type h = ground arith

abbrev settled_row : InvoiceRow → Bool → Option InvoiceRow
settled_row e b = some (if b then with_status InvoiceStatus.paid e else e)

-- What booking an event does, in terms of its tenant and of the invoice that it names.
booked_as :
    (db db' : Db) (ev : PaymentEvent) (id : ℕ) (o : PaymentApplyOutcome) (t : ℕ) (e : InvoiceRow)
    → or_else ev.tenant_id 0 ≡ t
    → find_first (is_invoice t ev.invoice_id) db.invoices ≡ some e
    → apply (update_of id ev) db ≡ ok (o, db')
    → o.applied ≡ true
    → o.payment_inserted ≡ true
    → (paid_of t ev.invoice_id db' ≡ paid_of t ev.invoice_id db + ev.amount_ore)
      × (find_first (is_invoice t ev.invoice_id) db'.invoices
          ≡ settled_row e (
              is_bookable e.status
              && leb_ℤ e.total_incl_vat_ore (pos (paid_of t ev.invoice_id db'))))
booked_as db db' ev id o t e tenant found booked applied inserted =
    let (r, at, paid, said, after) = apply_settles (update_of id ev) db db' o booked applied in
    let both =
      sym found ∙ ap (λ x. find_first (is_invoice x ev.invoice_id) db.invoices) (sym tenant) ∙ at in
    let row : r ≡ e = ground arith in
    (
      ap (λ x. paid_of x ev.invoice_id db') (sym tenant)
          ∙ paid
          ∙ ap
              (λ b.
                paid_of (or_else ev.tenant_id 0) ev.invoice_id db
                + (if b then ev.amount_ore else 0))
              (sym said ∙ inserted)
          ∙ ap (λ x. paid_of x ev.invoice_id db + ev.amount_ore) tenant,
      ap (λ x. find_first (is_invoice x ev.invoice_id) db'.invoices) (sym tenant)
          ∙ after
          ∙ ap
              (λ y. settled_row y (
                is_bookable y.status
                && leb_ℤ y.total_incl_vat_ore
                    (pos (paid_of (or_else ev.tenant_id 0) ev.invoice_id db'))))
              row
          ∙ ap
              (λ x. settled_row e (
                is_bookable e.status
                && leb_ℤ e.total_incl_vat_ore (pos (paid_of x ev.invoice_id db'))))
              tenant,
    )

-- A payment that payments matches by billing's answers, and whose event billing then books with nothing in
-- between: the invoice is sent or overdue, it is not paid beyond its total, and billing sets it to paid
-- exactly if the event says that it is paid in full.
pub matched_then_settled :
    (db db' : Db) (input : MatchInput) (d : MatchDecision) (ev : PaymentEvent) (id : ℕ)
    (o : PaymentApplyOutcome)
    → HasUniqueIds db
    → decide_match (client_of db) input ≡ ok d
    → event_for input d ≡ some ev
    → apply (update_of id ev) db ≡ ok (o, db')
    → o.applied ≡ true
    → o.payment_inserted ≡ true
    → (t : ℕ) × (e : InvoiceRow) × (ev.tenant_id ≡ some t)
      × (find_first (is_invoice t ev.invoice_id) db.invoices ≡ some e)
      × (is_bookable e.status ≡ true)
      × (pos (paid_of t ev.invoice_id db') ≤ℤ e.total_incl_vat_ore)
      × (find_first (is_invoice t ev.invoice_id) db'.invoices
          ≡ some (if is_full ev.event_type then with_status InvoiceStatus.paid e else e))
matched_then_settled db db' input d ev id o u decided event booked applied inserted =
    let (matched, type, invoice_id, amount, tenant) =
      event_parts input d d.event_type d.on_row.matched_invoice_id ev event in
    let (t, invoice, rests, opened, fits, tenant', invoice_id', type') =
      matched_pays_open (client_of db) input d decided matched in
    let (e, found, told) = answered_found db t input.correlation_id input.ocr invoice u rests.2 in
    let said = sym type ∙ type' in
    let tenant_same : ev.tenant_id ≡ some t = tenant ∙ tenant' in
    let t_same : or_else ev.tenant_id 0 ≡ t = ap (λ x. or_else x 0) tenant_same in
    let id_told : invoice.current_invoice_id ≡ e.id =
      ap (λ (x : InvoiceForMatching). x.current_invoice_id) told in
    let id_said = sym invoice_id ∙ invoice_id' in
    let id_same : ev.invoice_id ≡ e.id = ground arith in
    let remaining : invoice.remaining_ore ≡ e.total_incl_vat_ore -ℤ pos (paid_of t e.id db) =
      ap (λ (x : InvoiceForMatching). x.remaining_ore) told in
    let found' : find_first (is_invoice t ev.invoice_id) db.invoices ≡ some e =
      ap (λ x. find_first (is_invoice t x) db.invoices) id_same ∙ found in
    let (paid, after) = booked_as db db' ev id o t e t_same found' booked applied inserted in
    let paid' : paid_of t ev.invoice_id db' ≡ paid_of t e.id db + input.amount_ore =
      paid
      ∙ ap (λ x. paid_of t x db + ev.amount_ore) id_same
      ∙ ap (λ x. paid_of t e.id db + x) amount in
    let (within, exact) =
      covers e.total_incl_vat_ore (paid_of t e.id db) input.amount_ore (rw (← remaining) fits) in
    let bookable : is_bookable e.status ≡ true =
      sym (open_bookable e.status)
      ∙ ap is_open (sym (ap (λ (x : InvoiceForMatching). x.status) told))
      ∙ opened in
    let full : is_full ev.event_type
        ≡ leb_ℤ e.total_incl_vat_ore (pos (paid_of t ev.invoice_id db')) =
      full_if (eq_ℤ (pos input.amount_ore) invoice.remaining_ore) ev.event_type said
      ∙ ap (eq_ℤ (pos input.amount_ore)) remaining
      ∙ sym exact
      ∙ ap (λ x. leb_ℤ e.total_incl_vat_ore (pos x)) (sym paid') in
    (
      t,
      e,
      tenant_same,
      found',
      bookable,
      rw paid' within,
      after
          ∙ ap
              (λ b.
                settled_row e (b && leb_ℤ e.total_incl_vat_ore (pos (paid_of t ev.invoice_id db'))))
              bookable
          ∙ ap (settled_row e) (sym full),
    )
