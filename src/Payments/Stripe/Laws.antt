-- ===== src/Payments/Stripe/Laws.antt =====
-- What a payment by card does in services/payments/src/stripe.
use faktureringssystemet.Prelude.{
  ℕ, ◌≡◌, ◌⊎◌, refl, ◌∙◌, inl, inr, true, false, ◌||◌, not, none, some, List, [], ◌∷◌, ◌++◌, arith,
  ◌==◌, find_first, update_where, count_where, Bool-cases, Option-cases,
}
use faktureringssystemet.Prelude.Int.{pos, leb_ℤ}
use faktureringssystemet.Prelude.Rows.{update_where_none, count_none}
use faktureringssystemet.Shared.Text.{Text}
use faktureringssystemet.Shared.Errors.{Error, ok, err, Result-cases}
use faktureringssystemet.Shared.Tx.{begin}
use faktureringssystemet.Payments.Store.{
  StripePaymentRow, PaymentEvent, PaymentsDb, InvoiceForMatching, BillingClient,
}
use faktureringssystemet.Payments.Matching.{is_open, stripe_payment_id, write_event}
use faktureringssystemet.Payments.Stripe.{
  decide_event_type, is_session, is_active, is_payable_session, find_last, as_paid, Provider,
  CheckoutSession, pending_session, new_session, StripeCheckoutEvent,
  find_active_pending_by_invoice, find_by_session_id, insert_pending, mark_paid_if_pending,
  create_checkout_session, book_session, handle_checkout_completed,
}

abbrev pub session_event :
    ℕ → StripeCheckoutEvent → ℕ → StripePaymentRow → InvoiceForMatching → PaymentEvent
session_event now event c row invoice = record {
  event_type = decide_event_type row.amount_ore invoice.remaining_ore;
  tenant_id = some row.tenant_id;
  correlation_id = c;
  invoice_id = invoice.current_invoice_id;
  amount_ore = row.amount_ore;
  payment_id = stripe_payment_id event.session_id;
  booked_at = now;
}

abbrev pub charged_db :
    ℕ → StripeCheckoutEvent → ℕ → StripePaymentRow → InvoiceForMatching → PaymentsDb → PaymentsDb
charged_db now event c row invoice db = record db {
  stripe_payments =
      update_where (is_payable_session event.session_id) (as_paid now event.id) db.stripe_payments;
  outbox = db.outbox ++ session_event now event c row invoice ∷ [];
}

book_session-cases :
    (now : ℕ) (event : StripeCheckoutEvent) (c : ℕ) (row : StripePaymentRow)
    (invoice : InvoiceForMatching) (db : PaymentsDb)
    → ((find_first (is_payable_session event.session_id) db.stripe_payments ≡ none)
        × (book_session now event c row invoice db ≡ ok (false, db)))
      ⊎ ((r : StripePaymentRow) × (find_first
              (is_payable_session event.session_id)
              db.stripe_payments
            ≡ some r)
          × (book_session now event c row invoice db
              ≡ ok (true, charged_db now event c row invoice db)))
unfolding book_session mark_paid_if_pending write_event
book_session-cases now event c row invoice db =
    let p = is_payable_session event.session_id in
    elim (Option-cases (find_first p db.stripe_payments)) [
      | inl missing ↦
          let same =
            update_where_none p (as_paid now event.id) db.stripe_payments
              (count_none p db.stripe_payments missing) in
          inl (missing, rw (missing, same) refl)
      | inr (r, found) ↦ inr (r, found, rw found refl)
    ]

complete_reaches :
    (client : BillingClient) (now : ℕ) (event : StripeCheckoutEvent) (c : ℕ) (db : PaymentsDb)
    → ((e : Error) × (handle_checkout_completed client now event c db ≡ err e))
      ⊎ (handle_checkout_completed client now event c db ≡ ok (false, db))
      ⊎ ((row : StripePaymentRow) × (invoice : InvoiceForMatching) × (handle_checkout_completed
              client now event c db
            ≡ book_session now event c row invoice db))
unfolding handle_checkout_completed find_by_session_id
complete_reaches client now event c db = elim (Bool-cases (event.is_completed)) [
  | inr other ↦ inr (inl (rw other refl))
  | inl completed ↦
      elim (Option-cases (find_first (is_session event.session_id) db.stripe_payments)) [
        | inl missing ↦ inr (inl (rw (completed, missing) refl))
        | inr (row, found) ↦
            elim (Result-cases (client.resolve_invoice_by_id row.tenant_id row.invoice_id c)) [
              | inr (e, fails) ↦ inl (e, rw (completed, found, fails) refl)
              | inl (none, no_invoice) ↦ inr (inl (rw (completed, found, no_invoice) refl))
              | inl (some invoice, answer) ↦
                  inr (inr (row, invoice, rw (completed, found, answer) refl))
            ]
      ]
]

-- What a message on a completed checkout comes to: an error, nothing, or one event and the session paid.
pub complete-cases :
    (client : BillingClient) (now : ℕ) (event : StripeCheckoutEvent) (c : ℕ) (db : PaymentsDb)
    → ((e : Error) × (handle_checkout_completed client now event c db ≡ err e))
      ⊎ (handle_checkout_completed client now event c db ≡ ok (false, db))
      ⊎ ((r row : StripePaymentRow) × (invoice : InvoiceForMatching) × (find_first
              (is_payable_session event.session_id)
              db.stripe_payments
            ≡ some r)
          × (handle_checkout_completed client now event c db
              ≡ ok (true, charged_db now event c row invoice db)))
complete-cases client now event c db = elim (complete_reaches client now event c db) [
  | inl fails ↦ inl fails
  | inr (inl ignored) ↦ inr (inl ignored)
  | inr (inr (row, invoice, reached)) ↦ elim (book_session-cases now event c row invoice db) [
    | inl (paid, same) ↦ inr (inl (reached ∙ same))
    | inr (r, unpaid, same) ↦ inr (inr (r, row, invoice, unpaid, reached ∙ same))
  ]
]

payable_gone :
    (s : Text) (now : ℕ) (id : Text) (rows : List StripePaymentRow)
    → find_first (is_payable_session s) (update_where (is_payable_session s) (as_paid now id) rows)
      ≡ none
payable_gone s now id [] = refl
payable_gone s now id (r ∷ rows) = ground (arith, payable_gone s now id rows)

-- A session that was booked is not booked again: any later message on it, whenever it comes and whatever
-- billing answers, leaves the database as it is.
pub complete_twice :
    (client : BillingClient) (now : ℕ) (event : StripeCheckoutEvent) (c : ℕ) (db db' : PaymentsDb)
    (client' : BillingClient) (now' : ℕ) (event' : StripeCheckoutEvent) (c' : ℕ)
    → handle_checkout_completed client now event c db ≡ ok (true, db')
    → event'.session_id ≡ event.session_id
    → (begin (handle_checkout_completed client' now' event' c') db').1 ≡ db'
complete_twice client now event c db db' client' now' event' c' h same_session =
    elim (complete-cases client' now' event' c' db') [
      | inl (e, fails) ↦ rw fails refl
      | inr (inl nothing) ↦ rw nothing refl
      | inr (inr (r', row', invoice', payable, again)) ↦
          elim (complete-cases client now event c db) [
            | inl (e, fails) ↦ absurd (ground arith)
            | inr (inl nothing) ↦ absurd (ground arith)
            | inr (inr (r, row, invoice, found, first)) ↦
                let rows : db'.stripe_payments
                    ≡ update_where (is_payable_session event.session_id) (as_paid now event.id)
                        db.stripe_payments =
                  ground arith in
                let gone = payable_gone event.session_id now event.id db.stripe_payments in
                let still : find_first (is_payable_session event.session_id) db'.stripe_payments
                    ≡ some r' =
                  rw⁻¹ same_session payable in
                absurd (ground arith)
          ]
    ]

pub new_session-cases :
    (provider : Provider) (t : ℕ) (invoice : InvoiceForMatching) (db : PaymentsDb)
    → ((e : Error) × (new_session provider t invoice db ≡ err e))
      ⊎ ((s : CheckoutSession) × (provider invoice.remaining_ore invoice.currency t
              invoice.current_invoice_id
            ≡ ok s)
          × (count_where (is_session s.session_id) db.stripe_payments ≡ 0)
          × (new_session provider t invoice db
              ≡ ok (
                s.url,
                record db {
                  stripe_payments = db.stripe_payments ++ pending_session t invoice s ∷ [];
                },
              )))
unfolding insert_pending
new_session-cases provider t invoice db =
    elim (Result-cases
      (provider invoice.remaining_ore invoice.currency t invoice.current_invoice_id)) [
        | inr (e, fails) ↦ inl (e, rw fails refl)
        | inl (s, session) ↦
            elim (Bool-cases (count_where (is_session s.session_id) db.stripe_payments == 0)) [
              | inl new ↦ inr (s, session, ground arith, ground arith)
              | inr used ↦ inl (Error.plain_error, ground arith)
            ]
      ]

-- What opening a checkout leaves: the database as it was, or one more session, with a new name.
pub create-cases :
    (client : BillingClient) (provider : Provider) (now t i c : ℕ) (db : PaymentsDb)
    → ((begin (create_checkout_session client provider now t i c) db).1 ≡ db)
      ⊎ ((invoice : InvoiceForMatching) × (s : CheckoutSession) × (count_where
              (is_session s.session_id)
              db.stripe_payments
            ≡ 0)
          × ((begin (create_checkout_session client provider now t i c) db).1 ≡ record db {
            stripe_payments = db.stripe_payments ++ pending_session t invoice s ∷ [];
          }))
unfolding create_checkout_session find_active_pending_by_invoice insert_pending
create-cases client provider now t i c db =
    elim (Result-cases (client.resolve_invoice_by_id t i c)) [
      | inr (e, fails) ↦ inl (rw fails refl)
      | inl (none, no_invoice) ↦ inl (rw no_invoice refl)
      | inl (some invoice, answer) ↦
          elim (Bool-cases (not (is_open invoice.status) || leb_ℤ invoice.remaining_ore (pos 0))) [
            | inl unpayable ↦ inl (rw (answer, unpayable) refl)
            | inr payable ↦
                elim (Option-cases
                  (find_last (is_active now t invoice.current_invoice_id) db.stripe_payments)) [
                    | inr (r, active) ↦ inl (rw (answer, payable, active) refl)
                    | inl inactive ↦ elim (new_session-cases provider t invoice db) [
                      | inl (e, fails) ↦ inl (rw (answer, payable, inactive, fails) refl)
                      | inr (s, session, new, same) ↦
                          inr (invoice, s, new, rw (answer, payable, inactive, same) refl)
                    ]
                  ]
          ]
    ]
