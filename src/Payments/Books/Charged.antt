-- ===== src/Payments/Books/Charged.antt =====
-- The payments by card keep the books of services/payments.
use faktureringssystemet.Prelude.{
  ℕ, ◌≡◌, refl, ap, ◌∙◌, inl, inr, true, false, some, List, [], ◌∷◌, ◌++◌, arith, is_some,
  find_first, update_where, count_where, count_where-append, Bool-cases, find_first_holds,
}
use faktureringssystemet.Prelude.Rows.{
  as_count, count_where_mono, count_where-update_where, count_update_one,
}
use faktureringssystemet.Shared.Text.{Text, text_eq, text_eq→≡}
use faktureringssystemet.Shared.Tx.{begin}
use faktureringssystemet.Payments.Store.{StripePaymentRow, PaymentEvent, PaymentsDb, BillingClient}
use faktureringssystemet.Payments.Matching.PaymentIds.{
  PaymentOrigin, external, manual, stripe, payment_id_of,
}
use faktureringssystemet.Payments.Stripe.{
  Provider, StripeCheckoutEvent, is_session, is_payable_session, as_paid, pending_session,
  create_checkout_session, handle_checkout_completed,
}
use faktureringssystemet.Payments.Stripe.Laws.{session_event, complete-cases, create-cases}
use faktureringssystemet.Payments.Books.{IsBooked, with_event, events_of-with_event}
use faktureringssystemet.Payments.Books.Steps.{IsConsistent, IsCharged, is_paid_session}

session_of :
    (s : Text) (r : StripePaymentRow) → is_payable_session s r ≡ true → is_session s r ≡ true
session_of s r h = ground arith

unpaid_of :
    (s : Text) (r : StripePaymentRow) → is_payable_session s r ≡ true → is_some r.paid_at ≡ false
unpaid_of s r h = elim (Bool-cases (is_session s r)) [
  | inl t ↦ ground arith
  | inr t ↦ absurd (ground arith)
]

not_paid :
    (t : Text) (r : StripePaymentRow)
    → is_some r.paid_at ≡ false
    → as_count (is_paid_session t r) ≡ 0
not_paid t r h = elim (Bool-cases (is_session t r)) [ inl y ↦ ground arith | inr n ↦ ground arith ]

-- An event under the name of a session leaves the transactions' books alone.
card-IsBooked :
    (db : PaymentsDb) (s : Text) (e : PaymentEvent)
    → IsBooked db.transactions db.next_transaction_id db.outbox
    → e.payment_id ≡ payment_id_of (stripe s)
    → IsBooked db.transactions db.next_transaction_id (db.outbox ++ e ∷ [])
unfolding with_event
card-IsBooked db s e b name =
    let named : (x : PaymentEvent) → some e ≡ some x → x.payment_id ≡ payment_id_of (stripe s) =
      (λ x h. let same : e ≡ x = ground arith in rw (← same) name) in
    let k = (λ (o : PaymentOrigin). events_of-with_event (stripe s) o db.outbox (some e) named) in
    record {
      ids = b.ids;
      keys = b.keys;
      events = λ t n r h.
          let old = b.events t n r h in rw (k (external t n), k (manual r.id)) (omega (arith, old));
      unknown = λ t n h. let old = b.unknown t n h in rw (k (external t n)) (omega (arith, old));
      unused = λ i h. let old = b.unused i h in rw (k (manual i)) (omega (arith, old));
    }

module _ (rows : List StripePaymentRow) (outbox : List PaymentEvent)
    (c : IsCharged rows outbox) where
  -- A new session has no event.
  check_out-IsCharged :
      (r : StripePaymentRow)
      → count_where (is_session r.stripe_session_id) rows ≡ 0
      → is_some r.paid_at ≡ false
      → IsCharged (rows ++ r ∷ []) outbox
  check_out-IsCharged r new unpaid = record {
    unique = λ s.
        let a = count_where-append (is_session s) rows (r ∷ []) in
        let u = c.unique s in
        elim (Bool-cases (text_eq r.stripe_session_id s)) [
          | inl t ↦
              let same = text_eq→≡ r.stripe_session_id s t in
              let none_there : count_where (is_session s) rows ≡ 0 = rw⁻¹ same new in ground arith
          | inr f ↦ ground arith
        ];
    booked = λ s.
        let a = count_where-append (is_paid_session s) rows (r ∷ []) in
        let k = c.booked s in
        elim (Bool-cases (is_session s r)) [ inl t ↦ ground arith | inr f ↦ ground arith ];
  }

  -- The event of a session that is paid now.
  paid-IsCharged :
      (s : Text) (now : ℕ) (id : Text) (r : StripePaymentRow) (e : PaymentEvent)
      → find_first (is_payable_session s) rows ≡ some r
      → e.payment_id ≡ payment_id_of (stripe s)
      → IsCharged (update_where (is_payable_session s) (as_paid now id) rows) (outbox ++ e ∷ [])
  unfolding with_event
  paid-IsCharged s now id r e found name = record {
    unique = λ t.
        let n =
          count_where-update_where (is_session t) (is_payable_session s) (as_paid now id) rows
            (λ x. refl) in
        let u = c.unique t in rw n u;
    booked = λ t.
        let named : (x : PaymentEvent) → some e ≡ some x → x.payment_id ≡ payment_id_of (stripe s) =
          (λ x h. let same : e ≡ x = ground arith in rw (← same) name) in
        let holds = find_first_holds (is_payable_session s) rows found in
        let session : r.stripe_session_id ≡ s = text_eq→≡ _ _ (session_of s r holds) in
        let mono = count_where_mono (is_payable_session s) (is_session s) rows (session_of s) in
        let u = c.unique s in
        let pays =
          count_update_one (is_paid_session t) (is_payable_session s) (as_paid now id) rows r
            (omega (arith, mono, u)) found in
        let events = events_of-with_event (stripe s) (stripe t) outbox (some e) named in
        let old = c.booked t in
        let same : text_eq r.stripe_session_id t ≡ text_eq s t = ap (λ x. text_eq x t) session in
        let unpaid = unpaid_of s r holds in
        let before : as_count (is_paid_session t r) ≡ 0 = not_paid t r unpaid in
        let after : as_count (is_paid_session t (as_paid now id r)) ≡ as_count (text_eq s t) =
          elim (Bool-cases (is_session t r)) [ inl y ↦ ground arith | inr n ↦ ground arith ] in
        events ∙ omega (arith, old, pays, before, after);
  }

pub check_out-IsConsistent :
    (client : BillingClient) (provider : Provider) (now t i c : ℕ) (db : PaymentsDb)
    → IsConsistent db
    → IsConsistent (begin (create_checkout_session client provider now t i c) db).1
check_out-IsConsistent client provider now t i c db (b, k) =
    elim (create-cases client provider now t i c db) [
      | inl same ↦ rw same (b, k)
      | inr (invoice, s, new, same) ↦ rw same (
        b,
        check_out-IsCharged db.stripe_payments db.outbox k (pending_session t invoice s) new refl,
      )
    ]

pub complete-IsConsistent :
    (client : BillingClient) (now : ℕ) (event : StripeCheckoutEvent) (c : ℕ) (db : PaymentsDb)
    → IsConsistent db
    → IsConsistent (begin (handle_checkout_completed client now event c) db).1
complete-IsConsistent client now event c db (b, k) = elim (complete-cases client now event c db) [
  | inl (e, fails) ↦ rw fails (b, k)
  | inr (inl nothing) ↦ rw nothing (b, k)
  | inr (inr (r, row, invoice, found, same)) ↦
      let e = session_event now event c row invoice in
      rw same (
        card-IsBooked db event.session_id e b refl,
        paid-IsCharged db.stripe_payments db.outbox k event.session_id now event.id r e found refl,
      )
]
