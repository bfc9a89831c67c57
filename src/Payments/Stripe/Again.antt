-- ===== src/Payments/Stripe/Again.antt =====
-- Asking again to pay an invoice by card, which services/payments/src/stripe/service.ts answers with the open session.
use faktureringssystemet.Payments.Stripe.Laws.{new_session-cases}
use faktureringssystemet.Prelude.{
  ℕ, String, ◌≡◌, refl, sym, ap, ◌∙◌, inl, inr, Bool, true, false, ◌||◌, not, none, some, List, [],
  ◌∷◌, ◌++◌, arith, ltb, Bool-cases, Option-cases,
}
use faktureringssystemet.Prelude.Int.{ℤ, pos, leb_ℤ}
use faktureringssystemet.Shared.Text.{Text}
use faktureringssystemet.Shared.Errors.{ok, Result-cases}
use faktureringssystemet.Payments.Store.{
  StripePaymentRow, PaymentsDb, InvoiceForMatching, BillingClient,
}
use faktureringssystemet.Payments.Matching.{is_open}
use faktureringssystemet.Payments.Stripe.{
  is_active, find_last, Provider, CheckoutSession, pending_session, new_session,
  find_active_pending_by_invoice, insert_pending, create_checkout_session,
}

find_last-snoc :
    (p : StripePaymentRow → Bool) (rows : List StripePaymentRow) (r : StripePaymentRow)
    → p r ≡ true
    → find_last p (rows ++ r ∷ []) ≡ some r
find_last-snoc p [] r h = ground arith
find_last-snoc p (x ∷ rows) r h = let rest = find_last-snoc p rows r h in rw rest refl

-- A second request finds a session that can still be paid.
open_again :
    (client : BillingClient) (provider : Provider) (now t i c : ℕ) (db : PaymentsDb)
    (invoice : InvoiceForMatching) (r : StripePaymentRow)
    → client.resolve_invoice_by_id t i c ≡ ok (some invoice)
    → (not (is_open invoice.status) || leb_ℤ invoice.remaining_ore (pos 0)) ≡ false
    → find_last (is_active now t invoice.current_invoice_id) db.stripe_payments ≡ some r
    → create_checkout_session client provider now t i c db ≡ ok (r.checkout_url, db)
unfolding create_checkout_session find_active_pending_by_invoice
open_again client provider now t i c db invoice r answer payable active =
    rw (answer, payable, active) refl

open_new :
    (client : BillingClient) (provider : Provider) (now t i c : ℕ) (db : PaymentsDb)
    (invoice : InvoiceForMatching)
    → client.resolve_invoice_by_id t i c ≡ ok (some invoice)
    → (not (is_open invoice.status) || leb_ℤ invoice.remaining_ore (pos 0)) ≡ false
    → find_last (is_active now t invoice.current_invoice_id) db.stripe_payments ≡ none
    → create_checkout_session client provider now t i c db ≡ new_session provider t invoice db
unfolding create_checkout_session find_active_pending_by_invoice
open_new client provider now t i c db invoice answer payable inactive =
    rw (answer, payable, inactive) refl

-- Where the provider's sessions have not run out when they are made, a second request to pay the same
-- invoice at the same moment answers the address of the first and opens no second session.
check_out_twice :
    (client : BillingClient) (provider : Provider) (now t i c : ℕ) (db db' : PaymentsDb)
    (url : Text)
    → ((a : ℤ) (currency : String) (u j : ℕ) (s : CheckoutSession)
        → provider a currency u j ≡ ok s
        → ltb now s.expires_at ≡ true)
    → create_checkout_session client provider now t i c db ≡ ok (url, db')
    → create_checkout_session client provider now t i c db' ≡ ok (url, db')
unfolding create_checkout_session find_active_pending_by_invoice insert_pending
check_out_twice client provider now t i c db db' url lasts h =
    elim (Result-cases (client.resolve_invoice_by_id t i c)) [
      | inr (e, fails) ↦ absurd (ground arith)
      | inl (none, no_invoice) ↦ absurd (ground arith)
      | inl (some invoice, answer) ↦
          elim (Bool-cases (not (is_open invoice.status) || leb_ℤ invoice.remaining_ore (pos 0))) [
            | inl unpayable ↦ absurd (ground arith)
            | inr payable ↦
                elim (Option-cases
                  (find_last (is_active now t invoice.current_invoice_id) db.stripe_payments)) [
                    | inr (r, active) ↦
                        let first =
                          open_again client provider now t i c db invoice r answer payable active in
                        let same = sym first ∙ h in
                        let db_same : db ≡ db' = ground arith in
                        rw (← db_same) (first ∙ same ∙ ap (λ x. ok (url, x)) (sym db_same))
                    | inl inactive ↦ elim (new_session-cases provider t invoice db) [
                      | inl (e, fails) ↦
                          let made =
                            sym fails
                            ∙ sym (
                                open_new client provider now t i c db invoice answer payable
                                  inactive)
                            ∙ h in
                          absurd (ground arith)
                      | inr (s, session, new, same) ↦
                          let made =
                            sym same
                            ∙ sym (
                                open_new client provider now t i c db invoice answer payable
                                  inactive)
                            ∙ h in
                          let url_same : s.url ≡ url = ground arith in
                          let db_same : record db {
                            stripe_payments =
                                db.stripe_payments ++ pending_session t invoice s ∷ [];
                          }
                              ≡ db' =
                            ground arith in
                          let fresh = lasts _ _ _ _ s session in
                          let at =
                            find_last-snoc (is_active now t invoice.current_invoice_id)
                              db.stripe_payments (pending_session t invoice s) (ground arith) in
                          rw (← db_same, ← url_same)
                            (open_again client provider now t i c _ invoice _ answer payable at)
                    ]
                  ]
          ]
    ]
