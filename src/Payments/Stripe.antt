-- ===== src/Payments/Stripe.antt =====
-- services/payments/src/stripe/service.ts and repository.ts: a customer's payment by card. The session
-- that Stripe answers with is a parameter, and the alarms that are logged are left out.
pub mod Laws
pub mod Again
use faktureringssystemet.Prelude.{
  ℕ, Bool, true, false, ◌&&◌, ◌||◌, not, Option, none, some, List, [], ◌∷◌, ◌++◌, String, ◌==◌, ltb,
  if◌then◌else◌, find_first, update_where, count_where, is_some,
}
use faktureringssystemet.Prelude.Int.{ℤ, pos, pos_part, leb_ℤ}
use faktureringssystemet.Shared.Text.{Text, text_eq}
use faktureringssystemet.Shared.Errors.{Error, Result, ok, err}
use faktureringssystemet.Shared.Tx.{
  Tx, pure, gets, modify, begin, lift, or_throw, throw_if, ◌>>=◌, ◌>>◌,
}
use faktureringssystemet.Payments.Store.{
  StripePaymentRow, PaymentEventType, PaymentsDb, BillingClient, InvoiceForMatching,
}
use faktureringssystemet.Payments.Matching.{is_open, stripe_payment_id, write_event}

unfoldable pub decide_event_type : ℕ → ℤ → PaymentEventType
decide_event_type amount remaining =
    if leb_ℤ remaining (pos amount)
    then PaymentEventType.payment_matched
    else PaymentEventType.payment_partial

abbrev pub is_session : Text → StripePaymentRow → Bool
is_session s r = text_eq r.stripe_session_id s

abbrev pub is_unpaid : StripePaymentRow → Bool
is_unpaid r = not (is_some r.paid_at)

abbrev pub is_active : ℕ → ℕ → ℕ → StripePaymentRow → Bool
is_active now t i r = r.tenant_id == t && r.invoice_id == i && is_unpaid r && ltb now r.expires_at

-- ORDER BY created_at DESC LIMIT 1: the row that was written last.
abbrev pub find_last : (StripePaymentRow → Bool) → List StripePaymentRow → Option StripePaymentRow
find_last p [] = none
find_last p (r ∷ rs) = elim (find_last p rs) [
  | some s ↦ some s
  | none ↦ if p r then some r else none
]

unfoldable pub find_active_pending_by_invoice : ℕ → ℕ → ℕ → Tx PaymentsDb (Option StripePaymentRow)
find_active_pending_by_invoice now t i =
    gets (λ db. find_last (is_active now t i) db.stripe_payments)

unfoldable pub find_by_session_id : Text → Tx PaymentsDb (Option StripePaymentRow)
find_by_session_id s = gets (λ db. find_first (is_session s) db.stripe_payments)

-- A session id is unique in the table.
unfoldable pub insert_pending : StripePaymentRow → Tx PaymentsDb (Unit {0})
insert_pending r = do
  there ←
      gets (λ (db : PaymentsDb). count_where (is_session r.stripe_session_id) db.stripe_payments)
  throw_if (not (there == 0)) Error.plain_error
  modify (λ db. record db { stripe_payments = db.stripe_payments ++ r ∷ [] })

abbrev pub as_paid : ℕ → Text → StripePaymentRow → StripePaymentRow
as_paid now event r = record r { paid_at = some now; stripe_event_id = some event }

abbrev pub is_payable_session : Text → StripePaymentRow → Bool
is_payable_session s r = is_session s r && is_unpaid r

-- The row as it is after the UPDATE, if the UPDATE changed it.
unfoldable pub mark_paid_if_pending : ℕ → Text → Text → Tx PaymentsDb (Option StripePaymentRow)
mark_paid_if_pending now s event = do
  row ← gets (λ (db : PaymentsDb). find_first (is_payable_session s) db.stripe_payments)
  modify (λ db. record db {
    stripe_payments = update_where (is_payable_session s) (as_paid now event) db.stripe_payments;
  })
  pure (elim row [ none ↦ none | some r ↦ some (as_paid now event r) ])

-- What the provider makes of an amount, a currency, a tenant and an invoice.
pub record CheckoutSession : Type 0 where
  pub session_id : Text
  pub url : Text
  pub expires_at : ℕ

abbrev pub Provider : Type 0
Provider = ℤ → String → ℕ → ℕ → Result CheckoutSession

abbrev pub pending_session : ℕ → InvoiceForMatching → CheckoutSession → StripePaymentRow
pending_session t invoice s = record {
  tenant_id = t;
  invoice_id = invoice.current_invoice_id;
  stripe_session_id = s.session_id;
  checkout_url = s.url;
  expires_at = s.expires_at;
  stripe_event_id = none;
  amount_ore = pos_part invoice.remaining_ore;
  currency = invoice.currency;
  paid_at = none;
}

abbrev pub new_session : Provider → ℕ → InvoiceForMatching → Tx PaymentsDb Text
new_session provider t invoice = do
  s ← lift (provider invoice.remaining_ore invoice.currency t invoice.current_invoice_id)
  insert_pending (pending_session t invoice s)
  pure s.url

abbrev pub reuse_or : Option StripePaymentRow → Tx PaymentsDb Text → Tx PaymentsDb Text
reuse_or none make = make
reuse_or (some r) make = pure r.checkout_url

-- `createCheckoutSession`; the answer is the address to pay at.
unfoldable pub create_checkout_session :
    BillingClient → Provider → ℕ → ℕ → ℕ → ℕ → Tx PaymentsDb Text
create_checkout_session client provider now t i correlation = do
  answer ← lift (client.resolve_invoice_by_id t i correlation)
  resolved ← or_throw answer Error.not_found
  throw_if (not (is_open resolved.status) || leb_ℤ resolved.remaining_ore (pos 0)) Error.conflict
  existing ← find_active_pending_by_invoice now t resolved.current_invoice_id
  reuse_or existing (new_session provider t resolved)

pub record StripeCheckoutEvent : Type 0 where
  pub id : Text
  pub is_completed : Bool
  pub session_id : Text

-- The transaction that books the session; the answer is `handled`.
unfoldable pub book_session :
    ℕ → StripeCheckoutEvent → ℕ → StripePaymentRow → InvoiceForMatching → Tx PaymentsDb Bool
book_session now event correlation row invoice = do
  updated ← mark_paid_if_pending now event.session_id event.id
  let rest =
      write_event (record {
        event_type = decide_event_type row.amount_ore invoice.remaining_ore;
        tenant_id = some row.tenant_id;
        correlation_id = correlation;
        invoice_id = invoice.current_invoice_id;
        amount_ore = row.amount_ore;
        payment_id = stripe_payment_id event.session_id;
        booked_at = now;
      })
      >> pure true
  if is_some updated then rest else pure false

abbrev pub book_found :
    ℕ → StripeCheckoutEvent → ℕ → StripePaymentRow → Option InvoiceForMatching → Tx PaymentsDb Bool
book_found now event correlation row none = pure false
book_found now event correlation row (some invoice) = book_session now event correlation row invoice

abbrev pub handle_session :
    BillingClient → ℕ → StripeCheckoutEvent → ℕ → Option StripePaymentRow → Tx PaymentsDb Bool
handle_session client now event correlation none = pure false
handle_session client now event correlation (some row) = do
  answer ← lift (client.resolve_invoice_by_id row.tenant_id row.invoice_id correlation)
  book_found now event correlation row answer

unfoldable pub handle_checkout_completed :
    BillingClient → ℕ → StripeCheckoutEvent → ℕ → Tx PaymentsDb Bool
handle_checkout_completed client now event correlation = do
  row ← find_by_session_id event.session_id
  let rest = handle_session client now event correlation row
  if event.is_completed then rest else pure false
