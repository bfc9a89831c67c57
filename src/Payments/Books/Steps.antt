-- ===== src/Payments/Books/Steps.antt =====
-- What can happen to the payments of services/payments: each committed statement or transaction is a
-- step, so that two deliveries of a payment may interleave.
use faktureringssystemet.Prelude.{
  ℕ, ◌≡◌, ◌≢◌, ◌≤◌, arith, refl, Bool, ◌&&◌, some, List, [], find_first, count_where, is_some,
}
use faktureringssystemet.Shared.Text.{Text}
use faktureringssystemet.Shared.Errors.{ok}
use faktureringssystemet.Shared.Tx.{begin}
use faktureringssystemet.Billing.Store.{RequestContext}
use faktureringssystemet.Payments.Store.{
  BankTransactionRow, StripePaymentRow, PaymentEvent, PaymentsDb, InvoiceForMatching, BillingClient,
}
use faktureringssystemet.Payments.Transactions.{intake, is_external}
use faktureringssystemet.Payments.Matching.{MatchInput, intake_of, resolve_with, decide_match}
use faktureringssystemet.Payments.Matching.PaymentIds.{stripe}
use faktureringssystemet.Payments.Admin.{match_in_tx, ignore_in_tx}
use faktureringssystemet.Payments.Stripe.{
  Provider, StripeCheckoutEvent, is_session, create_checkout_session, handle_checkout_completed,
}
use faktureringssystemet.Payments.Books.{IsBooked, events_of, no_transactions-IsBooked}

-- Billing's ids of invoices begin at 1.
abbrev pub IsSound : BillingClient → Type 0
IsSound client =
    (t c : ℕ) (ocr : Text) (invoice : InvoiceForMatching)
    → client.resolve_invoice_by_ocr t ocr c ≡ ok (some invoice)
    → invoice.current_invoice_id ≢ 0

-- `match` takes a payment in, and resolves the row under its key later, after billing's answers.
pub data Step : PaymentsDb → PaymentsDb → Type 0 where
  take_in : {db : PaymentsDb} (input : MatchInput) → Step db (intake (intake_of input) db).1
  resolve :
      {db : PaymentsDb} (client : BillingClient) (input : MatchInput) (r : BankTransactionRow)
      → IsSound client
      → find_first (is_external input.source input.external_id) db.transactions ≡ some r
      → Step db (resolve_with input r.id (decide_match client input) db).1
  match_manually :
      {db : PaymentsDb} (client : BillingClient) (ctx : RequestContext) (id invoice : ℕ)
      (accept : Bool)
      → Step db (begin (match_in_tx client ctx id invoice accept) db).1
  ignore :
      {db : PaymentsDb} (ctx : RequestContext) (id : ℕ) (reason : Text)
      → Step db (begin (ignore_in_tx ctx id reason) db).1
  -- The source runs these statements outside a transaction; they are one step here.
  check_out :
      {db : PaymentsDb} (client : BillingClient) (provider : Provider) (now t i c : ℕ)
      → Step db (begin (create_checkout_session client provider now t i c) db).1
  complete :
      {db : PaymentsDb} (client : BillingClient) (now : ℕ) (event : StripeCheckoutEvent) (c : ℕ)
      → Step db (begin (handle_checkout_completed client now event c) db).1

pub data Steps : PaymentsDb → PaymentsDb → Type 0 where
  done : {db : PaymentsDb} → Steps db db
  then_step : {a b c : PaymentsDb} → Steps a b → Step b c → Steps a c

abbrev pub is_paid_session : Text → StripePaymentRow → Bool
is_paid_session s r = is_session s r && is_some r.paid_at

-- A session has one event if it is paid, and none otherwise.
pub record IsCharged (rows : List StripePaymentRow) (outbox : List PaymentEvent) : Type 0 where
  pub unique : (s : Text) → count_where (is_session s) rows ≤ 1
  pub booked : (s : Text) → events_of (stripe s) outbox ≡ count_where (is_paid_session s) rows

abbrev pub IsConsistent : PaymentsDb → Type 0
IsConsistent db =
    IsBooked db.transactions db.next_transaction_id db.outbox
    × IsCharged db.stripe_payments db.outbox

abbrev pub no_payments : PaymentsDb
no_payments = record {
  transactions = [];
  stripe_payments = [];
  outbox = [];
  audit_log = [];
  next_transaction_id = 1;
}

pub no_payments-IsConsistent : IsConsistent no_payments
no_payments-IsConsistent =
    (no_transactions-IsBooked, record { unique = λ s. omega arith; booked = λ s. refl })
