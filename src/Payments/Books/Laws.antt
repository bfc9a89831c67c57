-- ===== src/Payments/Books/Laws.antt =====
-- What holds of the payments of services/payments after any steps.
use faktureringssystemet.Prelude.{◌+◌, ◌≡◌, ◌≤◌, some, find_first, count_where}
use faktureringssystemet.Prelude.Rows.{as_count}
use faktureringssystemet.Shared.Text.{Text}
use faktureringssystemet.Payments.Store.{BankTransactionSource, BankTransactionRow, PaymentsDb}
use faktureringssystemet.Payments.Transactions.{is_external}
use faktureringssystemet.Payments.Matching.{is_matched}
use faktureringssystemet.Payments.Matching.PaymentIds.{external, manual, stripe}
use faktureringssystemet.Payments.Stripe.{is_session}
use faktureringssystemet.Payments.Books.{events_of}
use faktureringssystemet.Payments.Books.Steps.{
  Step, Steps, take_in, resolve, match_manually, ignore, check_out, complete, done, then_step,
  IsConsistent, is_paid_session, no_payments, no_payments-IsConsistent,
}
use faktureringssystemet.Payments.Books.Kept.{take_in-IsConsistent, resolve-IsConsistent}
use faktureringssystemet.Payments.Books.Reviewed.{match_manually-IsConsistent, ignore-IsConsistent}
use faktureringssystemet.Payments.Books.Charged.{check_out-IsConsistent, complete-IsConsistent}

Step-IsConsistent : {a b : PaymentsDb} → Step a b → IsConsistent a → IsConsistent b
Step-IsConsistent {a} (take_in input) k = take_in-IsConsistent input a k
Step-IsConsistent {a} (resolve client input r sound found) k =
    resolve-IsConsistent client input r a k sound found
Step-IsConsistent {a} (match_manually client ctx id i accept) k =
    match_manually-IsConsistent client ctx id i accept a k
Step-IsConsistent {a} (ignore ctx id reason) k = ignore-IsConsistent ctx id reason a k
Step-IsConsistent {a} (check_out client provider now t i c) k =
    check_out-IsConsistent client provider now t i c a k
Step-IsConsistent {a} (complete client now event c) k = complete-IsConsistent client now event c a k

pub Steps-IsConsistent : {a b : PaymentsDb} → Steps a b → IsConsistent a → IsConsistent b
Steps-IsConsistent done k = k
Steps-IsConsistent (then_step before s) k = Step-IsConsistent s (Steps-IsConsistent before k)

-- After any steps from an empty database, in whatever order the deliveries, the decisions of people and
-- the payments by card interleave: a transaction that its key finds has exactly one event, under its own
-- name or under that of a manual match, if it is matched, and none if it is not.
pub one_event_each :
    {db : PaymentsDb}
    → Steps no_payments db
    → (s : BankTransactionSource) (e : Text) (r : BankTransactionRow)
    → find_first (is_external s e) db.transactions ≡ some r
    → events_of (external s e) db.outbox + events_of (manual r.id) db.outbox
      ≡ as_count (is_matched r.status)
one_event_each steps s e r found =
    let (b, k) = Steps-IsConsistent steps no_payments-IsConsistent in b.events s e r found

-- After any steps from an empty database, a checkout session has exactly as many events as paid rows, and
-- has at most one row.
pub one_charge_each :
    {db : PaymentsDb}
    → Steps no_payments db
    → (s : Text)
    → (events_of (stripe s) db.outbox ≡ count_where (is_paid_session s) db.stripe_payments)
      × (count_where (is_session s) db.stripe_payments ≤ 1)
one_charge_each steps s =
    let (b, k) = Steps-IsConsistent steps no_payments-IsConsistent in (k.booked s, k.unique s)
