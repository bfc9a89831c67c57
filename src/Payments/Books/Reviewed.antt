-- ===== src/Payments/Books/Reviewed.antt =====
-- The decisions of a person and the payments by card keep the books of services/payments.
use faktureringssystemet.Prelude.{
  ℕ, ◌≡◌, refl, sym, ap, inl, inr, Bool, true, Option, none, some, [], ◌∷◌, ◌++◌, arith, is_some,
  find_first, update_where, find_first_holds,
}
use faktureringssystemet.Prelude.Rows.{found_by_key}
use faktureringssystemet.Shared.Text.{Text}
use faktureringssystemet.Shared.Tx.{begin}
use faktureringssystemet.Billing.Store.{RequestContext}
use faktureringssystemet.Payments.Store.{
  BankTransactionSource, BankTransactionRow, PaymentEvent, PaymentsDb, BillingClient,
}
use faktureringssystemet.Payments.Transactions.{is_external}
use faktureringssystemet.Payments.Matching.{is_matched}
use faktureringssystemet.Payments.Matching.PaymentIds.{manual, payment_id_of}
use faktureringssystemet.Payments.Admin.{
  is_manual_review, is_transaction, is_reviewable, as_matched, as_ignored, match_in_tx,
  ignore_in_tx,
}
use faktureringssystemet.Payments.Admin.Laws.{manual_event, match_in_tx-cases, ignore_in_tx-cases}
use faktureringssystemet.Payments.Books.{IsBooked, with_event}
use faktureringssystemet.Payments.Books.Decided.{Decides, decided-IsBooked, external_self}
use faktureringssystemet.Payments.Books.Steps.{IsConsistent, IsCharged}
use faktureringssystemet.Payments.Books.Kept.{other-IsCharged}

-- A row that is up for review is the one that its key finds, and is not matched.
reviewed-Decides :
    (db : PaymentsDb) (t id : ℕ) (row : BankTransactionRow)
    (f : BankTransactionRow → BankTransactionRow) (ev : Option PaymentEvent)
    → IsConsistent db
    → find_first (is_transaction t id) db.transactions ≡ some row
    → is_manual_review row.status ≡ true
    → ((x : BankTransactionRow) → (f x).id ≡ x.id)
    → ((s : BankTransactionSource) (e : Text) (x : BankTransactionRow)
        → is_external s e (f x) ≡ is_external s e x)
    → is_some ev ≡ is_matched (f row).status
    → ((e : PaymentEvent) → ev ≡ some e → e.payment_id ≡ payment_id_of (manual id))
    → Decides db.transactions row (is_reviewable t id) f ev (manual id)
reviewed-Decides db t id row f ev (b, c) found review same_id same_external after named =
    let p = find_first_holds (is_transaction t id) db.transactions found in
    let row_id : row.id ≡ id = ground arith in
    record {
      found =
          found_by_key (is_transaction t id) (is_external row.source row.external_id)
            db.transactions (b.keys row.source row.external_id) found (external_self row);
      hits = ground arith;
      only = λ x h. ground arith;
      same_id = same_id;
      same_external = same_external;
      before = ground arith;
      after = after;
      named = named;
      origin = inr (ap manual (sym row_id));
    }

-- `with_event` written out.
manual-IsBooked :
    (db : PaymentsDb) (t id : ℕ) (row : BankTransactionRow)
    (f : BankTransactionRow → BankTransactionRow) (e : PaymentEvent)
    → IsBooked db.transactions db.next_transaction_id db.outbox
    → Decides db.transactions row (is_reviewable t id) f (some e) (manual id)
    → IsBooked
        (update_where (is_reviewable t id) f db.transactions)
        db.next_transaction_id
        (db.outbox ++ e ∷ [])
unfolding with_event
manual-IsBooked db t id row f e b d =
    decided-IsBooked db.transactions db.next_transaction_id db.outbox b row (is_reviewable t id) f
      (some e) (manual id) d

silent-IsBooked :
    (db : PaymentsDb) (t id : ℕ) (row : BankTransactionRow)
    (f : BankTransactionRow → BankTransactionRow)
    → IsBooked db.transactions db.next_transaction_id db.outbox
    → Decides db.transactions row (is_reviewable t id) f none (manual id)
    → IsBooked
        (update_where (is_reviewable t id) f db.transactions)
        db.next_transaction_id
        db.outbox
unfolding with_event
silent-IsBooked db t id row f b d =
    decided-IsBooked db.transactions db.next_transaction_id db.outbox b row (is_reviewable t id) f
      none (manual id) d

manual-IsCharged :
    (db : PaymentsDb) (id : ℕ) (e : PaymentEvent)
    → IsCharged db.stripe_payments db.outbox
    → ((x : PaymentEvent) → some e ≡ some x → x.payment_id ≡ payment_id_of (manual id))
    → IsCharged db.stripe_payments (db.outbox ++ e ∷ [])
unfolding with_event
manual-IsCharged db id e c named =
    other-IsCharged db.stripe_payments db.outbox (some e) (manual id) c named (λ s. refl)

pub match_manually-IsConsistent :
    (client : BillingClient) (ctx : RequestContext) (id i : ℕ) (accept : Bool) (db : PaymentsDb)
    → IsConsistent db
    → IsConsistent (begin (match_in_tx client ctx id i accept) db).1
match_manually-IsConsistent client ctx id i accept db (b, c) =
    elim (match_in_tx-cases client ctx id i accept db) [
      | inl (e, refused) ↦ rw refused (b, c)
      | inr (row, invoice, found, review, answer, same) ↦
          let f = as_matched invoice.current_invoice_id in
          let ev = some (manual_event ctx id row invoice) in
          let named : (e : PaymentEvent) → ev ≡ some e → e.payment_id ≡ payment_id_of (manual id) =
            (λ e h. ground arith) in
          let d =
            reviewed-Decides db ctx.tenant_id id row f ev (b, c) found review (λ x. refl)
              (λ s e x. refl) refl named in
          rw same (
            manual-IsBooked db ctx.tenant_id id row f (manual_event ctx id row invoice) b d,
            manual-IsCharged db id (manual_event ctx id row invoice) c named,
          )
    ]

pub ignore-IsConsistent :
    (ctx : RequestContext) (id : ℕ) (reason : Text) (db : PaymentsDb)
    → IsConsistent db
    → IsConsistent (begin (ignore_in_tx ctx id reason) db).1
ignore-IsConsistent ctx id reason db (b, c) = elim (ignore_in_tx-cases ctx id reason db) [
  | inl (e, fails) ↦ rw fails (b, c)
  | inr (row, found, review, same) ↦
      let d =
        reviewed-Decides db ctx.tenant_id id row (as_ignored reason) none (b, c) found review
          (λ x. refl) (λ s e x. refl) refl (λ e h. absurd (ground arith)) in
      rw same (silent-IsBooked db ctx.tenant_id id row (as_ignored reason) b d, c)
]
