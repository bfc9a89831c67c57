-- ===== src/Payments/Admin/Laws.antt =====
-- What the decisions of services/payments/src/admin do.
use faktureringssystemet.Prelude.{
  ℕ, String, ◌≡◌, ◌⊎◌, inl, inr, Bool, true, false, ◌&&◌, not, Option, none, some, List, [], ◌∷◌,
  ◌++◌, arith, ◌==◌, if◌then◌else◌, find_first, update_where, count_where, Bool-cases, Option-cases,
  find_first_holds,
}
use faktureringssystemet.Prelude.Int.{pos, ltb_ℤ}
use faktureringssystemet.Prelude.Rows.{count_found}
use faktureringssystemet.Shared.Text.{Text}
use faktureringssystemet.Shared.Errors.{Error, Result, ok, err, Result-cases}
use faktureringssystemet.Billing.Store.{RequestContext}
use faktureringssystemet.Payments.Store.{
  BankTransactionRow, PaymentEvent, PaymentAuditEntry, PaymentsDb, InvoiceForMatching,
  BillingClient,
}
use faktureringssystemet.Payments.Matching.{is_open, manual_payment_id, write_event}
use faktureringssystemet.Payments.Admin.{
  is_manual_review, is_transaction, is_reviewable, as_matched, as_ignored, lock_for_decision,
  mark_matched, mark_ignored, write_audit_log, manual_type, match_in_tx, ignore_in_tx,
}

abbrev pub manual_event :
    RequestContext → ℕ → BankTransactionRow → InvoiceForMatching → PaymentEvent
manual_event ctx id row invoice = record {
  event_type = manual_type row.amount_ore invoice;
  tenant_id = some ctx.tenant_id;
  correlation_id = ctx.correlation_id;
  invoice_id = invoice.current_invoice_id;
  amount_ore = row.amount_ore;
  payment_id = manual_payment_id id;
  booked_at = row.booked_at;
}

-- Why a manual match is refused, in the order of the tests.
abbrev pub refusal_of_invoice : BankTransactionRow → Bool → InvoiceForMatching → Option Error
refusal_of_invoice row accept invoice =
    if not (is_open invoice.status)
    then some Error.unprocessable_entity
    else if ltb_ℤ invoice.remaining_ore (pos row.amount_ore) && not accept
    then some Error.unprocessable_entity
    else none

abbrev pub refusal_of_answer :
    BankTransactionRow → Bool → Result (Option InvoiceForMatching) → Option Error
refusal_of_answer row accept (err e) = some e
refusal_of_answer row accept (ok none) = some Error.not_found
refusal_of_answer row accept (ok (some invoice)) = refusal_of_invoice row accept invoice

abbrev pub refusal :
    Option BankTransactionRow → Bool → Result (Option InvoiceForMatching) → Option Error
refusal none accept answer = some Error.not_found
refusal (some row) accept answer =
    if is_manual_review row.status then refusal_of_answer row accept answer else some Error.conflict

-- A manual match fails if the transaction is not there for the tenant, is not up for review, if
-- billing's answer is an error or no invoice, if the invoice is not open, or if the amount exceeds what
-- remains and no overpayment is accepted; with the error of the first of these that applies.
pub match_in_tx_refused :
    (client : BillingClient) (ctx : RequestContext) (id i : ℕ) (accept : Bool) (db : PaymentsDb)
    (e : Error)
    → refusal
        (find_first (is_transaction ctx.tenant_id id) db.transactions)
        accept
        (client.resolve_invoice_by_id ctx.tenant_id i ctx.correlation_id)
      ≡ some e
    → match_in_tx client ctx id i accept db ≡ err e
unfolding match_in_tx lock_for_decision
match_in_tx_refused client ctx id i accept db e h =
    elim (Option-cases (find_first (is_transaction ctx.tenant_id id) db.transactions)) [
      | inl missing ↦ ground arith
      | inr (row, found) ↦ elim (Bool-cases (is_manual_review row.status)) [
        | inr decided ↦ ground arith
        | inl review ↦
            elim (Result-cases (client.resolve_invoice_by_id ctx.tenant_id i ctx.correlation_id)) [
              | inr (e', fails) ↦ ground arith
              | inl (none, no_invoice) ↦ ground arith
              | inl (some invoice, answer) ↦ elim (Bool-cases (is_open invoice.status)) [
                | inr closed ↦ ground arith
                | inl opened ↦ ground arith
              ]
            ]
      ]
    ]

abbrev pub audited : RequestContext → String → ℕ → List PaymentAuditEntry → List PaymentAuditEntry
audited ctx action id log =
    log
    ++ record {
      tenant_id = ctx.tenant_id;
      actor_user_id = ctx.user_id;
      action = action;
      resource_id = id;
      correlation_id = ctx.correlation_id;
    }
      ∷ []

abbrev pub matched_db :
    RequestContext → ℕ → BankTransactionRow → InvoiceForMatching → PaymentsDb → PaymentsDb
matched_db ctx id row invoice db = record db {
  transactions =
      update_where (is_reviewable ctx.tenant_id id) (as_matched invoice.current_invoice_id)
        db.transactions;
  outbox = db.outbox ++ manual_event ctx id row invoice ∷ [];
  audit_log = audited ctx "payment.matched_manually" id db.audit_log;
}

reviewable_there :
    (t id : ℕ) (rows : List BankTransactionRow) (row : BankTransactionRow)
    → find_first (is_transaction t id) rows ≡ some row
    → is_manual_review row.status ≡ true
    → count_where (is_reviewable t id) rows == 0 ≡ false
reviewable_there t id rows row found review =
    let p = find_first_holds (is_transaction t id) rows found in
    let c = count_found (is_transaction t id) (is_reviewable t id) rows found (ground arith) in
    ground arith

accepted_with :
    (client : BillingClient) (ctx : RequestContext) (id i : ℕ) (accept : Bool) (db : PaymentsDb)
    (row : BankTransactionRow) (invoice : InvoiceForMatching)
    → find_first (is_transaction ctx.tenant_id id) db.transactions ≡ some row
    → is_manual_review row.status ≡ true
    → client.resolve_invoice_by_id ctx.tenant_id i ctx.correlation_id ≡ ok (some invoice)
    → refusal_of_invoice row accept invoice ≡ none
    → match_in_tx client ctx id i accept db
      ≡ ok (invoice.current_invoice_id, matched_db ctx id row invoice db)
unfolding match_in_tx lock_for_decision mark_matched write_event write_audit_log
accepted_with client ctx id i accept db row invoice found review answer h =
    let n = reviewable_there ctx.tenant_id id db.transactions row found review in ground arith

-- Where no refusal applies, a manual match matches the transaction with the invoice that billing answers,
-- writes one event over the transaction's whole amount and answers that invoice's id.
pub match_in_tx_accepted :
    (client : BillingClient) (ctx : RequestContext) (id i : ℕ) (accept : Bool) (db : PaymentsDb)
    → refusal
        (find_first (is_transaction ctx.tenant_id id) db.transactions)
        accept
        (client.resolve_invoice_by_id ctx.tenant_id i ctx.correlation_id)
      ≡ none
    → (row : BankTransactionRow) × (invoice : InvoiceForMatching) × (find_first
          (is_transaction ctx.tenant_id id)
          db.transactions
        ≡ some row)
      × (is_manual_review row.status ≡ true)
      × (client.resolve_invoice_by_id ctx.tenant_id i ctx.correlation_id ≡ ok (some invoice))
      × (match_in_tx client ctx id i accept db
          ≡ ok (invoice.current_invoice_id, matched_db ctx id row invoice db))
match_in_tx_accepted client ctx id i accept db h =
    elim (Option-cases (find_first (is_transaction ctx.tenant_id id) db.transactions)) [
      | inl missing ↦ absurd (ground arith)
      | inr (row, found) ↦ elim (Bool-cases (is_manual_review row.status)) [
        | inr settled ↦ absurd (ground arith)
        | inl review ↦
            elim (Result-cases (client.resolve_invoice_by_id ctx.tenant_id i ctx.correlation_id)) [
              | inr (e', fails) ↦ absurd (ground arith)
              | inl (none, no_invoice) ↦ absurd (ground arith)
              | inl (some invoice, answer) ↦ (
                row,
                invoice,
                found,
                review,
                answer,
                accepted_with client ctx id i accept db row invoice found review answer
                    (ground arith),
              )
            ]
      ]
    ]

abbrev pub ignored_db : RequestContext → ℕ → Text → PaymentsDb → PaymentsDb
ignored_db ctx id reason db = record db {
  transactions = update_where (is_reviewable ctx.tenant_id id) (as_ignored reason) db.transactions;
  audit_log = audited ctx "payment.ignored" id db.audit_log;
}

-- Ignoring a transaction either fails, or finds one that is up for review and sets it to ignored.
pub ignore_in_tx-cases :
    (ctx : RequestContext) (id : ℕ) (reason : Text) (db : PaymentsDb)
    → ((e : Error) × (ignore_in_tx ctx id reason db ≡ err e))
      ⊎ ((row : BankTransactionRow) × (find_first (is_transaction ctx.tenant_id id) db.transactions
            ≡ some row)
          × (is_manual_review row.status ≡ true)
          × (ignore_in_tx ctx id reason db ≡ ok (tt, ignored_db ctx id reason db)))
unfolding ignore_in_tx lock_for_decision mark_ignored write_audit_log
ignore_in_tx-cases ctx id reason db =
    elim (Option-cases (find_first (is_transaction ctx.tenant_id id) db.transactions)) [
      | inl missing ↦ inl (Error.not_found, ground arith)
      | inr (row, found) ↦ elim (Bool-cases (is_manual_review row.status)) [
        | inr settled ↦ inl (Error.conflict, ground arith)
        | inl review ↦
            let n = reviewable_there ctx.tenant_id id db.transactions row found review in
            inr (row, found, review, ground arith)
      ]
    ]

pub match_in_tx-cases :
    (client : BillingClient) (ctx : RequestContext) (id i : ℕ) (accept : Bool) (db : PaymentsDb)
    → ((e : Error) × (match_in_tx client ctx id i accept db ≡ err e))
      ⊎ ((row : BankTransactionRow) × (invoice : InvoiceForMatching) × (find_first
              (is_transaction ctx.tenant_id id)
              db.transactions
            ≡ some row)
          × (is_manual_review row.status ≡ true)
          × (client.resolve_invoice_by_id ctx.tenant_id i ctx.correlation_id ≡ ok (some invoice))
          × (match_in_tx client ctx id i accept db
              ≡ ok (invoice.current_invoice_id, matched_db ctx id row invoice db)))
match_in_tx-cases client ctx id i accept db =
    elim (Option-cases (
      refusal (find_first (is_transaction ctx.tenant_id id) db.transactions) accept
        (client.resolve_invoice_by_id ctx.tenant_id i ctx.correlation_id))) [
          | inr (e, refused) ↦ inl (e, match_in_tx_refused client ctx id i accept db e refused)
          | inl accepted ↦ inr (match_in_tx_accepted client ctx id i accept db accepted)
        ]
