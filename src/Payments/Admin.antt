-- ===== src/Payments/Admin.antt =====
-- services/payments/src/admin: the queue of payments that a person decides on. The alarm that is logged
-- for an accepted overpayment is left out.
pub mod Laws
use faktureringssystemet.Prelude.{
  ℕ, Bool, true, false, ◌&&◌, not, Option, none, some, List, [], ◌∷◌, ◌++◌, String, ◌==◌,
  if◌then◌else◌, find_first, select, update_where, count_where,
}
use faktureringssystemet.Prelude.Int.{pos, ltb_ℤ, leb_ℤ}
use faktureringssystemet.Shared.Text.{Text}
use faktureringssystemet.Shared.Errors.{Error}
use faktureringssystemet.Shared.Tx.{Tx, pure, gets, modify, or_throw, throw_if, lift, ◌>>=◌, ◌>>◌}
use faktureringssystemet.Billing.Store.{RequestContext}
use faktureringssystemet.Payments.Store.{
  BankTransactionStatus, BankTransactionRow, PaymentEventType, PaymentsDb, BillingClient,
  InvoiceForMatching,
}
use faktureringssystemet.Payments.Matching.{is_open, manual_payment_id, write_event}

abbrev pub is_manual_review : BankTransactionStatus → Bool
is_manual_review BankTransactionStatus.manual_review = true
is_manual_review _ = false

abbrev pub is_of_tenant : ℕ → Option ℕ → Bool
is_of_tenant t none = false
is_of_tenant t (some u) = u == t

abbrev pub is_transaction : ℕ → ℕ → BankTransactionRow → Bool
is_transaction t id r = r.id == id && is_of_tenant t r.tenant_id

abbrev pub is_reviewable : ℕ → ℕ → BankTransactionRow → Bool
is_reviewable t id r = is_transaction t id r && is_manual_review r.status

abbrev pub is_queued : ℕ → BankTransactionRow → Bool
is_queued t r = is_of_tenant t r.tenant_id && is_manual_review r.status

-- In the order in which the rows came in.
unfoldable pub list_unmatched : ℕ → Tx PaymentsDb (List BankTransactionRow)
list_unmatched t = gets (λ db. select (is_queued t) db.transactions)

unfoldable pub lock_for_decision : ℕ → ℕ → Tx PaymentsDb (Option BankTransactionRow)
lock_for_decision t id = gets (λ db. find_first (is_transaction t id) db.transactions)

abbrev pub as_matched : ℕ → BankTransactionRow → BankTransactionRow
as_matched i r = record r {
  status = BankTransactionStatus.matched;
  matched_invoice_id = some i;
  unmatched_reason = none;
}

abbrev pub as_ignored : Text → BankTransactionRow → BankTransactionRow
as_ignored reason r = record r {
  status = BankTransactionStatus.ignored;
  ignored_reason = some reason;
}

-- A conditional UPDATE, and how many rows it changed.
abbrev pub change_reviewable : ℕ → ℕ → (BankTransactionRow → BankTransactionRow) → Tx PaymentsDb ℕ
change_reviewable t id f = do
  n ← gets (λ (db : PaymentsDb). count_where (is_reviewable t id) db.transactions)
  modify (λ db. record db { transactions = update_where (is_reviewable t id) f db.transactions })
  pure n

unfoldable pub mark_matched : ℕ → ℕ → ℕ → Tx PaymentsDb ℕ
mark_matched t id i = change_reviewable t id (as_matched i)

unfoldable pub mark_ignored : ℕ → ℕ → Text → Tx PaymentsDb ℕ
mark_ignored t id reason = change_reviewable t id (as_ignored reason)

-- audit.ts
unfoldable pub write_audit_log : RequestContext → String → ℕ → Tx PaymentsDb (Unit {0})
write_audit_log ctx action id = modify (λ db. record db {
  audit_log =
      db.audit_log
      ++ record {
        tenant_id = ctx.tenant_id;
        actor_user_id = ctx.user_id;
        action = action;
        resource_id = id;
        correlation_id = ctx.correlation_id;
      }
        ∷ [];
})

abbrev pub manual_type : ℕ → InvoiceForMatching → PaymentEventType
manual_type amount invoice =
    if leb_ℤ invoice.remaining_ore (pos amount)
    then PaymentEventType.payment_matched
    else PaymentEventType.payment_partial

-- `matchInTx`; the answer is the invoice that was matched.
unfoldable pub match_in_tx : BillingClient → RequestContext → ℕ → ℕ → Bool → Tx PaymentsDb ℕ
match_in_tx client ctx id invoice_id accept_overpayment = do
  row ← or_throw (← lock_for_decision ctx.tenant_id id) Error.not_found
  throw_if (not (is_manual_review row.status)) Error.conflict
  answer ← lift (client.resolve_invoice_by_id ctx.tenant_id invoice_id ctx.correlation_id)
  resolved ← or_throw answer Error.not_found
  throw_if (not (is_open resolved.status)) Error.unprocessable_entity
  throw_if (ltb_ℤ resolved.remaining_ore (pos row.amount_ore) && not accept_overpayment)
      Error.unprocessable_entity
  changed ← mark_matched ctx.tenant_id id resolved.current_invoice_id
  throw_if (changed == 0) Error.conflict
  write_event (record {
    event_type = manual_type row.amount_ore resolved;
    tenant_id = some ctx.tenant_id;
    correlation_id = ctx.correlation_id;
    invoice_id = resolved.current_invoice_id;
    amount_ore = row.amount_ore;
    payment_id = manual_payment_id id;
    booked_at = row.booked_at;
  })
  write_audit_log ctx "payment.matched_manually" id
  pure resolved.current_invoice_id

unfoldable pub ignore_in_tx : RequestContext → ℕ → Text → Tx PaymentsDb (Unit {0})
ignore_in_tx ctx id reason = do
  row ← or_throw (← lock_for_decision ctx.tenant_id id) Error.not_found
  throw_if (not (is_manual_review row.status)) Error.conflict
  changed ← mark_ignored ctx.tenant_id id reason
  throw_if (changed == 0) Error.conflict
  write_audit_log ctx "payment.ignored" id
