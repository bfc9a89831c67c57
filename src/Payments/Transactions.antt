-- ===== src/Payments/Transactions.antt =====
-- services/payments/src/transactions/repository.ts: the bank transactions as they come in and are
-- decided on.
use faktureringssystemet.Prelude.{
  ℕ, suc, Bool, true, false, ◌&&◌, Option, none, some, List, [], ◌∷◌, ◌++◌, ◌==◌, find_first,
  select, update_where, count_where, is_some, not,
}
use faktureringssystemet.Shared.Text.{Text, text_eq}
use faktureringssystemet.Shared.Tx.{Tx, pure, gets, modify, ◌>>=◌, ◌>>◌}
use faktureringssystemet.Payments.Store.{
  BankTransactionSource, BankTransactionStatus, UnmatchedReason, BankTransactionIntake,
  BankTransactionRow, PaymentsDb,
}

pub record BankTransactionDecision : Type 0 where
  pub tenant_id : Option ℕ
  pub status : BankTransactionStatus
  pub unmatched_reason : Option UnmatchedReason
  pub matched_invoice_id : Option ℕ

pub record IntakeResult : Type 0 where
  pub id : ℕ
  pub status : BankTransactionStatus

abbrev pub source_eq : BankTransactionSource → BankTransactionSource → Bool
source_eq BankTransactionSource.bgmax BankTransactionSource.bgmax = true
source_eq BankTransactionSource.webhook_mockbank BankTransactionSource.webhook_mockbank = true
source_eq _ _ = false

abbrev pub is_pending : BankTransactionStatus → Bool
is_pending BankTransactionStatus.pending = true
is_pending _ = false

-- The row of a source's transaction, by the key of the table.
abbrev pub is_external : BankTransactionSource → Text → BankTransactionRow → Bool
is_external s e r = source_eq r.source s && text_eq r.external_id e

abbrev pub pending_row : ℕ → BankTransactionIntake → BankTransactionRow
pending_row id d = record {
  id = id;
  tenant_id = none;
  source = d.source;
  external_id = d.external_id;
  bankgiro = d.bankgiro;
  ocr = d.ocr;
  payer_name = d.payer_name;
  amount_ore = d.amount_ore;
  booked_at = d.booked_at;
  status = BankTransactionStatus.pending;
  unmatched_reason = none;
  matched_invoice_id = none;
  ignored_reason = none;
}

-- Two statements that each commit by themselves. No row is ever deleted, so the second one finds the
-- row that the first one met.
abbrev pub intake_met :
    BankTransactionIntake → PaymentsDb → Option BankTransactionRow → IntakeResult × PaymentsDb
intake_met d db (some r) = (record { id = r.id; status = r.status }, db)
intake_met d db none = (
  record { id = db.next_transaction_id; status = BankTransactionStatus.pending },
  record db {
    transactions = db.transactions ++ pending_row db.next_transaction_id d ∷ [];
    next_transaction_id = suc db.next_transaction_id;
  },
)

unfoldable pub intake : BankTransactionIntake → PaymentsDb → IntakeResult × PaymentsDb
intake d db = intake_met d db (find_first (is_external d.source d.external_id) db.transactions)

abbrev pub is_undecided : ℕ → BankTransactionRow → Bool
is_undecided id r = r.id == id && is_pending r.status

abbrev pub decided : BankTransactionDecision → BankTransactionRow → BankTransactionRow
decided d r = record r {
  tenant_id = d.tenant_id;
  status = d.status;
  unmatched_reason = d.unmatched_reason;
  matched_invoice_id = d.matched_invoice_id;
}

unfoldable pub resolve_pending : ℕ → BankTransactionDecision → Tx PaymentsDb Bool
resolve_pending id d = do
  n ← gets (λ (db : PaymentsDb). count_where (is_undecided id) db.transactions)
  modify (λ db. record db {
    transactions = update_where (is_undecided id) (decided d) db.transactions;
  })
  pure (n == 1)

abbrev pub lacks_tenant : BankTransactionRow → Bool
lacks_tenant r = not (is_some r.tenant_id)

-- The operators' view, in the order in which the rows came in.
unfoldable pub list_unknown_bankgiro : Tx PaymentsDb (List BankTransactionRow)
list_unknown_bankgiro = gets (λ db. select lacks_tenant db.transactions)
