-- ===== src/Payments/Matching.antt =====
-- services/payments/src/matching/service.ts: what becomes of an incoming payment. The alarm that is
-- logged for an unknown bankgiro is left out.
pub mod PaymentIds
pub mod Laws
use faktureringssystemet.Prelude.{
  ℕ, Bool, true, false, not, Option, none, some, List, [], ◌∷◌, ◌++◌, if◌then◌else◌, ◌&&◌, ◌==◌,
}
use faktureringssystemet.Prelude.Int.{ℤ, pos, ltb_ℤ, leb_ℤ}
use faktureringssystemet.Shared.Text.{Text, codes, to_decimal}
use faktureringssystemet.Shared.Errors.{Result, ok, err}
use faktureringssystemet.Shared.Tx.{Tx, pure, modify, begin, ◌>>=◌, ◌>>◌}
use faktureringssystemet.Shared.Ocr.{is_valid_ocr}
use faktureringssystemet.Shared.SwedishId.{normalize_bankgiro}
use faktureringssystemet.Billing.Store.{InvoiceStatus}
use faktureringssystemet.Payments.Store.{
  BankTransactionSource, BankTransactionStatus, UnmatchedReason, PaymentEventType, PaymentEvent,
  PaymentsDb, InvoiceForMatching, BillingClient, BankTransactionIntake,
}
use faktureringssystemet.Payments.Transactions.{
  BankTransactionDecision, IntakeResult, intake, is_pending, resolve_pending,
}

pub record MatchInput : Type 0 where
  pub source : BankTransactionSource
  pub external_id : Text
  pub bankgiro : Text
  pub ocr : Text
  pub amount_ore : ℕ
  pub payer_name : Option Text
  pub booked_at : ℕ
  pub correlation_id : ℕ

-- `MatchDecision`: the decision on the row and the event's type, if there is one.
pub record MatchDecision : Type 0 where
  pub on_row : BankTransactionDecision
  pub event_type : Option PaymentEventType

abbrev pub for_review : ℕ → UnmatchedReason → MatchDecision
for_review tenant reason = record {
  on_row = record {
    tenant_id = some tenant;
    status = BankTransactionStatus.manual_review;
    unmatched_reason = some reason;
    matched_invoice_id = none;
  };
  event_type = none;
}

abbrev pub no_tenant : MatchDecision
no_tenant = record {
  on_row = record {
    tenant_id = none;
    status = BankTransactionStatus.unmatched;
    unmatched_reason = some UnmatchedReason.unknown_bankgiro;
    matched_invoice_id = none;
  };
  event_type = none;
}

abbrev pub matched_with : ℕ → ℕ → PaymentEventType → MatchDecision
matched_with tenant invoice type = record {
  on_row = record {
    tenant_id = some tenant;
    status = BankTransactionStatus.matched;
    unmatched_reason = none;
    matched_invoice_id = some invoice;
  };
  event_type = some type;
}

abbrev pub is_open : InvoiceStatus → Bool
is_open InvoiceStatus.sent = true
is_open InvoiceStatus.overdue = true
is_open _ = false

-- `===` on amounts.
abbrev pub eq_ℤ : ℤ → ℤ → Bool
eq_ℤ a b = if ltb_ℤ a b then false else leb_ℤ a b

abbrev pub decide_on_invoice : MatchInput → ℕ → InvoiceForMatching → MatchDecision
decide_on_invoice input tenant invoice =
    if not (is_open invoice.status)
    then for_review tenant UnmatchedReason.ambiguous
    else if ltb_ℤ invoice.remaining_ore (pos input.amount_ore)
    then for_review tenant UnmatchedReason.overpayment
    else matched_with tenant invoice.current_invoice_id (
        if eq_ℤ (pos input.amount_ore) invoice.remaining_ore
        then PaymentEventType.payment_matched
        else PaymentEventType.payment_partial)

abbrev pub decide_found : MatchInput → ℕ → Result (Option InvoiceForMatching) → Result MatchDecision
decide_found input tenant (err e) = err e
decide_found input tenant (ok none) = ok (for_review tenant UnmatchedReason.unknown_ocr)
decide_found input tenant (ok (some invoice)) = ok (decide_on_invoice input tenant invoice)

abbrev pub decide_for_tenant : BillingClient → MatchInput → Result (Option ℕ) → Result MatchDecision
decide_for_tenant client input (err e) = err e
decide_for_tenant client input (ok none) = ok no_tenant
decide_for_tenant client input (ok (some tenant)) =
    if is_valid_ocr input.ocr
    then decide_found input tenant
        (client.resolve_invoice_by_ocr tenant input.ocr input.correlation_id)
    else ok (for_review tenant UnmatchedReason.unknown_ocr)

unfoldable pub decide_match : BillingClient → MatchInput → Result MatchDecision
decide_match client input =
    decide_for_tenant client input
      (client.resolve_tenant_by_bankgiro input.bankgiro input.correlation_id)

pub data MatchOutcome : Type 0 where
  duplicate : MatchOutcome
  written : ℕ → BankTransactionDecision → MatchOutcome

abbrev source_name : BankTransactionSource → Text
source_name BankTransactionSource.bgmax = codes "bgmax"
source_name BankTransactionSource.webhook_mockbank = codes "webhook:mockbank"

-- `${source}:${externalId}`, and `manual:${id}` and `stripe:${sessionId}` of the two other ways.
abbrev pub external_payment_id : BankTransactionSource → Text → Text
external_payment_id s e = source_name s ++ b':' ∷ e

abbrev pub manual_payment_id : ℕ → Text
manual_payment_id id = codes "manual:" ++ to_decimal id

abbrev pub stripe_payment_id : Text → Text
stripe_payment_id session = codes "stripe:" ++ session

unfoldable pub write_event : PaymentEvent → Tx PaymentsDb (Unit {0})
write_event e = modify (λ db. record db { outbox = db.outbox ++ e ∷ [] })

abbrev pub event_of : MatchInput → MatchDecision → PaymentEventType → ℕ → PaymentEvent
event_of input d type invoice = record {
  event_type = type;
  tenant_id = d.on_row.tenant_id;
  correlation_id = input.correlation_id;
  invoice_id = invoice;
  amount_ore = input.amount_ore;
  payment_id = external_payment_id input.source input.external_id;
  booked_at = input.booked_at;
}

abbrev pub is_matched : BankTransactionStatus → Bool
is_matched BankTransactionStatus.matched = true
is_matched _ = false

-- An invoice id of 0 would count as missing.
abbrev pub event_from :
    MatchInput → MatchDecision → Option PaymentEventType → Option ℕ → Option PaymentEvent
event_from input d none i = none
event_from input d (some type) none = none
event_from input d (some type) (some i) =
    if is_matched d.on_row.status && not (i == 0) then some (event_of input d type i) else none

abbrev pub event_for : MatchInput → MatchDecision → Option PaymentEvent
event_for input d = event_from input d d.event_type d.on_row.matched_invoice_id

abbrev pub write_if : Option PaymentEvent → Tx PaymentsDb (Unit {0})
write_if none = pure tt
write_if (some e) = write_event e

-- Step 5, one transaction.
unfoldable pub resolve_in_tx : MatchInput → ℕ → MatchDecision → Tx PaymentsDb MatchOutcome
resolve_in_tx input id d = do
  resolved ← resolve_pending id d.on_row
  let rest = write_if (event_for input d) >> pure (written id d.on_row)
  if resolved then rest else pure duplicate

abbrev pub intake_of : MatchInput → BankTransactionIntake
intake_of input = record {
  source = input.source;
  external_id = input.external_id;
  bankgiro = input.bankgiro;
  ocr = input.ocr;
  payer_name = input.payer_name;
  amount_ore = input.amount_ore;
  booked_at = input.booked_at;
}

abbrev pub normalized : MatchInput → MatchInput
normalized raw = record raw { bankgiro = normalize_bankgiro raw.bankgiro }

-- Steps 2 to 5, on the row that was taken in.
abbrev pub resolve_with :
    MatchInput → ℕ → Result MatchDecision → PaymentsDb → Result MatchOutcome × PaymentsDb
resolve_with input id (err e) db = (err e, db)
resolve_with input id (ok d) db = begin (resolve_in_tx input id d) db

abbrev pub after_intake :
    BillingClient → MatchInput → IntakeResult × PaymentsDb → Result MatchOutcome × PaymentsDb
after_intake client input (taken, db) =
    if is_pending taken.status
    then resolve_with input taken.id (decide_match client input) db
    else (ok duplicate, db)

-- `match`
unfoldable pub match_payment :
    BillingClient → MatchInput → PaymentsDb → Result MatchOutcome × PaymentsDb
match_payment client raw db =
    let input = normalized raw in after_intake client input (intake (intake_of input) db)
