-- ===== src/Payments/Tests.antt =====
-- The properties of payments at concrete payments.
use faktureringssystemet.Prelude.{
  ℕ, ◌+◌, ◌≤◌, ◌≡◌, ap, refl, inl, inr, true, false, some, arith, find_first, if◌then◌else◌,
  Bool-cases,
}
use faktureringssystemet.Prelude.Int.{pos, ◌≤ℤ◌}
use faktureringssystemet.Shared.Text.{codes, text_eq, to_number}
use faktureringssystemet.Shared.Errors.{Error, ok, err}
use faktureringssystemet.Shared.Tx.{begin}
use faktureringssystemet.Shared.SwedishId.{normalize_bankgiro}
use faktureringssystemet.Shared.Ocr.{is_valid_ocr, luhn_check_digit}
use faktureringssystemet.Payments.Store.{
  BankTransactionSource, BankTransactionRow, PaymentEventType, InvoiceForMatching,
}
use faktureringssystemet.Payments.Transactions.{intake, resolve_pending, is_external, is_pending}
use faktureringssystemet.Payments.Matching.{
  duplicate, written, normalized, matched_with, decide_match, match_payment, resolve_in_tx,
  write_event, is_open, eq_ℤ,
}
use faktureringssystemet.Payments.Matching.PaymentIds.{external, manual, stripe}
use faktureringssystemet.Payments.Matching.Laws.{RestsOn, matched_pays_open}
use faktureringssystemet.Payments.Admin.{match_in_tx}
use faktureringssystemet.Payments.Admin.Laws.{match_in_tx_refused}
use faktureringssystemet.Payments.Stripe.{
  create_checkout_session, handle_checkout_completed, find_active_pending_by_invoice,
  insert_pending, find_by_session_id, book_session, mark_paid_if_pending, decide_event_type,
}
use faktureringssystemet.Payments.Stripe.Laws.{complete_twice}
use faktureringssystemet.Payments.Books.{events_of}
use faktureringssystemet.Payments.Books.Steps.{
  IsSound, Steps, done, then_step, take_in, resolve, complete, check_out, no_payments,
  no_payments-IsConsistent,
}
use faktureringssystemet.Payments.Books.Laws.{one_event_each, one_charge_each}
use faktureringssystemet.Payments.Books.History.{payment_is_kept, KeepsPayment}
use faktureringssystemet.Payments.Books.Kept.{resolved_db}
use faktureringssystemet.Payments.Deliveries.{
  stored, match_twice, match_recovers, match_payment-Steps,
}
use faktureringssystemet.Payments.Import.{
  import_file, import_lines, parse_bgmax_like, parse_one, split_fields, split_lines, trim,
}
use faktureringssystemet.Payments.Import.Again.{import_again}
use faktureringssystemet.Payments.Samples.{
  billing_up, billing_down, report, pending_report, one_pending, matched_report, one_matched,
  one_for_review, admin, provider, one_session, checkout_completed, one_paid, runtime, file,
}

billing_up-IsSound : IsSound billing_up
billing_up-IsSound t c ocr invoice h = elim (Bool-cases (text_eq ocr (codes "133"))) [
  | inl known ↦ λ zero. ground arith
  | inr unknown ↦ absurd (ground arith)
]

decision :
    decide_match billing_up (normalized report)
    ≡ ok (matched_with 1 7 PaymentEventType.payment_matched)
unfolding decide_match normalize_bankgiro is_valid_ocr to_number luhn_check_digit
decision = refl

first_delivery :
    match_payment billing_up report no_payments
    ≡ (ok (written 1 (matched_with 1 7 PaymentEventType.payment_matched).on_row), one_matched)
unfolding match_payment intake decide_match normalize_bankgiro is_valid_ocr to_number
    luhn_check_digit resolve_in_tx resolve_pending write_event
first_delivery = refl

failed_delivery :
    match_payment billing_down report no_payments ≡ (err Error.internal_error, one_pending)
unfolding match_payment intake decide_match normalize_bankgiro
failed_delivery = refl

booked_session :
    handle_checkout_completed billing_up 2000 checkout_completed 5 one_session ≡ ok (true, one_paid)
unfolding handle_checkout_completed find_by_session_id book_session mark_paid_if_pending
    decide_event_type write_event
booked_session = refl

opened_session :
    create_checkout_session billing_up provider 100 1 7 5 no_payments
    ≡ ok (codes "https://pay/1", one_session)
unfolding create_checkout_session find_active_pending_by_invoice insert_pending
opened_session = refl

to_one_matched : Steps no_payments one_matched
to_one_matched =
    let steps = match_payment-Steps billing_up report no_payments billing_up-IsSound in
    rw (← ap (λ x. x.1) first_delivery) steps

to_one_pending : Steps no_payments one_pending
unfolding intake normalize_bankgiro
to_one_pending = then_step done (take_in (normalized report))

pending_to_matched : Steps one_pending one_matched
unfolding decide_match normalize_bankgiro is_valid_ocr to_number luhn_check_digit resolve_in_tx
    resolve_pending write_event
pending_to_matched = then_step done (
    resolve {db = one_pending} billing_up (normalized report) pending_report billing_up-IsSound
      refl)

to_one_paid : Steps no_payments one_paid
unfolding handle_checkout_completed find_by_session_id book_session mark_paid_if_pending
    decide_event_type write_event create_checkout_session find_active_pending_by_invoice
    insert_pending
to_one_paid =
    then_step (then_step done (check_out {db = no_payments} billing_up provider 100 1 7 5))
      (complete {db = one_session} billing_up 2000 checkout_completed 5)

matched_pays_open_example :
    (t : ℕ) × (invoice : InvoiceForMatching) × RestsOn billing_up
      (normalized report)
      (matched_with 1 7 PaymentEventType.payment_matched)
      t
      invoice
    × (is_open invoice.status ≡ true)
    × (pos 125000 ≤ℤ invoice.remaining_ore)
    × (some 1 ≡ some t)
    × (some 7 ≡ some invoice.current_invoice_id)
    × (some PaymentEventType.payment_matched
        ≡ some (
            if eq_ℤ (pos 125000) invoice.remaining_ore
            then PaymentEventType.payment_matched
            else PaymentEventType.payment_partial))
matched_pays_open_example =
    matched_pays_open billing_up (normalized report)
      (matched_with 1 7 PaymentEventType.payment_matched) decision refl

one_event_each_example :
    events_of (external BankTransactionSource.webhook_mockbank (codes "e-1")) one_matched.outbox
      + events_of (manual 1) one_matched.outbox
    ≡ 1
one_event_each_example =
    one_event_each {db = one_matched} to_one_matched BankTransactionSource.webhook_mockbank
      (codes "e-1") matched_report refl

one_charge_each_example : (events_of (stripe (codes "cs-1")) one_paid.outbox ≡ 1) × (1 ≤ 1)
one_charge_each_example = one_charge_each {db = one_paid} to_one_paid (codes "cs-1")

payment_is_kept_example :
    (r : BankTransactionRow) × (find_first
        (is_external BankTransactionSource.webhook_mockbank (codes "e-1"))
        one_matched.transactions
      ≡ some r)
    × KeepsPayment pending_report r
payment_is_kept_example =
    payment_is_kept {a = one_pending} {b = one_matched} to_one_pending pending_to_matched
      BankTransactionSource.webhook_mockbank (codes "e-1") pending_report refl

match_twice_example : match_payment billing_down report one_matched ≡ (ok duplicate, one_matched)
match_twice_example =
    match_twice billing_up billing_down report report no_payments one_matched
      (written 1 (matched_with 1 7 PaymentEventType.payment_matched).on_row)
      no_payments-IsConsistent first_delivery refl refl

match_recovers_example :
    (r : BankTransactionRow) × (stored report one_pending ≡ some r)
    × (is_pending r.status ≡ true)
    × (match_payment billing_up report one_pending ≡ (
      ok (written r.id (matched_with 1 7 PaymentEventType.payment_matched).on_row),
      resolved_db
          (normalized report)
          r.id
          (matched_with 1 7 PaymentEventType.payment_matched)
          one_pending,
    ))
match_recovers_example =
    match_recovers billing_down billing_up report no_payments one_pending Error.internal_error
      (matched_with 1 7 PaymentEventType.payment_matched) no_payments-IsConsistent failed_delivery
      decision

match_in_tx_refused_example :
    match_in_tx billing_up admin 1 8 false one_for_review ≡ err Error.not_found
match_in_tx_refused_example =
    match_in_tx_refused billing_up admin 1 8 false one_for_review Error.not_found refl

complete_twice_example :
    (begin (handle_checkout_completed billing_down 3000 checkout_completed 8) one_paid).1 ≡ one_paid
complete_twice_example =
    complete_twice billing_up 2000 checkout_completed 5 one_session one_paid billing_down 3000
      checkout_completed 8 booked_session refl

imported : (import_file runtime billing_up file 5 no_payments).0.unresolved ≡ 0
unfolding import_file import_lines parse_bgmax_like parse_one split_fields split_lines trim
    match_payment intake decide_match normalize_bankgiro is_valid_ocr to_number luhn_check_digit
    resolve_in_tx resolve_pending write_event
imported = refl

import_again_example :
    ((import_file runtime billing_down file 8
        (import_file runtime billing_up file 5 no_payments).1).1
      ≡ (import_file runtime billing_up file 5 no_payments).1)
    × ((import_file runtime billing_down file 8
          (import_file runtime billing_up file 5 no_payments).1).0.transactions_written
        ≡ 0)
    × ((import_file runtime billing_down file 8
          (import_file runtime billing_up file 5 no_payments).1).0.unresolved
        ≡ 0)
import_again_example =
    import_again runtime billing_up billing_down file 5 8 no_payments no_payments-IsConsistent
      billing_up-IsSound imported
