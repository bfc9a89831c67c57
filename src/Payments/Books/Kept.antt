-- ===== src/Payments/Books/Kept.antt =====
-- The steps of services/payments keep its transactions, its sessions and its events together.
use faktureringssystemet.Prelude.{
  ℕ, ◌≤◌, ◌≡◌, ◌⊎◌, refl, sym, ap, ◌∙◌, inl, inr, Bool, true, false, ◌&&◌, not, Option, none, some,
  List, arith, ◌==◌, is_some, find_first, update_where, count_where, Bool-cases, Option-cases,
  find_first_holds,
}
use faktureringssystemet.Prelude.Rows.{
  as_count, count_found, count_none, found_by_key, count_where_mono, update_where_none,
}
use faktureringssystemet.Shared.Text.{Text}
use faktureringssystemet.Shared.Errors.{ok, Result-cases}
use faktureringssystemet.Payments.Store.{
  BankTransactionRow, StripePaymentRow, PaymentEvent, PaymentsDb, BillingClient, PaymentEventType,
}
use faktureringssystemet.Payments.Transactions.{
  intake, is_external, resolve_pending, is_undecided, is_pending, decided,
}
use faktureringssystemet.Payments.Matching.{
  MatchInput, MatchDecision, intake_of, resolve_with, resolve_in_tx, decide_match, event_for,
  event_from, event_of, is_matched, duplicate, written, write_event,
}
use faktureringssystemet.Payments.Matching.Laws.{decide_match-cases}
use faktureringssystemet.Payments.Matching.PaymentIds.{
  PaymentOrigin, external, stripe, payment_id_of, origin_eq,
}
use faktureringssystemet.Payments.Books.{
  IsBooked, has_id, with_event, taken_in-IsBooked, events_of-with_event, same_key, source_of,
  external_id_of,
}
use faktureringssystemet.Payments.Books.Decided.{Decides, decided-IsBooked}
use faktureringssystemet.Payments.Books.Steps.{IsSound, IsConsistent, IsCharged}

pub take_in-IsConsistent :
    (input : MatchInput) (db : PaymentsDb)
    → IsConsistent db
    → IsConsistent (intake (intake_of input) db).1
unfolding intake
take_in-IsConsistent input db (b, c) =
    elim (Option-cases (find_first (is_external input.source input.external_id) db.transactions)) [
      | inl missing ↦ rw missing (taken_in-IsBooked (intake_of input) _ _ _ b missing, c)
      | inr (r, found) ↦ rw found (b, c)
    ]

-- A decision that billing's answers lead to has an event exactly if it is a match.
pub decide_match_event :
    (client : BillingClient) (input : MatchInput) (d : MatchDecision)
    → IsSound client
    → decide_match client input ≡ ok d
    → is_some (event_for input d) ≡ is_matched d.on_row.status
decide_match_event client input d sound h = elim (decide_match-cases client input d h) [
  | inl unknown ↦ rw unknown refl
  | inr (inl (t, reviewed)) ↦ rw reviewed refl
  | inr (inr (t, invoice, (tenant, valid, answer, same))) ↦
      let nonzero = sound t input.correlation_id input.ocr invoice answer in rw same (ground arith)
]

-- The row under an id that is there is undecided once if it is pending, and else never.
pub undecided_count :
    (rows : List BankTransactionRow) (next : ℕ) (outbox : List PaymentEvent)
    (q : BankTransactionRow → Bool) (r : BankTransactionRow)
    → IsBooked rows next outbox
    → find_first q rows ≡ some r
    → count_where (is_undecided r.id) rows ≡ as_count (is_pending r.status)
undecided_count rows next outbox q r b found =
    let ids = b.ids r.id in
    let once : count_where (has_id r.id) rows ≤ 1 = ground arith in
    let fr = found_by_key q (has_id r.id) rows once found (ground arith) in
    elim (Bool-cases (is_pending r.status)) [
      | inl t ↦
          let low = count_found q (is_undecided r.id) rows found (ground arith) in
          let high =
            count_where_mono (is_undecided r.id) (has_id r.id) rows (λ x h. ground arith) in
          rw t (omega arith)
      | inr t ↦ elim (Option-cases (find_first (is_undecided r.id) rows)) [
        | inl missing ↦ rw (t, count_none (is_undecided r.id) rows missing) refl
        | inr (x, fx) ↦
            let hx = find_first_holds (is_undecided r.id) rows fx in
            let again =
              found_by_key (is_undecided r.id) (has_id r.id) rows once fx (ground arith) in
            let same : x ≡ r = ground arith in absurd (ground arith)
      ]
    ]

-- Resolving a pending row.
pub resolve_in_tx_pending :
    (input : MatchInput) (id : ℕ) (d : MatchDecision) (db : PaymentsDb)
    → count_where (is_undecided id) db.transactions ≡ 1
    → resolve_in_tx input id d db
      ≡ ok (
        written id d.on_row,
        record db {
          transactions = update_where (is_undecided id) (decided d.on_row) db.transactions;
          outbox = with_event db.outbox (event_for input d);
        },
      )
unfolding resolve_in_tx resolve_pending write_event with_event
resolve_in_tx_pending input id d db h = elim (Option-cases (event_for input d)) [
  | inl n ↦ rw (h, n) refl
  | inr (e, s) ↦ rw (h, s) refl
]

abbrev pub resolved_db : MatchInput → ℕ → MatchDecision → PaymentsDb → PaymentsDb
resolved_db input id d db = record db {
  transactions = update_where (is_undecided id) (decided d.on_row) db.transactions;
  outbox = with_event db.outbox (event_for input d);
}

-- A decided row stays as it is.
pub resolve_in_tx_decided :
    (input : MatchInput) (id : ℕ) (d : MatchDecision) (db : PaymentsDb)
    → count_where (is_undecided id) db.transactions ≡ 0
    → resolve_in_tx input id d db ≡ ok (duplicate, db)
unfolding resolve_in_tx resolve_pending
resolve_in_tx_decided input id d db h =
    let same = update_where_none (is_undecided id) (decided d.on_row) db.transactions h in
    rw (h, same) refl

-- Resolving the row under a key either leaves all as it is, or decides on a pending row.
pub resolve_effect :
    (client : BillingClient) (input : MatchInput) (r : BankTransactionRow) (db : PaymentsDb)
    → IsConsistent db
    → find_first (is_external input.source input.external_id) db.transactions ≡ some r
    → ((resolve_with input r.id (decide_match client input) db).1 ≡ db)
      ⊎ ((d : MatchDecision) × (decide_match client input ≡ ok d)
          × (is_pending r.status ≡ true)
          × ((resolve_with input r.id (decide_match client input) db).1
              ≡ resolved_db input r.id d db))
resolve_effect client input r db (b, c) found = elim (Result-cases (decide_match client input)) [
  | inr (e, fails) ↦ inl (rw fails refl)
  | inl (d, good) ↦
      let n = undecided_count _ _ _ (is_external input.source input.external_id) r b found in
      elim (Bool-cases (is_pending r.status)) [
        | inl t ↦
            let effect = resolve_in_tx_pending input r.id d db (n ∙ ap as_count t) in
            inr (d, good, t, rw (good, effect) refl)
        | inr t ↦
            let effect = resolve_in_tx_decided input r.id d db (n ∙ ap as_count t) in
            inl (rw (good, effect) refl)
      ]
]

event_from_named :
    (input : MatchInput) (d : MatchDecision) (type : Option PaymentEventType) (i : Option ℕ)
    (e : PaymentEvent)
    → event_from input d type i ≡ some e
    → e.payment_id ≡ payment_id_of (external input.source input.external_id)
event_from_named input d none i e h = absurd (ground arith)
event_from_named input d (some type) none e h = absurd (ground arith)
event_from_named input d (some type) (some i) e h =
    elim (Bool-cases (is_matched d.on_row.status && not (i == 0))) [
      | inl t ↦
          let same : event_of input d type i ≡ e = ground arith in
          ap (λ (x : PaymentEvent). x.payment_id) (sym same)
      | inr t ↦ absurd (ground arith)
    ]

-- An event under another kind of name leaves the sessions' books alone.
pub other-IsCharged :
    (rows : List StripePaymentRow) (outbox : List PaymentEvent) (ev : Option PaymentEvent)
    (o : PaymentOrigin)
    → IsCharged rows outbox
    → ((e : PaymentEvent) → ev ≡ some e → e.payment_id ≡ payment_id_of o)
    → ((s : Text) → origin_eq o (stripe s) ≡ false)
    → IsCharged rows (with_event outbox ev)
other-IsCharged rows outbox ev o c named other = record {
  unique = c.unique;
  booked = λ s.
      let k = events_of-with_event o (stripe s) outbox ev named in
      let old = c.booked s in let f = other s in rw (k, f) (ground arith);
}

pub resolve-IsConsistent :
    (client : BillingClient) (input : MatchInput) (r : BankTransactionRow) (db : PaymentsDb)
    → IsConsistent db
    → IsSound client
    → find_first (is_external input.source input.external_id) db.transactions ≡ some r
    → IsConsistent (resolve_with input r.id (decide_match client input) db).1
resolve-IsConsistent client input r db (b, c) sound found =
    elim (resolve_effect client input r db (b, c) found) [
      | inl same ↦ rw same (b, c)
      | inr (d, good, pending, same) ↦
          let key =
            find_first_holds (is_external input.source input.external_id) db.transactions found in
          let o = external input.source input.external_id in
          let named = event_from_named input d d.event_type d.on_row.matched_invoice_id in
          let decides : Decides db.transactions r (is_undecided r.id) (decided d.on_row)
              (event_for input d) o =
            record {
              found = sym (same_key input.source input.external_id r db.transactions key) ∙ found;
              hits = ground arith;
              only = λ x h. ground arith;
              same_id = λ x. refl;
              same_external = λ s e x. refl;
              before = ground arith;
              after = decide_match_event client input d sound good;
              named = named;
              origin = inl (
                  ap (λ s. external s input.external_id)
                    (sym (source_of input.source input.external_id r key))
                  ∙ ap (external r.source)
                      (sym (external_id_of input.source input.external_id r key)));
            } in
          rw same (
            decided-IsBooked _ _ _ b r (is_undecided r.id) (decided d.on_row) (event_for input d) o
                decides,
            other-IsCharged _ _ (event_for input d) o c named (λ s. refl),
          )
    ]
