-- ===== src/Payments/Deliveries.antt =====
-- Deliveries of one payment to services/payments/src/matching: first, failed and repeated.
use faktureringssystemet.Prelude.{
  ◌≡◌, refl, sym, ap, ◌∙◌, inl, inr, true, false, Option, some, [], ◌∷◌, arith, if◌then◌else◌,
  find_first, Bool-cases, Option-cases,
}
use faktureringssystemet.Prelude.Rows.{as_count, find_updated, find_first-append_none}
use faktureringssystemet.Shared.Errors.{Error, Result, ok, err, Result-cases}
use faktureringssystemet.Payments.Store.{BankTransactionRow, PaymentsDb, BillingClient}
use faktureringssystemet.Payments.Transactions.{
  intake, is_external, is_pending, is_undecided, decided, pending_row,
}
use faktureringssystemet.Payments.Matching.{
  MatchInput, MatchDecision, MatchOutcome, duplicate, written, normalized, intake_of, resolve_with,
  decide_match, match_payment,
}
use faktureringssystemet.Payments.Matching.Laws.{decide_match-cases}
use faktureringssystemet.Payments.Books.Decided.{external_self}
use faktureringssystemet.Payments.Books.Steps.{
  IsConsistent, IsSound, Steps, done, then_step, take_in, resolve,
}
use faktureringssystemet.Payments.Books.Kept.{
  take_in-IsConsistent, undecided_count, resolve_in_tx_pending, resolved_db,
}

-- What is under the key of a payment.
abbrev pub stored : MatchInput → PaymentsDb → Option BankTransactionRow
stored input db = find_first (is_external input.source input.external_id) db.transactions

-- What `match` does with the row that the intake made or met.
abbrev pub continue_with :
    BillingClient → MatchInput → BankTransactionRow → PaymentsDb → Result MatchOutcome × PaymentsDb
continue_with client input r db =
    if is_pending r.status
    then resolve_with input r.id (decide_match client input) db
    else (ok duplicate, db)

intake_there :
    (client : BillingClient) (raw : MatchInput) (db : PaymentsDb) (r : BankTransactionRow)
    → stored raw db ≡ some r
    → match_payment client raw db ≡ continue_with client (normalized raw) r db
unfolding match_payment intake
intake_there client raw db r found = rw found refl

-- The row that `match` goes on with, in the database after the intake.
match_reaches :
    (client : BillingClient) (raw : MatchInput) (db : PaymentsDb)
    → (r : BankTransactionRow) × (stored raw (intake (intake_of (normalized raw)) db).1 ≡ some r)
      × (match_payment client raw db
          ≡ continue_with client (normalized raw) r (intake (intake_of (normalized raw)) db).1)
unfolding match_payment intake
match_reaches client raw db = elim (Option-cases (stored raw db)) [
  | inr (r, found) ↦ (r, rw found found, rw found refl)
  | inl missing ↦
      let new = pending_row db.next_transaction_id (intake_of (normalized raw)) in
      let at =
        find_first-append_none (is_external raw.source raw.external_id) db.transactions (new ∷ [])
          missing in
      let self = external_self new in (new, rw missing (at ∙ rw self refl), rw missing refl)
]

-- A decision is never that a payment stays pending.
decision_settles :
    (client : BillingClient) (input : MatchInput) (d : MatchDecision)
    → decide_match client input ≡ ok d
    → is_pending d.on_row.status ≡ false
decision_settles client input d h = elim (decide_match-cases client input d h) [
  | inl unknown ↦ rw unknown refl
  | inr (inl (t, reviewed)) ↦ rw reviewed refl
  | inr (inr (t, invoice, rests)) ↦ let same = rests.3 in rw same (ground arith)
]

pending_resolved :
    (client : BillingClient) (input : MatchInput) (d : MatchDecision) (r : BankTransactionRow)
    (db : PaymentsDb)
    → IsConsistent db
    → stored input db ≡ some r
    → is_pending r.status ≡ true
    → decide_match client input ≡ ok d
    → continue_with client input r db ≡ (ok (written r.id d.on_row), resolved_db input r.id d db)
pending_resolved client input d r db (b, c) found pending good =
    let n = undecided_count _ _ _ (is_external input.source input.external_id) r b found in
    let effect = resolve_in_tx_pending input r.id d db (n ∙ ap as_count pending) in
    rw (pending, good, effect) refl

settled_row :
    (client : BillingClient) (input : MatchInput) (r : BankTransactionRow) (db db' : PaymentsDb)
    (o : MatchOutcome)
    → IsConsistent db
    → stored input db ≡ some r
    → continue_with client input r db ≡ (ok o, db')
    → (r' : BankTransactionRow) × (stored input db' ≡ some r') × (is_pending r'.status ≡ false)
settled_row client input r db db' o k found h = elim (Bool-cases (is_pending r.status)) [
  | inr old ↦
      let plain : continue_with client input r db ≡ (ok duplicate, db) = rw old refl in
      let same : db ≡ db' = ap (λ x. x.1) (sym plain ∙ h) in (r, rw⁻¹ same found, old)
  | inl pending ↦ elim (Result-cases (decide_match client input)) [
    | inr (e, fails) ↦
        let failed : continue_with client input r db ≡ (err e, db) = rw (pending, fails) refl in
        let clash = ap (λ x. x.0) (sym failed ∙ h) in absurd (ground arith)
    | inl (d, good) ↦
        let same : resolved_db input r.id d db ≡ db' =
          ap (λ x. x.1) (sym (pending_resolved client input d r db k found pending good) ∙ h) in
        let at =
          find_updated (is_external input.source input.external_id) (is_undecided r.id)
            (decided d.on_row) db.transactions (λ x. refl) found in
        let hit : is_undecided r.id r ≡ true = ground arith in
        (
          decided d.on_row r,
          ap (stored input) (sym same)
              ∙ at
              ∙ ap (λ b. some (if b then decided d.on_row r else r)) hit,
          decision_settles client input d good,
        )
  ]
]

-- The payment of a delivery that was answered is decided on.
pub match_settles :
    (client : BillingClient) (raw : MatchInput) (db : PaymentsDb) (o : MatchOutcome)
    → IsConsistent db
    → (match_payment client raw db).0 ≡ ok o
    → (r : BankTransactionRow) × (stored raw (match_payment client raw db).1 ≡ some r)
      × (is_pending r.status ≡ false)
match_settles client raw db o k h =
    let (r, found, reached) = match_reaches client raw db in
    let taken = take_in-IsConsistent (normalized raw) db k in
    settled_row client (normalized raw) r _ (match_payment client raw db).1 o taken found
      (sym reached ∙ ap (λ x. (x, (match_payment client raw db).1)) h)

pub match_settled :
    (client : BillingClient) (raw : MatchInput) (db : PaymentsDb) (r : BankTransactionRow)
    → stored raw db ≡ some r
    → is_pending r.status ≡ false
    → match_payment client raw db ≡ (ok duplicate, db)
match_settled client raw db r found settled = intake_there client raw db r found ∙ rw settled refl

-- A payment that was answered is a duplicate from then on: another delivery under its key, whatever it says
-- and whatever billing answers, changes nothing.
pub match_twice :
    (client client' : BillingClient) (raw raw' : MatchInput) (db db' : PaymentsDb)
    (o : MatchOutcome)
    → IsConsistent db
    → match_payment client raw db ≡ (ok o, db')
    → raw'.source ≡ raw.source
    → raw'.external_id ≡ raw.external_id
    → match_payment client' raw' db' ≡ (ok duplicate, db')
match_twice client client' raw raw' db db' o k h same_source same_id =
    let (r, found, settled) = match_settles client raw db o k (ap (λ x. x.0) h) in
    let there : stored raw' db' ≡ some r =
      ap (λ s. find_first (is_external s raw'.external_id) db'.transactions) same_source
      ∙ ap (λ e. find_first (is_external raw.source e) db'.transactions) same_id
      ∙ ap (λ x. stored raw x.1) (sym h)
      ∙ found in
    match_settled client' raw' db' r there settled

failed_row :
    (client : BillingClient) (input : MatchInput) (r : BankTransactionRow) (db db' : PaymentsDb)
    (e : Error)
    → IsConsistent db
    → stored input db ≡ some r
    → continue_with client input r db ≡ (err e, db')
    → (is_pending r.status ≡ true) × (db ≡ db')
failed_row client input r db db' e k found h = elim (Bool-cases (is_pending r.status)) [
  | inr old ↦
      let plain : continue_with client input r db ≡ (ok duplicate, db) = rw old refl in
      let clash = ap (λ x. x.0) (sym plain ∙ h) in absurd (ground arith)
  | inl pending ↦ elim (Result-cases (decide_match client input)) [
    | inr (e', fails) ↦
        let failed : continue_with client input r db ≡ (err e', db) = rw (pending, fails) refl in
        (pending, ap (λ x. x.1) (sym failed ∙ h))
    | inl (d, good) ↦
        let clash =
          ap (λ x. x.0) (sym (pending_resolved client input d r db k found pending good) ∙ h) in
        absurd (ground arith)
  ]
]

-- Where a delivery failed because billing did, the payment is kept as pending, and the next delivery of it
-- that billing answers decides on it.
pub match_recovers :
    (client client' : BillingClient) (raw : MatchInput) (db db' : PaymentsDb) (e : Error)
    (d : MatchDecision)
    → IsConsistent db
    → match_payment client raw db ≡ (err e, db')
    → decide_match client' (normalized raw) ≡ ok d
    → (r : BankTransactionRow) × (stored raw db' ≡ some r)
      × (is_pending r.status ≡ true)
      × (match_payment client' raw db'
          ≡ (ok (written r.id d.on_row), resolved_db (normalized raw) r.id d db'))
match_recovers client client' raw db db' e d k h good =
    let (r, found, reached) = match_reaches client raw db in
    let taken = take_in-IsConsistent (normalized raw) db k in
    let (pending, same) =
      failed_row client (normalized raw) r _ db' e taken found (sym reached ∙ h) in
    let there : stored raw db' ≡ some r = ap (stored raw) (sym same) ∙ found in
    (
      r,
      there,
      pending,
      intake_there client' raw db' r there
          ∙ pending_resolved client' (normalized raw) d r db' (rw⁻¹ same taken) there pending good,
    )

-- Delivering a payment is two steps of the payments' books at most, whatever billing answers.
pub match_payment-Steps :
    (client : BillingClient) (raw : MatchInput) (db : PaymentsDb)
    → IsSound client
    → Steps db (match_payment client raw db).1
match_payment-Steps client raw db sound =
    let (r, found, reached) = match_reaches client raw db in
    let input = normalized raw in
    let first : Steps db (intake (intake_of input) db).1 = then_step done (take_in input) in
    rw reached (elim (Bool-cases (is_pending r.status)) [
      | inr old ↦ rw old first
      | inl pending ↦ rw pending (then_step first (resolve client input r sound found))
    ])
