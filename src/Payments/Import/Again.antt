-- ===== src/Payments/Import/Again.antt =====
-- A file that is imported again in services/payments/src/import.
use faktureringssystemet.Prelude.{
  ℕ, suc, ◌≤◌, ◌≡◌, refl, sym, ap, ◌∙◌, inl, inr, true, false, some, List, [], ◌∷◌, ◌++◌, arith,
  length,
}
use faktureringssystemet.Shared.Text.{Text}
use faktureringssystemet.Shared.Errors.{Result, ok, err, Result-cases}
use faktureringssystemet.Payments.Store.{
  BankTransactionStatus, BankTransactionRow, PaymentsDb, BillingClient,
}
use faktureringssystemet.Payments.Transactions.{is_pending}
use faktureringssystemet.Payments.Matching.{MatchOutcome, duplicate, written, match_payment}
use faktureringssystemet.Payments.Books.Steps.{IsConsistent, IsSound, Steps, done, then_step}
use faktureringssystemet.Payments.Books.Laws.{Steps-IsConsistent}
use faktureringssystemet.Payments.Books.History.{Steps-IsStillThere, may_become}
use faktureringssystemet.Payments.Deliveries.{
  stored, match_payment-Steps, match_settles, match_settled,
}
use faktureringssystemet.Payments.Import.{
  Runtime, ParsedLine, ParsedLineOk, ImportSummary, read, malformed, parse_bgmax_like,
  match_input_of, counted, import_lines, no_lines, import_file,
}

Steps-join : {a b c : PaymentsDb} → Steps a b → Steps b c → Steps a c
Steps-join before done = before
Steps-join before (then_step after s) = then_step (Steps-join before after) s

import_lines-Steps :
    (client : BillingClient) (c : ℕ) (lines : List ParsedLine) (s : ImportSummary) (db : PaymentsDb)
    → IsSound client
    → Steps db (import_lines client c lines s db).1
unfolding import_lines
import_lines-Steps client c [] s db sound = done
import_lines-Steps client c (malformed n e ∷ lines) s db sound =
    import_lines-Steps client c lines _ db sound
import_lines-Steps client c (read n line ∷ lines) s db sound =
    Steps-join (match_payment-Steps client (match_input_of c line) db sound)
      (import_lines-Steps client c lines _ _ sound)

counted_grows :
    (n : ℕ) (answer : Result MatchOutcome) (s : ImportSummary)
    → s.unresolved ≤ (counted n answer s).unresolved
counted_grows n (err e) s = omega arith
counted_grows n (ok duplicate) s = omega arith
counted_grows n (ok (written id d)) s = omega arith

unresolved_grows :
    (client : BillingClient) (c : ℕ) (lines : List ParsedLine) (s : ImportSummary) (db : PaymentsDb)
    → s.unresolved ≤ (import_lines client c lines s db).0.unresolved
unfolding import_lines
unresolved_grows client c [] s db = omega arith
unresolved_grows client c (malformed n e ∷ lines) s db = unresolved_grows client c lines _ db
unresolved_grows client c (read n line ∷ lines) s db =
    let answer = match_payment client (match_input_of c line) db in
    let rest = unresolved_grows client c lines (counted n answer.0 s) answer.1 in
    let more = counted_grows n answer.0 s in omega (arith, rest, more)

-- The payment of a line is decided on.
abbrev pub IsSettled : ParsedLine → PaymentsDb → Type 0
IsSettled (malformed n e) db = Unit
IsSettled (read n line) db =
    (r : BankTransactionRow) × (stored (match_input_of 0 line) db ≡ some r)
    × (is_pending r.status ≡ false)

abbrev pub AreSettled : List ParsedLine → PaymentsDb → Type 0
AreSettled [] db = Unit
AreSettled (line ∷ lines) db = IsSettled line db × AreSettled lines db

settled_stays :
    (a b : BankTransactionStatus)
    → is_pending a ≡ false
    → may_become a b ≡ true
    → is_pending b ≡ false
settled_stays a b h k = ground arith

still-IsSettled :
    (n : ℕ) (line : ParsedLineOk) {a b : PaymentsDb}
    → Steps a b
    → IsConsistent a
    → IsSettled (read n line) a
    → IsSettled (read n line) b
still-IsSettled n line steps k (r, found, settled) =
    let (r', there, kept) = Steps-IsStillThere _ line.external_id r steps k found in
    let may = kept.status in (r', there, settled_stays r.status r'.status settled may)

-- An import without undecided lines has decided on every line's payment.
all_settled :
    (client : BillingClient) (c : ℕ) (lines : List ParsedLine) (s : ImportSummary) (db : PaymentsDb)
    → IsConsistent db
    → IsSound client
    → (import_lines client c lines s db).0.unresolved ≡ s.unresolved
    → AreSettled lines (import_lines client c lines s db).1
unfolding import_lines
all_settled client c [] s db k sound h = tt
all_settled client c (malformed n e ∷ lines) s db k sound h =
    (tt, all_settled client c lines (record s { errors = s.errors ++ (n, e) ∷ [] }) db k sound h)
all_settled client c (read n line ∷ lines) s db k sound h =
    let input = match_input_of c line in
    let steps = match_payment-Steps client input db sound in
    let k' = Steps-IsConsistent steps k in
    let answer = match_payment client input db in
    let more = counted_grows n answer.0 s in
    let rest = unresolved_grows client c lines (counted n answer.0 s) answer.1 in
    let same : (counted n answer.0 s).unresolved ≡ s.unresolved = omega (arith, h, more, rest) in
    let now : IsSettled (read n line) answer.1 = elim (Result-cases answer.0) [
      | inl (o, good) ↦ match_settles client input db o k good
      | inr (e, fails) ↦
          let one_more : (counted n answer.0 s).unresolved ≡ suc s.unresolved = rw fails refl in
          absurd (omega (arith, one_more, same))
    ] in
    (
      still-IsSettled n line (import_lines-Steps client c lines _ answer.1 sound) k' now,
      all_settled client c lines (counted n answer.0 s) answer.1 k' sound (h ∙ sym same),
    )

-- Lines that are decided on are duplicates.
settled_again :
    (client : BillingClient) (c : ℕ) (lines : List ParsedLine) (s : ImportSummary) (db : PaymentsDb)
    → AreSettled lines db
    → ((import_lines client c lines s db).1 ≡ db)
      × ((import_lines client c lines s db).0.transactions_written ≡ s.transactions_written)
      × ((import_lines client c lines s db).0.unresolved ≡ s.unresolved)
unfolding import_lines
settled_again client c [] s db h = (refl, refl, refl)
settled_again client c (malformed n e ∷ lines) s db (h, hs) =
    settled_again client c lines (record s { errors = s.errors ++ (n, e) ∷ [] }) db hs
settled_again client c (read n line ∷ lines) s db ((r, found, settled), hs) =
    let same = match_settled client (match_input_of c line) db r found settled in
    let step : import_lines client c (read n line ∷ lines) s db
        ≡ import_lines client c lines (record s { duplicates = suc s.duplicates }) db =
      ap (λ x. import_lines client c lines (counted n x.0 s) x.1) same in
    rw step (settled_again client c lines (record s { duplicates = suc s.duplicates }) db hs)

-- Where an import decided on every line that it could read, the same file imported again changes nothing,
-- whatever billing answers then: no transaction is written and none is left undecided.
pub import_again :
    (rt : Runtime) (client client' : BillingClient) (file : Text) (c c' : ℕ) (db : PaymentsDb)
    → IsConsistent db
    → IsSound client
    → (import_file rt client file c db).0.unresolved ≡ 0
    → ((import_file rt client' file c' (import_file rt client file c db).1).1
        ≡ (import_file rt client file c db).1)
      × ((import_file rt client' file c' (import_file rt client file c db).1).0.transactions_written
          ≡ 0)
      × ((import_file rt client' file c' (import_file rt client file c db).1).0.unresolved ≡ 0)
unfolding import_file
import_again rt client client' file c c' db k sound h =
    let lines = parse_bgmax_like rt file in
    settled_again client' c' lines (no_lines (length lines)) _
      (all_settled client c lines (no_lines (length lines)) db k sound h)
