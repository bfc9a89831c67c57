-- ===== src/Payments/Import/Laws.antt =====
-- What the import of a file in services/payments/src/import does.
use faktureringssystemet.Prelude.{
  ℕ, suc, ◌+◌, ◌≤◌, ◌≡◌, refl, ap, inl, inr, Bool, true, false, ◌&&◌, not, select, List, [], ◌∷◌,
  ◌++◌, ◌==◌, arith, if◌then◌else◌, length, length-append, Bool-cases,
}
use faktureringssystemet.Shared.Text.{Text}
use faktureringssystemet.Shared.Errors.{ok, err, Result}
use faktureringssystemet.Payments.Store.{PaymentsDb, BillingClient}
use faktureringssystemet.Payments.Matching.{MatchOutcome, duplicate, written, match_payment}
use faktureringssystemet.Payments.Import.{
  Runtime, ParsedLine, ImportSummary, read, malformed, undecided, split_lines, has_content,
  parse_from, parse_bgmax_like, match_input_of, counted, import_lines, no_lines, import_file,
}

-- Each line that was gone through is counted once, and the errors are those of lines not counted elsewhere.
abbrev pub AddsUp : ℕ → ImportSummary → Type 0
AddsUp seen s =
    (seen ≡ s.transactions_written + s.duplicates + length s.errors)
    × (s.unresolved ≤ length s.errors)
    × (s.auto_matched + s.manual_review ≤ s.transactions_written)

counted-AddsUp :
    (n seen : ℕ) (answer : Result MatchOutcome) (s : ImportSummary)
    → AddsUp seen s
    → AddsUp (suc seen) (counted n answer s)
counted-AddsUp n seen (err e) s (h, u, w) =
    let l = length-append s.errors ((n, undecided e) ∷ []) in
    (omega (arith, h, l), omega (arith, u, l), w)
counted-AddsUp n seen (ok duplicate) s (h, u, w) = (omega (arith, h), u, w)
counted-AddsUp n seen (ok (written id d)) s (h, u, w) = (omega (arith, h), u, ground arith)

import_lines-AddsUp :
    (client : BillingClient) (c seen : ℕ) (lines : List ParsedLine) (s : ImportSummary)
    (db : PaymentsDb)
    → AddsUp seen s
    → AddsUp (seen + length lines) (import_lines client c lines s db).0
unfolding import_lines
import_lines-AddsUp client c seen [] s db h = let e : seen + 0 ≡ seen = omega arith in rw e h
import_lines-AddsUp client c seen (malformed n e ∷ lines) s db (h, u, w) =
    let l = length-append s.errors ((n, e) ∷ []) in
    let k : seen + suc (length lines) ≡ suc seen + length lines = omega arith in
    let rest =
      import_lines-AddsUp client c (suc seen) lines (record s { errors = s.errors ++ (n, e) ∷ [] })
        db (omega (arith, h, l), omega (arith, u, l), w) in
    rw k rest
import_lines-AddsUp client c seen (read n line ∷ lines) s db h =
    let answer = match_payment client (match_input_of c line) db in
    let k : seen + suc (length lines) ≡ suc seen + length lines = omega arith in
    let rest =
      import_lines-AddsUp client c (suc seen) lines (counted n answer.0 s) answer.1
        (counted-AddsUp n seen answer.0 s h) in
    rw k rest

-- A file's lines are each written, known already or in error: the three counts add up to the lines read.
-- The undecided ones are among the errors, and those matched or up for review among the ones written.
import-AddsUp :
    (rt : Runtime) (client : BillingClient) (file : Text) (c : ℕ) (db : PaymentsDb)
    → AddsUp (length (parse_bgmax_like rt file)) (import_file rt client file c db).0
unfolding import_file
import-AddsUp rt client file c db =
    let (h, u, w) =
      import_lines-AddsUp client c 0 (parse_bgmax_like rt file)
        (no_lines (length (parse_bgmax_like rt file))) db (omega arith, omega arith, omega arith) in
    (omega (arith, h), u, w)

-- A text without carriage returns, and with one before each line feed.
abbrev pub lacks_cr : Text → Bool
lacks_cr [] = true
lacks_cr (c ∷ s) = not (c == 13) && lacks_cr s

abbrev pub with_crlf : Text → Text
with_crlf [] = []
with_crlf (c ∷ s) = let rest = with_crlf s in if c == 10 then 13 ∷ 10 ∷ rest else c ∷ rest

crlf_lines : (s : Text) → lacks_cr s ≡ true → split_lines (with_crlf s) ≡ split_lines s
unfolding split_lines
crlf_lines [] h = refl
crlf_lines (c ∷ s) h = elim (Bool-cases (c == 10)) [
  | inl lf ↦ let rest = crlf_lines s (ground arith) in ground arith
  | inr other ↦
      let rest = crlf_lines s (ground arith) in
      let plain : c == 13 ≡ false = ground arith in ground arith
]

-- A file whose lines end in line feeds is read the same when they end in carriage return and line feed.
import_crlf :
    (rt : Runtime) (file : Text)
    → lacks_cr file ≡ true
    → parse_bgmax_like rt (with_crlf file) ≡ parse_bgmax_like rt file
unfolding parse_bgmax_like
import_crlf rt file h = ap (λ ls. parse_from rt 0 (select has_content ls)) (crlf_lines file h)
