-- ===== src/Payments/Import.antt =====
-- services/payments/src/import/parser.ts and service.ts: a file of payments. What is logged is left out,
-- and an error carries its kind instead of a message.
pub mod Laws
pub mod Again
use mathlib.Core.List.{reverse}
use faktureringssystemet.Prelude.{
  ℕ, suc, ◌+◌, Bool, true, false, ◌&&◌, ◌||◌, not, Option, none, some, List, [], ◌∷◌, ◌++◌, ◌==◌,
  ltb, leb, if◌then◌else◌, length, select, or_else,
}
use faktureringssystemet.Prelude.Int.{ℤ, pos, pos_part, leb_ℤ}
use faktureringssystemet.Shared.Text.{Text, to_decimal}
use faktureringssystemet.Shared.Errors.{Error, Result, ok, err}
use faktureringssystemet.Payments.Store.{
  BankTransactionSource, BankTransactionStatus, PaymentsDb, BillingClient,
}
use faktureringssystemet.Payments.Matching.{
  MatchInput, MatchOutcome, duplicate, written, match_payment, is_matched,
}
use faktureringssystemet.Payments.Admin.{is_manual_review}

-- `Number` of a text, if that is an integer; the time of `new Date(d + "T00:00:00.000Z")`, if it is one;
-- `toISOString`; and the hash in hexadecimal digits.
pub record Runtime : Type 0 where
  pub number : Text → Option ℤ
  pub midnight : Text → Option ℕ
  pub iso : ℕ → Text
  pub sha256 : Text → Text

pub record ParsedLineOk : Type 0 where
  pub bankgiro : Text
  pub ocr : Text
  pub amount_ore : ℕ
  pub payer_name : Option Text
  pub booked_at : ℕ
  pub external_id : Text

pub data LineError : Type 0 where
  field_count bankgiro_missing amount_invalid date_invalid : LineError
  undecided : Error → LineError

pub data ParsedLine : Type 0 where
  read : ℕ → ParsedLineOk → ParsedLine
  malformed : ℕ → LineError → ParsedLine

-- The white space and line ends that `trim` removes.
abbrev is_space : ℕ → Bool
is_space c =
    leb 9 c && leb c 13
    || c == 32
    || c == 160
    || c == 5760
    || leb 8192 c && leb c 8202
    || c == 8232
    || c == 8233
    || c == 8239
    || c == 8287
    || c == 12288
    || c == 65279

abbrev trim_start : Text → Text
trim_start [] = []
trim_start (c ∷ s) = let rest = trim_start s in if is_space c then rest else c ∷ s

unfoldable pub trim : Text → Text
trim s = reverse (trim_start (reverse (trim_start s)))

abbrev pub add_to_first : ℕ → List Text → List Text
add_to_first c [] = (c ∷ []) ∷ []
add_to_first c (l ∷ ls) = (c ∷ l) ∷ ls

-- split("|")
unfoldable pub split_fields : Text → List Text
split_fields [] = [] ∷ []
split_fields (c ∷ s) =
    let rest = split_fields s in if c == b'|' then [] ∷ rest else add_to_first c rest

abbrev pub starts_with_lf : Text → Bool
starts_with_lf [] = false
starts_with_lf (c ∷ s) = c == 10

-- split(/\r\n|\n/): the rest after \r begins with the empty line that its \n ends.
unfoldable pub split_lines : Text → List Text
split_lines [] = [] ∷ []
split_lines (c ∷ s) =
    let rest = split_lines s in
    if c == 10 then [] ∷ rest else if c == 13 && starts_with_lf s then rest else add_to_first c rest

-- [...].join("|")
abbrev pub join_fields : List Text → Text
join_fields [] = []
join_fields (f ∷ []) = f
join_fields (f ∷ g ∷ fs) = f ++ b'|' ∷ join_fields (g ∷ fs)

unfoldable pub derive_external_id : Runtime → ℕ → Text → Text → ℕ → Option Text → ℕ → Text
derive_external_id rt ordinal bankgiro ocr amount payer booked = rt.sha256 (
    to_decimal ordinal
    ++ b':'
      ∷ join_fields (bankgiro ∷ ocr ∷ to_decimal amount ∷ or_else payer [] ∷ rt.iso booked ∷ []))

-- `s || d` of a text.
abbrev pub text_or : Text → Text → Text
text_or [] d = d
text_or (c ∷ s) d = c ∷ s

abbrev pub non_blank : Text → Option Text
non_blank [] = none
non_blank (c ∷ s) = some (c ∷ s)

abbrev pub parsed : Runtime → ℕ → Text → Text → ℕ → Option Text → ℕ → Text → ParsedLine
parsed rt n bankgiro ocr amount payer booked external = read n (record {
  bankgiro = bankgiro;
  ocr = ocr;
  amount_ore = amount;
  payer_name = payer;
  booked_at = booked;
  external_id = text_or external (derive_external_id rt n bankgiro ocr amount payer booked);
})

-- The date, tested for being there after it is read.
abbrev pub parse_date : Runtime → Text → Option ℕ
parse_date rt [] = none
parse_date rt (c ∷ s) = rt.midnight (c ∷ s)

abbrev pub parse_amount : Runtime → Text → Option ℕ
parse_amount rt s = elim (rt.number s) [
  | none ↦ none
  | some a ↦ if leb_ℤ a (pos 0) then none else some (pos_part a)
]

abbrev pub parse_rest : Runtime → ℕ → Text → Text → Text → Text → Option ℕ → Option ℕ → ParsedLine
parse_rest rt n [] ocr payer external amount date = malformed n bankgiro_missing
parse_rest rt n (c ∷ b) ocr payer external none date = malformed n amount_invalid
parse_rest rt n (c ∷ b) ocr payer external (some a) none = malformed n date_invalid
parse_rest rt n (c ∷ b) ocr payer external (some a) (some d) =
    parsed rt n (c ∷ b) ocr a (non_blank payer) d external

abbrev pub parse_fields : Runtime → ℕ → List Text → ParsedLine
parse_fields rt n (bankgiro ∷ ocr ∷ amount ∷ payer ∷ date ∷ external ∷ []) =
    parse_rest rt n (trim bankgiro) (trim ocr) (trim payer) (trim external)
      (parse_amount rt (trim amount)) (parse_date rt (trim date))
parse_fields rt n _ = malformed n field_count

unfoldable pub parse_one : Runtime → Text → ℕ → ParsedLine
parse_one rt raw n = parse_fields rt n (split_fields raw)

abbrev pub has_content : Text → Bool
has_content line = leb 1 (length (trim line))

abbrev pub parse_from : Runtime → ℕ → List Text → List ParsedLine
parse_from rt n [] = []
parse_from rt n (line ∷ lines) = parse_one rt (trim line) n ∷ parse_from rt (suc n) lines

unfoldable pub parse_bgmax_like : Runtime → Text → List ParsedLine
parse_bgmax_like rt file = parse_from rt 0 (select has_content (split_lines file))

pub record ImportSummary : Type 0 where
  pub lines_read : ℕ
  pub transactions_written : ℕ
  pub duplicates : ℕ
  pub auto_matched : ℕ
  pub manual_review : ℕ
  pub unresolved : ℕ
  pub errors : List (ℕ × LineError)

abbrev pub match_input_of : ℕ → ParsedLineOk → MatchInput
match_input_of correlation line = record {
  source = BankTransactionSource.bgmax;
  external_id = line.external_id;
  bankgiro = line.bankgiro;
  ocr = line.ocr;
  amount_ore = line.amount_ore;
  payer_name = line.payer_name;
  booked_at = line.booked_at;
  correlation_id = correlation;
}

abbrev pub count_if : Bool → ℕ
count_if b = if b then 1 else 0

-- What one answer adds to the summary.
abbrev pub counted : ℕ → Result MatchOutcome → ImportSummary → ImportSummary
counted n (err e) s = record s {
  unresolved = suc s.unresolved;
  errors = s.errors ++ (n, undecided e) ∷ [];
}
counted n (ok duplicate) s = record s { duplicates = suc s.duplicates }
counted n (ok (written id d)) s = record s {
  transactions_written = suc s.transactions_written;
  auto_matched = s.auto_matched + count_if (is_matched d.status);
  manual_review = s.manual_review + count_if (is_manual_review d.status);
}

-- The loop over the lines, one after the other.
unfoldable pub import_lines :
    BillingClient → ℕ → List ParsedLine → ImportSummary → PaymentsDb → ImportSummary × PaymentsDb
import_lines client c [] s db = (s, db)
import_lines client c (malformed n e ∷ lines) s db =
    import_lines client c lines (record s { errors = s.errors ++ (n, e) ∷ [] }) db
import_lines client c (read n line ∷ lines) s db =
    let answer = match_payment client (match_input_of c line) db in
    import_lines client c lines (counted n answer.0 s) answer.1

abbrev pub no_lines : ℕ → ImportSummary
no_lines n = record {
  lines_read = n;
  transactions_written = 0;
  duplicates = 0;
  auto_matched = 0;
  manual_review = 0;
  unresolved = 0;
  errors = [];
}

unfoldable pub import_file :
    Runtime → BillingClient → Text → ℕ → PaymentsDb → ImportSummary × PaymentsDb
import_file rt client file c db =
    let lines = parse_bgmax_like rt file in import_lines client c lines (no_lines (length lines)) db
