-- ===== src/Shared/SwedishId.antt =====
-- packages/shared/src/swedish-id/index.ts: personal, organisation and bankgiro numbers. The current
-- year is an argument; `trim` changes neither the digits nor whether there is a plus sign.
pub mod Laws
use mathlib.Core.List.{reverse}
use faktureringssystemet.Prelude.{
  ℕ, zero, suc, ◌+◌, ◌-◌, ◌*◌, ◌/◌, ◌%◌, Bool, true, false, ◌&&◌, ◌||◌, not, List, [], ◌∷◌, ◌++◌,
  ltb, leb, ◌==◌, if◌then◌else◌, length, take,
}
use faktureringssystemet.Shared.Text.{Text, is_digit, all_digits, to_decimal, to_number}
use faktureringssystemet.Shared.Errors.{Error, Result, ok, err}
use faktureringssystemet.Shared.Ocr.{luhn_loop}

-- The sum's last digit is 0; the check digit, the last one, is not doubled.
unfoldable pub luhn : Text → Bool
luhn digits =
    if not (all_digits digits && leb 1 (length digits))
    then false
    else luhn_loop false 0 (reverse digits) % 10 == 0

-- s.replace(/\D/g, "")
abbrev pub only_digits : Text → Text
only_digits [] = []
only_digits (c ∷ s) = let rest = only_digits s in if is_digit c then c ∷ rest else rest

-- s.slice(n)
abbrev pub slice_from : ℕ → Text → Text
slice_from zero s = s
slice_from (suc n) [] = []
slice_from (suc n) (c ∷ s) = slice_from n s

abbrev zeros : ℕ → Text
zeros zero = []
zeros (suc n) = b'0' ∷ zeros n

-- s.padStart(4, "0")
abbrev pub pad_start : ℕ → Text → Text
pad_start n s = zeros (n - length s) ++ s

abbrev has_plus : Text → Bool
has_plus [] = false
has_plus (c ∷ s) = c == b'+' || has_plus s

-- The year of birth that two digits stand for in the current year. It is taken to be at least 200.
abbrev pub birth_year : ℕ → ℕ → Bool → ℕ
birth_year current yy is_centenarian =
    let this_century = current / 100 * 100 + yy in
    let past = if ltb current this_century then this_century - 100 else this_century in
    if is_centenarian then past - 100 else past

unfoldable pub normalize_pnr : ℕ → Text → Result Text
normalize_pnr current input =
    let digits = only_digits input in
    let year = birth_year current (to_number (take 2 digits)) (has_plus input) in
    if length digits == 12
    then ok digits
    else if not (length digits == 10)
    then err Error.bad_request
    else ok (pad_start 4 (to_decimal year) ++ slice_from 2 digits)

abbrev is_valid_normalized : Result Text → Bool
is_valid_normalized (err e) = false
is_valid_normalized (ok d) =
    let month = to_number (take 2 (slice_from 4 d)) in
    let written = to_number (take 2 (slice_from 6 d)) in
    let day = if ltb 60 written then written - 60 else written in
    if not (luhn (slice_from 2 d))
    then false
    else leb 1 month && leb month 12 && leb 1 day && leb day 31

unfoldable pub is_valid_pnr : ℕ → Text → Bool
is_valid_pnr current input = is_valid_normalized (normalize_pnr current input)

unfoldable pub is_valid_org_number : Text → Bool
is_valid_org_number input = let digits = only_digits input in length digits == 10 && luhn digits

unfoldable pub is_valid_bankgiro : Text → Bool
is_valid_bankgiro input =
    let digits = only_digits input in (length digits == 7 || length digits == 8) && luhn digits

unfoldable pub normalize_bankgiro : Text → Text
normalize_bankgiro input = only_digits input
