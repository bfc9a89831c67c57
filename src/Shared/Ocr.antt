-- ===== src/Shared/Ocr.antt =====
-- packages/shared/src/ocr/index.ts: the payment reference derived from an invoice number.
pub mod Luhn
pub mod Laws
mod Tests
use faktureringssystemet.Prelude.{
  ℕ, suc, ◌+◌, ◌-◌, ◌*◌, ◌%◌, Bool, true, false, ◌&&◌, Option, none, some, List, [], ◌∷◌, ◌++◌, ltb,
  leb, ◌==◌, if◌then◌else◌, length, not,
}
use faktureringssystemet.Shared.Text.{Text, all_digits, to_decimal, to_number}
use mathlib.Core.List.{reverse}

-- What one digit adds to the sum: doubled every other time, less 9 above 9.
abbrev pub luhn_term : Bool → ℕ → ℕ
luhn_term true c = let d = (c - b'0') * 2 in if ltb 9 d then d - 9 else d
luhn_term false c = c - b'0'

-- The loop from the last digit to the first, over the digits in that order.
unfoldable pub luhn_loop : Bool → ℕ → Text → ℕ
luhn_loop double sum [] = sum
luhn_loop double sum (c ∷ s) = luhn_loop (not double) (sum + luhn_term double c) s

unfoldable pub luhn_check_digit : Text → ℕ
unfolding luhn_loop
luhn_check_digit digits = (10 - luhn_loop true 0 (reverse digits) % 10) % 10

-- `none` where the source throws.
unfoldable pub derive_ocr : ℕ → Option Text
derive_ocr invoice_number =
    if leb invoice_number 0
    then none
    else (let base = to_decimal invoice_number in
        let length_digit = to_decimal ((length base + 2) % 10) in
        let with_length = base ++ length_digit in
        some (with_length ++ to_decimal (luhn_check_digit with_length)))

-- s.slice(0, -1) and s.slice(-1).
abbrev pub drop_last : Text → Text
drop_last [] = []
drop_last (c ∷ []) = []
drop_last (c ∷ d ∷ s) = c ∷ drop_last (d ∷ s)

abbrev pub last_one : Text → Text
last_one [] = []
last_one (c ∷ []) = c ∷ []
last_one (c ∷ d ∷ s) = last_one (d ∷ s)

unfoldable pub is_valid_ocr : Text → Bool
is_valid_ocr ocr =
    let body = drop_last ocr in
    let check = to_number (last_one ocr) in
    let base = drop_last body in
    let length_digit = to_number (last_one body) in
    if not (all_digits ocr && leb 3 (length ocr))
    then false
    else if not ((length base + 2) % 10 == length_digit)
    then false
    else luhn_check_digit body == check
