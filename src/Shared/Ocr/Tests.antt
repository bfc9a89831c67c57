-- ===== src/Shared/Ocr/Tests.antt =====
-- Concrete runs of packages/shared/src/ocr/index.ts, from its test file.
use faktureringssystemet.Prelude.{ℕ, ◌≡◌, refl, some, true, arith}
use faktureringssystemet.Shared.Text.{Text, codes, to_decimal, to_number}
use faktureringssystemet.Shared.Ocr.{derive_ocr, is_valid_ocr, luhn_check_digit}
use faktureringssystemet.Shared.Ocr.Laws.{is_valid_ocr-derive_ocr, is_valid_ocr_one_digit}

derive_one : derive_ocr 1 ≡ some (codes "133")
unfolding derive_ocr to_decimal luhn_check_digit
derive_one = refl

derive_1234 : derive_ocr 1234 ≡ some (codes "123463")
unfolding derive_ocr to_decimal luhn_check_digit
derive_1234 = refl

is_valid_ocr-derive_ocr_example :
    (ocr : Text) × (derive_ocr 1234 ≡ some ocr) × (is_valid_ocr ocr ≡ true)
is_valid_ocr-derive_ocr_example = is_valid_ocr-derive_ocr 1234 (omega arith)

is_valid_ocr_one_digit_example : ◌≡◌ {A = ℕ} b'3' b'3'
unfolding is_valid_ocr luhn_check_digit to_number
is_valid_ocr_one_digit_example =
    is_valid_ocr_one_digit (codes "12") (codes "463") b'3' b'3' refl refl
