-- ===== src/Shared/Ocr/Laws.antt =====
-- What packages/shared/src/ocr/index.ts guarantees about a derived payment reference.
use mathlib.Core.List.{reverse}
use faktureringssystemet.Prelude.{
  ℕ, ◌+◌, ◌-◌, ◌%◌, ◌<◌, ◌≤◌, ◌≡◌, refl, sym, ap, ◌∙◌, true, false, some, [], ◌∷◌, ◌++◌, arith,
  length, length-append,
}
use faktureringssystemet.Shared.Text.{
  Text, is_digit, all_digits, all_digits-append, all_digits-to_decimal, to_decimal, to_number,
  to_number-to_decimal, length-to_decimal, to_decimal_digit,
}
use faktureringssystemet.Shared.Ocr.{
  luhn_loop, luhn_check_digit, derive_ocr, drop_last, last_one, is_valid_ocr,
}
use faktureringssystemet.Shared.Ocr.Luhn.{
  luhn_one_digit, reverse_middle, luhn_loop-cons, luhn_loop_acc,
}

drop_last-snoc : (s : Text) (c : ℕ) → drop_last (s ++ c ∷ []) ≡ s
drop_last-snoc [] c = refl
drop_last-snoc (d ∷ []) c = refl
drop_last-snoc (d ∷ e ∷ s) c = ap (λ t. d ∷ t) (drop_last-snoc (e ∷ s) c)

last_one-snoc : (s : Text) (c : ℕ) → last_one (s ++ c ∷ []) ≡ c ∷ []
last_one-snoc [] c = refl
last_one-snoc (d ∷ []) c = refl
last_one-snoc (d ∷ e ∷ s) c = last_one-snoc (e ∷ s) c

luhn_check_digit-lt : (s : Text) → luhn_check_digit s < 10
unfolding luhn_check_digit
luhn_check_digit-lt s = omega arith

abbrev with_length_digit : Text → Text
with_length_digit base = base ++ (b'0' + (length base + 2) % 10) ∷ []

abbrev with_check_digit : Text → Text
with_check_digit body = body ++ (b'0' + luhn_check_digit body) ∷ []

-- The reference written out: number, length digit, check digit.
derive_ocr_shape :
    (n : ℕ) → 0 < n → derive_ocr n ≡ some (with_check_digit (with_length_digit (to_decimal n)))
unfolding derive_ocr
derive_ocr_shape n h = ground (
  arith,
  to_decimal_digit ((length (to_decimal n) + 2) % 10) (omega arith),
  to_decimal_digit (luhn_check_digit (with_length_digit (to_decimal n)))
      (luhn_check_digit-lt (with_length_digit (to_decimal n))),
)

to_number_digit : (d : ℕ) → d < 10 → to_number ((b'0' + d) ∷ []) ≡ d
to_number_digit d h = ap to_number (sym (to_decimal_digit d h)) ∙ to_number-to_decimal d

digit_text : (d : ℕ) → d < 10 → all_digits ((b'0' + d) ∷ []) ≡ true
digit_text d h = ground arith

-- A text of digits that carries its length digit and its check digit is valid.
is_valid_of_shape :
    (base : Text)
    → all_digits base ≡ true
    → 1 ≤ length base
    → is_valid_ocr (with_check_digit (with_length_digit base)) ≡ true
unfolding is_valid_ocr
is_valid_of_shape base digits long =
    let body : Text = with_length_digit base in
    let l : ℕ = (length base + 2) % 10 in
    ground (
      arith,
      drop_last-snoc body (b'0' + luhn_check_digit body),
      last_one-snoc body (b'0' + luhn_check_digit body),
      drop_last-snoc base (b'0' + l),
      last_one-snoc base (b'0' + l),
      to_number_digit l (omega arith),
      to_number_digit (luhn_check_digit body) (luhn_check_digit-lt body),
      length-append body ((b'0' + luhn_check_digit body) ∷ []),
      length-append base ((b'0' + l) ∷ []),
      all_digits-append base ((b'0' + l) ∷ []) digits (digit_text l (omega arith)),
      all_digits-append body ((b'0' + luhn_check_digit body) ∷ []),
      digit_text (luhn_check_digit body) (luhn_check_digit-lt body),
    )

-- The reference derived from an invoice number above 0 is one that payments accepts as valid.
pub is_valid_ocr-derive_ocr :
    (n : ℕ) → 0 < n → (ocr : Text) × (derive_ocr n ≡ some ocr) × (is_valid_ocr ocr ≡ true)
is_valid_ocr-derive_ocr n h = (
  with_check_digit (with_length_digit (to_decimal n)),
  derive_ocr_shape n h,
  is_valid_of_shape (to_decimal n) (all_digits-to_decimal n) (length-to_decimal n),
)

number_part : Text → ℕ
number_part ocr = to_number (drop_last (drop_last ocr))

number_part-derive : (n : ℕ) → number_part (with_check_digit (with_length_digit (to_decimal n))) ≡ n
unfolding number_part
number_part-derive n = simp (drop_last-snoc, to_number-to_decimal)

-- Two invoice numbers above 0 with the same payment reference are the same number.
derive_ocr_injective : (m n : ℕ) → 0 < m → 0 < n → derive_ocr m ≡ derive_ocr n → m ≡ n
derive_ocr_injective m n hm hn e =
    cc (derive_ocr_shape m hm, derive_ocr_shape n hn, number_part-derive m, number_part-derive n)

snoc_of : (s : Text) → 1 ≤ length s → (b : Text) × (x : ℕ) × (s ≡ b ++ x ∷ [])
snoc_of [] h = elim h [ ]
snoc_of (c ∷ []) h = ([], c, refl)
snoc_of (c ∷ d ∷ s) h =
    let (b, x, e) = snoc_of (d ∷ s) (omega arith) in (c ∷ b, x, ap (λ t. c ∷ t) e)

all_digits_middle : (s t : Text) (c : ℕ) → all_digits (s ++ c ∷ t) ≡ true → is_digit c ≡ true
all_digits_middle [] t c h = ground arith
all_digits_middle (d ∷ s) t c h = all_digits_middle s t c (ground arith)

is_valid_ocr_parts :
    (ocr : Text)
    → is_valid_ocr ocr ≡ true
    → (all_digits ocr ≡ true)
      × (1 ≤ length ocr)
      × (luhn_check_digit (drop_last ocr) ≡ to_number (last_one ocr))
unfolding is_valid_ocr
is_valid_ocr_parts ocr h = ground arith

to_number_one : (c : ℕ) → to_number (c ∷ []) ≡ c - b'0'
unfolding to_number
to_number_one c = omega arith

luhn_check_digit_lem :
    (s : Text) → luhn_check_digit s ≡ (10 - luhn_loop true 0 (reverse s) % 10) % 10
unfolding luhn_check_digit
luhn_check_digit_lem s = refl

valid_sum_snoc :
    (b : Text) (x : ℕ)
    → is_valid_ocr (b ++ x ∷ []) ≡ true
    → luhn_loop false 0 (reverse (b ++ x ∷ [])) % 10 ≡ 0
valid_sum_snoc b x h =
    let p = is_valid_ocr_parts (b ++ x ∷ []) h in
    let check : luhn_check_digit b ≡ x - b'0' =
      ap luhn_check_digit (sym (drop_last-snoc b x))
      ∙ (p.2 ∙ (ap to_number (last_one-snoc b x) ∙ to_number_one x)) in
    rw (reverse_middle b [] x, luhn_loop-cons, luhn_loop_acc true (0 + (x - b'0')) (reverse b))
      (omega (arith, check, luhn_check_digit_lem b))

-- The Luhn sum over all digits of a valid reference, the check digit included, is a multiple of 10.
valid_sum : (ocr : Text) → is_valid_ocr ocr ≡ true → luhn_loop false 0 (reverse ocr) % 10 ≡ 0
valid_sum ocr h =
    let (b, x, e) = snoc_of ocr (is_valid_ocr_parts ocr h).1 in
    rw e (valid_sum_snoc b x (rw (← e) h))

-- Two valid references that differ in one place only are equal there: one mistyped digit is found.
pub is_valid_ocr_one_digit :
    (s t : Text) (c d : ℕ)
    → is_valid_ocr (s ++ c ∷ t) ≡ true
    → is_valid_ocr (s ++ d ∷ t) ≡ true
    → c ≡ d
is_valid_ocr_one_digit s t c d h k =
    luhn_one_digit false (reverse t) (reverse s) c d
      (all_digits_middle s t c (is_valid_ocr_parts (s ++ c ∷ t) h).0)
      (all_digits_middle s t d (is_valid_ocr_parts (s ++ d ∷ t) k).0)
      (rw (reverse_middle s t c) at (valid_sum (s ++ c ∷ t) h))
      (rw (reverse_middle s t d) at (valid_sum (s ++ d ∷ t) k))
