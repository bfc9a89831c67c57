-- ===== src/Shared/Text.antt =====
-- Texts that the program walks, as lists of code units, and JavaScript's `String(n)` and `Number(s)`
-- on the digits 0 to 9.
use Prim.Native.Char.{code}
use faktureringssystemet.Prelude.{
  ℕ, zero, suc, ◌+◌, ◌-◌, ◌*◌, ◌/◌, ◌%◌, ◌≤◌, ◌<◌, ◌≡◌, refl, Bool, true, false, ◌&&◌, List, [],
  ◌∷◌, ◌++◌, arith, ltb, leb, if◌then◌else◌, ◌==◌, length, length-append, String,
}

abbrev pub Text : Type 0
Text = List ℕ

abbrev pub codes : String → Text
codes String.[] = []
codes (String.◌∷◌ c s) = code c ∷ codes s

abbrev pub text_eq : Text → Text → Bool
text_eq [] [] = true
text_eq [] (d ∷ t) = false
text_eq (c ∷ s) [] = false
text_eq (c ∷ s) (d ∷ t) = c == d && text_eq s t

pub text_eq_refl : (s : Text) → text_eq s s ≡ true
text_eq_refl [] = refl
text_eq_refl (c ∷ s) = ground (arith, text_eq_refl s)

pub text_eq→≡ : (s t : Text) → text_eq s t ≡ true → s ≡ t
text_eq→≡ [] [] h = refl
text_eq→≡ [] (d ∷ t) h = absurd (ground arith)
text_eq→≡ (c ∷ s) [] h = absurd (ground arith)
text_eq→≡ (c ∷ s) (d ∷ t) h = ground (arith, text_eq→≡ s t)

-- /\d/ on one code unit.
abbrev pub is_digit : ℕ → Bool
is_digit c = leb b'0' c && leb c b'9'

abbrev pub all_digits : Text → Bool
all_digits [] = true
all_digits (c ∷ s) = is_digit c && all_digits s

-- `String(n)`, on fuel that any bound of `n` suffices for.
pub to_decimal_fuel : ℕ → ℕ → Text
to_decimal_fuel zero n = []
to_decimal_fuel (suc f) n =
    let front = to_decimal_fuel f (n / 10) in
    if ltb n 10 then (b'0' + n) ∷ [] else front ++ (b'0' + n % 10) ∷ []

unfoldable pub to_decimal : ℕ → Text
unfolding to_decimal_fuel
to_decimal n = to_decimal_fuel (suc n) n

-- `Number(s)` for a text of digits.
pub value_from : ℕ → Text → ℕ
value_from acc [] = acc
value_from acc (c ∷ s) = value_from (acc * 10 + (c - b'0')) s

unfoldable pub to_number : Text → ℕ
unfolding value_from
to_number s = value_from 0 s

value_from-append :
    (acc : ℕ) (s t : Text) → value_from acc (s ++ t) ≡ value_from (value_from acc s) t
unfolding value_from
value_from-append acc [] t = refl
value_from-append acc (c ∷ s) t = value_from-append (acc * 10 + (c - b'0')) s t

value_from-decimal : (f n : ℕ) → n < f → value_from 0 (to_decimal_fuel f n) ≡ n
unfolding to_decimal_fuel value_from
value_from-decimal zero n h = elim h [ ]
value_from-decimal (suc f) n h = ground (
  arith,
  value_from-decimal f (n / 10),
  value_from-append 0 (to_decimal_fuel f (n / 10)) ((b'0' + n % 10) ∷ []),
)

-- Printing a number and reading it back gives the number.
pub to_number-to_decimal : (n : ℕ) → to_number (to_decimal n) ≡ n
unfolding to_number to_decimal
to_number-to_decimal n = value_from-decimal (suc n) n (omega arith)

pub all_digits-append :
    (s t : Text) → all_digits s ≡ true → all_digits t ≡ true → all_digits (s ++ t) ≡ true
all_digits-append [] t h k = k
all_digits-append (c ∷ s) t h k = ground (arith, all_digits-append s t)

digit_is_digit : (d : ℕ) → d < 10 → is_digit (b'0' + d) ≡ true
digit_is_digit d h = ground arith

decimal-all_digits : (f n : ℕ) → all_digits (to_decimal_fuel f n) ≡ true
unfolding to_decimal_fuel
decimal-all_digits zero n = refl
decimal-all_digits (suc f) n = ground (
  arith,
  decimal-all_digits f (n / 10),
  digit_is_digit n,
  digit_is_digit (n % 10),
  all_digits-append (to_decimal_fuel f (n / 10)) ((b'0' + n % 10) ∷ []),
)

pub all_digits-to_decimal : (n : ℕ) → all_digits (to_decimal n) ≡ true
unfolding to_decimal
all_digits-to_decimal n = decimal-all_digits (suc n) n

decimal_nonempty : (f n : ℕ) → n < f → 1 ≤ length (to_decimal_fuel f n)
unfolding to_decimal_fuel
decimal_nonempty zero n h = elim h [ ]
decimal_nonempty (suc f) n h =
    ground (arith, length-append (to_decimal_fuel f (n / 10)) ((b'0' + n % 10) ∷ []))

pub length-to_decimal : (n : ℕ) → 1 ≤ length (to_decimal n)
unfolding to_decimal
length-to_decimal n = decimal_nonempty (suc n) n (omega arith)

pub to_decimal_digit : (d : ℕ) → d < 10 → to_decimal d ≡ (b'0' + d) ∷ []
unfolding to_decimal to_decimal_fuel
to_decimal_digit d h = ground arith
