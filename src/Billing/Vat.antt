-- ===== src/Billing/Vat.antt =====
-- services/billing/src/domain/vat.ts: amounts of a line, in öre. A quantity is its whole number of
-- thousandths, `Math.round(quantity * 1000)`; the quotients before rounding are exact fractions here.
pub mod Laws
mod Tests
use faktureringssystemet.Prelude.{ℕ, ◌+◌, ◌-◌, ◌*◌, ◌/◌, ◌^◌, List, [], ◌∷◌, ltb, if◌then◌else◌}
use faktureringssystemet.Prelude.Int.{ℤ, pos, ◌+ℤ◌, neg}
use faktureringssystemet.Shared.Errors.{Error, Result, ok, err}

pub data VatRate : Type 0 where
  rate_0 rate_6 rate_12 rate_25 : VatRate

abbrev pub percent : VatRate → ℕ
percent VatRate.rate_0 = 0
percent VatRate.rate_6 = 6
percent VatRate.rate_12 = 12
percent VatRate.rate_25 = 25

pub record LineInput : Type 0 where
  -- in thousandths
  pub quantity : ℕ
  pub unit_price_ore : ℕ
  pub vat_rate : VatRate

pub record LineAmounts : Type 0 where
  pub line_excl_vat_ore : ℤ
  pub line_vat_ore : ℤ
  pub line_incl_vat_ore : ℤ

abbrev pub max_safe_integer : ℕ
max_safe_integer = 2 ^ 53 - 1

-- `Math.floor(value + 0.5)` of the value num / den.
unfoldable pub round_half_up : ℕ → ℕ → ℕ
round_half_up num den = (2 * num + den) / (2 * den)

-- The product in thousandths of an öre.
unfoldable pub exact_line_excl_vat : ℕ → ℕ → Result ℕ
exact_line_excl_vat milli unit_price_ore =
    let whole = milli / 1000 in
    let frac = milli - whole * 1000 in
    let whole_part = whole * unit_price_ore in
    if ltb max_safe_integer whole_part
    then err Error.plain_error
    else ok (whole_part * 1000 + frac * unit_price_ore)

abbrev amounts_of_excl : ℕ → ℕ → LineAmounts
amounts_of_excl excl vat = record {
  line_excl_vat_ore = pos excl;
  line_vat_ore = pos vat;
  line_incl_vat_ore = pos (excl + vat);
}

unfoldable pub compute_line : LineInput → Result LineAmounts
compute_line line = elim (exact_line_excl_vat line.quantity line.unit_price_ore) [
  | err e ↦ err e
  | ok exact ↦
      let excl = round_half_up exact 1000 in
      ok (amounts_of_excl excl (round_half_up (excl * percent line.vat_rate) 100))
]

pub record InvoiceTotals : Type 0 where
  pub total_excl_vat_ore : ℤ
  pub total_vat_ore : ℤ
  pub total_incl_vat_ore : ℤ

abbrev add_line : InvoiceTotals → LineAmounts → InvoiceTotals
add_line acc l = record {
  total_excl_vat_ore = acc.total_excl_vat_ore +ℤ l.line_excl_vat_ore;
  total_vat_ore = acc.total_vat_ore +ℤ l.line_vat_ore;
  total_incl_vat_ore = acc.total_incl_vat_ore +ℤ l.line_incl_vat_ore;
}

abbrev pub no_totals : InvoiceTotals
no_totals = record { total_excl_vat_ore = pos 0; total_vat_ore = pos 0; total_incl_vat_ore = pos 0 }

-- The `reduce` over the lines.
pub sum_from : InvoiceTotals → List LineAmounts → InvoiceTotals
sum_from acc [] = acc
sum_from acc (l ∷ ls) = sum_from (add_line acc l) ls

unfoldable pub sum_totals : List LineAmounts → InvoiceTotals
unfolding sum_from
sum_totals lines = sum_from no_totals lines

unfoldable pub negate_line : LineAmounts → LineAmounts
negate_line a = record {
  line_excl_vat_ore = neg a.line_excl_vat_ore;
  line_vat_ore = neg a.line_vat_ore;
  line_incl_vat_ore = neg a.line_incl_vat_ore;
}
