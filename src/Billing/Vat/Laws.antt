-- ===== src/Billing/Vat/Laws.antt =====
-- Rounding, totals and negation in services/billing/src/domain/vat.ts.
use faktureringssystemet.Prelude.{
  ℕ, ◌+◌, ◌-◌, ◌*◌, ◌/◌, ◌<◌, ◌≤◌, ◌≡◌, refl, List, [], ◌∷◌, map, arith, ap, All,
}
use faktureringssystemet.Prelude.Int.{pos, pos_part, neg_part, ◌+ℤ◌, neg, int_laws}
use faktureringssystemet.Shared.Errors.{ok}
use faktureringssystemet.Billing.Vat.{
  LineInput, LineAmounts, InvoiceTotals, percent, max_safe_integer, round_half_up,
  exact_line_excl_vat, compute_line, add_line, no_totals, sum_from, sum_totals, negate_line,
  amounts_of_excl,
}

round_half_up_bounds :
    (num den : ℕ)
    → 0 < den
    → (2 * den * round_half_up num den ≤ 2 * num + den)
      × (2 * num + den < 2 * den * round_half_up num den + 2 * den)
unfolding round_half_up
round_half_up_bounds num den h = grind arith

split_product :
    (milli price : ℕ)
    → milli / 1000 * price * 1000 + (milli - milli / 1000 * 1000) * price ≡ milli * price
split_product milli price =
    let e : milli ≡ milli / 1000 * 1000 + (milli - milli / 1000 * 1000) = omega arith in
    omega (arith, ap (λ (t : ℕ). t * price) e)

exact_line_eq :
    (milli price : ℕ)
    → milli / 1000 * price ≤ max_safe_integer
    → exact_line_excl_vat milli price ≡ ok (milli * price)
unfolding exact_line_excl_vat
exact_line_eq milli price h = ground (arith, split_product milli price)

compute_line_lem :
    (line : LineInput)
    → line.quantity / 1000 * line.unit_price_ore ≤ max_safe_integer
    → let e = round_half_up (line.quantity * line.unit_price_ore) 1000 in
      compute_line line ≡ ok (amounts_of_excl e (round_half_up (e * percent line.vat_rate) 100))
unfolding compute_line
compute_line_lem line h = rw (exact_line_eq line.quantity line.unit_price_ore h, compute_line)

whole_product_bound :
    (q p : ℕ) → q ≤ 100_000_000 → p ≤ 100_000_000 → q / 1000 * p ≤ max_safe_integer
whole_product_bound q p hq hp =
    let w : q / 1000 ≤ 100_000 = omega arith in
    let a : q / 1000 * p ≤ 100_000 * p = grind arith in omega arith

-- A line within the limits of the request schema (a quantity of at most 100000, a price of at most
-- 100000000 öre) is computed without an error: the amount before VAT is the exact product of quantity
-- and price rounded once, half up; the VAT is the exact percentage of that amount, rounded once, half
-- up; and the amount with VAT is their sum.
pub compute_line_rounds :
    (line : LineInput)
    → line.quantity ≤ 100_000_000
    → line.unit_price_ore ≤ 100_000_000
    → (e : ℕ) × (v : ℕ) × (compute_line line
        ≡ ok (record {
          line_excl_vat_ore = pos e;
          line_vat_ore = pos v;
          line_incl_vat_ore = pos (e + v);
        }))
      × (1000 * e ≤ line.quantity * line.unit_price_ore + 500)
      × (line.quantity * line.unit_price_ore + 500 < 1000 * e + 1000)
      × (100 * v ≤ e * percent line.vat_rate + 50)
      × (e * percent line.vat_rate + 50 < 100 * v + 100)
compute_line_rounds line hq hp =
    let x : ℕ = line.quantity * line.unit_price_ore in
    let e : ℕ = round_half_up x 1000 in
    let y : ℕ = e * percent line.vat_rate in
    let v : ℕ = round_half_up y 100 in
    let be = round_half_up_bounds x 1000 (omega arith) in
    let bv = round_half_up_bounds y 100 (omega arith) in
    (
      e,
      v,
      compute_line_lem line (whole_product_bound line.quantity line.unit_price_ore hq hp),
      omega arith,
      omega arith,
      omega arith,
      omega arith,
    )

abbrev pub add_totals : InvoiceTotals → InvoiceTotals → InvoiceTotals
add_totals a b = record {
  total_excl_vat_ore = a.total_excl_vat_ore +ℤ b.total_excl_vat_ore;
  total_vat_ore = a.total_vat_ore +ℤ b.total_vat_ore;
  total_incl_vat_ore = a.total_incl_vat_ore +ℤ b.total_incl_vat_ore;
}

abbrev pub negate_totals : InvoiceTotals → InvoiceTotals
negate_totals a = record {
  total_excl_vat_ore = neg a.total_excl_vat_ore;
  total_vat_ore = neg a.total_vat_ore;
  total_incl_vat_ore = neg a.total_incl_vat_ore;
}

totals_eq :
    {a b : InvoiceTotals}
    → a.total_excl_vat_ore ≡ b.total_excl_vat_ore
    → a.total_vat_ore ≡ b.total_vat_ore
    → a.total_incl_vat_ore ≡ b.total_incl_vat_ore
    → a ≡ b
totals_eq p q r =
    λ i. record { total_excl_vat_ore = p i; total_vat_ore = q i; total_incl_vat_ore = r i }

sum_from_acc :
    (acc : InvoiceTotals) (ls : List LineAmounts)
    → sum_from acc ls ≡ add_totals acc (sum_from no_totals ls)
unfolding sum_from
sum_from_acc acc [] = totals_eq (omega int_laws) (omega int_laws) (omega int_laws)
sum_from_acc acc (l ∷ ls) =
    rw (sum_from_acc (add_line acc l) ls, sum_from_acc (add_line no_totals l) ls)
      (totals_eq (omega int_laws) (omega int_laws) (omega int_laws))

sum_totals-cons :
    (l : LineAmounts) (ls : List LineAmounts) → sum_totals (l ∷ ls) ≡ add_line (sum_totals ls) l
unfolding sum_totals
sum_totals-cons l ls =
    rw (sum_from_acc (add_line no_totals l) ls)
      (totals_eq (omega int_laws) (omega int_laws) (omega int_laws))

sum_totals-nil : sum_totals [] ≡ no_totals
unfolding sum_totals
sum_totals-nil = refl

-- The totals of a credit note's lines, each the negated line of the original, are the negated totals.
pub sum_totals-negate_line :
    (ls : List LineAmounts) → sum_totals (map negate_line ls) ≡ negate_totals (sum_totals ls)
unfolding negate_line
sum_totals-negate_line [] =
    rw sum_totals-nil (totals_eq (omega int_laws) (omega int_laws) (omega int_laws))
sum_totals-negate_line (l ∷ ls) =
    rw
      (
        sum_totals-cons l ls,
        sum_totals-cons (negate_line l) (map negate_line ls),
        sum_totals-negate_line ls,
      )
      (totals_eq (omega int_laws) (omega int_laws) (omega int_laws))

abbrev pub AddsUp : LineAmounts → Type 0
AddsUp l = l.line_incl_vat_ore ≡ l.line_excl_vat_ore +ℤ l.line_vat_ore

-- Where every line's amount with VAT is the sum of its two other amounts, so is the invoice's.
sum_totals-AddsUp :
    (ls : List LineAmounts)
    → All AddsUp ls
    → (sum_totals ls).total_incl_vat_ore
      ≡ (sum_totals ls).total_excl_vat_ore +ℤ (sum_totals ls).total_vat_ore
sum_totals-AddsUp [] h = rw sum_totals-nil (omega int_laws)
sum_totals-AddsUp (l ∷ ls) (h, hs) =
    let ih = sum_totals-AddsUp ls hs in
    rw (sum_totals-cons l ls)
      (omega (int_laws, ap pos_part ih, ap neg_part ih, ap pos_part h, ap neg_part h))
