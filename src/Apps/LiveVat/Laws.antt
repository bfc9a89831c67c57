-- ===== src/Apps/LiveVat/Laws.antt =====
-- What apps/backoffice/src/lib/vat.ts shows and what services/billing/src/domain/vat.ts books.
use faktureringssystemet.Prelude.{ℕ, ◌≡◌, refl, inl, inr, ◌⊎◌, ◌*◌, ◌/◌, arith, ltb, Bool-cases}
use faktureringssystemet.Prelude.Int.{pos}
use faktureringssystemet.Shared.Errors.{Error, ok, err}
use faktureringssystemet.Billing.Vat.{
  LineInput, LineAmounts, compute_line, exact_line_excl_vat, round_half_up, max_safe_integer,
}
use faktureringssystemet.Apps.LiveVat.{
  LineAmountsOre, floor_of_half_more, exact_line_excl_vat_ore, compute_line_ore,
}

abbrev pub as_booked : LineAmountsOre → LineAmounts
as_booked a = record {
  line_excl_vat_ore = pos a.line_excl_vat_ore;
  line_vat_ore = pos a.line_vat_ore;
  line_incl_vat_ore = pos a.line_incl_vat_ore;
}

-- The service refuses a product that is not safe, and is exact otherwise.
exact_line-cases :
    (milli price : ℕ)
    → (exact_line_excl_vat milli price ≡ ok (exact_line_excl_vat_ore milli price))
      ⊎ ((e : Error) × (exact_line_excl_vat milli price ≡ err e))
unfolding exact_line_excl_vat exact_line_excl_vat_ore
exact_line-cases milli price = elim (Bool-cases (ltb max_safe_integer (milli / 1000 * price))) [
  | inl unsafe ↦ inr (Error.plain_error, ground arith)
  | inr safe ↦ inl (ground arith)
]

-- Where the service books a line, the form has shown the same amounts.
pub compute_line_ore_agrees :
    (line : LineInput) (booked : LineAmounts)
    → compute_line line ≡ ok booked
    → as_booked (compute_line_ore line.quantity line.unit_price_ore line.vat_rate) ≡ booked
unfolding compute_line compute_line_ore round_half_up floor_of_half_more
compute_line_ore_agrees line booked h = elim (exact_line-cases line.quantity line.unit_price_ore) [
  | inr (e, unsafe) ↦
      let refused : compute_line line ≡ err e = rw (unsafe, compute_line) refl in
      absurd (ground (arith, refused, h))
  | inl safe ↦
      let shown : compute_line line
          ≡ ok (as_booked (compute_line_ore line.quantity line.unit_price_ore line.vat_rate)) =
        rw (safe, compute_line) refl in
      ground (arith, shown, h)
]
