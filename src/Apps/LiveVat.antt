-- ===== src/Apps/LiveVat.antt =====
-- apps/backoffice/src/lib/vat.ts: the amounts that the invoice form shows while it is filled in. A quantity is
-- its whole number of thousandths, `Math.round(quantity * 1000)`; quotients are exact until they are rounded.
pub mod Laws
use faktureringssystemet.Prelude.{ℕ, ◌+◌, ◌-◌, ◌*◌, ◌/◌}
use faktureringssystemet.Billing.Vat.{VatRate, percent}

pub record LineAmountsOre : Type 0 where
  pub line_excl_vat_ore : ℕ
  pub line_vat_ore : ℕ
  pub line_incl_vat_ore : ℕ

-- `Math.floor(value + 0.5)` of the value num / den.
unfoldable pub floor_of_half_more : ℕ → ℕ → ℕ
floor_of_half_more num den = (2 * num + den) / (2 * den)

-- In thousandths of an öre.
unfoldable pub exact_line_excl_vat_ore : ℕ → ℕ → ℕ
exact_line_excl_vat_ore milli unit_price_ore =
    let whole = milli / 1000 in
    let frac = milli - whole * 1000 in whole * unit_price_ore * 1000 + frac * unit_price_ore

unfoldable pub compute_line_ore : ℕ → ℕ → VatRate → LineAmountsOre
compute_line_ore quantity unit_price_ore vat_rate =
    let excl = floor_of_half_more (exact_line_excl_vat_ore quantity unit_price_ore) 1000 in
    let vat = floor_of_half_more (excl * percent vat_rate) 100 in
    record { line_excl_vat_ore = excl; line_vat_ore = vat; line_incl_vat_ore = excl + vat }
