-- ===== src/Billing/Vat/Tests.antt =====
-- Concrete lines of services/billing/src/domain/vat.ts.
use faktureringssystemet.Prelude.{ℕ, ◌+◌, ◌*◌, ◌≤◌, ◌<◌, ◌≡◌, refl, arith}
use faktureringssystemet.Prelude.Int.{pos}
use faktureringssystemet.Shared.Errors.{ok}
use faktureringssystemet.Billing.Vat.{
  LineInput, VatRate, compute_line, round_half_up, exact_line_excl_vat,
}
use faktureringssystemet.Billing.Vat.Laws.{compute_line_rounds}

-- 1.115 at 100 öre: 111.5 rounds to 112, and 25 % of it to 28.
half_line :
    compute_line (record { quantity = 1115; unit_price_ore = 100; vat_rate = VatRate.rate_25 })
    ≡ ok
        (record { line_excl_vat_ore = pos 112; line_vat_ore = pos 28; line_incl_vat_ore = pos 140 })
unfolding compute_line round_half_up exact_line_excl_vat
half_line = refl

abbrev two_hours : LineInput
two_hours = record { quantity = 2500; unit_price_ore = 99999; vat_rate = VatRate.rate_25 }

compute_line_rounds_example :
    (e : ℕ) × (v : ℕ) × (compute_line two_hours
      ≡ ok (record {
        line_excl_vat_ore = pos e;
        line_vat_ore = pos v;
        line_incl_vat_ore = pos (e + v);
      }))
    × (1000 * e ≤ 2500 * 99999 + 500)
    × (2500 * 99999 + 500 < 1000 * e + 1000)
    × (100 * v ≤ e * 25 + 50)
    × (e * 25 + 50 < 100 * v + 100)
compute_line_rounds_example = compute_line_rounds two_hours (omega arith) (omega arith)
