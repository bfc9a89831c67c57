-- ===== src/Apps/Tests.antt =====
-- The web applications' code at concrete inputs.
use faktureringssystemet.Prelude.{
  suc, ◌≡◌, refl, Bool, ltb, map, length, count_where, ◌&&◌, some, [],
}
use faktureringssystemet.Prelude.Int.{pos}
use faktureringssystemet.Shared.Errors.{ok}
use faktureringssystemet.Billing.Store.{CustomerRow}
use faktureringssystemet.Billing.Vat.{
  VatRate, LineInput, LineAmounts, compute_line, exact_line_excl_vat, round_half_up,
}
use faktureringssystemet.Billing.Customers.{to_view, is_own, listed, list}
use faktureringssystemet.Billing.Samples.{empty, ctx}
use faktureringssystemet.Apps.OffsetList.{flat_items, load_pages, page_size}
use faktureringssystemet.Apps.OffsetList.Customers.{customers_listed}
use faktureringssystemet.Apps.LiveVat.{compute_line_ore}
use faktureringssystemet.Apps.LiveVat.Laws.{as_booked, compute_line_ore_agrees}

abbrev half_line : LineInput
half_line = record { quantity = 1115; unit_price_ore = 100; vat_rate = VatRate.rate_25 }

abbrev half_amounts : LineAmounts
half_amounts = record {
  line_excl_vat_ore = pos 112;
  line_vat_ore = pos 28;
  line_incl_vat_ore = pos 140;
}

half_booked : compute_line half_line ≡ ok half_amounts
unfolding compute_line round_half_up exact_line_excl_vat
half_booked = refl

compute_line_ore_agrees_example :
    as_booked (compute_line_ore 1115 100 VatRate.rate_25) ≡ half_amounts
compute_line_ore_agrees_example = compute_line_ore_agrees half_line half_amounts half_booked

abbrev older : CustomerRow → CustomerRow → Bool
older a b = ltb a.id b.id

customers_listed_example :
    (flat_items (
        load_pages
          (λ o. list older ctx (some page_size) o empty)
          (suc (length (listed older 1 empty)))
          0
          [])
      ≡ map to_view (listed older 1 empty))
    × ((q : CustomerRow → Bool)
        → count_where q (listed older 1 empty)
          ≡ count_where (λ c. is_own 1 c && q c) empty.customers)
customers_listed_example = customers_listed older ctx empty
