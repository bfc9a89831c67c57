-- ===== src/Billing/Invoices/Lines.antt =====
-- The lines of an invoice (services/billing/src/invoices/services.ts) and the frozen copy that is stored
-- when it is sent (services/billing/src/invoices/mappers.ts).
pub mod Laws
use faktureringssystemet.Prelude.{
  ℕ, ◌+◌, ◌*◌, Option, none, some, List, [], ◌∷◌, map, String, or_else,
}
use faktureringssystemet.Prelude.Int.{ℤ, pos, neg}
use faktureringssystemet.Shared.Errors.{Error, Result, ok, err}
use faktureringssystemet.Billing.Vat.{
  VatRate, LineInput, LineAmounts, InvoiceTotals, compute_line, sum_totals,
}
use faktureringssystemet.Billing.Store.{
  InvoiceRow, InvoiceItem, InvoiceItemRow, CustomerRow, CompanySettingsRow, LineInputDto, Snapshot,
}

abbrev item_of : ℕ → LineInputDto → LineAmounts → InvoiceItem
item_of position line a = record {
  position = position;
  description = line.description;
  quantity = pos line.quantity;
  unit = or_else line.unit "st";
  unit_price_ore = line.unit_price_ore;
  vat_rate = line.vat_rate;
  line_excl_vat_ore = a.line_excl_vat_ore;
  line_vat_ore = a.line_vat_ore;
  line_incl_vat_ore = a.line_incl_vat_ore;
}

abbrev pub line_input : LineInputDto → LineInput
line_input line = record {
  quantity = line.quantity;
  unit_price_ore = line.unit_price_ore;
  vat_rate = line.vat_rate;
}

-- A line after the ones before it; an error of any line is the error of the whole.
abbrev pub add_item :
    ℕ → LineInputDto → Result LineAmounts → Result (List InvoiceItem) → Result (List InvoiceItem)
add_item position line (ok a) (ok items) = ok (item_of position line a ∷ items)
add_item position line (ok a) (err e) = err e
add_item position line (err e) rest = err e

pub to_items_from : ℕ → List LineInputDto → Result (List InvoiceItem)
to_items_from i [] = ok []
to_items_from i (line ∷ lines) =
    add_item (i + 1) line (compute_line (line_input line)) (to_items_from (i + 1) lines)

unfoldable pub to_items : List LineInputDto → Result (List InvoiceItem)
unfolding to_items_from
to_items lines = to_items_from 0 lines

abbrev pub amounts_of : InvoiceItem → LineAmounts
amounts_of it = record {
  line_excl_vat_ore = it.line_excl_vat_ore;
  line_vat_ore = it.line_vat_ore;
  line_incl_vat_ore = it.line_incl_vat_ore;
}

abbrev pub totals_of : List InvoiceItem → InvoiceTotals
totals_of items = sum_totals (map amounts_of items)

-- One piece at a price without VAT.
unfoldable pub zero_vat_line : ℕ → String → ℕ → Result InvoiceItem
zero_vat_line position description unit_price_ore =
    let line : LineInputDto = record {
      description = description;
      quantity = 1000;
      unit_price_ore = unit_price_ore;
      vat_rate = VatRate.rate_0;
      unit = some "st";
    } in
    elim (compute_line (line_input line)) [ ok a ↦ ok (item_of position line a) | err e ↦ err e ]

-- A credit note's line: the original's with the quantity and the rounded amounts negated.
abbrev pub credit_item : ℕ → InvoiceItemRow → InvoiceItem
credit_item position row =
    let it = row.item in
    record {
      position = position;
      description = it.description;
      quantity = neg it.quantity;
      unit = it.unit;
      unit_price_ore = it.unit_price_ore;
      vat_rate = it.vat_rate;
      line_excl_vat_ore = neg it.line_excl_vat_ore;
      line_vat_ore = neg it.line_vat_ore;
      line_incl_vat_ore = neg it.line_incl_vat_ore;
    }

unfoldable pub credit_items_from : ℕ → List InvoiceItemRow → List InvoiceItem
credit_items_from i [] = []
credit_items_from i (row ∷ rows) = credit_item (i + 1) row ∷ credit_items_from (i + 1) rows

unfoldable pub build_snapshot_payload :
    InvoiceRow
    → List InvoiceItemRow
    → CompanySettingsRow
    → CustomerRow
    → Option InvoiceRow
    → Snapshot
build_snapshot_payload invoice items company customer reminds_invoice = record {
  invoice = record {
    id = invoice.id;
    invoice_number = invoice.invoice_number;
    ocr_number = invoice.ocr_number;
    invoice_type = invoice.invoice_type;
    date_issued = invoice.date_issued;
    date_due = invoice.date_due;
    currency = invoice.currency;
    total_excl_vat_ore = invoice.total_excl_vat_ore;
    total_vat_ore = invoice.total_vat_ore;
    total_incl_vat_ore = invoice.total_incl_vat_ore;
    reminds_invoice_number = elim reminds_invoice [ none ↦ none | some r ↦ some r.invoice_number ];
  };
  company = record {
    name = company.company_name;
    org_number = company.org_number;
    bankgiro = company.bankgiro;
    vat_number = company.vat_number;
    address = record {
      street = company.address_street;
      zip = company.address_zip;
      city = company.address_city;
    };
    logo_url = company.logo_url;
  };
  customer = record {
    id = customer.id;
    name = customer.name;
    email = customer.email;
    email_valid = customer.email_valid;
    customer_type = customer.customer_type;
    org_number = customer.org_number;
    address = record {
      street = customer.address_street;
      zip = customer.address_zip;
      city = customer.address_city;
    };
  };
  lines = map (λ (row : InvoiceItemRow). row.item) items;
}
