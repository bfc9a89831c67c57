-- ===== src/Billing/Invoices/Lines/Laws.antt =====
-- The lines of a credit note (services/billing/src/invoices/services.ts).
use faktureringssystemet.Prelude.{ℕ, ◌+◌, ◌≡◌, refl, ap, ◌∙◌, List, [], ◌∷◌, map, inl, inr, arith}
use faktureringssystemet.Billing.Vat.{LineAmounts, sum_totals, negate_line, compute_line}
use faktureringssystemet.Billing.Vat.Laws.{negate_totals, sum_totals-negate_line}
use faktureringssystemet.Billing.Store.{InvoiceItemRow, LineInputDto, InvoiceItem}
use faktureringssystemet.Billing.Invoices.Lines.{
  amounts_of, totals_of, credit_items_from, line_input, to_items, to_items_from, item_of,
}
use faktureringssystemet.Shared.Errors.{ok, Result-cases}

abbrev pub item_amounts : InvoiceItemRow → LineAmounts
item_amounts row = amounts_of row.item

credit_amounts :
    (i : ℕ) (rows : List InvoiceItemRow)
    → map amounts_of (credit_items_from i rows) ≡ map negate_line (map item_amounts rows)
unfolding credit_items_from negate_line
credit_amounts i [] = refl
credit_amounts i (row ∷ rows) =
    ap (λ ls. negate_line (item_amounts row) ∷ ls) (credit_amounts (i + 1) rows)

-- The totals of a credit note's lines are the negated totals of the lines that are credited.
credit_totals :
    (i : ℕ) (rows : List InvoiceItemRow)
    → totals_of (credit_items_from i rows) ≡ negate_totals (sum_totals (map item_amounts rows))
credit_totals i rows =
    ap sum_totals (credit_amounts i rows) ∙ sum_totals-negate_line (map item_amounts rows)

relabelled_from :
    (f : LineInputDto → LineInputDto) (i : ℕ) (lines : List LineInputDto) {items : List InvoiceItem}
    → ((l : LineInputDto) → line_input (f l) ≡ line_input l)
    → to_items_from i lines ≡ ok items
    → (items' : List InvoiceItem) × (to_items_from i (map f lines) ≡ ok items')
unfolding to_items_from
relabelled_from f i [] same h = ([], refl)
relabelled_from f i (line ∷ lines) same h = elim (Result-cases (compute_line (line_input line))) [
  | inr (e, bad) ↦ absurd (ground (arith, bad, h))
  | inl (a, good) ↦ elim (Result-cases (to_items_from (i + 1) lines)) [
    | inr (e, bad) ↦ absurd (ground (arith, good, bad, h))
    | inl (items, rest) ↦
        let (items', rest') = relabelled_from f (i + 1) lines same rest in
        let good' : compute_line (line_input (f line)) ≡ ok a =
          ap compute_line (same line) ∙ good in
        (item_of (i + 1) (f line) a ∷ items', rw (good', rest') refl)
  ]
]

-- Lines that compute still do when nothing that counts is changed.
pub to_items_relabelled :
    (f : LineInputDto → LineInputDto) (lines : List LineInputDto) {items : List InvoiceItem}
    → ((l : LineInputDto) → line_input (f l) ≡ line_input l)
    → to_items lines ≡ ok items
    → (items' : List InvoiceItem) × (to_items (map f lines) ≡ ok items')
unfolding to_items
to_items_relabelled f lines same h = relabelled_from f 0 lines same h
