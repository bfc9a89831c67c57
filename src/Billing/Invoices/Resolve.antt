-- ===== src/Billing/Invoices/Resolve.antt =====
-- services/billing/src/invoices/services.ts and repository.ts: which invoice a payment reference or an id
-- leads to, along the reminders that replaced invoices. The loop runs on fuel.
pub mod Laws
use faktureringssystemet.Prelude.{
  ℕ, zero, suc, Bool, true, false, ◌&&◌, ◌||◌, Option, none, some, List, [], ◌∷◌, String, ◌==◌,
  if◌then◌else◌, find_first, length,
}
use faktureringssystemet.Prelude.Int.{ℤ, pos, ◌-ℤ◌}
use faktureringssystemet.Shared.Text.{Text, text_eq}
use faktureringssystemet.Shared.Errors.{Error}
use faktureringssystemet.Shared.Tx.{Tx, pure, gets, or_throw, ◌>>=◌}
use faktureringssystemet.Billing.Store.{InvoiceStatus, InvoiceRow, Db}
use faktureringssystemet.Billing.Invoices.Repository.{is_invoice, paid_ore}

abbrev pub has_text : Text → Option Text → Bool
has_text s none = false
has_text s (some t) = text_eq t s

abbrev pub has_ocr : ℕ → Text → InvoiceRow → Bool
has_ocr t ocr r = has_text ocr r.ocr_number && r.tenant_id == t

unfoldable pub find_by_ocr : ℕ → Text → Tx Db (Option InvoiceRow)
find_by_ocr t ocr = gets (λ db. find_first (has_ocr t ocr) db.invoices)

unfoldable pub find_by_id_basic : ℕ → ℕ → Tx Db (Option InvoiceRow)
find_by_id_basic t i = gets (λ db. find_first (is_invoice t i) db.invoices)

-- The test of `while (current.superseded_by_invoice_id)`: an id of 0 would end it.
abbrev pub successor_of : InvoiceRow → Option ℕ
successor_of r = elim (r.superseded_by_invoice_id) [
  | none ↦ none
  | some i ↦ if i == 0 then none else some i
]

-- guard.has(id)
abbrev pub visited : List ℕ → ℕ → Bool
visited [] i = false
visited (j ∷ guard) i = j == i || visited guard i

abbrev pub unless_visited : List ℕ → Option InvoiceRow → Option InvoiceRow
unless_visited guard none = none
unless_visited guard (some s) = if visited guard s.id then none else some s

-- The invoice that the loop goes on with, or `none` where it ends.
abbrev pub next_from : ℕ → Db → List ℕ → Option ℕ → Option InvoiceRow
next_from t db guard none = none
next_from t db guard (some i) = unless_visited guard (find_first (is_invoice t i) db.invoices)

abbrev pub next_of : ℕ → Db → List ℕ → InvoiceRow → Option InvoiceRow
next_of t db guard r = next_from t db guard (successor_of r)

-- `none` when the fuel is used up.
unfoldable pub resolve_current : ℕ → ℕ → Db → List ℕ → InvoiceRow → Option InvoiceRow
resolve_current zero t db guard current = none
resolve_current (suc fuel) t db guard current = elim (next_of t db guard current) [
  | none ↦ some current
  | some next ↦ resolve_current fuel t db (next.id ∷ guard) next
]

-- Enough for one round for each invoice and the last test.
abbrev pub enough : Db → ℕ
enough db = suc (length db.invoices)

pub record ResolvedInvoice : Type 0 where
  pub current_invoice_id : ℕ
  pub customer_id : ℕ
  pub status : InvoiceStatus
  pub currency : String
  pub total_incl_vat_ore : ℤ
  pub paid_ore : ℕ
  pub remaining_ore : ℤ

abbrev pub resolved_as : InvoiceRow → ℕ → ResolvedInvoice
resolved_as r paid = record {
  current_invoice_id = r.id;
  customer_id = r.customer_id;
  status = r.status;
  currency = r.currency;
  total_incl_vat_ore = r.total_incl_vat_ore;
  paid_ore = paid;
  remaining_ore = r.total_incl_vat_ore -ℤ pos paid;
}

-- From the invoice that was found on; the answer to an OCR also repeats that one's id and the OCR.
unfoldable pub resolve_from : ℕ → InvoiceRow → Tx Db ResolvedInvoice
resolve_from t start = do
  end ← gets (λ (db : Db). resolve_current (enough db) t db (start.id ∷ []) start)
  current ← or_throw end Error.plain_error
  paid ← paid_ore t current.id
  pure (resolved_as current paid)

unfoldable pub resolve_by_ocr : ℕ → Text → Tx Db ResolvedInvoice
resolve_by_ocr t ocr = do
  matched ← or_throw (← find_by_ocr t ocr) Error.not_found
  resolve_from t matched

unfoldable pub resolve_by_id : ℕ → ℕ → Tx Db ResolvedInvoice
resolve_by_id t id = do
  start ← or_throw (← find_by_id_basic t id) Error.not_found
  resolve_from t start
