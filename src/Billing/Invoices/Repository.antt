-- ===== src/Billing/Invoices/Repository.antt =====
-- services/billing/src/invoices/repository.ts, with the two queries on the number series of
-- services/billing/src/company-settings/repository.ts and the writers of services/billing/src/audit.ts
-- and packages/shared/src/outbox/index.ts. Each query is filtered by its tenant. Rows stand in the order
-- of their ids, and the items of an invoice in the order of their positions, as they are inserted.
-- Deleting an invoice takes its items and snapshot along and is refused while it has payments, by the
-- foreign keys of migrations/0004_billing.js.
mod Settings
unfoldable pub use faktureringssystemet.Billing.Invoices.Repository.Settings.{
  find_settings, lock_for_update, bump_invoice_number, write_event, write_audit_log,
  write_cron_audit_log,
}
pub use faktureringssystemet.Billing.Invoices.Repository.Settings.{
  default_settings, is_settings_of, settings_or_default, upsert_settings, bumped,
}
use faktureringssystemet.Prelude.{
  ℕ, ◌+◌, Bool, false, ◌&&◌, not, Option, none, some, List, [], ◌∷◌, ◌++◌, map, String, is_some,
  ◌==◌, find_first, select, update_where, delete_where, count_where,
}
use faktureringssystemet.Prelude.Int.{ℤ}
use faktureringssystemet.Shared.Text.{Text}
use faktureringssystemet.Shared.Errors.{Error}
use faktureringssystemet.Shared.Tx.{Tx, pure, gets, modify, throw_if, ◌>>=◌, ◌>>◌}
use faktureringssystemet.Billing.Dates.{Date, date_ltb}
use faktureringssystemet.Billing.Store.{
  InvoiceType, InvoiceStatus, DeliveryStatus, InvoiceRow, InvoiceItem, InvoiceItemRow, PaymentRow,
  CustomerRow, CompanySettingsRow, InvoiceTemplateRow, Snapshot, SnapshotRow, EventPayload, Db,
  RequestContext,
}

pub record InsertInvoiceData : Type 0 where
  pub customer_id : ℕ
  pub invoice_number : Option ℕ
  pub ocr_number : Option Text
  pub invoice_type : InvoiceType
  pub status : InvoiceStatus
  pub date_issued : Date
  pub date_due : Date
  pub currency : String
  pub total_excl_vat_ore : ℤ
  pub total_vat_ore : ℤ
  pub total_incl_vat_ore : ℤ
  pub credits_invoice_id : Option ℕ
  pub reminds_invoice_id : Option ℕ
  pub parent_template_id : Option ℕ

-- WHERE id = … AND tenant_id = …
abbrev pub is_invoice : ℕ → ℕ → InvoiceRow → Bool
is_invoice t i r = r.id == i && r.tenant_id == t

abbrev pub is_item_of : ℕ → ℕ → InvoiceItemRow → Bool
is_item_of t i r = r.invoice_id == i && r.tenant_id == t

abbrev pub is_payment_of : ℕ → ℕ → PaymentRow → Bool
is_payment_of t i r = r.invoice_id == i && r.tenant_id == t

abbrev pub is_template : ℕ → ℕ → InvoiceTemplateRow → Bool
is_template t i r = r.id == i && r.tenant_id == t

abbrev pub is_customer : ℕ → ℕ → CustomerRow → Bool
is_customer t i c = c.id == i && c.tenant_id == t

-- `findCustomer` and `findCustomerFull`
unfoldable pub find_customer : ℕ → ℕ → Tx Db (Option CustomerRow)
find_customer t i = gets (λ db. find_first (is_customer t i) db.customers)

abbrev pub row_of : ℕ → ℕ → InsertInvoiceData → InvoiceRow
row_of t i x = record {
  id = i;
  tenant_id = t;
  customer_id = x.customer_id;
  invoice_number = x.invoice_number;
  ocr_number = x.ocr_number;
  invoice_type = x.invoice_type;
  status = x.status;
  delivery_status = DeliveryStatus.none;
  date_issued = x.date_issued;
  date_due = x.date_due;
  currency = x.currency;
  total_excl_vat_ore = x.total_excl_vat_ore;
  total_vat_ore = x.total_vat_ore;
  total_incl_vat_ore = x.total_incl_vat_ore;
  credits_invoice_id = x.credits_invoice_id;
  reminds_invoice_id = x.reminds_invoice_id;
  superseded_by_invoice_id = none;
  parent_template_id = x.parent_template_id;
}

unfoldable pub insert_invoice : ℕ → InsertInvoiceData → Tx Db InvoiceRow
insert_invoice t x = do
  row ← gets (λ (db : Db). row_of t db.next_invoice_id x)
  modify (λ db. record db {
    invoices = db.invoices ++ row ∷ [];
    next_invoice_id = db.next_invoice_id + 1;
  })
  pure row

unfoldable pub insert_items : ℕ → ℕ → List InvoiceItem → Tx Db (Unit {0})
insert_items t i items = modify (λ db. record db {
  items = db.items ++ map (λ it. record { invoice_id = i; tenant_id = t; item = it }) items;
})

unfoldable pub lock_by_id : ℕ → ℕ → Tx Db (Option InvoiceRow)
lock_by_id t i = gets (λ db. find_first (is_invoice t i) db.invoices)

-- `findById` joins the customer, so a row without one is not found.
unfoldable pub find_by_id : ℕ → ℕ → Tx Db (Option InvoiceRow)
find_by_id t i = gets (λ db.
    find_first
      (λ (r : InvoiceRow).
        is_invoice t i r
        && is_some (find_first (λ (c : CustomerRow). c.id == r.customer_id) db.customers))
      db.invoices)

unfoldable pub find_items : ℕ → ℕ → Tx Db (List InvoiceItemRow)
find_items t i = gets (λ db. select (is_item_of t i) db.items)

unfoldable pub replace_items : ℕ → ℕ → List InvoiceItem → Tx Db (Unit {0})
unfolding insert_items
replace_items t i items = do
  modify (λ db. record db { items = delete_where (is_item_of t i) db.items })
  insert_items t i items

-- An UPDATE of the invoice's row.
abbrev pub update_invoice : ℕ → ℕ → (InvoiceRow → InvoiceRow) → Tx Db (Unit {0})
update_invoice t i f =
    modify (λ db. record db { invoices = update_where (is_invoice t i) f db.invoices })

pub record DraftFields : Type 0 where
  pub date_issued : Date
  pub date_due : Date
  pub currency : String
  pub total_excl_vat_ore : ℤ
  pub total_vat_ore : ℤ
  pub total_incl_vat_ore : ℤ

abbrev pub with_draft_fields : DraftFields → InvoiceRow → InvoiceRow
with_draft_fields x r = record r {
  date_issued = x.date_issued;
  date_due = x.date_due;
  currency = x.currency;
  total_excl_vat_ore = x.total_excl_vat_ore;
  total_vat_ore = x.total_vat_ore;
  total_incl_vat_ore = x.total_incl_vat_ore;
}

unfoldable pub update_draft : ℕ → ℕ → DraftFields → Tx Db (Unit {0})
update_draft t i x = update_invoice t i (with_draft_fields x)

abbrev pub as_sent : ℕ → Text → InvoiceRow → InvoiceRow
as_sent n ocr r = record r {
  status = InvoiceStatus.sent;
  invoice_number = some n;
  ocr_number = some ocr;
}

unfoldable pub mark_sent : ℕ → ℕ → ℕ → Text → Tx Db (Unit {0})
mark_sent t i n ocr = update_invoice t i (as_sent n ocr)

abbrev pub with_status : InvoiceStatus → InvoiceRow → InvoiceRow
with_status s r = record r { status = s }

unfoldable pub set_status : ℕ → ℕ → InvoiceStatus → Tx Db (Unit {0})
set_status t i s = update_invoice t i (with_status s)

unfoldable pub delete_invoice : ℕ → ℕ → Tx Db (Unit {0})
delete_invoice t i = do
  paid ← gets (λ (db : Db). count_where (is_payment_of t i) db.payments)
  throw_if (not (paid == 0)) Error.plain_error
  modify (λ db. record db {
    invoices = delete_where (is_invoice t i) db.invoices;
    items = delete_where (is_item_of t i) db.items;
    snapshots = delete_where (λ (s : SnapshotRow). s.invoice_id == i) db.snapshots;
  })

-- The primary key of the table allows one snapshot for each invoice.
unfoldable pub insert_snapshot : ℕ → ℕ → Snapshot → Tx Db (Unit {0})
insert_snapshot t i payload = do
  there ← gets (λ (db : Db). count_where (λ (s : SnapshotRow). s.invoice_id == i) db.snapshots)
  throw_if (not (there == 0)) Error.plain_error
  modify (λ db. record db {
    snapshots = db.snapshots ++ record { invoice_id = i; tenant_id = t; payload = payload } ∷ [];
  })

unfoldable pub sum_payments : List PaymentRow → ℕ
sum_payments [] = 0
sum_payments (p ∷ ps) = p.amount_ore + sum_payments ps

-- COALESCE(SUM(amount_ore), 0) over the invoice's payments.
abbrev pub paid_of : ℕ → ℕ → Db → ℕ
paid_of t i db = sum_payments (select (is_payment_of t i) db.payments)

unfoldable pub paid_ore : ℕ → ℕ → Tx Db ℕ
paid_ore t i = gets (paid_of t i)

abbrev pub is_past_due : ℕ → Date → InvoiceRow → Bool
is_past_due t today r =
    r.tenant_id == t && elim r.status [ InvoiceStatus.sent ↦ date_ltb r.date_due today | _ ↦ false ]

unfoldable pub mark_overdue_bulk : ℕ → Date → Tx Db ℕ
mark_overdue_bulk t today = do
  n ← gets (λ (db : Db). count_where (is_past_due t today) db.invoices)
  modify (λ db. record db {
    invoices = update_where (is_past_due t today) (with_status InvoiceStatus.overdue) db.invoices;
  })
  pure n

abbrev pub as_superseded : ℕ → InvoiceRow → InvoiceRow
as_superseded by r = record r {
  status = InvoiceStatus.superseded;
  superseded_by_invoice_id = some by;
}

unfoldable pub supersede : ℕ → ℕ → ℕ → Tx Db (Unit {0})
supersede t original by = update_invoice t original (as_superseded by)

unfoldable pub lock_template : ℕ → ℕ → Tx Db (Option InvoiceTemplateRow)
lock_template t i = gets (λ db. find_first (is_template t i) db.templates)

abbrev pub with_next_date : Date → InvoiceTemplateRow → InvoiceTemplateRow
with_next_date d r = record r { next_generation_date = d }

unfoldable pub advance_template_date : ℕ → ℕ → Date → Tx Db (Unit {0})
advance_template_date t i d =
    modify (λ db. record db {
      templates = update_where (is_template t i) (with_next_date d) db.templates;
    })
