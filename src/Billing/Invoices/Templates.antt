-- ===== src/Billing/Invoices/Templates.antt =====
-- services/billing/src/invoices/services.ts and repository.ts: an administrator's templates of recurring invoices.
-- Deleting a template makes the database clear the references of invoices to it (migrations/0004_billing.js).
pub mod Laws
pub mod Due
mod Tests
use faktureringssystemet.Prelude.{
  ℕ, ◌+◌, Bool, true, ◌&&◌, Option, none, some, List, [], ◌∷◌, ◌++◌, map, or_else, is_some, ltb,
  ◌==◌, find_first, select, update_where, delete_where, String, false,
}
use faktureringssystemet.Shared.Errors.{Error, ok}
use faktureringssystemet.Shared.Tx.{Tx, pure, gets, modify, or_throw, throw_if, lift, ◌>>=◌, ◌>>◌}
use faktureringssystemet.Billing.Dates.{Date, RecurrenceInterval, date_ltb, day_of_month}
use faktureringssystemet.Billing.Paging.{sort_by}
use faktureringssystemet.Billing.Store.{
  InvoiceRow, CustomerRow, InvoiceTemplateRow, LineInputDto, Db, RequestContext,
}
use faktureringssystemet.Billing.Invoices.Repository.{is_template, find_customer, write_audit_log}
use faktureringssystemet.Billing.Invoices.Lines.{to_items}

pub record CreateInvoiceTemplateInput : Type 0 where
  pub customer_id : ℕ
  pub interval : RecurrenceInterval
  pub next_generation_date : Date
  pub currency : Option String
  pub lines : List LineInputDto

pub record UpdateInvoiceTemplateInput : Type 0 where
  pub interval : Option RecurrenceInterval
  pub next_generation_date : Option Date
  pub currency : Option String
  pub lines : Option (List LineInputDto)
  pub is_active : Option Bool

abbrev pub assert_template_date : Date → Date → Tx Db (Unit {0})
assert_template_date today next = throw_if (date_ltb next today) Error.bad_request

abbrev pub assert_valid_lines : List LineInputDto → Tx Db (Unit {0})
assert_valid_lines lines = do items ← lift (to_items lines); pure tt

abbrev pub to_json_line : LineInputDto → LineInputDto
to_json_line l = record l { unit = some (or_else l.unit "st") }

abbrev pub to_json_lines : List LineInputDto → List LineInputDto
to_json_lines lines = map to_json_line lines

abbrev pub template_row : ℕ → ℕ → CreateInvoiceTemplateInput → InvoiceTemplateRow
template_row t id input = record {
  id = id;
  tenant_id = t;
  customer_id = input.customer_id;
  interval = input.interval;
  next_generation_date = input.next_generation_date;
  billing_day = day_of_month input.next_generation_date;
  is_active = true;
  currency = some (or_else input.currency "SEK");
  lines = to_json_lines input.lines;
}

abbrev pub insert_template : ℕ → CreateInvoiceTemplateInput → Tx Db InvoiceTemplateRow
insert_template t input db =
    let row = template_row t db.next_template_id input in
    ok (
      row,
      record db {
        templates = db.templates ++ row ∷ [];
        next_template_id = db.next_template_id + 1;
      },
    )

unfoldable pub create_template_in_tx :
    Date → RequestContext → CreateInvoiceTemplateInput → Tx Db InvoiceTemplateRow
create_template_in_tx today ctx input = do
  customer ← or_throw (← find_customer ctx.tenant_id input.customer_id) Error.bad_request
  assert_template_date today input.next_generation_date
  assert_valid_lines input.lines
  row ← insert_template ctx.tenant_id input
  write_audit_log ctx "invoice_template.created" row.id
  pure row

-- JOIN customers
abbrev pub is_joined : Db → InvoiceTemplateRow → Bool
is_joined db t = is_some (find_first (λ (c : CustomerRow). c.id == t.customer_id) db.customers)

-- The newest first.
abbrev pub is_newer : InvoiceTemplateRow → InvoiceTemplateRow → Bool
is_newer s t = ltb t.id s.id

unfoldable pub list_templates : RequestContext → Db → List InvoiceTemplateRow
list_templates ctx db = sort_by is_newer (
    select (λ (t : InvoiceTemplateRow). t.tenant_id == ctx.tenant_id && is_joined db t)
      db.templates)

abbrev pub find_template_by_id : ℕ → ℕ → Tx Db (Option InvoiceTemplateRow)
find_template_by_id t id =
    gets (λ (db : Db). find_first (λ r. is_template t id r && is_joined db r) db.templates)

unfoldable pub get_template : RequestContext → ℕ → Tx Db InvoiceTemplateRow
get_template ctx id = do
  row ← or_throw (← find_template_by_id ctx.tenant_id id) Error.not_found
  pure row

abbrev pub new_billing_day : Option Date → ℕ → ℕ
new_billing_day none day = day
new_billing_day (some next) day = day_of_month next

abbrev pub assert_new_date : Date → Option Date → Tx Db (Unit {0})
assert_new_date today none = pure tt
assert_new_date today (some next) = assert_template_date today next

-- The values of a template that an update writes.
abbrev pub with_update :
    UpdateInvoiceTemplateInput → InvoiceTemplateRow → InvoiceTemplateRow → InvoiceTemplateRow
with_update input current r = record r {
  interval = or_else input.interval current.interval;
  next_generation_date = or_else input.next_generation_date current.next_generation_date;
  billing_day = new_billing_day input.next_generation_date current.billing_day;
  is_active = or_else input.is_active current.is_active;
  currency = some (or_else input.currency (or_else current.currency "SEK"));
  lines = to_json_lines (or_else input.lines current.lines);
}

unfoldable pub update_template :
    Date → RequestContext → ℕ → UpdateInvoiceTemplateInput → Tx Db InvoiceTemplateRow
update_template today ctx id input = do
  current ← or_throw (← find_template_by_id ctx.tenant_id id) Error.not_found
  assert_new_date today input.next_generation_date
  assert_valid_lines (or_else input.lines current.lines)
  modify (λ (db : Db). record db {
    templates =
        update_where (is_template ctx.tenant_id id) (with_update input current) db.templates;
  })
  write_audit_log ctx "invoice_template.updated" id
  pure (with_update input current current)

abbrev pub is_generated_from : ℕ → InvoiceRow → Bool
is_generated_from id r = elim r.parent_template_id [ none ↦ false | some t ↦ t == id ]

abbrev pub without_template : InvoiceRow → InvoiceRow
without_template r = record r { parent_template_id = none }

unfoldable pub remove_template : RequestContext → ℕ → Tx Db (Unit {0})
remove_template ctx id = do
  current ← or_throw (← find_template_by_id ctx.tenant_id id) Error.not_found
  modify (λ (db : Db). record db {
    templates = delete_where (is_template ctx.tenant_id id) db.templates;
    invoices = update_where (is_generated_from id) without_template db.invoices;
  })
  write_audit_log ctx "invoice_template.deleted" id
