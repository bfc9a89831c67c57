-- ===== src/Billing/Invoices/Service.antt =====
-- services/billing/src/invoices/services.ts: what an administrator does with an invoice. `today` is
-- `todayInStockholm()`. The amounts in an answer stay in öre.
use faktureringssystemet.Prelude.{
  ℕ, Bool, true, false, ◌||◌, not, Option, none, some, List, [], ◌∷◌, String, str_eq, or_else,
  if◌then◌else◌,
}
use faktureringssystemet.Prelude.Int.{ℤ, pos, ◌-ℤ◌}
use faktureringssystemet.Shared.Text.{Text}
use faktureringssystemet.Shared.Errors.{Error}
use faktureringssystemet.Shared.Ocr.{derive_ocr}
use faktureringssystemet.Shared.Tx.{Tx, pure, throw, or_throw, throw_if, lift, ◌>>=◌, ◌>>◌}
use faktureringssystemet.Billing.Vat.{InvoiceTotals}
use faktureringssystemet.Billing.Dates.{Date, date_ltb, add_days}
use faktureringssystemet.Billing.Store.{
  InvoiceType, InvoiceStatus, InvoiceRow, InvoiceItem, InvoiceItemRow, CustomerRow,
  CompanySettingsRow, LineInputDto, EventPayload, Db, RequestContext,
}
use faktureringssystemet.Billing.Customers.{Deps, CreateCustomerInput}
use faktureringssystemet.Billing.Customers as Customers
use faktureringssystemet.Billing.Invoices.Repository.{
  InsertInvoiceData, find_customer, insert_invoice, insert_items, lock_by_id, find_by_id,
  find_items, replace_items, update_draft, mark_sent, as_sent, set_status, delete_invoice,
  insert_snapshot, paid_ore, find_settings, lock_for_update, bump_invoice_number, write_event,
  write_audit_log,
}
use faktureringssystemet.Billing.Invoices.Lines.{
  to_items, totals_of, credit_items_from, build_snapshot_payload,
}

-- `toDetail`: the row with its lines, what is paid and what remains.
pub record Detail : Type 0 where
  pub row : InvoiceRow
  pub lines : List InvoiceItemRow
  pub paid : ℕ
  pub remaining : ℤ

abbrev pub is_draft : InvoiceStatus → Bool
is_draft InvoiceStatus.draft = true
is_draft _ = false

unfoldable pub detail : RequestContext → ℕ → Tx Db Detail
detail ctx id = do
  row ← or_throw (← find_by_id ctx.tenant_id id) Error.not_found
  items ← find_items ctx.tenant_id id
  sum ← paid_ore ctx.tenant_id id
  let paid = if is_draft row.status then 0 else sum
  pure (record {
    row = row;
    lines = items;
    paid = paid;
    remaining = row.total_incl_vat_ore -ℤ pos paid;
  })

-- `!s` of a text that may be null.
abbrev pub is_blank : Option String → Bool
is_blank none = true
is_blank (some s) = str_eq s ""

abbrev pub is_empty : Option Text → Bool
is_empty none = true
is_empty (some []) = true
is_empty (some (c ∷ s)) = false

abbrev pub lacks_sender : CompanySettingsRow → Bool
lacks_sender s = is_blank s.company_name || is_empty s.org_number || is_empty s.bankgiro

pub record Allocated : Type 0 where
  pub number : ℕ
  pub ocr : Text
  pub settings : CompanySettingsRow

unfoldable pub allocate_number : RequestContext → Tx Db Allocated
allocate_number ctx = do
  settings ← lock_for_update ctx.tenant_id
  throw_if (lacks_sender settings) Error.unprocessable_entity
  bump_invoice_number ctx.tenant_id
  ocr ← or_throw (derive_ocr settings.next_invoice_number) Error.plain_error
  pure (record { number = settings.next_invoice_number; ocr = ocr; settings = settings })

unfoldable pub assert_dates : Date → Date → Date → Tx Db (Unit {0})
assert_dates today issued due = do
  throw_if (date_ltb today issued) Error.bad_request
  throw_if (date_ltb due issued) Error.bad_request

-- What is left of the checks where a date is the stored one. The driver reads a stored date as a Date object, and a
-- comparison of one with a text is false, whatever the dates are.
abbrev pub refuses_dates : Date → Option Date → Option Date → InvoiceRow → Bool
refuses_dates today none none current = date_ltb current.date_due current.date_issued
refuses_dates today (some issued) none current = date_ltb today issued
refuses_dates today none (some due) current = false
refuses_dates today (some issued) (some due) current = date_ltb today issued || date_ltb due issued

pub record CreateInvoiceInput : Type 0 where
  pub customer_id : Option ℕ
  pub customer : Option CreateCustomerInput
  pub date_issued : Option Date
  pub date_due : Option Date
  pub currency : Option String
  pub lines : List LineInputDto

abbrev pub settings_terms : Option CompanySettingsRow → Option ℕ
settings_terms none = none
settings_terms (some s) = some s.payment_terms_days

-- The draft's dates and the row that is inserted for it.
abbrev pub issued_on : Date → CreateInvoiceInput → Date
issued_on today input = or_else input.date_issued today

abbrev pub due_on : Date → CreateInvoiceInput → CustomerRow → Option CompanySettingsRow → Date
due_on today input customer settings =
    let terms = or_else customer.payment_terms_days (or_else (settings_terms settings) 30) in
    or_else input.date_due (add_days (issued_on today input) terms)

abbrev pub draft_data :
    Date
    → CreateInvoiceInput
    → CustomerRow
    → Option CompanySettingsRow
    → InvoiceTotals
    → InsertInvoiceData
draft_data today input customer settings totals = record {
  customer_id = customer.id;
  invoice_number = none;
  ocr_number = none;
  invoice_type = InvoiceType.invoice;
  status = InvoiceStatus.draft;
  date_issued = issued_on today input;
  date_due = due_on today input customer settings;
  currency = or_else input.currency "SEK";
  total_excl_vat_ore = totals.total_excl_vat_ore;
  total_vat_ore = totals.total_vat_ore;
  total_incl_vat_ore = totals.total_incl_vat_ore;
  credits_invoice_id = none;
  reminds_invoice_id = none;
  parent_template_id = none;
}

-- The customer that the invoice is for: one that exists, or one that is created with it.
unfoldable pub choose_customer : Deps → RequestContext → CreateInvoiceInput → Tx Db ℕ
choose_customer deps ctx input = elim input.customer_id [
  | some id ↦ pure id
  | none ↦ elim input.customer [
    | none ↦ throw Error.bad_request
    | some new ↦ do created ← Customers.create_in_tx deps ctx new; pure created.id
  ]
]

-- `createInTx` from there on.
unfoldable pub create_for : Date → RequestContext → CreateInvoiceInput → ℕ → Tx Db Detail
create_for today ctx input customer_id = do
  customer ← or_throw (← find_customer ctx.tenant_id customer_id) Error.bad_request
  settings ← find_settings ctx.tenant_id
  items ← lift (to_items input.lines)
  assert_dates today (issued_on today input) (due_on today input customer settings)
  invoice ←
      insert_invoice ctx.tenant_id (draft_data today input customer settings (totals_of items))
  insert_items ctx.tenant_id invoice.id items
  write_audit_log ctx "invoice.created" invoice.id
  detail ctx invoice.id

unfoldable pub create_in_tx : Deps → Date → RequestContext → CreateInvoiceInput → Tx Db Detail
create_in_tx deps today ctx input = do
  customer_id ← choose_customer deps ctx input
  create_for today ctx input customer_id

pub record UpdateInvoiceInput : Type 0 where
  pub date_issued : Option Date
  pub date_due : Option Date
  pub currency : Option String
  pub lines : Option (List LineInputDto)

-- New lines replace the old ones and give the totals; without any the totals stay.
unfoldable pub replace_lines :
    RequestContext → ℕ → InvoiceRow → Option (List LineInputDto) → Tx Db InvoiceTotals
replace_lines ctx id current none = pure (record {
  total_excl_vat_ore = current.total_excl_vat_ore;
  total_vat_ore = current.total_vat_ore;
  total_incl_vat_ore = current.total_incl_vat_ore;
})
replace_lines ctx id current (some lines) = do
  items ← lift (to_items lines)
  replace_items ctx.tenant_id id items
  pure (totals_of items)

unfoldable pub update : Date → RequestContext → ℕ → UpdateInvoiceInput → Tx Db Detail
unfolding replace_lines
update today ctx id input = do
  current ← or_throw (← lock_by_id ctx.tenant_id id) Error.not_found
  throw_if (not (is_draft current.status)) Error.conflict
  let date_issued = or_else input.date_issued current.date_issued
  let date_due = or_else input.date_due current.date_due
  let currency = or_else input.currency current.currency
  throw_if (refuses_dates today input.date_issued input.date_due current) Error.bad_request
  totals ← replace_lines ctx id current input.lines
  update_draft ctx.tenant_id id (record {
    date_issued = date_issued;
    date_due = date_due;
    currency = currency;
    total_excl_vat_ore = totals.total_excl_vat_ore;
    total_vat_ore = totals.total_vat_ore;
    total_incl_vat_ore = totals.total_incl_vat_ore;
  })
  write_audit_log ctx "invoice.updated" id
  detail ctx id

unfoldable pub remove : RequestContext → ℕ → Tx Db (Unit {0})
remove ctx id = do
  current ← or_throw (← lock_by_id ctx.tenant_id id) Error.not_found
  throw_if (not (is_draft current.status)) Error.conflict
  delete_invoice ctx.tenant_id id
  write_audit_log ctx "invoice.deleted" id

unfoldable pub send_in_tx : RequestContext → ℕ → Tx Db Detail
send_in_tx ctx id = do
  invoice ← or_throw (← lock_by_id ctx.tenant_id id) Error.not_found
  throw_if (not (is_draft invoice.status)) Error.conflict
  customer ← or_throw (← find_customer ctx.tenant_id invoice.customer_id) Error.bad_request
  items ← find_items ctx.tenant_id id
  settings ← lock_for_update ctx.tenant_id
  throw_if (lacks_sender settings) Error.unprocessable_entity
  let number = settings.next_invoice_number
  ocr ← or_throw (derive_ocr number) Error.plain_error
  bump_invoice_number ctx.tenant_id
  mark_sent ctx.tenant_id id number ocr
  insert_snapshot ctx.tenant_id id
      (build_snapshot_payload (as_sent number ocr invoice) items settings customer none)
  write_event ctx (EventPayload.invoice_sent id)
  write_audit_log ctx "invoice.sent" id
  detail ctx id

-- CREDITABLE
abbrev pub is_creditable : InvoiceStatus → Bool
is_creditable InvoiceStatus.sent = true
is_creditable InvoiceStatus.overdue = true
is_creditable InvoiceStatus.paid = true
is_creditable _ = false

abbrev pub is_plain_invoice : InvoiceType → Bool
is_plain_invoice InvoiceType.invoice = true
is_plain_invoice _ = false

abbrev pub credit_data : Date → InvoiceRow → InvoiceTotals → Allocated → InsertInvoiceData
credit_data today original totals a = record {
  customer_id = original.customer_id;
  invoice_number = some a.number;
  ocr_number = some a.ocr;
  invoice_type = InvoiceType.credit_note;
  status = InvoiceStatus.settled;
  date_issued = today;
  date_due = today;
  currency = original.currency;
  total_excl_vat_ore = totals.total_excl_vat_ore;
  total_vat_ore = totals.total_vat_ore;
  total_incl_vat_ore = totals.total_incl_vat_ore;
  credits_invoice_id = some original.id;
  reminds_invoice_id = none;
  parent_template_id = none;
}

-- `creditInTx` from its critical section on: the note with its lines, the original's status, the copy.
unfoldable pub write_credit :
    Date → RequestContext → InvoiceRow → List InvoiceItem → CustomerRow → Tx Db Detail
write_credit today ctx original items customer = do
  a ← allocate_number ctx
  note ← insert_invoice ctx.tenant_id (credit_data today original (totals_of items) a)
  insert_items ctx.tenant_id note.id items
  set_status ctx.tenant_id original.id InvoiceStatus.credited
  rows ← find_items ctx.tenant_id note.id
  insert_snapshot ctx.tenant_id note.id (build_snapshot_payload note rows a.settings customer none)
  write_event ctx (EventPayload.invoice_credited note.id original.id)
  write_audit_log ctx "invoice.credited" original.id
  detail ctx note.id

unfoldable pub credit_in_tx : Date → RequestContext → ℕ → Tx Db Detail
credit_in_tx today ctx id = do
  original ← or_throw (← lock_by_id ctx.tenant_id id) Error.not_found
  throw_if (not (is_plain_invoice original.invoice_type)) Error.conflict
  throw_if (not (is_creditable original.status)) Error.conflict
  original_items ← find_items ctx.tenant_id id
  customer ← or_throw (← find_customer ctx.tenant_id original.customer_id) Error.bad_request
  write_credit today ctx original (credit_items_from 0 original_items) customer
