-- ===== src/Billing/Calls.antt =====
-- The calls that change what billing keeps, each in its transaction, in any order: the endpoints of
-- services/billing/src/invoices with those for templates, customers and company-settings, the events of
-- payments and deliveries, and the nightly job.
pub mod Laws
use faktureringssystemet.Prelude.{ℕ, Bool, false, ◌||◌, ◌==◌, List, [], ◌∷◌}
use faktureringssystemet.Shared.Errors.{Result}
use faktureringssystemet.Shared.Tx.{Tx, begin}
use faktureringssystemet.Billing.Dates.{Date}
use faktureringssystemet.Billing.Store.{Db, RequestContext}
use faktureringssystemet.Billing.Invoices.Service.{
  Detail, CreateInvoiceInput, create_in_tx, UpdateInvoiceInput, update, remove, send_in_tx,
  credit_in_tx,
}
use faktureringssystemet.Billing.Invoices.Templates.{
  CreateInvoiceTemplateInput, UpdateInvoiceTemplateInput, create_template_in_tx, update_template,
  remove_template,
}
use faktureringssystemet.Billing.Customers.{Deps}
use faktureringssystemet.Billing.Customers.Calls.{CustomerCall}
use faktureringssystemet.Billing.Customers.Calls as CustomerCalls
use faktureringssystemet.Billing.CompanySettings.{CompanySettingsPatch}
use faktureringssystemet.Billing.CompanySettings as CompanySettings
use faktureringssystemet.Billing.Payments.{PaymentApplyUpdate}
use faktureringssystemet.Billing.Payments as Payments
use faktureringssystemet.Billing.Deliveries.{DeliveryUpdate}
use faktureringssystemet.Billing.Deliveries as Deliveries
use faktureringssystemet.Billing.Automation.{AutomationRunSummary, run_daily, is_among}

pub data Call : Type 0 where
  create : Deps → Date → RequestContext → CreateInvoiceInput → Call
  edit : Date → RequestContext → ℕ → UpdateInvoiceInput → Call
  delete send : RequestContext → ℕ → Call
  credit : Date → RequestContext → ℕ → Call
  configure : RequestContext → CompanySettingsPatch → Call
  new_template : Date → RequestContext → CreateInvoiceTemplateInput → Call
  change_template : Date → RequestContext → ℕ → UpdateInvoiceTemplateInput → Call
  drop_template : RequestContext → ℕ → Call
  -- Of services/billing/src/customers.
  on_customers : CustomerCall → Call
  payment : PaymentApplyUpdate → Call
  report : DeliveryUpdate → Call
  nightly : Date → List (ℕ × ℕ) → Call

abbrev pub no_summary : AutomationRunSummary
no_summary = record {
  tenants_processed = 0;
  overdue_marked = 0;
  reminders_created = 0;
  recurring_generated = 0;
  tenant_errors = 0;
}

-- The database after a call, which is as it was if the call throws.
unfoldable pub handle : Call → Db → Db
handle (create deps today ctx input) db = (begin (create_in_tx deps today ctx input) db).1
handle (edit today ctx id input) db = (begin (update today ctx id input) db).1
handle (delete ctx id) db = (begin (remove ctx id) db).1
handle (send ctx id) db = (begin (send_in_tx ctx id) db).1
handle (credit today ctx id) db = (begin (credit_in_tx today ctx id) db).1
handle (configure ctx patch) db = (begin (CompanySettings.update ctx patch) db).1
handle (new_template today ctx input) db = (begin (create_template_in_tx today ctx input) db).1
handle (change_template today ctx id input) db = (begin (update_template today ctx id input) db).1
handle (drop_template ctx id) db = (begin (remove_template ctx id) db).1
handle (on_customers call) db = CustomerCalls.handle call db
handle (payment u) db = (begin (Payments.apply u) db).1
handle (report u) db = (begin (Deliveries.apply u) db).1
handle (nightly today tenants) db = (run_daily today tenants db no_summary).1

unfoldable pub handle_all : List Call → Db → Db
handle_all [] db = db
handle_all (c ∷ cs) db = handle_all cs (handle c db)

-- The tenant, or the tenants of the night, that a call is for.
abbrev pub is_for : Call → ℕ → Bool
is_for (create deps today ctx input) t = ctx.tenant_id == t
is_for (edit today ctx id input) t = ctx.tenant_id == t
is_for (delete ctx id) t = ctx.tenant_id == t
is_for (send ctx id) t = ctx.tenant_id == t
is_for (credit today ctx id) t = ctx.tenant_id == t
is_for (configure ctx patch) t = ctx.tenant_id == t
is_for (new_template today ctx input) t = ctx.tenant_id == t
is_for (change_template today ctx id input) t = ctx.tenant_id == t
is_for (drop_template ctx id) t = ctx.tenant_id == t
is_for (on_customers call) t = CustomerCalls.is_for call t
is_for (payment u) t = u.tenant_id == t
is_for (report u) t = u.tenant_id == t
is_for (nightly today tenants) t = is_among tenants t

abbrev pub is_for_any : List Call → ℕ → Bool
is_for_any [] t = false
is_for_any (c ∷ cs) t = is_for c t || is_for_any cs t
