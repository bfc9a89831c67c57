-- ===== src/Billing/Automation.antt =====
-- services/billing/src/automation/service.ts: the nightly job, one transaction for each reminder and
-- each generated invoice. `begin` keeps the database as it was where a transaction throws. Reads of the
-- database do not fail here, so that what is caught around them has no counterpart. The clean-up of
-- idempotency keys is in Billing/Idempotency; that of the outbox is left out.
pub mod Laws
use faktureringssystemet.Prelude.{
  ℕ, zero, suc, ◌+◌, Bool, false, ◌||◌, ◌==◌, Option, none, some, List, [], ◌∷◌, map,
}
use faktureringssystemet.Shared.Errors.{Error, Result, ok, err}
use faktureringssystemet.Shared.Tx.{Tx, begin}
use faktureringssystemet.Billing.Dates.{Date}
use faktureringssystemet.Billing.Store.{
  InvoiceRow, InvoiceTemplateRow, AuditEntry, Db, RequestContext,
}
use faktureringssystemet.Billing.Invoices.Repository.{write_cron_audit_log}
use faktureringssystemet.Billing.Invoices.Cron.{
  Created, not_created, created, create_reminder_in_tx, find_reminder_candidates, mark_overdue,
  generate_from_template_in_tx, find_due_templates,
}

pub record TenantRunSummary : Type 0 where
  pub tenant_id : ℕ
  pub overdue_marked : ℕ
  pub reminders_created : ℕ
  pub recurring_generated : ℕ
  pub errors : ℕ

-- The database and what was counted so far.
pub record Run : Type 0 where
  pub db : Db
  pub summary : TenantRunSummary

-- MAX_CATCHUP_PER_TEMPLATE
abbrev pub max_catchup_per_template : ℕ
max_catchup_per_template = 36

abbrev pub system_ctx : ℕ → ℕ → RequestContext
system_ctx tenant correlation = record {
  user_id = 0;
  tenant_id = tenant;
  correlation_id = correlation;
}

abbrev pub with_error : Db → TenantRunSummary → Run
with_error db s = record { db = db; summary = record s { errors = s.errors + 1 } }

abbrev pub count_overdue : TenantRunSummary → Result ℕ × Db → Run
count_overdue s (ok n, db) = record { db = db; summary = record s { overdue_marked = n } }
count_overdue s (err e, db) = with_error db s

unfoldable pub mark_all : Date → RequestContext → Run → Run
mark_all today ctx run = count_overdue run.summary (begin (mark_overdue today ctx) run.db)

abbrev pub count_reminder : TenantRunSummary → Result Created × Db → Run
count_reminder s (ok (created n), db) = record {
  db = db;
  summary = record s { reminders_created = s.reminders_created + 1 };
}
count_reminder s (ok not_created, db) = record { db = db; summary = s }
count_reminder s (err e, db) = with_error db s

unfoldable pub remind_one : Date → RequestContext → ℕ → Run → Run
remind_one today ctx id run =
    count_reminder run.summary (begin (create_reminder_in_tx today ctx id) run.db)

unfoldable pub remind_each : Date → RequestContext → List InvoiceRow → Run → Run
remind_each today ctx [] run = run
remind_each today ctx (c ∷ cs) run = remind_each today ctx cs (remind_one today ctx c.id run)

-- One pass of the loop on a template, with how the loop goes on after an invoice.
abbrev pub catch_up_once : (Run → Run) → TenantRunSummary → Result Created × Db → Run
catch_up_once go_on s (ok not_created, db) = record { db = db; summary = s }
catch_up_once go_on s (ok (created i), db) =
    go_on
      (record { db = db; summary = record s { recurring_generated = s.recurring_generated + 1 } })
catch_up_once go_on s (err e, db) = with_error db s

-- The loop that catches up on one template, at most `n` times.
unfoldable pub catch_up : ℕ → Date → RequestContext → ℕ → Run → Run
catch_up zero today ctx id run = run
catch_up (suc n) today ctx id run =
    catch_up_once (catch_up n today ctx id) run.summary
      (begin (generate_from_template_in_tx today ctx id) run.db)

unfoldable pub generate_each : Date → RequestContext → List InvoiceTemplateRow → Run → Run
generate_each today ctx [] run = run
generate_each today ctx (t ∷ ts) run =
    generate_each today ctx ts (catch_up max_catchup_per_template today ctx t.id run)

abbrev pub candidates_of : Result (List InvoiceRow × Db) → List InvoiceRow
candidates_of (ok (cs, db)) = cs
candidates_of (err e) = []

abbrev pub templates_of : Result (List InvoiceTemplateRow × Db) → List InvoiceTemplateRow
templates_of (ok (ts, db)) = ts
templates_of (err e) = []

unfoldable pub remind_all : Date → RequestContext → Run → Run
remind_all today ctx run =
    remind_each today ctx (candidates_of (find_reminder_candidates ctx.tenant_id today run.db)) run

unfoldable pub generate_all : Date → RequestContext → Run → Run
generate_all today ctx run =
    generate_each today ctx (templates_of (find_due_templates ctx.tenant_id today run.db)) run

abbrev pub after_audit : TenantRunSummary → Result (Unit {0}) × Db → Run
after_audit s (ok u, db) = record { db = db; summary = s }
after_audit s (err e, db) = with_error db s

unfoldable pub audit_run : RequestContext → Run → Run
audit_run ctx run =
    after_audit run.summary
      (begin (write_cron_audit_log ctx "automation.cron_run" ctx.tenant_id) run.db)

abbrev pub empty_summary : ℕ → TenantRunSummary
empty_summary tenant = record {
  tenant_id = tenant;
  overdue_marked = 0;
  reminders_created = 0;
  recurring_generated = 0;
  errors = 0;
}

unfoldable pub run_for_tenant : Date → RequestContext → Db → Run
run_for_tenant today ctx db =
    let start : Run = record { db = db; summary = empty_summary ctx.tenant_id } in
    audit_run ctx (generate_all today ctx (remind_all today ctx (mark_all today ctx start)))

pub record AutomationRunSummary : Type 0 where
  pub tenants_processed : ℕ
  pub overdue_marked : ℕ
  pub reminders_created : ℕ
  pub recurring_generated : ℕ
  pub tenant_errors : ℕ

abbrev add_tenant : TenantRunSummary → AutomationRunSummary → AutomationRunSummary
add_tenant t s = record {
  tenants_processed = s.tenants_processed + 1;
  overdue_marked = s.overdue_marked + t.overdue_marked;
  reminders_created = s.reminders_created + t.reminders_created;
  recurring_generated = s.recurring_generated + t.recurring_generated;
  tenant_errors = s.tenant_errors + t.errors;
}

-- `runDaily` over the active tenants, each with the correlation id that was drawn for it.
unfoldable pub run_daily :
    Date → List (ℕ × ℕ) → Db → AutomationRunSummary → AutomationRunSummary × Db
run_daily today [] db summary = (summary, db)
run_daily today ((tenant, correlation) ∷ rest) db summary =
    let run = run_for_tenant today (system_ctx tenant correlation) db in
    run_daily today rest run.db (add_tenant run.summary summary)

-- The tenants of a night, whose first components are their ids.
abbrev pub is_among : List (ℕ × ℕ) → ℕ → Bool
is_among [] t = false
is_among ((u, c) ∷ rest) t = u == t || is_among rest t
