-- ===== src/Billing/Automation/Laws.antt =====
-- The nightly job as steps of the ledger, and what its loops reach.
use faktureringssystemet.Prelude.{
  ℕ, zero, suc, ◌+◌, ◌≡◌, ◌⊎◌, refl, ap, ◌∙◌, inl, inr, Bool, List, [], ◌∷◌, arith,
}
use faktureringssystemet.Shared.Errors.{Error, Result, ok, err, Result-cases}
use faktureringssystemet.Shared.Tx.{Tx, begin}
use faktureringssystemet.Billing.Dates.{Date}
use faktureringssystemet.Billing.Store.{InvoiceRow, InvoiceTemplateRow, Db, RequestContext}
use faktureringssystemet.Billing.Invoices.Repository.{write_cron_audit_log}
use faktureringssystemet.Billing.Invoices.Cron.{
  Created, not_created, created, create_reminder_in_tx, mark_overdue, generate_from_template_in_tx,
  find_reminder_candidates, find_due_templates,
}
use faktureringssystemet.Billing.Invoices.Ledger.{
  ledger_of, Steps, by, done, one_step, Steps-trans, Steps-mono,
}
use faktureringssystemet.Billing.Invoices.Refinement.Nightly.{
  create_reminder_in_tx-Steps, generate_from_template_in_tx-Steps, mark_overdue-Step, generate_idle,
}
use faktureringssystemet.Billing.Automation.{
  TenantRunSummary, Run, AutomationRunSummary, system_ctx, mark_all, remind_one, remind_each,
  catch_up, generate_each, remind_all, generate_all, audit_run, run_for_tenant, run_daily, is_among,
  max_catchup_per_template, count_overdue, count_reminder, after_audit, empty_summary,
  candidates_of, templates_of,
}

-- A transaction whose success is steps of the ledger is steps of the ledger.
pub begin-Steps :
    {A : Type 0} {p : ℕ → Bool} (m : Tx Db A) (db : Db)
    → ((a : A) (db' : Db) → m db ≡ ok (a, db') → Steps p (ledger_of db) (ledger_of db'))
    → Steps p (ledger_of db) (ledger_of (begin m db).1)
begin-Steps m db h = elim (Result-cases (m db)) [
  | inl ((a, db'), e) ↦ rw e (h a db' e)
  | inr (e, bad) ↦ rw bad done
]

overdue_db : (s : TenantRunSummary) (r : Result ℕ × Db) → (count_overdue s r).db ≡ r.1
overdue_db s (ok n, db) = refl
overdue_db s (err e, db) = refl

reminder_db : (s : TenantRunSummary) (r : Result Created × Db) → (count_reminder s r).db ≡ r.1
reminder_db s (ok (created n), db) = refl
reminder_db s (ok not_created, db) = refl
reminder_db s (err e, db) = refl

audit_db : (s : TenantRunSummary) (r : Result (Unit {0}) × Db) → (after_audit s r).db ≡ r.1
audit_db s (ok u, db) = refl
audit_db s (err e, db) = refl

mark_all-Steps :
    (today : Date) (ctx : RequestContext) (run : Run)
    → Steps (by ctx.tenant_id) (ledger_of run.db) (ledger_of (mark_all today ctx run).db)
unfolding mark_all
mark_all-Steps today ctx run = rw (overdue_db run.summary (begin (mark_overdue today ctx) run.db)) (
    begin-Steps (mark_overdue today ctx) run.db
      (λ n db' e. one_step (mark_overdue-Step today ctx run.db db' n e)))

remind_one-Steps :
    (today : Date) (ctx : RequestContext) (id : ℕ) (run : Run)
    → Steps (by ctx.tenant_id) (ledger_of run.db) (ledger_of (remind_one today ctx id run).db)
unfolding remind_one
remind_one-Steps today ctx id run =
    rw (reminder_db run.summary (begin (create_reminder_in_tx today ctx id) run.db)) (
      begin-Steps (create_reminder_in_tx today ctx id) run.db
        (λ o db' e. create_reminder_in_tx-Steps today ctx id run.db db' o e))

remind_each-Steps :
    (today : Date) (ctx : RequestContext) (cs : List InvoiceRow) (run : Run)
    → Steps (by ctx.tenant_id) (ledger_of run.db) (ledger_of (remind_each today ctx cs run).db)
unfolding remind_each
remind_each-Steps today ctx [] run = done
remind_each-Steps today ctx (c ∷ cs) run =
    Steps-trans (remind_one-Steps today ctx c.id run)
      (remind_each-Steps today ctx cs (remind_one today ctx c.id run))

-- The result of a transaction on a database, which is kept where it throws.
begin-cases :
    {A : Type 0} (m : Tx Db A) (db : Db)
    → ((a : A) × (db' : Db) × (m db ≡ ok (a, db')) × (begin m db ≡ (ok a, db')))
      ⊎ ((e : Error) × (m db ≡ err e) × (begin m db ≡ (err e, db)))
begin-cases m db = elim (Result-cases (m db)) [
  | inl ((a, db'), e) ↦ inl (a, db', e, rw e refl)
  | inr (e, bad) ↦ inr (e, bad, rw bad refl)
]

catch_up-Steps :
    (n : ℕ) (today : Date) (ctx : RequestContext) (id : ℕ) (run : Run)
    → Steps (by ctx.tenant_id) (ledger_of run.db) (ledger_of (catch_up n today ctx id run).db)
unfolding catch_up
catch_up-Steps zero today ctx id run = done
catch_up-Steps (suc n) today ctx id run =
    elim (begin-cases (generate_from_template_in_tx today ctx id) run.db) [
      | inr (e, bad, b) ↦ rw b done
      | inl (not_created, db', e, b) ↦
          rw b (generate_from_template_in_tx-Steps today ctx id run.db db' not_created e)
      | inl (created i, db', e, b) ↦ rw b (
          Steps-trans (generate_from_template_in_tx-Steps today ctx id run.db db' (created i) e)
            (catch_up-Steps n today ctx id _))
    ]

generate_each-Steps :
    (today : Date) (ctx : RequestContext) (ts : List InvoiceTemplateRow) (run : Run)
    → Steps (by ctx.tenant_id) (ledger_of run.db) (ledger_of (generate_each today ctx ts run).db)
unfolding generate_each
generate_each-Steps today ctx [] run = done
generate_each-Steps today ctx (t ∷ ts) run =
    Steps-trans (catch_up-Steps max_catchup_per_template today ctx t.id run)
      (generate_each-Steps today ctx ts (catch_up max_catchup_per_template today ctx t.id run))

audit_run-Steps :
    (ctx : RequestContext) (run : Run)
    → Steps (by ctx.tenant_id) (ledger_of run.db) (ledger_of (audit_run ctx run).db)
unfolding audit_run write_cron_audit_log
audit_run-Steps ctx run = done

remind_all-Steps :
    (today : Date) (ctx : RequestContext) (run : Run)
    → Steps (by ctx.tenant_id) (ledger_of run.db) (ledger_of (remind_all today ctx run).db)
unfolding remind_all
remind_all-Steps today ctx run =
    remind_each-Steps today ctx
      (candidates_of (find_reminder_candidates ctx.tenant_id today run.db)) run

generate_all-Steps :
    (today : Date) (ctx : RequestContext) (run : Run)
    → Steps (by ctx.tenant_id) (ledger_of run.db) (ledger_of (generate_all today ctx run).db)
unfolding generate_all
generate_all-Steps today ctx run =
    generate_each-Steps today ctx (templates_of (find_due_templates ctx.tenant_id today run.db)) run

pub run_for_tenant-Steps :
    (today : Date) (ctx : RequestContext) (db : Db)
    → Steps (by ctx.tenant_id) (ledger_of db) (ledger_of (run_for_tenant today ctx db).db)
unfolding run_for_tenant
run_for_tenant-Steps today ctx db =
    let start : Run = record { db = db; summary = empty_summary ctx.tenant_id } in
    let marked : Run = mark_all today ctx start in
    let reminded : Run = remind_all today ctx marked in
    let generated : Run = generate_all today ctx reminded in
    Steps-trans (mark_all-Steps today ctx start) (
      Steps-trans (remind_all-Steps today ctx marked)
        (Steps-trans (generate_all-Steps today ctx reminded) (audit_run-Steps ctx generated)))

-- The nightly job does nothing to the ledger that its steps do not allow.
pub run_daily-Steps :
    (today : Date) (tenants : List (ℕ × ℕ)) (db : Db) (s : AutomationRunSummary)
    → Steps (is_among tenants) (ledger_of db) (ledger_of (run_daily today tenants db s).1)
unfolding run_daily
run_daily-Steps today [] db s = done
run_daily-Steps today ((t, c) ∷ rest) db s =
    Steps-trans (Steps-mono (λ u h. ground arith) (run_for_tenant-Steps today (system_ctx t c) db))
      (Steps-mono (λ u h. ground arith)
        (run_daily-Steps today rest (run_for_tenant today (system_ctx t c) db).db _))

abbrev one_more : Run → Db → Run
one_more run db = record {
  db = db;
  summary = record run.summary { recurring_generated = run.summary.recurring_generated + 1 };
}

-- What one template's loop comes to: the template is not due any more, an error stopped the loop, or
-- it generated as many invoices as it may in a run.
pub catch_up_ends :
    (n : ℕ) (today : Date) (ctx : RequestContext) (id : ℕ) (run : Run)
    → let r = catch_up n today ctx id run in
      (generate_from_template_in_tx today ctx id r.db ≡ ok (not_created, r.db))
      ⊎ ((r.summary.errors ≡ run.summary.errors + 1)
          ⊎ (r.summary.recurring_generated ≡ run.summary.recurring_generated + n))
unfolding catch_up
catch_up_ends zero today ctx id run = inr (inr (omega arith))
catch_up_ends (suc n) today ctx id run =
    elim (begin-cases (generate_from_template_in_tx today ctx id) run.db) [
      | inr (e, bad, b) ↦ rw b (inr (inl refl))
      | inl (not_created, db', e, b) ↦ rw b (
          inl (
            ap (generate_from_template_in_tx today ctx id) (generate_idle today ctx id run.db db' e)
            ∙ e))
      | inl (created i, db', e, b) ↦ rw b (elim (catch_up_ends n today ctx id (one_more run db')) [
        | inl idle ↦ inl idle
        | inr (inl failed) ↦ inr (inl failed)
        | inr (inr all) ↦ inr (inr (all ∙ omega arith))
      ])
    ]
