-- ===== src/Billing/Calls/Laws.antt =====
-- What holds of the invoices after any calls.
use faktureringssystemet.Prelude.{
  ℕ, ◌≡◌, ◌≢◌, ◌&&◌, false, select, some, List, [], ◌∷◌, arith, ltb, leb, find_first, count_where,
  All, Option-cases, inl, inr, ap,
}
use faktureringssystemet.Prelude.Rows.{as_count, All-find_first}
use faktureringssystemet.Billing.Store.{InvoiceStatus, InvoiceRow, CompanySettingsRow, Db}
use faktureringssystemet.Billing.Invoices.Repository.{
  is_invoice, is_settings_of, settings_or_default,
}
use faktureringssystemet.Billing.Invoices.Service.{
  create_in_tx, update, remove, send_in_tx, credit_in_tx,
}
use faktureringssystemet.Billing.CompanySettings as CompanySettings
use faktureringssystemet.Billing.CompanySettings.Laws as SettingsLaws
use faktureringssystemet.Billing.Payments as Payments
use faktureringssystemet.Billing.Deliveries as Deliveries
use faktureringssystemet.Billing.Payments.Laws as PaymentLaws
use faktureringssystemet.Billing.Deliveries.Laws as DeliveryLaws
use faktureringssystemet.Billing.Invoices.Ledger.{
  ledger_of, Steps, done, one_step, Steps-trans, Steps-mono,
}
use faktureringssystemet.Billing.Invoices.Ledger.Series.{has_number, IsUnbroken}
use faktureringssystemet.Billing.Invoices.Ledger.Tenants.{is_of, HasOwn, Steps-SameFor}
use faktureringssystemet.Billing.Invoices.Ledger.Unbroken.{Steps-IsUnbroken}
use faktureringssystemet.Billing.Invoices.Ledger.Frozen.{Keeps, Steps-StillThere}
use faktureringssystemet.Billing.Invoices.Refinement.{
  send_in_tx-Step, remove-Step, update-Step, create_in_tx-Step,
}
use faktureringssystemet.Billing.Invoices.Refinement.Numbered.{credit_in_tx-Steps}
use faktureringssystemet.Billing.Automation.Laws.{begin-Steps, run_daily-Steps}
use faktureringssystemet.Billing.Calls.{
  Call, create, edit, delete, send, credit, configure, payment, report, nightly, no_summary, handle,
  handle_all, new_template, change_template, drop_template, is_for, is_for_any, on_customers,
}
use faktureringssystemet.Billing.Invoices.Templates.{
  create_template_in_tx, update_template, remove_template,
}
use faktureringssystemet.Billing.Invoices.Refinement.Templates.{
  create_template_in_tx-Step, update_template-Steps, remove_template-Step,
}
use faktureringssystemet.Billing.Customers.Frame.{handle-SameBooks}

-- Every call does to the ledger what its steps allow.
handle-Steps : (c : Call) (db : Db) → Steps (is_for c) (ledger_of db) (ledger_of (handle c db))
unfolding handle
handle-Steps (create deps today ctx input) db =
    begin-Steps (create_in_tx deps today ctx input) db
      (λ d db' e. one_step (create_in_tx-Step deps today ctx input db db' d e))
handle-Steps (edit today ctx id input) db =
    begin-Steps (update today ctx id input) db
      (λ d db' e. one_step (update-Step today ctx id input db db' d e))
handle-Steps (delete ctx id) db =
    begin-Steps (remove ctx id) db (λ d db' e. one_step (remove-Step ctx id db db' d e))
handle-Steps (send ctx id) db =
    begin-Steps (send_in_tx ctx id) db (λ d db' e. one_step (send_in_tx-Step ctx id db db' d e))
handle-Steps (credit today ctx id) db =
    begin-Steps (credit_in_tx today ctx id) db
      (λ d db' e. credit_in_tx-Steps today ctx id db db' d e)
handle-Steps (configure ctx patch) db =
    begin-Steps (CompanySettings.update ctx patch) db
      (λ row db' e. SettingsLaws.update-Steps ctx patch db db' row e)
handle-Steps (new_template today ctx input) db =
    begin-Steps (create_template_in_tx today ctx input) db
      (λ r db' e. one_step (create_template_in_tx-Step today ctx input db db' r e))
handle-Steps (change_template today ctx id input) db =
    begin-Steps (update_template today ctx id input) db
      (λ r db' e. update_template-Steps today ctx id input db db' r e)
handle-Steps (drop_template ctx id) db =
    begin-Steps (remove_template ctx id) db
      (λ u db' e. one_step (remove_template-Step ctx id db db' u e))
handle-Steps (on_customers call) db =
    let books = ap ledger_of (handle-SameBooks call db) in rw books done
handle-Steps (payment u) db =
    begin-Steps (Payments.apply u) db (λ o db' e. PaymentLaws.apply-Steps u db db' o e)
handle-Steps (report u) db =
    begin-Steps (Deliveries.apply u) db (λ o db' e. DeliveryLaws.apply-Steps u db db' o e)
handle-Steps (nightly today tenants) db = run_daily-Steps today tenants db no_summary

-- Any calls, also ones that fail, do to the invoices, the number series and the ids only what the steps
-- of the ledger allow, and only steps for the tenants that the calls are for.
pub handle_all-Steps :
    (cs : List Call) (db : Db) → Steps (is_for_any cs) (ledger_of db) (ledger_of (handle_all cs db))
unfolding handle_all
handle_all-Steps [] db = done
handle_all-Steps (c ∷ cs) db =
    Steps-trans (Steps-mono (λ t h. ground arith) (handle-Steps c db))
      (Steps-mono (λ t h. ground arith) (handle_all-Steps cs (handle c db)))

-- A number series that has not begun.
abbrev pub IsAtStart : CompanySettingsRow → Type 0
IsAtStart s = s.next_invoice_number ≡ 1

number_at_start :
    (t : ℕ) (ss : List CompanySettingsRow)
    → All IsAtStart ss
    → (settings_or_default t ss).next_invoice_number ≡ 1
number_at_start t ss h = elim (Option-cases (find_first (is_settings_of t) ss)) [
  | inl missing ↦ ground arith
  | inr (s, found) ↦
      let one = All-find_first IsAtStart (is_settings_of t) ss h found in ground arith
]

new-IsUnbroken :
    (db : Db) → (db.invoices ≡ []) → All IsAtStart db.settings → IsUnbroken (ledger_of db)
new-IsUnbroken db h k = record {
  ids = λ i. rw h (omega arith);
  series = λ t n. let one = number_at_start t db.settings k in rw (h, one) (ground arith);
  drafts = rw h tt;
  started = λ t. let one = number_at_start t db.settings k in omega arith;
}

-- From a database on that has no invoices and in which no number series has begun, and after any calls in
-- any order, also ones that fail: the numbers of each tenant's invoices are those from 1 to below its
-- next number, and each of them is the number of exactly one invoice of that tenant.
pub numbers_unbroken :
    (cs : List Call) (db : Db) (t n : ℕ)
    → db.invoices ≡ []
    → All IsAtStart db.settings
    → count_where (has_number t n) (handle_all cs db).invoices
      ≡ as_count
          (leb 1 n && ltb n (settings_or_default t (handle_all cs db).settings).next_invoice_number)
numbers_unbroken cs db t n h k =
    let u = Steps-IsUnbroken (handle_all-Steps cs db) (new-IsUnbroken db h k) in u.series t n

-- After any calls, an invoice that is not a draft is still found under its id, and nothing of it has
-- changed but its status, which went on as a status may, its delivery, which came no less far, the reminder
-- that replaced it, and the template that it came from, which is forgotten when that is deleted.
pub sent_is_kept :
    (cs : List Call) (db : Db) (t i : ℕ) (r : InvoiceRow)
    → find_first (is_invoice t i) db.invoices ≡ some r
    → r.status ≢ InvoiceStatus.draft
    → (r' : InvoiceRow) × (find_first (is_invoice t i) (handle_all cs db).invoices ≡ some r')
      × Keeps r r'
sent_is_kept cs db t i r h k = Steps-StillThere t i r (handle_all-Steps cs db) h k

-- Where a tenant's invoices come from no template of another tenant and from none that is yet to be made, calls for
-- other tenants, in any order and also ones that fail, leave its invoices, in their order, and its settings, with its
-- number series, exactly as they were, and its invoices still come from no template of another.
pub tenants_apart :
    (cs : List Call) (db : Db) (t : ℕ)
    → is_for_any cs t ≡ false
    → HasOwn t (ledger_of db)
    → (select (is_of t) (handle_all cs db).invoices ≡ select (is_of t) db.invoices)
      × (select (is_settings_of t) (handle_all cs db).settings
          ≡ select (is_settings_of t) db.settings)
      × HasOwn t (ledger_of (handle_all cs db))
tenants_apart cs db t h own =
    let ((rows, settings), own') = Steps-SameFor t (handle_all-Steps cs db) h own in
    (rows, settings, own')
