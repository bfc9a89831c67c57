-- ===== src/Billing/Invoices/Ledger.antt =====
-- The bookkeeping that services/billing/src/invoices promises (rules/domain.md, 1 to 7), as a step
-- relation on the invoices, the number series and the next id, without lines, snapshots and events. A step is
-- labelled with the tenant that it is for.
pub mod Series
pub mod Unbroken
pub mod Frozen
pub mod Tenants
use faktureringssystemet.Prelude.{
  ℕ, ◌+◌, ◌≡◌, ◌≢◌, Bool, true, false, ◌&&◌, Option, none, some, List, [], ◌∷◌, ◌++◌, map,
  find_first, update_where, delete_where, arith, ◌==◌, refl, inl, inr, Bool-cases,
}
use faktureringssystemet.Shared.Text.{Text}
use faktureringssystemet.Shared.Ocr.{derive_ocr}
use faktureringssystemet.Billing.Dates.{Date}
use faktureringssystemet.Billing.Store.{
  InvoiceStatus, DeliveryStatus, InvoiceRow, CompanySettingsRow, InvoiceTemplateRow, Db,
}
use faktureringssystemet.Billing.Invoices.Repository.{
  is_invoice, DraftFields, with_draft_fields, as_sent, with_status, as_superseded, is_past_due,
  settings_or_default, upsert_settings, is_settings_of, bumped,
}
use faktureringssystemet.Billing.Payments.{is_covered}
use faktureringssystemet.Billing.Invoices.Templates.{is_generated_from, without_template}
use faktureringssystemet.Billing.Deliveries.{is_behind, with_delivery}

-- A template and the tenant that has it.
pub record Owner : Type 0 where
  pub template_id : ℕ
  pub tenant_id : ℕ

abbrev pub owner_of : InvoiceTemplateRow → Owner
owner_of t = record { template_id = t.id; tenant_id = t.tenant_id }

abbrev pub is_owner : ℕ → ℕ → Owner → Bool
is_owner t i o = o.template_id == i && o.tenant_id == t

pub record Ledger : Type 0 where
  pub rows : List InvoiceRow
  pub settings : List CompanySettingsRow
  pub next_id : ℕ
  pub owners : List Owner
  pub next_template_id : ℕ

abbrev pub ledger_of : Db → Ledger
ledger_of db = record {
  rows = db.invoices;
  settings = db.settings;
  next_id = db.next_invoice_id;
  owners = map owner_of db.templates;
  next_template_id = db.next_template_id;
}

abbrev pub next_number : ℕ → Ledger → ℕ
next_number t l = (settings_or_default t l.settings).next_invoice_number

-- The series after a number was taken.
abbrev pub taken : ℕ → List CompanySettingsRow → List CompanySettingsRow
taken t ss = update_where (is_settings_of t) bumped (upsert_settings t ss)

abbrev pub find : ℕ → ℕ → Ledger → Option InvoiceRow
find t i l = find_first (is_invoice t i) l.rows

-- Changing templates without their ids and tenants changes no owner.
pub owners_kept :
    (p : InvoiceTemplateRow → Bool) (f : InvoiceTemplateRow → InvoiceTemplateRow)
    (ts : List InvoiceTemplateRow)
    → ((t : InvoiceTemplateRow) → owner_of (f t) ≡ owner_of t)
    → map owner_of (update_where p f ts) ≡ map owner_of ts
owners_kept p f [] h = refl
owners_kept p f (t ∷ ts) h = elim (Bool-cases (p t)) [
  | inl hit ↦ rw (hit, h t, owners_kept p f ts h) refl
  | inr miss ↦ rw (miss, owners_kept p f ts h) refl
]

-- The ways in which a status may go on.
pub data Follows : InvoiceStatus → InvoiceStatus → Type 0 where
  due : Follows InvoiceStatus.sent InvoiceStatus.overdue
  paid_on_time : Follows InvoiceStatus.sent InvoiceStatus.paid
  paid_late : Follows InvoiceStatus.overdue InvoiceStatus.paid
  credit_sent : Follows InvoiceStatus.sent InvoiceStatus.credited
  credit_overdue : Follows InvoiceStatus.overdue InvoiceStatus.credited
  credit_paid : Follows InvoiceStatus.paid InvoiceStatus.credited
  remind_sent : Follows InvoiceStatus.sent InvoiceStatus.superseded
  remind_overdue : Follows InvoiceStatus.overdue InvoiceStatus.superseded

pub Follows-not_draft : {s s' : InvoiceStatus} → Follows s s' → s' ≢ InvoiceStatus.draft
Follows-not_draft Follows.due = λ e. ground arith
Follows-not_draft Follows.paid_on_time = λ e. ground arith
Follows-not_draft Follows.paid_late = λ e. ground arith
Follows-not_draft Follows.credit_sent = λ e. ground arith
Follows-not_draft Follows.credit_overdue = λ e. ground arith
Follows-not_draft Follows.credit_paid = λ e. ground arith
Follows-not_draft Follows.remind_sent = λ e. ground arith
Follows-not_draft Follows.remind_overdue = λ e. ground arith

pub data Step (l : Ledger) : ℕ → Ledger → Type 0 where
  -- A draft has no number.
  add_draft :
      (r : InvoiceRow)
      → r.id ≡ l.next_id
      → r.status ≡ InvoiceStatus.draft
      → r.invoice_number ≡ none
      → Step l r.tenant_id (record l { rows = l.rows ++ r ∷ []; next_id = l.next_id + 1 })
  edit_draft :
      (t i : ℕ) (r : InvoiceRow) (x : DraftFields)
      → find t i l ≡ some r
      → r.status ≡ InvoiceStatus.draft
      → Step l t (record l { rows = update_where (is_invoice t i) (with_draft_fields x) l.rows })
  delete_draft :
      (t i : ℕ) (r : InvoiceRow)
      → find t i l ≡ some r
      → r.status ≡ InvoiceStatus.draft
      → Step l t (record l { rows = delete_where (is_invoice t i) l.rows })
  -- A draft is sent under the next number of its tenant.
  send_draft :
      (t i : ℕ) (r : InvoiceRow) (ocr : Text)
      → find t i l ≡ some r
      → r.status ≡ InvoiceStatus.draft
      → derive_ocr (next_number t l) ≡ some ocr
      → Step l t (record l {
        rows = update_where (is_invoice t i) (as_sent (next_number t l) ocr) l.rows;
        settings = taken t l.settings;
      })
  -- An invoice is added under the next number of its tenant.
  issue :
      (r : InvoiceRow) (ocr : Text)
      → r.id ≡ l.next_id
      → r.status ≢ InvoiceStatus.draft
      → r.invoice_number ≡ some (next_number r.tenant_id l)
      → r.ocr_number ≡ some ocr
      → derive_ocr (next_number r.tenant_id l) ≡ some ocr
      → Step l r.tenant_id (record l {
        rows = l.rows ++ r ∷ [];
        settings = taken r.tenant_id l.settings;
        next_id = l.next_id + 1;
      })
  move_status :
      (t i : ℕ) (r : InvoiceRow) (s : InvoiceStatus)
      → find t i l ≡ some r
      → Follows r.status s
      → Step l t (record l { rows = update_where (is_invoice t i) (with_status s) l.rows })
  replace_by :
      (t i by : ℕ) (r : InvoiceRow)
      → find t i l ≡ some r
      → Follows r.status InvoiceStatus.superseded
      → Step l t (record l { rows = update_where (is_invoice t i) (as_superseded by) l.rows })
  fall_due :
      (t : ℕ) (today : Date)
      → Step l t (record l {
        rows = update_where (is_past_due t today) (with_status InvoiceStatus.overdue) l.rows;
      })
  -- A payment covers what it is for.
  pay :
      (t i paid : ℕ)
      → Step l t (record l {
        rows = update_where (is_covered t i paid) (with_status InvoiceStatus.paid) l.rows;
      })
  -- A report of how far the sending of an invoice has come.
  deliver :
      (t i : ℕ) (next : DeliveryStatus)
      → Step l t (record l { rows = update_where (is_behind t i next) (with_delivery next) l.rows })
  add_template :
      (t : ℕ)
      → Step l t (record l {
        owners = l.owners ++ record { template_id = l.next_template_id; tenant_id = t } ∷ [];
        next_template_id = l.next_template_id + 1;
      })
  -- A template of the tenant is deleted, and all invoices that came from it forget it.
  delete_template :
      (t i : ℕ) (o : Owner)
      → find_first (is_owner t i) l.owners ≡ some o
      → Step l t (record l {
        rows = update_where (is_generated_from i) without_template l.rows;
        owners = delete_where (is_owner t i) l.owners;
      })
  -- The sender's details change, and no number series does.
  set_up :
      (t : ℕ) (f : CompanySettingsRow → CompanySettingsRow)
      → ((s : CompanySettingsRow)
          → ((f s).tenant_id ≡ s.tenant_id) × ((f s).next_invoice_number ≡ s.next_invoice_number))
      → Step l t
          (record l { settings = update_where (is_settings_of t) f (upsert_settings t l.settings) })

-- Steps for tenants that pass a test.
pub data Steps (p : ℕ → Bool) (l : Ledger) : Ledger → Type 0 where
  done : Steps p l l
  then_step : {t : ℕ} {m n : Ledger} → p t ≡ true → Steps p l m → Step m t n → Steps p l n

-- The test that one tenant passes.
abbrev pub by : ℕ → ℕ → Bool
by t u = t == u

by_refl : (t : ℕ) → by t t ≡ true
by_refl t = ground arith

pub one_step : {t : ℕ} {l m : Ledger} → Step l t m → Steps (by t) l m
one_step {t} s = then_step (by_refl t) done s

pub Steps-trans : {p : ℕ → Bool} {l m n : Ledger} → Steps p l m → Steps p m n → Steps p l n
Steps-trans a done = a
Steps-trans a (then_step h b s) = then_step h (Steps-trans a b) s

pub Steps-mono :
    {p q : ℕ → Bool} {l m : Ledger}
    → ((t : ℕ) → p t ≡ true → q t ≡ true)
    → Steps p l m
    → Steps q l m
Steps-mono f done = done
Steps-mono f (then_step {t} h b s) = then_step (f t h) (Steps-mono f b) s
