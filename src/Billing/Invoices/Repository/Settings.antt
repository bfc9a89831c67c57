-- ===== src/Billing/Invoices/Repository/Settings.antt =====
-- The queries on the number series of services/billing/src/company-settings/repository.ts, and the writers
-- of services/billing/src/audit.ts and packages/shared/src/outbox/index.ts.
use faktureringssystemet.Prelude.{
  ℕ, ◌+◌, Bool, Option, none, some, List, [], ◌∷◌, ◌++◌, String, ◌==◌, find_first, update_where,
}
use faktureringssystemet.Shared.Tx.{Tx, pure, gets, modify, ◌>>=◌, ◌>>◌}
use faktureringssystemet.Billing.Store.{CompanySettingsRow, EventPayload, Db, RequestContext}

-- The defaults of a row that is created at its first use.
abbrev pub default_settings : ℕ → CompanySettingsRow
default_settings t = record {
  tenant_id = t;
  company_name = none;
  org_number = none;
  bankgiro = none;
  vat_number = none;
  address_street = none;
  address_zip = none;
  address_city = none;
  logo_url = none;
  next_invoice_number = 1;
  reminder_fee_ore = 6000;
  payment_terms_days = 30;
}

abbrev pub is_settings_of : ℕ → CompanySettingsRow → Bool
is_settings_of t s = s.tenant_id == t

abbrev pub settings_or_default : ℕ → List CompanySettingsRow → CompanySettingsRow
settings_or_default t ss = elim (find_first (is_settings_of t) ss) [
  | none ↦ default_settings t
  | some s ↦ s
]

abbrev pub upsert_settings : ℕ → List CompanySettingsRow → List CompanySettingsRow
upsert_settings t ss = elim (find_first (is_settings_of t) ss) [
  | none ↦ ss ++ default_settings t ∷ []
  | some s ↦ ss
]

-- `CompanySettingsRepository.find`
unfoldable pub find_settings : ℕ → Tx Db (Option CompanySettingsRow)
find_settings t = gets (λ db. find_first (is_settings_of t) db.settings)

-- `CompanySettingsRepository.lockForUpdate`: insert the row if it is missing, then read it.
unfoldable pub lock_for_update : ℕ → Tx Db CompanySettingsRow
lock_for_update t = do
  s ← gets (λ (db : Db). settings_or_default t db.settings)
  modify (λ db. record db { settings = upsert_settings t db.settings })
  pure s

abbrev pub bumped : CompanySettingsRow → CompanySettingsRow
bumped s = record s { next_invoice_number = s.next_invoice_number + 1 }

-- `CompanySettingsRepository.bumpInvoiceNumber`
unfoldable pub bump_invoice_number : ℕ → Tx Db (Unit {0})
bump_invoice_number t =
    modify (λ db. record db { settings = update_where (is_settings_of t) bumped db.settings })

-- `writeEvent`, into billing's outbox.
unfoldable pub write_event : RequestContext → EventPayload → Tx Db (Unit {0})
write_event ctx payload = modify (λ db. record db {
  outbox =
      db.outbox
      ++ record {
        tenant_id = ctx.tenant_id;
        correlation_id = ctx.correlation_id;
        payload = payload;
      }
        ∷ [];
})

-- `writeAuditLog` for a logged-in user, and for the nightly job.
unfoldable pub write_audit_log : RequestContext → String → ℕ → Tx Db (Unit {0})
write_audit_log ctx action resource = modify (λ db. record db {
  audit_log =
      db.audit_log
      ++ record {
        tenant_id = ctx.tenant_id;
        actor_user_id = some ctx.user_id;
        actor_service = none;
        action = action;
        resource_id = resource;
        correlation_id = ctx.correlation_id;
      }
        ∷ [];
})

unfoldable pub write_cron_audit_log : RequestContext → String → ℕ → Tx Db (Unit {0})
write_cron_audit_log ctx action resource = modify (λ db. record db {
  audit_log =
      db.audit_log
      ++ record {
        tenant_id = ctx.tenant_id;
        actor_user_id = none;
        actor_service = some "billing-cron";
        action = action;
        resource_id = resource;
        correlation_id = ctx.correlation_id;
      }
        ∷ [];
})
