-- ===== src/Billing/CompanySettings.antt =====
-- services/billing/src/company-settings/services.ts and repository.ts: an administrator's change of the
-- sender's details, and the lookup of a tenant by its bankgiro number. The unique index on bankgiro of
-- migrations/0006_payments.js is checked where the row is written; the 409 is what the caller is told.
pub mod Laws
use faktureringssystemet.Prelude.{
  ℕ, Bool, true, false, ◌&&◌, ◌||◌, not, Option, none, some, List, [], ◌∷◌, String, or_else,
  if◌then◌else◌, ◌==◌, find_first, update_where, count_where, map,
}
use faktureringssystemet.Shared.Text.{Text}
use faktureringssystemet.Shared.Errors.{Error, Result, ok, err}
use faktureringssystemet.Shared.SwedishId.{
  is_valid_bankgiro, is_valid_org_number, normalize_bankgiro,
}
use faktureringssystemet.Shared.Tx.{Tx, pure, gets, modify, throw_if, or_throw, ◌>>=◌, ◌>>◌}
use faktureringssystemet.Billing.Store.{CompanySettingsRow, Db, RequestContext}
use faktureringssystemet.Billing.Invoices.Repository.{
  is_settings_of, upsert_settings, find_settings, write_audit_log,
}

pub record CompanySettingsPatch : Type 0 where
  pub company_name : Option String
  pub org_number : Option Text
  pub bankgiro : Option Text
  pub vat_number : Option String
  pub address_street : Option String
  pub address_zip : Option String
  pub address_city : Option String
  pub logo_url : Option String
  pub reminder_fee_ore : Option ℕ
  pub payment_terms_days : Option ℕ

-- A column that a patch names gets the patch's value.
abbrev set_column {ℓ} : {A : Type ℓ} → Option A → Option A → Option A
set_column none old = old
set_column (some new) old = some new

abbrev pub normalized : Option Text → Option Text
normalized none = none
normalized (some b) = some (normalize_bankgiro b)

abbrev pub patched : CompanySettingsPatch → CompanySettingsRow → CompanySettingsRow
patched p s = record s {
  company_name = set_column p.company_name s.company_name;
  org_number = set_column p.org_number s.org_number;
  bankgiro = set_column (normalized p.bankgiro) s.bankgiro;
  vat_number = set_column p.vat_number s.vat_number;
  address_street = set_column p.address_street s.address_street;
  address_zip = set_column p.address_zip s.address_zip;
  address_city = set_column p.address_city s.address_city;
  logo_url = set_column p.logo_url s.logo_url;
  reminder_fee_ore = or_else p.reminder_fee_ore s.reminder_fee_ore;
  payment_terms_days = or_else p.payment_terms_days s.payment_terms_days;
}

abbrev pub fails_on : (Text → Bool) → Option Text → Bool
fails_on valid none = false
fails_on valid (some s) = not (valid s)

abbrev pub same_text : Text → Text → Bool
same_text [] [] = true
same_text (a ∷ s) (b ∷ t) = a == b && same_text s t
same_text _ _ = false

abbrev pub has_bankgiro : Text → CompanySettingsRow → Bool
has_bankgiro b s = elim s.bankgiro [ none ↦ false | some c ↦ same_text c b ]

-- Another tenant's row has the bankgiro number that is to be written.
abbrev pub is_taken : ℕ → Option Text → List CompanySettingsRow → Bool
is_taken t none ss = false
is_taken t (some b) ss =
    not
      (count_where (λ (s : CompanySettingsRow). not (s.tenant_id == t) && has_bankgiro b s) ss == 0)

-- `lazyGet`
unfoldable pub lazy_get : ℕ → Tx Db (Unit {0})
lazy_get t = modify (λ db. record db { settings = upsert_settings t db.settings })

-- `CompanySettingsRepository.update`. A patch without a column changes no column.
unfoldable pub update_row : ℕ → CompanySettingsPatch → Tx Db CompanySettingsRow
update_row t p = do
  taken ← gets (λ (db : Db). is_taken t (normalized p.bankgiro) db.settings)
  throw_if taken Error.conflict
  modify (λ db. record db { settings = update_where (is_settings_of t) (patched p) db.settings })
  row ← gets (λ (db : Db). find_first (is_settings_of t) db.settings)
  or_throw row Error.plain_error

unfoldable pub update : RequestContext → CompanySettingsPatch → Tx Db CompanySettingsRow
update ctx patch = do
  throw_if (fails_on is_valid_bankgiro patch.bankgiro) Error.bad_request
  throw_if (fails_on is_valid_org_number patch.org_number) Error.bad_request
  lazy_get ctx.tenant_id
  row ← update_row ctx.tenant_id patch
  write_audit_log ctx "company_settings.updated" ctx.tenant_id
  pure row

-- `getForService`
unfoldable pub get_for_service : RequestContext → Tx Db CompanySettingsRow
get_for_service ctx = do or_throw (← find_settings ctx.tenant_id) Error.not_found

-- `resolveTenantByBankgiro`
unfoldable pub resolve_tenant_by_bankgiro : Text → Tx Db ℕ
resolve_tenant_by_bankgiro b = do
  row ←
      or_throw (← gets (λ (db : Db). find_first (has_bankgiro (normalize_bankgiro b)) db.settings))
        Error.not_found
  pure row.tenant_id
