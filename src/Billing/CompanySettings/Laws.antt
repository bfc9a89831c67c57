-- ===== src/Billing/CompanySettings/Laws.antt =====
-- What a change of the sender's details does.
use mathlib.Core.Option.{some-injective}
use mathlib.Core.Bool.{true≢false}
use faktureringssystemet.Prelude.Rows.{count_where-update_hit, found_updated}
use faktureringssystemet.Prelude.{
  ℕ, ◌≡◌, refl, sym, ap, ◌∙◌, inl, inr, Bool, true, false, ◌&&◌, not, Option, some, List, [], ◌∷◌,
  arith, ◌==◌, find_first, update_where, count_where, Bool-cases, Option-cases,
}
use faktureringssystemet.Shared.Text.{Text}
use faktureringssystemet.Shared.Errors.{ok}
use faktureringssystemet.Shared.SwedishId.{normalize_bankgiro}
use faktureringssystemet.Billing.Store.{CompanySettingsRow, Db, RequestContext}
use faktureringssystemet.Billing.Invoices.Repository.{
  is_settings_of, upsert_settings, write_audit_log,
}
use faktureringssystemet.Billing.Invoices.Ledger.{ledger_of, Steps, by, one_step, set_up}
use faktureringssystemet.Billing.CompanySettings.{
  CompanySettingsPatch, patched, normalized, same_text, has_bankgiro, is_taken, lazy_get,
  update_row, update, resolve_tenant_by_bankgiro,
}

update_effect :
    (ctx : RequestContext) (p : CompanySettingsPatch) (db db' : Db) (row : CompanySettingsRow)
    → update ctx p db ≡ ok (row, db')
    → let after = upsert_settings ctx.tenant_id db.settings in
      (is_taken ctx.tenant_id (normalized p.bankgiro) after ≡ false)
      × (db'.settings ≡ update_where (is_settings_of ctx.tenant_id) (patched p) after)
      × (find_first (is_settings_of ctx.tenant_id) db'.settings ≡ some row)
      × (db'.invoices ≡ db.invoices)
      × (db'.next_invoice_id ≡ db.next_invoice_id)
      × (db'.templates ≡ db.templates)
      × (db'.next_template_id ≡ db.next_template_id)
unfolding update lazy_get update_row write_audit_log
update_effect ctx p db db' row h =
    let after = upsert_settings ctx.tenant_id db.settings in
    let written = update_where (is_settings_of ctx.tenant_id) (patched p) after in
    elim (Bool-cases (is_taken ctx.tenant_id (normalized p.bankgiro) after)) [
      | inl taken ↦ absurd (ground arith)
      | inr free ↦ elim (Option-cases (find_first (is_settings_of ctx.tenant_id) written)) [
        | inl missing ↦ absurd (ground arith)
        | inr (r, there) ↦ (
          free,
          ground arith,
          ground arith,
          ground arith,
          ground arith,
          ground arith,
          ground arith,
        )
      ]
    ]

-- A change of the details is a step of the ledger.
pub update-Steps :
    (ctx : RequestContext) (p : CompanySettingsPatch) (db db' : Db) (row : CompanySettingsRow)
    → update ctx p db ≡ ok (row, db')
    → Steps (by ctx.tenant_id) (ledger_of db) (ledger_of db')
update-Steps ctx p db db' row h =
    let (free, same, there, rows, ids, templates, next) = update_effect ctx p db db' row h in
    rw (same, rows, ids, templates, next)
      (one_step (set_up ctx.tenant_id (patched p) (λ s. (refl, refl))))

same_text_refl : (s : Text) → same_text s s ≡ true
same_text_refl [] = refl
same_text_refl (c ∷ s) = ground (arith, same_text_refl s)

later_row :
    (t : ℕ) (b : Text) (x : CompanySettingsRow) (ss : List CompanySettingsRow)
    (row : CompanySettingsRow)
    → find_first (is_settings_of t) (x ∷ ss) ≡ some row
    → has_bankgiro b row ≡ true
    → has_bankgiro b x ≡ false
    → find_first (is_settings_of t) ss ≡ some row
later_row t b x ss row h k lacks = elim (Bool-cases (is_settings_of t x)) [
  | inr other ↦ sym (rw other refl) ∙ h
  | inl own ↦
      let same : x ≡ row = some-injective x row (sym (rw own refl) ∙ h) in
      absurd (true≢false (sym (ap (has_bankgiro b) same ∙ k) ∙ lacks))
]

-- The first row with a number that only tenant `t` may have is tenant `t`'s.
owner_found :
    (t : ℕ) (b : Text) (ss : List CompanySettingsRow) (row : CompanySettingsRow)
    → count_where (λ (s : CompanySettingsRow). not (s.tenant_id == t) && has_bankgiro b s) ss ≡ 0
    → find_first (is_settings_of t) ss ≡ some row
    → has_bankgiro b row ≡ true
    → (s : CompanySettingsRow) × (find_first (has_bankgiro b) ss ≡ some s) × (s.tenant_id ≡ t)
owner_found t b [] row free h k = absurd (ground arith)
owner_found t b (x ∷ ss) row free h k = elim (Bool-cases (has_bankgiro b x)) [
  | inl has ↦ (x, rw has refl, ground arith)
  | inr lacks ↦
      let (s, found, own) =
        owner_found t b ss row (ground arith) (later_row t b x ss row h k lacks) k in
      (s, rw lacks found, own)
]

patched_bankgiro :
    (p : CompanySettingsPatch) (b : Text) (s : CompanySettingsRow)
    → p.bankgiro ≡ some b
    → (patched p s).bankgiro ≡ some (normalize_bankgiro b)
patched_bankgiro p b s e = rw e refl

named_has : (n : Text) (s : CompanySettingsRow) → s.bankgiro ≡ some n → has_bankgiro n s ≡ true
named_has n s h = rw h (same_text_refl n)

own_row :
    (t : ℕ) (x : CompanySettingsRow) (a b : Bool)
    → (x.tenant_id == t) ≡ true
    → (not (x.tenant_id == t) && a) ≡ (not (x.tenant_id == t) && b)
own_row t x a b h = rw h refl

free_count :
    (t : ℕ) (b : Text) (o : Option Text) (ss : List CompanySettingsRow)
    → o ≡ some b
    → is_taken t (normalized o) ss ≡ false
    → count_where
        (λ (s : CompanySettingsRow).
          not (s.tenant_id == t) && has_bankgiro (normalize_bankgiro b) s)
        ss
      ≡ 0
free_count t b o ss e h =
    let k : is_taken t (some (normalize_bankgiro b)) ss ≡ false = sym (rw e refl) ∙ h in
    ground arith

-- A bankgiro number that was written leads payments to the tenant that wrote it, in the form in which it
-- was entered, and to no other tenant.
pub update_resolves :
    (ctx : RequestContext) (p : CompanySettingsPatch) (b : Text) (db db' : Db)
    (row : CompanySettingsRow)
    → update ctx p db ≡ ok (row, db')
    → p.bankgiro ≡ some b
    → resolve_tenant_by_bankgiro b db' ≡ ok (ctx.tenant_id, db')
unfolding resolve_tenant_by_bankgiro
update_resolves ctx p b db db' row h e =
    let (free, same, there, rows, ids, templates, next) = update_effect ctx p db db' row h in
    let n = normalize_bankgiro b in
    let (s, written) =
      found_updated (is_settings_of ctx.tenant_id) (patched p)
        (upsert_settings ctx.tenant_id db.settings) row (λ x. refl)
        (sym (ap (find_first (is_settings_of ctx.tenant_id)) same) ∙ there) in
    let named : row.bankgiro ≡ some n =
      ap (λ (r : CompanySettingsRow). r.bankgiro) written ∙ patched_bankgiro p b s e in
    let has : has_bankgiro n row ≡ true = named_has n row named in
    let others =
      count_where-update_hit
        (λ (x : CompanySettingsRow). not (x.tenant_id == ctx.tenant_id) && has_bankgiro n x)
        (is_settings_of ctx.tenant_id) (patched p) (upsert_settings ctx.tenant_id db.settings)
        (λ x hit. own_row ctx.tenant_id x _ _ hit) in
    let z =
      free_count ctx.tenant_id b p.bankgiro (upsert_settings ctx.tenant_id db.settings) e free in
    let (o, found, own) =
      owner_found ctx.tenant_id n db'.settings row
        (ap
            (count_where
              (λ (x : CompanySettingsRow). not (x.tenant_id == ctx.tenant_id) && has_bankgiro n x))
            same
          ∙ others
          ∙ z)
        there has in
    rw found (ap (λ t. ok (t, db')) own)
