-- ===== src/Billing/Invoices/Ledger/Tenants.antt =====
-- The steps of the ledger for one tenant and what belongs to the others.
use faktureringssystemet.Prelude.{
  count_where, count_where-append, find_first_holds, ◌⊎◌, ◌<◌, sym, not, ◌&&◌, ℕ, ◌≡◌, ◌∙◌, refl,
  ap, inl, inr, Bool, true, false, List, [], ◌∷◌, ◌++◌, arith, ◌==◌, select, find_first, Bool-cases,
  Option-cases, update_where,
}
use faktureringssystemet.Prelude.Rows.{
  select-update_where, select-delete_where, select-append_other, select-update_none, count_found,
  count_where-delete_where,
}
use faktureringssystemet.Billing.Store.{InvoiceStatus, InvoiceRow, CompanySettingsRow}
use faktureringssystemet.Billing.Invoices.Repository.{
  is_invoice, with_draft_fields, as_sent, with_status, as_superseded, is_past_due, is_settings_of,
  default_settings, upsert_settings, bumped,
}
use faktureringssystemet.Billing.Paging.Laws.{count_where-select}
use faktureringssystemet.Billing.Invoices.Templates.{is_generated_from, without_template}
use faktureringssystemet.Billing.Payments.{is_covered}
use faktureringssystemet.Billing.Deliveries.{is_behind, with_delivery}
use faktureringssystemet.Billing.Invoices.Ledger.{
  Ledger, is_owner, add_template, delete_template, next_number, Step, Steps, done, then_step,
  add_draft, edit_draft, delete_draft, send_draft, issue, move_status, replace_by, fall_due, pay,
  deliver, set_up,
}

abbrev pub is_of : ℕ → InvoiceRow → Bool
is_of t r = r.tenant_id == t

-- What a tenant has in the ledger: its invoices in their order, and its settings.
abbrev pub SameFor : ℕ → Ledger → Ledger → Type 0
SameFor t l m =
    (select (is_of t) m.rows ≡ select (is_of t) l.rows)
    × (select (is_settings_of t) m.settings ≡ select (is_settings_of t) l.settings)

-- Only rows of other tenants pass the test.
abbrev Misses : ℕ → (InvoiceRow → Bool) → Type 0
Misses t p = (r : InvoiceRow) → p r ≡ true → is_of t r ≡ false

invoice-Misses : (u t i : ℕ) → (u == t) ≡ false → Misses t (is_invoice u i)
invoice-Misses u t i h r k = ground arith

covered-Misses : (u t i paid : ℕ) → (u == t) ≡ false → Misses t (is_covered u i paid)
covered-Misses u t i paid h r k = invoice-Misses u t i h r (ground arith)

upsert_other :
    (u t : ℕ) (ss : List CompanySettingsRow)
    → (u == t) ≡ false
    → select (is_settings_of t) (upsert_settings u ss) ≡ select (is_settings_of t) ss
upsert_other u t ss h = elim (Option-cases (find_first (is_settings_of u) ss)) [
  | inl missing ↦
      let new : upsert_settings u ss ≡ ss ++ default_settings u ∷ [] = ground arith in
      ap (select (is_settings_of t)) new
      ∙ select-append_other (is_settings_of t) ss (default_settings u) h
  | inr (s, found) ↦
      let kept : upsert_settings u ss ≡ ss = ground arith in ap (select (is_settings_of t)) kept
]

settings_other :
    (u t : ℕ) (f : CompanySettingsRow → CompanySettingsRow) (ss : List CompanySettingsRow)
    → (u == t) ≡ false
    → ((s : CompanySettingsRow) → (f s).tenant_id ≡ s.tenant_id)
    → select (is_settings_of t) (update_where (is_settings_of u) f (upsert_settings u ss))
      ≡ select (is_settings_of t) ss
settings_other u t f ss h keeps =
    select-update_where (is_settings_of t) (is_settings_of u) f (upsert_settings u ss)
      (λ s k. ground arith) (λ s. rw (keeps s) refl)
    ∙ upsert_other u t ss h

-- The templates of other tenants under an id.
abbrev pub strangers : ℕ → ℕ → Ledger → ℕ
strangers t i l = count_where (λ o. o.template_id == i && not (o.tenant_id == t)) l.owners

-- The tenant's invoices that came from a template.
abbrev pub offspring : ℕ → ℕ → Ledger → ℕ
offspring t i l = count_where (λ r. is_of t r && is_generated_from i r) l.rows

-- A tenant's invoices come from no template of another tenant, and from none that is yet to be.
abbrev pub HasOwn : ℕ → Ledger → Type 0
HasOwn t l = (i : ℕ) → (offspring t i l ≡ 0) ⊎ ((strangers t i l ≡ 0) × (i < l.next_template_id))

offspring-select :
    (t i : ℕ) (l : Ledger)
    → offspring t i l ≡ count_where (is_generated_from i) (select (is_of t) l.rows)
offspring-select t i l = sym (count_where-select (is_generated_from i) (is_of t) l.rows)

-- Where the rows of the tenant are the same, its invoices come from the same templates.
same-HasOwn :
    (t : ℕ) (l m : Ledger)
    → select (is_of t) m.rows ≡ select (is_of t) l.rows
    → ((i : ℕ)
        → strangers t i l ≡ 0
        → i < l.next_template_id
        → (strangers t i m ≡ 0) × (i < m.next_template_id))
    → HasOwn t l
    → HasOwn t m
same-HasOwn t l m same keeps own i = elim (own i) [
  | inl none_ ↦ inl (
      offspring-select t i m
      ∙ ap (count_where (is_generated_from i)) same
      ∙ sym (offspring-select t i l)
      ∙ none_)
  | inr (free, below) ↦ inr (keeps i free below)
]

-- A step for one tenant leaves what any other has as it was.
Step-SameFor :
    (t : ℕ) {l : Ledger} {u : ℕ} {m : Ledger}
    → Step l u m
    → (u == t) ≡ false
    → HasOwn t l
    → SameFor t l m
Step-SameFor t {l} (add_draft r e d n) h own = (select-append_other (is_of t) l.rows r h, refl)
Step-SameFor t {l} (edit_draft u i r x f d) h own = (
  select-update_where (is_of t) (is_invoice u i) (with_draft_fields x) l.rows
      (invoice-Misses u t i h) (λ y. refl),
  refl,
)
Step-SameFor t {l} (delete_draft u i r f d) h own =
    (select-delete_where (is_of t) (is_invoice u i) l.rows (invoice-Misses u t i h), refl)
Step-SameFor t {l} (send_draft u i r ocr f d o) h own = (
  select-update_where (is_of t) (is_invoice u i) (as_sent (next_number u l) ocr) l.rows
      (invoice-Misses u t i h) (λ y. refl),
  settings_other u t bumped l.settings h (λ s. refl),
)
Step-SameFor t {l} (issue r ocr e d n o1 o2) h own = (
  select-append_other (is_of t) l.rows r h,
  settings_other r.tenant_id t bumped l.settings h (λ s. refl),
)
Step-SameFor t {l} (move_status u i r s f w) h own = (
  select-update_where (is_of t) (is_invoice u i) (with_status s) l.rows (invoice-Misses u t i h)
      (λ y. refl),
  refl,
)
Step-SameFor t {l} (replace_by u i by r f w) h own = (
  select-update_where (is_of t) (is_invoice u i) (as_superseded by) l.rows (invoice-Misses u t i h)
      (λ y. refl),
  refl,
)
Step-SameFor t {l} (fall_due u today) h own = (
  select-update_where (is_of t) (is_past_due u today) (with_status InvoiceStatus.overdue) l.rows
      (λ r k. ground arith) (λ y. refl),
  refl,
)
Step-SameFor t {l} (pay u i paid) h own = (
  select-update_where (is_of t) (is_covered u i paid) (with_status InvoiceStatus.paid) l.rows
      (covered-Misses u t i paid h) (λ y. refl),
  refl,
)
Step-SameFor t {l} (deliver u i next) h own = (
  select-update_where (is_of t) (is_behind u i next) (with_delivery next) l.rows
      (λ r k. invoice-Misses u t i h r (ground arith)) (λ y. refl),
  refl,
)
Step-SameFor t {l} (set_up u f keeps) h own =
    (refl, settings_other u t f l.settings h (λ s. (keeps s).0))
Step-SameFor t (add_template u) h own = (refl, refl)
Step-SameFor t {l} (delete_template u i o found) h own =
    let stranger : (o.template_id == i && not (o.tenant_id == t)) ≡ true =
      let k = find_first_holds (is_owner u i) l.owners {a = o} found in ground (arith, h, k) in
    let some_ =
      count_found (is_owner u i) (λ x. x.template_id == i && not (x.tenant_id == t)) l.owners
        {r = o} found stranger in
    let none_ : offspring t i l ≡ 0 = elim (own i) [
      | inl none_ ↦ none_
      | inr (free, below) ↦ absurd (omega (arith, some_, free))
    ] in
    (
      select-update_none (is_of t) (is_generated_from i) without_template l.rows none_ (λ y. refl),
      refl,
    )

-- A step adds no template of another tenant under an id that was given.
Step-strangers :
    (t : ℕ) {l : Ledger} {u : ℕ} {m : Ledger}
    → Step l u m
    → (u == t) ≡ false
    → (i : ℕ) → strangers t i l ≡ 0
    → i < l.next_template_id
    → (strangers t i m ≡ 0) × (i < m.next_template_id)
Step-strangers t {l} (add_template u) h i free below =
    let c =
      count_where-append (λ o. o.template_id == i && not (o.tenant_id == t)) l.owners
        (record { template_id = l.next_template_id; tenant_id = u } ∷ []) in
    (ground (arith, c, free, below), omega (arith, below))
Step-strangers t {l} (delete_template u j o f) h i free below =
    let fewer =
      count_where-delete_where (λ x. x.template_id == i && not (x.tenant_id == t)) (is_owner u j)
        l.owners in
    (omega (arith, fewer, free), below)
Step-strangers t (add_draft r e d n) h i free below = (free, below)
Step-strangers t (edit_draft u j r x f d) h i free below = (free, below)
Step-strangers t (delete_draft u j r f d) h i free below = (free, below)
Step-strangers t (send_draft u j r ocr f d o) h i free below = (free, below)
Step-strangers t (issue r ocr e d n o1 o2) h i free below = (free, below)
Step-strangers t (move_status u j r s f w) h i free below = (free, below)
Step-strangers t (replace_by u j by r f w) h i free below = (free, below)
Step-strangers t (fall_due u today) h i free below = (free, below)
Step-strangers t (pay u j paid) h i free below = (free, below)
Step-strangers t (deliver u j next) h i free below = (free, below)
Step-strangers t (set_up u f keeps) h i free below = (free, below)

-- A step for another tenant gives none of its templates to the tenant's invoices.
Step-HasOwn :
    (t : ℕ) {l : Ledger} {u : ℕ} {m : Ledger}
    → Step l u m
    → (u == t) ≡ false
    → HasOwn t l
    → HasOwn t m
Step-HasOwn t {l} {u} {m} s h own =
    same-HasOwn t l m (Step-SameFor t s h own).0 (Step-strangers t s h) own

other_than : (t u : ℕ) (p : ℕ → Bool) → p t ≡ false → p u ≡ true → (u == t) ≡ false
other_than t u p h k = elim (Bool-cases (u == t)) [
  | inr f ↦ f
  | inl e ↦ let same : u ≡ t = ground arith in absurd (ground (arith, ap p same))
]

-- Steps for other tenants leave what a tenant has as it was.
pub Steps-SameFor :
    (t : ℕ) {p : ℕ → Bool} {l m : Ledger}
    → Steps p l m
    → p t ≡ false
    → HasOwn t l
    → SameFor t l m × HasOwn t m
Steps-SameFor t done h own = ((refl, refl), own)
Steps-SameFor t {p} (then_step {t = u} k before s) h own =
    let ((rows, settings), own') = Steps-SameFor t before h own in
    let other = other_than t u p h k in
    let (rows', settings') = Step-SameFor t s other own' in
    ((rows' ∙ rows, settings' ∙ settings), Step-HasOwn t s other own')
