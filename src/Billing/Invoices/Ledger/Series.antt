-- ===== src/Billing/Invoices/Ledger/Series.antt =====
-- The invariant of the ledger: an id is given once, and the numbers of a tenant's invoices are those
-- from 1 up to its next number, each given to exactly one invoice.
use faktureringssystemet.Prelude.{
  ℕ, ◌+◌, ◌≤◌, ◌≡◌, ◌≢◌, refl, ap, inl, inr, Bool, false, ◌&&◌, Option, none, some, List, [], ◌∷◌,
  ◌++◌, arith, ltb, leb, ◌==◌, Bool-cases, Option-cases, find_first, update_where, count_where,
  find_first-append, ◌∙◌, All,
}
use faktureringssystemet.Prelude.Rows.{
  as_count, find_first-append_none, find_updated, find_none_updated,
}
use faktureringssystemet.Billing.Store.{InvoiceStatus, InvoiceRow, CompanySettingsRow}
use faktureringssystemet.Billing.Invoices.Repository.{
  default_settings, settings_or_default, upsert_settings, is_settings_of, bumped,
}
use faktureringssystemet.Billing.Invoices.Ledger.{Ledger, next_number, taken}

abbrev pub has_id : ℕ → InvoiceRow → Bool
has_id i r = r.id == i

abbrev pub is_numbered : Option ℕ → ℕ → Bool
is_numbered none n = false
is_numbered (some m) n = m == n

abbrev pub has_number : ℕ → ℕ → InvoiceRow → Bool
has_number t n r = r.tenant_id == t && is_numbered r.invoice_number n

-- A draft has no number.
abbrev pub IsNumberless : InvoiceRow → Type 0
IsNumberless r = r.status ≡ InvoiceStatus.draft → r.invoice_number ≡ none

pub record IsUnbroken (l : Ledger) : Type 0 where
  pub ids : (i : ℕ) → count_where (has_id i) l.rows ≤ as_count (ltb i l.next_id)
  pub series :
      (t n : ℕ)
      → count_where (has_number t n) l.rows ≡ as_count (leb 1 n && ltb n (next_number t l))
  pub drafts : All IsNumberless l.rows
  pub started : (t : ℕ) → 1 ≤ next_number t l

next_bumped :
    (t t' : ℕ) (ss : List CompanySettingsRow) {s : CompanySettingsRow}
    → find_first (is_settings_of t) ss ≡ some s
    → (settings_or_default t (update_where (is_settings_of t') bumped ss)).next_invoice_number
      ≡ s.next_invoice_number + as_count (t == t')
next_bumped t t' [] h = absurd (ground arith)
next_bumped t t' (x ∷ ss) {s} h = ground (arith, next_bumped t t' ss {s = s})

next_bumped_none :
    (t t' : ℕ) (ss : List CompanySettingsRow)
    → find_first (is_settings_of t) ss ≡ none
    → find_first (is_settings_of t) (update_where (is_settings_of t') bumped ss) ≡ none
next_bumped_none t t' [] h = refl
next_bumped_none t t' (x ∷ ss) h = ground (arith, next_bumped_none t t' ss)

next_other :
    (t t' : ℕ) (ss : List CompanySettingsRow)
    → t ≢ t'
    → find_first (is_settings_of t) (ss ++ default_settings t' ∷ [])
      ≡ find_first (is_settings_of t) ss
next_other t t' [] h = ground arith
next_other t t' (x ∷ ss) h = ground (arith, next_other t t' ss)

-- Taking a number moves the next number of that tenant on by one and of no other.
pub next_taken :
    (t t' : ℕ) (ss : List CompanySettingsRow)
    → (settings_or_default t (taken t' ss)).next_invoice_number
      ≡ (settings_or_default t ss).next_invoice_number + as_count (t == t')
next_taken t t' ss = elim (Option-cases (find_first (is_settings_of t') ss)) [
  | inr (s', there) ↦ elim (Option-cases (find_first (is_settings_of t) ss)) [
    | inr (s, known) ↦ grind (arith, next_bumped t t' ss known)
    | inl missing ↦ grind (arith, next_bumped_none t t' ss missing)
  ]
  | inl new ↦ elim (Bool-cases (t == t')) [
    | inl same ↦
        let e : t ≡ t' = ground arith in
        let f =
          find_first-append_none (is_settings_of t) ss (default_settings t' ∷ []) (rw e new) in
        let g : find_first (is_settings_of t) (ss ++ default_settings t' ∷ [])
            ≡ some (default_settings t') =
          ground arith in
        grind (arith, next_bumped t t' (ss ++ default_settings t' ∷ []) g)
    | inr other ↦
        let e = next_other t t' ss (ground arith) in
        elim (Option-cases (find_first (is_settings_of t) ss)) [
          | inr (s, known) ↦
              grind (arith, next_bumped t t' (ss ++ default_settings t' ∷ []) (e ∙ known))
          | inl missing ↦
              grind (arith, next_bumped_none t t' (ss ++ default_settings t' ∷ []) (e ∙ missing))
        ]
  ]
]

-- The row that is added at first use has the number that is read without it.
upserted_next :
    (t t' : ℕ) (ss : List CompanySettingsRow) (s : CompanySettingsRow)
    → find_first (is_settings_of t) (upsert_settings t' ss) ≡ some s
    → s.next_invoice_number ≡ (settings_or_default t ss).next_invoice_number
upserted_next t t' ss s h = elim (Option-cases (find_first (is_settings_of t') ss)) [
  | inr (s', there) ↦ ground arith
  | inl new ↦ elim (Option-cases (find_first (is_settings_of t) ss)) [
    | inr (r, known) ↦
        let e = find_first-append (is_settings_of t) ss (default_settings t' ∷ []) known in
        ground arith
    | inl missing ↦
        let e = find_first-append_none (is_settings_of t) ss (default_settings t' ∷ []) missing in
        ground arith
  ]
]

upserted_none :
    (t t' : ℕ) (ss : List CompanySettingsRow)
    → find_first (is_settings_of t) (upsert_settings t' ss) ≡ none
    → 1 ≡ (settings_or_default t ss).next_invoice_number
upserted_none t t' ss h = elim (Option-cases (find_first (is_settings_of t) ss)) [
  | inl missing ↦ ground arith
  | inr (r, known) ↦ elim (Option-cases (find_first (is_settings_of t') ss)) [
    | inr (s', there) ↦ absurd (ground arith)
    | inl new ↦
        let e = find_first-append (is_settings_of t) ss (default_settings t' ∷ []) known in
        absurd (ground arith)
  ]
]

-- A change of the settings that keeps the numbers moves no series on.
pub next_kept :
    (t t' : ℕ) (f : CompanySettingsRow → CompanySettingsRow) (ss : List CompanySettingsRow)
    → ((s : CompanySettingsRow)
        → ((f s).tenant_id ≡ s.tenant_id) × ((f s).next_invoice_number ≡ s.next_invoice_number))
    → (settings_or_default t
        (update_where (is_settings_of t') f (upsert_settings t' ss))).next_invoice_number
      ≡ (settings_or_default t ss).next_invoice_number
next_kept t t' f ss keeps =
    let tests : (x : CompanySettingsRow) → is_settings_of t (f x) ≡ is_settings_of t x =
      λ x. ap (λ i. i == t) (keeps x).0 in
    elim (Option-cases (find_first (is_settings_of t) (upsert_settings t' ss))) [
      | inr (s, there) ↦
          let e =
            find_updated (is_settings_of t) (is_settings_of t') f (upsert_settings t' ss) tests
              there in
          let same : s.next_invoice_number ≡ (settings_or_default t ss).next_invoice_number =
            upserted_next t t' ss s there in
          let k = (keeps s).1 in
          elim (Bool-cases (is_settings_of t' s)) [
            | inl hit ↦ ground arith
            | inr miss ↦ ground arith
          ]
      | inl missing ↦
          let e =
            find_none_updated (is_settings_of t) (is_settings_of t') f (upsert_settings t' ss) tests
              missing in
          let n = upserted_none t t' ss missing in ground arith
    ]
