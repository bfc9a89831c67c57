-- ===== src/Billing/Invoices/Ledger/Frozen.antt =====
-- The steps of the ledger and an invoice that was sent.
use faktureringssystemet.Prelude.{
  ℕ, ◌≤◌, ◌≡◌, ◌≢◌, ◌∙◌, refl, sym, inl, inr, ◌⊎◌, Option, none, Bool, true, some, arith,
  Bool-cases, update_where, find_first-append, find_first_holds,
}
use faktureringssystemet.Prelude.Rows.{find_updated, find_kept}
use faktureringssystemet.Billing.Store.{InvoiceStatus, InvoiceRow}
use faktureringssystemet.Billing.Invoices.Repository.{
  is_invoice, with_draft_fields, as_sent, with_status, as_superseded, is_past_due,
}
use faktureringssystemet.Billing.Invoices.Templates.{is_generated_from, without_template}
use faktureringssystemet.Billing.Payments.{is_bookable, is_covered}
use faktureringssystemet.Billing.Deliveries.{delivery_rank, is_behind, with_delivery}
use faktureringssystemet.Billing.Invoices.Ledger.{
  Ledger, next_number, find, Follows, Follows-not_draft, Step, Steps, done, then_step, add_draft,
  edit_draft, delete_draft, send_draft, issue, move_status, replace_by, fall_due, pay, deliver,
  set_up, add_template, delete_template,
}

-- The statuses that may be reached from a status.
pub data Later (s : InvoiceStatus) : InvoiceStatus → Type 0 where
  same : Later s s
  further : {u v : InvoiceStatus} → Later s u → Follows u v → Later s v

-- The template that an invoice came from is the one it was, or is forgotten.
abbrev pub KeepsTemplate : Option ℕ → Option ℕ → Type 0
KeepsTemplate p p' = (p' ≡ p) ⊎ (p' ≡ none)

-- The invoice is the one it was, but for a later status, a delivery that has come further, the
-- reminder that replaced it, and a template that was deleted.
abbrev pub Keeps : InvoiceRow → InvoiceRow → Type 0
Keeps r r' =
    Later r.status r'.status
    × (delivery_rank r.delivery_status ≤ delivery_rank r'.delivery_status)
    × KeepsTemplate r.parent_template_id r'.parent_template_id
    × (r' ≡ record r {
      status = r'.status;
      delivery_status = r'.delivery_status;
      superseded_by_invoice_id = r'.superseded_by_invoice_id;
      parent_template_id = r'.parent_template_id;
    })

template_trans :
    (p p' p2 : Option ℕ) → KeepsTemplate p p' → KeepsTemplate p' p2 → KeepsTemplate p p2
template_trans p p' p2 k (inr gone) = inr gone
template_trans p p' p2 (inl a) (inl b) = inl (b ∙ a)
template_trans p p' p2 (inr a) (inl b) = inr (b ∙ a)

Later-trans : {s u v : InvoiceStatus} → Later s u → Later u v → Later s v
Later-trans a same = a
Later-trans a (further b f) = further (Later-trans a b) f

Keeps-trans : (r r' r2 : InvoiceRow) → Keeps r r' → Keeps r' r2 → Keeps r r2
Keeps-trans r r' r2 (a, d, p, e) (b, d2, p2, f) = (
  Later-trans a b,
  omega arith,
  template_trans r.parent_template_id r'.parent_template_id r2.parent_template_id p p2,
  cc,
)

Later-not_draft :
    {s u : InvoiceStatus} → Later s u → s ≢ InvoiceStatus.draft → u ≢ InvoiceStatus.draft
Later-not_draft same h = h
Later-not_draft (further a f) h = Follows-not_draft f

-- What is at an id after a step, if it was at that id before.
abbrev pub StillThere : ℕ → ℕ → InvoiceRow → Ledger → Type 0
StillThere t i r m = (r' : InvoiceRow) × (find t i m ≡ some r') × Keeps r r'

updated :
    (l : Ledger) (t i : ℕ) (r : InvoiceRow) (p : InvoiceRow → Bool) (f : InvoiceRow → InvoiceRow)
    → find t i l ≡ some r
    → ((x : InvoiceRow) → is_invoice t i (f x) ≡ is_invoice t i x)
    → (p r ≡ true → Keeps r (f r))
    → StillThere t i r (record l { rows = update_where p f l.rows })
updated l t i r p f found h k =
    let e = find_updated (is_invoice t i) p f l.rows h found in
    elim (Bool-cases (p r)) [
      | inl hit ↦ (f r, ground arith, k hit)
      | inr miss ↦ (r, ground arith, (same, omega arith, inl refl, refl))
    ]

-- Two rows found by tests that the first passes both are one.
same_row :
    (l : Ledger) (t i t' i' : ℕ) (r r' : InvoiceRow)
    → find t i l ≡ some r
    → find t' i' l ≡ some r'
    → is_invoice t' i' r ≡ true
    → r' ≡ r
same_row l t i t' i' r r' h h' k =
    let a = find_first_holds (is_invoice t i) l.rows h in
    let e : i' ≡ i = ground arith in
    let d : t' ≡ t = ground arith in
    let k2 : find t' i' l ≡ some r = rw (e, d) h in
    let g : some r' ≡ some r = sym h' ∙ k2 in ground arith

bookable-Follows : (s : InvoiceStatus) → is_bookable s ≡ true → Follows s InvoiceStatus.paid
bookable-Follows InvoiceStatus.sent h = Follows.paid_on_time
bookable-Follows InvoiceStatus.overdue h = Follows.paid_late
bookable-Follows _ h = absurd (ground arith)

-- A step keeps every invoice that is not a draft.
Step-StillThere :
    {l : Ledger} {u : ℕ} {m : Ledger} (t i : ℕ) (r : InvoiceRow)
    → Step l u m
    → find t i l ≡ some r
    → r.status ≢ InvoiceStatus.draft
    → StillThere t i r m
Step-StillThere {l} t i r (add_draft x e d n) h k =
    (r, find_first-append (is_invoice t i) l.rows _ h, (same, omega arith, inl refl, refl))
Step-StillThere {l} t i r (edit_draft t' i' r' x f d) h k =
    updated l t i r (is_invoice t' i') (with_draft_fields x) h (λ y. refl)
      (λ hit. let e = same_row l t i t' i' r r' h f hit in absurd (k (rw (← e) d)))
Step-StillThere {l} t i r (delete_draft t' i' r' f d) h k = elim (Bool-cases (is_invoice t' i' r)) [
  | inl hit ↦ let e = same_row l t i t' i' r r' h f hit in absurd (k (rw (← e) d))
  | inr miss ↦
      let a = find_first_holds (is_invoice t i) l.rows h in
      (
        r,
        find_kept (is_invoice t i) (is_invoice t' i') l.rows (λ x e. ground arith) h,
        (same, omega arith, inl refl, refl),
      )
]
Step-StillThere {l} t i r (send_draft t' i' r' ocr f d o) h k =
    updated l t i r (is_invoice t' i') (as_sent (next_number t' l) ocr) h (λ y. refl)
      (λ hit. let e = same_row l t i t' i' r r' h f hit in absurd (k (rw (← e) d)))
Step-StillThere {l} t i r (issue x ocr e d n o1 o2) h k =
    (r, find_first-append (is_invoice t i) l.rows _ h, (same, omega arith, inl refl, refl))
Step-StillThere {l} t i r (move_status t' i' r' s f w) h k =
    updated l t i r (is_invoice t' i') (with_status s) h (λ y. refl)
      (λ hit.
        let e = same_row l t i t' i' r r' h f hit in
        (further same (rw (← e) w), omega arith, inl refl, refl))
Step-StillThere {l} t i r (replace_by t' i' by r' f w) h k =
    updated l t i r (is_invoice t' i') (as_superseded by) h (λ y. refl)
      (λ hit.
        let e = same_row l t i t' i' r r' h f hit in
        (further same (rw (← e) w), omega arith, inl refl, refl))
Step-StillThere {l} t i r (fall_due t' today) h k =
    updated l t i r (is_past_due t' today) (with_status InvoiceStatus.overdue) h (λ y. refl)
      (λ hit.
        let e : r.status ≡ InvoiceStatus.sent = ground arith in
        (further same (rw e Follows.due), omega arith, inl refl, refl))
Step-StillThere {l} t i r (pay t' i' paid) h k =
    updated l t i r (is_covered t' i' paid) (with_status InvoiceStatus.paid) h (λ y. refl)
      (λ hit.
        (further same (bookable-Follows r.status (ground arith)), omega arith, inl refl, refl))
Step-StillThere {l} t i r (deliver t' i' next) h k =
    updated l t i r (is_behind t' i' next) (with_delivery next) h (λ y. refl)
      (λ hit. (same, ground arith, inl refl, refl))
Step-StillThere t i r (add_template u) h k = (r, h, (same, omega arith, inl refl, refl))
Step-StillThere {l} t i r (delete_template u j o f) h k =
    updated l t i r (is_generated_from j) without_template h (λ y. refl)
      (λ hit. (same, omega arith, inr refl, refl))
Step-StillThere t i r (set_up t' f keeps) h k = (r, h, (same, omega arith, inl refl, refl))

-- However the ledger goes on, an invoice that is not a draft is still there and is the one it was, but
-- for a status that may follow its status, a delivery that has come further, the reminder that
-- replaced it, and a template that was deleted.
pub Steps-StillThere :
    {p : ℕ → Bool} {l m : Ledger} (t i : ℕ) (r : InvoiceRow)
    → Steps p l m
    → find t i l ≡ some r
    → r.status ≢ InvoiceStatus.draft
    → StillThere t i r m
Steps-StillThere t i r done h k = (r, h, (same, omega arith, inl refl, refl))
Steps-StillThere t i r (then_step own before s) h k =
    let (r', h', kept) = Steps-StillThere t i r before h k in
    let (r2, h2, kept2) = Step-StillThere t i r' s h' (Later-not_draft kept.0 k) in
    (r2, h2, Keeps-trans r r' r2 kept kept2)
