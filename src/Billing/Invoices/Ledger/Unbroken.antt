-- ===== src/Billing/Invoices/Ledger/Unbroken.antt =====
-- The steps of the ledger and the invariant of its ids and number series.
use faktureringssystemet.Prelude.{
  ℕ, ◌+◌, ◌≤◌, ◌≡◌, ◌≢◌, refl, inl, inr, Bool, ◌&&◌, none, some, [], ◌∷◌, ◌++◌, arith, ltb, leb,
  ◌==◌, Bool-cases, update_where, delete_where, count_where, count_where-append, find_first_holds,
  All-append,
}
use faktureringssystemet.Prelude.Rows.{
  as_count, count_where-update_where, count_where_mono, count_update_one, count_where-delete_where,
  count_delete_one, All-update_where, All-delete_where, All-find_first,
}
use faktureringssystemet.Shared.Text.{Text}
use faktureringssystemet.Billing.Store.{InvoiceStatus, InvoiceRow}
use faktureringssystemet.Billing.Invoices.Repository.{
  is_invoice, with_draft_fields, as_sent, with_status, as_superseded, is_past_due,
}
use faktureringssystemet.Billing.Payments.{is_covered}
use faktureringssystemet.Billing.Invoices.Templates.{is_generated_from, without_template}
use faktureringssystemet.Billing.Deliveries.{is_behind, with_delivery}
use faktureringssystemet.Billing.Invoices.Ledger.{
  Ledger, next_number, taken, find, Follows-not_draft, Step, Steps, done, then_step, add_draft,
  edit_draft, delete_draft, send_draft, issue, move_status, replace_by, fall_due, pay, deliver,
  set_up, add_template, delete_template,
}
use faktureringssystemet.Billing.Invoices.Ledger.Series.{
  has_id, has_number, IsNumberless, IsUnbroken, next_taken, next_kept,
}

found_one : (l : Ledger) (t i : ℕ) → IsUnbroken l → count_where (is_invoice t i) l.rows ≤ 1
found_one l t i u =
    let m = count_where_mono (is_invoice t i) (has_id i) l.rows (λ x h. ground arith) in
    let c = u.ids i in ground arith

-- Changing rows without their ids and numbers keeps the invariant.
update-IsUnbroken :
    (l : Ledger) (p : InvoiceRow → Bool) (f : InvoiceRow → InvoiceRow)
    → ((r : InvoiceRow)
        → ((f r).id ≡ r.id)
          × ((f r).tenant_id ≡ r.tenant_id)
          × ((f r).invoice_number ≡ r.invoice_number))
    → ((r : InvoiceRow) → IsNumberless r → IsNumberless (f r))
    → IsUnbroken l
    → IsUnbroken (record l { rows = update_where p f l.rows })
update-IsUnbroken l p f same plain u = record {
  ids = λ i.
      let e = count_where-update_where (has_id i) p f l.rows (λ r. rw (same r).0 refl) in
      rw e (u.ids i);
  series = λ t n.
      let e =
        count_where-update_where (has_number t n) p f l.rows
          (λ r. rw ((same r).1, (same r).2) refl) in
      rw e (u.series t n);
  drafts = All-update_where IsNumberless p f l.rows plain u.drafts;
  started = u.started;
}

-- An invoice added under the next id: without a number if it is a draft.
ids_added :
    (l : Ledger) (r : InvoiceRow) (i : ℕ)
    → r.id ≡ l.next_id
    → IsUnbroken l
    → count_where (has_id i) (l.rows ++ r ∷ []) ≤ as_count (ltb i (l.next_id + 1))
ids_added l r i e u =
    let c = count_where-append (has_id i) l.rows (r ∷ []) in let k = u.ids i in ground arith

add-IsUnbroken :
    (l : Ledger) (r : InvoiceRow)
    → r.id ≡ l.next_id
    → r.invoice_number ≡ none
    → IsUnbroken l
    → IsUnbroken (record l { rows = l.rows ++ r ∷ []; next_id = l.next_id + 1 })
add-IsUnbroken l r e unnumbered u = record {
  ids = λ i. ids_added l r i e u;
  series = λ t n.
      let c = count_where-append (has_number t n) l.rows (r ∷ []) in
      let k = u.series t n in ground arith;
  drafts = All-append IsNumberless l.rows (r ∷ []) u.drafts ((λ d. unnumbered), tt);
  started = u.started;
}

-- A series that moves on by the number that is given stays without gaps.
series_moves :
    (t t' n a a' m k : ℕ)
    → 1 ≤ a
    → (t ≡ t' → a' ≡ a)
    → m ≡ a + as_count (t == t')
    → k ≡ as_count (leb 1 n && ltb n a)
    → k + as_count (t' == t && a' == n) ≡ as_count (leb 1 n && ltb n m)
series_moves t t' n a a' m k g same e c = elim (Bool-cases (t == t')) [
  | inl here ↦ let s = same (ground arith) in ground arith
  | inr other ↦ ground arith
]

issue-IsUnbroken :
    (l : Ledger) (r : InvoiceRow)
    → r.id ≡ l.next_id
    → r.status ≢ InvoiceStatus.draft
    → r.invoice_number ≡ some (next_number r.tenant_id l)
    → IsUnbroken l
    → IsUnbroken (record l {
      rows = l.rows ++ r ∷ [];
      settings = taken r.tenant_id l.settings;
      next_id = l.next_id + 1;
    })
issue-IsUnbroken l r e final numbered u = record {
  ids = λ i. ids_added l r i e u;
  series = λ t n.
      let c = count_where-append (has_number t n) l.rows (r ∷ []) in
      let k = u.series t n in
      let g = u.started t in
      let m = next_taken t r.tenant_id l.settings in
      let v =
        series_moves t r.tenant_id n (next_number t l) (next_number r.tenant_id l) _ _ g
          (λ e. rw e refl) m k in
      let one : count_where (has_number t n) (r ∷ [])
          ≡ as_count (r.tenant_id == t && next_number r.tenant_id l == n) =
        rw numbered (omega arith) in
      rw (c, one) v;
  drafts = All-append IsNumberless l.rows (r ∷ []) u.drafts ((λ d. absurd (final d)), tt);
  started = λ t. let m = next_taken t r.tenant_id l.settings in let g = u.started t in omega arith;
}

-- Sending a draft gives it the next number.
send-IsUnbroken :
    (l : Ledger) (t i : ℕ) (r : InvoiceRow) (ocr : Text)
    → find t i l ≡ some r
    → r.status ≡ InvoiceStatus.draft
    → IsUnbroken l
    → IsUnbroken (record l {
      rows = update_where (is_invoice t i) (as_sent (next_number t l) ocr) l.rows;
      settings = taken t l.settings;
    })
send-IsUnbroken l t i r ocr found draft u = record {
  ids = λ j.
      let e =
        count_where-update_where (has_id j) (is_invoice t i) (as_sent (next_number t l) ocr) l.rows
          (λ x. refl) in
      rw e (u.ids j);
  series = λ t' n.
      let c =
        count_update_one (has_number t' n) (is_invoice t i) (as_sent (next_number t l) ocr) l.rows r
          (found_one l t i u) found in
      let z : r.invoice_number ≡ none =
        All-find_first IsNumberless (is_invoice t i) l.rows u.drafts found draft in
      let p = find_first_holds (is_invoice t i) l.rows found in
      let k = u.series t' n in
      let g = u.started t' in
      let m = next_taken t' t l.settings in
      let v = series_moves t' t n (next_number t' l) (next_number t l) _ _ g (λ e. rw e refl) m k in
      let before : as_count (has_number t' n r) ≡ 0 = rw z (ground arith) in
      let own : r.tenant_id ≡ t = ground arith in
      let after : as_count (has_number t' n (as_sent (next_number t l) ocr r))
          ≡ as_count (t == t' && next_number t l == n) =
        rw own refl in
      omega arith;
  drafts =
      All-update_where IsNumberless (is_invoice t i) (as_sent (next_number t l) ocr) l.rows
        (λ x k d. absurd (ground arith)) u.drafts;
  started = λ t'. let m = next_taken t' t l.settings in let g = u.started t' in omega arith;
}

delete-IsUnbroken :
    (l : Ledger) (t i : ℕ) (r : InvoiceRow)
    → find t i l ≡ some r
    → r.status ≡ InvoiceStatus.draft
    → IsUnbroken l
    → IsUnbroken (record l { rows = delete_where (is_invoice t i) l.rows })
delete-IsUnbroken l t i r found draft u = record {
  ids = λ j.
      let c = count_where-delete_where (has_id j) (is_invoice t i) l.rows in
      let k = u.ids j in omega arith;
  series = λ t' n.
      let c =
        count_delete_one (has_number t' n) (is_invoice t i) l.rows r (found_one l t i u) found in
      let z : r.invoice_number ≡ none =
        All-find_first IsNumberless (is_invoice t i) l.rows u.drafts found draft in
      let k = u.series t' n in ground arith;
  drafts = All-delete_where IsNumberless (is_invoice t i) l.rows u.drafts;
  started = u.started;
}

-- Every step keeps the invariant.
pub Step-IsUnbroken : {t : ℕ} {l m : Ledger} → Step l t m → IsUnbroken l → IsUnbroken m
Step-IsUnbroken {l = l} (add_draft r e d n) u = add-IsUnbroken l r e n u
Step-IsUnbroken {l = l} (edit_draft t i r x f d) u =
    update-IsUnbroken l (is_invoice t i) (with_draft_fields x) (λ y. (refl, refl, refl)) (λ y k. k)
      u
Step-IsUnbroken {l = l} (delete_draft t i r f d) u = delete-IsUnbroken l t i r f d u
Step-IsUnbroken {l = l} (send_draft t i r ocr f d o) u = send-IsUnbroken l t i r ocr f d u
Step-IsUnbroken {l = l} (issue r ocr e d n o1 o2) u = issue-IsUnbroken l r e d n u
Step-IsUnbroken {l = l} (move_status t i r s f w) u =
    update-IsUnbroken l (is_invoice t i) (with_status s) (λ y. (refl, refl, refl))
      (λ y k d. absurd (Follows-not_draft w d)) u
Step-IsUnbroken {l = l} (replace_by t i by r f w) u =
    update-IsUnbroken l (is_invoice t i) (as_superseded by) (λ y. (refl, refl, refl))
      (λ y k d. absurd (ground arith)) u
Step-IsUnbroken {l = l} (fall_due t today) u =
    update-IsUnbroken l (is_past_due t today) (with_status InvoiceStatus.overdue)
      (λ y. (refl, refl, refl)) (λ y k d. absurd (ground arith)) u
Step-IsUnbroken {l = l} (pay t i paid) u =
    update-IsUnbroken l (is_covered t i paid) (with_status InvoiceStatus.paid)
      (λ y. (refl, refl, refl)) (λ y k d. absurd (ground arith)) u
Step-IsUnbroken {l = l} (deliver t i next) u =
    update-IsUnbroken l (is_behind t i next) (with_delivery next) (λ y. (refl, refl, refl))
      (λ y k. k) u
Step-IsUnbroken {l = l} (add_template t) u = record {
  ids = u.ids;
  series = u.series;
  drafts = u.drafts;
  started = u.started;
}
Step-IsUnbroken {l = l} (delete_template t i o f) u =
    let v =
      update-IsUnbroken l (is_generated_from i) without_template (λ y. (refl, refl, refl))
        (λ y k. k) u in
    record { ids = v.ids; series = v.series; drafts = v.drafts; started = v.started }
Step-IsUnbroken {l = l} (set_up t f keeps) u = record {
  ids = u.ids;
  series = λ t' n. rw (next_kept t' t f l.settings keeps) (u.series t' n);
  drafts = u.drafts;
  started = λ t'. rw (next_kept t' t f l.settings keeps) (u.started t');
}

pub Steps-IsUnbroken : {p : ℕ → Bool} {l m : Ledger} → Steps p l m → IsUnbroken l → IsUnbroken m
Steps-IsUnbroken done u = u
Steps-IsUnbroken (then_step h before s) u = Step-IsUnbroken s (Steps-IsUnbroken before u)
