-- ===== src/Payments/Books/History.antt =====
-- What becomes of one transaction of services/payments over time.
use faktureringssystemet.Prelude.{
  ◌≡◌, refl, ap, ◌∙◌, inl, inr, Bool, true, false, some, List, arith, if◌then◌else◌, find_first,
  update_where, Bool-cases, Option-cases, find_first-append,
}
use faktureringssystemet.Prelude.Rows.{find_updated}
use faktureringssystemet.Shared.Text.{Text}
use faktureringssystemet.Payments.Store.{
  BankTransactionSource, BankTransactionStatus, BankTransactionRow, PaymentsDb,
}
use faktureringssystemet.Payments.Transactions.{intake, is_external, is_undecided, decided}
use faktureringssystemet.Payments.Admin.{is_reviewable, as_matched, as_ignored}
use faktureringssystemet.Payments.Admin.Laws.{match_in_tx-cases, ignore_in_tx-cases}
use faktureringssystemet.Payments.Stripe.Laws.{complete-cases, create-cases}
use faktureringssystemet.Payments.Books.Steps.{
  Step, Steps, take_in, resolve, match_manually, ignore, check_out, complete, done, then_step,
  IsConsistent, no_payments, no_payments-IsConsistent,
}
use faktureringssystemet.Payments.Books.Kept.{resolve_effect}
use faktureringssystemet.Payments.Books.Laws.{Steps-IsConsistent}

-- A pending payment may come to anything, one for review may be matched or ignored, and the rest is final.
abbrev pub may_become : BankTransactionStatus → BankTransactionStatus → Bool
may_become BankTransactionStatus.pending _ = true
may_become BankTransactionStatus.manual_review BankTransactionStatus.manual_review = true
may_become BankTransactionStatus.manual_review BankTransactionStatus.matched = true
may_become BankTransactionStatus.manual_review BankTransactionStatus.ignored = true
may_become BankTransactionStatus.matched BankTransactionStatus.matched = true
may_become BankTransactionStatus.unmatched BankTransactionStatus.unmatched = true
may_become BankTransactionStatus.ignored BankTransactionStatus.ignored = true
may_become _ _ = false

pub record KeepsPayment (r r' : BankTransactionRow) : Type 0 where
  pub id : r'.id ≡ r.id
  pub bankgiro : r'.bankgiro ≡ r.bankgiro
  pub ocr : r'.ocr ≡ r.ocr
  pub payer_name : r'.payer_name ≡ r.payer_name
  pub amount_ore : r'.amount_ore ≡ r.amount_ore
  pub booked_at : r'.booked_at ≡ r.booked_at
  pub status : may_become r.status r'.status ≡ true

may_become_refl : (s : BankTransactionStatus) → may_become s s ≡ true
may_become_refl s = ground arith

may_become_trans :
    (a b c : BankTransactionStatus)
    → may_become a b ≡ true
    → may_become b c ≡ true
    → may_become a c ≡ true
may_become_trans BankTransactionStatus.pending b c h k = refl
may_become_trans BankTransactionStatus.manual_review b c h k = ground arith
may_become_trans BankTransactionStatus.matched b c h k = ground arith
may_become_trans BankTransactionStatus.unmatched b c h k = ground arith
may_become_trans BankTransactionStatus.ignored b c h k = ground arith

kept_refl : (r : BankTransactionRow) → KeepsPayment r r
kept_refl r = record {
  id = refl;
  bankgiro = refl;
  ocr = refl;
  payer_name = refl;
  amount_ore = refl;
  booked_at = refl;
  status = may_become_refl r.status;
}

kept_trans : (a b c : BankTransactionRow) → KeepsPayment a b → KeepsPayment b c → KeepsPayment a c
kept_trans a b c h k = record {
  id = k.id ∙ h.id;
  bankgiro = k.bankgiro ∙ h.bankgiro;
  ocr = k.ocr ∙ h.ocr;
  payer_name = k.payer_name ∙ h.payer_name;
  amount_ore = k.amount_ore ∙ h.amount_ore;
  booked_at = k.booked_at ∙ h.booked_at;
  status = may_become_trans a.status b.status c.status h.status k.status;
}

-- The transaction is under its key, kept.
abbrev pub IsStillThere :
    BankTransactionSource → Text → BankTransactionRow → List BankTransactionRow → Type 0
IsStillThere s e r rows =
    (r' : BankTransactionRow) × (find_first (is_external s e) rows ≡ some r') × KeepsPayment r r'

update-IsStillThere :
    (s : BankTransactionSource) (e : Text) (r : BankTransactionRow) (rows : List BankTransactionRow)
    (p : BankTransactionRow → Bool) (f : BankTransactionRow → BankTransactionRow)
    → ((x : BankTransactionRow) → is_external s e (f x) ≡ is_external s e x)
    → ((x : BankTransactionRow) → p x ≡ true → KeepsPayment x (f x))
    → find_first (is_external s e) rows ≡ some r
    → IsStillThere s e r (update_where p f rows)
update-IsStillThere s e r rows p f same keeps found =
    let at = find_updated (is_external s e) p f rows same found in
    elim (Bool-cases (p r)) [
      | inl t ↦ (f r, at ∙ ap (λ b. some (if b then f r else r)) t, keeps r t)
      | inr t ↦ (r, at ∙ ap (λ b. some (if b then f r else r)) t, kept_refl r)
    ]

with_status-KeepsPayment :
    (r r' : BankTransactionRow)
    → (r'.id ≡ r.id)
    → (r'.bankgiro ≡ r.bankgiro)
    → (r'.ocr ≡ r.ocr)
    → (r'.payer_name ≡ r.payer_name)
    → (r'.amount_ore ≡ r.amount_ore)
    → (r'.booked_at ≡ r.booked_at)
    → may_become r.status r'.status ≡ true
    → KeepsPayment r r'
with_status-KeepsPayment r r' a b c d e f g = record {
  id = a;
  bankgiro = b;
  ocr = c;
  payer_name = d;
  amount_ore = e;
  booked_at = f;
  status = g;
}

module _ (s : BankTransactionSource) (e : Text) (r : BankTransactionRow) where
  Step-IsStillThere :
      {a b : PaymentsDb}
      → Step a b
      → IsConsistent a
      → find_first (is_external s e) a.transactions ≡ some r
      → IsStillThere s e r b.transactions
  unfolding intake
  Step-IsStillThere {a} (take_in input) k found =
      elim (Option-cases (find_first (is_external input.source input.external_id) a.transactions)) [
        | inr (x, there) ↦ rw there (r, found, kept_refl r)
        | inl missing ↦
            rw missing (r, find_first-append (is_external s e) a.transactions _ found, kept_refl r)
      ]
  Step-IsStillThere {a} (resolve client input x sound there) k found =
      elim (resolve_effect client input x a k there) [
        | inl same ↦ rw same (r, found, kept_refl r)
        | inr (d, good, pending, same) ↦ rw same (
            update-IsStillThere s e r a.transactions (is_undecided x.id) (decided d.on_row)
              (λ y. refl)
              (λ y h.
                with_status-KeepsPayment y (decided d.on_row y) refl refl refl refl refl refl
                  (ground arith))
              found)
      ]
  Step-IsStillThere {a} (match_manually client ctx id i accept) k found =
      elim (match_in_tx-cases client ctx id i accept a) [
        | inl (x, fails) ↦ rw fails (r, found, kept_refl r)
        | inr (row, invoice, there, review, answer, same) ↦ rw same (
            update-IsStillThere s e r a.transactions (is_reviewable ctx.tenant_id id)
              (as_matched invoice.current_invoice_id) (λ y. refl)
              (λ y h.
                with_status-KeepsPayment y (as_matched invoice.current_invoice_id y) refl refl refl
                  refl refl refl (ground arith))
              found)
      ]
  Step-IsStillThere {a} (ignore ctx id reason) k found = elim (ignore_in_tx-cases ctx id reason a) [
    | inl (x, fails) ↦ rw fails (r, found, kept_refl r)
    | inr (row, there, review, same) ↦ rw same (
        update-IsStillThere s e r a.transactions (is_reviewable ctx.tenant_id id)
          (as_ignored reason) (λ y. refl)
          (λ y h.
            with_status-KeepsPayment y (as_ignored reason y) refl refl refl refl refl refl
              (ground arith))
          found)
  ]
  Step-IsStillThere {a} (check_out client provider now t i c) k found =
      elim (create-cases client provider now t i c a) [
        | inl same ↦ rw same (r, found, kept_refl r)
        | inr (invoice, x, new, same) ↦ rw same (r, found, kept_refl r)
      ]
  Step-IsStillThere {a} (complete client now event c) k found =
      elim (complete-cases client now event c a) [
        | inl (x, fails) ↦ rw fails (r, found, kept_refl r)
        | inr (inl nothing) ↦ rw nothing (r, found, kept_refl r)
        | inr (inr (x, row, invoice, unpaid, same)) ↦ rw same (r, found, kept_refl r)
      ]

pub Steps-IsStillThere :
    (s : BankTransactionSource) (e : Text) (r : BankTransactionRow) {a b : PaymentsDb}
    → Steps a b
    → IsConsistent a
    → find_first (is_external s e) a.transactions ≡ some r
    → IsStillThere s e r b.transactions
Steps-IsStillThere s e r done k found = (r, found, kept_refl r)
Steps-IsStillThere s e r (then_step before step) k found =
    let (x, there, kept) = Steps-IsStillThere s e r before k found in
    let (y, still, kept') = Step-IsStillThere s e x step (Steps-IsConsistent before k) there in
    (y, still, kept_trans r x y kept kept')

-- A payment that was taken in is never lost: after any further steps it is under its key, with the amount, the
-- reference and all else that the bank reported as they were, and its status has moved only as it may.
pub payment_is_kept :
    {a b : PaymentsDb}
    → Steps no_payments a
    → Steps a b
    → (s : BankTransactionSource) (e : Text) (r : BankTransactionRow)
    → find_first (is_external s e) a.transactions ≡ some r
    → (r' : BankTransactionRow) × (find_first (is_external s e) b.transactions ≡ some r')
      × KeepsPayment r r'
payment_is_kept before after s e r found =
    Steps-IsStillThere s e r after (Steps-IsConsistent before no_payments-IsConsistent) found
