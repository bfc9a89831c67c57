-- ===== src/Payments/Books.antt =====
-- How the transactions of services/payments and the events of its outbox belong together.
pub mod Decided
pub mod Steps
pub mod Kept
pub mod Reviewed
pub mod Charged
pub mod Laws
pub mod History
use faktureringssystemet.Prelude.{
  ℕ, suc, ◌+◌, ◌≤◌, ◌≡◌, refl, sym, ap, ◌∙◌, inl, inr, Bool, true, false, ◌&&◌, Option, none, some,
  List, [], ◌∷◌, ◌++◌, arith, ltb, ◌==◌, if◌then◌else◌, is_some, find_first, count_where,
  count_where-append, Bool-cases, Option-cases, find_first_holds, find_first-append,
}
use faktureringssystemet.Prelude.Rows.{as_count, count_none, find_first-append_none}
use faktureringssystemet.Shared.Text.{Text, text_eq, text_eq→≡}
use faktureringssystemet.Payments.Store.{
  BankTransactionSource, BankTransactionRow, PaymentEvent, BankTransactionIntake,
}
use faktureringssystemet.Payments.Transactions.{source_eq, is_external, pending_row}
use faktureringssystemet.Payments.Matching.{is_matched}
use faktureringssystemet.Payments.Matching.PaymentIds.{
  PaymentOrigin, payment_id_of, origin_eq, payment_id_eq, external, manual,
}

-- How many events a payment has.
abbrev pub events_of : PaymentOrigin → List PaymentEvent → ℕ
events_of o outbox = count_where (λ e. text_eq e.payment_id (payment_id_of o)) outbox

abbrev pub has_id : ℕ → BankTransactionRow → Bool
has_id i r = r.id == i

-- Ids and keys are unique, and a transaction has one event if it is matched, under its own name or
-- under the name of a manual match, and none otherwise.
pub record IsBooked (rows : List BankTransactionRow) (next : ℕ) (outbox : List PaymentEvent)
    : Type 0 where
  pub ids : (i : ℕ) → count_where (has_id i) rows ≤ as_count (ltb i next)
  pub keys : (s : BankTransactionSource) (e : Text) → count_where (is_external s e) rows ≤ 1
  pub events :
      (s : BankTransactionSource) (e : Text) (r : BankTransactionRow)
      → find_first (is_external s e) rows ≡ some r
      → events_of (external s e) outbox + events_of (manual r.id) outbox
        ≡ as_count (is_matched r.status)
  pub unknown :
      (s : BankTransactionSource) (e : Text)
      → find_first (is_external s e) rows ≡ none
      → events_of (external s e) outbox ≡ 0
  pub unused : (i : ℕ) → next ≤ i → events_of (manual i) outbox ≡ 0

pub no_transactions-IsBooked : IsBooked [] 1 []
no_transactions-IsBooked = record {
  ids = λ i. omega arith;
  keys = λ s e. omega arith;
  events = λ s e r h. absurd (ground arith);
  unknown = λ s e h. refl;
  unused = λ i h. refl;
}

unfoldable pub with_event : List PaymentEvent → Option PaymentEvent → List PaymentEvent
with_event outbox none = outbox
with_event outbox (some e) = outbox ++ e ∷ []

pub events_of-with_event :
    (o p : PaymentOrigin) (outbox : List PaymentEvent) (ev : Option PaymentEvent)
    → ((e : PaymentEvent) → ev ≡ some e → e.payment_id ≡ payment_id_of o)
    → events_of p (with_event outbox ev)
      ≡ events_of p outbox + as_count (is_some ev && origin_eq o p)
unfolding with_event
events_of-with_event o p outbox none h = omega arith
events_of-with_event o p outbox (some e) h =
    let c = count_where-append (λ x. text_eq x.payment_id (payment_id_of p)) outbox (e ∷ []) in
    let k : text_eq e.payment_id (payment_id_of p) ≡ origin_eq o p =
      ap (λ x. text_eq x (payment_id_of p)) (h e refl) ∙ payment_id_eq o p in
    c ∙ rw k (omega arith)

pub source_eq→≡ : (s t : BankTransactionSource) → source_eq s t ≡ true → s ≡ t
source_eq→≡ BankTransactionSource.bgmax BankTransactionSource.bgmax h = refl
source_eq→≡ BankTransactionSource.bgmax BankTransactionSource.webhook_mockbank h =
    absurd (ground arith)
source_eq→≡ BankTransactionSource.webhook_mockbank BankTransactionSource.bgmax h =
    absurd (ground arith)
source_eq→≡ BankTransactionSource.webhook_mockbank BankTransactionSource.webhook_mockbank h = refl

pub source_of :
    (s : BankTransactionSource) (e : Text) (r : BankTransactionRow)
    → is_external s e r ≡ true
    → r.source ≡ s
source_of s e r h = source_eq→≡ r.source s (ground arith)

pub external_id_of :
    (s : BankTransactionSource) (e : Text) (r : BankTransactionRow)
    → is_external s e r ≡ true
    → r.external_id ≡ e
external_id_of s e r h = text_eq→≡ r.external_id e (elim (Bool-cases (source_eq r.source s)) [
  | inl t ↦ ground arith
  | inr t ↦ absurd (ground arith)
])

pub same_key :
    (s : BankTransactionSource) (e : Text) (r : BankTransactionRow) (rows : List BankTransactionRow)
    → is_external s e r ≡ true
    → find_first (is_external s e) rows ≡ find_first (is_external r.source r.external_id) rows
same_key s e r rows h =
    ap (λ x. find_first (is_external x e) rows) (sym (source_of s e r h))
    ∙ ap (λ x. find_first (is_external r.source x) rows) (sym (external_id_of s e r h))

-- A new transaction, whose key is not there yet.
pub taken_in-IsBooked :
    (d : BankTransactionIntake) (rows : List BankTransactionRow) (next : ℕ)
    (outbox : List PaymentEvent)
    → IsBooked rows next outbox
    → find_first (is_external d.source d.external_id) rows ≡ none
    → IsBooked (rows ++ pending_row next d ∷ []) (suc next) outbox
taken_in-IsBooked d rows next outbox b free = record {
  ids = λ i.
      let c = count_where-append (has_id i) rows (pending_row next d ∷ []) in
      let u = b.ids i in ground arith;
  keys = λ s e.
      let c = count_where-append (is_external s e) rows (pending_row next d ∷ []) in
      elim (Bool-cases (is_external s e (pending_row next d))) [
        | inl t ↦
            let none_there =
              count_none (is_external s e) rows (same_key s e (pending_row next d) rows t ∙ free) in
            ground arith
        | inr f ↦ let k = b.keys s e in ground arith
      ];
  events = λ s e r h. elim (Option-cases (find_first (is_external s e) rows)) [
    | inl missing ↦
        let at = find_first-append_none (is_external s e) rows (pending_row next d ∷ []) missing in
        let same : pending_row next d ≡ r = ground arith in
        let u = b.unknown s e missing in
        let v = b.unused next (omega arith) in rw (← same) (omega (arith, u, v))
    | inr (r', found) ↦
        let at = find_first-append (is_external s e) rows (pending_row next d ∷ []) found in
        b.events s e r (found ∙ sym at ∙ h)
  ];
  unknown = λ s e h. elim (Option-cases (find_first (is_external s e) rows)) [
    | inl missing ↦ b.unknown s e missing
    | inr (r', found) ↦
        let at = find_first-append (is_external s e) rows (pending_row next d ∷ []) found in
        absurd (ground arith)
  ];
  unused = λ i h. b.unused i (omega (arith, h));
}
