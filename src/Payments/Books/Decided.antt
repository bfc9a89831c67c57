-- ===== src/Payments/Books/Decided.antt =====
-- A transaction of services/payments is decided on, and its event is written if it has one.
use faktureringssystemet.Prelude.{
  ℕ, ◌+◌, ◌≤◌, ◌≡◌, ◌⊎◌, refl, sym, ap, ◌∙◌, inl, inr, Bool, true, false, ◌&&◌, Option, none, some,
  List, arith, ◌==◌, if◌then◌else◌, is_some, find_first, update_where, count_where, Bool-cases,
  Option-cases, find_first_holds,
}
use faktureringssystemet.Prelude.Rows.{
  as_count, count_found, found_by_key, find_updated, find_none_updated, count_where-update_where,
}
use faktureringssystemet.Shared.Text.{Text, text_eq_refl}
use faktureringssystemet.Payments.Store.{BankTransactionSource, BankTransactionRow, PaymentEvent}
use faktureringssystemet.Payments.Transactions.{source_eq, is_external}
use faktureringssystemet.Payments.Matching.{is_matched}
use faktureringssystemet.Payments.Matching.PaymentIds.{
  PaymentOrigin, payment_id_of, origin_eq, external, manual,
}
use faktureringssystemet.Payments.Books.{
  IsBooked, events_of, has_id, with_event, events_of-with_event, same_key,
}

-- A change of one transaction `r` that was not matched, by which it is matched exactly if an event is
-- written under one of its names.
pub record Decides (rows : List BankTransactionRow) (r : BankTransactionRow)
    (p : BankTransactionRow → Bool) (f : BankTransactionRow → BankTransactionRow)
    (ev : Option PaymentEvent) (o : PaymentOrigin) : Type 0 where
  pub found : find_first (is_external r.source r.external_id) rows ≡ some r
  pub hits : p r ≡ true
  pub only : (x : BankTransactionRow) → p x ≡ true → has_id r.id x ≡ true
  pub same_id : (x : BankTransactionRow) → (f x).id ≡ x.id
  pub same_external :
      (s : BankTransactionSource) (e : Text) (x : BankTransactionRow)
      → is_external s e (f x) ≡ is_external s e x
  pub before : is_matched r.status ≡ false
  pub after : is_some ev ≡ is_matched (f r).status
  pub named : (e : PaymentEvent) → ev ≡ some e → e.payment_id ≡ payment_id_of o
  pub origin : (o ≡ external r.source r.external_id) ⊎ (o ≡ manual r.id)

source_eq_refl : (s : BankTransactionSource) → source_eq s s ≡ true
source_eq_refl BankTransactionSource.bgmax = refl
source_eq_refl BankTransactionSource.webhook_mockbank = refl

pub external_self : (r : BankTransactionRow) → is_external r.source r.external_id r ≡ true
external_self r = rw (source_eq_refl r.source, text_eq_refl r.external_id) refl

module _ (rows : List BankTransactionRow) (next : ℕ) (outbox : List PaymentEvent)
    (b : IsBooked rows next outbox) (r : BankTransactionRow) (p : BankTransactionRow → Bool)
    (f : BankTransactionRow → BankTransactionRow) (ev : Option PaymentEvent) (o : PaymentOrigin)
    (d : Decides rows r p f ev o) where
  -- No other row has the id of `r`.
  same_row :
      (q : BankTransactionRow → Bool) (x : BankTransactionRow)
      → find_first q rows ≡ some x
      → has_id r.id x ≡ true
      → x ≡ r
  same_row q x k t =
      let u : count_where (has_id r.id) rows ≤ 1 = (let i = b.ids r.id in ground arith) in
      let fx = found_by_key q (has_id r.id) rows u k t in
      let fr =
        found_by_key (is_external r.source r.external_id) (has_id r.id) rows u d.found
          (ground arith) in
      ground arith

  -- The event is not one of a transaction that another key finds.
  other_key :
      (s : BankTransactionSource) (e : Text) (x : BankTransactionRow)
      → find_first (is_external s e) rows ≡ some x
      → p x ≡ false
      → (origin_eq o (external s e) ≡ false) × (origin_eq o (manual x.id) ≡ false)
  other_key s e x k n = elim (d.origin) [
    | inl as_external ↦ rw as_external (
      elim (Bool-cases (is_external s e r)) [
        | inl t ↦
            let same = sym (same_key s e r rows t ∙ d.found) ∙ k in
            let h = d.hits in absurd (ground arith)
        | inr t ↦ t
      ],
      refl,
    )
    | inr as_manual ↦ rw as_manual (
      refl,
      elim (Bool-cases (r.id == x.id)) [
        | inl t ↦
            let same = same_row (is_external s e) x k (ground arith) in
            let h = d.hits in absurd (ground arith)
        | inr t ↦ t
      ],
    )
  ]

  -- The event is one of the transaction that was decided on, under one of its two names.
  own_key :
      (s : BankTransactionSource) (e : Text) (m : Bool)
      → is_external s e r ≡ true
      → as_count (m && origin_eq o (external s e)) + as_count (m && origin_eq o (manual r.id))
        ≡ as_count m
  own_key s e m t = elim (d.origin) [
    | inl as_external ↦ rw (as_external, t) (ground arith)
    | inr as_manual ↦ rw as_manual (ground arith)
  ]

  decided_events :
      (s : BankTransactionSource) (e : Text) (x : BankTransactionRow)
      → find_first (is_external s e) rows ≡ some x
      → events_of (external s e) (with_event outbox ev)
          + events_of (manual x.id) (with_event outbox ev)
        ≡ as_count (is_matched (if p x then f x else x).status)
  decided_events s e x k =
      let c = events_of-with_event o (external s e) outbox ev d.named in
      let m = events_of-with_event o (manual x.id) outbox ev d.named in
      let old = b.events s e x k in
      elim (Bool-cases (p x)) [
        | inl t ↦
            let same = same_row (is_external s e) x k (d.only x t) in
            let holds = find_first_holds (is_external s e) rows (k ∙ ap some same) in
            let own : as_count (is_some ev && origin_eq o (external s e))
                  + as_count (is_some ev && origin_eq o (manual x.id))
                ≡ as_count (is_some ev) =
              rw same (own_key s e (is_some ev) holds) in
            let zero = old ∙ ap (λ y. as_count (is_matched y.status)) same ∙ ap as_count d.before in
            let goal : events_of (external s e) (with_event outbox ev)
                  + events_of (manual x.id) (with_event outbox ev)
                ≡ as_count (is_some ev) =
              omega (arith, c, m, own, zero) in
            rw t (goal ∙ ap as_count (d.after ∙ ap (λ y. is_matched (f y).status) (sym same)))
        | inr n ↦ let (a, z) = other_key s e x k n in rw (n, c, m, a, z) (ground arith)
      ]

  kept_id : (y x : BankTransactionRow) → (if p y then f y else y) ≡ x → x.id ≡ y.id
  kept_id y x h = elim (Bool-cases (p y)) [
    | inl t ↦ let i = d.same_id y in ground arith
    | inr t ↦ ground arith
  ]

  unknown_key :
      (s : BankTransactionSource) (e : Text)
      → find_first (is_external s e) rows ≡ none
      → origin_eq o (external s e) ≡ false
  unknown_key s e missing = elim (d.origin) [
    | inl as_external ↦ rw as_external (elim (Bool-cases (is_external s e r)) [
      | inl t ↦ let clash = sym (same_key s e r rows t ∙ d.found) ∙ missing in absurd (ground arith)
      | inr t ↦ t
    ])
    | inr as_manual ↦ rw as_manual refl
  ]

  unused_id : (i : ℕ) → next ≤ i → origin_eq o (manual i) ≡ false
  unused_id i h = elim (d.origin) [
    | inl as_external ↦ rw as_external refl
    | inr as_manual ↦
        let u = b.ids r.id in
        let c =
          count_found (is_external r.source r.external_id) (has_id r.id) rows d.found
            (ground arith) in
        rw as_manual (ground arith)
  ]

  pub decided-IsBooked : IsBooked (update_where p f rows) next (with_event outbox ev)
  decided-IsBooked = record {
    ids = λ i.
        let c =
          count_where-update_where (has_id i) p f rows (λ x. ap (λ y. y == i) (d.same_id x)) in
        let u = b.ids i in rw c u;
    keys = λ s e.
        let c = count_where-update_where (is_external s e) p f rows (d.same_external s e) in
        let u = b.keys s e in rw c u;
    events = λ s e x k. elim (Option-cases (find_first (is_external s e) rows)) [
      | inl missing ↦
          let n = find_none_updated (is_external s e) p f rows (d.same_external s e) missing in
          absurd (ground arith)
      | inr (y, found) ↦
          let at = find_updated (is_external s e) p f rows (d.same_external s e) found in
          let same : (if p y then f y else y) ≡ x = ground arith in
          let id : x.id ≡ y.id = kept_id y x same in
          rw id (decided_events s e y found ∙ ap (λ z. as_count (is_matched z.status)) same)
    ];
    unknown = λ s e k. elim (Option-cases (find_first (is_external s e) rows)) [
      | inl missing ↦
          let c = events_of-with_event o (external s e) outbox ev d.named in
          let u = b.unknown s e missing in
          let other = unknown_key s e missing in rw (c, other) (ground arith)
      | inr (y, found) ↦
          let at = find_updated (is_external s e) p f rows (d.same_external s e) found in
          absurd (ground arith)
    ];
    unused = λ i h.
        let c = events_of-with_event o (manual i) outbox ev d.named in
        let u = b.unused i h in let other = unused_id i h in rw (c, other) (ground arith);
  }
