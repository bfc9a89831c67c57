-- ===== src/Payments/Matching/Laws.antt =====
-- What services/payments/src/matching decides.
use faktureringssystemet.Prelude.{
  ℕ, ◌≡◌, ◌⊎◌, inl, inr, true, none, some, arith, if◌then◌else◌, Bool-cases,
}
use faktureringssystemet.Prelude.Int.{pos, ltb_ℤ, ◌≤ℤ◌}
use faktureringssystemet.Shared.Errors.{ok, Result-cases}
use faktureringssystemet.Shared.Ocr.{is_valid_ocr}
use faktureringssystemet.Payments.Store.{
  PaymentEventType, UnmatchedReason, InvoiceForMatching, BillingClient,
}
use faktureringssystemet.Payments.Matching.{
  MatchInput, MatchDecision, no_tenant, for_review, decide_on_invoice, decide_match, is_matched,
  is_open, eq_ℤ,
}

-- Which of billing's answers a decision rests on.
abbrev pub RestsOn : BillingClient → MatchInput → MatchDecision → ℕ → InvoiceForMatching → Type 0
RestsOn client input d t invoice =
    (client.resolve_tenant_by_bankgiro input.bankgiro input.correlation_id ≡ ok (some t))
    × (is_valid_ocr input.ocr ≡ true)
    × (client.resolve_invoice_by_ocr t input.ocr input.correlation_id ≡ ok (some invoice))
    × (d ≡ decide_on_invoice input t invoice)

pub decide_match-cases :
    (client : BillingClient) (input : MatchInput) (d : MatchDecision)
    → decide_match client input ≡ ok d
    → (d ≡ no_tenant)
      ⊎ ((t : ℕ) × (d ≡ for_review t UnmatchedReason.unknown_ocr))
      ⊎ ((t : ℕ) × (invoice : InvoiceForMatching) × RestsOn client input d t invoice)
unfolding decide_match
decide_match-cases client input d h =
    elim (Result-cases (client.resolve_tenant_by_bankgiro input.bankgiro input.correlation_id)) [
      | inr (e, fails) ↦ absurd (ground arith)
      | inl (none, unknown) ↦ inl (ground arith)
      | inl (some t, tenant) ↦ elim (Bool-cases (is_valid_ocr input.ocr)) [
        | inr bad ↦ inr (inl (t, ground arith))
        | inl good ↦
            elim (Result-cases (client.resolve_invoice_by_ocr t input.ocr input.correlation_id)) [
              | inr (e, fails) ↦ absurd (ground arith)
              | inl (none, missing) ↦ inr (inl (t, ground arith))
              | inl (some invoice, found) ↦
                  inr (inr (t, invoice, (tenant, good, found, ground arith)))
            ]
      ]
    ]

-- A payment is matched only with the invoice that billing answers for its reference, under the tenant whose
-- bankgiro it came to; the reference is then valid, the invoice sent or overdue, and the amount at most
-- what remains to be paid. The event says that it is paid in full exactly if the amount is all of that.
pub matched_pays_open :
    (client : BillingClient) (input : MatchInput) (d : MatchDecision)
    → decide_match client input ≡ ok d
    → is_matched d.on_row.status ≡ true
    → (t : ℕ) × (invoice : InvoiceForMatching) × RestsOn client input d t invoice
      × (is_open invoice.status ≡ true)
      × (pos input.amount_ore ≤ℤ invoice.remaining_ore)
      × (d.on_row.tenant_id ≡ some t)
      × (d.on_row.matched_invoice_id ≡ some invoice.current_invoice_id)
      × (d.event_type
          ≡ some (
              if eq_ℤ (pos input.amount_ore) invoice.remaining_ore
              then PaymentEventType.payment_matched
              else PaymentEventType.payment_partial))
matched_pays_open client input d h m = elim (decide_match-cases client input d h) [
  | inl unknown ↦ absurd (ground arith)
  | inr (inl (t, reviewed)) ↦ absurd (ground arith)
  | inr (inr (t, invoice, rests)) ↦
      let same = rests.3 in
      elim (Bool-cases (is_open invoice.status)) [
        | inr closed ↦ absurd (ground arith)
        | inl opened ↦ elim (Bool-cases (ltb_ℤ invoice.remaining_ore (pos input.amount_ore))) [
          | inl over ↦ absurd (ground arith)
          | inr covered ↦
              (t, invoice, rests, opened, ground arith, ground arith, ground arith, ground arith)
        ]
      ]
]
