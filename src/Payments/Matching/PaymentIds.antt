-- ===== src/Payments/Matching/PaymentIds.antt =====
-- The payment ids of the three ways by which a payment reaches billing, in services/payments/src/matching,
-- admin and stripe.
use faktureringssystemet.Prelude.{
  ℕ, ◌≡◌, refl, sym, ap, ◌∙◌, inl, inr, Bool, false, ◌&&◌, arith, ◌==◌, Bool-cases,
}
use faktureringssystemet.Shared.Text.{
  Text, text_eq, text_eq_refl, text_eq→≡, to_decimal, to_number, to_number-to_decimal,
}
use faktureringssystemet.Payments.Store.{BankTransactionSource}
use faktureringssystemet.Payments.Transactions.{source_eq}
use faktureringssystemet.Payments.Matching.{
  external_payment_id, manual_payment_id, stripe_payment_id,
}

pub data PaymentOrigin : Type 0 where
  external : BankTransactionSource → Text → PaymentOrigin
  manual : ℕ → PaymentOrigin
  stripe : Text → PaymentOrigin

abbrev pub payment_id_of : PaymentOrigin → Text
payment_id_of (external s e) = external_payment_id s e
payment_id_of (manual id) = manual_payment_id id
payment_id_of (stripe session) = stripe_payment_id session

abbrev pub origin_eq : PaymentOrigin → PaymentOrigin → Bool
origin_eq (external s e) (external s' e') = source_eq s s' && text_eq e e'
origin_eq (manual i) (manual j) = i == j
origin_eq (stripe s) (stripe t) = text_eq s t
origin_eq _ _ = false

decimal_eq : (i j : ℕ) → text_eq (to_decimal i) (to_decimal j) ≡ (i == j)
decimal_eq i j = elim (Bool-cases (i == j)) [
  | inl e ↦ let same : i ≡ j = ground arith in rw (same, text_eq_refl (to_decimal j)) (ground arith)
  | inr e ↦ elim (Bool-cases (text_eq (to_decimal i) (to_decimal j))) [
    | inl t ↦
        let same =
          sym (to_number-to_decimal i) ∙ ap to_number (text_eq→≡ _ _ t) ∙ to_number-to_decimal j in
        absurd (ground arith)
    | inr f ↦ ground arith
  ]
]

-- Two payments have the same payment id exactly if they come the same way under the same name.
pub payment_id_eq :
    (p q : PaymentOrigin) → text_eq (payment_id_of p) (payment_id_of q) ≡ origin_eq p q
payment_id_eq (external BankTransactionSource.bgmax e) (external BankTransactionSource.bgmax e') =
    refl
payment_id_eq (external BankTransactionSource.bgmax e)
      (external BankTransactionSource.webhook_mockbank e') =
    refl
payment_id_eq (external BankTransactionSource.webhook_mockbank e)
      (external BankTransactionSource.bgmax e') =
    refl
payment_id_eq (external BankTransactionSource.webhook_mockbank e)
      (external BankTransactionSource.webhook_mockbank e') =
    refl
payment_id_eq (external BankTransactionSource.bgmax e) (manual j) = refl
payment_id_eq (external BankTransactionSource.webhook_mockbank e) (manual j) = refl
payment_id_eq (external BankTransactionSource.bgmax e) (stripe t) = refl
payment_id_eq (external BankTransactionSource.webhook_mockbank e) (stripe t) = refl
payment_id_eq (manual i) (external BankTransactionSource.bgmax e) = refl
payment_id_eq (manual i) (external BankTransactionSource.webhook_mockbank e) = refl
payment_id_eq (manual i) (manual j) = decimal_eq i j
payment_id_eq (manual i) (stripe t) = refl
payment_id_eq (stripe s) (external BankTransactionSource.bgmax e) = refl
payment_id_eq (stripe s) (external BankTransactionSource.webhook_mockbank e) = refl
payment_id_eq (stripe s) (manual j) = refl
payment_id_eq (stripe s) (stripe t) = refl
