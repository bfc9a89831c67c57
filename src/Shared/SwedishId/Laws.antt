-- ===== src/Shared/SwedishId/Laws.antt =====
-- Normal forms of personal and bankgiro numbers.
use faktureringssystemet.Prelude.{◌≡◌, refl, ap, inl, inr, true, [], ◌∷◌, arith, Bool-cases}
use faktureringssystemet.Shared.Text.{Text, is_digit, all_digits}
use faktureringssystemet.Shared.SwedishId.{only_digits, is_valid_bankgiro, normalize_bankgiro}

only_digits-all_digits : (s : Text) → all_digits (only_digits s) ≡ true
only_digits-all_digits [] = refl
only_digits-all_digits (c ∷ s) = elim (Bool-cases (is_digit c)) [
  | inl d ↦ rw (d, d) (only_digits-all_digits s)
  | inr n ↦ rw n (only_digits-all_digits s)
]

only_digits_kept : (s : Text) → all_digits s ≡ true → only_digits s ≡ s
only_digits_kept [] h = refl
only_digits_kept (c ∷ s) h = elim (Bool-cases (is_digit c)) [
  | inl d ↦ rw d (ap (λ t. c ∷ t) (only_digits_kept s (ground arith)))
  | inr n ↦ absurd (ground arith)
]

-- Normalising a bankgiro number leaves digits only, a second time changes nothing, and a number is valid
-- exactly if its normal form is.
normalize_bankgiro_normal :
    (s : Text)
    → (all_digits (normalize_bankgiro s) ≡ true)
      × (normalize_bankgiro (normalize_bankgiro s) ≡ normalize_bankgiro s)
      × (is_valid_bankgiro (normalize_bankgiro s) ≡ is_valid_bankgiro s)
unfolding normalize_bankgiro is_valid_bankgiro
normalize_bankgiro_normal s =
    let d = only_digits-all_digits s in
    let e = only_digits_kept (only_digits s) d in (d, e, rw e refl)
