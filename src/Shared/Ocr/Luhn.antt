-- ===== src/Shared/Ocr/Luhn.antt =====
-- The Luhn loop that packages/shared/src/ocr/index.ts and packages/shared/src/swedish-id/index.ts
-- both run: its sum splits at any digit, and one wrong digit changes it.
use mathlib.Core.List.{reverse, reverse-append, reverse-cons, append_assoc}
use faktureringssystemet.Prelude.{
  ℕ, ◌+◌, ◌%◌, ◌≤◌, ◌≡◌, refl, ◌∙◌, Bool, true, false, not, [], ◌∷◌, ◌++◌, arith,
}
use faktureringssystemet.Shared.Text.{Text, is_digit}
use faktureringssystemet.Shared.Ocr.{luhn_term, luhn_loop}

-- Whether the digit after `s` is doubled.
abbrev pub parity_after : Bool → Text → Bool
parity_after b [] = b
parity_after b (c ∷ s) = parity_after (not b) s

pub luhn_loop_acc : (b : Bool) (sum : ℕ) (s : Text) → luhn_loop b sum s ≡ sum + luhn_loop b 0 s
unfolding luhn_loop
luhn_loop_acc b sum [] = omega arith
luhn_loop_acc b sum (c ∷ s) = omega (
  arith,
  luhn_loop_acc (not b) (sum + luhn_term b c) s,
  luhn_loop_acc (not b) (0 + luhn_term b c) s,
)

pub luhn_loop-append :
    (b : Bool) (sum : ℕ) (s t : Text)
    → luhn_loop b sum (s ++ t) ≡ luhn_loop (parity_after b s) (luhn_loop b sum s) t
unfolding luhn_loop
luhn_loop-append b sum [] t = refl
luhn_loop-append b sum (c ∷ s) t = luhn_loop-append (not b) (sum + luhn_term b c) s t

pub luhn_loop-cons :
    (b : Bool) (sum c : ℕ) (s : Text)
    → luhn_loop b sum (c ∷ s) ≡ luhn_loop (not b) (sum + luhn_term b c) s
unfolding luhn_loop
luhn_loop-cons b sum c s = refl

luhn_term_bound : (b : Bool) (c : ℕ) → is_digit c ≡ true → luhn_term b c ≤ 9
luhn_term_bound true c h = ground arith
luhn_term_bound false c h = ground arith

luhn_term_injective :
    (b : Bool) (c d : ℕ)
    → is_digit c ≡ true
    → is_digit d ≡ true
    → luhn_term b c ≡ luhn_term b d
    → c ≡ d
luhn_term_injective true c d h k e = ground arith
luhn_term_injective false c d h k e = ground arith

-- The sum with one digit in the middle singled out.
luhn_loop_split :
    (b : Bool) (s t : Text) (c : ℕ)
    → luhn_loop b 0 (s ++ c ∷ t)
      ≡ luhn_loop b 0 s + luhn_term (parity_after b s) c + luhn_loop (not (parity_after b s)) 0 t
luhn_loop_split b s t c =
    luhn_loop-append b 0 s (c ∷ t)
    ∙ (luhn_loop-cons (parity_after b s) (luhn_loop b 0 s) c t
        ∙ luhn_loop_acc (not (parity_after b s)) (luhn_loop b 0 s + luhn_term (parity_after b s) c)
            t)

pub luhn_one_digit :
    (b : Bool) (s t : Text) (c d : ℕ)
    → is_digit c ≡ true
    → is_digit d ≡ true
    → luhn_loop b 0 (s ++ c ∷ t) % 10 ≡ 0
    → luhn_loop b 0 (s ++ d ∷ t) % 10 ≡ 0
    → c ≡ d
luhn_one_digit b s t c d hc hd h k = luhn_term_injective (parity_after b s) c d hc hd (
    omega (
      arith,
      luhn_term_bound (parity_after b s) c hc,
      luhn_term_bound (parity_after b s) d hd,
      luhn_loop_split b s t c,
      luhn_loop_split b s t d,
    ))

pub reverse_middle : (s t : Text) (c : ℕ) → reverse (s ++ c ∷ t) ≡ reverse t ++ c ∷ reverse s
reverse_middle s t c = simp (reverse-append, reverse-cons, append_assoc)
