-- ===== src/Text/Decimal/Digits.antt =====
-- The text of a number is made of digits, and `std::stoull` reads it back.
use ai_editor.Prelude.{
  ℕ, zero, suc, ◌/◌, ◌<◌, ◌^◌, ◌≡◌, ◌≢◌, refl, sym, ap, ◌∙◌, Bool, true, [], ◌∷◌, ◌++◌, some, arith,
  ◌==◌, Bool-cases, inl, inr,
}
use ai_editor.Text.Core.{Bytes, is_digit}
use ai_editor.Text.Decimal.{
  digits_reversed, to_decimal, decimal_value, stoull, skip_spaces, leading_digits, signed_value,
  signed_text, stoull_text, decimal_value-to_decimal,
}
use mathlib.Core.List.{reverse, reverse-cons}

-- Every byte passes a test.
abbrev pub All : (ℕ → Bool) → Bytes → Type 0
All test [] = Unit
All test (c ∷ text) = (test c ≡ true) × All test text

pub All-append : (test : ℕ → Bool) (s t : Bytes) → All test s → All test t → All test (s ++ t)
All-append test [] t a b = b
All-append test (c ∷ s) t (e, a) b = (e, All-append test s t a b)

pub All-imp :
    (test other : ℕ → Bool) (t : Bytes)
    → ((c : ℕ) → test c ≡ true → other c ≡ true)
    → All test t
    → All other t
All-imp test other [] k a = tt
All-imp test other (c ∷ t) k (e, a) = (k c e, All-imp test other t k a)

All-reverse : (test : ℕ → Bool) (t : Bytes) → All test t → All test (reverse t)
All-reverse test [] a = tt
All-reverse test (c ∷ t) (e, a) =
    rw (reverse-cons c t) (All-append test (reverse t) (c ∷ []) (All-reverse test t a) (e, tt))

All-digits_reversed : (fuel n : ℕ) → All is_digit (digits_reversed fuel n)
unfolding digits_reversed
All-digits_reversed zero n = tt
All-digits_reversed (suc fuel) n = elim (Bool-cases (n == 0)) [
  | inl e ↦ rw (e, digits_reversed, All) tt
  | inr e ↦ rw (e, digits_reversed, All) (ground arith, All-digits_reversed fuel (n / 10))
]

pub All-to_decimal : (n : ℕ) → All is_digit (to_decimal n)
unfolding to_decimal
All-to_decimal n = elim (Bool-cases (n == 0)) [
  | inl e ↦ rw e (refl, tt)
  | inr e ↦ rw e (All-reverse is_digit (digits_reversed n n) (All-digits_reversed n n))
]

leading_digits-All : (t : Bytes) → All is_digit t → leading_digits t ≡ t
unfolding leading_digits
leading_digits-All [] a = refl
leading_digits-All (c ∷ t) (e, a) = rw (e, leading_digits-All t a)

skip_spaces-All : (t : Bytes) → All is_digit t → skip_spaces t ≡ t
unfolding skip_spaces
skip_spaces-All [] a = refl
skip_spaces-All (c ∷ t) (e, a) = ground arith

stoull_text_digits :
    (t : Bytes) (n : ℕ) → All is_digit t → t ≢ [] → stoull t ≡ some n → stoull_text t ≡ some n
unfolding stoull_text signed_text signed_value
stoull_text_digits [] n a ne h = absurd (ne refl)
stoull_text_digits (c ∷ t) n (e, a) ne h =
    rw (skip_spaces-All (c ∷ t) (e, a)) (ground (arith, leading_digits-All (c ∷ t) (e, a)))

to_decimal-nonempty : (n : ℕ) → to_decimal n ≢ []
unfolding to_decimal
to_decimal-nonempty n e =
    let none_left : n ≡ 0 =
      sym (decimal_value-to_decimal n) ∙ ap decimal_value e ∙ unfold decimal_value in refl in
    absurd (ground (arith, ap to_decimal (sym none_left) ∙ e))

-- `std::stoull` reads the text of a 64-bit number back.
pub stoull_text-to_decimal : (n : ℕ) → n < 2 ^ 64 → stoull_text (to_decimal n) ≡ some n
stoull_text-to_decimal n h =
    stoull_text_digits (to_decimal n) n (All-to_decimal n) (to_decimal-nonempty n)
      (unfold stoull in rw (decimal_value-to_decimal n) (ground arith))
