-- ===== src/Text/Decimal.antt =====
-- Numbers as texts: `operator<<` and `std::to_string` of unsigned numbers, `integral_to_string` of
-- session_service.cpp, and `std::stoull`.
pub mod Digits
use ai_editor.Prelude.{
  ℕ, zero, suc, ◌+◌, ◌-◌, ◌*◌, ◌/◌, ◌%◌, ◌^◌, ◌≤◌, ◌≡◌, ap, ◌∙◌, true, false, [], ◌∷◌, ◌++◌, Option,
  none, some, arith, ◌==◌, ltb, if◌then◌else◌, Bool-cases, inl, inr, Bool,
}
use ai_editor.Text.Core.{Bytes, is_space, is_digit}
use mathlib.Core.Option
use mathlib.Core.List.{reverse, foldl, foldl-append, reverse-cons}

-- A signed number; `negsuc n` is -(n + 1).
pub data ℤ : Type 0 where
  pos : ℕ → ℤ
  negsuc : ℕ → ℤ

-- The digits of a number, the last one first. A number has no more digits than units.
digits_reversed : ℕ → ℕ → Bytes
digits_reversed zero magnitude = []
digits_reversed (suc fuel) magnitude = elim (magnitude == 0) [
  | true ↦ []
  | false ↦ (b'0' + magnitude % 10) ∷ digits_reversed fuel (magnitude / 10)
]

unfoldable pub to_decimal : ℕ → Bytes
unfolding digits_reversed
to_decimal magnitude =
    if magnitude == 0 then b'0' ∷ [] else reverse (digits_reversed magnitude magnitude)

unfoldable pub integral_to_string : ℤ → Bytes
unfolding to_decimal
integral_to_string (pos magnitude) = to_decimal magnitude
integral_to_string (negsuc n) = b'-' ∷ to_decimal (suc n)

-- The number that digits write.
unfoldable pub decimal_value : Bytes → ℕ
decimal_value = foldl (λ acc c. acc * 10 + (c - b'0')) 0

-- `std::stoull` of a run of digits: none if it throws `out_of_range`.
unfoldable pub stoull : Bytes → Option ℕ
unfolding decimal_value
stoull digits = if ltb (decimal_value digits) (2 ^ 64) then some (decimal_value digits) else none

-- `a < b`
unfoldable pub int_lt : ℤ → ℤ → Bool
int_lt (pos a) (pos b) = ltb a b
int_lt (pos a) (negsuc b) = false
int_lt (negsuc a) (pos b) = true
int_lt (negsuc a) (negsuc b) = ltb b a

skip_spaces : Bytes → Bytes
skip_spaces [] = []
skip_spaces (c ∷ text) = let rest = skip_spaces text in if is_space c then rest else c ∷ text

-- The digits that a text begins with.
leading_digits : Bytes → Bytes
leading_digits [] = []
leading_digits (c ∷ text) = let rest = leading_digits text in if is_digit c then c ∷ rest else []

-- The value of the digits behind a sign: none if there are none, or if they are out of range. A
-- negative number wraps around.
signed_value : Bool → Bytes → Option ℕ
unfolding leading_digits stoull
signed_value negative text = elim (leading_digits text) [
  | [] ↦ none
  | d ∷ ds ↦ Option.map (λ v. if negative then (2 ^ 64 - v) % 2 ^ 64 else v) (stoull (d ∷ ds))
]

signed_text : Bytes → Option ℕ
unfolding signed_value
signed_text [] = none
signed_text (c ∷ text) =
    if c == b'-'
    then signed_value true text
    else if c == b'+'
    then signed_value false text
    else signed_value false (c ∷ text)

-- `std::stoull` of any text: none if it throws.
unfoldable pub stoull_text : Bytes → Option ℕ
unfolding skip_spaces signed_text
stoull_text text = signed_text (skip_spaces text)

digits_reversed-value :
    (fuel n : ℕ) → n ≤ fuel → decimal_value (reverse (digits_reversed fuel n)) ≡ n
unfolding digits_reversed decimal_value
digits_reversed-value zero n h = omega arith
digits_reversed-value (suc fuel) n h = elim (Bool-cases (n == 0)) [
  | inl e ↦ rw (e, digits_reversed) (ground arith)
  | inr e ↦
      let ds = digits_reversed fuel (n / 10) in
      let shift : (l : Bytes) (c : ℕ)
          → decimal_value (l ++ (c ∷ [])) ≡ decimal_value l * 10 + (c - b'0') =
        λ l c. foldl-append (λ acc c. acc * 10 + (c - b'0')) 0 l (c ∷ []) in
      rw (e, digits_reversed)
        (ap decimal_value (reverse-cons (b'0' + n % 10) ds)
          ∙ shift (reverse ds) (b'0' + n % 10)
          ∙ omega (arith, digits_reversed-value fuel (n / 10) (ground arith)))
]

-- A number is read back from its digits.
pub decimal_value-to_decimal : (n : ℕ) → decimal_value (to_decimal n) ≡ n
unfolding to_decimal decimal_value
decimal_value-to_decimal n = elim (Bool-cases (n == 0)) [
  | inl e ↦ rw e (ground arith)
  | inr e ↦ rw e (digits_reversed-value n n (omega arith))
]
