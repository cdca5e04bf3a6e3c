-- ===== src/Session/Risk/Levels.antt =====
-- What makes a change risky, and what the ranks of the levels say.
use mathlib.Core.Path.{subst}
use ai_editor.Prelude.{
  zero, suc, sym, ◌==◌, ==_iff, Bool-cases, inl, inr, ℕ, ◌≤◌, ◌<◌, max, ◌≡◌, ◌↔◌, ◌⊎◌, refl, ap,
  ◌∙◌, Bool, true, false, ◌||◌, List, [], ◌∷◌, ltb, leb, arith, if◌then◌else◌,
}
use ai_editor.Text.{Bytes, codes, str_eq, str_eq_iff, is_empty}
use ai_editor.Session.Types.{StagedChange}
use ai_editor.Session.Risk.{
  count_newlines, has, is_high, level_of, risk_checks, reasons_of, new_line_count, risk_reasons,
  evaluate_risk, risk_rank, max_risk_level,
}

-- Whether a check with this reason holds.
abbrev holds_for : List (Bool × Bytes) → Bytes → Bool
holds_for [] v = false
holds_for ((holds, reason) ∷ checks) v =
    if str_eq reason v then holds || holds_for checks v else holds_for checks v

has-reasons_of :
    (checks : List (Bool × Bytes)) (v : Bytes) → has (reasons_of checks) v ≡ holds_for checks v
unfolding has reasons_of
has-reasons_of [] v = refl
has-reasons_of ((holds, reason) ∷ checks) v = ground (arith, has-reasons_of checks v)

-- At least so many bytes of a text are newlines.
pub data HasNewlines : ℕ → Bytes → Type 0 where
  enough : {text : Bytes} → HasNewlines 0 text
  newline : {n : ℕ} {text : Bytes} → HasNewlines n text → HasNewlines (suc n) (10 ∷ text)
  later : {n c : ℕ} {text : Bytes} → HasNewlines n text → HasNewlines n (c ∷ text)

count_newlines-HasNewlines : (n : ℕ) (text : Bytes) → n ≤ count_newlines text → HasNewlines n text
unfolding count_newlines
count_newlines-HasNewlines zero text h = enough
count_newlines-HasNewlines (suc n) [] h = absurd (omega arith)
count_newlines-HasNewlines (suc n) (c ∷ text) h = elim (Bool-cases (c == 10)) [
  | inl e ↦
      let same = (==_iff c 10).0 e in
      subst (λ d. HasNewlines (suc n) (d ∷ text)) (sym same)
        (newline (count_newlines-HasNewlines n text (ground arith)))
  | inr e ↦ later (count_newlines-HasNewlines (suc n) text (ground arith))
]

HasNewlines-count_newlines : (n : ℕ) (text : Bytes) → HasNewlines n text → n ≤ count_newlines text
unfolding count_newlines
HasNewlines-count_newlines _ _ enough = omega arith
HasNewlines-count_newlines _ _ (newline {n} {text} h) =
    ground (arith, HasNewlines-count_newlines n text h)
HasNewlines-count_newlines _ _ (later {n} {c} {text} h) =
    ground (arith, HasNewlines-count_newlines n text h)

module _ (change : StagedChange) (n : ℕ) where
  new_line_count-HasNewlines : (20 ≤ new_line_count change) ↔ HasNewlines 19 change.new_content
  unfolding new_line_count count_newlines
  new_line_count-HasNewlines =
      let text = change.new_content in
      (
        λ h. count_newlines-HasNewlines 19 text (elim (Bool-cases (is_empty text)) [
          | inl e ↦ absurd (ground arith)
          | inr e ↦ ground arith
        ]),
        λ h.
            let many = HasNewlines-count_newlines 19 text h in
            elim (Bool-cases (is_empty text)) [
              | inl e ↦ absurd (ground arith)
              | inr e ↦ ground arith
            ],
      )

  has_destructive :
      has (risk_reasons change n) (codes "destructive-delete")
      ≡ (str_eq change.operation (codes "delete_block") || false)
  unfolding risk_reasons risk_checks str_eq
  has_destructive = has-reasons_of (risk_checks change n) (codes "destructive-delete")

  has_very_large :
      has (risk_reasons change n) (codes "very-large-insert")
      ≡ (leb 20 (new_line_count change) || false)
  unfolding risk_reasons risk_checks str_eq
  has_very_large = has-reasons_of (risk_checks change n) (codes "very-large-insert")

  has_low_specificity :
      has (risk_reasons change n) (codes "low-selector-specificity") ≡ (ltb 3 n || false)
  unfolding risk_reasons risk_checks str_eq
  has_low_specificity = has-reasons_of (risk_checks change n) (codes "low-selector-specificity")

  has_multiple : has (risk_reasons change n) (codes "multiple-candidates") ≡ (ltb 1 n || false)
  unfolding risk_reasons risk_checks str_eq
  has_multiple = has-reasons_of (risk_checks change n) (codes "multiple-candidates")

  IsRisky : Type 0
  IsRisky =
      (1 < n) ⊎ ((change.operation ≡ codes "delete_block") ⊎ HasNewlines 19 change.new_content)

  is_high_iff : (is_high n (risk_reasons change n) ≡ true) ↔ IsRisky
  unfolding is_high IsRisky
  is_high_iff = (
    λ h. ground (
      arith,
      has_destructive,
      has_very_large,
      has_low_specificity,
      str_eq_iff change.operation (codes "delete_block"),
      new_line_count-HasNewlines,
    ),
    λ r. ground (
      arith,
      has_destructive,
      has_very_large,
      has_low_specificity,
      str_eq_iff change.operation (codes "delete_block"),
      new_line_count-HasNewlines,
    ),
  )

  is_high-none : risk_reasons change n ≡ [] → is_high n (risk_reasons change n) ≡ false
  unfolding is_high
  is_high-none e =
      let none_has : (v : Bytes) → has (risk_reasons change n) v ≡ false =
        λ v. ap (λ l. has l v) e ∙ (unfold has in refl) in
      ground (
        arith,
        has_multiple,
        none_has (codes "multiple-candidates"),
        none_has (codes "destructive-delete"),
        none_has (codes "very-large-insert"),
        none_has (codes "low-selector-specificity"),
      )

level_of_high_iff :
    (high : Bool) (reasons : List Bytes) → (level_of high reasons ≡ codes "high") ↔ (high ≡ true)
unfolding level_of
level_of_high_iff high reasons = (λ h. ground arith, λ h. ground arith)

level_of_low :
    (high : Bool) (reasons : List Bytes)
    → (reasons ≡ [] → high ≡ false)
    → (level_of high reasons ≡ codes "low") ↔ (reasons ≡ [])
unfolding level_of
level_of_low high reasons k = (λ h. ground arith, λ h. ground (arith, h, k h))

-- A change is of high risk exactly when its selector has several candidates, it deletes a block, or
-- its new text has at least 19 newlines; and of low risk exactly when there is no reason against it.
pub evaluate_risk_levels :
    (change : StagedChange) (candidate_count : ℕ)
    → let risk = evaluate_risk change candidate_count in
      ((risk.level ≡ codes "high") ↔ (
        (1 < candidate_count)
        ⊎ ((change.operation ≡ codes "delete_block") ⊎ HasNewlines 19 change.new_content)))
      × ((risk.level ≡ codes "low") ↔ (risk.reasons ≡ []))
unfolding evaluate_risk IsRisky
evaluate_risk_levels change n =
    let reasons = risk_reasons change n in
    let high = is_high n reasons in
    let (a, b) = level_of_high_iff high reasons in
    let (c, d) = is_high_iff change n in
    ((λ h. c (a h), λ h. b (d h)), level_of_low high reasons (is_high-none change n))

-- The greater of two levels has the greater of their ranks.
pub risk_rank-max_risk_level :
    (lhs rhs : Bytes) → risk_rank (max_risk_level lhs rhs) ≡ max (risk_rank lhs) (risk_rank rhs)
unfolding max_risk_level
risk_rank-max_risk_level lhs rhs = ground arith
