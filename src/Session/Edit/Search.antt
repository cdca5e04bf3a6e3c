-- ===== src/Session/Edit/Search.antt =====
-- The search of `locate_candidates`: that it ends, and when it finds nothing.
use ai_editor.Prelude.{
  ℕ, zero, suc, ◌+◌, ◌≤◌, ◌<◌, ◌≡◌, ◌↔◌, ◌⊎◌, ap, ◌∙◌, refl, sym, true, false, List, [], ◌∷◌, none,
  some, arith, length, Option-cases, Bool-cases, inl, inr,
}
use ai_editor.Text.{Bytes, is_empty}
use ai_editor.Text.Find.{find, find-some, find-none, OccursAt}
use ai_editor.Document.Laws.{All}
use ai_editor.Session.Types.{Selector}
use ai_editor.Session.Edit.{CandidateRange, allowed, locate_loop, locate_candidates}
use ai_editor.Session.Edit.Candidates.{IsCandidate, locate_candidates-some, locate_candidates_sound}

module _ (content : Bytes) (selector : Selector) where
  -- With a round for each byte left and one more, the loop ends, and further rounds change nothing.
  locate_loop-ends :
      (f g pos ordinal : ℕ)
      → is_empty selector.query ≡ false
      → length content < pos + f
      → length content < pos + g
      → 0 < f
      → 0 < g
      → (cs : List CandidateRange) × (locate_loop f content selector pos ordinal ≡ some cs)
        × (locate_loop g content selector pos ordinal ≡ some cs)
  unfolding locate_loop
  locate_loop-ends zero g pos ordinal q hf hg pf pg = absurd (omega arith)
  locate_loop-ends (suc f) zero pos ordinal q hf hg pf pg = absurd (omega arith)
  locate_loop-ends (suc f) (suc g) pos ordinal q hf hg pf pg =
      elim (Option-cases (find content selector.query pos)) [
        | inl e ↦ ([], rw (e, locate_loop) refl, rw (e, locate_loop) refl)
        | inr (p, e) ↦
            let (l, o, b) = find-some content selector.query pos p e in
            let size : 0 < length selector.query = ground arith in
            let end : ℕ = p + length selector.query in
            let next : (n : ℕ)
                → (cs : List CandidateRange) × (locate_loop f content selector end n ≡ some cs)
                  × (locate_loop g content selector end n ≡ some cs) =
              λ n.
                locate_loop-ends f g end n q (omega arith) (omega arith) (omega arith)
                  (omega arith) in
            elim (Bool-cases (allowed content selector p end)) [
              | inl a ↦
                  let (cs, x, y) = next (ordinal + 1) in
                  (
                    record { start = p; end = end; ordinal = ordinal + 1 } ∷ cs,
                    rw (e, a, x, locate_loop) refl,
                    rw (e, a, y, locate_loop) refl,
                  )
              | inr a ↦
                  let (cs, x, y) = next ordinal in
                  (cs, rw (e, a, x, locate_loop) refl, rw (e, a, y, locate_loop) refl)
            ]
      ]

  -- For a query that is not empty, the loop ends within one round more than the text has bytes, with
  -- the candidates that `locate_candidates` returns.
  pub locate_loop_terminates :
      (fuel : ℕ)
      → is_empty selector.query ≡ false
      → length content < fuel
      → locate_loop fuel content selector 0 0 ≡ some (locate_candidates content selector)
  locate_loop_terminates fuel q h =
      let (cs, x, y) =
        locate_loop-ends fuel (length content + 1) 0 0 q (omega arith) (omega arith) (omega arith)
          (omega arith) in
      x ∙ ap some (sym (locate_candidates-some content selector cs q y))

  locate_loop-empty :
      (fuel pos ordinal : ℕ)
      → is_empty selector.anchor_before ≡ true
      → is_empty selector.anchor_after ≡ true
      → locate_loop fuel content selector pos ordinal ≡ some []
      → find content selector.query pos ≡ none
  unfolding locate_loop
  locate_loop-empty zero pos ordinal b a h = absurd (ground arith)
  locate_loop-empty (suc fuel) pos ordinal b a h =
      elim (Option-cases (find content selector.query pos)) [
        | inl e ↦ e
        | inr (p, e) ↦
            let end : ℕ = p + length selector.query in
            elim (Option-cases (locate_loop fuel content selector end (ordinal + 1))) [
              | inl n ↦ absurd (ground arith)
              | inr (cs, f) ↦ absurd (ground arith)
            ]
      ]

  none_left :
      (cs : List CandidateRange)
      → All (IsCandidate content selector) cs
      → ((k : ℕ) → k ≤ length content → ¬ (OccursAt content selector.query k))
      → cs ≡ []
  none_left [] h never = refl
  none_left (c ∷ cs) (h, _) never =
      absurd (never c.start (omega (arith, h.ends, h.inside)) h.occurs)

  -- Without anchors there is no candidate exactly when the query is empty or stands nowhere in the
  -- text.
  pub locate_candidates-empty_iff :
      is_empty selector.anchor_before ≡ true
      → is_empty selector.anchor_after ≡ true
      → (locate_candidates content selector ≡ []) ↔ (
          (selector.query ≡ [])
          ⊎ ((k : ℕ) → k ≤ length content → ¬ (OccursAt content selector.query k)))
  locate_candidates-empty_iff b a = (
    λ e. elim (Bool-cases (is_empty selector.query)) [
      | inl q ↦ inl (ground arith)
      | inr q ↦ inr (λ k l o.
          let done = locate_loop_terminates (length content + 1) q (omega arith) in
          let n : find content selector.query 0 ≡ none =
            locate_loop-empty (length content + 1) 0 0 b a (done ∙ ap some e) in
          cc (find-none content selector.query 0 k n (omega arith) l))
    ],
    λ c. elim c [
      | inl q ↦ unfold locate_candidates in rw q refl
      | inr never ↦ none_left _ (locate_candidates_sound content selector).0 never
    ],
  )
