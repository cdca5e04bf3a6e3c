-- ===== src/Patch/Diff/Rewrites.antt =====
-- The hunk of a diff and the two texts.
use ai_editor.Prelude.{
  ℕ, zero, suc, ◌+◌, ◌-◌, ◌≤◌, ◌≡◌, refl, sym, ap, ◌∙◌, true, ◌&&◌, List, [], ◌∷◌, ◌++◌, some,
  arith, length, take, drop, get_elem?, ltb, Bool-cases, Option-cases, inl, inr, take-append-drop,
  drop-drop,
}
use ai_editor.Text.{Bytes, str_eq, str_eq_iff}
use ai_editor.Patch.Diff.{common_prefix, same_line, suffix_loop, hunk_of, between}

take-common_prefix :
    (old new : List Bytes)
    → (take (common_prefix old new) old ≡ take (common_prefix old new) new)
      × (common_prefix old new ≤ length old)
      × (common_prefix old new ≤ length new)
unfolding common_prefix
take-common_prefix [] new = (refl, omega arith, omega arith)
take-common_prefix (o ∷ old) [] = (refl, omega arith, omega arith)
take-common_prefix (o ∷ old) (n ∷ new) =
    let (e, a, b) = take-common_prefix old new in
    elim (Bool-cases (str_eq o n)) [
      | inl same ↦ rw same (
        ap (λ x. x ∷ take (common_prefix old new) old) ((str_eq_iff o n).0 same)
            ∙ ap (λ l. n ∷ l) e,
        omega arith,
        omega arith,
      )
      | inr other ↦ rw other (refl, omega arith, omega arith)
    ]

drop-get_elem? :
    (l : List Bytes) (i : ℕ) (x : Bytes) → get_elem? l i ≡ some x → drop i l ≡ x ∷ drop (suc i) l
drop-get_elem? [] i x h = ground arith
drop-get_elem? (y ∷ l) zero x h = ground arith
drop-get_elem? (y ∷ l) (suc i) x h = drop-get_elem? l i x h

drop-length : (l : List Bytes) → drop (length l) l ≡ []
drop-length [] = refl
drop-length (x ∷ l) = drop-length l

module _ (old new : List Bytes) (prefix : ℕ) where
  same_line-some :
      (i j : ℕ)
      → same_line old new i j ≡ true
      → (x : Bytes) × (get_elem? old i ≡ some x) × (get_elem? new j ≡ some x)
  unfolding same_line
  same_line-some i j h = elim (Option-cases (get_elem? old i)) [
    | inl e ↦ absurd (ground (arith, e, h))
    | inr (x, e) ↦ elim (Option-cases (get_elem? new j)) [
      | inl k ↦ absurd (ground (arith, e, k, h))
      | inr (y, k) ↦
          let same = (str_eq_iff x y).0 (ground (arith, e, k, h)) in (x, e, k ∙ ap some (sym same))
    ]
  ]

  same_line-drop :
      (i j : ℕ)
      → same_line old new i j ≡ true
      → drop (suc i) old ≡ drop (suc j) new
      → drop i old ≡ drop j new
  same_line-drop i j h e =
      let (x, a, b) = same_line-some i j h in
      drop-get_elem? old i x a ∙ ap (λ l. x ∷ l) e ∙ sym (drop-get_elem? new j x b)

  suffix_loop_lem :
      (i j : ℕ)
      → prefix ≤ i
      → prefix ≤ j
      → drop i old ≡ drop j new
      → let (a, b) = suffix_loop old new prefix i j in
        (prefix ≤ a) × (prefix ≤ b) × (drop a old ≡ drop b new)
  unfolding suffix_loop
  suffix_loop_lem zero j p q e = (p, q, e)
  suffix_loop_lem (suc i) zero p q e = (p, q, e)
  suffix_loop_lem (suc i) (suc j) p q e =
      elim (Bool-cases (ltb prefix (suc i) && ltb prefix (suc j) && same_line old new i j)) [
        | inl go ↦
            let on = same_line-drop i j (ground (arith, go)) e in
            let rest = suffix_loop_lem i j (ground (arith, go)) (ground (arith, go)) on in
            rw go rest
        | inr stop ↦ rw stop (p, q, e)
      ]

cut_at : (l : List Bytes) (a b : ℕ) → a ≤ b → l ≡ take a l ++ (between a b l ++ drop b l)
cut_at l a b h =
    sym (take-append-drop a l)
    ∙ ap (λ t. take a l ++ t)
        (sym (take-append-drop (b - a) (drop a l))
          ∙ ap (λ t. take (b - a) (drop a l) ++ t)
              (drop-drop a (b - a) l ∙ ap (λ k. drop k l) {x = a + (b - a)} {y = b} (omega arith)))

-- The hunk of two texts' lines turns the one into the other: the old lines are the lines before the
-- hunk, those it removes and those after it, and the new lines are the same ones before and after
-- it with those it adds in between.
pub hunk_of_rewrites :
    (old new : List Bytes)
    → let hunk = hunk_of old new in
      (old
        ≡ take hunk.prefix old
          ++ (between hunk.prefix hunk.old_suffix old ++ drop hunk.old_suffix old))
      × (new
          ≡ take hunk.prefix old
            ++ (between hunk.prefix hunk.new_suffix new ++ drop hunk.old_suffix old))
unfolding hunk_of
hunk_of_rewrites old new =
    let (same, a, b) = take-common_prefix old new in
    let prefix = common_prefix old new in
    let (p, q, e) =
      suffix_loop_lem old new prefix (length old) (length new) a b
        (drop-length old ∙ sym (drop-length new)) in
    let (old_suffix, new_suffix) = suffix_loop old new prefix (length old) (length new) in
    (
      cut_at old prefix old_suffix p,
      cut_at new prefix new_suffix q
          ∙ ap (λ t. t ++ (between prefix new_suffix new ++ drop new_suffix new)) (sym same)
          ∙ ap (λ t. take prefix old ++ (between prefix new_suffix new ++ t)) (sym e),
    )
