-- ===== src/Json/Scan.antt =====
-- The search for a key, one character at a time: where the key does not begin it goes on, and a
-- hit that no colon follows is passed over.
use ai_editor.Prelude.{
  ℕ, zero, suc, ◌+◌, ◌<◌, ◌≡◌, refl, sym, ap, ◌∙◌, true, false, ◌∷◌, ◌++◌, Option, none, some,
  arith, length, drop, Option-cases, inl, inr, length-append, drop-append, length-drop,
}
use ai_editor.Text.{Bytes, starts_with}
use ai_editor.Text.Find.{find, find-hit, find-skip, starts_with-append, find-some}
use mathlib.Core.Option
use ai_editor.Json.{find_value, after_colon, find_json_value_start, quoted}

abbrev pub value_or : Option Bytes → Option Bytes → Option Bytes
value_or none next = next
value_or (some value) next = some value

-- One round of the loop, from where the search has hit.
abbrev round : ℕ → Bytes → Bytes → Option ℕ → Option Bytes
round fuel needle text none = none
round fuel needle text (some p) =
    let after = drop (p + length needle) text in
    value_or (after_colon after) (find_value fuel needle after)

find_value-round :
    (fuel : ℕ) (needle text : Bytes)
    → find_value (suc fuel) needle text ≡ round fuel needle text (find text needle 0)
unfolding find_value
find_value-round fuel needle text = elim (Option-cases (find text needle 0)) [
  | inl e ↦ rw (e, find_value)
  | inr (p, e) ↦ elim (Option-cases (after_colon (drop (p + length needle) text))) [
    | inl a ↦ rw (e, a, find_value)
    | inr (v, a) ↦ rw (e, a, find_value)
  ]
]

find_value-hit :
    (fuel : ℕ) (needle text : Bytes)
    → starts_with text needle ≡ true
    → find_value (suc fuel) needle text
      ≡ value_or
          (after_colon (drop (length needle) text))
          (find_value fuel needle (drop (length needle) text))
find_value-hit fuel needle text h =
    find_value-round fuel needle text
    ∙ ap (round fuel needle text) (find-hit text needle h)
    ∙ ap (λ n. value_or (after_colon (drop n text)) (find_value fuel needle (drop n text)))
        {x = 0 + length needle} (omega arith)

find_value-skip :
    (fuel : ℕ) (needle : Bytes) (c : ℕ) (text : Bytes)
    → starts_with (c ∷ text) needle ≡ false
    → find_value (suc fuel) needle (c ∷ text) ≡ find_value (suc fuel) needle text
find_value-skip fuel needle c text h =
    find_value-round fuel needle (c ∷ text)
    ∙ ap (round fuel needle (c ∷ text)) (find-skip c text needle h)
    ∙ go (find text needle 0)
    ∙ sym (find_value-round fuel needle text)
  where
    go : (o : Option ℕ) → round fuel needle (c ∷ text) (Option.map suc o) ≡ round fuel needle text o
    go none = refl
    go (some p) =
        ap
          (λ n.
            value_or (after_colon (drop n (c ∷ text))) (find_value fuel needle (drop n (c ∷ text))))
          {x = suc p + length needle} {y = suc (p + length needle)} (omega arith)

module _ (needle : Bytes) (some_needle : 0 < length needle) where
  -- Two numbers of rounds that exceed the length of the text give the same value.
  find_value_fuel :
      (f g : ℕ) (text : Bytes)
      → length text < f
      → length text < g
      → find_value f needle text ≡ find_value g needle text
  find_value_fuel zero g text hf hg = absurd (omega arith)
  find_value_fuel (suc f) zero text hf hg = absurd (omega arith)
  find_value_fuel (suc f) (suc g) text hf hg = elim (Option-cases (find text needle 0)) [
    | inl e ↦ rw (find_value-round f needle text, find_value-round g needle text, e)
    | inr (p, e) ↦
        let after = drop (p + length needle) text in
        let (_, _, b) = find-some text needle 0 p e in
        let l : length after < length text = omega (arith, length-drop (p + length needle) text) in
        rw (find_value-round f needle text, find_value-round g needle text, e)
          (ap (value_or (after_colon after))
            (find_value_fuel f g after (omega arith) (omega arith)))
  ]

-- The search with as many rounds as the source's loop can make.
abbrev pub value_at : Bytes → Bytes → Option Bytes
value_at key text = find_json_value_start text key

module _ (key : Bytes) where
  quoted_pos : 0 < length (quoted key)
  quoted_pos = omega arith

  -- Where the key does not begin the search goes on with the next character.
  pub value_at-skip :
      (c : ℕ) (text : Bytes)
      → starts_with (c ∷ text) (quoted key) ≡ false
      → value_at key (c ∷ text) ≡ value_at key text
  unfolding find_json_value_start
  value_at-skip c text h =
      ap (λ n. find_value n (quoted key) (c ∷ text)) {y = suc (length text + 1)} (omega arith)
      ∙ find_value-skip (length text + 1) (quoted key) c text h
      ∙ find_value_fuel (quoted key) quoted_pos (suc (length text + 1)) (length text + 1) text
          (omega arith) (omega arith)

  -- A hit is taken if a colon follows, and passed over otherwise.
  pub value_at-hit :
      (rest : Bytes)
      → value_at key (quoted key ++ rest) ≡ value_or (after_colon rest) (value_at key rest)
  unfolding find_json_value_start
  value_at-hit rest =
      let text = quoted key ++ rest in
      ap (λ n. find_value n (quoted key) text) {y = suc (length text)} (omega arith)
      ∙ find_value-hit (length text) (quoted key) text (starts_with-append (quoted key) rest)
      ∙ ap (λ t. value_or (after_colon t) (find_value (length text) (quoted key) t))
          (drop-append (quoted key) rest)
      ∙ ap (value_or (after_colon rest)) (
          find_value_fuel (quoted key) quoted_pos (length text) (length rest + 1) rest
            (omega (arith, length-append (quoted key) rest, quoted_pos)) (omega arith))
