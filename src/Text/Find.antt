-- ===== src/Text/Find.antt =====
-- `std::string::find` and `std::string::rfind`, with what a hit and a miss say.
pub mod Last
use ai_editor.Prelude.{
  ℕ, zero, suc, ◌+◌, ◌-◌, ◌≤◌, ◌<◌, min, ◌≡◌, refl, Bool, true, false, [], ◌∷◌, ◌++◌, sym, ◌∙◌,
  Option-cases, length-drop, drop-drop, Option, none, some, arith, length, take, drop, leb,
  if◌then◌else◌, ap, Bool-cases, inl, inr,
}
use ai_editor.Text.Core.{Bytes, starts_with}
use mathlib.Core.Option

-- The first offset at which `needle` stands.
first_at : Bytes → Bytes → Option ℕ
first_at needle [] = if starts_with [] needle then some 0 else none
first_at needle (t ∷ ts) =
    let rest = first_at needle ts in
    if starts_with (t ∷ ts) needle then some 0 else Option.map suc rest

-- `text.find(needle, pos)`
unfoldable pub find : Bytes → Bytes → ℕ → Option ℕ
unfolding first_at
find text needle pos =
    if leb pos (length text)
    then Option.map (λ k. pos + k) (first_at needle (drop pos text))
    else none

-- The last offset up to `pos` at which `needle` stands.
last_at : Bytes → Bytes → ℕ → Option ℕ
last_at needle text zero = if starts_with text needle then some 0 else none
last_at needle text (suc p) =
    let rest = last_at needle text p in
    if starts_with (drop (suc p) text) needle then some (suc p) else rest

-- `text.rfind(needle, pos)`
unfoldable pub rfind : Bytes → Bytes → ℕ → Option ℕ
unfolding last_at
rfind text needle pos = last_at needle text (min pos (length text))

-- `text.find(needle) != npos`
unfoldable pub contains : Bytes → Bytes → Bool
unfolding find
contains text needle = elim (find text needle 0) [ none ↦ false | some k ↦ true ]

-- `needle` stands in `text` at `k`.
abbrev pub OccursAt : Bytes → Bytes → ℕ → Type 0
OccursAt text needle k = starts_with (drop k text) needle ≡ true

pub starts_with-length : (t n : Bytes) → starts_with t n ≡ true → length n ≤ length t
unfolding starts_with
starts_with-length t [] h = omega arith
starts_with-length [] (p ∷ ps) h = cc
starts_with-length (t ∷ ts) (p ∷ ps) h = omega (arith, starts_with-length ts ps (ground arith))

pub starts_with-take : (t n : Bytes) → starts_with t n ≡ true → take (length n) t ≡ n
unfolding starts_with
starts_with-take t [] h = refl
starts_with-take [] (p ∷ ps) h = cc
starts_with-take (t ∷ ts) (p ∷ ps) h = ground (arith, starts_with-take ts ps (ground arith))

pub starts_with-append : (n t : Bytes) → starts_with (n ++ t) n ≡ true
unfolding starts_with
starts_with-append [] t = refl
starts_with-append (p ∷ ps) t = ground (arith, starts_with-append ps t)

first_at-some : (n t : Bytes) (k : ℕ) → first_at n t ≡ some k → OccursAt t n k × (k ≤ length t)
unfolding first_at
first_at-some n [] zero h = ground arith
first_at-some n [] (suc k) h = ground arith
first_at-some n (t ∷ ts) zero h = ground arith
first_at-some n (t ∷ ts) (suc k) h = ground (arith, first_at-some n ts k)

first_at-first :
    (n t : Bytes) (k j : ℕ) → first_at n t ≡ some k → j < k → starts_with (drop j t) n ≡ false
unfolding first_at
first_at-first n [] k zero h l = ground arith
first_at-first n [] k (suc j) h l = ground arith
first_at-first n (t ∷ ts) k zero h l = ground arith
first_at-first n (t ∷ ts) zero (suc j) h l = absurd (omega arith)
first_at-first n (t ∷ ts) (suc k) (suc j) h l = ground (arith, first_at-first n ts k j)

first_at-none :
    (n t : Bytes) (j : ℕ) → first_at n t ≡ none → j ≤ length t → starts_with (drop j t) n ≡ false
unfolding first_at
first_at-none n [] zero h l = ground arith
first_at-none n [] (suc j) h l = absurd (omega arith)
first_at-none n (t ∷ ts) zero h l = ground arith
first_at-none n (t ∷ ts) (suc j) h l = ground (arith, first_at-none n ts j)

pub starts_with-length_at :
    (t n : Bytes) (k : ℕ) → OccursAt t n k → k ≤ length t → k + length n ≤ length t
starts_with-length_at t n k h l = omega (arith, starts_with-length (drop k t) n h, length-drop k t)

-- A hit of `find` stands at or after the start, and whole inside the text.
pub find-some :
    (t n : Bytes) (pos k : ℕ)
    → find t n pos ≡ some k
    → (pos ≤ k) × OccursAt t n k × (k + length n ≤ length t)
unfolding find
find-some t n pos k h = elim (Bool-cases (leb pos (length t))) [
  | inl l ↦ elim (Option-cases (first_at n (drop pos t))) [
    | inl e ↦ absurd (ground arith)
    | inr (i, e) ↦
        let (o, b) = first_at-some n (drop pos t) i e in
        let ik : k ≡ pos + i = ground arith in
        let o' : OccursAt t n (pos + i) = ap (λ u. starts_with u n) (sym (drop-drop pos i t)) ∙ o in
        let b' : pos + i ≤ length t = ground (arith, length-drop pos t) in
        rw ik (omega arith, o', starts_with-length_at t n (pos + i) o' b')
  ]
  | inr g ↦ absurd (ground arith)
]

-- A miss means that the needle stands nowhere from the start on.
pub find-none :
    (t n : Bytes) (pos j : ℕ)
    → find t n pos ≡ none
    → pos ≤ j
    → j ≤ length t
    → starts_with (drop j t) n ≡ false
unfolding find
find-none t n pos j h l b =
    let e : first_at n (drop pos t) ≡ none = ground arith in
    ap (λ u. starts_with u n)
      (ap (λ i. drop i t) {x = j} {y = pos + (j - pos)} (omega arith)
        ∙ sym (drop-drop pos (j - pos) t))
    ∙ first_at-none n (drop pos t) (j - pos) e (omega (arith, length-drop pos t))

-- The hit is the first one from the start on.
pub find-first :
    (t n : Bytes) (pos k j : ℕ)
    → find t n pos ≡ some k
    → pos ≤ j
    → j < k
    → starts_with (drop j t) n ≡ false
unfolding find
find-first t n pos k j h l b = elim (Option-cases (first_at n (drop pos t))) [
  | inl e ↦ absurd (ground arith)
  | inr (i, e) ↦
      let ik : k ≡ pos + i = ground arith in
      ap (λ u. starts_with u n)
        (ap (λ i. drop i t) {x = j} {y = pos + (j - pos)} (omega arith)
          ∙ sym (drop-drop pos (j - pos) t))
      ∙ first_at-first n (drop pos t) i (j - pos) e (omega arith)
]

-- Behind the end nothing is found.
pub find-past : (t n : Bytes) (pos : ℕ) → length t < pos → find t n pos ≡ none
unfolding find
find-past t n pos h = ground arith

first_at-hit : (n t : Bytes) → starts_with t n ≡ true → first_at n t ≡ some 0
unfolding first_at
first_at-hit n [] h = ground arith
first_at-hit n (c ∷ t) h = ground arith

-- A needle that stands at the front is found there.
pub find-hit : (t n : Bytes) → starts_with t n ≡ true → find t n 0 ≡ some 0
unfolding find
find-hit t n h = ground (arith, first_at-hit n t h)

-- A character at which the needle does not begin can be passed over.
pub find-skip :
    (c : ℕ) (t n : Bytes)
    → starts_with (c ∷ t) n ≡ false
    → find (c ∷ t) n 0 ≡ Option.map suc (find t n 0)
find-skip c t n h = unfold find in rw h (ground arith)

first_at_start : (n t : Bytes) → starts_with t n ≡ true → first_at n t ≡ some 0
unfolding first_at
first_at_start n [] h = rw h
first_at_start n (c ∷ t) h = rw h

-- A text contains what it starts with.
pub contains_start : (n t : Bytes) → contains (n ++ t) n ≡ true
unfolding contains find
contains_start n t =
    let here = first_at_start n (n ++ t) (starts_with-append n t) in ground (arith, here)
