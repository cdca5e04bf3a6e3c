-- ===== src/Session/Edit/Candidates.antt =====
-- The candidates of `locate_candidates`, and the choice of `resolve_candidate`.
use ai_editor.Prelude.{
  ℕ, zero, suc, ◌+◌, ◌-◌, ◌≤◌, ◌<◌, ◌≡◌, ◌↔◌, ◌⊎◌, refl, sym, true, false, List, [], ◌∷◌, some,
  arith, length, get_elem?, if◌then◌else◌, Option-cases, Bool-cases, inl, inr,
}
use ai_editor.Text.{Bytes, is_empty}
use ai_editor.Text.Find.Last.{rfind-before}
use ai_editor.Text.Find.{rfind, find, find-some, OccursAt}
use ai_editor.Outcome.{ok, is_ok}
use ai_editor.Document.Laws.{All, All-get_elem?}
use ai_editor.Session.Types.{Selector}
use ai_editor.Session.Edit.{
  CandidateRange, allowed, locate_loop, locate_candidates, pick, resolve_candidate,
}

-- A candidate is a whole occurrence of the query. Where the selector names an anchor before it, the
-- anchor stands at or before the candidate's start, and where it names one after it, at or behind
-- the candidate's end.
pub record IsCandidate (content : Bytes) (selector : Selector) (c : CandidateRange) : Type 0 where
  pub occurs : OccursAt content selector.query c.start
  pub ends : c.end ≡ c.start + length selector.query
  pub inside : c.end ≤ length content
  pub before :
      (selector.anchor_before ≡ [])
      ⊎ ((k : ℕ) × (k ≤ c.start) × OccursAt content selector.anchor_before k)
  pub after :
      (selector.anchor_after ≡ [])
      ⊎ ((k : ℕ) × (c.end ≤ k)
          × (k + length selector.anchor_after ≤ length content)
          × OccursAt content selector.anchor_after k)

-- Each candidate starts at or after the end of the one before, and the ordinals count up.
abbrev pub InOrder : ℕ → ℕ → List CandidateRange → Type 0
InOrder pos ordinal [] = Unit
InOrder pos ordinal (c ∷ cs) =
    (pos ≤ c.start) × (c.ordinal ≡ ordinal + 1) × InOrder c.end c.ordinal cs

InOrder-later :
    (p q ordinal : ℕ) (cs : List CandidateRange)
    → p ≤ q
    → InOrder q ordinal cs
    → InOrder p ordinal cs
InOrder-later p q ordinal [] l h = tt
InOrder-later p q ordinal (c ∷ cs) l (a, b, h) = (omega arith, b, h)

module _ (content : Bytes) (selector : Selector) where
  allowed-before :
      (pos end : ℕ)
      → allowed content selector pos end ≡ true
      → (selector.anchor_before ≡ [])
        ⊎ ((k : ℕ) × (k ≤ pos) × OccursAt content selector.anchor_before k)
  allowed-before pos end h = elim (Bool-cases (is_empty selector.anchor_before)) [
    | inl e ↦ inl (ground arith)
    | inr e ↦ elim (Option-cases (rfind content selector.anchor_before pos)) [
      | inl n ↦ absurd (ground arith)
      | inr (k, f) ↦
          let (l, o) = rfind-before content selector.anchor_before pos k f in inr (k, l, o)
    ]
  ]

  allowed-after :
      (pos end : ℕ)
      → allowed content selector pos end ≡ true
      → (selector.anchor_after ≡ [])
        ⊎ ((k : ℕ) × (end ≤ k)
            × (k + length selector.anchor_after ≤ length content)
            × OccursAt content selector.anchor_after k)
  allowed-after pos end h = elim (Bool-cases (is_empty selector.anchor_after)) [
    | inl e ↦ inl (ground arith)
    | inr e ↦ elim (Option-cases (find content selector.anchor_after end)) [
      | inl n ↦ absurd (ground arith)
      | inr (k, f) ↦
          let (l, o, b) = find-some content selector.anchor_after end k f in inr (k, l, b, o)
    ]
  ]

  locate_loop_sound :
      (fuel pos ordinal : ℕ) (cs : List CandidateRange)
      → locate_loop fuel content selector pos ordinal ≡ some cs
      → All (IsCandidate content selector) cs × InOrder pos ordinal cs
  unfolding locate_loop
  locate_loop_sound zero pos ordinal cs h = absurd (ground arith)
  locate_loop_sound (suc fuel) pos ordinal cs h =
      elim (Option-cases (find content selector.query pos)) [
        | inl e ↦ let same : [] ≡ cs = ground arith in rw (sym same) (tt, tt)
        | inr (p, e) ↦
            let (l, o, b) = find-some content selector.query pos p e in
            let end : ℕ = p + length selector.query in
            elim (Bool-cases (allowed content selector p end)) [
              | inl a ↦ elim (Option-cases (locate_loop fuel content selector end (ordinal + 1))) [
                | inl n ↦ absurd (ground arith)
                | inr (rest, f) ↦
                    let (r, s) = locate_loop_sound fuel end (ordinal + 1) rest f in
                    let c : CandidateRange = record {
                      start = p;
                      end = end;
                      ordinal = ordinal + 1;
                    } in
                    let same : c ∷ rest ≡ cs = ground arith in
                    rw (sym same) (
                      (
                        record {
                          occurs = o;
                          ends = refl;
                          inside = b;
                          before = allowed-before p end a;
                          after = allowed-after p end a;
                        },
                        r,
                      ),
                      (l, refl, s),
                    )
              ]
              | inr a ↦
                  let (r, s) = locate_loop_sound fuel end ordinal cs (ground arith) in
                  (r, InOrder-later pos end ordinal cs (omega arith) s)
            ]
      ]

InOrder-ordinal :
    (pos ordinal : ℕ) (cs : List CandidateRange) (i : ℕ) (c : CandidateRange)
    → InOrder pos ordinal cs
    → get_elem? cs i ≡ some c
    → c.ordinal ≡ ordinal + i + 1
InOrder-ordinal pos ordinal [] i c h e = cc
InOrder-ordinal pos ordinal (d ∷ cs) zero c (a, b, h) e = ground arith
InOrder-ordinal pos ordinal (d ∷ cs) (suc i) c (a, b, h) e =
    omega (arith, InOrder-ordinal d.end d.ordinal cs i c h e)

get_elem?-lt {ℓ} :
    {A : Type ℓ} (xs : List A) (i : ℕ) → i < length xs → (x : A) × (get_elem? xs i ≡ some x)
get_elem?-lt [] i h = absurd (omega arith)
get_elem?-lt (x ∷ xs) zero h = (x, refl)
get_elem?-lt (x ∷ xs) (suc i) h = get_elem?-lt xs i (omega arith)

pub locate_candidates-some :
    (content : Bytes) (selector : Selector) (cs : List CandidateRange)
    → is_empty selector.query ≡ false
    → locate_loop (length content + 1) content selector 0 0 ≡ some cs
    → locate_candidates content selector ≡ cs
unfolding locate_candidates
locate_candidates-some content selector cs e h = rw (e, h) refl

-- Every candidate is an occurrence of the query, with the anchor before it, if any, at or before its
-- start (it may reach into the candidate) and the anchor after it, if any, at or behind its end; the
-- candidates do not overlap, and their ordinals count 1, 2, 3, …
pub locate_candidates_sound :
    (content : Bytes) (selector : Selector)
    → All (IsCandidate content selector) (locate_candidates content selector)
      × InOrder 0 0 (locate_candidates content selector)
unfolding locate_candidates
locate_candidates_sound content selector = elim (Bool-cases (is_empty selector.query)) [
  | inl e ↦ rw e (tt, tt)
  | inr e ↦ elim (Option-cases (locate_loop (length content + 1) content selector 0 0)) [
    | inl n ↦ rw (e, n) (tt, tt)
    | inr (cs, f) ↦ rw (e, f) (locate_loop_sound content selector (length content + 1) 0 0 cs f)
  ]
]

pick-ok : (cs : List CandidateRange) (i : ℕ) → i < length cs → is_ok (pick cs i) ≡ true
pick-ok cs i h = ground (arith, (get_elem?-lt cs i h).1)

-- The position, from 0, that a selector counts to among `count` candidates.
abbrev pub chosen_index : Selector → ℕ → ℕ
chosen_index selector count =
    if selector.from_end then count - selector.occurrence else selector.occurrence - 1

-- The choice succeeds exactly for an occurrence from 1 to the number of candidates.
pub resolve_candidate_ok_iff :
    (content : Bytes) (selector : Selector)
    → (is_ok (resolve_candidate content selector).0 ≡ true) ↔ (
        (0 < selector.occurrence)
        × (selector.occurrence ≤ length (locate_candidates content selector)))
unfolding resolve_candidate
resolve_candidate_ok_iff content selector =
    let cs = locate_candidates content selector in
    (
      λ h. ground arith,
      λ (a, b). ground (
        arith,
        pick-ok cs (length cs - selector.occurrence) (omega arith),
        pick-ok cs (selector.occurrence - 1) (omega arith),
      ),
    )

pick-some :
    (cs : List CandidateRange) (i : ℕ) (c : CandidateRange)
    → pick cs i ≡ ok c
    → get_elem? cs i ≡ some c
pick-some cs i c h = ground arith

resolve_candidate-picks :
    (content : Bytes) (selector : Selector) (c : CandidateRange)
    → (resolve_candidate content selector).0 ≡ ok c
    → let cs = locate_candidates content selector in
      (0 < selector.occurrence)
      × (selector.occurrence ≤ length cs)
      × (get_elem? cs (chosen_index selector (length cs)) ≡ some c)
unfolding resolve_candidate
resolve_candidate-picks content selector c h =
    let cs = locate_candidates content selector in
    ground (
      arith,
      pick-some cs (length cs - selector.occurrence) c,
      pick-some cs (selector.occurrence - 1) c,
    )

-- Whatever is chosen is a candidate, and its ordinal is the one that the selector counts to, from
-- the front or from the end.
pub resolve_candidate_sound :
    (content : Bytes) (selector : Selector) (c : CandidateRange)
    → (resolve_candidate content selector).0 ≡ ok c
    → IsCandidate content selector c
      × (c.ordinal ≡ (
          if selector.from_end
          then length (locate_candidates content selector) + 1 - selector.occurrence
          else selector.occurrence))
resolve_candidate_sound content selector c h =
    let cs = locate_candidates content selector in
    let i = chosen_index selector (length cs) in
    let (a, b, e) = resolve_candidate-picks content selector c h in
    let (s, o) = locate_candidates_sound content selector in
    (
      All-get_elem? (IsCandidate content selector) cs i c s e,
      ground (arith, InOrder-ordinal 0 0 cs i c o e),
    )
