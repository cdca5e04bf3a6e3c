-- ===== src/Text/Find/Last.antt =====
-- What a hit and a miss of `std::string::rfind` say.
use ai_editor.Prelude.{
  ◌==◌, ==_iff, ℕ, zero, suc, ◌≤◌, ◌<◌, min, ◌≡◌, false, sym, ◌∙◌, none, some, arith, length, drop,
  ap, Bool-cases, inl, inr,
}
use ai_editor.Text.Core.{Bytes, starts_with}
use ai_editor.Text.Find.{last_at, rfind, OccursAt}

last_at-least :
    (n t : Bytes) (p j : ℕ) → OccursAt t n j → j ≤ p → (k : ℕ) × (last_at n t p ≡ some k) × (j ≤ k)
unfolding last_at
last_at-least n t zero zero o l = (0, ground arith, ground arith)
last_at-least n t zero (suc j) o l = absurd (omega arith)
last_at-least n t (suc p) j o l = elim (Bool-cases (starts_with (drop (suc p) t) n)) [
  | inl e ↦ (suc p, ground arith, l)
  | inr e ↦
      let less : j ≤ p = elim (Bool-cases (j == suc p)) [
        | inl same ↦
            let eq = (==_iff j (suc p)).0 same in
            absurd (ground (arith, ap (λ i. starts_with (drop i t) n) eq))
        | inr differs ↦ ground arith
      ] in
      let (k, found, least) = last_at-least n t p j o less in (k, ground arith, least)
]

-- Where the needle stands, `rfind` finds it there or later.
pub rfind-least :
    (t n : Bytes) (j : ℕ)
    → OccursAt t n j
    → j ≤ length t
    → (k : ℕ) × (rfind t n (length t) ≡ some k) × (j ≤ k)
unfolding rfind
rfind-least t n j o l = last_at-least n t (min (length t) (length t)) j o (omega arith)

-- Behind the hit of `rfind` the needle does not stand.
pub rfind-last :
    (t n : Bytes) (k j : ℕ)
    → rfind t n (length t) ≡ some k
    → k < j
    → j ≤ length t
    → starts_with (drop j t) n ≡ false
rfind-last t n k j h l b = elim (Bool-cases (starts_with (drop j t) n)) [
  | inl e ↦ let (i, found, least) = rfind-least t n j e b in absurd (ground arith)
  | inr e ↦ e
]

-- A miss of `rfind` means that the needle stands nowhere.
pub rfind-none :
    (t n : Bytes) (j : ℕ)
    → rfind t n (length t) ≡ none
    → j ≤ length t
    → starts_with (drop j t) n ≡ false
rfind-none t n j h b = elim (Bool-cases (starts_with (drop j t) n)) [
  | inl e ↦ let (i, found, least) = rfind-least t n j e b in absurd (ground arith)
  | inr e ↦ e
]

last_at-some : (n t : Bytes) (p k : ℕ) → last_at n t p ≡ some k → OccursAt t n k
unfolding last_at
last_at-some n t zero zero h = ground arith
last_at-some n t zero (suc k) h = absurd (ground arith)
last_at-some n t (suc p) k h = elim (Bool-cases (starts_with (drop (suc p) t) n)) [
  | inl e ↦ let same : suc p ≡ k = ground arith in ap (λ i. starts_with (drop i t) n) (sym same) ∙ e
  | inr e ↦ last_at-some n t p k (ground arith)
]

last_at-within : (n t : Bytes) (p k : ℕ) → last_at n t p ≡ some k → k ≤ p
unfolding last_at
last_at-within n t zero k h = ground arith
last_at-within n t (suc p) k h = elim (Bool-cases (starts_with (drop (suc p) t) n)) [
  | inl e ↦ ground arith
  | inr e ↦ ground (arith, last_at-within n t p k)
]

-- What `rfind` finds from a position on stands at or before it.
pub rfind-before : (t n : Bytes) (pos k : ℕ) → rfind t n pos ≡ some k → (k ≤ pos) × OccursAt t n k
unfolding rfind
rfind-before t n pos k h =
    let within = last_at-within n t (min pos (length t)) k h in
    (omega arith, last_at-some n t (min pos (length t)) k h)

-- Where `rfind` finds the needle, it stands.
pub rfind-some : (t n : Bytes) (k : ℕ) → rfind t n (length t) ≡ some k → OccursAt t n k
unfolding rfind
rfind-some t n k h = last_at-some n t (min (length t) (length t)) k h
