-- ===== src/Document/Laws.antt =====
-- Splitting a text into lines and joining them again.
use ai_editor.Prelude.{
  ℕ, zero, suc, ◌≡◌, ◌≢◌, refl, sym, ap, ◌∙◌, Bool, true, false, not, ◌&&◌, ◌||◌, List, [], ◌∷◌,
  ◌++◌, none, some, append-nil, append_assoc, Bool-cases, inl, inr, arith, take, drop, get_elem?,
  last?, ◌==◌,
}
use mathlib.Core.Path.{subst}
use mathlib.Core.Option.{some-injective}
use ai_editor.Text.{Bytes, is_empty}
use ai_editor.Document.{
  line_loop, ends_with_newline, close_lines, make_document_from_content, joined, join_lines,
  strip_cr,
}

-- Each line with its newline.
abbrev ended : List Bytes → Bytes
ended [] = []
ended (l ∷ ls) = l ++ (10 ∷ ended ls)

-- Nothing is lost in the loop but the carriage returns.
ended-line_loop :
    (text current : Bytes)
    → ended (line_loop text current).0 ++ (line_loop text current).1 ≡ current ++ strip_cr text
unfolding line_loop strip_cr
ended-line_loop [] current = sym (append-nil current)
ended-line_loop (c ∷ rest) current = ground (
  arith,
  ended-line_loop rest current,
  ended-line_loop rest [],
  ended-line_loop rest (current ++ (c ∷ [])),
  append_assoc current (c ∷ []) (strip_cr rest),
  append_assoc current (10 ∷ ended (line_loop rest []).0) (line_loop rest []).1,
)

joined-snoc : (ls : List Bytes) (l : Bytes) → joined (ls ++ (l ∷ [])) ≡ ended ls ++ l
unfolding joined
joined-snoc [] l = refl
joined-snoc (m ∷ []) l = rw append_assoc
joined-snoc (m ∷ n ∷ ls) l = simp (joined-snoc (n ∷ ls) l, append_assoc)

joined-ended : (ls : List Bytes) → ls ≢ [] → joined ls ++ (10 ∷ []) ≡ ended ls
unfolding joined
joined-ended [] h = absurd (h refl)
joined-ended (m ∷ []) h = refl
joined-ended (m ∷ n ∷ ls) h =
    append_assoc m (10 ∷ joined (n ∷ ls)) (10 ∷ [])
    ∙ ap (λ t. m ++ (10 ∷ t)) (joined-ended (n ∷ ls) (λ e. cc))

-- After a text that ends with a newline no line is open.
line_loop_closed :
    (text current : Bytes)
    → ends_with_newline text ≡ true
    → ((line_loop text current).1 ≡ []) × ((line_loop text current).0 ≢ [])
unfolding line_loop
line_loop_closed [] current h = cc
line_loop_closed (c ∷ []) current h = ground arith
line_loop_closed (c ∷ d ∷ rest) current h = ground (
  arith,
  line_loop_closed (d ∷ rest) current,
  line_loop_closed (d ∷ rest) [],
  line_loop_closed (d ∷ rest) (current ++ (c ∷ [])),
)

module _ (text : Bytes) where
  lines_of_closed :
      ends_with_newline text ≡ true
      → joined (close_lines text (line_loop text [])) ++ (10 ∷ []) ≡ strip_cr text
  lines_of_closed h =
      let (last, some_line) = line_loop_closed text [] h in
      ap (λ ls. joined ls ++ (10 ∷ [])) {y = (line_loop text []).0} (ground arith)
      ∙ joined-ended (line_loop text []).0 some_line
      ∙ sym (append-nil (ended (line_loop text []).0))
      ∙ ap (λ l. ended (line_loop text []).0 ++ l) (sym last)
      ∙ ended-line_loop text []

  lines_of_open :
      ends_with_newline text ≡ false
      → text ≢ []
      → joined (close_lines text (line_loop text [])) ≡ strip_cr text
  lines_of_open h some_text =
      ap joined {y = (line_loop text []).0 ++ ((line_loop text []).1 ∷ [])} (ground arith)
      ∙ joined-snoc (line_loop text []).0 (line_loop text []).1
      ∙ ended-line_loop text []

-- Joining the lines of a document gives its text back, without the carriage returns, whatever
-- the text is.
pub join_lines-make_document :
    (text : Bytes) (exists : Bool)
    → let doc = make_document_from_content text exists in
      join_lines doc.lines doc.trailing_newline ≡ strip_cr text
unfolding make_document_from_content join_lines
join_lines-make_document [] exists = unfold strip_cr in refl
join_lines-make_document (c ∷ text) exists = elim (Bool-cases (ends_with_newline (c ∷ text))) [
  | inl h ↦ ground (arith, lines_of_closed (c ∷ text) h, line_loop_closed (c ∷ text) [] h)
  | inr h ↦ ground (arith, lines_of_open (c ∷ text) h (λ e. cc))
]

-- A predicate on every element.
abbrev pub All {ℓ κ} : {A : Type ℓ} → (A → Type κ) → List A → Type κ
All P [] = Unit
All P (x ∷ xs) = P x × All P xs

-- A line holds no newline and no carriage return.
abbrev pub IsLine : Bytes → Type 0
IsLine = All (λ c. (c ≢ 10) × (c ≢ 13))

line_loop-line :
    (l rest current : Bytes)
    → IsLine l
    → line_loop (l ++ rest) current ≡ line_loop rest (current ++ l)
unfolding line_loop
line_loop-line [] rest current h = ap (line_loop rest) (sym (append-nil current))
line_loop-line (c ∷ l) rest current ((a, b), h) =
    ground (arith, line_loop-line l rest (current ++ (c ∷ [])) h, append_assoc current (c ∷ []) l)

line_loop-ended :
    (ls : List Bytes) (l : Bytes)
    → All IsLine ls
    → IsLine l
    → line_loop (ended ls ++ l) [] ≡ (ls, l)
unfolding line_loop
line_loop-ended [] l hs h = ap (λ t. line_loop t []) (sym (append-nil l)) ∙ line_loop-line l [] [] h
line_loop-ended (m ∷ ls) l (hm, hs) h =
    ap (λ t. line_loop t []) (append_assoc m (10 ∷ ended ls) l)
    ∙ line_loop-line m (10 ∷ (ended ls ++ l)) [] hm
    ∙ ap (λ p. (m ∷ p.0, p.1)) (line_loop-ended ls l hs h)

-- Lines that are joined are read back, unless the last one is empty.
pub lines-joined :
    (ls : List Bytes) (l : Bytes) (exists : Bool)
    → All IsLine ls
    → IsLine l
    → l ≢ []
    → (make_document_from_content (joined (ls ++ (l ∷ []))) exists).lines ≡ ls ++ (l ∷ [])
unfolding make_document_from_content
lines-joined ls [] exists hs h some_line = absurd (some_line refl)
lines-joined ls (c ∷ l) exists hs h some_line =
    ap (λ t. close_lines t (line_loop t [])) (joined-snoc ls (c ∷ l))
    ∙ ap (close_lines (ended ls ++ (c ∷ l))) (line_loop-ended ls (c ∷ l) hs h)

snoc-IsLine : (l : Bytes) (c : ℕ) → IsLine l → c ≢ 10 → c ≢ 13 → IsLine (l ++ (c ∷ []))
snoc-IsLine [] c h a b = ((a, b), tt)
snoc-IsLine (d ∷ l) c (p, h) a b = (p, snoc-IsLine l c h a b)

-- Every line that the loop makes is one.
line_loop-IsLine :
    (text current : Bytes)
    → IsLine current
    → All IsLine (line_loop text current).0 × IsLine (line_loop text current).1
unfolding line_loop
line_loop-IsLine [] current h = (tt, h)
line_loop-IsLine (c ∷ text) current h = elim (Bool-cases (c == 13)) [
  | inl cr ↦
      let other : (c == 10) ≡ false = ground arith in
      rw (cr, other) (line_loop-IsLine text current h)
  | inr cr ↦ elim (Bool-cases (c == 10)) [
    | inl nl ↦ let r = line_loop-IsLine text [] tt in rw (cr, nl) ((h, r.0), r.1)
    | inr nl ↦
        rw (cr, nl)
          (line_loop-IsLine text (current ++ (c ∷ []))
            (snoc-IsLine current c h (ground arith) (ground arith)))
  ]
]

pub All-append {ℓ κ} :
    {A : Type ℓ} (P : A → Type κ) (xs ys : List A) → All P xs → All P ys → All P (xs ++ ys)
All-append P [] ys hx hy = hy
All-append P (x ∷ xs) ys (h, hx) hy = (h, All-append P xs ys hx hy)

pub All-take {ℓ κ} :
    {A : Type ℓ} (P : A → Type κ) (n : ℕ) (xs : List A) → All P xs → All P (take n xs)
All-take P zero xs h = tt
All-take P (suc n) [] h = tt
All-take P (suc n) (x ∷ xs) (h, hs) = (h, All-take P n xs hs)

pub All-drop {ℓ κ} :
    {A : Type ℓ} (P : A → Type κ) (n : ℕ) (xs : List A) → All P xs → All P (drop n xs)
All-drop P zero xs h = h
All-drop P (suc n) [] h = tt
All-drop P (suc n) (x ∷ xs) (h, hs) = All-drop P n xs hs

pub All-get_elem? {ℓ κ} :
    {A : Type ℓ} (P : A → Type κ) (xs : List A) (i : ℕ) (x : A)
    → All P xs
    → get_elem? xs i ≡ some x
    → P x
All-get_elem? P [] i x h e = cc
All-get_elem? P (y ∷ ys) zero x h e = subst P (some-injective y x e) h.0
All-get_elem? P (y ∷ ys) (suc i) x h e = All-get_elem? P ys i x h.1 e

close-IsLine :
    (text : Bytes) (ls : List Bytes) (l : Bytes)
    → All IsLine ls
    → IsLine l
    → All IsLine (close_lines text (ls, l))
close-IsLine text ls l hs h =
    elim (Bool-cases (not (is_empty l) || (not (is_empty text) && not (ends_with_newline text)))) [
      | inl e ↦ rw e (All-append IsLine ls (l ∷ []) hs (h, tt))
      | inr e ↦ rw e hs
    ]

-- The lines of a document are lines.
pub lines-IsLine :
    (text : Bytes) (exists : Bool) → All IsLine (make_document_from_content text exists).lines
unfolding make_document_from_content
lines-IsLine text exists =
    let (ls, l) = line_loop-IsLine text [] tt in
    close-IsLine text (line_loop text []).0 (line_loop text []).1 ls l

last?-append : (l : Bytes) (c : ℕ) (t : Bytes) → last? (l ++ (c ∷ t)) ≡ last? (c ∷ t)
last?-append [] c t = refl
last?-append (x ∷ []) c t = refl
last?-append (x ∷ y ∷ l) c t = last?-append (y ∷ l) c t

last?-cons : (c : ℕ) (t : Bytes) → t ≢ [] → last? (c ∷ t) ≡ last? t
last?-cons c [] h = absurd (h refl)
last?-cons c (x ∷ t) h = refl

last?-ended : (l : Bytes) (ls : List Bytes) → last? (ended (l ∷ ls)) ≡ some 10
last?-ended l [] = last?-append l 10 []
last?-ended l (m ∷ ls) =
    last?-append l 10 (ended (m ∷ ls))
    ∙ last?-cons 10 (ended (m ∷ ls)) (λ e. cc (sym (ap last? e) ∙ last?-ended m ls))
    ∙ last?-ended m ls

line_loop-ended_only : (ls : List Bytes) → All IsLine ls → line_loop (ended ls) [] ≡ (ls, [])
line_loop-ended_only ls h =
    ap (λ t. line_loop t []) (sym (append-nil (ended ls))) ∙ line_loop-ended ls [] h tt

-- Lines that are all closed by a newline are read back, empty ones too.
pub lines-join_lines :
    (ls : List Bytes) (exists : Bool)
    → All IsLine ls
    → (make_document_from_content (join_lines ls true) exists).lines ≡ ls
unfolding make_document_from_content join_lines
lines-join_lines [] exists h = unfold joined line_loop in refl
lines-join_lines (l ∷ ls) exists h =
    ap (λ t. close_lines t (line_loop t [])) (joined-ended (l ∷ ls) (λ e. cc))
    ∙ ap (close_lines (ended (l ∷ ls))) (line_loop-ended_only (l ∷ ls) h)
    ∙ ground (arith, last?-ended l ls)

line_open : (l : Bytes) → IsLine l → ends_with_newline l ≡ false
line_open [] h = refl
line_open (c ∷ []) ((a, b), h) = ground arith
line_open (c ∷ d ∷ l) (p, h) = line_open (d ∷ l) h

-- A text whose last line is not empty does not end with a newline.
pub joined-open :
    (ls : List Bytes) (l : Bytes)
    → IsLine l
    → l ≢ []
    → ends_with_newline (joined (ls ++ (l ∷ []))) ≡ false
joined-open ls [] h some_line = absurd (some_line refl)
joined-open ls (c ∷ l) h some_line =
    ap ends_with_newline (joined-snoc ls (c ∷ l))
    ∙ ap (λ o. elim o [ none ↦ false | some d ↦ d == 10 ]) (last?-append (ended ls) c l)
    ∙ line_open (c ∷ l) h
