-- ===== src/Json/Object.antt =====
-- Reading the string fields of an object that the service has written.
use ai_editor.Prelude.{
  ℕ, ◌≡◌, ◌≢◌, refl, sym, ap, ◌∙◌, true, false, [], ◌∷◌, ◌++◌, none, some, arith, ◌==◌, Bool-cases,
  inl, inr, append_assoc, ◌⊎◌,
}
use ai_editor.Text.{Bytes, starts_with}
use ai_editor.Document.Laws.{All}
use ai_editor.Json.{escape_char, json_escape, after_colon, quoted, json_get_string}
use ai_editor.Json.Escape.{read_string-json_escape}
use ai_editor.Json.Scan.{value_at, value_or, value_at-skip, value_at-hit}

-- A key holds no quote, backslash, colon, comma or closing brace, as all keys of the service.
abbrev pub IsKey : Bytes → Type 0
IsKey = All (λ c. (c ≢ b'"') × (c ≢ b'\\') × (c ≢ b':') × (c ≢ b',') × (c ≢ b'}'))

-- What follows a field: another field, or the end of the object.
abbrev pub EndsField : Bytes → Type 0
EndsField [] = ⊥
EndsField (c ∷ rest) = (c ≡ b',') ⊎ (c ≡ b'}')

-- A field `"key":"value"` and what follows it.
abbrev pub member : Bytes → Bytes → Bytes → Bytes
member key value rest = quoted key ++ (b':' ∷ b'"' ∷ json_escape value ++ (b'"' ∷ rest))

-- Where an escaped text and a quote begin like a key and a quote, the text is the key.
starts_with_key :
    (value key rest : Bytes)
    → IsKey key
    → starts_with (json_escape value ++ (b'"' ∷ rest)) (key ++ (b'"' ∷ [])) ≡ true
    → json_escape value ≡ key
unfolding starts_with json_escape
starts_with_key [] [] rest k h = refl
starts_with_key [] (x ∷ key) rest ((a, b, c, d, e), k) h = absurd (ground arith)
starts_with_key (v ∷ value) [] rest k h = absurd (ground arith)
starts_with_key (v ∷ value) (x ∷ key) rest ((a, b, c, d, e), k) h =
    ground (arith, starts_with_key value key rest k)

no_colon : (rest : Bytes) → EndsField rest → after_colon rest ≡ none
unfolding after_colon
no_colon [] h = absurd h
no_colon (c ∷ rest) (inl e) = rw e
no_colon (c ∷ rest) (inr e) = rw e

-- An escape is a backslash and a character, or a character that is no quote.
escape_shape :
    (c : ℕ)
    → (escape_char c ≡ b'\\' ∷ b'"' ∷ [])
      ⊎ (((x : ℕ) × (escape_char c ≡ b'\\' ∷ x ∷ []) × (x ≢ b'"'))
          ⊎ ((x : ℕ) × (escape_char c ≡ x ∷ []) × (x ≢ b'"')))
unfolding escape_char
escape_shape c = elim (Bool-cases (c == b'"')) [
  | inl q ↦ inl (ground arith)
  | inr q ↦ elim (Bool-cases (c == b'\\')) [
    | inl b ↦ inr (inl (b'\\', rw b, omega arith))
    | inr b ↦ elim (Bool-cases (c == 10)) [
      | inl n ↦ inr (inl (b'n', rw (b, q, n), omega arith))
      | inr n ↦ elim (Bool-cases (c == 13)) [
        | inl r ↦ inr (inl (b'r', rw (b, q, n, r), omega arith))
        | inr r ↦ elim (Bool-cases (c == 9)) [
          | inl t ↦ inr (inl (b't', rw (b, q, n, r, t), omega arith))
          | inr t ↦ inr (inr (c, rw (b, q, n, r, t), ground arith))
        ]
      ]
    ]
  ]
]

colon_value : (t : Bytes) → after_colon (b':' ∷ b'"' ∷ t) ≡ some (b'"' ∷ t)
unfolding after_colon
colon_value t = refl

module _ (key : Bytes) (is_key : IsKey key) where
  no_key_at_close : (rest : Bytes) → EndsField rest → starts_with (b'"' ∷ rest) (quoted key) ≡ false
  no_key_at_close [] h = absurd h
  no_key_at_close (c ∷ rest) h = unfold starts_with in no_key key is_key h
    where
      no_key :
          (k : Bytes)
          → IsKey k
          → (c ≡ b',') ⊎ (c ≡ b'}')
          → starts_with (b'"' ∷ c ∷ rest) (quoted k) ≡ false
      no_key [] tt h = unfold starts_with in ground arith
      no_key (x ∷ k) ((a, b, d, e, f), p) h = unfold starts_with in ground arith

  -- A character that is no quote is passed over.
  pub value_at-plain :
      (c : ℕ) (text : Bytes) → c ≢ b'"' → value_at key (c ∷ text) ≡ value_at key text
  value_at-plain c text h = value_at-skip key c text (unfold starts_with in ground arith)

  -- From a quote on, over a text and its closing quote.
  value_at-opened :
      (value rest : Bytes)
      → EndsField rest
      → value_at key (json_escape value ++ (b'"' ∷ rest)) ≡ value_at key rest
      → value_at key (b'"' ∷ json_escape value ++ (b'"' ∷ rest)) ≡ value_at key rest
  value_at-opened value rest ends inside =
      elim (Bool-cases (starts_with (b'"' ∷ json_escape value ++ (b'"' ∷ rest)) (quoted key))) [
        | inl h ↦
            let e = starts_with_key value key rest is_key (unfold starts_with in ground arith) in
            rw e (
              ap (λ t. value_at key (b'"' ∷ t)) (sym (append_assoc key (b'"' ∷ []) rest))
              ∙ value_at-hit key rest
              ∙ ap (λ o. value_or o (value_at key rest)) (no_colon rest ends))
        | inr h ↦ value_at-skip key b'"' (json_escape value ++ (b'"' ∷ rest)) h ∙ inside
      ]

  value_at-value :
      (value rest : Bytes)
      → EndsField rest
      → value_at key (json_escape value ++ (b'"' ∷ rest)) ≡ value_at key rest
  unfolding json_escape
  value_at-value [] rest ends = value_at-skip key b'"' rest (no_key_at_close rest ends)
  value_at-value (c ∷ value) rest ends =
      let next = json_escape value ++ (b'"' ∷ rest) in
      let ih = value_at-value value rest ends in
      elim (escape_shape c) [
        | inl e ↦
            rw e (
              value_at-plain b'\\' (b'"' ∷ next) (omega arith) ∙ value_at-opened value rest ends ih)
        | inr (inl (x, e, q)) ↦
            rw e (value_at-plain b'\\' (x ∷ next) (omega arith) ∙ value_at-plain x next q ∙ ih)
        | inr (inr (x, e, q)) ↦ rw e (value_at-plain x next q ∙ ih)
      ]

  value_at-key_chars :
      (other text : Bytes) → IsKey other → value_at key (other ++ text) ≡ value_at key text
  value_at-key_chars [] text k = refl
  value_at-key_chars (c ∷ other) text (a, k) =
      value_at-plain c (other ++ text) a.0 ∙ value_at-key_chars other text k

  no_key_at_colon : (k text : Bytes) → IsKey k → starts_with (b'"' ∷ b':' ∷ text) (quoted k) ≡ false
  unfolding starts_with
  no_key_at_colon [] text h = ground arith
  no_key_at_colon (x ∷ k) text ((a, b, d, e, f), p) = ground arith

  other_key :
      (k other text : Bytes)
      → IsKey k
      → IsKey other
      → k ≢ other
      → starts_with (other ++ (b'"' ∷ text)) (k ++ (b'"' ∷ [])) ≡ false
  unfolding starts_with
  other_key [] [] text h o n = absurd (n refl)
  other_key [] (y ∷ other) text h (a, o) n = ground arith
  other_key (x ∷ k) [] text (a, h) o n = ground arith
  other_key (x ∷ k) (y ∷ other) text (a, h) (b, o) n = elim (Bool-cases (y == x)) [
    | inl e ↦ rw e (other_key k other text h o (λ p. n (ground arith)))
    | inr e ↦ rw e
  ]

  -- A field of another key is passed over, whatever its value is.
  pub value_at-other :
      (other value rest : Bytes)
      → IsKey other
      → key ≢ other
      → EndsField rest
      → value_at key (member other value rest) ≡ value_at key rest
  value_at-other other value rest o n ends =
      let opened = b'"' ∷ json_escape value ++ (b'"' ∷ rest) in
      ap (λ t. value_at key (b'"' ∷ t)) (append_assoc other (b'"' ∷ []) (b':' ∷ opened))
      ∙ value_at-skip key b'"' (other ++ (b'"' ∷ b':' ∷ opened))
          (unfold starts_with in other_key key other (b':' ∷ opened) is_key o n)
      ∙ value_at-key_chars other (b'"' ∷ b':' ∷ opened) o
      ∙ value_at-skip key b'"' (b':' ∷ opened) (no_key_at_colon key opened is_key)
      ∙ value_at-plain b':' opened (omega arith)
      ∙ value_at-opened value rest ends (value_at-value value rest ends)

  -- At its own field a key has the value of the field.
  pub value_at_self :
      (value rest : Bytes)
      → value_at key (member key value rest) ≡ some (b'"' ∷ json_escape value ++ (b'"' ∷ rest))
  value_at_self value rest =
      value_at-hit key (b':' ∷ b'"' ∷ json_escape value ++ (b'"' ∷ rest))
      ∙ ap (λ o. value_or o (value_at key (b':' ∷ b'"' ∷ json_escape value ++ (b'"' ∷ rest))))
          (colon_value (json_escape value ++ (b'"' ∷ rest)))

  pub json_get_string-value :
      (text value rest : Bytes)
      → value_at key text ≡ some (b'"' ∷ json_escape value ++ (b'"' ∷ rest))
      → json_get_string text key ≡ value
  unfolding json_get_string
  json_get_string-value text value rest h =
      rw (h, json_get_string) (ground (arith, read_string-json_escape value rest))
