-- ===== src/Json/Fields.antt =====
-- Objects of string fields, and reading a key of one.
use ai_editor.Prelude.{
  ◌≡◌, refl, sym, ap, ◌∙◌, true, false, List, [], ◌∷◌, none, arith, if◌then◌else◌, Bool-cases, inl,
  inr,
}
use ai_editor.Text.{Bytes, starts_with, str_eq, str_eq_iff}
use ai_editor.Document.Laws.{All}
use ai_editor.Json.{find_json_value_start, json_get_string}
use ai_editor.Json.Scan.{value_at}
use ai_editor.Json.Object.{
  IsKey, EndsField, member, value_at-other, value_at_self, value_at-plain, json_get_string-value,
}

abbrev pub Fields : Type 0
Fields = List (Bytes × Bytes)

-- The fields with commas between them and a closing brace.
abbrev pub members : Fields → Bytes
members [] = b'}' ∷ []
members ((key, value) ∷ []) = member key value (b'}' ∷ [])
members ((key, value) ∷ f ∷ fields) = member key value (b',' ∷ members (f ∷ fields))

abbrev pub object : Fields → Bytes
object fields = b'{' ∷ members fields

-- The value of the first field with a key, or the empty text.
unfoldable pub field_value : Bytes → Fields → Bytes
field_value key [] = []
field_value key ((k, value) ∷ fields) = if str_eq key k then value else field_value key fields

abbrev pub AllKeys : Fields → Type 0
AllKeys = All (λ f. IsKey f.0)

value_at-nil : (key : Bytes) → value_at key [] ≡ none
unfolding find_json_value_start starts_with
value_at-nil key = refl

value_at-end : (key : Bytes) → IsKey key → value_at key (b'}' ∷ []) ≡ none
value_at-end key k = value_at-plain key k b'}' [] (omega arith) ∙ value_at-nil key

json_get_string-none : (text key : Bytes) → value_at key text ≡ none → json_get_string text key ≡ []
unfolding json_get_string
json_get_string-none text key h = rw (h, json_get_string)

-- One field, then whatever follows it.
module _ (key : Bytes) (k : IsKey key) (text : Bytes) (other value rest : Bytes) (o : IsKey other)
    (ends : EndsField rest) (at : value_at key text ≡ value_at key (member other value rest)) where
  at_same : str_eq key other ≡ true → json_get_string text key ≡ value
  at_same h =
      let e = (str_eq_iff key other).0 h in
      json_get_string-value key k text value rest
        (at ∙ ap (λ x. value_at key (member x value rest)) (sym e) ∙ value_at_self key k value rest)

  at_other : str_eq key other ≡ false → value_at key text ≡ value_at key rest
  at_other h =
      at ∙ value_at-other key k other value rest o (λ e. cc ((str_eq_iff key other).1 e)) ends

module _ (key : Bytes) (k : IsKey key) where
  json_get_string-members :
      (fields : Fields) (text : Bytes)
      → AllKeys fields
      → value_at key text ≡ value_at key (members fields)
      → json_get_string text key ≡ field_value key fields
  unfolding field_value
  json_get_string-members [] text h at = json_get_string-none text key (at ∙ value_at-end key k)
  json_get_string-members ((other, value) ∷ []) text (o, h) at =
      elim (Bool-cases (str_eq key other)) [
        | inl e ↦ rw e (at_same key k text other value (b'}' ∷ []) o (inr refl) at e)
        | inr e ↦ rw e (
            json_get_string-none text key
              (at_other key k text other value (b'}' ∷ []) o (inr refl) at e ∙ value_at-end key k))
      ]
  json_get_string-members ((other, value) ∷ f ∷ fields) text (o, h) at =
      let rest = b',' ∷ members (f ∷ fields) in
      elim (Bool-cases (str_eq key other)) [
        | inl e ↦ rw e (at_same key k text other value rest o (inl refl) at e)
        | inr e ↦ rw e (
            json_get_string-members (f ∷ fields) text h (
              at_other key k text other value rest o (inl refl) at e
              ∙ value_at-plain key k b',' (members (f ∷ fields)) (omega arith)))
      ]

-- Reading a key of an object gives the value of the first field with that key, whatever the
-- values of the fields hold: quotes, keys and braces of their own too.
pub json_get_string-object :
    (key : Bytes) (fields : Fields)
    → IsKey key
    → AllKeys fields
    → json_get_string (object fields) key ≡ field_value key fields
json_get_string-object key fields k h =
    json_get_string-members key k fields (object fields) h
      (value_at-plain key k b'{' (members fields) (omega arith))
