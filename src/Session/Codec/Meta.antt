-- ===== src/Session/Codec/Meta.antt =====
-- Writing a session's state and reading it back.
use ai_editor.Prelude.{◌≡◌, refl, ap, ◌∙◌, [], ◌∷◌, arith}
use ai_editor.Text.{Bytes, codes, str_eq}
use ai_editor.Json.Fields.{Fields, object, field_value, AllKeys, json_get_string-object}
use ai_editor.Json.{json_get_string}
use ai_editor.Json.Object.{IsKey}
use ai_editor.Session.Codec.{SessionMeta, serialize_meta, deserialize_meta}

abbrev meta_fields : SessionMeta → Fields
meta_fields meta =
    (codes "session_id", meta.session_id)
    ∷ (codes "state", meta.state)
    ∷ (codes "created_at", meta.created_at)
    ∷ (codes "updated_at", meta.updated_at)
    ∷ []

serialize_meta-object : (meta : SessionMeta) → serialize_meta meta ≡ object (meta_fields meta)
unfolding serialize_meta
serialize_meta-object meta = refl

module _ (meta : SessionMeta) where
  all_keys : AllKeys (meta_fields meta)
  all_keys = omega arith

  read :
      (key : Bytes)
      → IsKey key
      → json_get_string (serialize_meta meta) key ≡ field_value key (meta_fields meta)
  read key k =
      ap (λ t. json_get_string t key) (serialize_meta-object meta)
      ∙ json_get_string-object key (meta_fields meta) k all_keys

-- Whatever texts a session's state holds, writing it to JSON and reading it gives it back.
pub deserialize_meta-serialize_meta :
    (meta : SessionMeta) → deserialize_meta (serialize_meta meta) ≡ meta
unfolding deserialize_meta field_value str_eq
deserialize_meta-serialize_meta meta = λ i. record {
  session_id = read meta (codes "session_id") (omega arith) i;
  state = read meta (codes "state") (omega arith) i;
  created_at = read meta (codes "created_at") (omega arith) i;
  updated_at = read meta (codes "updated_at") (omega arith) i;
}
