-- ===== src/Session/Codec.antt =====
-- session_service.cpp: the JSON texts in which a session's state and its changes are kept.
pub mod Meta
use ai_editor.Prelude.{
  ℕ, zero, suc, ◌+◌, ◌-◌, Bool, true, false, List, [], ◌∷◌, ◌++◌, Option, none, some, length, take,
  drop, ◌==◌, ◌&&◌, if◌then◌else◌,
}
use mathlib.Core.Option
use ai_editor.Text.{Bytes, codes, is_empty}
use ai_editor.Text.Find.{find}
use ai_editor.Text.Decimal.{to_decimal, stoull}
use ai_editor.Json.{json_escape, json_get_string, json_get_uint_raw, json_get_bool}
use ai_editor.Session.Types.{Selector, RiskHint, StagedChange}

pub record SessionMeta : Type 0 where
  pub session_id : Bytes
  pub state : Bytes
  pub created_at : Bytes
  pub updated_at : Bytes

unfoldable pub serialize_meta : SessionMeta → Bytes
serialize_meta meta =
    codes "{"
    ++ (codes "\"session_id\":\""
        ++ (json_escape meta.session_id
            ++ (codes "\","
                ++ (codes "\"state\":\""
                    ++ (json_escape meta.state
                        ++ (codes "\","
                            ++ (codes "\"created_at\":\""
                                ++ (json_escape meta.created_at
                                    ++ (codes "\","
                                        ++ (codes "\"updated_at\":\""
                                            ++ (json_escape meta.updated_at
                                                ++ (codes "\"" ++ codes "}"))))))))))))

unfoldable pub deserialize_meta : Bytes → SessionMeta
deserialize_meta text = record {
  session_id = json_get_string text (codes "session_id");
  state = json_get_string text (codes "state");
  created_at = json_get_string text (codes "created_at");
  updated_at = json_get_string text (codes "updated_at");
}

-- `json_get_size_t_local`
unfoldable pub json_get_size_t_local : Bytes → Bytes → ℕ → ℕ
json_get_size_t_local text key fallback = elim (stoull (json_get_uint_raw text key [])) [
  | none ↦ fallback
  | some n ↦ if is_empty (json_get_uint_raw text key []) then fallback else n
]

reasons_csv : List Bytes → Bytes
reasons_csv [] = []
reasons_csv (r ∷ reasons) =
    let rest = reasons_csv reasons in
    elim reasons [ [] ↦ json_escape r | _ ∷ _ ↦ json_escape r ++ (codes "," ++ rest) ]

unfoldable pub serialize_risk : RiskHint → Bytes
unfolding reasons_csv
serialize_risk risk =
    codes "{"
    ++ (codes "\"level\":\""
        ++ (json_escape risk.level
            ++ (codes "\","
                ++ (codes "\"reasons_csv\":\"" ++ (reasons_csv risk.reasons ++ codes "\"}")))))

-- `std::getline` with a comma, without the empty items: the item that is open is `item`.
split_commas : Bytes → Bytes → List Bytes
split_commas item [] = if is_empty item then [] else item ∷ []
split_commas item (c ∷ text) =
    let rest = split_commas (if c == b',' then [] else item ++ (c ∷ [])) text in
    if c == b',' then (if is_empty item then rest else item ∷ rest) else rest

unfoldable pub deserialize_risk : Bytes → RiskHint
unfolding split_commas
deserialize_risk text =
    let level = json_get_string text (codes "level") in
    record {
      level = if is_empty level then codes "low" else level;
      reasons = split_commas [] (json_get_string text (codes "reasons_csv"));
    }

text_field : Bytes → Bytes → Bytes → Bytes
text_field key value rest =
    codes "\"" ++ (key ++ (codes "\":\"" ++ (json_escape value ++ (codes "\"," ++ rest))))

raw_field : Bytes → Bytes → Bytes → Bytes
raw_field key value rest = codes "\"" ++ (key ++ (codes "\":" ++ (value ++ (codes "," ++ rest))))

-- The fields of the selector, in the middle of a change.
serialize_selector : Selector → Bytes → Bytes
unfolding text_field raw_field to_decimal
serialize_selector selector rest = text_field (codes "selector_query") selector.query (
    text_field (codes "selector_exact_path") selector.exact_path (
      text_field (codes "selector_directory_prefix") selector.directory_prefix (
        text_field (codes "selector_extension") selector.extension (
          text_field (codes "selector_anchor_before") selector.anchor_before (
            text_field (codes "selector_anchor_after") selector.anchor_after (
              raw_field (codes "selector_occurrence") (to_decimal selector.occurrence) (
                raw_field (codes "selector_from_end")
                  (if selector.from_end then codes "true" else codes "false") rest)))))))

unfoldable pub serialize_change : StagedChange → Bytes
unfolding serialize_selector serialize_risk
serialize_change change =
    codes "{"
    ++ text_field (codes "change_id") change.change_id (
        text_field (codes "session_id") change.session_id (
          text_field (codes "operation") change.operation (
            text_field (codes "path") change.path (
              raw_field (codes "line_start") (to_decimal change.line_start) (
                raw_field (codes "line_end") (to_decimal change.line_end) (
                  text_field (codes "expected_content") change.expected_content (
                    text_field (codes "base_mtime") change.base_mtime (
                      text_field (codes "base_hash") change.base_hash (
                        text_field (codes "new_content") change.new_content (
                          serialize_selector change.selector (
                            text_field (codes "selector_reason") change.selector_reason (
                              text_field (codes "anchor") change.anchor (
                                text_field (codes "created_at") change.created_at (
                                  codes "\"risk\":"
                                  ++ (serialize_risk change.risk ++ codes "}")))))))))))))))

-- How many characters of a text there are up to the brace that closes the first one, that one
-- included; `depth` counts the braces open so far. None if it is not closed.
closing : ℕ → Bytes → Option ℕ
closing depth [] = none
closing depth (c ∷ text) =
    let rest =
      closing (if c == b'{' then suc depth else if c == b'}' then depth - 1 else depth) text in
    if c == b'}' && depth == 1 then some 1 else Option.map suc rest

-- The nested risk of a change, or the default.
risk_of : Bytes → RiskHint
unfolding closing deserialize_risk find
risk_of text =
    let default_risk : RiskHint = record { level = codes "low"; reasons = [] } in
    elim (find text (codes "\"risk\":") 0) [
      | none ↦ default_risk
      | some risk_pos ↦ elim (find text (codes "{") risk_pos) [
        | none ↦ default_risk
        | some brace_start ↦
            let rest = drop brace_start text in
            elim (closing 0 rest) [ none ↦ default_risk | some n ↦ deserialize_risk (take n rest) ]
      ]
    ]

deserialize_selector : Bytes → Selector
unfolding json_get_size_t_local
deserialize_selector text = record {
  query = json_get_string text (codes "selector_query");
  exact_path = json_get_string text (codes "selector_exact_path");
  directory_prefix = json_get_string text (codes "selector_directory_prefix");
  extension = json_get_string text (codes "selector_extension");
  anchor_before = json_get_string text (codes "selector_anchor_before");
  anchor_after = json_get_string text (codes "selector_anchor_after");
  occurrence = json_get_size_t_local text (codes "selector_occurrence") 1;
  from_end = json_get_bool text (codes "selector_from_end") false;
}

unfoldable pub deserialize_change : Bytes → StagedChange
unfolding risk_of deserialize_selector json_get_size_t_local
deserialize_change text = record {
  change_id = json_get_string text (codes "change_id");
  session_id = json_get_string text (codes "session_id");
  operation = json_get_string text (codes "operation");
  path = json_get_string text (codes "path");
  line_start = json_get_size_t_local text (codes "line_start") 0;
  line_end = json_get_size_t_local text (codes "line_end") 0;
  selector = deserialize_selector text;
  expected_content = json_get_string text (codes "expected_content");
  base_mtime = json_get_string text (codes "base_mtime");
  base_hash = json_get_string text (codes "base_hash");
  new_content = json_get_string text (codes "new_content");
  selector_reason = json_get_string text (codes "selector_reason");
  anchor = json_get_string text (codes "anchor");
  risk = risk_of text;
  created_at = json_get_string text (codes "created_at");
}
