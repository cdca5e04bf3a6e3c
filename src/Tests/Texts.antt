-- ===== src/Tests/Texts.antt =====
-- The laws of texts, JSON, hashes and paths at concrete inputs.
use ai_editor.Prelude.{suc, length, drop, ◌≡◌, ◌↔◌, true, false, List, [], ◌∷◌, ◌++◌, some, arith}
use ai_editor.Text.{Bytes, codes}
use ai_editor.Document.{make_document_from_content, join_lines, strip_cr}
use ai_editor.Document.Laws.{join_lines-make_document}
use ai_editor.Json.{json_escape, json_unescape, json_get_string, read_string}
use ai_editor.Json.Escape.{json_unescape-json_escape, read_string-json_escape}
use ai_editor.Json.Fields.{Fields, object, field_value, json_get_string-object}
use ai_editor.Outcome.{ok}
use ai_editor.Path.{
  FsPaths, WorkspaceConfig, ResolveResult, make_default_workspace_config, starts_with_path_segment,
  policy_of, deny, skip_by_default, normal,
}
use ai_editor.Path.Segment.{Within, starts_with_path_segment_iff}
use ai_editor.Path.Policy.{Covered, policy_of_iff}

join_lines-make_document_example :
    let doc = make_document_from_content (codes "a\r\n\nb") true in
    join_lines doc.lines doc.trailing_newline ≡ strip_cr (codes "a\r\n\nb")
join_lines-make_document_example = join_lines-make_document (codes "a\r\n\nb") true

abbrev two_lines : List Bytes
two_lines = codes "a" ∷ [] ∷ []

json_unescape-json_escape_example :
    json_unescape (json_escape (codes "a \"b\"\n")) ≡ codes "a \"b\"\n"
json_unescape-json_escape_example = json_unescape-json_escape (codes "a \"b\"\n")

read_string-json_escape_example :
    read_string false (json_escape (codes "\"\\") ++ (b'"' ∷ codes ",x")) ≡ some (codes "\"\\")
read_string-json_escape_example = read_string-json_escape (codes "\"\\") (codes ",x")

abbrev nested : Fields
nested = (codes "text", codes "\"path\":\"x\"") ∷ (codes "path", codes "src/a.cpp") ∷ []

json_get_string-object_example :
    json_get_string (object nested) (codes "path") ≡ field_value (codes "path") nested
json_get_string-object_example =
    json_get_string-object (codes "path") nested (omega arith) (omega arith)

starts_with_path_segment_iff_example :
    (starts_with_path_segment (codes "/w/src") (codes "/w") ≡ true)
    ↔ Within (codes "/w/src") (codes "/w")
starts_with_path_segment_iff_example = starts_with_path_segment_iff (codes "/w/src") (codes "/w")

abbrev pub config : WorkspaceConfig
config = record {
  root = codes "/w";
  profile_name = codes "default";
  policy_name = codes "default";
  deny_paths = codes ".bridge" ∷ [];
  skip_by_default_paths = codes "build" ∷ [];
}

policy_of_iff_example :
    ((policy_of config (codes ".bridge/x") ≡ deny) ↔ Covered (codes ".bridge/x") config.deny_paths)
    × ((policy_of config (codes ".bridge/x") ≡ skip_by_default) ↔ (
        (¬ (Covered (codes ".bridge/x") config.deny_paths))
        × Covered (codes ".bridge/x") config.skip_by_default_paths))
policy_of_iff_example = policy_of_iff config (codes ".bridge/x")

-- A disk on which every path is already canonical.
abbrev pub paths : FsPaths
paths = record {
  absolute = λ p. ok p;
  weakly_canonical = λ p. ok p;
  relative = λ p root. ok (drop (suc (length root)) p);
}

abbrev resolved : ResolveResult
resolved = record {
  normalized_root = codes "/w";
  normalized_relative_path = codes "build/a.o";
  absolute_path = codes "/w/build/a.o";
  policy = skip_by_default;
}
