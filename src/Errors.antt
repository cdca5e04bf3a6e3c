-- ===== src/Errors.antt =====
-- libs/bridge_core/src/error_codes.cpp: the code that a client gets for the text of an error.
pub mod Codes
use ai_editor.Prelude.{
  ℕ, ◌+◌, Bool, true, false, ◌&&◌, ◌||◌, List, [], ◌∷◌, Option, none, some, map, leb, if◌then◌else◌,
}
use ai_editor.Text.{Bytes, codes, str_eq, is_empty}
use ai_editor.Text.Find.{contains}

pub record ErrorInfo : Type 0 where
  pub code : Bytes
  pub message : Bytes

-- `std::tolower` of a byte, in the C locale
abbrev lower : ℕ → ℕ
lower c = if leb b'A' c && leb c b'Z' then c + 32 else c

unfoldable pub lowercase : Bytes → Bytes
lowercase text = map lower text

-- A chain of `if (message == text) return {code, message};`, from a table.
unfoldable pub equal_code : List (Bytes × Bytes) → Bytes → Option Bytes
equal_code [] message = none
equal_code ((text, code) ∷ table) message =
    let rest = equal_code table message in if str_eq message text then some code else rest

-- A chain of `if (contains(message, text)) return {code, message};`.
unfoldable pub contained_code : List (Bytes × Bytes) → Bytes → Option Bytes
unfolding contains
contained_code [] message = none
contained_code ((text, code) ∷ table) message =
    let rest = contained_code table message in if contains message text then some code else rest

-- The first code of the two, or a third one.
abbrev or_code : Option Bytes → Bytes → Bytes
or_code (some code) other = code
or_code none other = other

invalid_params : List Bytes → List (Bytes × Bytes) → List (Bytes × Bytes)
invalid_params [] table = table
invalid_params (text ∷ texts) table = (text, codes "INVALID_PARAMS") ∷ invalid_params texts table

-- The texts up to "binary content not supported", in their order.
first_table : List (Bytes × Bytes)
unfolding invalid_params
first_table =
    (codes "path is outside workspace", codes "PATH_OUTSIDE_WORKSPACE")
    ∷ (codes "path denied by policy", codes "DENIED_BY_POLICY")
    ∷ (codes "path not found", codes "FILE_NOT_FOUND")
    ∷ (codes "binary file", codes "BINARY_FILE")
    ∷ (codes "request timeout", codes "REQUEST_TIMEOUT")
    ∷ invalid_params
        (codes "invalid line range"
          ∷ codes "path is not a directory"
          ∷ codes "path is not a regular file"
          ∷ codes "path exists and is not a directory"
          ∷ codes "parent path is not a directory"
          ∷ codes "target path required"
          ∷ codes "source and target paths are the same"
          ∷ codes "recursive required for directory copy"
          ∷ codes "rename target must stay in same directory"
          ∷ codes "cannot move/copy/rename workspace root"
          ∷ codes "cannot move/copy directory into its own subtree"
          ∷ [])
        ((codes "path already exists", codes "ALREADY_EXISTS")
          ∷ (codes "parent directory not found", codes "FILE_NOT_FOUND")
          ∷ invalid_params
              (codes "unsupported encoding"
                ∷ codes "unsupported eol"
                ∷ codes "binary content not supported"
                ∷ [])
              [])

session_table : List (Bytes × Bytes)
session_table =
    (codes "session conflict:", codes "SESSION_CONFLICT")
    ∷ (codes "session rebase required:", codes "SESSION_REBASE_REQUIRED")
    ∷ []

second_table : List (Bytes × Bytes)
second_table =
    (codes "selector target not found", codes "SELECTOR_NOT_FOUND")
    ∷ (codes "change not found", codes "SESSION_CHANGE_NOT_FOUND")
    ∷ (codes "change_id required", codes "INVALID_PARAMS")
    ∷ (codes "path not found in session", codes "SESSION_PATH_NOT_STAGED")
    ∷ (codes "invalid selector occurrence", codes "INVALID_PARAMS")
    ∷ []

access_table : List (Bytes × Bytes)
access_table =
    (codes "failed to open file", codes "ACCESS_DENIED")
    ∷ (codes "Permission denied", codes "ACCESS_DENIED")
    ∷ []

unfoldable pub common_code : Bytes → Bytes → Bytes
unfolding first_table session_table second_table access_table equal_code contained_code
common_code message fallback_code = or_code (equal_code first_table message) (
    or_code (contained_code session_table message) (
      or_code (equal_code second_table message)
        (or_code (contained_code access_table message) fallback_code)))

unfoldable pub classify_common_error : Bytes → Bytes → ErrorInfo
unfolding common_code
classify_common_error message fallback_code = record {
  code = common_code message fallback_code;
  message = message;
}

any_contained : Bytes → List Bytes → Bool
unfolding contains
any_contained message [] = false
any_contained message (text ∷ texts) = contains message text || any_contained message texts

-- The test for an error of a regular expression.
is_regex_error : Bytes → Bool
unfolding any_contained lowercase
is_regex_error message =
    any_contained message
      (codes "regex_error" ∷ codes "Mismatched" ∷ codes "Invalid" ∷ codes "Unexpected" ∷ [])
    || any_contained (lowercase message) (
        codes "mismatch"
        ∷ codes "regex"
        ∷ codes "regular expression"
        ∷ codes "unexpected"
        ∷ codes "bracket"
        ∷ codes "parenth"
        ∷ [])

abbrev or_text : Bytes → Bytes → Bytes
or_text message other = if is_empty message then other else message

unfoldable pub classify_search_error : Bytes → Bool → Bool → ErrorInfo
unfolding is_regex_error classify_common_error
classify_search_error message timed_out cancelled =
    if cancelled
    then record {
      code = codes "REQUEST_CANCELLED";
      message = or_text message (codes "request cancelled");
    }
    else if timed_out
    then record {
      code = codes "SEARCH_TIMEOUT";
      message = or_text message (codes "search timeout");
    }
    else if is_regex_error message
    then record { code = codes "INVALID_PARAMS"; message = message }
    else classify_common_error message (codes "SEARCH_FAILED")

preview_table : List (Bytes × Bytes)
preview_table =
    (codes "backup not found", codes "ROLLBACK_NOT_FOUND")
    ∷ (codes "preview not found", codes "PREVIEW_NOT_FOUND")
    ∷ (codes "preview expired", codes "PREVIEW_EXPIRED")
    ∷ (codes "preview evicted", codes "PREVIEW_EVICTED")
    ∷ (codes "preview already applied", codes "PREVIEW_CONSUMED")
    ∷ (codes "preview invalid", codes "PREVIEW_INVALID")
    ∷ (codes "preview metadata corrupted", codes "PREVIEW_INVALID")
    ∷ (codes "preview content missing", codes "PREVIEW_INVALID")
    ∷ (codes "preview content hash mismatch", codes "PREVIEW_INVALID")
    ∷ (codes "preview path mismatch", codes "PREVIEW_MISMATCH")
    ∷ (codes "preview content mismatch", codes "PREVIEW_MISMATCH")
    ∷ (codes "preview base mismatch", codes "PREVIEW_MISMATCH")
    ∷ []

unfoldable pub classify_patch_error : Bytes → ErrorInfo
unfolding preview_table equal_code contains classify_common_error
classify_patch_error message =
    if str_eq message (codes "request timeout")
    then record { code = codes "REQUEST_TIMEOUT"; message = message }
    else if str_eq message (codes "patch conflict") || contains message (codes "patch conflict:")
    then record { code = codes "PATCH_CONFLICT"; message = message }
    else record {
      code =
          or_code (equal_code preview_table message)
            (common_code message (codes "PATCH_APPLY_FAILED"));
      message = message;
    }
