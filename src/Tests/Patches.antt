-- ===== src/Tests/Patches.antt =====
-- The laws of patches and errors at concrete inputs.
use ai_editor.Prelude.{◌≡◌, ◌↔◌, true, List, [], ◌∷◌, ◌++◌, take, drop, arith}
use ai_editor.Text.{Bytes, codes}
use ai_editor.Session.Recovery.{summarize_recovery_conflict}
use ai_editor.Patch.Diff.{hunk_of, between}
use ai_editor.Patch.Diff.Rewrites.{hunk_of_rewrites}
use ai_editor.Patch.Encoding.{FileState, decoded}
use ai_editor.Patch.Base.{
  PatchBase, Expects, base_matches, patch_conflict_reason, patch_conflict_message, base_matches_iff,
}
use ai_editor.Patch.History.{
  HistoryItem, history_line, parse_history_line, parse_history_line-history_line,
}
use ai_editor.Errors.{classify_common_error, classify_patch_error}
use ai_editor.Errors.Codes.{conflict_codes}

abbrev old : List Bytes
old = codes "a" ∷ codes "b" ∷ codes "c" ∷ []

abbrev new : List Bytes
new = codes "a" ∷ codes "x" ∷ codes "y" ∷ codes "c" ∷ []

hunk_of_rewrites_example :
    let hunk = hunk_of old new in
    (old
      ≡ take hunk.prefix old
        ++ (between hunk.prefix hunk.old_suffix old ++ drop hunk.old_suffix old))
    × (new
        ≡ take hunk.prefix old
          ++ (between hunk.prefix hunk.new_suffix new ++ drop hunk.old_suffix old))
hunk_of_rewrites_example = hunk_of_rewrites old new

abbrev mixed : Bytes
mixed = codes "a\r\nb\n"

abbrev state : FileState
state = decoded mixed

abbrev base : PatchBase
base = record { mtime = []; hash = codes "h" }

base_matches_iff_example :
    ((base_matches base state ≡ true)
      ↔ (Expects base.mtime state.mtime × Expects base.hash state.hash))
    × ((patch_conflict_reason base state ≡ codes "file_changed") ↔ (base_matches base state ≡ true))
base_matches_iff_example = base_matches_iff base state

abbrev item : HistoryItem
item = record {
  timestamp = codes "now";
  method = codes "patch.apply";
  path = codes "a.txt";
  backup_id = codes "1";
  client_id = [];
  session_id = [];
  request_id = codes "r";
}

parse_history_line-history_line_example : parse_history_line (history_line item) ≡ item
parse_history_line-history_line_example = parse_history_line-history_line item (omega arith)

conflict_codes_example :
    let rebase =
      summarize_recovery_conflict (codes "a.txt (moved)" ∷ []) (codes "session conflict: ") in
    let patch = patch_conflict_message base state in
    (classify_common_error rebase [] ≡ record { code = codes "SESSION_CONFLICT"; message = rebase })
    × (classify_patch_error patch ≡ record { code = codes "PATCH_CONFLICT"; message = patch })
conflict_codes_example = conflict_codes (codes "a.txt (moved)" ∷ []) [] base state
