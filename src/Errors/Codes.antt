-- ===== src/Errors/Codes.antt =====
-- The codes of the errors that the sessions and the patches give.
use ai_editor.Prelude.{arith, ◌≡◌, List, ◌++◌}
use ai_editor.Text.{Bytes, codes, str_eq}
use ai_editor.Text.Find.{contains_start}
use ai_editor.Session.Recovery.{summarize_recovery_conflict}
use ai_editor.Patch.Base.{PatchBase, patch_conflict_message}
use ai_editor.Patch.Encoding.{FileState}
use ai_editor.Errors.{
  common_code, equal_code, contained_code, classify_common_error, classify_patch_error,
}

session_conflict :
    (rest fallback_code : Bytes)
    → let message = codes "session conflict:" ++ rest in
      classify_common_error message fallback_code
      ≡ record { code = codes "SESSION_CONFLICT"; message = message }
unfolding classify_common_error common_code equal_code contained_code str_eq
session_conflict rest fallback_code =
    let hit = contains_start (codes "session conflict:") rest in rw hit

patch_conflict :
    (rest : Bytes)
    → let message = codes "patch conflict:" ++ rest in
      classify_patch_error message ≡ record { code = codes "PATCH_CONFLICT"; message = message }
unfolding classify_patch_error str_eq
patch_conflict rest = let hit = contains_start (codes "patch conflict:") rest in ground (arith, hit)

-- The error that a rebase gives for conflicts has the code "SESSION_CONFLICT", and the error of a
-- patch on a file that does not match its base has the code "PATCH_CONFLICT", whatever the paths,
-- times and hashes in their texts are; the texts are passed on.
pub conflict_codes :
    (conflicts : List Bytes) (fallback_code : Bytes) (base : PatchBase) (state : FileState)
    → let rebase = summarize_recovery_conflict conflicts (codes "session conflict: ") in
      let patch = patch_conflict_message base state in
      (classify_common_error rebase fallback_code
        ≡ record { code = codes "SESSION_CONFLICT"; message = rebase })
      × (classify_patch_error patch ≡ record { code = codes "PATCH_CONFLICT"; message = patch })
unfolding summarize_recovery_conflict patch_conflict_message
conflict_codes conflicts fallback_code base state =
    (session_conflict _ fallback_code, patch_conflict _)
