-- ===== src/Patch/Base.antt =====
-- `base_matches`, the texts of a conflict, and the error for a preview that was used or removed.
use ai_editor.Prelude.{
  ◌≡◌, refl, ◌↔◌, ◌⊎◌, inl, inr, Bool, true, false, not, ◌&&◌, [], ◌∷◌, ◌++◌, arith, if◌then◌else◌,
}
use ai_editor.Text.{Bytes, codes, str_eq, str_eq_iff, is_empty}
use ai_editor.Patch.Encoding.{FileState}

pub record PatchBase : Type 0 where
  pub mtime : Bytes
  pub hash : Bytes

unfoldable pub base_matches : PatchBase → FileState → Bool
base_matches base state =
    if not (is_empty base.mtime) && not (str_eq base.mtime state.mtime)
    then false
    else if not (is_empty base.hash) && not (str_eq base.hash state.hash)
    then false
    else true

unfoldable pub patch_conflict_reason : PatchBase → FileState → Bytes
patch_conflict_reason expected actual =
    let mtime_conflict =
      not (is_empty expected.mtime) && not (str_eq expected.mtime actual.mtime) in
    let hash_conflict = not (is_empty expected.hash) && not (str_eq expected.hash actual.hash) in
    if mtime_conflict && hash_conflict
    then codes "mtime_and_hash_changed"
    else if mtime_conflict
    then codes "mtime_changed"
    else if hash_conflict
    then codes "hash_changed"
    else codes "file_changed"

-- " (expected NAME=…, actual NAME=…)", if a value is expected
difference : Bytes → Bytes → Bytes → Bytes
difference name expected actual =
    if is_empty expected
    then []
    else codes " (expected "
      ++ (name
          ++ (codes "="
              ++ (expected
                  ++ (codes ", actual " ++ (name ++ (codes "=" ++ (actual ++ codes ")")))))))

unfoldable pub patch_conflict_message : PatchBase → FileState → Bytes
unfolding patch_conflict_reason difference
patch_conflict_message expected actual =
    codes "patch conflict: "
    ++ (patch_conflict_reason expected actual
        ++ (difference (codes "mtime") expected.mtime actual.mtime
            ++ difference (codes "hash") expected.hash actual.hash))

unfoldable pub preview_status_error_message : Bytes → Bytes
preview_status_error_message state =
    if str_eq state (codes "applied")
    then codes "preview already applied"
    else if str_eq state (codes "expired")
    then codes "preview expired"
    else if str_eq state (codes "evicted")
    then codes "preview evicted"
    else if str_eq state (codes "invalid")
    then codes "preview invalid"
    else codes "preview not found"

-- A value that is expected is the one found; an empty one is not looked at.
abbrev pub Expects : Bytes → Bytes → Type 0
Expects expected actual = (expected ≡ []) ⊎ (expected ≡ actual)

differs_iff :
    (expected actual : Bytes)
    → ((not (is_empty expected) && not (str_eq expected actual)) ≡ false) ↔ Expects expected actual
differs_iff [] actual = (λ h. inl refl, λ e. refl)
differs_iff (c ∷ expected) actual = (
  λ h. inr ((str_eq_iff (c ∷ expected) actual).0 (ground arith)),
  λ e. ground (arith, str_eq_iff (c ∷ expected) actual),
)

-- A file matches a base exactly when its time and its hash are the expected ones, as far as the
-- base names them; and the reason of a conflict names a difference exactly when the file does not
-- match.
pub base_matches_iff :
    (base : PatchBase) (state : FileState)
    → ((base_matches base state ≡ true)
        ↔ (Expects base.mtime state.mtime × Expects base.hash state.hash))
      × ((patch_conflict_reason base state ≡ codes "file_changed")
          ↔ (base_matches base state ≡ true))
unfolding base_matches patch_conflict_reason
base_matches_iff base state =
    let (m, m') = differs_iff base.mtime state.mtime in
    let (h, h') = differs_iff base.hash state.hash in
    (
      (λ e. (m (ground arith), h (ground arith)), λ (a, b). ground (arith, m' a, h' b)),
      (λ e. ground arith, λ e. ground arith),
    )
