-- ===== src/Session/Lifecycle.antt =====
-- session_service.cpp: `session_begin`, `session_add`, `session_abort`, the two `session_drop_*` and
-- `session_snapshot`. An error is the result's `error`, with `ok` false.
pub mod Begun
pub mod Closed
pub mod Keeps
use ai_editor.Prelude.{
  ℕ, zero, suc, ◌+◌, Bool, true, false, not, ◌&&◌, ◌||◌, List, [], ◌∷◌, ◌++◌, Option, none, some,
  length, ltb, ◌==◌, drop, if◌then◌else◌,
}
use ai_editor.Text.{Bytes, codes, str_eq, is_empty}
use ai_editor.Text.Find.{contains, rfind}
use ai_editor.Outcome.{Outcome, ok, err}
use ai_editor.Disk.Action.{Exec, World, pure, fail, lift, continue, ◌>>=◌, ◌>>◌}
use ai_editor.Disk.{Host, write_text, remove_path, current_timestamp}
use ai_editor.Session.Types.{Selector, RiskHint, StagedChange}
use ai_editor.Session.Codec.{SessionMeta, serialize_meta, serialize_change}
use ai_editor.Session.Risk.{summarize_selector}
use ai_editor.Session.Edit.{infer_anchor}
use ai_editor.Session.Store.{
  ChangeEntry, make_change_id, ensure_session_dirs, load_meta, save_meta, load_changes,
  load_change_entries, save_change, session_exists, ensure_active_session, session_snapshot_path,
}

pub record SessionBeginResult : Type 0 where
  pub session_id : Bytes
  pub state : Bytes
  pub created_at : Bytes

pub record SessionMutationResult : Type 0 where
  pub session_id : Bytes
  pub state : Bytes
  pub change_id : Bytes
  pub path : Bytes
  pub staged_change_count : ℕ
  pub selector_reason : Bytes
  pub anchor : Bytes
  pub risk : RiskHint

pub record SessionAbortResult : Type 0 where
  pub session_id : Bytes
  pub state : Bytes
  pub aborted : Bool

pub record SessionSnapshotResult : Type 0 where
  pub session_id : Bytes
  pub state : Bytes
  pub snapshot_path : Bytes

abbrev or_else : Bytes → Bytes → Bytes
or_else text fallback = if is_empty text then fallback else text

-- `meta_path.filename()`
unfoldable pub file_name : Bytes → Bytes
unfolding rfind
file_name path = elim (rfind path (codes "/") (length path)) [
  | none ↦ path
  | some k ↦ drop (suc k) path
]

-- `remaining.empty() ? "created" : "staged"`
unfoldable pub state_of : List StagedChange → Bytes
state_of remaining = if is_empty remaining then codes "created" else codes "staged"

-- `id_match` of `session_drop_change`
unfoldable pub id_match : Bytes → ChangeEntry → Bool
unfolding file_name contains
id_match change_id entry =
    str_eq entry.change.change_id change_id
    || (not (is_empty change_id) && contains (file_name entry.meta_path) change_id)

snapshot_lines : List StagedChange → Bytes
unfolding serialize_change
snapshot_lines [] = []
snapshot_lines (change ∷ changes) =
    serialize_change change ++ (codes "\n" ++ snapshot_lines changes)

abbrev pub begun : SessionMeta → SessionBeginResult
begun meta = record {
  session_id = meta.session_id;
  state = meta.state;
  created_at = meta.created_at;
}

module _ (host : Host) where
  -- The session of a new id.
  unfoldable pub create_session : Bytes → Exec SessionMeta
  unfolding current_timestamp save_meta
  create_session session_id = do
    created_at ← current_timestamp host
    let meta : SessionMeta = record {
      session_id = session_id;
      state = codes "created";
      created_at = created_at;
      updated_at = created_at;
    }
    save_meta host meta
    pure meta

  unfoldable pub session_begin : Bytes → Exec SessionBeginResult
  unfolding ensure_session_dirs load_meta session_exists create_session
  session_begin session_id = if is_empty session_id then fail (codes "session_id is empty") else do
    ensure_session_dirs host session_id
    meta ← λ w.
        (if session_exists host session_id w
          then load_meta host session_id w
          else create_session session_id w)
    pure (begun meta)

  id_or_new : Bytes → StagedChange → Exec Bytes
  unfolding make_change_id
  id_or_new session_id input =
      if is_empty input.change_id
      then make_change_id host session_id input.operation input.path
      else pure input.change_id

  time_or_now : StagedChange → Exec Bytes
  unfolding current_timestamp
  time_or_now input =
      if is_empty input.created_at then current_timestamp host else pure input.created_at

  -- The change as `session_add` saves it.
  complete : Bytes → StagedChange → Exec StagedChange
  unfolding id_or_new time_or_now summarize_selector infer_anchor
  complete session_id input = do
    change_id ← id_or_new session_id input
    created_at ← time_or_now input
    pure (record input {
      session_id = session_id;
      change_id = change_id;
      created_at = created_at;
      selector_reason = or_else input.selector_reason (summarize_selector input);
      anchor = or_else input.anchor (infer_anchor input.selector);
    })

  -- `meta.state = state; meta.updated_at = current_timestamp(); save_meta`
  unfoldable pub enter_state : SessionMeta → Bytes → Exec SessionMeta
  unfolding current_timestamp save_meta
  enter_state meta state = do
    updated_at ← current_timestamp host
    let next = record meta { state = state; updated_at = updated_at }
    save_meta host next
    pure next

  unfoldable pub session_add : Bytes → StagedChange → Exec SessionMutationResult
  unfolding ensure_active_session complete save_change enter_state load_changes
  session_add session_id input = do
    meta ← ensure_active_session host session_id
    change ← complete session_id input
    save_change host session_id change
    next ← enter_state meta (codes "staged")
    changes ← load_changes host session_id
    pure (record {
      session_id = session_id;
      state = next.state;
      change_id = change.change_id;
      path = change.path;
      staged_change_count = length changes;
      selector_reason = change.selector_reason;
      anchor = change.anchor;
      risk = change.risk;
    })

  unfoldable pub session_abort : Bytes → Exec SessionAbortResult
  unfolding load_meta enter_state
  session_abort session_id = do
    meta ← load_meta host session_id
    next ← enter_state meta (codes "aborted")
    pure (record { session_id = session_id; state = next.state; aborted = true })

  -- The loop that removes the entries that `drops` picks: how many there were, and the path of the last.
  remove_entries : (ChangeEntry → Bool) → List ChangeEntry → ℕ × Bytes → Exec (ℕ × Bytes)
  unfolding remove_path
  remove_entries drops [] removed = pure removed
  remove_entries drops (entry ∷ entries) (count, path) =
      if drops entry
      then remove_path host entry.meta_path
        >> remove_entries drops entries (suc count, entry.change.path)
      else remove_entries drops entries (count, path)

  unfoldable pub session_drop_change : Bytes → Bytes → Exec SessionMutationResult
  unfolding ensure_active_session load_change_entries remove_entries load_changes enter_state
      state_of id_match
  session_drop_change session_id change_id =
      if is_empty change_id then fail (codes "change_id required") else do
        meta ← ensure_active_session host session_id
        entries ← load_change_entries host session_id
        removed ← remove_entries (id_match change_id) entries (0, [])
        (if removed.0 == 0 then fail (codes "change not found") else pure tt)
        remaining ← load_changes host session_id
        next ← enter_state meta (state_of remaining)
        pure (record {
          session_id = session_id;
          state = next.state;
          change_id = change_id;
          path = removed.1;
          staged_change_count = length remaining;
          selector_reason = codes "rejected staged change";
          anchor = [];
          risk = record { level = codes "low"; reasons = [] };
        })

  unfoldable pub session_drop_path : Bytes → Bytes → Exec SessionMutationResult
  unfolding ensure_active_session load_change_entries remove_entries load_changes enter_state
      state_of
  session_drop_path session_id path = do
    meta ← ensure_active_session host session_id
    entries ← load_change_entries host session_id
    removed ← remove_entries (λ entry. str_eq entry.change.path path) entries (0, [])
    (if removed.0 == 0 then fail (codes "path not found in session") else pure tt)
    remaining ← load_changes host session_id
    next ← enter_state meta (state_of remaining)
    pure (record {
      session_id = session_id;
      state = next.state;
      change_id = [];
      path = path;
      staged_change_count = length remaining;
      selector_reason = codes "rejected staged file";
      anchor = [];
      risk = record {
        level = if ltb 1 removed.0 then codes "medium" else codes "low";
        reasons = if ltb 1 removed.0 then codes "multi-change-file-drop" ∷ [] else [];
      };
    })

  unfoldable pub session_snapshot : Bytes → Exec SessionSnapshotResult
  unfolding load_meta load_changes write_text session_snapshot_path serialize_meta snapshot_lines
  session_snapshot session_id = do
    meta ← load_meta host session_id
    changes ← load_changes host session_id
    write_text host (session_snapshot_path host session_id)
        (serialize_meta meta ++ (codes "\n" ++ snapshot_lines changes))
    pure (record {
      session_id = session_id;
      state = meta.state;
      snapshot_path = session_snapshot_path host session_id;
    })
