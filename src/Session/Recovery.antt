-- ===== src/Session/Recovery.antt =====
-- session_service.cpp: `recovery_check`, `recovery_rebase` and `session_recover`: whether the staged
-- changes of a session still fit the files they were staged on.
pub mod Check
pub mod Keeps
use ai_editor.Prelude.{
  ℕ, suc, ◌+◌, Bool, true, false, not, ◌&&◌, ◌||◌, List, [], ◌∷◌, ◌++◌, Option, none, some, length,
  map, ◌==◌, if◌then◌else◌,
}
use ai_editor.Text.{Bytes, codes, str_eq, str_lt, is_empty}
use ai_editor.Outcome.{Outcome, ok, err}
use ai_editor.Disk.Action.{require, Exec, World, pure, fail, continue, ◌>>=◌, ◌>>◌}
use ai_editor.Disk.{Host, write_text}
use ai_editor.Session.Types.{StagedChange}
use ai_editor.Session.Codec.{SessionMeta, serialize_change}
use ai_editor.Session.Edit.{Applied, apply_change_to_content, change_can_rebase_on_content}
use ai_editor.Session.Store.{
  ChangeEntry, FileFingerprint, load_meta, load_changes, load_change_entries, fingerprint_file,
  ensure_active_session,
}
use ai_editor.Session.Lifecycle.{enter_state}

pub record RecoveryCheckFile : Type 0 where
  pub path : Bytes
  pub status : Bytes
  pub recoverable : Bool
  pub rebase_required : Bool
  pub conflict_reason : Bytes
  pub base_hash : Bytes
  pub current_hash : Bytes

pub record RecoveryCheckResult : Type 0 where
  pub session_id : Bytes
  pub state : Bytes
  pub recoverable : Bool
  pub staged_change_count : ℕ
  pub file_count : ℕ
  pub conflict_file_count : ℕ
  pub rebase_file_count : ℕ
  pub files : List RecoveryCheckFile

pub record RecoveryRebaseResult : Type 0 where
  pub session_id : Bytes
  pub state : Bytes
  pub recoverable : Bool
  pub rebased_file_count : ℕ
  pub files : List RecoveryCheckFile

pub record SessionRecoverResult : Type 0 where
  pub session_id : Bytes
  pub state : Bytes
  pub recoverable : Bool
  pub staged_change_count : ℕ
  pub conflict_file_count : ℕ
  pub rebase_file_count : ℕ

issues_text : List Bytes → Bytes
issues_text [] = []
issues_text (issue ∷ issues) =
    let rest = issues_text issues in
    if is_empty issues then issue else issue ++ (codes "; " ++ rest)

unfoldable pub summarize_recovery_conflict : List Bytes → Bytes → Bytes
unfolding issues_text
summarize_recovery_conflict issues prefix = prefix ++ issues_text issues

-- The changes of one file, in order, under the file's path: never empty, so with its `front()`.
pub record FileChanges : Type 0 where
  pub path : Bytes
  pub front : StagedChange
  pub rest : List StagedChange

abbrev pub all_of : FileChanges → List StagedChange
all_of file = file.front ∷ file.rest

-- `changes_by_path[change.path].push_back(change)`, on a map that is kept in the order of its keys
unfoldable pub push_change : StagedChange → List FileChanges → List FileChanges
push_change change [] = record { path = change.path; front = change; rest = [] } ∷ []
push_change change (file ∷ files) =
    let later = push_change change files in
    if str_eq file.path change.path
    then record file { rest = file.rest ++ (change ∷ []) } ∷ files
    else if str_lt change.path file.path
    then record { path = change.path; front = change; rest = [] } ∷ file ∷ files
    else file ∷ later

unfoldable pub group_changes : List StagedChange → List FileChanges → List FileChanges
unfolding push_change
group_changes [] files = files
group_changes (change ∷ changes) files = group_changes changes (push_change change files)

-- The loop over the changes of a file that has changed: the reasons why they do not fit, none if
-- they do. `can_rebase` is false from the first reason on.
unfoldable pub replay : List StagedChange → Bytes → List Bytes
replay [] staged_base = []
replay (change ∷ changes) staged_base = elim (change_can_rebase_on_content change staged_base) [
  | err reason ↦ reason ∷ replay changes staged_base
  | ok u ↦ elim (apply_change_to_content change staged_base) [
    | err apply_error ↦ apply_error ∷ replay changes staged_base
    | ok applied ↦ replay changes applied.updated
  ]
]

-- `hash_changed` and `mtime_changed`
unfoldable pub is_clean : StagedChange → FileFingerprint → Bool
is_clean front fp =
    not (not (is_empty front.base_hash) && not (str_eq front.base_hash fp.hash))
    && not (not (is_empty front.base_mtime) && not (str_eq front.base_mtime fp.mtime))

-- The entry of one file.
unfoldable pub check_file : FileChanges → FileFingerprint → RecoveryCheckFile
unfolding is_clean replay summarize_recovery_conflict
check_file file fp =
    let reasons = replay (all_of file) fp.content in
    let rebases = not (is_clean file.front fp) && is_empty reasons in
    let conflicts = not (is_clean file.front fp) && not (is_empty reasons) in
    record {
      path = file.path;
      status =
          if is_clean file.front fp
          then codes "clean"
          else if is_empty reasons
          then codes "rebase_required"
          else codes "conflict";
      recoverable = not conflicts;
      rebase_required = rebases;
      conflict_reason =
          if conflicts
          then summarize_recovery_conflict reasons (codes "external change detected: ")
          else [];
      base_hash = file.front.base_hash;
      current_hash = fp.hash;
    }

abbrev is_conflict : RecoveryCheckFile → Bool
is_conflict file = str_eq file.status (codes "conflict")

unfoldable pub count_files : (RecoveryCheckFile → Bool) → List RecoveryCheckFile → ℕ
count_files test [] = 0
count_files test (file ∷ files) =
    let rest = count_files test files in if test file then suc rest else rest

-- Neither committed nor aborted.
abbrev is_open : SessionMeta → Bool
is_open meta =
    not (str_eq meta.state (codes "committed")) && not (str_eq meta.state (codes "aborted"))

unfoldable pub conflict_texts : List RecoveryCheckFile → List Bytes
conflict_texts [] = []
conflict_texts (file ∷ files) =
    let rest = conflict_texts files in
    if is_conflict file
    then (file.path ++ (codes " (" ++ (file.conflict_reason ++ codes ")"))) ∷ rest
    else rest

-- Whether the check asks for a rebase of a path.
needs_rebase : List RecoveryCheckFile → Bytes → Bool
needs_rebase [] path = false
needs_rebase (file ∷ files) path =
    let rest = needs_rebase files path in
    if str_eq file.path path then file.rebase_required else rest

-- `std::set::insert`, which the result only counts and searches
insert_new : List Bytes → Bytes → List Bytes
insert_new [] path = path ∷ []
insert_new (p ∷ paths) path = if str_eq p path then p ∷ paths else p ∷ insert_new paths path

contains_path : List Bytes → Bytes → Bool
contains_path [] path = false
contains_path (p ∷ paths) path = let rest = contains_path paths path in str_eq p path || rest

mark_rebased : List Bytes → RecoveryCheckFile → RecoveryCheckFile
unfolding contains_path
mark_rebased rebased_files file =
    if contains_path rebased_files file.path
    then record file {
      status = codes "rebased";
      rebase_required = false;
      recoverable = true;
      conflict_reason = [];
    }
    else file

module _ (host : Host) where
  check_files : List FileChanges → Exec (List RecoveryCheckFile)
  unfolding check_file fingerprint_file
  check_files [] = pure []
  check_files (file ∷ files) = do
    fp ← fingerprint_file host file.path
    rest ← check_files files
    pure (check_file file fp ∷ rest)

  unfoldable pub recovery_check : Bytes → Exec RecoveryCheckResult
  unfolding load_meta load_changes group_changes check_files count_files
  recovery_check session_id = do
    meta ← load_meta host session_id
    changes ← load_changes host session_id
    let groups = group_changes changes []
    files ← check_files groups
    pure (record {
      session_id = session_id;
      state = meta.state;
      recoverable = is_open meta && count_files is_conflict files == 0;
      staged_change_count = length changes;
      file_count = length groups;
      conflict_file_count = count_files is_conflict files;
      rebase_file_count = count_files (λ file. file.rebase_required) files;
      files = files;
    })

  unfoldable pub session_recover : Bytes → Exec SessionRecoverResult
  unfolding load_meta recovery_check
  session_recover session_id = do
    meta ← load_meta host session_id
    check ← recovery_check session_id
    pure (record {
      session_id = session_id;
      state = meta.state;
      recoverable = check.recoverable && is_open meta;
      staged_change_count = check.staged_change_count;
      conflict_file_count = check.conflict_file_count;
      rebase_file_count = check.rebase_file_count;
    })

  -- One entry, on the file as it is.
  rebase_entry : ChangeEntry → Exec (Unit {0})
  unfolding fingerprint_file write_text serialize_change
  rebase_entry entry = do
    fp ← fingerprint_file host entry.change.path
    write_text host entry.meta_path
        (serialize_change (record entry.change { base_hash = fp.hash; base_mtime = fp.mtime }))

  -- The loop over the entries: the paths that were given a new base.
  rebase_entries : List RecoveryCheckFile → List ChangeEntry → List Bytes → Exec (List Bytes)
  unfolding needs_rebase insert_new rebase_entry
  rebase_entries files [] rebased_files = pure rebased_files
  rebase_entries files (entry ∷ entries) rebased_files =
      if needs_rebase files entry.change.path
      then rebase_entry entry
        >> rebase_entries files entries (insert_new rebased_files entry.change.path)
      else rebase_entries files entries rebased_files

  unfoldable pub recovery_rebase : Bytes → Exec RecoveryRebaseResult
  unfolding ensure_active_session recovery_check load_change_entries rebase_entries enter_state
      mark_rebased conflict_texts summarize_recovery_conflict
  recovery_rebase session_id = do
    meta ← ensure_active_session host session_id
    check ← recovery_check session_id
    require check.recoverable
        (summarize_recovery_conflict (conflict_texts check.files) (codes "session conflict: "))
    entries ← load_change_entries host session_id
    rebased_files ← rebase_entries check.files entries []
    next ← enter_state host meta (if is_empty rebased_files then meta.state else codes "staged")
    pure (record {
      session_id = session_id;
      state = next.state;
      recoverable = true;
      rebased_file_count = length rebased_files;
      files = map (mark_rebased rebased_files) check.files;
    })
