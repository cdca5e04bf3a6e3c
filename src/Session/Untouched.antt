-- ===== src/Session/Untouched.antt =====
-- The operations on a session that do not commit, and the workspace's own files.
use ai_editor.Prelude.{◌≡◌, List}
use ai_editor.Text.{Bytes}
use ai_editor.Outcome.{ok}
use ai_editor.Path.Segment.{PlainName}
use ai_editor.Document.Laws.{All}
use ai_editor.Session.Codec.{SessionMeta}
use ai_editor.Session.Store.{load_meta, load_changes}
use ai_editor.Disk.{Host}
use ai_editor.Disk.Action.{World}
use ai_editor.Session.Types.{StagedChange}
use ai_editor.Session.Lifecycle.{
  session_begin, session_add, session_abort, session_snapshot, session_drop_change,
  session_drop_path,
}
use ai_editor.Session.Recovery.{recovery_check, session_recover, recovery_rebase}
use ai_editor.Session.Plan.{session_materialize_file}
use ai_editor.Session.Inspect.{session_inspect}
use ai_editor.Session.Preview.{session_preview}
use ai_editor.Patch.Store.{Settings}

-- The operations on a session that do not commit, each with what it is given.
pub data Op : Type 0 where
  begin abort snapshot inspect check recover rebase preview : Op
  add : StagedChange → Op
  drop_change drop_path materialize : Bytes → Op

-- The disk after an operation, whether it succeeds or fails.
unfoldable pub run : Host → Settings → Bytes → Op → World → World
unfolding session_begin session_abort session_snapshot session_inspect recovery_check
    session_recover recovery_rebase session_preview session_add session_drop_change
    session_drop_path session_materialize_file
run host settings id begin w = (session_begin host id w).1
run host settings id abort w = (session_abort host id w).1
run host settings id snapshot w = (session_snapshot host id w).1
run host settings id inspect w = (session_inspect host id w).1
run host settings id check w = (recovery_check host id w).1
run host settings id recover w = (session_recover host id w).1
run host settings id rebase w = (recovery_rebase host id w).1
run host settings id preview w = (session_preview host settings id w).1
run host settings id (add change) w = (session_add host id change w).1
run host settings id (drop_change change_id) w = (session_drop_change host id change_id w).1
run host settings id (drop_path path) w = (session_drop_path host id path w).1
run host settings id (materialize path) w = (session_materialize_file host id path w).1

-- The names that a session's files are made of are plain: the id in its stored state, and the ids of
-- its staged changes.
pub record StoredPlain (host : Host) (session_id : Bytes) (w : World) : Type 0 where
  pub state_id :
      (meta : SessionMeta) → (load_meta host session_id w).0 ≡ ok meta → PlainName meta.session_id
  pub change_ids :
      (changes : List StagedChange)
      → (load_changes host session_id (load_meta host session_id w).1).0 ≡ ok changes
      → All (λ (change : StagedChange). PlainName change.change_id) changes

-- The id of the change that an operation stores is plain.
abbrev pub OpPlain : Op → Type 0
OpPlain (add change) = PlainName change.change_id
OpPlain _ = Unit
