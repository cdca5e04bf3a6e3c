-- ===== src/Tests/Sessions.antt =====
-- The laws of sessions at concrete inputs.
use ai_editor.Prelude.{◌≡◌, ◌↔◌, ◌⊎◌, refl, inr, true, [], ◌∷◌, false}
use ai_editor.Text.{Bytes, codes, str_eq, is_empty}
use ai_editor.Text.Decimal.{pos}
use ai_editor.Text.Find.{find}
use ai_editor.Outcome.{ok, err}
use ai_editor.Disk.Action.{World}
use ai_editor.Disk.{Host, no_fault}
use ai_editor.Session.Types.{Selector, StagedChange}
use ai_editor.Session.Edit.{Applied, apply_change_to_content, change_can_rebase_on_content}
use ai_editor.Session.Edit.Apply.{replace_block}
use ai_editor.Prelude.{◌<◌}
use ai_editor.Disk.Files.{find_file}
use ai_editor.Session.Store.{ensure_active_session}
use ai_editor.Session.Lifecycle.{session_begin}
use ai_editor.Session.Lifecycle.Begun.{session_begin_lem}
use ai_editor.Session.Preview.{session_preview}
use ai_editor.Session.Commit.{session_commit}
use ai_editor.Patch.Store.{Settings}
use ai_editor.Patch.Apply.{Caller}
use ai_editor.Session.Risk.{evaluate_risk}
use ai_editor.Session.Risk.Levels.{HasNewlines, evaluate_risk_levels}
use ai_editor.Session.Codec.{SessionMeta, serialize_meta, deserialize_meta}
use ai_editor.Session.Codec.Meta.{deserialize_meta-serialize_meta}
use ai_editor.Session.Store.{FileFingerprint, load_meta, save_meta, session_meta_path}
use ai_editor.Session.Lifecycle.{session_add, session_drop_change, session_drop_path, session_abort}
use ai_editor.Session.Lifecycle.Closed.{
  not_active, IsClosed, closed_session_refuses, load_meta-save_meta, session_abort-IsClosed,
}
use ai_editor.Session.Recovery.{FileChanges, recovery_rebase}
use ai_editor.Session.Plan.{PlannedFile, plan_changes}
use ai_editor.Session.Plan.Loaded.{Untouched, FromDisk, plan_changes-FromDisk}
use ai_editor.Session.Stage.{
  no_selector, fresh_change, range_change, range_staged, block_change, selected_change,
}
use ai_editor.Session.Stage.Range.{Fits, range_change-Fits, block_change-Fits}
use ai_editor.Tests.Texts.{config, paths}

abbrev host : Host
host = record {
  config = config;
  fs = paths;
  root = codes "/w";
  fault = λ s. no_fault;
  stat_fault = λ s p. false;
  now_ms = λ s. s;
  now_us = λ s. s;
  iso_time = λ t. codes "now";
  iso_file_time = λ t. codes "then";
  file_time = λ s. pos s;
  ec_message = λ s. codes "error";
}

abbrev pub settings : Settings
settings = record {
  history_rotate_bytes = 1000;
  history_rotate_keep = 2;
  backup_keep_count = 2;
  preview_keep_count = 2;
  preview_status_keep_count = 2;
  preview_ttl_ms = 1000;
}

abbrev pub caller : Caller
caller = record { client_id = codes "c"; session_id = []; request_id = codes "r" }

abbrev pub aborted_meta : SessionMeta
aborted_meta = record {
  session_id = codes "s";
  state = codes "aborted";
  created_at = [];
  updated_at = codes "now";
}

abbrev on_disk : Bytes → World
on_disk raw = record {
  files =
      (codes "/w/.bridge/sessions/s/session.json", record { content = raw; mtime = pos 0 }) ∷ [];
  step = 0;
}

deserialize_meta-serialize_meta_example :
    deserialize_meta (serialize_meta aborted_meta) ≡ aborted_meta
deserialize_meta-serialize_meta_example = deserialize_meta-serialize_meta aborted_meta

abbrev pub no_change : StagedChange
no_change =
    fresh_change (codes "x.txt") (record { exists = true; mtime = []; hash = []; content = [] })

abbrev pub aborted_world : World
aborted_world = on_disk (
    codes "{\"session_id\":\"s\",\"state\":\"aborted\",\"created_at\":\"\",\"updated_at\":\"now\"}")

closed_session_refuses_example :
    let w' = (load_meta host (codes "s") aborted_world).1 in
    (session_add host (codes "s") no_change aborted_world ≡ (err not_active, w'))
    × (session_drop_change host (codes "s") (codes "1") aborted_world ≡ (err not_active, w'))
    × (session_drop_path host (codes "s") (codes "x.txt") aborted_world ≡ (err not_active, w'))
    × (recovery_rebase host (codes "s") aborted_world ≡ (err not_active, w'))
    × (session_preview host settings (codes "s") aborted_world ≡ (err not_active, w'))
    × (session_commit host settings (codes "s") caller aborted_world ≡ (err not_active, w'))
    × (w'.files ≡ aborted_world.files)
unfolding load_meta str_eq session_meta_path ai_editor.Json.json_get_string
    ai_editor.Text.starts_with
closed_session_refuses_example =
    closed_session_refuses host settings caller (codes "s") aborted_world aborted_meta refl
      (inr refl) no_change (codes "1") (codes "x.txt") refl

abbrev empty_disk : World
empty_disk = record { files = []; step = 0 }

load_meta-save_meta_example :
    (load_meta host (codes "s") (save_meta host aborted_meta empty_disk).1).0 ≡ ok aborted_meta
unfolding save_meta
load_meta-save_meta_example =
    load_meta-save_meta host aborted_meta empty_disk (save_meta host aborted_meta empty_disk).1 tt
      refl refl (λ n e. cc) refl

abbrev pub created_meta : SessionMeta
created_meta = record {
  session_id = codes "s";
  state = codes "created";
  created_at = [];
  updated_at = [];
}

abbrev pub created_world : World
created_world =
    on_disk
      (codes "{\"session_id\":\"s\",\"state\":\"created\",\"created_at\":\"\",\"updated_at\":\"\"}")

session_abort-IsClosed_example :
    (closed : SessionMeta) × ((load_meta host
        (codes "s")
        (session_abort host (codes "s") created_world).1).0
      ≡ ok closed)
    × IsClosed closed
unfolding session_abort str_eq session_meta_path ai_editor.Json.json_get_string
    ai_editor.Text.starts_with
session_abort-IsClosed_example =
    session_abort-IsClosed host (codes "s") created_world
      (session_abort host (codes "s") created_world).1 created_meta
      (record { session_id = codes "s"; state = codes "aborted"; aborted = true }) refl refl refl
      refl (λ n e. cc) refl

abbrev fp : FileFingerprint
fp = record { exists = true; mtime = codes "1"; hash = codes "h"; content = codes "a b a\n" }

range_change-Fits_example : Fits (range_staged (codes "x.txt") fp 1 1 (codes "c")) fp
unfolding range_change ai_editor.Document.make_document_from_content
range_change-Fits_example =
    range_change-Fits (codes "x.txt") fp 1 1 (codes "c")
      (range_staged (codes "x.txt") fp 1 1 (codes "c")) refl refl

abbrev first_a : Selector
first_a = record no_selector { query = codes "a" }

block_change-Fits_example :
    Fits
      (selected_change
        (codes "replace_block")
        (codes "x.txt")
        fp
        first_a
        (codes "c")
        2
        (record { start = 0; end = 1; ordinal = 1 }))
      fp
unfolding block_change ai_editor.Session.Edit.locate_candidates ai_editor.Session.Edit.locate_loop
    find ai_editor.Text.starts_with
block_change-Fits_example =
    block_change-Fits replace_block (codes "x.txt") fp first_a (codes "c")
      (selected_change (codes "replace_block") (codes "x.txt") fp first_a (codes "c") 2
        (record { start = 0; end = 1; ordinal = 1 }))
      refl

abbrev pub rewrite : StagedChange
rewrite = record no_change { operation = codes "replace_content"; new_content = codes "new\n" }

abbrev rewritten : Applied
rewritten = record { updated = codes "new\n"; line_start = 1; line_end = 1 }

abbrev rewrites : FileChanges
rewrites = record { path = codes "x.txt"; front = rewrite; rest = [] }

abbrev planned : PlannedFile
planned = record {
  path = codes "x.txt";
  current_content = codes "old";
  final_content = codes "old";
  items = [];
  risk = record { level = codes "low"; reasons = [] };
}

abbrev replanned : PlannedFile
replanned = record planned {
  final_content = codes "new\n";
  items =
      record {
        change_id = [];
        operation = codes "replace_content";
        path = codes "x.txt";
        line_start = 1;
        line_end = 1;
        selector_reason = [];
        anchor = [];
        risk_level = codes "low";
      }
      ∷ [];
}

abbrev old_disk : World
old_disk = record {
  files = (codes "/w/x.txt", record { content = codes "old"; mtime = pos 0 }) ∷ [];
  step = 0;
}

plan_changes-FromDisk_example :
    Untouched (codes "x.txt") (rewrite ∷ []) (replanned ∷ [])
    ⊎ FromDisk host (codes "x.txt") (rewrite ∷ []) (replanned ∷ []) old_disk
unfolding plan_changes str_eq ai_editor.Session.Edit.count_line_of_offset
    ai_editor.Session.Store.load_document ai_editor.Path.starts_with_path_segment
    ai_editor.Text.starts_with ai_editor.Path.policy_of ai_editor.Path.any_covers
    ai_editor.Document.make_document_from_content ai_editor.Path.join_path
plan_changes-FromDisk_example =
    plan_changes-FromDisk host (rewrite ∷ []) (replanned ∷ []) old_disk
      (plan_changes host (rewrite ∷ []) [] old_disk).1 (codes "x.txt") refl

evaluate_risk_levels_example :
    let risk = evaluate_risk rewrite 1 in
    ((risk.level ≡ codes "high") ↔ (
      (1 < 1) ⊎ ((rewrite.operation ≡ codes "delete_block") ⊎ HasNewlines 19 rewrite.new_content)))
    × ((risk.level ≡ codes "low") ↔ (risk.reasons ≡ []))
evaluate_risk_levels_example = evaluate_risk_levels rewrite 1

session_begin_lem_example :
    (meta : SessionMeta) × ((ensure_active_session host
        (codes "s")
        (session_begin host (codes "s") empty_disk).1).0
      ≡ ok meta)
    × (meta.session_id ≡ codes "s")
    × (meta.state ≡ codes "created")
    × (codes "s" ≡ codes "s")
    × (codes "created" ≡ codes "created")
unfolding session_begin find_file
session_begin_lem_example =
    session_begin_lem host (codes "s") empty_disk (session_begin host (codes "s") empty_disk).1
      (record { session_id = codes "s"; state = codes "created"; created_at = codes "now" }) refl
      refl refl (λ n e. cc) refl
