-- ===== src/Tests/Commits.antt =====
-- The laws of patches that are applied, of previews and of commits at concrete inputs.
use ai_editor.Prelude.{
  ◌==◌, suc, ◌≡◌, ap, sym, refl, Bool, true, false, none, [], ◌∷◌, ◌++◌, length, drop, some, arith,
}
use ai_editor.Text.{Bytes, codes, str_eq, is_empty}
use ai_editor.Text.Decimal.{pos}
use ai_editor.Outcome.{ok-injective, Outcome, ok, err}
use ai_editor.Session.Codec.{SessionMeta}
use ai_editor.Path.{ResolveResult, normal, deny}
use ai_editor.Disk.Action.{World}
use ai_editor.Disk.Keeps.{FileKept}
use ai_editor.Disk.{Host, no_fault, content_of}
use ai_editor.Patch.Store.{PreviewRecord, preview_of, preview_text, getlines}
use ai_editor.Patch.Store.Previews.{preview_of-preview_text}
use ai_editor.Patch.Base.{PatchBase, patch_conflict_message}
use ai_editor.Patch.Encoding.{FileState, decoded, encode_text}
use ai_editor.Patch.Apply.{PatchPlan, PatchApplyResult, patch_apply}
use ai_editor.Patch.Apply.Writes.{Source, patch_apply-writes}
use ai_editor.Patch.Apply.Keeps.{patch_apply-kept}
use ai_editor.Patch.Apply.Refuses.{Conflict, patch_apply-refuses}
use ai_editor.Patch.Apply.Once.{patch_apply-once}
use ai_editor.Patch.Stream.{StreamOptions, Streamed, completed, stream_diff}
use ai_editor.Patch.Stream.Chunks.{joined, stream_diff-delivers, stream_diff-completes}
use ai_editor.Session.Store.{load_meta}
use ai_editor.Hash.{content_hash}
use ai_editor.Session.Lifecycle.{session_add}
use ai_editor.Session.Commit.{SessionCommitResult, session_commit}
use ai_editor.Session.Commit.Committed.{session_commit-closes}
use ai_editor.Path.Segment.{PlainName}
use ai_editor.Session.Untouched.{run}
use ai_editor.Tests.Sessions.{rewrite, settings, caller, created_world}
use ai_editor.Tests.Texts.{config}

-- A disk on which every path is already canonical.
abbrev host : Host
host = record {
  config = config;
  fs = record {
    absolute = λ p. ok p;
    weakly_canonical = λ p. ok p;
    relative = λ p root. ok (drop (suc (length root)) p);
  };
  root = codes "/w";
  fault = λ s. no_fault;
  stat_fault = λ s p. false;
  now_ms = λ s. s;
  now_us = λ s. s;
  iso_time = λ t. codes "now";
  iso_file_time = λ t. codes "then";
  file_time = λ s. pos s;
  ec_message = λ s. codes "error";
}

abbrev any_base : PatchBase
any_base = record { mtime = []; hash = [] }

abbrev old_base : PatchBase
old_base = record { mtime = codes "before"; hash = [] }

abbrev disk : World
disk = record {
  files =
      (codes "/w/a.txt", record { content = codes "a\n"; mtime = pos 0 })
      ∷ (codes "/w/b.txt", record { content = codes "b\n"; mtime = pos 0 })
      ∷ [];
  step = 0;
}

abbrev resolved : ResolveResult
resolved = record {
  normalized_root = codes "/w";
  absolute_path = codes "/w/a.txt";
  normalized_relative_path = codes "a.txt";
  policy = normal;
}

abbrev state : FileState
state = record (decoded (codes "a\n")) { mtime = codes "then" }

abbrev preview_record : PreviewRecord
preview_record = record {
  preview_id = codes "7-x";
  path = codes "a";
  current_mtime = codes "t";
  current_hash = codes "h";
  new_content_hash = codes "n";
  encoding = codes "u";
  bom = true;
  eol = codes "lf";
  created_at_ms = 7;
}

preview_of-preview_text_example :
    preview_of (getlines [] (preview_text preview_record)) ≡ some preview_record
preview_of-preview_text_example =
    preview_of-preview_text preview_record ((refl, (refl, (refl, tt)))) (refl, tt) (refl, tt)
      (refl, tt) (refl, tt) (refl, tt) ((refl, (refl, tt))) (ground arith)

plain_empty : PlainName []
plain_empty = (refl, (λ e. cc), (λ e. cc))

-- The plan of a request for a.txt that names no preview.
abbrev plan_for : PatchBase → PatchPlan
plan_for base = record {
  path = codes "a.txt";
  new_content = codes "new\n";
  base = base;
  preview = none;
}

patch_apply-writes_example :
    (content_of
        (codes "/w/a.txt")
        (patch_apply host settings (codes "a.txt") (codes "new\n") any_base caller [] disk).1
      ≡ encode_text (codes "new\n") state.eol state.bom state.encoding)
    × Source host settings (codes "a.txt") (codes "new\n") [] disk (plan_for any_base)
unfolding ai_editor.Patch.Apply.plan_request ai_editor.Patch.Apply.check_base
    ai_editor.Patch.Preview.resolve_allowed str_eq ai_editor.Path.join_path
    ai_editor.Path.starts_with_path_segment ai_editor.Text.starts_with ai_editor.Path.policy_of
    ai_editor.Path.any_covers ai_editor.Disk.bridge_dir ai_editor.Patch.Encoding.read_text_file
    ai_editor.Disk.exists_or_throw ai_editor.Text.Find.contains ai_editor.Patch.Base.base_matches
patch_apply-writes_example =
    patch_apply-writes host settings (codes "a.txt") (codes "new\n") any_base caller [] disk disk
      (record disk { step = 2 }) (plan_for any_base) resolved state (λ n. refl) plain_empty refl
      refl refl refl refl

patch_apply-kept_example :
    FileKept
      (codes "/w/b.txt")
      disk
      (patch_apply host settings (codes "a.txt") (codes "new\n") any_base caller [] disk).1
unfolding ai_editor.Text.starts_with ai_editor.Disk.bridge_dir
    ai_editor.Patch.Preview.resolve_allowed str_eq ai_editor.Path.starts_with_path_segment
    ai_editor.Path.policy_of ai_editor.Path.any_covers
patch_apply-kept_example =
    patch_apply-kept host settings (codes "a.txt") (codes "new\n") any_base caller
      (codes "/w/b.txt") disk refl
      (λ r found.
        let same = ok-injective found in
        (
          ap (λ (t : ResolveResult). str_eq t.absolute_path (codes "/w/b.txt")) (sym same),
          ap
              (λ (t : ResolveResult).
                str_eq (t.absolute_path ++ codes ".bridge.tmp") (codes "/w/b.txt"))
              (sym same),
        ))

patch_apply-refuses_example :
    let run = patch_apply host settings (codes "a.txt") (codes "new\n") old_base caller [] disk in
    (resolved.policy ≡ deny → run ≡ (err (codes "path denied by policy"), disk))
    × ((state : FileState) (after : World)
        → Conflict host (plan_for old_base) resolved disk state after
        → (run ≡ (err (patch_conflict_message old_base state), after))
          × ((q : Bytes) → FileKept q disk after))
unfolding ai_editor.Patch.Apply.plan_request ai_editor.Disk.resolve str_eq ai_editor.Path.join_path
    ai_editor.Path.starts_with_path_segment ai_editor.Text.starts_with ai_editor.Path.policy_of
    ai_editor.Path.any_covers ai_editor.Patch.Encoding.read_text_file ai_editor.Disk.exists_or_throw
    ai_editor.Text.Find.contains ai_editor.Patch.Base.base_matches
patch_apply-refuses_example =
    patch_apply-refuses host settings (codes "a.txt") (codes "new\n") old_base caller [] disk disk
      (plan_for old_base) resolved refl refl

-- The file of the witness is in conflict with the request.
conflict : Conflict host (plan_for old_base) resolved disk state (record disk { step = 2 })
unfolding ai_editor.Patch.Encoding.read_text_file ai_editor.Disk.exists_or_throw
    ai_editor.Text.Find.contains ai_editor.Text.starts_with ai_editor.Patch.Base.base_matches str_eq
conflict = record { normal = refl; read = refl; differs = refl }

-- The value of a call that succeeds.
abbrev value : {A : Type 0} → A → Outcome A → A
value fallback (ok a) = a
value fallback (err e) = fallback

abbrev is_ok : {A : Type 0} → Outcome A → Bool
is_ok (ok a) = true
is_ok (err e) = false

value-ok :
    {A : Type 0} (fallback : A) (r : Outcome A × World)
    → is_ok r.0 ≡ true
    → r ≡ (ok (value fallback r.0), r.1)
value-ok fallback (ok a, w) h = refl
value-ok fallback (err e, w) h = absurd (ground arith)

abbrev no_result : PatchApplyResult
no_result = record {
  path = [];
  preview_id = [];
  backup_id = [];
  current_mtime = [];
  current_hash = [];
  preview_status = [];
}

-- The disk with a preview of a new text for a file, made at the time 0.
abbrev preview_id : Bytes
preview_id = codes "7-x"

abbrev previewed : World
previewed = record {
  files =
      (codes "/w/a.txt", record { content = codes "a\n"; mtime = pos 0 })
      ∷ (
        codes "/w/.bridge/previews/7-x.meta",
        record {
          content = preview_text (record {
            preview_id = preview_id;
            path = codes "a.txt";
            current_mtime = codes "then";
            current_hash = state.hash;
            new_content_hash = content_hash (codes "n\n");
            encoding = codes "utf-8";
            bom = false;
            eol = codes "lf";
            created_at_ms = 0;
          });
          mtime = pos 0;
        },
      )
      ∷ (codes "/w/.bridge/previews/7-x.content", record { content = codes "n\n"; mtime = pos 0 })
      ∷ [];
  step = 0;
}

abbrev applied : Outcome PatchApplyResult × World
applied = patch_apply host settings [] [] any_base caller preview_id previewed

patch_apply-once_example :
    (e : Bytes) × ((patch_apply host settings [] [] any_base caller preview_id applied.1).0 ≡ err e)
unfolding patch_apply str_eq preview_text ai_editor.Text.starts_with
    ai_editor.Path.starts_with_path_segment ai_editor.Path.policy_of ai_editor.Path.any_covers
    ai_editor.Text.Find.contains ai_editor.Document.strip_cr
patch_apply-once_example =
    patch_apply-once host settings preview_id [] [] any_base caller previewed applied.1
      (value no_result applied.0) (λ n. refl) refl (value-ok no_result applied refl) [] [] any_base
      caller

abbrev no_commit : SessionCommitResult
no_commit = record {
  session_id = [];
  state = [];
  commit_id = [];
  committed_file_count = 0;
  files = [];
}

abbrev staged_world : World
staged_world = (session_add host (codes "s") rewrite created_world).1

abbrev committed : Outcome SessionCommitResult × World
committed = session_commit host settings (codes "s") caller staged_world

session_commit-closes_example :
    (closed : SessionMeta) × ((load_meta host (codes "s") committed.1).0 ≡ ok closed)
    × (closed.state ≡ codes "committed")
unfolding session_commit session_add str_eq ai_editor.Session.Store.session_meta_path
    ai_editor.Json.json_get_string ai_editor.Text.starts_with ai_editor.Text.Find.contains
    ai_editor.Json.json_escape ai_editor.Path.starts_with_path_segment ai_editor.Path.policy_of
    ai_editor.Path.any_covers ai_editor.Document.strip_cr
session_commit-closes_example =
    session_commit-closes host settings (codes "s") caller staged_world committed.1
      (value no_commit committed.0) (value-ok no_commit committed refl)
      (λ meta loaded. ap (λ (m : SessionMeta). m.session_id) (sym (ok-injective loaded))) refl
      (λ n e. cc) refl

abbrev quiet_options : StreamOptions
quiet_options = record {
  chunk_bytes = 2;
  cancel_requested = λ i. false;
  expired_before = λ i. false;
  expired_after = λ i. false;
  on_chunk = λ i part. true;
}

abbrev stopped_options : StreamOptions
stopped_options = record quiet_options { cancel_requested = λ i. i == 1 }

stream_diff-delivers_example :
    (s : Streamed) × (stream_diff stopped_options (codes "abc") ≡ some s)
    × ((rest : Bytes) × (joined s.parts ++ rest ≡ codes "abc"))
    × (s.ending ≡ completed → joined s.parts ≡ codes "abc")
stream_diff-delivers_example = stream_diff-delivers stopped_options (codes "abc")

stream_diff-completes_example :
    (s : Streamed) × (stream_diff quiet_options (codes "abc") ≡ some s)
    × (s.ending ≡ completed)
    × (joined s.parts ≡ codes "abc")
stream_diff-completes_example = stream_diff-completes quiet_options (codes "abc") (record {
  not_cancelled = λ i. refl;
  in_time = λ i. refl;
  in_time_after = λ i. refl;
  accepted = λ i part. refl;
})
