-- ===== src/Session/Commit/Committed.antt =====
-- What a commit leaves behind, and the sessions that it refuses.
use ai_editor.Prelude.{◌≡◌, sym, ap, ◌∙◌, List, [], ◌∷◌, false, length}
use ai_editor.Text.{Bytes, codes, is_empty}
use ai_editor.Outcome.{ok, ok-injective}
use ai_editor.Disk.{Host, no_fault, current_timestamp, write_text}
use ai_editor.Disk.Ensures.{Ensures, Ensures-bind, Ensures-after, Ensures-map}
use ai_editor.Disk.Action.{◌>>=◌, ◌>>◌, Exec, World, continue-ok}
use ai_editor.Session.Codec.{SessionMeta}
use ai_editor.Session.Store.{load_meta, save_meta}
use ai_editor.Session.Store.Keeps.{ensure_active_session-loaded}
use ai_editor.Session.Lifecycle.{enter_state}
use ai_editor.Session.Lifecycle.Closed.{Arrived, enter_state-saved, load_meta-save_meta}
use ai_editor.Session.Plan.{PlannedFile}
use ai_editor.Patch.Store.{Settings}
use ai_editor.Patch.Apply.{Caller}
use ai_editor.Session.Commit.{
  SessionCommitResult, session_commit, commit_plan, commit_files, commit_file, CommitFileRecord,
  make_commit_id, session_commit_path, commit_json, recovery_check, check_ready,
  build_planned_files, ensure_active_session,
}

module _ (host : Host) (settings : Settings) (session_id : Bytes) (caller : Caller) where
  -- Entering a state keeps the session's id.
  Ensures-enter_state :
      (meta : SessionMeta) (state : Bytes)
      → Ensures (λ next w. next.session_id ≡ meta.session_id) (enter_state host meta state)
  Ensures-enter_state meta state = record {
    at = λ w w' next h. let (s, id, saved) = enter_state-saved host meta state w w' next h in id;
  }

  Ensures-commit_files :
      (meta : SessionMeta) (files : List PlannedFile)
      → Ensures
          (λ r w. r.0.session_id ≡ meta.session_id)
          (commit_files host settings session_id caller meta files)
  unfolding commit_files
  Ensures-commit_files meta [] = record {
    at = λ w w' r h.
        ap (λ (p : SessionMeta × List CommitFileRecord). p.0.session_id)
          (sym (ok-injective (ap (λ p. p.0) h)));
  }
  Ensures-commit_files meta (file ∷ files) =
      Ensures-bind (Ensures-enter_state meta (codes "writing")) (λ writing same.
        Ensures-after (commit_file host settings session_id caller file) (λ done.
          Ensures-bind (Ensures-enter_state writing (codes "verifying")) (λ verifying same'.
            Ensures-map (λ (rest : SessionMeta × List CommitFileRecord). (rest.0, done ∷ rest.1))
              (Ensures-commit_files verifying files) (λ rest w same''. same'' ∙ same' ∙ same))))

  -- The state that is saved last.
  abbrev Committed : SessionMeta → World → Type 0
  Committed meta w' =
      (next : SessionMeta) × (next.state ≡ codes "committed")
      × (next.session_id ≡ meta.session_id)
      × (v : World) × (save_meta host next v ≡ (ok tt, w'))

  Ensures-closing :
      (meta : SessionMeta)
      → Ensures (λ next w'. Committed meta w') (enter_state host meta (codes "committed"))
  Ensures-closing meta = record {
    at = λ w w' next h.
        let (state, same, saved) = enter_state-saved host meta (codes "committed") w w' next h in
        (next, state, same, (current_timestamp host w).1, saved);
  }

  abbrev result_of : Bytes → SessionMeta × List CommitFileRecord → SessionMeta → SessionCommitResult
  result_of commit_id written committed = record {
    session_id = session_id;
    state = committed.state;
    commit_id = commit_id;
    committed_file_count = length written.1;
    files = written.1;
  }

  Ensures-commit_plan :
      (meta : SessionMeta) (planned : List PlannedFile)
      → Ensures
          (λ r w'. Committed meta w')
          (commit_plan host settings session_id caller meta planned)
  unfolding commit_plan
  Ensures-commit_plan meta planned =
      Ensures-after (make_commit_id host settings session_id) (λ commit_id.
        Ensures-after (current_timestamp host) (λ created_at.
          Ensures-bind (Ensures-enter_state meta (codes "validating")) (λ validating same.
            Ensures-bind (Ensures-commit_files validating planned) (λ written same'.
              Ensures-after
                (write_text host (session_commit_path host settings session_id) (
                  commit_json (record {
                    commit_id = commit_id;
                    session_id = session_id;
                    state = codes "recorded";
                    files = written.1;
                    created_at = created_at;
                  })))
                (λ u.
                  Ensures-map (result_of commit_id written) (Ensures-closing written.0)
                    (λ next w (n, s, i, v, r). (n, s, i ∙ same' ∙ same, v, r)))))))

  Ensures-session_commit :
      (w w' : World) (r : SessionCommitResult)
      → session_commit host settings session_id caller w ≡ (ok r, w')
      → (meta : SessionMeta) × ((load_meta host session_id w).0 ≡ ok meta) × Committed meta w'
  unfolding session_commit
  Ensures-session_commit w w' r h =
      let active = ensure_active_session host session_id w in
      let (meta, e, rest) = continue-ok active.0 (λ meta. after meta) active.1 w' r h in
      (
        meta,
        ensure_active_session-loaded host session_id w meta e,
        (Ensures-after_checks meta).at active.1 w' r rest,
      )
    where
      after : SessionMeta → Exec SessionCommitResult
      after meta = recovery_check host session_id >>= λ check.
          (λ w. (check_ready check, w))
          >> (build_planned_files host session_id >>= λ planned.
              commit_plan host settings session_id caller meta planned)

      Ensures-after_checks : (meta : SessionMeta) → Ensures (λ r w'. Committed meta w') (after meta)
      Ensures-after_checks meta = Ensures-after (recovery_check host session_id) (λ check.
          Ensures-after (λ w. (check_ready check, w))
            (λ u.
              Ensures-after (build_planned_files host session_id)
                (λ planned. Ensures-commit_plan meta planned)))

-- When a session that was stored under its own id has been committed, all bytes of its last state
-- arrived on the disk, and that state can be read, then the state that is read is "committed".
pub session_commit-closes :
    (host : Host) (settings : Settings) (session_id : Bytes) (caller : Caller) (w w' : World)
    (r : SessionCommitResult)
    → session_commit host settings session_id caller w ≡ (ok r, w')
    → ((meta : SessionMeta)
        → (load_meta host session_id w).0 ≡ ok meta
        → meta.session_id ≡ session_id)
    → is_empty session_id ≡ false
    → Arrived host w'
    → host.fault w'.step ≡ no_fault
    → (closed : SessionMeta) × ((load_meta host session_id w').0 ≡ ok closed)
      × (closed.state ≡ codes "committed")
session_commit-closes host settings session_id caller w w' r h own e arrived f =
    let (meta, loaded, (next, state, same, v, saved)) =
      Ensures-session_commit host settings session_id caller w w' r h in
    let id = same ∙ own meta loaded in
    (
      next,
      ap (λ i. (load_meta host i w').0) (sym id)
          ∙ load_meta-save_meta host next v w' tt (ap is_empty id ∙ e) saved arrived f,
      state,
    )
