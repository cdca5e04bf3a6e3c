-- ===== src/Session/Lifecycle/Keeps.antt =====
-- The operations on a session leave the workspace's own files alone.
use ai_editor.Prelude.{
  Bool-cases, inl, inr, ℕ, suc, ◌==◌, refl, Bool, List, [], ◌∷◌, ◌++◌, map, Bool-cases,
}
use ai_editor.Text.{Bytes, codes, str_eq, is_empty}
use ai_editor.Disk.{Host, bridge_dir}
use ai_editor.Disk.Action.{World}
use ai_editor.Disk.Keeps.{
  Keeps, FileKept, FileKept-bind, Keeps-bind, Keeps-bind_with, Keeps-pure, Keeps-fail, Keeps-if,
  Keeps-current_timestamp, Keeps-write_text, Keeps-remove_path, Keeps-choose,
}
use ai_editor.Disk.Under.{AllUnder, Under-apart}
use ai_editor.Session.Store.Keeps.{
  Apart, Relative, StoredRelative, Keeps-save_meta, Keeps-load_meta, Keeps-ensure_active_session,
  Keeps-load_changes, Keeps-save_change, ensure_active_session-loaded, Under-session_snapshot_path,
  Keeps-ensure_session_dirs, Keeps-make_change_id, Keeps-load_change_entries,
  load_change_entries-AllUnder,
}
use ai_editor.Session.Lifecycle.{
  enter_state, SessionMeta, create_session, session_begin, complete, session_add, session_abort,
  session_snapshot, id_or_new, StagedChange, time_or_now, session_snapshot_path, serialize_meta,
  snapshot_lines, remove_entries, session_drop_change, session_drop_path, session_exists,
  ChangeEntry, state_of, id_match, begun,
}

module _ (host : Host) (q : Bytes) (apart : Apart host q) where
  pub Keeps-enter_state :
      (meta : SessionMeta) (state : Bytes)
      → Relative meta.session_id
      → Keeps q (enter_state host meta state)
  unfolding enter_state
  Keeps-enter_state meta state rel = Keeps-bind (Keeps-current_timestamp host q) (λ now.
      let next : SessionMeta = record meta { state = state; updated_at = now } in
      Keeps-bind (Keeps-save_meta host q apart next rel) (λ u. Keeps-pure {a = next}))

  Keeps-create_session :
      (session_id : Bytes) → Relative session_id → Keeps q (create_session host session_id)
  unfolding create_session
  Keeps-create_session session_id rel = Keeps-bind (Keeps-current_timestamp host q) (λ now.
      let meta : SessionMeta = record {
        session_id = session_id;
        state = codes "created";
        created_at = now;
        updated_at = now;
      } in
      Keeps-bind (Keeps-save_meta host q apart meta rel) (λ u. Keeps-pure {a = meta}))

  pub Keeps-session_begin :
      (session_id : Bytes) → Relative session_id → Keeps q (session_begin host session_id)
  unfolding session_begin
  Keeps-session_begin session_id rel = Keeps-if (is_empty session_id) Keeps-fail (
      Keeps-bind (Keeps-ensure_session_dirs host q session_id) (λ u.
        Keeps-bind
          (Keeps-choose (session_exists host session_id) (Keeps-load_meta host q session_id)
            (Keeps-create_session session_id rel))
          (λ meta. Keeps-pure {a = begun meta})))

  Keeps-complete :
      (session_id : Bytes) (input : StagedChange) → Keeps q (complete host session_id input)
  unfolding complete id_or_new time_or_now
  Keeps-complete session_id input =
      Keeps-bind
        (Keeps-if (is_empty input.change_id)
          (Keeps-make_change_id host q session_id input.operation input.path) Keeps-pure)
        (λ change_id.
          Keeps-bind
            (Keeps-if (is_empty input.created_at) (Keeps-current_timestamp host q) Keeps-pure)
            (λ created_at. Keeps-pure))

  Keeps-remove_entries :
      (drops : ChangeEntry → Bool) (entries : List ChangeEntry) (removed : ℕ × Bytes)
      → AllUnder (bridge_dir host) (map (λ entry. entry.meta_path) entries)
      → Keeps q (remove_entries host drops entries removed)
  unfolding remove_entries
  Keeps-remove_entries drops [] removed all = Keeps-pure
  Keeps-remove_entries drops (entry ∷ entries) (count, path) (u, all) =
      Keeps-if (drops entry)
        (Keeps-bind
          (Keeps-remove_path host q entry.meta_path
            (Under-apart (bridge_dir host) entry.meta_path q u apart))
          (λ u. Keeps-remove_entries drops entries (suc count, entry.change.path) all))
        (Keeps-remove_entries drops entries (count, path) all)

  module _ (session_id : Bytes) (rel : Relative session_id) (w : World)
      (stored : StoredRelative host session_id w) where
    pub kept-add : (change : StagedChange) → FileKept q w (session_add host session_id change w).1
    unfolding session_add
    kept-add change =
        FileKept-bind w (Keeps-ensure_active_session host q session_id) (λ meta loaded.
          Keeps-bind (Keeps-complete session_id change) (λ change.
            Keeps-bind (Keeps-save_change host q apart session_id rel change) (λ u.
              Keeps-bind
                (Keeps-enter_state meta (codes "staged")
                  (stored meta (ensure_active_session-loaded host session_id w meta loaded)))
                (λ next.
                  Keeps-bind (Keeps-load_changes host q session_id) (λ changes. Keeps-pure)))))

    pub kept-abort : FileKept q w (session_abort host session_id w).1
    unfolding session_abort
    kept-abort = FileKept-bind w (Keeps-load_meta host q session_id) (λ meta loaded.
        Keeps-bind (Keeps-enter_state meta (codes "aborted") (stored meta loaded))
          (λ next. Keeps-pure))

    pub kept-snapshot : FileKept q w (session_snapshot host session_id w).1
    unfolding session_snapshot
    kept-snapshot = FileKept-bind w (Keeps-load_meta host q session_id) (λ meta loaded.
        Keeps-bind (Keeps-load_changes host q session_id) (λ changes.
          Keeps-bind
            (Keeps-write_text host q (session_snapshot_path host session_id)
              (serialize_meta meta ++ (codes "\n" ++ snapshot_lines changes))
              (Under-apart (bridge_dir host) (session_snapshot_path host session_id) q
                (Under-session_snapshot_path host session_id rel) apart))
            (λ u. Keeps-pure)))

    pub kept-drop_change :
        (change_id : Bytes) → FileKept q w (session_drop_change host session_id change_id w).1
    unfolding session_drop_change
    kept-drop_change change_id = elim (Bool-cases (is_empty change_id)) [
      | inl e ↦ rw e refl
      | inr e ↦ rw e (
          FileKept-bind w (Keeps-ensure_active_session host q session_id) (λ meta loaded.
            Keeps-bind_with (Keeps-load_change_entries host q session_id) (λ v entries found.
              Keeps-bind
                (Keeps-remove_entries (id_match change_id) entries (0, [])
                  (load_change_entries-AllUnder host session_id v entries rel found))
                (λ removed. Keeps-bind (Keeps-if (removed.0 == 0) Keeps-fail Keeps-pure) (λ u.
                  Keeps-bind (Keeps-load_changes host q session_id) (λ remaining.
                    Keeps-bind
                      (Keeps-enter_state meta (state_of remaining)
                        (stored meta (ensure_active_session-loaded host session_id w meta loaded)))
                      (λ next. Keeps-pure)))))))
    ]

    pub kept-drop_path : (path : Bytes) → FileKept q w (session_drop_path host session_id path w).1
    unfolding session_drop_path
    kept-drop_path path =
        FileKept-bind w (Keeps-ensure_active_session host q session_id) (λ meta loaded.
          Keeps-bind_with (Keeps-load_change_entries host q session_id) (λ v entries found.
            Keeps-bind
              (Keeps-remove_entries (λ entry. str_eq entry.change.path path) entries (0, [])
                (load_change_entries-AllUnder host session_id v entries rel found))
              (λ removed. Keeps-bind (Keeps-if (removed.0 == 0) Keeps-fail Keeps-pure) (λ u.
                Keeps-bind (Keeps-load_changes host q session_id) (λ remaining.
                  Keeps-bind
                    (Keeps-enter_state meta (state_of remaining)
                      (stored meta (ensure_active_session-loaded host session_id w meta loaded)))
                    (λ next. Keeps-pure))))))
