-- ===== src/Session/Lifecycle/Begun.antt =====
-- Sessions that were begun.
use ai_editor.Prelude.{◌≡◌, refl, sym, ap, ◌∙◌, false, none, arith, if◌then◌else◌, ◌||◌}
use ai_editor.Text.{Bytes, codes, str_eq, is_empty}
use ai_editor.Outcome.{Outcome, ok, ok-injective}
use ai_editor.Disk.Action.{World, continue, continue-ok}
use ai_editor.Disk.{Host, no_fault, create_directories, current_timestamp, file_exists}
use ai_editor.Disk.Files.{find_file}
use ai_editor.Session.Codec.{SessionMeta}
use ai_editor.Session.Store.{
  load_meta, save_meta, ensure_active_session, ensure_session_dirs, session_exists,
  session_meta_path,
}
use ai_editor.Session.Lifecycle.{SessionBeginResult, session_begin, create_session, begun}
use ai_editor.Session.Lifecycle.Closed.{Arrived, load_meta-save_meta}

file_exists-missing :
    (host : Host) (path : Bytes) (w : World)
    → find_file path w.files ≡ none
    → file_exists host path w ≡ false
unfolding file_exists
file_exists-missing host path w e = ground (arith, e)

module _ (host : Host) (session_id : Bytes) (w : World) where
  abbrev prepared : World
  prepared = (ensure_session_dirs host session_id w).1

  prepared_files : prepared.files ≡ w.files
  unfolding ensure_session_dirs create_directories
  prepared_files = ground arith

  session_exists-missing :
      find_file (session_meta_path host session_id) w.files ≡ none
      → session_exists host session_id prepared ≡ false
  unfolding session_exists
  session_exists-missing e =
      file_exists-missing host (session_meta_path host session_id) prepared
        (ap (find_file (session_meta_path host session_id)) prepared_files ∙ e)

create_session-saved :
    (host : Host) (session_id : Bytes) (w w' : World) (meta : SessionMeta)
    → create_session host session_id w ≡ (ok meta, w')
    → (meta.session_id ≡ session_id)
      × (meta.state ≡ codes "created")
      × (save_meta host meta (current_timestamp host w).1 ≡ (ok tt, w'))
unfolding create_session current_timestamp
create_session-saved host session_id w w' meta h =
    let now = host.iso_time (host.now_ms w.step) in
    let w1 = (current_timestamp host w).1 in
    let fresh : SessionMeta = record {
      session_id = session_id;
      state = codes "created";
      created_at = now;
      updated_at = now;
    } in
    let saving = save_meta host fresh w1 in
    let (u, saved, done) = continue-ok saving.0 (λ u v. (ok fresh, v)) saving.1 w' meta h in
    let same = ok-injective (ap (λ p. p.0) done) in
    (
      ap (λ (m : SessionMeta). m.session_id) (sym same),
      ap (λ (m : SessionMeta). m.state) (sym same),
      ap (λ m. save_meta host m w1) (sym same) ∙ (λ i. (saved i, (done i).1)),
    )

ensure_active_session-created :
    (host : Host) (session_id : Bytes) (w : World) (meta : SessionMeta)
    → (load_meta host session_id w).0 ≡ ok meta
    → meta.state ≡ codes "created"
    → (ensure_active_session host session_id w).0 ≡ ok meta
ensure_active_session-created host session_id w meta loaded state =
    let open_state : (str_eq meta.state (codes "committed") || str_eq meta.state (codes "aborted"))
        ≡ false =
      ap (λ s. str_eq s (codes "committed") || str_eq s (codes "aborted")) state
      ∙ (unfold str_eq in refl) in
    unfold ensure_active_session in rw (loaded, open_state) refl

-- When a session whose id has no stored state is begun without an error, all bytes of its state
-- arrived on the disk, and its state can be read, then it is active, in the state "created" and under
-- its own id, and the answer names that id and that state.
pub session_begin_lem :
    (host : Host) (session_id : Bytes) (w w' : World) (r : SessionBeginResult)
    → is_empty session_id ≡ false
    → find_file (session_meta_path host session_id) w.files ≡ none
    → session_begin host session_id w ≡ (ok r, w')
    → Arrived host w'
    → host.fault w'.step ≡ no_fault
    → (meta : SessionMeta) × ((ensure_active_session host session_id w').0 ≡ ok meta)
      × (meta.session_id ≡ session_id)
      × (meta.state ≡ codes "created")
      × (r.session_id ≡ session_id)
      × (r.state ≡ codes "created")
unfolding session_begin
session_begin_lem host session_id w w' r e missing h arrived f =
    let dirs = ensure_session_dirs host session_id w in
    let branch : World → Outcome SessionMeta × World = λ v.
      if session_exists host session_id v
      then load_meta host session_id v
      else create_session host session_id v in
    let finish : SessionMeta → World → Outcome SessionBeginResult × World =
      λ meta v. (ok (begun meta), v) in
    let h0 : continue dirs.0 (λ u v. continue (branch v).0 finish (branch v).1) dirs.1
        ≡ (ok r, w') =
      rw e at h in
    let (u, made, h1) =
      continue-ok dirs.0 (λ u v. continue (branch v).0 finish (branch v).1) dirs.1 w' r h0 in
    let creating = create_session host session_id dirs.1 in
    let h2 : continue creating.0 finish creating.1 ≡ (ok r, w') =
      rw (session_exists-missing host session_id w missing) at h1 in
    let (meta, created, last) = continue-ok creating.0 finish creating.1 w' r h2 in
    let (id, state, saved) =
      create_session-saved host session_id dirs.1 w' meta (λ i. (created i, (last i).1)) in
    let loaded = load_meta-save_meta host meta _ w' tt (ap is_empty id ∙ e) saved arrived f in
    let same = sym (ok-injective (ap (λ p. p.0) last)) in
    (
      meta,
      ensure_active_session-created host session_id w' meta
          (ap (λ i. (load_meta host i w').0) (sym id) ∙ loaded) state,
      id,
      state,
      ap (λ (a : SessionBeginResult). a.session_id) same ∙ id,
      ap (λ (a : SessionBeginResult). a.state) same ∙ state,
    )
