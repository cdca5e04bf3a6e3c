-- ===== src/Session/Lifecycle/Closed.antt =====
-- Sessions that were committed or aborted.
use ai_editor.Prelude.{
  ℕ, ◌-◌, ◌≡◌, refl, sym, ap, ◌∙◌, ◌⊎◌, inl, inr, true, false, some, arith, ◌||◌,
}
use ai_editor.Text.{Bytes, codes, str_eq, str_eq_refl, is_empty}
use ai_editor.Outcome.{ok, err, ok-injective}
use ai_editor.Disk.Action.{World, File, continue, continue-ok}
use ai_editor.Disk.{
  Host, close_fault, current_timestamp, no_fault, slurp_text, read_file, write_text,
}
use ai_editor.Disk.Files.{find_file, find_file-put_file}
use ai_editor.Session.Types.{StagedChange}
use ai_editor.Session.Codec.{SessionMeta, deserialize_meta}
use ai_editor.Session.Codec.Meta.{deserialize_meta-serialize_meta}
use ai_editor.Session.Store.{named, load_meta, save_meta, ensure_active_session, session_meta_path}
use ai_editor.Session.Lifecycle.{
  SessionAbortResult, session_add, session_drop_change, session_drop_path, session_abort,
  enter_state,
}
use ai_editor.Session.Commit.{session_commit}
use ai_editor.Session.Preview.{session_preview}
use ai_editor.Patch.Store.{Settings}
use ai_editor.Patch.Apply.{Caller}
use ai_editor.Session.Recovery.{recovery_rebase}

abbrev pub not_active : Bytes
not_active = codes "session is not active"

abbrev pub IsClosed : SessionMeta → Type 0
IsClosed meta = (meta.state ≡ codes "committed") ⊎ (meta.state ≡ codes "aborted")

closed_state :
    (meta : SessionMeta)
    → IsClosed meta
    → (str_eq meta.state (codes "committed") || str_eq meta.state (codes "aborted")) ≡ true
unfolding str_eq
closed_state meta (inl e) = rw e
closed_state meta (inr e) = rw e

load_meta-files :
    (host : Host) (session_id : Bytes) (w : World) → (load_meta host session_id w).1.files ≡ w.files
unfolding load_meta slurp_text read_file
load_meta-files host session_id w = ground arith

module _ (host : Host) (session_id : Bytes) (w : World) (meta : SessionMeta)
    (loaded : (load_meta host session_id w).0 ≡ ok meta) (closed : IsClosed meta) where
  abbrev after : World
  after = (load_meta host session_id w).1

  ensure_active_session-closed : ensure_active_session host session_id w ≡ (err not_active, after)
  unfolding ensure_active_session
  ensure_active_session-closed = rw (loaded, closed_state meta closed) refl

  refuses-add :
      (change : StagedChange) → session_add host session_id change w ≡ (err not_active, after)
  unfolding session_add
  refuses-add change = rw (ensure_active_session-closed) refl

  refuses-drop_path :
      (path : Bytes) → session_drop_path host session_id path w ≡ (err not_active, after)
  unfolding session_drop_path
  refuses-drop_path change = rw (ensure_active_session-closed) refl

  refuses-drop_change :
      (id : Bytes)
      → is_empty id ≡ false
      → session_drop_change host session_id id w ≡ (err not_active, after)
  unfolding session_drop_change
  refuses-drop_change id e = rw (e, ensure_active_session-closed) refl

  refuses-rebase : recovery_rebase host session_id w ≡ (err not_active, after)
  unfolding recovery_rebase
  refuses-rebase = rw (ensure_active_session-closed) refl

  refuses-preview :
      (settings : Settings) → session_preview host settings session_id w ≡ (err not_active, after)
  unfolding session_preview
  refuses-preview settings = rw (ensure_active_session-closed) refl

  refuses-commit :
      (settings : Settings) (caller : Caller)
      → session_commit host settings session_id caller w ≡ (err not_active, after)
  unfolding session_commit
  refuses-commit settings caller = rw (ensure_active_session-closed) refl

-- For a session whose stored state is "committed" or "aborted", adding a change, dropping a change
-- by an id that is not empty, dropping a path, rebasing, previewing and committing all give the
-- error "session is not active" after reading the state, and the files of the disk are as they were.
pub closed_session_refuses :
    (host : Host) (settings : Settings) (caller : Caller) (session_id : Bytes) (w : World)
    (meta : SessionMeta)
    → (load_meta host session_id w).0 ≡ ok meta
    → IsClosed meta
    → (change : StagedChange) (change_id path : Bytes) → is_empty change_id ≡ false
    → let w' = (load_meta host session_id w).1 in
      (session_add host session_id change w ≡ (err not_active, w'))
      × (session_drop_change host session_id change_id w ≡ (err not_active, w'))
      × (session_drop_path host session_id path w ≡ (err not_active, w'))
      × (recovery_rebase host session_id w ≡ (err not_active, w'))
      × (session_preview host settings session_id w ≡ (err not_active, w'))
      × (session_commit host settings session_id caller w ≡ (err not_active, w'))
      × (w'.files ≡ w.files)
closed_session_refuses host settings caller session_id w meta loaded closed change change_id path
      e =
    (
      refuses-add host session_id w meta loaded closed change,
      refuses-drop_change host session_id w meta loaded closed change_id e,
      refuses-drop_path host session_id w meta loaded closed path,
      refuses-rebase host session_id w meta loaded closed,
      refuses-preview host session_id w meta loaded closed settings,
      refuses-commit host session_id w meta loaded closed settings caller,
      load_meta-files host session_id w,
    )

-- The call before this point did not pass as done while only the first bytes of its text arrived.
abbrev pub Arrived : Host → World → Type 0
Arrived host w = (n : ℕ) → ¬ (host.fault (w.step - 1) ≡ close_fault n)

write_text-find_file :
    (host : Host) (path text : Bytes) (w w' : World) (u : Unit {0})
    → write_text host path text w ≡ (ok u, w')
    → Arrived host w'
    → find_file path w'.files ≡ some (record { content = text; mtime = host.file_time w.step })
unfolding write_text
write_text-find_file host path text w w' u h arrived = grind (
  arith,
  h,
  arrived,
  find_file-put_file path path (record { content = text; mtime = host.file_time w.step }) w.files,
  str_eq_refl path,
)

slurp_text-found :
    (host : Host) (path : Bytes) (w : World) (f : File)
    → find_file path w.files ≡ some f
    → host.fault w.step ≡ no_fault
    → (slurp_text host path w).0 ≡ ok f.content
unfolding slurp_text read_file
slurp_text-found host path w f found e = ground (arith, found, e)

load_meta-found :
    (host : Host) (session_id : Bytes) (w : World) (f : File)
    → find_file (session_meta_path host session_id) w.files ≡ some f
    → host.fault w.step ≡ no_fault
    → (load_meta host session_id w).0 ≡ ok (named session_id (deserialize_meta f.content))
load_meta-found host session_id w f found e =
    let read = slurp_text-found host (session_meta_path host session_id) w f found e in
    unfold load_meta in rw read

-- A session's state that is saved without an error, and of which all bytes arrive, is loaded again as
-- it was saved, if its id is not empty and reading meets no fault.
pub load_meta-save_meta :
    (host : Host) (meta : SessionMeta) (w w' : World) (u : Unit {0})
    → is_empty meta.session_id ≡ false
    → save_meta host meta w ≡ (ok u, w')
    → Arrived host w'
    → host.fault w'.step ≡ no_fault
    → (load_meta host meta.session_id w').0 ≡ ok meta
unfolding save_meta
load_meta-save_meta host meta w w' u e saved arrived f =
    load_meta-found host meta.session_id w' _ (write_text-find_file host _ _ w w' u saved arrived) f
    ∙ rw (deserialize_meta-serialize_meta meta, e)

pub enter_state-saved :
    (host : Host) (meta : SessionMeta) (state : Bytes) (w w' : World) (next : SessionMeta)
    → enter_state host meta state w ≡ (ok next, w')
    → (next.state ≡ state)
      × (next.session_id ≡ meta.session_id)
      × (save_meta host next (current_timestamp host w).1 ≡ (ok tt, w'))
unfolding enter_state current_timestamp
enter_state-saved host meta state w w' next h =
    let w1 = (current_timestamp host w).1 in
    let changed : SessionMeta = record meta {
      state = state;
      updated_at = host.iso_time (host.now_ms w.step);
    } in
    let saving = save_meta host changed w1 in
    let (u, saved, done) = continue-ok saving.0 (λ u v. (ok changed, v)) saving.1 w' next h in
    let same = ok-injective (ap (λ p. p.0) done) in
    (
      ap (λ (m : SessionMeta). m.state) (sym same),
      ap (λ (m : SessionMeta). m.session_id) (sym same),
      ap (λ m. save_meta host m w1) (sym same) ∙ (λ i. (saved i, (done i).1)),
    )

abbrev aborted_result : Bytes → SessionMeta → SessionAbortResult
aborted_result session_id next = record {
  session_id = session_id;
  state = next.state;
  aborted = true;
}

session_abort-enters :
    (host : Host) (session_id : Bytes) (w w' : World) (meta : SessionMeta) (r : SessionAbortResult)
    → (load_meta host session_id w).0 ≡ ok meta
    → session_abort host session_id w ≡ (ok r, w')
    → (next : SessionMeta) × (enter_state host meta
          (codes "aborted")
          (load_meta host session_id w).1
        ≡ (ok next, w'))
unfolding session_abort
session_abort-enters host session_id w w' meta r loaded done =
    let closing = enter_state host meta (codes "aborted") (load_meta host session_id w).1 in
    let h : continue closing.0 (λ next v. (ok (aborted_result session_id next), v)) closing.1
        ≡ (ok r, w') =
      (rw loaded at done) in
    let (next, entered, last) =
      continue-ok closing.0 (λ next v. (ok (aborted_result session_id next), v)) closing.1 w' r h in
    (next, λ i. (entered i, (last i).1))

-- When a session that was stored under its own id has been aborted, all bytes of its new state
-- arrived on the disk, and its state can be read, then the state that is read is closed.
pub session_abort-IsClosed :
    (host : Host) (session_id : Bytes) (w w' : World) (meta : SessionMeta) (r : SessionAbortResult)
    → (load_meta host session_id w).0 ≡ ok meta
    → meta.session_id ≡ session_id
    → is_empty session_id ≡ false
    → session_abort host session_id w ≡ (ok r, w')
    → Arrived host w'
    → host.fault w'.step ≡ no_fault
    → (closed : SessionMeta) × ((load_meta host session_id w').0 ≡ ok closed) × IsClosed closed
session_abort-IsClosed host session_id w w' meta r loaded own e done arrived f =
    let (next, entered) = session_abort-enters host session_id w w' meta r loaded done in
    let (aborted, same, saved) = enter_state-saved host meta (codes "aborted") _ w' next entered in
    let id = same ∙ own in
    (
      next,
      ap (λ i. (load_meta host i w').0) (sym id)
          ∙ load_meta-save_meta host next _ w' tt (ap is_empty id ∙ e) saved arrived f,
      inr aborted,
    )
