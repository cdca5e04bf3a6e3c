-- ===== src/Session/Store/Keeps.antt =====
-- Where the session's own files are, and that reading and saving them leaves other files alone.
use ai_editor.Prelude.{
  ℕ, zero, suc, ◌+◌, ◌-◌, length, append_assoc, ◌||◌, ◌≡◌, refl, ap, ◌∙◌, Bool, true, false, List,
  [], ◌∷◌, ◌++◌, map, arith, length, sym,
}
use ai_editor.Text.{Bytes, codes, str_eq, starts_with, is_digit}
use ai_editor.Text.Decimal.Digits.{All, All-to_decimal}
use ai_editor.Text.Decimal.{to_decimal}
use ai_editor.Outcome.{Outcome, ok, err, ok-injective}
use ai_editor.Path.{char_is, join_path, ResolveResult}
use ai_editor.Disk.{Host, bridge_dir, slurp_text, file_exists}
use ai_editor.Disk.Action.{Exec, World, continue, continue-ok}
use ai_editor.Disk.Files.{find_file}
use ai_editor.Disk.Keeps.{
  Keeps, Keeps-bind, Keeps-pure, Keeps-fail, Keeps-look, Keeps-if, Keeps-slurp_text, FileKept,
  Keeps-lift, Keeps-write_text, Keeps-last_write_time, Keeps-create_directories,
}
use ai_editor.Disk.Under.{
  Under, AllUnder, Under-join_path, Under-self, AllUnder-files_in, Under-apart,
}
use ai_editor.Session.Store.{
  sessions_dir, session_dir, session_meta_path, session_changes_dir, session_snapshot_path,
  change_files, load_meta, read_entries, load_change_entries, load_changes, ensure_active_session,
  load_document, fingerprint_file, save_meta, save_change, SessionMeta, StagedChange, zero_padded,
  serialize_meta, zeros, open_document, mtime_text, serialize_change, TextDocument, content_hash,
  ChangeEntry, deserialize_change, ensure_session_dirs, make_change_id,
}

module _ (host : Host) where
  -- The path does not begin with the program's own directory.
  abbrev pub Apart : Bytes → Type 0
  Apart q = starts_with q (bridge_dir host) ≡ false

-- An id that a path can be made of: it is no absolute path.
abbrev pub Relative : Bytes → Type 0
Relative name = char_is name 0 b'/' ≡ false

pub Relative-digits :
    (digits text : Bytes) → All is_digit digits → Relative text → Relative (digits ++ text)
Relative-digits [] text a rel = rel
Relative-digits (c ∷ digits) text (e, a) rel = ground arith

Relative-zeros : (n : ℕ) (text : Bytes) → Relative text → Relative (zeros n ++ text)
unfolding zeros
Relative-zeros zero text rel = rel
Relative-zeros (suc n) text rel = refl

-- The name of a change's file begins with a digit.
Relative-zero_padded :
    (n : ℕ) (change_id : Bytes)
    → Relative (zero_padded n ++ (codes "-" ++ (change_id ++ codes ".json")))
unfolding zero_padded
Relative-zero_padded n change_id =
    let rest = codes "-" ++ (change_id ++ codes ".json") in
    let zs = zeros (4 - length (to_decimal n)) in
    ap (λ t. char_is t 0 b'/') (append_assoc zs (to_decimal n) rest)
    ∙ Relative-zeros (4 - length (to_decimal n)) (to_decimal n ++ rest)
        (Relative-digits (to_decimal n) rest (All-to_decimal n) refl)

module _ (host : Host) where
  abbrev top : Bytes
  top = bridge_dir host

  module _ (session_id : Bytes) (rel : Relative session_id) where
    pub Under-session_dir : Under top (session_dir host session_id)
    unfolding session_dir sessions_dir
    Under-session_dir =
        Under-join_path top (sessions_dir host) session_id rel
          (Under-join_path top top (codes "sessions") refl (Under-self top))

    pub Under-session_meta_path : Under top (session_meta_path host session_id)
    unfolding session_meta_path
    Under-session_meta_path =
        Under-join_path top (session_dir host session_id) (codes "session.json") refl
          Under-session_dir

    pub Under-session_changes_dir : Under top (session_changes_dir host session_id)
    unfolding session_changes_dir
    Under-session_changes_dir =
        Under-join_path top (session_dir host session_id) (codes "changes") refl Under-session_dir

    pub Under-session_snapshot_path : Under top (session_snapshot_path host session_id)
    unfolding session_snapshot_path
    Under-session_snapshot_path =
        Under-join_path top (session_dir host session_id) (codes "snapshot.json") refl
          Under-session_dir

    pub AllUnder-change_files : (w : World) → AllUnder top (change_files host session_id w)
    unfolding change_files
    AllUnder-change_files w =
        AllUnder-files_in top (session_changes_dir host session_id) Under-session_changes_dir host
          (codes ".json") w

  module _ (q : Bytes) where
    pub Keeps-load_meta : (session_id : Bytes) → Keeps q (load_meta host session_id)
    unfolding load_meta
    Keeps-load_meta session_id =
        Keeps-bind (Keeps-slurp_text host q (session_meta_path host session_id)) (λ raw. Keeps-pure)

    Keeps-read_entries : (paths : List Bytes) → Keeps q (read_entries host paths)
    unfolding read_entries
    Keeps-read_entries [] = Keeps-pure
    Keeps-read_entries (path ∷ paths) =
        Keeps-bind (Keeps-slurp_text host q path)
          (λ raw. Keeps-bind (Keeps-read_entries paths) (λ entries. Keeps-pure))

    pub Keeps-load_change_entries :
        (session_id : Bytes) → Keeps q (load_change_entries host session_id)
    unfolding load_change_entries
    Keeps-load_change_entries session_id =
        Keeps-look (λ w. Keeps-read_entries (change_files host session_id w))

    pub Keeps-load_changes : (session_id : Bytes) → Keeps q (load_changes host session_id)
    unfolding load_changes
    Keeps-load_changes session_id =
        Keeps-bind (Keeps-load_change_entries session_id) (λ entries. Keeps-pure)

    pub Keeps-ensure_active_session :
        (session_id : Bytes) → Keeps q (ensure_active_session host session_id)
    unfolding ensure_active_session
    Keeps-ensure_active_session session_id = Keeps-bind (Keeps-load_meta session_id) (λ meta.
        Keeps-if (str_eq meta.state (codes "committed") || str_eq meta.state (codes "aborted"))
          Keeps-fail Keeps-pure)

    Keeps-open_document : (r : Outcome Bytes × World) → (open_document r).1.files ≡ r.1.files
    Keeps-open_document (ok content, w) = refl
    Keeps-open_document (err e, w) = refl

    pub Keeps-load_document : (path : Bytes) → Keeps q (load_document host path)
    unfolding load_document
    Keeps-load_document path = record { at = λ w. grind (arith, slurp) }
      where
        slurp : (p : Bytes) (w : World) → FileKept q w (open_document (slurp_text host p w)).1
        slurp p w =
            ap (λ files. find_file q files) (Keeps-open_document (slurp_text host p w))
            ∙ (Keeps-slurp_text host q p).at w

    Keeps-mtime_text : (path : Bytes) (found : Bool) → Keeps q (mtime_text host path found)
    unfolding mtime_text
    Keeps-mtime_text path true = Keeps-bind (Keeps-last_write_time host q path) (λ time. Keeps-pure)
    Keeps-mtime_text path false = Keeps-pure

    pub Keeps-fingerprint_file : (path : Bytes) → Keeps q (fingerprint_file host path)
    unfolding fingerprint_file
    Keeps-fingerprint_file path = Keeps-bind (Keeps-load_document path) (λ (doc : TextDocument).
        Keeps-bind Keeps-lift (λ (resolved : ResolveResult).
          Keeps-bind {m = λ w. (ok (file_exists host resolved.absolute_path w), w)}
            (record { at = λ w. refl })
            (λ found. Keeps-bind (Keeps-mtime_text resolved.absolute_path found) (λ mtime.
              Keeps-pure
                {a = record {
                  exists = doc.exists;
                  mtime = mtime;
                  hash = content_hash doc.content;
                  content = doc.content;
                }}))))

    pub Keeps-ensure_session_dirs :
        (session_id : Bytes) → Keeps q (ensure_session_dirs host session_id)
    unfolding ensure_session_dirs
    Keeps-ensure_session_dirs session_id =
        Keeps-create_directories host q (session_changes_dir host session_id)

    pub Keeps-make_change_id :
        (session_id operation path : Bytes)
        → Keeps q (make_change_id host session_id operation path)
    unfolding make_change_id
    Keeps-make_change_id session_id operation path = record { at = λ w. refl }

    -- What is written under the program's own directory is written elsewhere than at `q`.
    module _ (apart : Apart host q) where
      pub Keeps-save_meta :
          (meta : SessionMeta) → Relative meta.session_id → Keeps q (save_meta host meta)
      unfolding save_meta
      Keeps-save_meta meta rel =
          let p = session_meta_path host meta.session_id in
          Keeps-write_text host q p (serialize_meta meta)
            (Under-apart top p q (Under-session_meta_path meta.session_id rel) apart)

      pub Keeps-save_change :
          (session_id : Bytes)
          → Relative session_id
          → (change : StagedChange) → Keeps q (save_change host session_id change)
      unfolding save_change
      Keeps-save_change session_id rel change = Keeps-look (λ w.
          let n = length (change_files host session_id w) + 1 in
          let name = zero_padded n ++ (codes "-" ++ (change.change_id ++ codes ".json")) in
          let p = join_path (session_changes_dir host session_id) name in
          Keeps-write_text host q p (serialize_change change) (
            Under-apart top p q
              (Under-join_path top (session_changes_dir host session_id) name
                (Relative-zero_padded n change.change_id)
                (Under-session_changes_dir session_id rel))
              apart))

  -- The paths of the entries that are loaded.
  read_entries-paths :
      (paths : List Bytes) (w w' : World) (entries : List ChangeEntry)
      → read_entries host paths w ≡ (ok entries, w')
      → map (λ entry. entry.meta_path) entries ≡ paths
  unfolding read_entries
  read_entries-paths [] w w' entries h =
      ap (λ es. map (λ (entry : ChangeEntry). entry.meta_path) es)
        (sym (ok-injective (ap (λ p. p.0) h)))
  read_entries-paths (path ∷ paths) w w' entries h =
      let entry : Bytes → ChangeEntry =
        λ raw. record { meta_path = path; change = deserialize_change raw } in
      let text = slurp_text host path w in
      let last : Bytes → List ChangeEntry → Exec (List ChangeEntry) =
        λ raw es u. (ok (entry raw ∷ es), u) in
      let (raw, read, rest) =
        continue-ok text.0
          (λ raw v. continue (read_entries host paths v).0 (last raw) (read_entries host paths v).1)
          text.1 w' entries h in
      let more = read_entries host paths text.1 in
      let (es, found, done) = continue-ok more.0 (last raw) more.1 w' entries rest in
      let same = read_entries-paths paths text.1 more.1 es (λ i. (found i, more.1)) in
      ap (map (λ entry. entry.meta_path)) (sym (ok-injective (ap (λ p. p.0) done)))
      ∙ ap (λ ps. path ∷ ps) same

  -- The session's state was stored under the session's own path, or at least under an id that is none.
  abbrev pub StoredRelative : Bytes → World → Type 0
  StoredRelative session_id w =
      (meta : SessionMeta) → (load_meta host session_id w).0 ≡ ok meta → Relative meta.session_id

  pub ensure_active_session-loaded :
      (session_id : Bytes) (w : World) (meta : SessionMeta)
      → (ensure_active_session host session_id w).0 ≡ ok meta
      → (load_meta host session_id w).0 ≡ ok meta
  unfolding ensure_active_session
  ensure_active_session-loaded session_id w meta h = ground arith

  pub load_change_entries-AllUnder :
      (session_id : Bytes) (w : World) (entries : List ChangeEntry)
      → Relative session_id
      → (load_change_entries host session_id w).0 ≡ ok entries
      → AllUnder top (map (λ entry. entry.meta_path) entries)
  unfolding load_change_entries
  load_change_entries-AllUnder session_id w entries rel h =
      let paths = change_files host session_id w in
      let same =
        read_entries-paths paths w (read_entries host paths w).1 entries
          (λ i. (h i, (read_entries host paths w).1)) in
      rw same (AllUnder-change_files session_id rel w)
