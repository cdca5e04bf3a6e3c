-- ===== src/Patch/Cleanup/Keeps.antt =====
-- The history, its rotation and the clean-ups leave the workspace's own files alone.
use ai_editor.Prelude.{
  ℕ, zero, suc, ◌+◌, ◌≤◌, ◌||◌, not, ◌==◌, ◌≡◌, refl, ap, ◌∙◌, Bool, true, false, List, [], ◌∷◌,
  ◌++◌, arith, some, if◌then◌else◌, length, take, drop, leb, ltb, Bool-cases, Option-cases, inl,
  inr,
}
use ai_editor.Text.{Bytes, codes, str_eq, starts_with, is_empty, str_eq_iff}
use ai_editor.Text.Find.{rfind}
use ai_editor.Text.Find.Last.{rfind-least, rfind-last, rfind-none}
use ai_editor.Outcome.{ok}
use ai_editor.Path.{char_is}
use ai_editor.Disk.{
  Host, bridge_dir, entry_name, extension, remove_path, newest_first, rename_path, file_exists,
  content_of,
}
use ai_editor.Disk.Action.{Exec, World, attempt, ◌>>◌}
use ai_editor.Disk.Keeps.{
  Keeps, FileKept, Keeps-bind, Keeps-pure, Keeps-attempt, Keeps-remove_path, Keeps-choose,
  Keeps-rename_path, Keeps-create_directories, Keeps-current_timestamp, Keeps-append_text,
}
use ai_editor.Disk.Under.{
  Under, AllPaths, Under-apart, Under-self, Under-append, entry-dot, entry-Under, AllPaths-drop,
  AllPaths-newest_first, Under-trans,
}
use ai_editor.Session.Store.Keeps.{Apart, Relative}
use ai_editor.Patch.Store.Keeps.{
  Under-backups_dir, Under-previews_dir, Under-history_file, Keeps-save_preview_status,
  Keeps-remove_preview_content_and_meta,
}
use ai_editor.Patch.Store.{backups_dir, previews_dir, history_file}
use ai_editor.Patch.Cleanup.{
  numbered, stem, stem_path, rotate_loop, each, remove_backup, cleanup_old_backups,
  cleanup_old_preview_statuses, evict_preview, cleanup_old_previews, to_decimal, Settings,
  rotate_file_if_needed, append_history, history_line,
}

-- The front of a path up to a point behind the directory's text is still under the directory.
Under-take : (dir path : Bytes) (k : ℕ) → Under dir path → length dir ≤ k → Under dir (take k path)
unfolding starts_with
Under-take [] path k u l = refl
Under-take (d ∷ dir) [] k u l = cc
Under-take (d ∷ dir) (c ∷ path) zero u l = absurd (omega arith)
Under-take (d ∷ dir) (c ∷ path) (suc k) u l =
    ground (arith, Under-take dir path k (ground arith) (omega arith))

-- The entries of a directory with an extension are under it without the extension too.
Under-stem_path :
    (dir path name : Bytes)
    → entry_name dir path ≡ some name
    → is_empty (extension name) ≡ false
    → Under dir (stem_path path)
unfolding stem_path
Under-stem_path dir path name e x =
    let (j, o, l, b) = entry-dot dir path name e x in
    let (k, found, least) = rfind-least path (codes ".") j o b in
    rw (found, stem_path)
      (Under-take dir path k (entry-Under dir dir (Under-self dir) path name e) (omega arith))

Relative-take : (text : Bytes) (k : ℕ) → Relative text → Relative (take k text)
Relative-take text zero rel = refl
Relative-take [] (suc k) rel = refl
Relative-take (c ∷ text) (suc k) rel = rel

Relative-slash : (text : Bytes) → starts_with text (codes "/") ≡ false → Relative text
unfolding starts_with
Relative-slash [] e = refl
Relative-slash (c ∷ text) e = ground arith

Relative-stem_path : (text : Bytes) → Relative text → Relative (stem_path text)
unfolding stem_path
Relative-stem_path text rel = elim (Option-cases (rfind text (codes ".") (length text))) [
  | inl e ↦ rw (e, stem_path) rel
  | inr (k, e) ↦ rw (e, stem_path) (Relative-take text k rel)
]

drop-past : (k : ℕ) (t : Bytes) → length t ≤ k → drop k t ≡ []
drop-past zero [] l = refl
drop-past zero (c ∷ t) l = absurd (omega arith)
drop-past (suc k) [] l = refl
drop-past (suc k) (c ∷ t) l = drop-past k t (omega arith)

Relative-drop :
    (path : Bytes) (k : ℕ)
    → rfind path (codes "/") (length path) ≡ some k
    → Relative (drop (suc k) path)
Relative-drop path k e = elim (Bool-cases (leb (suc k) (length path))) [
  | inl l ↦
      Relative-slash (drop (suc k) path)
        (rfind-last path (codes "/") k (suc k) e (omega arith) (ground arith))
  | inr g ↦ ap (λ t. char_is t 0 b'/') (drop-past (suc k) path (ground arith))
]

-- The last name of a path is no absolute path.
Relative-stem : (path : Bytes) → Relative (stem path)
unfolding stem
Relative-stem path = elim (Option-cases (rfind path (codes "/") (length path))) [
  | inl e ↦
      rw (e, stem)
        (Relative-stem_path path
          (Relative-slash path (rfind-none path (codes "/") 0 e (omega arith))))
  | inr (k, e) ↦ rw (e, stem) (Relative-stem_path (drop (suc k) path) (Relative-drop path k e))
]

module _ (host : Host) (q : Bytes) (apart : Apart host q) where
  abbrev top : Bytes
  top = bridge_dir host

  elsewhere : (p : Bytes) → Under top p → str_eq p q ≡ false
  elsewhere p u = Under-apart top p q u apart

  -- The loop over files that all have a property.
  Keeps-each :
      (P : Bytes → Type 0) (action : Bytes → Exec (Unit {0})) (paths : List Bytes)
      → ((p : Bytes) → P p → Keeps q (action p))
      → AllPaths P paths
      → Keeps q (each host action paths)
  unfolding each
  Keeps-each P action [] k all = Keeps-pure
  Keeps-each P action (p ∷ paths) k (u, all) =
      Keeps-bind (Keeps-attempt (k p u)) (λ u. Keeps-each P action paths k all)

  Keeps-removal : (p : Bytes) → Under top p → Keeps q (remove_path host p)
  Keeps-removal p u = Keeps-remove_path host q p (elsewhere p u)

  abbrev IsBackup : Bytes → Type 0
  IsBackup p = Under top p × Under top (stem_path p)

  Keeps-remove_backup : (p : Bytes) → IsBackup p → Keeps q (remove_backup host p)
  unfolding remove_backup
  Keeps-remove_backup p (u, v) = Keeps-bind (Keeps-attempt (Keeps-removal p u)) (λ _.
      Keeps-attempt (
        Keeps-removal (stem_path p ++ codes ".meta")
          (Under-append top (stem_path p) (codes ".meta") v)))

  has_extension :
      (name ext : Bytes)
      → str_eq (extension name) ext ≡ true
      → is_empty ext ≡ false
      → is_empty (extension name) ≡ false
  has_extension name ext e ne = ap is_empty ((str_eq_iff (extension name) ext).0 e) ∙ ne

  pub Keeps-cleanup_old_backups : (keep : ℕ) → Keeps q (cleanup_old_backups host keep)
  unfolding cleanup_old_backups
  Keeps-cleanup_old_backups keep = record { at = λ w. kept (keep == 0) w }
    where
      kept :
          (b : Bool) (w : World)
          → FileKept q w
              (if b
                then (ok tt, w)
                else each host
                    (remove_backup host)
                    (drop keep (newest_first host (backups_dir host) (codes ".bak") w))
                    w).1
      kept true w = refl
      kept false w =
          (Keeps-each IsBackup (remove_backup host)
              (drop keep (newest_first host (backups_dir host) (codes ".bak") w))
              Keeps-remove_backup
              (AllPaths-drop IsBackup keep (newest_first host (backups_dir host) (codes ".bak") w) (
                AllPaths-newest_first IsBackup host (backups_dir host) (codes ".bak") w
                  (λ path name e x. (
                    entry-Under top (backups_dir host) (Under-backups_dir host) path name e,
                    Under-trans top (backups_dir host) (stem_path path) (Under-backups_dir host) (
                        Under-stem_path (backups_dir host) path name e
                          (has_extension name (codes ".bak") x refl)),
                  ))))).at
            w

  pub Keeps-cleanup_old_preview_statuses :
      (keep : ℕ) → Keeps q (cleanup_old_preview_statuses host keep)
  unfolding cleanup_old_preview_statuses
  Keeps-cleanup_old_preview_statuses keep = record { at = λ w. kept (keep == 0) w }
    where
      kept :
          (b : Bool) (w : World)
          → FileKept q w
              (if b
                then (ok tt, w)
                else each host
                    (remove_path host)
                    (drop keep (newest_first host (previews_dir host) (codes ".status") w))
                    w).1
      kept true w = refl
      kept false w =
          (Keeps-each (Under top) (remove_path host)
              (drop keep (newest_first host (previews_dir host) (codes ".status") w)) Keeps-removal
              (AllPaths-drop (Under top) keep
                (newest_first host (previews_dir host) (codes ".status") w)
                (AllPaths-newest_first (Under top) host (previews_dir host) (codes ".status") w
                  (λ path name e x.
                    entry-Under top (previews_dir host) (Under-previews_dir host) path name e)))).at
            w

  Keeps-evict_preview : (p : Bytes) → Unit {0} → Keeps q (evict_preview host p)
  unfolding evict_preview
  Keeps-evict_preview p u =
      Keeps-bind
        (Keeps-save_preview_status host q apart (stem p) (Relative-stem p) (codes "evicted"))
        (λ u. Keeps-remove_preview_content_and_meta host q apart (stem p) (Relative-stem p))

  pub Keeps-cleanup_old_previews :
      (settings : Settings) → Keeps q (cleanup_old_previews host settings)
  unfolding cleanup_old_previews
  Keeps-cleanup_old_previews settings = record {
    at = λ w.
        kept (settings.preview_keep_count == 0)
          (leb (length (newest_first host (previews_dir host) (codes ".meta") w))
            settings.preview_keep_count)
          (drop settings.preview_keep_count
            (newest_first host (previews_dir host) (codes ".meta") w))
          w;
  }
    where
      all_units : (paths : List Bytes) → AllPaths (λ p. Unit) paths
      all_units [] = tt
      all_units (p ∷ paths) = (tt, all_units paths)

      kept :
          (b c : Bool) (paths : List Bytes) (w : World)
          → FileKept q w
              (if b
                then (ok tt, w)
                else if c
                then (ok tt, w)
                else (each host (evict_preview host) paths
                      >> cleanup_old_preview_statuses host settings.preview_status_keep_count)
                    w).1
      kept true c paths w = refl
      kept false true paths w = refl
      kept false false paths w =
          (Keeps-bind
              (Keeps-each (λ p. Unit) (evict_preview host) paths Keeps-evict_preview
                (all_units paths))
              (λ u. Keeps-cleanup_old_preview_statuses settings.preview_status_keep_count)).at
            w

  module _ (path : Bytes) (u : Under top path) where
    Under-numbered : (i : ℕ) → Under top (numbered path i)
    Under-numbered i = Under-append top path (codes "." ++ to_decimal i) u

    Keeps-renumber :
        (i : ℕ) → Keeps q (attempt (rename_path host (numbered path i) (numbered path (i + 1))))
    Keeps-renumber i = Keeps-attempt (
        Keeps-rename_path host q (numbered path i) (numbered path (i + 1))
          (elsewhere (numbered path i) (Under-numbered i))
          (elsewhere (numbered path (i + 1)) (Under-numbered (i + 1))))

    abbrev rotated : ℕ → ℕ → Exec (Unit {0})
    rotated keep i w =
        if i == keep
        then attempt (remove_path host (numbered path i)) w
        else if file_exists host (numbered path i) w
        then attempt (rename_path host (numbered path i) (numbered path (i + 1))) w
        else (ok tt, w)

    Keeps-rotated : (keep i : ℕ) → Keeps q (rotated keep i)
    Keeps-rotated keep i =
        Keeps-choose (λ w. i == keep)
          (Keeps-attempt (Keeps-removal (numbered path i) (Under-numbered i)))
          (Keeps-choose (file_exists host (numbered path i)) (Keeps-renumber i)
            (Keeps-pure {a = tt}))

    Keeps-rotate_loop : (keep i : ℕ) → Keeps q (rotate_loop host path keep i)
    unfolding rotate_loop
    Keeps-rotate_loop keep zero = Keeps-pure
    Keeps-rotate_loop keep (suc j) = record {
      at = λ w.
          (Keeps-rotate_loop keep j).at (rotated keep (suc j) w).1
          ∙ (Keeps-rotated keep (suc j)).at w;
    }

    Keeps-rotate_file_if_needed :
        (max_bytes keep : ℕ) → Keeps q (rotate_file_if_needed host path max_bytes keep)
    unfolding rotate_file_if_needed
    Keeps-rotate_file_if_needed max_bytes keep =
        Keeps-choose (λ w. max_bytes == 0 || keep == 0) (Keeps-pure {a = tt})
          (Keeps-choose (λ w. not (file_exists host path w)) (Keeps-pure {a = tt})
            (Keeps-choose (λ w. ltb (length (content_of path w)) max_bytes) (Keeps-pure {a = tt})
              (record {
                at = λ w.
                    (Keeps-rename_path host q path (numbered path 1) (elsewhere path u)
                        (elsewhere (numbered path 1) (Under-numbered 1))).at
                      (rotate_loop host path keep keep w).1
                    ∙ (Keeps-rotate_loop keep keep).at w;
              })))

  pub Keeps-append_history :
      (settings : Settings) (method rel_path backup_id client_id session_id request_id : Bytes)
      → Keeps q
          (append_history host settings method rel_path backup_id client_id session_id request_id)
  unfolding append_history
  Keeps-append_history settings method rel_path backup_id client_id session_id request_id =
      Keeps-bind (Keeps-attempt (Keeps-create_directories host q (bridge_dir host))) (λ u.
        Keeps-bind
          (Keeps-rotate_file_if_needed (history_file host) (Under-history_file host)
            settings.history_rotate_bytes settings.history_rotate_keep)
          (λ u. Keeps-bind (Keeps-current_timestamp host q) (λ now.
            Keeps-append_text host q (history_file host)
              (history_line (record {
                timestamp = now;
                method = method;
                path = rel_path;
                backup_id = backup_id;
                client_id = client_id;
                session_id = session_id;
                request_id = request_id;
              })
                ++ codes "\n")
              (elsewhere (history_file host) (Under-history_file host)))))
