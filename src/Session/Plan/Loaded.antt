-- ===== src/Session/Plan/Loaded.antt =====
-- The contents of a plan that begins with no file, and the files that it was made from.
use ai_editor.Prelude.{
  ◌≡◌, ◌≢◌, refl, sym, ap, ◌∙◌, List, [], ◌∷◌, none, some, if◌then◌else◌, ◌⊎◌, inl, inr, Bool-cases,
}
use ai_editor.Text.{Bytes, str_eq, str_eq_iff}
use ai_editor.Outcome.{ok, ok-injective}
use ai_editor.Document.{TextDocument}
use ai_editor.Disk.Action.{World, continue, continue-ok}
use ai_editor.Disk.{Host}
use ai_editor.Disk.Keeps.{FileKept}
use ai_editor.Session.Store.{load_document}
use ai_editor.Session.Types.{StagedChange}
use ai_editor.Session.Plan.{
  new_planned, PlannedFile, find_planned, put_planned, plan_change, planned_file, plan_changes,
}
use ai_editor.Session.Plan.Keeps.{Keeps-planned_file}
use ai_editor.Session.Plan.Content.{
  find_planned-put_planned, changes_of, changes_of-own, changes_of-other, apply_all,
  plan_change_lem, planned_file_lem, plan_changes_lem,
}

-- A change is of the path, and the planned file comes from the file on the disk: it was loaded while the disk's files were as they
-- are at the start, and the path's own changes, in their order, make the planned content of it.
pub record FromDisk (host : Host) (q : Bytes) (changes : List StagedChange) (out : List PlannedFile)
    (w : World) : Type 0 where
  pub changed : changes_of q changes ≢ []
  pub planned : PlannedFile
  pub found : find_planned q out ≡ some planned
  pub doc : TextDocument
  pub at : World
  pub kept : (p : Bytes) → FileKept p w at
  pub loaded : (load_document host q at).0 ≡ ok doc
  pub applied : apply_all (changes_of q changes) doc.content ≡ ok planned.final_content

-- No change is of the path, and the plan does not hold it.
abbrev pub Untouched : Bytes → List StagedChange → List PlannedFile → Type 0
Untouched q changes out = (changes_of q changes ≡ []) × (find_planned q out ≡ none)

module _ (host : Host) where
  new_from :
      (path : Bytes) (files : List PlannedFile) (w : World) (f : PlannedFile)
      → find_planned path files ≡ none
      → (planned_file host path files w).0 ≡ ok f
      → (doc : TextDocument) × ((load_document host path w).0 ≡ ok doc) × (new_planned path doc ≡ f)
  unfolding planned_file
  new_from path files w f missing h =
      let loading = load_document host path w in
      let made = continue loading.0 (λ doc v. (ok (new_planned path doc), v)) loading.1 in
      let h' : made.0 ≡ ok f = rw (missing, planned_file) at h in
      let (doc, e, same) =
        continue-ok loading.0 (λ doc v. (ok (new_planned path doc), v)) loading.1 made.1 f
          (λ i. (h' i, made.1)) in
      (doc, e, ok-injective (ap (λ p. p.0) same))

  plan_changes_loaded :
      (changes : List StagedChange) (files out : List PlannedFile) (w w' : World) (q : Bytes)
      → plan_changes host changes files w ≡ (ok out, w')
      → find_planned q files ≡ none
      → Untouched q changes out ⊎ FromDisk host q changes out w
  unfolding plan_changes
  plan_changes_loaded [] files out w w' q h missing = inl (
    (unfold changes_of in refl),
    ap (find_planned q) (ok-injective (sym (ap (λ p. p.0) h))) ∙ missing,
  )
  plan_changes_loaded (change ∷ changes) files out w w' q h missing =
      let taken = planned_file host change.path files w in
      let (f, e, h1) =
        continue-ok taken.0
          (λ f v.
            continue (plan_change change f)
              (λ next v'. plan_changes host changes (put_planned next files) v') v)
          taken.1 w' out h in
      let (next, e', h2) =
        continue-ok (plan_change change f)
          (λ next v'. plan_changes host changes (put_planned next files) v') taken.1 w' out h1 in
      let (at_path, _) = planned_file_lem host change.path files w f e in
      let (kept, run) = plan_change_lem change f next e' in
      elim (Bool-cases (str_eq change.path q)) [
        | inl same ↦
            let eq = (str_eq_iff change.path q).0 same in
            let here : (if str_eq next.path q then some next else find_planned q files)
                ≡ some next =
              rw (kept ∙ at_path, same) refl in
            let put : find_planned q (put_planned next files) ≡ some next =
              find_planned-put_planned q next files ∙ here in
            let (planned, there, result) =
              plan_changes_lem host changes (put_planned next files) out taken.1 w' q next h2 put in
            let (doc, loaded, made) =
              new_from change.path files w f (ap (λ p. find_planned p files) eq ∙ missing) e in
            inr (record {
              changed = λ none_left. absurd (cc (none_left, changes_of-own q change changes same));
              planned = planned;
              found = there;
              doc = doc;
              at = w;
              kept = λ p. refl;
              loaded = ap (λ p. (load_document host p w).0) (sym eq) ∙ loaded;
              applied =
                  ap (λ l. apply_all l doc.content) (changes_of-own q change changes same)
                  ∙ ap
                      (λ (g : PlannedFile).
                        apply_all (change ∷ changes_of q changes) g.final_content)
                      made
                  ∙ run (changes_of q changes)
                  ∙ result;
            })
        | inr other ↦
            let here : (if str_eq next.path q then some next else find_planned q files) ≡ none =
              rw (kept ∙ at_path, other) missing in
            let put : find_planned q (put_planned next files) ≡ none =
              find_planned-put_planned q next files ∙ here in
            let own = changes_of-other q change changes other in
            elim (plan_changes_loaded changes (put_planned next files) out taken.1 w' q h2 put) [
              | inl (nothing, absent) ↦ inl (own ∙ nothing, absent)
              | inr from ↦ inr (record {
                changed = λ none_left. from.changed (sym own ∙ none_left);
                planned = from.planned;
                found = from.found;
                doc = from.doc;
                at = from.at;
                kept = λ p. from.kept p ∙ (Keeps-planned_file host p change.path files).at w;
                loaded = from.loaded;
                applied = ap (λ l. apply_all l from.doc.content) own ∙ from.applied;
              })
            ]
      ]

-- When a plan of changes, made from nothing as the program makes it, succeeds, then it holds a path
-- exactly when a change is of that path, and its content is what the path's own changes, in their
-- order, make of the file, loaded while all files were still as they were at the start.
pub plan_changes-FromDisk :
    (host : Host) (changes : List StagedChange) (out : List PlannedFile) (w w' : World) (q : Bytes)
    → plan_changes host changes [] w ≡ (ok out, w')
    → Untouched q changes out ⊎ FromDisk host q changes out w
unfolding find_planned
plan_changes-FromDisk host changes out w w' q h =
    plan_changes_loaded host changes [] out w w' q h refl
