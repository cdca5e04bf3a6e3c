-- ===== src/Session/Plan/Content.antt =====
-- The contents of a plan, and a file's own changes applied one after the other.
use ai_editor.Prelude.{
  ◌≡◌, refl, sym, ap, ◌∙◌, true, false, List, [], ◌∷◌, Option, none, some, if◌then◌else◌, arith,
  inl, inr, Bool-cases, Option-cases,
}
use ai_editor.Text.{Bytes, str_eq, str_eq_iff}
use ai_editor.Outcome.{Outcome, ok, ◌>>=◌, ok-injective, map_ok-ok}
use ai_editor.Disk.Action.{World, continue, continue-ok}
use ai_editor.Disk.{Host}
use ai_editor.Session.Store.{load_document}
use ai_editor.Session.Types.{StagedChange}
use ai_editor.Session.Edit.{apply_change_to_content}
use ai_editor.Session.Plan.{
  new_planned, PlannedFile, find_planned, put_planned, plan_change, with_change, planned_file,
  plan_changes,
}

pub find_planned-put_planned :
    (q : Bytes) (file : PlannedFile) (files : List PlannedFile)
    → find_planned q (put_planned file files)
      ≡ (if str_eq file.path q then some file else find_planned q files)
unfolding find_planned put_planned
find_planned-put_planned q file [] = refl
find_planned-put_planned q file (f ∷ files) = ground (
  arith,
  str_eq_iff file.path q,
  str_eq_iff f.path file.path,
  str_eq_iff f.path q,
  find_planned-put_planned q file files,
)

find_planned-path :
    (q : Bytes) (files : List PlannedFile) (file : PlannedFile)
    → find_planned q files ≡ some file
    → file.path ≡ q
unfolding find_planned
find_planned-path q [] file h = ground arith
find_planned-path q (f ∷ files) file h =
    ground (arith, str_eq_iff f.path q, find_planned-path q files file)

-- The changes of a path, in order.
unfoldable pub changes_of : Bytes → List StagedChange → List StagedChange
changes_of path [] = []
changes_of path (change ∷ changes) =
    let rest = changes_of path changes in if str_eq change.path path then change ∷ rest else rest

-- Changes applied one after the other.
unfoldable pub apply_all : List StagedChange → Bytes → Outcome Bytes
apply_all [] content = ok content
apply_all (change ∷ changes) content = do
  applied ← apply_change_to_content change content
  apply_all changes applied.updated

pub plan_change_lem :
    (change : StagedChange) (file next : PlannedFile)
    → plan_change change file ≡ ok next
    → (next.path ≡ file.path)
      × ((changes : List StagedChange)
          → apply_all (change ∷ changes) file.final_content ≡ apply_all changes next.final_content)
unfolding plan_change apply_all with_change
plan_change_lem change file next h =
    let (applied, e, same) =
      map_ok-ok (with_change change file) (apply_change_to_content change file.final_content) next
        h in
    (
      ap (λ (f : PlannedFile). f.path) same,
      λ changes. rw e (ap (λ (f : PlannedFile). apply_all changes f.final_content) (sym same)),
    )

not_both : {o : Option PlannedFile} {g : PlannedFile} → o ≡ none → o ≡ some g → ⊥
not_both missing found = cc

found_once : {o : Option PlannedFile} {f g : PlannedFile} → o ≡ some f → o ≡ some g → f ≡ g
found_once first second = cc

module _ (path : Bytes) (change : StagedChange) (changes : List StagedChange) where
  pub changes_of-own :
      str_eq change.path path ≡ true
      → changes_of path (change ∷ changes) ≡ change ∷ changes_of path changes
  unfolding changes_of
  changes_of-own e = rw e

  pub changes_of-other :
      str_eq change.path path ≡ false → changes_of path (change ∷ changes) ≡ changes_of path changes
  unfolding changes_of
  changes_of-other e = rw e

module _ (host : Host) where
  loaded_path :
      (path : Bytes) (files : List PlannedFile) (w : World) (f : PlannedFile)
      → find_planned path files ≡ none
      → (planned_file host path files w).0 ≡ ok f
      → f.path ≡ path
  unfolding planned_file
  loaded_path path files w f missing h =
      let loading = load_document host path w in
      let h' : (continue loading.0 (λ doc v. (ok (new_planned path doc), v)) loading.1).0 ≡ ok f =
        rw (missing, planned_file) at h in
      let (doc, e, made) =
        continue-ok loading.0 (λ doc v. (ok (new_planned path doc), v)) loading.1 _ f
          (λ i.
            (h' i, (continue loading.0 (λ doc v. (ok (new_planned path doc), v)) loading.1).1)) in
      sym (ap (λ (g : PlannedFile). g.path) (ok-injective (ap (λ p. p.0) made)))

  pub planned_file_lem :
      (path : Bytes) (files : List PlannedFile) (w : World) (f : PlannedFile)
      → (planned_file host path files w).0 ≡ ok f
      → (f.path ≡ path) × ((g : PlannedFile) → find_planned path files ≡ some g → g ≡ f)
  unfolding planned_file
  planned_file_lem path files w f h = elim (Option-cases (find_planned path files)) [
    | inl missing ↦
        (loaded_path path files w f missing h, λ g found. absurd (not_both missing found))
    | inr (g, found) ↦
        let taken : (planned_file host path files w).0 ≡ ok g = rw (found, planned_file) in
        let same = ok-injective (sym taken ∙ h) in
        (
          ap (λ (g : PlannedFile). g.path) (sym same) ∙ find_planned-path path files g found,
          λ g' found'. found_once found' found ∙ same,
        )
  ]

  -- When planning changes succeeds from a plan that holds a file, the result holds that file's path,
  -- with the content that the path's own changes, in their order, make of the content it had.
  pub plan_changes_lem :
      (changes : List StagedChange) (files out : List PlannedFile) (w w' : World) (q : Bytes)
      (file : PlannedFile)
      → plan_changes host changes files w ≡ (ok out, w')
      → find_planned q files ≡ some file
      → (planned : PlannedFile) × (find_planned q out ≡ some planned)
        × (apply_all (changes_of q changes) file.final_content ≡ ok planned.final_content)
  unfolding plan_changes
  plan_changes_lem [] files out w w' q file h found = (
    file,
    ap (find_planned q) (ok-injective (sym (ap (λ p. p.0) h))) ∙ found,
    (unfold changes_of apply_all in refl),
  )
  plan_changes_lem (change ∷ changes) files out w w' q file h found =
      let taken = planned_file host change.path files w in
      let (f, e, h1) =
        continue-ok taken.0
          (λ f v.
            continue (plan_change change f)
              (λ next v'. plan_changes host changes (put_planned next files) v') v)
          taken.1 w' out h in
      let (next, e', h2) =
        continue-ok (plan_change change f)
          (λ next v'. plan_changes host changes (put_planned next files) v') taken.1 w' out h1 in
      let (at_path, is_f) = planned_file_lem change.path files w f e in
      let (kept, run) = plan_change_lem change f next e' in
      elim (Bool-cases (str_eq change.path q)) [
        | inl same ↦
            let eq = (str_eq_iff change.path q).0 same in
            let here : (if str_eq next.path q then some next else find_planned q files)
                ≡ some next =
              rw (kept ∙ at_path, same) refl in
            let put : find_planned q (put_planned next files) ≡ some next =
              find_planned-put_planned q next files ∙ here in
            let (planned, there, result) =
              plan_changes_lem changes (put_planned next files) out taken.1 w' q next h2 put in
            let file_is_f = is_f file (ap (λ p. find_planned p files) eq ∙ found) in
            (
              planned,
              there,
              ap (λ l. apply_all l file.final_content) (changes_of-own q change changes same)
                  ∙ ap
                      (λ (g : PlannedFile).
                        apply_all (change ∷ changes_of q changes) g.final_content)
                      file_is_f
                  ∙ run (changes_of q changes)
                  ∙ result,
            )
        | inr other ↦
            let here : (if str_eq next.path q then some next else find_planned q files)
                ≡ some file =
              rw (kept ∙ at_path, other) found in
            let put : find_planned q (put_planned next files) ≡ some file =
              find_planned-put_planned q next files ∙ here in
            let (planned, there, result) =
              plan_changes_lem changes (put_planned next files) out taken.1 w' q file h2 put in
            (
              planned,
              there,
              ap (λ l. apply_all l file.final_content) (changes_of-other q change changes other)
                  ∙ result,
            )
      ]
