-- ===== src/Patch/Apply/Refuses.antt =====
-- The requests that `patch_apply` refuses.
use ai_editor.Prelude.{sym, ap, ◌∙◌, if◌then◌else◌, ◌≡◌, refl, true, false}
use ai_editor.Text.{Bytes, codes}
use ai_editor.Outcome.{Outcome, ok, err}
use ai_editor.Path.{ResolveResult, deny}
use ai_editor.Disk.{Host, resolve}
use ai_editor.Disk.Action.{World}
use ai_editor.Disk.Files.{find_file}
use ai_editor.Disk.Keeps.{FileKept}
use ai_editor.Patch.Store.{Settings}
use ai_editor.Patch.Base.{PatchBase, base_matches, patch_conflict_message}
use ai_editor.Patch.Encoding.{FileState, read_text_file}
use ai_editor.Patch.Encoding.Keeps.{Keeps-read_text_file}
use ai_editor.Patch.Preview.{is_deny, allowed, resolve_allowed}
use ai_editor.Patch.Apply.{PatchPlan, Caller, patch_apply, plan_request, check_base}

module _ (host : Host) (path : Bytes) (resolved : ResolveResult)
    (found : resolve host path ≡ ok resolved) where
  resolve_allowed-denied :
      resolved.policy ≡ deny → resolve_allowed host path ≡ err (codes "path denied by policy")
  unfolding resolve_allowed
  resolve_allowed-denied denied =
      ap allowed found
      ∙ ap (λ policy. if is_deny policy then err (codes "path denied by policy") else ok resolved)
          denied

  resolve_allowed-normal : is_deny resolved.policy ≡ false → resolve_allowed host path ≡ ok resolved
  unfolding resolve_allowed
  resolve_allowed-normal normal =
      ap allowed found
      ∙ ap (λ b. if b then err (codes "path denied by policy") else ok resolved) normal

-- The file is not as the plan of a request expects it, and what was read of it.
pub record Conflict (host : Host) (plan : PatchPlan) (resolved : ResolveResult) (w : World)
    (state : FileState) (after : World) : Type 0 where
  pub normal : is_deny resolved.policy ≡ false
  pub read : read_text_file host resolved.absolute_path true w ≡ (ok state, after)
  pub differs : base_matches plan.base state ≡ false

module _ (host : Host) (settings : Settings) (path new_content : Bytes) (base : PatchBase)
    (caller : Caller) (preview_id : Bytes) (w w1 : World) (plan : PatchPlan)
    (resolved : ResolveResult)
    (planned : plan_request host settings path new_content base preview_id w ≡ (ok plan, w1))
    (found : resolve host plan.path ≡ ok resolved) where
  refuses-denied :
      resolved.policy ≡ deny
      → patch_apply host settings path new_content base caller preview_id w
        ≡ (err (codes "path denied by policy"), w1)
  unfolding patch_apply
  refuses-denied denied =
      rw (planned, resolve_allowed-denied host plan.path resolved found denied) refl

  refuses-Conflict :
      (state : FileState) (after : World)
      → Conflict host plan resolved w1 state after
      → patch_apply host settings path new_content base caller preview_id w
        ≡ (err (patch_conflict_message plan.base state), after)
  unfolding patch_apply check_base
  refuses-Conflict state after c =
      rw (planned, resolve_allowed-normal host plan.path resolved found c.normal, c.read, c.differs)
        refl

  Conflict-kept :
      (state : FileState) (after : World) (q : Bytes)
      → Conflict host plan resolved w1 state after
      → FileKept q w1 after
  Conflict-kept state after q c =
      ap (λ (p : Outcome FileState × World). find_file q p.1.files) (sym c.read)
      ∙ (Keeps-read_text_file host q resolved.absolute_path true).at w1

-- A patch, with or without a preview, whose plan is made (from the request, or from the request and
-- the preview it names) and whose path lies in the workspace is refused with "path denied by policy"
-- where the policy denies the path, whatever the file holds and whether or not it can be read; and
-- where the policy allows the path, the file can be read and is not as the plan expects it, it is
-- refused with the text of the conflict. In both cases no file is changed once the plan is made.
pub patch_apply-refuses :
    (host : Host) (settings : Settings) (path new_content : Bytes) (base : PatchBase)
    (caller : Caller) (preview_id : Bytes) (w w1 : World) (plan : PatchPlan)
    (resolved : ResolveResult)
    → plan_request host settings path new_content base preview_id w ≡ (ok plan, w1)
    → resolve host plan.path ≡ ok resolved
    → let run = patch_apply host settings path new_content base caller preview_id w in
      (resolved.policy ≡ deny → run ≡ (err (codes "path denied by policy"), w1))
      × ((state : FileState) (after : World)
          → Conflict host plan resolved w1 state after
          → (run ≡ (err (patch_conflict_message plan.base state), after))
            × ((q : Bytes) → FileKept q w1 after))
patch_apply-refuses host settings path new_content base caller preview_id w w1 plan resolved planned
      found =
    (
      refuses-denied host settings path new_content base caller preview_id w w1 plan resolved
          planned found,
      λ state after c. (
        refuses-Conflict host settings path new_content base caller preview_id w w1 plan resolved
            planned found state after c,
        λ q.
            Conflict-kept host settings path new_content base caller preview_id w w1 plan resolved
              planned found state after q c,
      ),
    )
