-- ===== src/Session/Recovery/Check.antt =====
-- The recovery check of a file, and a description of the changes that fit a text.
use ai_editor.Prelude.{◌≡◌, refl, List, [], ◌∷◌}
use ai_editor.Text.{Bytes}
use ai_editor.Outcome.{ok}
use ai_editor.Session.Types.{StagedChange}
use ai_editor.Session.Edit.{Applied, apply_change_to_content, change_can_rebase_on_content}
use ai_editor.Session.Plan.Content.{apply_all}

-- The changes fit a text one after the other: each finds its target unchanged in what the changes
-- before it have made, and can be applied there.
pub data Rebases : List StagedChange → Bytes → Type 0 where
  done : {content : Bytes} → Rebases [] content
  step :
      {change : StagedChange} {changes : List StagedChange} {content : Bytes} (applied : Applied)
      → change_can_rebase_on_content change content ≡ ok tt
      → apply_change_to_content change content ≡ ok applied
      → Rebases changes applied.updated
      → Rebases (change ∷ changes) content

-- Changes that fit a text one after the other can all be applied to it.
pub Rebases-apply_all :
    {changes : List StagedChange} {content : Bytes}
    → Rebases changes content
    → (final : Bytes) × (apply_all changes content ≡ ok final)
unfolding apply_all
Rebases-apply_all (done {content}) = (content, refl)
Rebases-apply_all (step {change} {changes} {content} applied fits applies rest) =
    let (final, h) = Rebases-apply_all rest in (final, rw applies h)
