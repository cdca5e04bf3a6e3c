-- ===== src/Session/Inspect/Keeps.antt =====
-- Inspecting a session leaves the disk's files alone.
use ai_editor.Text.{Bytes}
use ai_editor.Disk.{Host}
use ai_editor.Disk.Keeps.{Keeps, Keeps-bind}
use ai_editor.Session.Store.Keeps.{Keeps-load_meta, Keeps-load_changes}
use ai_editor.Session.Plan.Keeps.{Keeps-build_planned_files}
use ai_editor.Session.Inspect.{session_inspect}

module _ (host : Host) (q : Bytes) where
  pub Keeps-session_inspect : (session_id : Bytes) → Keeps q (session_inspect host session_id)
  unfolding session_inspect
  Keeps-session_inspect session_id = Keeps-bind (Keeps-load_meta host q session_id) (λ meta.
      Keeps-bind (Keeps-load_changes host q session_id)
        (λ changes. record { at = λ w. (Keeps-build_planned_files host q session_id).at w }))
