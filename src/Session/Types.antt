-- ===== src/Session/Types.antt =====
-- The records of session_service.hpp that describe a staged change.
use ai_editor.Prelude.{ℕ, Bool, List}
use ai_editor.Text.{Bytes}

pub record Selector : Type 0 where
  pub query : Bytes
  pub exact_path : Bytes
  pub directory_prefix : Bytes
  pub extension : Bytes
  pub anchor_before : Bytes
  pub anchor_after : Bytes
  pub occurrence : ℕ
  pub from_end : Bool

pub record RiskHint : Type 0 where
  pub level : Bytes
  pub reasons : List Bytes

pub record StagedChange : Type 0 where
  pub change_id : Bytes
  pub session_id : Bytes
  pub operation : Bytes
  pub path : Bytes
  pub line_start : ℕ
  pub line_end : ℕ
  pub selector : Selector
  pub expected_content : Bytes
  pub base_mtime : Bytes
  pub base_hash : Bytes
  pub new_content : Bytes
  pub selector_reason : Bytes
  pub anchor : Bytes
  pub risk : RiskHint
  pub created_at : Bytes

pub record SessionInspectItem : Type 0 where
  pub change_id : Bytes
  pub operation : Bytes
  pub path : Bytes
  pub line_start : ℕ
  pub line_end : ℕ
  pub selector_reason : Bytes
  pub anchor : Bytes
  pub risk_level : Bytes
