-- ===== src/Session.antt =====
-- libs/bridge_core/{include/bridge/core/session_service.hpp, src/session_service.cpp}: staged edits
-- of a session. Types holds the records, Edit how one staged change acts on a text.
pub mod Types
pub mod Edit
pub mod Codec
pub mod Risk
pub mod Store
pub mod Lifecycle
pub mod Recovery
pub mod Stage
pub mod Plan
pub mod Commit
pub mod Summary
pub mod Inspect
pub mod Preview
pub mod Untouched
