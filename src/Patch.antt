-- ===== src/Patch.antt =====
-- libs/bridge_core/src/patch_service.cpp: the texts of files, the base that a patch expects and the
-- diff that a preview shows.
pub mod Encoding
pub mod Store
pub mod Cleanup
pub mod Preview
pub mod Apply
pub mod Rollback
pub mod Base
pub mod Diff
pub mod History
pub mod Stream
