-- ===== src/Tests.antt =====
-- Each law at a concrete input.
mod Texts
mod Edits
mod Sessions
mod Patches
mod Commits
