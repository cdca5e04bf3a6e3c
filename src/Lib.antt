-- ===== src/Lib.antt =====
-- A model of the text workspace bridge in libs/bridge_core, and its theorems.
--
-- The bridge edits the files of a workspace for clients. A client stages changes in a session;
-- each change is a text edit of one file, kept as a JSON file below .bridge/sessions until the
-- session is committed or aborted. A commit makes a preview of each file and applies it as a patch,
-- which keeps a backup and writes a line of history. Paths that a client names are resolved within the workspace.
--
-- Which file models which part:
--   Text, Text/*        texts as lists of character codes, std::string::find and rfind, numbers
--                       as texts
--   Document            make_document_from_content, join_lines and slice_range_text of
--                       libs/bridge_core/src/session_service.cpp
--   Hash                fnv1a64, hex64 and content_hash of libs/bridge_core/src/patch_service.cpp
--   Json                the JSON escapes and the field readers of libs/bridge_core/src/protocol.cpp
--   Path                libs/bridge_core/src/path_policy.cpp and workspace.cpp
--   Outcome             a result or the text of an error, for `bool` with `std::string* error`
--   Disk                the files, the clock and the faults that the services meet; Disk/Keeps, Sure,
--                       Ensures and Under are the rules by which properties of calls are proved
--   Session/Types       the records of libs/bridge_core/include/bridge/core/session_service.hpp
--   Session/Edit        how a staged change finds its target and rewrites a text
--   Session/Codec       the JSON texts of a session's state and changes
--   Session/Risk        evaluate_risk and the other functions on risks
--   Session/Store       the directories of a session, loading and saving
--   Session/Lifecycle   session_begin, session_add, session_abort, session_drop_*, session_snapshot
--   Session/Recovery    recovery_check, recovery_rebase, session_recover
--   Session/Stage       the edit_* operations
--   Session/Plan        build_planned_files and session_materialize_file
--   Session/Summary     analyze_diff and the summaries of files and sessions
--   Session/Inspect     session_inspect
--   Session/Preview     session_preview
--   Session/Commit      session_commit
--   Session/Untouched   the operations that do not commit, as one data type
--   Patch/Encoding      read_text_file and encode_text of libs/bridge_core/src/patch_service.cpp
--   Patch/Base          base_matches and the conflict texts of that file
--   Patch/Diff          split_lines and make_context_diff of that file
--   Patch/History       the lines that append_history writes and parse_history_line reads
--   Patch/Store         the records of backups and previews, and where they are kept
--   Patch/Cleanup       append_history, the rotation of its file and the cleanup_old_* functions
--   Patch/Preview       load_preview_record and patch_preview
--   Patch/Apply         patch_apply
--   Patch/Stream        patch_preview_stream; the clock, the request and the consumer are functions of
--                       the number of the chunk
--   Patch/Rollback      patch_rollback and history_list
--   Errors              libs/bridge_core/src/error_codes.cpp
--   Tests               each theorem at a concrete input
--
-- An operation on the disk is a function from the disk (World) to a result or an error text, and
-- the disk it leaves. Every call of the system counts one step; which calls fail, what the clock
-- shows and what the system's errors say are functions of the step (Host), so a theorem about
-- every Host covers every sequence of faults. The result records leave out `ok` and `error`,
-- which the result or error carries. A character is its code, a text a list of them.
--
-- A write can fail when the file is opened, when it is written, or after the last test of the
-- stream, when its buffer is written out: then it counts as done, though only the first bytes are
-- there. A test of whether a file or directory exists can fail too, and counts then as a missing
-- one, or as an error where the source lets the exception pass. An exception of std::filesystem is
-- an error with its text.
--
-- Files are told apart by the texts of their paths; "." and ".." in a path, and links, are not
-- followed by the disk of the model, only by the parameter weakly_canonical. Theorems on what is
-- left alone therefore speak of canonical paths, and of ids that are plain names where ids become
-- parts of paths.
--
-- The loop of locate_candidates runs on fuel, one round for each byte of the text and one more,
-- and returns none if the fuel runs out; each round that goes on moves past a hit that is not
-- empty, so it does not. The loop of patch_preview_stream runs on fuel too, one round for each
-- byte: a chunk has at least one. The other loops are structural recursion.
--
-- The numbers that the program reads from its environment (how many backups, previews and history
-- files are kept, and how long) are a parameter, Settings. std::sort leaves open how files of the same
-- time are ordered; the model keeps the order in which the disk lists them.
--
-- Not modelled: the fields of results that come with an error beside its text, the file and search
-- services (not yet), the protocol's dispatch and formatters, the structure adapters, logging, the
-- platform and transport layers and the programs in apps. Directories are taken to exist where a
-- file stands in them, every entry is a regular file, and no other writer is modelled: between two
-- steps of an operation the files stay as they are.
mod Prelude
pub mod Text
pub mod Document
pub mod Hash
pub mod Json
pub mod Outcome
pub mod Path
pub mod Disk
pub mod Session
pub mod Patch
pub mod Errors
mod Tests
