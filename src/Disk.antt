-- ===== src/Disk.antt =====
-- The disk and the clock that the services work on: the files with their contents and times, and
-- the number of calls made so far. A call may fail, at any step: what fails, the times and the
-- texts of the system's errors are parameters of the model. Directories are not modelled: a path
-- with a file below it is taken to have its directories.
pub mod Action
pub mod Files
pub mod Keeps
pub mod Sure
pub mod Ensures
pub mod Under
use ai_editor.Prelude.{
  ℕ, zero, suc, Bool, true, false, not, ◌&&◌, List, [], ◌∷◌, ◌++◌, Option, none, some, ◌+◌, take,
  drop, length, if◌then◌else◌,
}
use ai_editor.Text.{Bytes, codes, str_eq, str_lt, starts_with, is_empty}
use ai_editor.Text.Decimal.{ℤ, pos, int_lt}
use ai_editor.Text.Find.{rfind, contains}
use ai_editor.Outcome.{Outcome, ok, err}
use ai_editor.Path.{FsPaths, WorkspaceConfig, ResolveResult, resolve_under_workspace, join_path}
use ai_editor.Disk.Action.{Exec, World, File}
use ai_editor.Disk.Files.{find_file, put_file, remove_file}

-- How a call can fail: the file is not opened, only its first bytes are written, or it is said to
-- have written all while only the first bytes arrive, because a stream's buffer cannot be written out
-- when the stream is closed behind the last test of it.
pub data Fault : Type 0 where
  no_fault open_fault : Fault
  write_fault close_fault : ℕ → Fault

-- What the program is given: the workspace and the value of `normalize_root_path` on its root, the
-- calls of `std::filesystem` on paths, the texts of a clock's and of a file's time, and at each step
-- the fault, whether the test for a
-- file fails, the clock, the time that a file written then gets, and the system's text for an error.
pub record Host : Type 0 where
  pub config : WorkspaceConfig
  pub fs : FsPaths
  pub root : Bytes
  pub fault : ℕ → Fault
  pub stat_fault : ℕ → Bytes → Bool
  pub now_ms : ℕ → ℕ
  pub now_us : ℕ → ℕ
  pub iso_time : ℕ → Bytes
  pub iso_file_time : ℤ → Bytes
  pub file_time : ℕ → ℤ
  pub ec_message : ℕ → Bytes

abbrev tick : World → World
tick w = record w { step = suc w.step }

-- The bytes of a file, none if it is not there.
unfoldable pub content_of : Bytes → World → Bytes
unfolding find_file
content_of path w = elim (find_file path w.files) [ none ↦ [] | some f ↦ f.content ]

module _ (host : Host) where
  -- The bytes of a file, or none if it is not there or cannot be opened.
  unfoldable pub read_file : Bytes → World → Option Bytes × World
  read_file path w = elim (find_file path w.files) [
    | none ↦ (none, tick w)
    | some f ↦ elim (host.fault w.step) [
      | open_fault ↦ (none, tick w)
      | _ ↦ (some f.content, tick w)
    ]
  ]

  -- `slurp_text`
  unfoldable pub slurp_text : Bytes → Exec Bytes
  unfolding read_file find_file
  slurp_text path w =
      let (text, w') = read_file path w in
      (elim text [ none ↦ err (codes "path not found") | some t ↦ ok t ], w')

  abbrev stored : Bytes → Bytes → World → World
  stored path text w = record w {
    files = put_file path (record { content = text; mtime = host.file_time w.step }) w.files;
    step = suc w.step;
  }

  -- `write_text`
  unfoldable pub write_text : Bytes → Bytes → Exec (Unit {0})
  unfolding put_file
  write_text path text w = elim (host.fault w.step) [
    | no_fault ↦ (ok tt, stored path text w)
    | open_fault ↦ (err (codes "failed to open file"), tick w)
    | write_fault n ↦ (err (codes "failed to write file"), stored path (take n text) w)
    | close_fault n ↦ (ok tt, stored path (take n text) w)
  ]

  -- `fs::remove(path, ec)`, and an error if `ec` is set
  unfoldable pub remove_path : Bytes → Exec (Unit {0})
  unfolding remove_file
  remove_path path w = elim (host.fault w.step) [
    | no_fault ↦ (ok tt, record w { files = remove_file path w.files; step = suc w.step })
    | _ ↦ (err (host.ec_message w.step), tick w)
  ]

  -- `fs::create_directories(path, ec)`, and an error if `ec` is set
  unfoldable pub create_directories : Bytes → Exec (Unit {0})
  create_directories path w = elim (host.fault w.step) [
    | no_fault ↦ (ok tt, tick w)
    | _ ↦ (err (host.ec_message w.step), tick w)
  ]

  unfoldable pub current_timestamp_ms : Exec ℕ
  current_timestamp_ms w = (ok (host.now_ms w.step), tick w)

  unfoldable pub current_timestamp : Exec Bytes
  current_timestamp w = (ok (host.iso_time (host.now_ms w.step)), tick w)

  -- `fs::last_write_time(path, ec)`, and an error if `ec` is set
  -- `std::ofstream` and `<<` where only the opening is checked: `message` is the error.
  unfoldable pub write_unchecked : Bytes → Bytes → Bytes → Exec (Unit {0})
  unfolding put_file
  write_unchecked path text message w = elim (host.fault w.step) [
    | no_fault ↦ (ok tt, stored path text w)
    | open_fault ↦ (err message, tick w)
    | write_fault n ↦ (ok tt, stored path (take n text) w)
    | close_fault n ↦ (ok tt, stored path (take n text) w)
  ]

  -- `std::ofstream` with `std::ios::app` and `<<`, unchecked
  unfoldable pub append_text : Bytes → Bytes → Exec (Unit {0})
  unfolding put_file content_of
  append_text path text w =
      let before = content_of path w in
      elim (host.fault w.step) [
        | no_fault ↦ (ok tt, stored path (before ++ text) w)
        | open_fault ↦ (ok tt, tick w)
        | write_fault n ↦ (ok tt, stored path (before ++ take n text) w)
        | close_fault n ↦ (ok tt, stored path (before ++ take n text) w)
      ]

  -- `fs::rename(from, to, ec)`, and an error if `ec` is set
  unfoldable pub rename_path : Bytes → Bytes → Exec (Unit {0})
  unfolding find_file put_file remove_file
  rename_path from to w = elim (find_file from w.files) [
    | none ↦ (err (host.ec_message w.step), tick w)
    | some f ↦ elim (host.fault w.step) [
      | no_fault ↦
          (ok tt, record w { files = put_file to f (remove_file from w.files); step = suc w.step })
      | _ ↦ (err (host.ec_message w.step), tick w)
    ]
  ]

  unfoldable pub last_write_time : Bytes → Exec ℤ
  unfolding find_file
  last_write_time path w = elim (find_file path w.files) [
    | none ↦ (err (host.ec_message w.step), tick w)
    | some f ↦ elim (host.fault w.step) [
      | no_fault ↦ (ok f.mtime, tick w)
      | _ ↦ (err (host.ec_message w.step), tick w)
    ]
  ]

  -- `fs::exists(path, ec) && !ec`: a test that fails counts as a missing file.
  unfoldable pub file_exists : Bytes → World → Bool
  unfolding find_file
  file_exists path w =
      not (host.stat_fault w.step path)
      && elim (find_file path w.files) [ none ↦ false | some f ↦ true ]

  -- `fs::exists(path)`, where a test that fails is an exception
  unfoldable pub exists_or_throw : Bytes → Exec Bool
  unfolding file_exists
  exists_or_throw path w =
      if host.stat_fault w.step path
      then (err (host.ec_message w.step), w)
      else (ok (file_exists path w), w)

  unfoldable pub bridge_dir : Bytes
  unfolding join_path
  bridge_dir = join_path host.root (codes ".bridge")

  unfoldable pub resolve : Bytes → Outcome ResolveResult
  unfolding resolve_under_workspace
  resolve = resolve_under_workspace host.fs host.config

-- The name of an entry of a directory.
pub entry_name : Bytes → Bytes → Option Bytes
entry_name dir path =
    let name = drop (suc (length dir)) path in
    if starts_with path (dir ++ codes "/") && not (contains name (codes "/"))
    then some name
    else none

-- `path.extension()` of a name: from its last dot on, unless that is its first character.
unfoldable pub extension : Bytes → Bytes
unfolding rfind
extension name = elim (rfind name (codes ".") (length name)) [
  | none ↦ []
  | some k ↦ elim k [ zero ↦ [] | suc j ↦ drop (suc j) name ]
]

insert_path : Bytes → List Bytes → List Bytes
insert_path p [] = p ∷ []
insert_path p (q ∷ paths) = if str_lt p q then p ∷ q ∷ paths else q ∷ insert_path p paths

-- `std::sort`
unfoldable pub sort_paths : List Bytes → List Bytes
unfolding insert_path
sort_paths [] = []
sort_paths (p ∷ paths) = insert_path p (sort_paths paths)

-- The paths of the files of a directory with an extension, in order.
paths_in : Bytes → Bytes → List (Bytes × File) → List Bytes
paths_in dir ext [] = []
paths_in dir ext ((path, f) ∷ files) =
    let rest = paths_in dir ext files in
    elim (entry_name dir path) [
      | none ↦ rest
      | some name ↦ if str_eq (extension name) ext then path ∷ rest else rest
    ]

-- None if the test for the directory fails.
unfoldable pub files_in : Host → Bytes → Bytes → World → List Bytes
unfolding paths_in sort_paths extension entry_name
files_in host dir ext w =
    if host.stat_fault w.step dir then [] else sort_paths (paths_in dir ext w.files)

-- The time of a file, for the order of a clean-up.
unfoldable pub time_of : Bytes → World → ℤ
unfolding find_file
time_of path w = elim (find_file path w.files) [ none ↦ pos 0 | some f ↦ f.mtime ]

insert_newest : World → Bytes → List Bytes → List Bytes
unfolding time_of
insert_newest w p [] = p ∷ []
insert_newest w p (q ∷ paths) =
    if int_lt (time_of p w) (time_of q w) then q ∷ insert_newest w p paths else p ∷ q ∷ paths

sort_newest : World → List Bytes → List Bytes
unfolding insert_newest
sort_newest w [] = []
sort_newest w (p ∷ paths) = insert_newest w p (sort_newest w paths)

-- The files of a directory with an extension, the newest first. `std::sort` leaves open how files
-- of the same time are ordered; here they keep the order of the disk. None if the test for the
-- directory fails.
unfoldable pub newest_first : Host → Bytes → Bytes → World → List Bytes
unfolding paths_in sort_newest extension entry_name
newest_first host dir ext w =
    if host.stat_fault w.step dir then [] else sort_newest w (paths_in dir ext w.files)
