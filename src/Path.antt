-- ===== src/Path.antt =====
-- libs/bridge_core/src/path_policy.cpp, workspace.cpp: where a requested path lies, and what the
-- workspace's policy says of it. The disk's part (`fs::absolute`, `fs::weakly_canonical`,
-- `fs::relative`) is a parameter.
pub mod Segment
pub mod Policy
use ai_editor.Prelude.{
  ℕ, suc, Bool, true, false, not, ◌&&◌, ◌||◌, List, [], ◌∷◌, ◌++◌, Option, none, some, arith,
  length, get_elem?, last?, ltb, leb, ◌==◌, if◌then◌else◌,
}
use ai_editor.Text.{Bytes, codes, str_eq, is_empty, starts_with}
use ai_editor.Outcome.{Outcome, ok, err, ◌>>=◌}

pub data PathPolicyKind : Type 0 where
  deny skip_by_default normal : PathPolicyKind

pub record WorkspaceConfig : Type 0 where
  pub root : Bytes
  pub profile_name : Bytes
  pub policy_name : Bytes
  pub deny_paths : List Bytes
  pub skip_by_default_paths : List Bytes

unfoldable pub make_default_workspace_config : Bytes → Bytes → Bytes → WorkspaceConfig
make_default_workspace_config root profile_name policy_name = record {
  root = root;
  profile_name = profile_name;
  policy_name = policy_name;
  deny_paths = codes ".bridge" ∷ [];
  skip_by_default_paths =
      codes ".git"
      ∷ codes "node_modules"
      ∷ codes "dist"
      ∷ codes "build"
      ∷ codes "out"
      ∷ codes "bin"
      ∷ codes "obj"
      ∷ codes "target"
      ∷ codes ".vs"
      ∷ codes ".next"
      ∷ codes "coverage"
      ∷ codes "__pycache__"
      ∷ codes ".venv"
      ∷ [];
}

-- `value[i] == c`, within the text
abbrev pub char_is : Bytes → ℕ → ℕ → Bool
char_is value i c = elim (get_elem? value i) [ none ↦ false | some d ↦ d == c ]

unfoldable pub starts_with_path_segment : Bytes → Bytes → Bool
starts_with_path_segment value prefix =
    if str_eq value prefix
    then true
    else if leb (length value) (length prefix)
    then false
    else if not (starts_with value prefix)
    then false
    else char_is value (length prefix) b'/'

-- `to_string(PathPolicyKind)`
unfoldable pub to_string : PathPolicyKind → Bytes
to_string deny = codes "deny"
to_string skip_by_default = codes "skip_by_default"
to_string normal = codes "normal"

-- The calls of `std::filesystem` that look at the disk; `err` is an exception with its text.
pub record FsPaths : Type 0 where
  pub absolute : Bytes → Outcome Bytes
  pub weakly_canonical : Bytes → Outcome Bytes
  pub relative : Bytes → Bytes → Outcome Bytes

pub record ResolveResult : Type 0 where
  pub normalized_root : Bytes
  pub normalized_relative_path : Bytes
  pub absolute_path : Bytes
  pub policy : PathPolicyKind

-- `a / b` of `std::filesystem::path`, on POSIX.
unfoldable pub join_path : Bytes → Bytes → Bytes
join_path a b =
    if char_is b 0 b'/'
    then b
    else if is_empty a || elim (last? a) [ none ↦ false | some c ↦ c == b'/' ]
    then a ++ b
    else a ++ (b'/' ∷ b)

-- The loops over `deny_paths` and `skip_by_default_paths`, which stop at the first match.
unfoldable pub any_covers : Bytes → List Bytes → Bool
any_covers relative [] = false
any_covers relative (p ∷ paths) =
    let rest = any_covers relative paths in
    if str_eq relative p || starts_with_path_segment relative p then true else rest

unfoldable pub policy_of : WorkspaceConfig → Bytes → PathPolicyKind
policy_of config relative =
    if any_covers relative config.deny_paths
    then deny
    else if any_covers relative config.skip_by_default_paths
    then skip_by_default
    else normal

module _ (fs : FsPaths) where
  unfoldable pub normalize_root_path : Bytes → Outcome Bytes
  normalize_root_path root = do path ← fs.absolute root; fs.weakly_canonical path

  -- The part of `resolve_under_workspace` behind the containment test.
  classify : WorkspaceConfig → Bytes → Bytes → Outcome ResolveResult
  classify config normalized_root absolute_path = do
    found ← fs.relative absolute_path normalized_root
    let relative = if str_eq found (codes ".") then [] else found
    ok (record {
      normalized_root = normalized_root;
      normalized_relative_path = relative;
      absolute_path = absolute_path;
      policy = policy_of config relative;
    })

  unfoldable pub resolve_under_workspace : WorkspaceConfig → Bytes → Outcome ResolveResult
  unfolding normalize_root_path classify
  resolve_under_workspace config requested_path = do
    normalized_root ← normalize_root_path config.root
    let rel = if is_empty requested_path then codes "." else requested_path
    absolute_path ← fs.weakly_canonical (join_path normalized_root rel)
    if str_eq absolute_path normalized_root
          || starts_with_path_segment absolute_path normalized_root
        then classify config normalized_root absolute_path
        else err (codes "path is outside workspace")
