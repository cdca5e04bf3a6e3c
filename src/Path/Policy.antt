-- ===== src/Path/Policy.antt =====
-- Resolved paths and their policies.
use ai_editor.Prelude.{◌≢◌, ◌≡◌, ◌↔◌, ◌⊎◌, inl, inr, Bool-cases, true, ◌||◌, List, [], ◌∷◌, arith}
use ai_editor.Text.{Bytes, codes, str_eq}
use ai_editor.Path.{
  join_path, deny, skip_by_default, WorkspaceConfig, any_covers, policy_of,
  starts_with_path_segment,
}
use ai_editor.Path.Segment.{Within, starts_with_path_segment_iff}

-- Some path of the list covers this one.
abbrev pub Covered : Bytes → List Bytes → Type 0
Covered relative [] = ⊥
Covered relative (p ∷ paths) = Within relative p ⊎ Covered relative paths

covers_iff :
    (value prefix : Bytes)
    → ((str_eq value prefix || starts_with_path_segment value prefix) ≡ true) ↔ Within value prefix
covers_iff value prefix = (
  λ h.
      (starts_with_path_segment_iff value prefix).0
        (unfold starts_with_path_segment in ground arith),
  λ w. ground (arith, (starts_with_path_segment_iff value prefix).1 w),
)

any_covers_iff :
    (relative : Bytes) (paths : List Bytes)
    → (any_covers relative paths ≡ true) ↔ Covered relative paths
unfolding any_covers
any_covers_iff relative [] = (λ h. absurd (ground arith), λ h. absurd h)
any_covers_iff relative (p ∷ paths) =
    elim (Bool-cases (str_eq relative p || starts_with_path_segment relative p)) [
      | inl e ↦ (λ _. inl ((covers_iff relative p).0 e), λ _. rw e)
      | inr e ↦ (
        λ h. inr ((any_covers_iff relative paths).0 (rw e at h)),
        λ c. elim c [
          | inl w ↦ cc (e, (covers_iff relative p).1 w)
          | inr d ↦ rw e ((any_covers_iff relative paths).1 d)
        ],
      )
    ]

-- A path is denied exactly when a denied path covers it, and skipped by default exactly when no
-- denied path but a skipped one covers it.
pub policy_of_iff :
    (config : WorkspaceConfig) (relative : Bytes)
    → ((policy_of config relative ≡ deny) ↔ Covered relative config.deny_paths)
      × ((policy_of config relative ≡ skip_by_default) ↔ (
          (¬ (Covered relative config.deny_paths)) × Covered relative config.skip_by_default_paths))
unfolding policy_of
policy_of_iff config relative =
    let (d, d') = any_covers_iff relative config.deny_paths in
    let (k, k') = any_covers_iff relative config.skip_by_default_paths in
    (
      (λ h. d (ground arith), λ c. ground (arith, d' c)),
      (
        λ h. (λ c. ground (arith, d' c), k (ground arith)),
        λ (n, c). elim (Bool-cases (any_covers relative config.deny_paths)) [
          | inl e ↦ absurd (n (d e))
          | inr e ↦ ground (arith, k' c)
        ],
      ),
    )

-- What `fs::relative` is documented to give for a path and a base: "." where they are the same, and
-- else the path that leads from the base to it.
abbrev pub Leads : Bytes → Bytes → Bytes → Type 0
Leads base found path =
    ((found ≡ codes ".") × (path ≡ base)) ⊎ ((found ≢ codes ".") × (path ≡ join_path base found))
