-- ===== src/Disk/Under.antt =====
-- Paths under a directory, as texts: joining keeps them there, and the files that a directory is
-- asked for are there.
use ai_editor.Prelude.{
  Option-cases, drop-drop, length-drop, ◌+◌, ◌≤◌, ℕ, zero, suc, ◌≡◌, refl, sym, ap, ◌∙◌, Bool, true,
  false, List, [], ◌∷◌, ◌++◌, drop, Option, none, some, if◌then◌else◌, arith, inl, inr, Bool-cases,
  length,
}
use ai_editor.Text.{Bytes, codes, str_eq, str_eq_iff, str_lt, is_empty, starts_with}
use ai_editor.Text.Decimal.{int_lt}
use ai_editor.Path.{char_is, join_path}
use ai_editor.Disk.{
  Host, entry_name, paths_in, insert_path, sort_paths, files_in, insert_newest, sort_newest,
  newest_first, time_of, extension,
}
use ai_editor.Disk.Action.{World, File}
use ai_editor.Text.Find.{rfind, OccursAt, starts_with-length}
use ai_editor.Text.Find.Last.{rfind-some}

abbrev pub Under : Bytes → Bytes → Type 0
Under dir path = starts_with path dir ≡ true

pub Under-apart : (dir p q : Bytes) → Under dir p → starts_with q dir ≡ false → str_eq p q ≡ false
Under-apart dir p q u a = elim (Bool-cases (str_eq p q)) [
  | inl e ↦
      let same = (str_eq_iff p q).0 e in absurd (ground (arith, ap (λ t. starts_with t dir) same))
  | inr e ↦ e
]

pub Under-append : (dir p text : Bytes) → Under dir p → Under dir (p ++ text)
unfolding starts_with
Under-append [] p text u = refl
Under-append (d ∷ dir) [] text u = cc
Under-append (d ∷ dir) (c ∷ p) text u = ground (arith, Under-append dir p text (ground arith))

pub Under-self : (dir : Bytes) → Under dir dir
unfolding starts_with
Under-self [] = refl
Under-self (d ∷ dir) = ground (arith, Under-self dir)

pub Under-join_path :
    (dir p name : Bytes) → char_is name 0 b'/' ≡ false → Under dir p → Under dir (join_path p name)
unfolding join_path
Under-join_path dir p name e u =
    ground (arith, e, Under-append dir p name u, Under-append dir p (b'/' ∷ name) u)

-- All paths of a list have a property.
abbrev pub AllPaths : (Bytes → Type 0) → List Bytes → Type 0
AllPaths P [] = Unit
AllPaths P (p ∷ paths) = P p × AllPaths P paths

abbrev pub AllUnder : Bytes → List Bytes → Type 0
AllUnder dir = AllPaths (Under dir)

pub Under-trans : (a b c : Bytes) → Under a b → Under b c → Under a c
unfolding starts_with
Under-trans [] b c u v = refl
Under-trans (x ∷ a) [] c u v = cc
Under-trans (x ∷ a) (y ∷ b) [] u v = cc
Under-trans (x ∷ a) (y ∷ b) (z ∷ c) u v =
    ground (arith, Under-trans a b c (ground arith) (ground arith))

entry_name-Under :
    (dir path name : Bytes) → entry_name dir path ≡ some name → Under (dir ++ codes "/") path
unfolding entry_name
entry_name-Under dir path name e = ground arith

module _ (P : Bytes → Type 0) where
  AllPaths-if :
      (b : Bool) (xs ys : List Bytes)
      → AllPaths P xs
      → AllPaths P ys
      → AllPaths P (if b then xs else ys)
  AllPaths-if true xs ys x y = x
  AllPaths-if false xs ys x y = y

  AllPaths-kept :
      (o : Option Bytes) (path ext : Bytes) (rest : List Bytes)
      → ((name : Bytes) → o ≡ some name → str_eq (extension name) ext ≡ true → P path)
      → AllPaths P rest
      → AllPaths P (elim o [
        | none ↦ rest
        | some name ↦ if str_eq (extension name) ext then path ∷ rest else rest
      ])
  AllPaths-kept none path ext rest k all = all
  AllPaths-kept (some name) path ext rest k all = elim (Bool-cases (str_eq (extension name) ext)) [
    | inl e ↦ rw e (k name refl e, all)
    | inr e ↦ rw e all
  ]

  module _ (dir ext : Bytes)
      (k : (path name : Bytes)
        → entry_name dir path ≡ some name
        → str_eq (extension name) ext ≡ true
        → P path) where
    AllPaths-paths_in : (files : List (Bytes × File)) → AllPaths P (paths_in dir ext files)
    unfolding paths_in
    AllPaths-paths_in [] = tt
    AllPaths-paths_in ((path, f) ∷ files) =
        AllPaths-kept (entry_name dir path) path ext (paths_in dir ext files) (k path)
          (AllPaths-paths_in files)

  AllPaths-insert_path :
      (p : Bytes) (paths : List Bytes) → P p → AllPaths P paths → AllPaths P (insert_path p paths)
  unfolding insert_path
  AllPaths-insert_path p [] u all = (u, tt)
  AllPaths-insert_path p (q ∷ paths) u (v, all) =
      AllPaths-if (str_lt p q) (p ∷ q ∷ paths) (q ∷ insert_path p paths) (u, (v, all))
        (v, AllPaths-insert_path p paths u all)

  AllPaths-sort_paths : (paths : List Bytes) → AllPaths P paths → AllPaths P (sort_paths paths)
  unfolding sort_paths
  AllPaths-sort_paths [] all = tt
  AllPaths-sort_paths (p ∷ paths) (u, all) =
      AllPaths-insert_path p (sort_paths paths) u (AllPaths-sort_paths paths all)

  AllPaths-insert_newest :
      (w : World) (p : Bytes) (paths : List Bytes)
      → P p
      → AllPaths P paths
      → AllPaths P (insert_newest w p paths)
  unfolding insert_newest
  AllPaths-insert_newest w p [] u all = (u, tt)
  AllPaths-insert_newest w p (q ∷ paths) u (v, all) =
      AllPaths-if (int_lt (time_of p w) (time_of q w)) (q ∷ insert_newest w p paths) (p ∷ q ∷ paths)
        (v, AllPaths-insert_newest w p paths u all) (u, (v, all))

  AllPaths-sort_newest :
      (w : World) (paths : List Bytes) → AllPaths P paths → AllPaths P (sort_newest w paths)
  unfolding sort_newest
  AllPaths-sort_newest w [] all = tt
  AllPaths-sort_newest w (p ∷ paths) (u, all) =
      AllPaths-insert_newest w p (sort_newest w paths) u (AllPaths-sort_newest w paths all)

  pub AllPaths-newest_first :
      (host : Host) (dir ext : Bytes) (w : World)
      → ((path name : Bytes)
          → entry_name dir path ≡ some name
          → str_eq (extension name) ext ≡ true
          → P path)
      → AllPaths P (newest_first host dir ext w)
  unfolding newest_first
  AllPaths-newest_first host dir ext w k =
      AllPaths-if (host.stat_fault w.step dir) [] (sort_newest w (paths_in dir ext w.files)) tt
        (AllPaths-sort_newest w (paths_in dir ext w.files) (AllPaths-paths_in dir ext k w.files))

  pub AllPaths-drop : (n : ℕ) (paths : List Bytes) → AllPaths P paths → AllPaths P (drop n paths)
  AllPaths-drop zero paths all = all
  AllPaths-drop (suc n) [] all = tt
  AllPaths-drop (suc n) (p ∷ paths) (u, all) = AllPaths-drop n paths all

module _ (top dir : Bytes) (u : Under top dir) where
  pub entry-Under : (path name : Bytes) → entry_name dir path ≡ some name → Under top path
  entry-Under path name e =
      Under-trans top (dir ++ codes "/") path (Under-append top dir (codes "/") u)
        (entry_name-Under dir path name e)

  pub AllUnder-files_in :
      (host : Host) (ext : Bytes) (w : World) → AllUnder top (files_in host dir ext w)
  unfolding files_in
  AllUnder-files_in host ext w =
      AllPaths-if (Under top) (host.stat_fault w.step dir) []
        (sort_paths (paths_in dir ext w.files)) tt
        (AllPaths-sort_paths (Under top) (paths_in dir ext w.files) (
          AllPaths-paths_in (Under top) dir ext (λ path name e _. entry-Under path name e) w.files))

extension-dot :
    (name : Bytes) → is_empty (extension name) ≡ false → (j : ℕ) × OccursAt name (codes ".") j
unfolding extension
extension-dot name e = elim (Option-cases (rfind name (codes ".") (length name))) [
  | inl none_left ↦ absurd (ground arith)
  | inr (j, found) ↦ (j, rfind-some name (codes ".") j found)
]

entry_name-drop :
    (dir path name : Bytes) → entry_name dir path ≡ some name → drop (suc (length dir)) path ≡ name
unfolding entry_name
entry_name-drop dir path name e = ground arith

-- The path of an entry with an extension has a dot behind the directory.
pub entry-dot :
    (dir path name : Bytes)
    → entry_name dir path ≡ some name
    → is_empty (extension name) ≡ false
    → (j : ℕ) × OccursAt path (codes ".") j × (length dir ≤ j) × (j ≤ length path)
entry-dot dir path name e x =
    let (j, o) = extension-dot name x in
    let at = suc (length dir) + j in
    let here : OccursAt path (codes ".") at =
      ap (λ t. starts_with t (codes "."))
        (sym (drop-drop (suc (length dir)) j path) ∙ ap (drop j) (entry_name-drop dir path name e))
      ∙ o in
    (
      at,
      here,
      omega arith,
      omega (arith, starts_with-length (drop at path) (codes ".") here, length-drop at path),
    )
