-- ===== src/Disk/Files.antt =====
-- The files of a disk by their paths.
use ai_editor.Prelude.{◌≡◌, refl, List, [], ◌∷◌, Option, none, some, arith, if◌then◌else◌}
use ai_editor.Text.{Bytes, str_eq, str_eq_iff}

module _ {ℓ} {V : Type ℓ} where
  unfoldable pub find_file : Bytes → List (Bytes × V) → Option V
  find_file path [] = none
  find_file path ((p, v) ∷ files) = if str_eq p path then some v else find_file path files

  unfoldable pub put_file : Bytes → V → List (Bytes × V) → List (Bytes × V)
  put_file path v [] = (path, v) ∷ []
  put_file path v ((p, u) ∷ files) =
      if str_eq p path then (path, v) ∷ files else (p, u) ∷ put_file path v files

  unfoldable pub remove_file : Bytes → List (Bytes × V) → List (Bytes × V)
  remove_file path [] = []
  remove_file path ((p, u) ∷ files) =
      let rest = remove_file path files in if str_eq p path then rest else (p, u) ∷ rest

  pub find_file-put_file :
      (p q : Bytes) (v : V) (files : List (Bytes × V))
      → find_file q (put_file p v files) ≡ (if str_eq p q then some v else find_file q files)
  unfolding find_file put_file
  find_file-put_file p q v [] = refl
  find_file-put_file p q v ((r, u) ∷ files) =
      ground (arith, str_eq_iff p q, str_eq_iff r p, str_eq_iff r q, find_file-put_file p q v files)

  pub find_file-remove_file :
      (p q : Bytes) (files : List (Bytes × V))
      → find_file q (remove_file p files) ≡ (if str_eq p q then none else find_file q files)
  unfolding find_file remove_file
  find_file-remove_file p q [] = ground arith
  find_file-remove_file p q ((r, u) ∷ files) =
      ground
        (arith, str_eq_iff p q, str_eq_iff r p, str_eq_iff r q, find_file-remove_file p q files)
