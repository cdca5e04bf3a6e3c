-- ===== src/Path/Segment.antt =====
-- When one path is another or lies below it.
use ai_editor.Prelude.{
  Bool, not, ◌&&◌, false, ◌==◌, ◌≢◌, ◌<◌, ◌≡◌, ◌↔◌, ◌⊎◌, inl, inr, refl, true, [], ◌∷◌, ◌++◌, arith,
  length, Bool-cases,
}
use ai_editor.Text.{Bytes, codes, str_eq, str_eq_iff, starts_with}
use ai_editor.Path.{starts_with_path_segment, char_is}

-- A path is another one, or goes on behind it with a slash.
abbrev pub Within : Bytes → Bytes → Type 0
Within value prefix = (value ≡ prefix) ⊎ ((rest : Bytes) × (value ≡ prefix ++ (b'/' ∷ rest)))

segment-below :
    (value prefix : Bytes)
    → starts_with value prefix ≡ true
    → char_is value (length prefix) b'/' ≡ true
    → (rest : Bytes) × (value ≡ prefix ++ (b'/' ∷ rest))
unfolding starts_with
segment-below [] [] h k = cc
segment-below (c ∷ value) [] h k = (value, ground arith)
segment-below [] (p ∷ prefix) h k = cc
segment-below (c ∷ value) (p ∷ prefix) h k =
    let (rest, e) = segment-below value prefix (ground arith) k in (rest, ground arith)

below-segment :
    (prefix rest : Bytes)
    → (starts_with (prefix ++ (b'/' ∷ rest)) prefix ≡ true)
      × (char_is (prefix ++ (b'/' ∷ rest)) (length prefix) b'/' ≡ true)
      × (length prefix < length (prefix ++ (b'/' ∷ rest)))
unfolding starts_with
below-segment [] rest = (refl, refl, omega arith)
below-segment (p ∷ prefix) rest =
    let (a, b, c) = below-segment prefix rest in (ground arith, b, omega arith)

-- The test of the source says exactly whether a path is another one or lies below it; a common
-- prefix of the last name is not enough.
pub starts_with_path_segment_iff :
    (value prefix : Bytes) → (starts_with_path_segment value prefix ≡ true) ↔ Within value prefix
starts_with_path_segment_iff value prefix = (to, from)
  where
    to : starts_with_path_segment value prefix ≡ true → Within value prefix
    to h = elim (Bool-cases (str_eq value prefix)) [
      | inl e ↦ inl ((str_eq_iff value prefix).0 e)
      | inr e ↦ inr (
          segment-below value prefix (unfold starts_with_path_segment in ground arith)
            (unfold starts_with_path_segment in ground arith))
    ]

    from : Within value prefix → starts_with_path_segment value prefix ≡ true
    from (inl e) = unfold starts_with_path_segment in ground (arith, str_eq_iff value prefix)
    from (inr (rest, e)) =
        let (a, b, c) = below-segment prefix rest in
        unfold starts_with_path_segment in rw e (ground arith)

abbrev no_slash : Bytes → Bool
no_slash [] = true
no_slash (c ∷ name) = not (c == b'/') && no_slash name

-- A name that is one component of a path, and not the directory itself or the one above it.
abbrev pub PlainName : Bytes → Type 0
PlainName name = (no_slash name ≡ true) × (name ≢ codes ".") × (name ≢ codes "..")

pub PlainName-char_is : (name : Bytes) → PlainName name → char_is name 0 b'/' ≡ false
PlainName-char_is [] h = refl
PlainName-char_is (c ∷ name) (h, _, _) = ground arith
