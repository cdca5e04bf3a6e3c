-- ===== src/Patch/Diff.antt =====
-- `split_lines` and `make_context_diff`.
pub mod Rewrites
use ai_editor.Prelude.{
  ℕ, zero, suc, ◌+◌, ◌-◌, min, Bool, true, false, ◌&&◌, List, [], ◌∷◌, ◌++◌, Option, none, some,
  length, take, drop, get_elem?, ltb, if◌then◌else◌,
}
use ai_editor.Text.{Bytes, codes, str_eq}
use ai_editor.Text.Decimal.{to_decimal}
use ai_editor.Document.{line_loop, close_lines}

unfoldable pub split_lines : Bytes → List Bytes
unfolding line_loop
split_lines text = close_lines text (line_loop text [])

-- The loop that counts `prefix`.
unfoldable pub common_prefix : List Bytes → List Bytes → ℕ
common_prefix [] new_lines = 0
common_prefix (o ∷ old_lines) [] = 0
common_prefix (o ∷ old_lines) (n ∷ new_lines) =
    let rest = common_prefix old_lines new_lines in if str_eq o n then suc rest else 0

-- `old_lines[i] == new_lines[j]`
unfoldable pub same_line : List Bytes → List Bytes → ℕ → ℕ → Bool
same_line old_lines new_lines i j = elim (get_elem? old_lines i) [
  | none ↦ false
  | some o ↦ elim (get_elem? new_lines j) [ none ↦ false | some n ↦ str_eq o n ]
]

-- The loop that lowers `old_suffix` and `new_suffix`.
unfoldable pub suffix_loop : List Bytes → List Bytes → ℕ → ℕ → ℕ → ℕ × ℕ
unfolding same_line
suffix_loop old_lines new_lines prefix zero new_suffix = (zero, new_suffix)
suffix_loop old_lines new_lines prefix (suc i) zero = (suc i, zero)
suffix_loop old_lines new_lines prefix (suc i) (suc j) =
    let rest = suffix_loop old_lines new_lines prefix i j in
    if ltb prefix (suc i) && ltb prefix (suc j) && same_line old_lines new_lines i j
    then rest
    else (suc i, suc j)

-- What the two texts differ in: `prefix`, `old_suffix` and `new_suffix`.
pub record Hunk : Type 0 where
  pub prefix : ℕ
  pub old_suffix : ℕ
  pub new_suffix : ℕ

unfoldable pub hunk_of : List Bytes → List Bytes → Hunk
unfolding common_prefix suffix_loop
hunk_of old_lines new_lines =
    let prefix = common_prefix old_lines new_lines in
    let (old_suffix, new_suffix) =
      suffix_loop old_lines new_lines prefix (length old_lines) (length new_lines) in
    record { prefix = prefix; old_suffix = old_suffix; new_suffix = new_suffix }

-- The lines from `first` up to `last`, that one left out.
abbrev pub between : ℕ → ℕ → List Bytes → List Bytes
between first last lines = take (last - first) (drop first lines)

marked : Bytes → List Bytes → Bytes
marked mark [] = []
marked mark (line ∷ lines) = mark ++ (line ++ (codes "\n" ++ marked mark lines))

-- The texts of the hunk.
hunk_text : List Bytes → List Bytes → Hunk → Bytes
unfolding marked to_decimal
hunk_text old_lines new_lines hunk =
    let start = if ltb 3 hunk.prefix then hunk.prefix - 3 else 0 in
    let old_end = min (length old_lines) (hunk.old_suffix + 3) in
    let new_end = min (length new_lines) (hunk.new_suffix + 3) in
    codes "@@ -"
    ++ (to_decimal (start + 1)
        ++ (codes ","
            ++ (to_decimal (old_end - start)
                ++ (codes " +"
                    ++ (to_decimal (start + 1)
                        ++ (codes ","
                            ++ (to_decimal (new_end - start)
                                ++ (codes " @@\n"
                                    ++ (marked (codes " ")
                                          (between start (min hunk.prefix old_end) old_lines)
                                        ++ (marked (codes "-")
                                              (between hunk.prefix hunk.old_suffix old_lines)
                                            ++ (marked (codes "+")
                                                  (between hunk.prefix hunk.new_suffix new_lines)
                                                ++ marked (codes " ") (
                                                    between hunk.old_suffix old_end
                                                      old_lines))))))))))))

unfoldable pub make_context_diff : Bytes → Bytes → Bytes → Bytes
unfolding hunk_text hunk_of split_lines
make_context_diff rel_path old_text new_text =
    codes "--- a/"
    ++ (rel_path
        ++ (codes "\n+++ b/"
            ++ (rel_path
                ++ (codes "\n"
                    ++ (if str_eq old_text new_text
                        then codes "@@ no changes @@\n"
                        else hunk_text (split_lines old_text) (split_lines new_text)
                            (hunk_of (split_lines old_text) (split_lines new_text)))))))
