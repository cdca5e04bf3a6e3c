-- ===== src/Hash.antt =====
-- The hashes of patch_service.cpp (`fnv1a64`, `hex64`, `content_hash`; session_service.cpp has the
-- same three functions again).
use Prim.Native.Nat.{bit_xor}
use ai_editor.Prelude.{
  ℕ, zero, suc, ◌+◌, ◌-◌, ◌*◌, ◌/◌, ◌%◌, ◌^◌, ◌<◌, ◌≡◌, refl, sym, ap, ◌∙◌, [], ◌∷◌, ◌++◌, arith,
  ltb, if◌then◌else◌, length, length-append,
}
use native.Mathlib.Nat.{pow-suc}
use ai_editor.Text.{Bytes}

-- One round on 64-bit words.
fnv_loop : ℕ → Bytes → ℕ
fnv_loop hash [] = hash
fnv_loop hash (c ∷ value) = fnv_loop (bit_xor hash c * 1099511628211 % 2 ^ 64) value

unfoldable pub fnv1a64 : Bytes → ℕ
unfolding fnv_loop
fnv1a64 = fnv_loop 1469598103934665603

hex_digit : ℕ → ℕ
hex_digit d = if ltb d 10 then b'0' + d else b'a' + (d - 10)

-- The last `width` hexadecimal digits, with leading zeros.
hex_digits : ℕ → ℕ → Bytes
unfolding hex_digit
hex_digits zero value = []
hex_digits (suc width) value = hex_digits width (value / 16) ++ (hex_digit (value % 16) ∷ [])

-- A 64-bit word has at most 16 digits, so `setw(16)` gives 16 of them.
unfoldable pub hex64 : ℕ → Bytes
unfolding hex_digits
hex64 = hex_digits 16

unfoldable pub content_hash : Bytes → Bytes
unfolding hex64 fnv1a64
content_hash text = hex64 (fnv1a64 text)

hex_digits-length : (width value : ℕ) → length (hex_digits width value) ≡ width
unfolding hex_digits
hex_digits-length zero value = refl
hex_digits-length (suc width) value = omega (
  arith,
  length-append (hex_digits width (value / 16)) (hex_digit (value % 16) ∷ []),
  hex_digits-length width (value / 16),
)

-- A content hash has 16 characters.
pub content_hash-length : (text : Bytes) → length (content_hash text) ≡ 16
unfolding content_hash
content_hash-length text = hex_digits-length 16 (fnv1a64 text)

fnv_loop-lt : (hash : ℕ) (value : Bytes) → hash < 2 ^ 64 → fnv_loop hash value < 2 ^ 64
unfolding fnv_loop
fnv_loop-lt hash [] h = h
fnv_loop-lt hash (c ∷ value) h =
    fnv_loop-lt (bit_xor hash c * 1099511628211 % 2 ^ 64) value (omega arith)

digit_of : ℕ → ℕ
digit_of c = if ltb c b'a' then c - b'0' else c - b'a' + 10

hex_value : ℕ → Bytes → ℕ
unfolding digit_of
hex_value acc [] = acc
hex_value acc (c ∷ text) = hex_value (acc * 16 + digit_of c) text

hex_value-append : (acc : ℕ) (s t : Bytes) → hex_value acc (s ++ t) ≡ hex_value (hex_value acc s) t
unfolding hex_value
hex_value-append acc [] t = refl
hex_value-append acc (c ∷ s) t = hex_value-append (acc * 16 + digit_of c) s t

digit_of-hex_digit : (d : ℕ) → d < 16 → digit_of (hex_digit d) ≡ d
unfolding digit_of hex_digit
digit_of-hex_digit d h = ground arith

hex_value-hex_digits :
    (width value : ℕ) → value < 16 ^ width → hex_value 0 (hex_digits width value) ≡ value
unfolding hex_digits hex_value
hex_value-hex_digits zero value h = omega arith
hex_value-hex_digits (suc width) value h =
    hex_value-append 0 (hex_digits width (value / 16)) (hex_digit (value % 16) ∷ [])
    ∙ omega (
      arith,
      digit_of-hex_digit (value % 16) (omega arith),
      hex_value-hex_digits width (value / 16) (omega (arith, pow-suc 16 width)),
    )

-- Different 64-bit words have different texts.
pub hex64_injective : (a b : ℕ) → a < 2 ^ 64 → b < 2 ^ 64 → hex64 a ≡ hex64 b → a ≡ b
unfolding hex64
hex64_injective a b ha hb e =
    sym (hex_value-hex_digits 16 a ha) ∙ ap (hex_value 0) e ∙ hex_value-hex_digits 16 b hb
