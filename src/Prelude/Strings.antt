-- ===== src/Prelude/Strings.antt =====
-- What the program uses of Go's package strings, on texts of code points.
use Prim.Native.Nat.{ℕ}
use Prim.Native.Char.{code}
use Prim.Native.String.{String}
use text.Mathlib.Text.{◌==◌ as str_eq}
use mathlib.Core.Bool.{Bool, true, false, ◌&&◌, ◌||◌}
use mathlib.Core.List.{[], ◌∷◌}
use reactorcide.Prelude.Tests.{◌==◌, leb, if◌then◌else◌}
use reactorcide.Prelude.Text.{Bytes}

-- The characters that `strings.TrimSpace` cuts off.
unfoldable pub is_space : ℕ → Bool
is_space c =
    leb 9 c && leb c 13
    || c == 32
    || c == 0x85
    || c == 0xa0
    || c == 0x1680
    || leb 0x2000 c && leb c 0x200a
    || c == 0x2028
    || c == 0x2029
    || c == 0x202f
    || c == 0x205f
    || c == 0x3000

unfoldable pub trim_left : Bytes → Bytes
unfolding is_space
trim_left [] = []
trim_left (c ∷ s) = if is_space c then trim_left s else c ∷ s

abbrev pub is_empty : Bytes → Bool
is_empty [] = true
is_empty (c ∷ s) = false

unfoldable pub trim_right : Bytes → Bytes
unfolding is_space
trim_right [] = []
trim_right (c ∷ s) = let rest = trim_right s in if is_empty rest && is_space c then [] else c ∷ rest

unfoldable pub trim_space : Bytes → Bytes
unfolding trim_left trim_right
trim_space s = trim_right (trim_left s)

-- `strings.HasPrefix`
unfoldable pub has_prefix : Bytes → Bytes → Bool
has_prefix s [] = true
has_prefix [] (c ∷ prefix) = false
has_prefix (a ∷ s) (c ∷ prefix) = a == c && has_prefix s prefix

-- `strings.TrimSpace`, on a text of the language.
unfoldable pub trim_left_text : String → String
unfolding is_space
trim_left_text String.[] = ""
trim_left_text (String.◌∷◌ c s) =
    let rest = trim_left_text s in if is_space (code c) then rest else String.◌∷◌ c s

unfoldable pub trim_right_text : String → String
unfolding is_space
trim_right_text String.[] = ""
trim_right_text (String.◌∷◌ c s) =
    let rest = trim_right_text s in
    if str_eq rest "" && is_space (code c) then "" else String.◌∷◌ c rest

unfoldable pub trim_text : String → String
unfolding trim_left_text trim_right_text
trim_text s = trim_right_text (trim_left_text s)
