-- ===== src/Prelude/Text.antt =====
-- Text as its bytes, where the program walks or slices it.
use Prim.Native.Nat.{ℕ}
use Prim.Native.Char.{code}
use Prim.Native.String.{String}
use mathlib.Core.Path.{◌≡◌, refl, subst}
use mathlib.Core.Logic.{◌↔◌}
use mathlib.Core.Bool.{Bool, true, false, ◌&&◌}
use mathlib.Core.List.{List, [], ◌∷◌}
use native.Mathlib.Omega.{arith}
use reactorcide.Prelude.Tests.{◌==◌}

abbrev pub Bytes : Type 0
Bytes = List ℕ

-- The code points of a text: its bytes, if it is ASCII. `String` has its own `[]` and `∷`.
abbrev pub codes : String → Bytes
codes String.[] = []
codes (String.◌∷◌ c s) = code c ∷ codes s

abbrev pub bytes_eq : Bytes → Bytes → Bool
bytes_eq [] [] = true
bytes_eq (a ∷ s) (b ∷ t) = a == b && bytes_eq s t
bytes_eq _ _ = false

bytes_eq→≡ : (s t : Bytes) → bytes_eq s t ≡ true → s ≡ t
bytes_eq→≡ [] [] h = refl
bytes_eq→≡ [] (b ∷ t) h = ground arith
bytes_eq→≡ (a ∷ s) [] h = ground arith
bytes_eq→≡ (a ∷ s) (b ∷ t) h = ground (arith, bytes_eq→≡ s t)

pub bytes_eq_refl : (s : Bytes) → bytes_eq s s ≡ true
bytes_eq_refl [] = refl
bytes_eq_refl (a ∷ s) = ground (arith, bytes_eq_refl s)

pub bytes_eq_iff : (s t : Bytes) → (bytes_eq s t ≡ true) ↔ (s ≡ t)
bytes_eq_iff s t = (bytes_eq→≡ s t, λ e. subst (λ u. bytes_eq s u ≡ true) e (bytes_eq_refl s))
