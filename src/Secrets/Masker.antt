-- ===== src/Secrets/Masker.antt =====
-- The masker of secrets/masker.go.
use reactorcide.Prelude.{
  ℕ, zero, suc, ◌-◌, String, List, [], ◌∷◌, ◌++◌, map, Bool, true, false, ◌&&◌, ◌==◌, leb, Option,
  none, some, if◌then◌else◌, length, Bytes, bytes_eq, codes,
}

-- The set of secret values, without repetitions.
pub record Masker : Type 0 where
  pub secrets : List Bytes

abbrev pub new_masker : Masker
new_masker = record { secrets = [] }

unfoldable pub is_registered : List Bytes → Bytes → Bool
is_registered [] value = false
is_registered (s ∷ secrets) value = if bytes_eq s value then true else is_registered secrets value

unfoldable pub add_secret : List Bytes → Bytes → List Bytes
unfolding is_registered
add_secret secrets value = if is_registered secrets value then secrets else secrets ++ value ∷ []

unfoldable pub register_secret : Masker → Bytes → Masker
unfolding add_secret
register_secret m [] = m
register_secret m (c ∷ value) = record m { secrets = add_secret m.secrets (c ∷ value) }

unfoldable pub register_secrets : Masker → List Bytes → Masker
unfolding register_secret
register_secrets m [] = m
register_secrets m (v ∷ values) = register_secrets (register_secret m v) values

-- The values of variables; `none` is a value that is no string.
unfoldable pub register_env_vars : Masker → List (String × Option Bytes) → Masker
unfolding register_secret
register_env_vars m [] = m
register_env_vars m ((name, none) ∷ vars) = register_env_vars m vars
register_env_vars m ((name, some value) ∷ vars) = register_env_vars (register_secret m value) vars

unfoldable pub register_string_env_vars : Masker → List (String × Bytes) → Masker
unfolding register_secret
register_string_env_vars m [] = m
register_string_env_vars m ((name, value) ∷ vars) =
    register_string_env_vars (register_secret m value) vars

-- `strings.HasPrefix`, with the prefix first.
abbrev pub starts : Bytes → Bytes → Bool
starts [] text = true
starts (a ∷ s) [] = false
starts (a ∷ s) (b ∷ text) = a == b && starts s text

abbrev pub redacted : Bytes
redacted = codes "[REDACTED]"

-- `strings.ReplaceAll` of a text that is not empty by `redacted`, from the left, with the number of
-- bytes that still belong to the last occurrence.
unfoldable pub replace_from : ℕ → Bytes → Bytes → Bytes
replace_from skip old [] = []
replace_from zero old (c ∷ text) = elim (starts old (c ∷ text)) [
  | true ↦ redacted ++ replace_from (length old - 1) old text
  | false ↦ c ∷ replace_from zero old text
]
replace_from (suc skip) old (c ∷ text) = replace_from skip old text

unfoldable pub replace_all : Bytes → Bytes → Bytes
unfolding replace_from
replace_all old text = replace_from zero old text

-- The loop over the secrets, in the order in which they come.
unfoldable pub mask_in : List Bytes → Bytes → Bytes
unfolding replace_all
mask_in [] text = text
mask_in (s ∷ secrets) text = mask_in secrets (if leb 3 (length s) then replace_all s text else text)

-- `order` is the order in which a map gives its keys, which is left open.
module _ (order : List Bytes → List Bytes) where
  unfoldable pub mask_string : Masker → Bytes → Bytes
  unfolding mask_in
  mask_string m text = mask_in (order m.secrets) text

  unfoldable pub mask_command_args : Masker → List Bytes → List Bytes
  unfolding mask_string
  mask_command_args m = map (mask_string m)

unfoldable pub clear : Masker → Masker
clear m = record m { secrets = [] }

unfoldable pub size : Masker → ℕ
size m = length m.secrets
