-- ===== src/Secrets/Absent.antt =====
-- What is no longer in a text once it has been masked.
use mathlib.Core.List.{Memᴰ}
use mathlib.Core.Bool.{false≢true}
use reactorcide.Prelude.{
  ◌≡◌, refl, sym, subst, inl, inr, ℕ, zero, ◌≤◌, List, [], ◌∷◌, ◌++◌, Bool, true, false, Bool-cases,
  leb, if◌then◌else◌, length, Bytes, bytes_eq, bytes_eq_iff, arith,
}
use reactorcide.Scheduler.Contains.{Occurs}
use reactorcide.Secrets.Masker.{
  Masker, replace_from, replace_all, mask_in, mask_string, is_registered, add_secret,
  register_secret,
}
use reactorcide.Secrets.Replace.{
  IsApart, Contains, Occurs→Contains, Contains-replace_from, replace_from_lem,
}

-- One step of the loop adds no occurrence.
step_keeps :
    (a : ℕ) (p s text : Bytes)
    → IsApart (a ∷ p)
    → Contains (a ∷ p) (if leb 3 (length s) then replace_all s text else text)
    → Contains (a ∷ p) text
unfolding replace_all
step_keeps a p s text h = by_case (leb 3 (length s))
  where
    by_case :
        (b : Bool)
        → Contains (a ∷ p) (if b then replace_from zero s text else text)
        → Contains (a ∷ p) text
    by_case true k = Contains-replace_from a p s zero text h k
    by_case false k = k

mask_in_keeps :
    (a : ℕ) (p : Bytes) (secrets : List Bytes) (text : Bytes)
    → IsApart (a ∷ p)
    → Contains (a ∷ p) (mask_in secrets text)
    → Contains (a ∷ p) text
unfolding mask_in
mask_in_keeps a p [] text h k = k
mask_in_keeps a p (s ∷ secrets) text h k = step_keeps a p s text h (mask_in_keeps a p secrets _ h k)

mask_in_lem :
    (a : ℕ) (p : Bytes) (secrets : List Bytes) (text : Bytes)
    → IsApart (a ∷ p)
    → 3 ≤ length (a ∷ p)
    → Memᴰ (a ∷ p) secrets
    → Contains (a ∷ p) (mask_in secrets text)
    → ⊥
unfolding mask_in replace_all
mask_in_lem a p [] text h long i k = elim i [ ]
mask_in_lem a p (s ∷ secrets) text h long (Memᴰ.tail i) k =
    mask_in_lem a p secrets (if leb 3 (length s) then replace_all s text else text) h long i k
mask_in_lem a p (s ∷ secrets) text h long (Memᴰ.head e) k = replace_from_lem a p zero text h (
    subst (λ b. Contains (a ∷ p) (if b then replace_from zero (a ∷ p) text else text)) enough
      (subst (λ q. Contains (a ∷ p) (if leb 3 (length q) then replace_from zero q text else text))
        (sym e) (mask_in_keeps a p secrets _ h k)))
  where
    enough : leb 3 (length (a ∷ p)) ≡ true
    enough = ground (arith, long)

mask_string_lem :
    (order : List Bytes → List Bytes) (m : Masker) (secret text : Bytes)
    → Memᴰ secret (order m.secrets)
    → 3 ≤ length secret
    → IsApart secret
    → ¬ Occurs secret (mask_string order m text)
unfolding mask_string
mask_string_lem order m [] text i long h o = absurd (ground arith)
mask_string_lem order m (a ∷ p) text i long h (before, after, e) =
    mask_in_lem a p (order m.secrets) text h long i
      (subst (Contains (a ∷ p)) (sym e) (Occurs→Contains (a ∷ p) before after))

is_registered-Memᴰ :
    (secrets : List Bytes) (value : Bytes) → is_registered secrets value ≡ true → Memᴰ value secrets
unfolding is_registered
is_registered-Memᴰ [] value h = absurd (false≢true h)
is_registered-Memᴰ (s ∷ secrets) value h = elim (Bool-cases (bytes_eq s value)) [
  | inl e ↦ Memᴰ.head (sym ((bytes_eq_iff s value).0 e))
  | inr e ↦ Memᴰ.tail (is_registered-Memᴰ secrets value (rw e at h))
]

Memᴰ-last : (secrets : List Bytes) (value : Bytes) → Memᴰ value (secrets ++ value ∷ [])
Memᴰ-last [] value = Memᴰ.head refl
Memᴰ-last (s ∷ secrets) value = Memᴰ.tail (Memᴰ-last secrets value)

add_secret-Memᴰ : (secrets : List Bytes) (value : Bytes) → Memᴰ value (add_secret secrets value)
unfolding add_secret
add_secret-Memᴰ secrets value = elim (Bool-cases (is_registered secrets value)) [
  | inl e ↦ rw e (is_registered-Memᴰ secrets value e)
  | inr e ↦ rw e (Memᴰ-last secrets value)
]

-- Every key of the map is met.
abbrev pub MeetsAll : (List Bytes → List Bytes) → Type 0
MeetsAll order = (secrets : List Bytes) (s : Bytes) → Memᴰ s secrets → Memᴰ s (order secrets)

-- In whatever order the map gives its keys, if it gives all of them: once it is registered, a secret of
-- at least three bytes that has no byte of `[REDACTED]` does not occur in a masked text, whatever other
-- secrets there are.
pub register_secret-mask_string :
    (order : List Bytes → List Bytes) (m : Masker) (secret text : Bytes)
    → MeetsAll order
    → 3 ≤ length secret
    → IsApart secret
    → ¬ Occurs secret (mask_string order (register_secret m secret) text)
unfolding register_secret
register_secret-mask_string order m [] text all long h o = absurd (ground arith)
register_secret-mask_string order m (a ∷ p) text all long h o =
    mask_string_lem order (register_secret m (a ∷ p)) (a ∷ p) text
      (all (add_secret m.secrets (a ∷ p)) (a ∷ p) (add_secret-Memᴰ m.secrets (a ∷ p))) long h o
