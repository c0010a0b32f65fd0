-- ===== src/Secrets/Replace.antt =====
-- What one replacement leaves of the texts that occurred before.
use mathlib.Core.Bool.{false≢true}
use reactorcide.Prelude.{
  ◌≡◌, refl, sym, ◌∙◌, ◌≢◌, ◌⊎◌, inl, inr, ℕ, zero, suc, ◌-◌, [], ◌∷◌, ◌++◌, Bool, true, false,
  ◌&&◌, ◌==◌, length, drop, All, Bytes, arith,
}
use reactorcide.Secrets.Masker.{starts, redacted, replace_from}

-- No byte of `s` is one of the replacement.
abbrev pub IsApart : Bytes → Type 0
IsApart = All (λ a. All (λ b. a ≢ b) redacted)

-- `s` starts somewhere in the text.
abbrev pub Contains : Bytes → Bytes → Type 0
Contains s [] = starts s [] ≡ true
Contains s (c ∷ text) = (starts s (c ∷ text) ≡ true) ⊎ Contains s text

starts-append : (s after : Bytes) → starts s (s ++ after) ≡ true
starts-append [] after = refl
starts-append (a ∷ s) after = ground (arith, starts-append s after)

here_first : (s text : Bytes) → starts s text ≡ true → Contains s text
here_first s [] h = h
here_first s (c ∷ text) h = inl h

pub Occurs→Contains : (s before after : Bytes) → Contains s (before ++ (s ++ after))
Occurs→Contains s [] after = here_first s (s ++ after) (starts-append s after)
Occurs→Contains s (b ∷ before) after = inr (Occurs→Contains s before after)

Contains-drop : (s : Bytes) (n : ℕ) (text : Bytes) → Contains s (drop n text) → Contains s text
Contains-drop s zero text h = h
Contains-drop s (suc n) [] h = h
Contains-drop s (suc n) (c ∷ text) h = inr (Contains-drop s n text h)

-- A byte that starts no `s` hides none.
Contains-after :
    (a : ℕ) (s other rest : Bytes)
    → All (λ b. a ≢ b) other
    → Contains (a ∷ s) (other ++ rest)
    → Contains (a ∷ s) rest
Contains-after a s [] rest h k = k
Contains-after a s (b ∷ other) rest h (inl e) = absurd (ground arith)
Contains-after a s (b ∷ other) rest h (inr k) = Contains-after a s other rest h.1 k

and_map : (a : Bool) {x y : Bool} → (x ≡ true → y ≡ true) → (a && x) ≡ true → (a && y) ≡ true
and_map true f h = f h
and_map false f h = h

-- A text that starts with `p`, which has nothing of the replacement, started with it before.
starts-replace_from :
    (p old : Bytes) (n : ℕ) (text : Bytes)
    → IsApart p
    → starts p (replace_from n old text) ≡ true
    → starts p (drop n text) ≡ true
unfolding replace_from
starts-replace_from [] old n text h e = refl
starts-replace_from (a ∷ p) old zero [] h e = e
starts-replace_from (a ∷ p) old (suc n) [] h e = e
starts-replace_from (a ∷ p) old (suc n) (c ∷ text) h e = starts-replace_from (a ∷ p) old n text h e
starts-replace_from (a ∷ p) old zero (c ∷ text) h e =
    by_case (starts old (c ∷ text)) (starts-replace_from p old zero text h.1) e
  where
    by_case :
        (b : Bool)
        → (starts p (replace_from zero old text) ≡ true → starts p text ≡ true)
        → starts (a ∷ p) (elim b [
          | true ↦ redacted ++ replace_from (length old - 1) old text
          | false ↦ c ∷ replace_from zero old text
        ])
          ≡ true
        → starts (a ∷ p) (c ∷ text) ≡ true
    by_case true ih k = absurd (ground arith)
    by_case false ih k = and_map (a == c) ih k

-- What occurs in a text after a replacement, and has nothing of it, occurred before.
pub Contains-replace_from :
    (a : ℕ) (p old : Bytes) (n : ℕ) (text : Bytes)
    → IsApart (a ∷ p)
    → Contains (a ∷ p) (replace_from n old text)
    → Contains (a ∷ p) (drop n text)
unfolding replace_from
Contains-replace_from a p old zero [] h k = k
Contains-replace_from a p old (suc n) [] h k = k
Contains-replace_from a p old (suc n) (c ∷ text) h k = Contains-replace_from a p old n text h k
Contains-replace_from a p old zero (c ∷ text) h k =
    by_case (starts old (c ∷ text)) (Contains-replace_from a p old (length old - 1) text h)
      (Contains-replace_from a p old zero text h) k
  where
    by_case :
        (b : Bool)
        → (Contains (a ∷ p) (replace_from (length old - 1) old text)
            → Contains (a ∷ p) (drop (length old - 1) text))
        → (Contains (a ∷ p) (replace_from zero old text) → Contains (a ∷ p) text)
        → Contains (a ∷ p) (elim b [
          | true ↦ redacted ++ replace_from (length old - 1) old text
          | false ↦ c ∷ replace_from zero old text
        ])
        → Contains (a ∷ p) (c ∷ text)
    by_case true jumped stepped k =
        inr (
          Contains-drop (a ∷ p) (length old - 1) text
            (jumped (Contains-after a p redacted _ h.0 k)))
    by_case false jumped stepped (inl e) =
        inl (and_map (a == c) (starts-replace_from p old zero text h.1) e)
    by_case false jumped stepped (inr k) = inr (stepped k)

-- Nothing of a text that is replaced is left, if it has nothing of the replacement.
pub replace_from_lem :
    (a : ℕ) (s : Bytes) (n : ℕ) (text : Bytes)
    → IsApart (a ∷ s)
    → Contains (a ∷ s) (replace_from n (a ∷ s) text)
    → ⊥
unfolding replace_from
replace_from_lem a s zero [] h k = false≢true k
replace_from_lem a s (suc n) [] h k = false≢true k
replace_from_lem a s (suc n) (c ∷ text) h k = replace_from_lem a s n text h k
replace_from_lem a s zero (c ∷ text) h k =
    by_case (starts (a ∷ s) (c ∷ text)) refl (replace_from_lem a s (length (a ∷ s) - 1) text h)
      (replace_from_lem a s zero text h) k
  where
    by_case :
        (b : Bool)
        → starts (a ∷ s) (c ∷ text) ≡ b
        → (Contains (a ∷ s) (replace_from (length (a ∷ s) - 1) (a ∷ s) text) → ⊥)
        → (Contains (a ∷ s) (replace_from zero (a ∷ s) text) → ⊥)
        → Contains (a ∷ s) (elim b [
          | true ↦ redacted ++ replace_from (length (a ∷ s) - 1) (a ∷ s) text
          | false ↦ c ∷ replace_from zero (a ∷ s) text
        ])
        → ⊥
    by_case true e jumped stepped k = jumped (Contains-after a s redacted _ h.0 k)
    by_case false e jumped stepped (inl q) =
        false≢true (sym e ∙ and_map (a == c) (starts-replace_from s (a ∷ s) zero text h.1) q)
    by_case false e jumped stepped (inr k) = stepped k
