-- ===== src/Secrets/Access.antt =====
-- Which secrets a job may read, as the grants say it.
use mathlib.Core.Bool.{false≢true}
use mathlib.Core.List.{append_assoc}
use reactorcide.Prelude.{
  is_empty, has_prefix, ◌≡◌, refl, sym, ap, ap₂, ℕ, ◌∙◌, subst, ◌≢◌, ◌⊎◌, inl, inr, List, [], ◌∷◌,
  ◌++◌, Bool, true, false, Option, none, some, Bytes, bytes_eq, bytes_eq_iff, Bool-cases, arith,
}
use reactorcide.Secrets.Grants.{
  SecretGrantMatch, no_match_type, match_any, match_exact, match_prefix, match_glob, match_regex,
  match_unknown, trim_slash, matches_prefix, matches_type, match_grant_pattern, is_some_true,
}

-- Some element has the property.
abbrev pub Some {ℓ} : {A : Type ℓ} → (A → Type 0) → List A → Type 0
Some P [] = ⊥
Some P (x ∷ xs) = P x ⊎ Some P xs

-- A path is one of a directory's: the directory itself, or one below it.
abbrev pub Under : Bytes → Bytes → Type 0
Under dir path = (path ≡ dir) ⊎ ((rest : Bytes) × (path ≡ dir ++ 47 ∷ rest))

-- A directory that is named.
abbrev pub UnderPattern : Bytes → Bytes → Type 0
UnderPattern pattern path = (trim_slash pattern ≢ []) × Under (trim_slash pattern) path

-- A job's name begins as the pattern says.
abbrev pub BeginsPattern : Bytes → Bytes → Type 0
BeginsPattern pattern name =
    (trim_slash pattern ≢ []) × ((rest : Bytes) × (name ≡ trim_slash pattern ++ rest))

module _ (glob_match regex_match : Bytes → Bytes → Option Bool) where
  -- The secrets that a grant is for.
  abbrev pub CoversPath : SecretGrantMatch → Bytes → Bytes → Type 0
  CoversPath no_match_type pattern path = UnderPattern pattern path
  CoversPath match_prefix pattern path = UnderPattern pattern path
  CoversPath match_exact pattern path = path ≡ pattern
  CoversPath match_glob pattern path = glob_match pattern path ≡ some true
  CoversPath match_regex pattern path = regex_match pattern path ≡ some true
  CoversPath match_any pattern path = ⊥
  CoversPath (match_unknown t) pattern path = ⊥

  -- The jobs that it is for.
  abbrev pub CoversName : SecretGrantMatch → Bytes → Bytes → Type 0
  CoversName no_match_type pattern name = (pattern ≡ []) ⊎ BeginsPattern pattern name
  CoversName match_prefix pattern name = BeginsPattern pattern name
  CoversName match_exact pattern name = name ≡ pattern
  CoversName match_glob pattern name = glob_match pattern name ≡ some true
  CoversName match_regex pattern name = regex_match pattern name ≡ some true
  CoversName match_any pattern name = Unit
  CoversName (match_unknown t) pattern name = ⊥

has_prefix→ :
    (s prefix : Bytes) → has_prefix s prefix ≡ true → (rest : Bytes) × (s ≡ prefix ++ rest)
unfolding has_prefix
has_prefix→ s [] h = (s, refl)
has_prefix→ [] (c ∷ prefix) h = absurd (false≢true h)
has_prefix→ (a ∷ s) (c ∷ prefix) h =
    let same : a ≡ c = ground arith in
    let later = has_prefix→ s prefix (ground arith) in
    (later.0, ap₂ (λ (x : ℕ) (t : Bytes). x ∷ t) same later.1)

has_prefix← : (prefix rest : Bytes) → has_prefix (prefix ++ rest) prefix ≡ true
unfolding has_prefix
has_prefix← [] rest = refl
has_prefix← (c ∷ prefix) rest = ground (arith, has_prefix← prefix rest)

pub nonempty→ : (p : Bytes) → is_empty p ≡ false → p ≢ []
nonempty→ [] h e = false≢true (sym h)
nonempty→ (c ∷ p) h e = absurd (cc)

pub nonempty← : (p : Bytes) → p ≢ [] → is_empty p ≡ false
nonempty← [] h = absurd (h refl)
nonempty← (c ∷ p) h = refl

-- The prefix match of a path, and of a name.
path_prefix→ :
    (dir path : Bytes) → matches_prefix dir path false ≡ true → (dir ≢ []) × Under dir path
unfolding matches_prefix
path_prefix→ dir path h = elim (Bool-cases (is_empty dir)) [
  | inl e ↦ absurd (false≢true (rw e at h))
  | inr e ↦ elim (Bool-cases (bytes_eq path dir)) [
    | inl same ↦ (nonempty→ dir e, inl ((bytes_eq_iff path dir).0 same))
    | inr apart ↦
        let below = has_prefix→ path (dir ++ 47 ∷ []) (rw (e, apart) at h) in
        (nonempty→ dir e, inr (below.0, below.1 ∙ append_assoc dir (47 ∷ []) below.0))
  ]
]

path_prefix← :
    (dir path : Bytes) → (dir ≢ []) × Under dir path → matches_prefix dir path false ≡ true
unfolding matches_prefix
path_prefix← dir path (nonempty, inl same) =
    rw (nonempty← dir nonempty, (bytes_eq_iff path dir).1 same) refl
path_prefix← dir path (nonempty, inr (rest, below)) =
    let starts : has_prefix path (dir ++ 47 ∷ []) ≡ true =
      subst (λ p. has_prefix p (dir ++ 47 ∷ []) ≡ true)
        (append_assoc dir (47 ∷ []) rest ∙ sym below) (has_prefix← (dir ++ 47 ∷ []) rest) in
    elim (Bool-cases (bytes_eq path dir)) [
      | inl e ↦ rw (nonempty← dir nonempty, e) refl
      | inr e ↦ rw (nonempty← dir nonempty, e) starts
    ]

name_prefix→ :
    (prefix name : Bytes)
    → matches_prefix prefix name true ≡ true
    → (prefix ≢ []) × ((rest : Bytes) × (name ≡ prefix ++ rest))
unfolding matches_prefix
name_prefix→ prefix name h = elim (Bool-cases (is_empty prefix)) [
  | inl e ↦ absurd (false≢true (rw e at h))
  | inr e ↦ (nonempty→ prefix e, has_prefix→ name prefix (rw e at h))
]

name_prefix← :
    (prefix name : Bytes)
    → (prefix ≢ []) × ((rest : Bytes) × (name ≡ prefix ++ rest))
    → matches_prefix prefix name true ≡ true
unfolding matches_prefix
name_prefix← prefix name (nonempty, (rest, e)) =
    rw (nonempty← prefix nonempty)
      (subst (λ n. has_prefix n prefix ≡ true) (sym e) (has_prefix← prefix rest))

said→ : (o : Option Bool) → is_some_true o ≡ true → o ≡ some true
said→ none h = absurd (false≢true h)
said→ (some b) h = ap some h

said← : (o : Option Bool) → o ≡ some true → is_some_true o ≡ true
said← o h = ap is_some_true h

module _ (glob_match regex_match : Bytes → Bytes → Option Bool) where
  pub path_match→ :
      (t : SecretGrantMatch) (pattern path : Bytes)
      → match_grant_pattern glob_match regex_match t pattern path false ≡ true
      → CoversPath glob_match regex_match t pattern path
  unfolding match_grant_pattern matches_type
  path_match→ no_match_type pattern path h = path_prefix→ (trim_slash pattern) path h
  path_match→ match_prefix pattern path h = path_prefix→ (trim_slash pattern) path h
  path_match→ match_exact pattern path h = (bytes_eq_iff path pattern).0 h
  path_match→ match_glob pattern path h = said→ (glob_match pattern path) h
  path_match→ match_regex pattern path h = said→ (regex_match pattern path) h
  path_match→ match_any pattern path h = false≢true h
  path_match→ (match_unknown t) pattern path h = false≢true h

  pub path_match← :
      (t : SecretGrantMatch) (pattern path : Bytes)
      → CoversPath glob_match regex_match t pattern path
      → match_grant_pattern glob_match regex_match t pattern path false ≡ true
  unfolding match_grant_pattern matches_type
  path_match← no_match_type pattern path h = path_prefix← (trim_slash pattern) path h
  path_match← match_prefix pattern path h = path_prefix← (trim_slash pattern) path h
  path_match← match_exact pattern path h = (bytes_eq_iff path pattern).1 h
  path_match← match_glob pattern path h = said← (glob_match pattern path) h
  path_match← match_regex pattern path h = said← (regex_match pattern path) h
  path_match← match_any pattern path h = absurd h
  path_match← (match_unknown t) pattern path h = absurd h

  pub name_match→ :
      (t : SecretGrantMatch) (pattern name : Bytes)
      → match_grant_pattern glob_match regex_match t pattern name true ≡ true
      → CoversName glob_match regex_match t pattern name
  unfolding match_grant_pattern matches_type
  name_match→ no_match_type [] name h = inl refl
  name_match→ no_match_type (c ∷ pattern) name h =
      inr (name_prefix→ (trim_slash (c ∷ pattern)) name h)
  name_match→ match_prefix pattern name h = name_prefix→ (trim_slash pattern) name h
  name_match→ match_exact pattern name h = (bytes_eq_iff name pattern).0 h
  name_match→ match_glob pattern name h = said→ (glob_match pattern name) h
  name_match→ match_regex pattern name h = said→ (regex_match pattern name) h
  name_match→ match_any pattern name h = tt
  name_match→ (match_unknown t) pattern name h = false≢true h

  pub name_match← :
      (t : SecretGrantMatch) (pattern name : Bytes)
      → CoversName glob_match regex_match t pattern name
      → match_grant_pattern glob_match regex_match t pattern name true ≡ true
  unfolding match_grant_pattern matches_type
  name_match← no_match_type [] name h = refl
  name_match← no_match_type (c ∷ pattern) name (inl e) = absurd (cc)
  name_match← no_match_type (c ∷ pattern) name (inr h) =
      name_prefix← (trim_slash (c ∷ pattern)) name h
  name_match← match_prefix pattern name h = name_prefix← (trim_slash pattern) name h
  name_match← match_exact pattern name h = (bytes_eq_iff name pattern).1 h
  name_match← match_glob pattern name h = said← (glob_match pattern name) h
  name_match← match_regex pattern name h = said← (regex_match pattern name) h
  name_match← match_any pattern name h = refl
  name_match← (match_unknown t) pattern name h = absurd h
