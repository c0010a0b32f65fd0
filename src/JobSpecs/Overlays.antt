-- ===== src/JobSpecs/Overlays.antt =====
-- What merging comes to: the first file that sets something wins.
use reactorcide.Prelude.{
  ◌≡◌, refl, sym, ap, ◌∙◌, subst, inl, inr, String, List, [], ◌∷◌, ◌++◌, map, Bool, true, false,
  not, Option, none, some, if◌then◌else◌, str_eq, str_eq_iff, lookup, insert, lookup-insert,
  Bool-cases, All,
}
use reactorcide.JobSpecs.Merge.{
  JobSpec, SecretOverride, copy_entries, copy_base, or_base, override_of, merge_environment,
  merge_overlay, first_file, other_files, merge_overlays, merge_job_specs, Loaded, loaded, refused,
  load_job_spec, add_overlay, load_overlays, check_command, merge_loaded, with_base,
  load_job_spec_with_overlays, default_runner_image,
}

abbrev or_else : {A : Type 0} → Option A → Option A → Option A
or_else (some a) b = some a
or_else none b = b

-- No key stands twice, as in a Go map.
abbrev pub HasUniqueKeys : List (String × String) → Type 0
HasUniqueKeys [] = Unit
HasUniqueKeys ((key, value) ∷ entries) = (lookup key entries ≡ none) × HasUniqueKeys entries

-- What the first specification that has the key says, and else the last argument.
abbrev pub first_value : String → List JobSpec → Option String → Option String
first_value key [] base = base
first_value key (spec ∷ specs) base =
    or_else (lookup key spec.environment) (first_value key specs base)

-- The first text that is set.
abbrev pub first_set : List String → String → String
first_set [] base = base
first_set (text ∷ texts) base = if not (str_eq text "") then text else first_set texts base

assigned :
    (b : Bool) (value : String) (entries env : Option String)
    → (b ≡ true → entries ≡ none)
    → or_else entries (if b then some value else env)
      ≡ or_else (if b then some value else entries) env
assigned true value none env h = refl
assigned true value (some v) env h = let e = h refl in absurd (cc)
assigned false value none env h = refl
assigned false value (some v) env h = refl

-- A key of the first entry is in none of the rest.
first_key :
    (key wanted : String) (entries : List (String × String))
    → lookup key entries ≡ none
    → str_eq key wanted ≡ true
    → lookup wanted entries ≡ none
first_key key wanted entries h e =
    subst (λ k. lookup k entries ≡ none) ((str_eq_iff key wanted).0 e) h

copied :
    (wanted : String) (entries env : List (String × String))
    → HasUniqueKeys entries
    → lookup wanted (copy_entries entries env) ≡ or_else (lookup wanted entries) (lookup wanted env)
copied wanted [] env h = refl
copied wanted ((key, value) ∷ entries) env h =
    copied wanted entries (insert key value env) h.1
    ∙ ap (or_else (lookup wanted entries)) (lookup-insert key wanted value env)
    ∙ assigned (str_eq key wanted) value (lookup wanted entries) (lookup wanted env)
        (first_key key wanted entries h.0)

or_else-none : (o : Option String) → or_else o none ≡ o
or_else-none none = refl
or_else-none (some v) = refl

merged_environment :
    (file wanted : String) (entries env : List (String × String)) (overrides : List SecretOverride)
    → HasUniqueKeys entries
    → lookup wanted (merge_environment file entries (env, overrides)).0
      ≡ or_else (lookup wanted entries) (lookup wanted env)
unfolding merge_environment
merged_environment file wanted [] env overrides h = refl
merged_environment file wanted ((key, value) ∷ entries) env overrides h =
    merged_environment file wanted entries (insert key value env)
      (overrides ++ override_of file key value (lookup key env)) h.1
    ∙ ap (or_else (lookup wanted entries)) (lookup-insert key wanted value env)
    ∙ assigned (str_eq key wanted) value (lookup wanted entries) (lookup wanted env)
        (first_key key wanted entries h.0)

-- The last overlay in the list is the one that is merged last.
last_overlay :
    (overlays : List JobSpec) (overlay : JobSpec) (files : List String)
    (merged : JobSpec × List SecretOverride)
    → (file : String) × (merge_overlays (overlays ++ overlay ∷ []) files merged
        ≡ merge_overlay file overlay (merge_overlays overlays files merged))
unfolding merge_overlays
last_overlay [] overlay files merged = (first_file files, refl)
last_overlay (o ∷ overlays) overlay files merged =
    last_overlay overlays overlay (other_files files) (merge_overlay (first_file files) o merged)

-- From the last to the first.
abbrev pub backwards : {A : Type 0} → List A → List A
backwards [] = []
backwards (x ∷ xs) = backwards xs ++ x ∷ []

abbrev Result : List JobSpec → List String → JobSpec × List SecretOverride → JobSpec
Result specs files start = (merge_overlays (backwards specs) files start).0

-- A field that an overlay may set.
abbrev Overrides : (JobSpec → String) → Type 0
Overrides get =
    (file : String) (overlay : JobSpec) (merged : JobSpec × List SecretOverride)
    → get (merge_overlay file overlay merged).0 ≡ or_base (get overlay) (get merged.0)

text_lem :
    (get : JobSpec → String) (specs : List JobSpec) (files : List String)
    (start : JobSpec × List SecretOverride)
    → Overrides get
    → get (Result specs files start) ≡ first_set (map get specs) (get start.0)
unfolding merge_overlays
text_lem get [] files start law = refl
text_lem get (spec ∷ specs) files start law =
    let last = last_overlay (backwards specs) spec files start in
    ap (λ (m : JobSpec × List SecretOverride). get m.0) last.1
    ∙ law last.0 spec (merge_overlays (backwards specs) files start)
    ∙ ap (or_base (get spec)) (text_lem get specs files start law)

environment_lem :
    (key : String) (specs : List JobSpec) (files : List String)
    (start : JobSpec × List SecretOverride)
    → All (λ spec. HasUniqueKeys spec.environment) specs
    → lookup key (Result specs files start).environment
      ≡ first_value key specs (lookup key start.0.environment)
unfolding merge_overlays merge_overlay
environment_lem key [] files start h = refl
environment_lem key (spec ∷ specs) files start h =
    let last = last_overlay (backwards specs) spec files start in
    let before = merge_overlays (backwards specs) files start in
    ap (λ (m : JobSpec × List SecretOverride). lookup key m.0.environment) last.1
    ∙ merged_environment last.0 key spec.environment before.0.environment before.1 h.0
    ∙ ap (or_else (lookup key spec.environment)) (environment_lem key specs files start h.1)

pub run_local_lem :
    (specs : List JobSpec) (files : List String) (start : JobSpec × List SecretOverride)
    → (merge_overlays specs files start).0.disable_run_local ≡ start.0.disable_run_local
unfolding merge_overlays merge_overlay
run_local_lem [] files start = refl
run_local_lem (spec ∷ specs) files start =
    run_local_lem specs (other_files files) (merge_overlay (first_file files) spec start)

-- The files read and parse as these specifications.
pub data Reads (read : String → Option JobSpec) : List String → List JobSpec → Type 0 where
  no_files : Reads read [] []
  a_file :
      {path : String} {paths : List String} {spec : JobSpec} {specs : List JobSpec}
      → read path ≡ some spec
      → Reads read paths specs
      → Reads read (path ∷ paths) (spec ∷ specs)

read_backwards :
    (read : String → Option JobSpec) (paths : List String) (specs : List JobSpec)
    → Reads read paths specs
    → load_overlays read paths ≡ loaded (backwards specs, backwards paths)
unfolding load_overlays
read_backwards read [] [] no_files = refl
read_backwards read [] (spec ∷ specs) r = elim r [ ]
read_backwards read (path ∷ paths) [] r = elim r [ ]
read_backwards read (path ∷ paths) (spec ∷ specs) (a_file e r) =
    ap (add_overlay path (read path)) (read_backwards read paths specs r)
    ∙ ap (λ o. add_overlay path o (loaded (backwards specs, backwards paths))) e

-- The text fields of a specification.
abbrev pub text_fields : List (JobSpec → String)
text_fields =
    (λ s. s.name)
    ∷ (λ s. s.command)
    ∷ (λ s. s.command_prefix)
    ∷ (λ s. s.working_dir)
    ∷ (λ s. s.code_dir)
    ∷ (λ s. s.job_dir)
    ∷ (λ s. s.cpu_limit)
    ∷ (λ s. s.memory_limit)
    ∷ []

-- Of every text field and every key of the environment, the first specification that sets it has the
-- say, and the base where none does.
abbrev pub FirstWins : List JobSpec → JobSpec → JobSpec → Type 0
FirstWins specs base merged =
    All (λ get. get merged ≡ first_set (map get specs) (get base)) text_fields
    × ((key : String)
        → lookup key merged.environment ≡ first_value key specs (lookup key base.environment))

first_set-nonempty :
    (texts : List String) (base : String)
    → str_eq base "" ≡ false
    → str_eq (first_set texts base) "" ≡ false
first_set-nonempty [] base h = h
first_set-nonempty (text ∷ texts) base h = elim (Bool-cases (str_eq text "")) [
  | inl e ↦ rw e (first_set-nonempty texts base h)
  | inr e ↦ rw e e
]

command_of : Loaded JobSpec → String
command_of (loaded spec) = spec.command
command_of (refused e) = ""

-- A job file that is loaded has a command.
load_job_spec-command :
    (base_name : String → String) (path : String) (parsed : Option JobSpec) (base : JobSpec)
    → load_job_spec base_name path parsed ≡ loaded base
    → str_eq base.command "" ≡ false
unfolding load_job_spec command_of
load_job_spec-command base_name path none base h = absurd (cc)
load_job_spec-command base_name path (some spec) base h =
    elim (Bool-cases (str_eq spec.command "")) [
      | inl e ↦ let h' = rw e at h in absurd (cc)
      | inr e ↦ subst (λ c. str_eq c "" ≡ false) (ap command_of (rw e at h)) e
    ]

module _ (base_name : String → String) (read : String → Option JobSpec) (path : String) where
  Outcome : List JobSpec → JobSpec → Loaded (JobSpec × List SecretOverride) → Type 0
  Outcome specs base r =
      (merged : JobSpec × List SecretOverride) × ((r ≡ loaded merged)
        × FirstWins specs base merged.0)

  checked :
      (specs : List JobSpec) (base : JobSpec) (merged : JobSpec × List SecretOverride)
      → str_eq base.command "" ≡ false
      → FirstWins specs base merged.0
      → Outcome specs base (check_command merged)
  unfolding Outcome
  checked specs base (merged, overrides) nonempty wins =
      let set : str_eq merged.command "" ≡ false =
        subst (λ c. str_eq c "" ≡ false) (sym wins.0.1.0)
          (first_set-nonempty (map (λ (s : JobSpec). s.command) specs) base.command nonempty) in
      (
        (record merged { image = or_base merged.image default_runner_image }, overrides),
        (rw set refl, wins),
      )

  merged_lem :
      (specs : List JobSpec) (files : List String) (base : JobSpec)
      → HasUniqueKeys base.environment
      → All (λ spec. HasUniqueKeys spec.environment) specs
      → FirstWins specs base (merge_job_specs base (backwards specs) files).0
  unfolding merge_job_specs copy_base merge_overlay
  merged_lem specs files base unique uniques = (
    (
      text_lem (λ s. s.name) specs files (copy_base base, []) (λ _ _ _. refl),
      (
        text_lem (λ s. s.command) specs files (copy_base base, []) (λ _ _ _. refl),
        (
          text_lem (λ s. s.command_prefix) specs files (copy_base base, []) (λ _ _ _. refl),
          (
            text_lem (λ s. s.working_dir) specs files (copy_base base, []) (λ _ _ _. refl),
            (
              text_lem (λ s. s.code_dir) specs files (copy_base base, []) (λ _ _ _. refl),
              (
                text_lem (λ s. s.job_dir) specs files (copy_base base, []) (λ _ _ _. refl),
                (
                  text_lem (λ s. s.cpu_limit) specs files (copy_base base, []) (λ _ _ _. refl),
                  (
                    text_lem (λ s. s.memory_limit) specs files (copy_base base, []) (λ _ _ _. refl),
                    tt,
                  ),
                ),
              ),
            ),
          ),
        ),
      ),
    ),
    λ key.
        environment_lem key specs files (copy_base base, []) uniques
        ∙ ap (first_value key specs)
            (copied key base.environment [] unique ∙ or_else-none (lookup key base.environment)),
  )

  by_paths :
      (paths : List String) (specs : List JobSpec) (base : JobSpec)
      → str_eq base.command "" ≡ false
      → Reads read paths specs
      → HasUniqueKeys base.environment
      → All (λ spec. HasUniqueKeys spec.environment) specs
      → Outcome specs base (with_base read paths (loaded base))
  unfolding with_base merge_loaded Outcome
  by_paths [] [] base nonempty no_files unique uniques = (
    (base, []),
    (refl, ((refl, (refl, (refl, (refl, (refl, (refl, (refl, (refl, tt)))))))), λ key. refl)),
  )
  by_paths [] (spec ∷ specs) base nonempty r unique uniques = elim r [ ]
  by_paths (p ∷ paths) specs base nonempty r unique uniques =
      subst (λ l. Outcome specs base (merge_loaded base l))
        (sym (read_backwards read (p ∷ paths) specs r))
        (checked specs base (merge_job_specs base (backwards specs) (backwards (p ∷ paths)))
          nonempty (merged_lem specs (backwards (p ∷ paths)) base unique uniques))

-- When the job file loads and every overlay file can be read, loading ends without an error, and of
-- every text field but the image, and of every variable of the environment, the overlay that comes
-- first in the list of files and sets it has the say, and the job file where none does.
pub load_job_spec_with_overlays-first :
    (base_name : String → String) (read : String → Option JobSpec) (path : String)
    (paths : List String) (base : JobSpec) (specs : List JobSpec)
    → load_job_spec base_name path (read path) ≡ loaded base
    → Reads read paths specs
    → HasUniqueKeys base.environment
    → All (λ spec. HasUniqueKeys spec.environment) specs
    → (merged : JobSpec × List SecretOverride) × ((load_job_spec_with_overlays base_name read path
            paths
          ≡ loaded merged)
        × FirstWins specs base merged.0)
unfolding load_job_spec_with_overlays Outcome
load_job_spec_with_overlays-first base_name read path paths base specs h r unique uniques =
    subst (λ l. Outcome base_name read path specs base (with_base read paths l)) (sym h)
      (by_paths base_name read path paths specs base
        (load_job_spec-command base_name path (read path) base h) r unique uniques)
