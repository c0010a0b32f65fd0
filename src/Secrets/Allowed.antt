-- ===== src/Secrets/Allowed.antt =====
-- Access to a secret, from the table of grants.
use mathlib.Core.Bool.{false≢true}
use reactorcide.Prelude.{
  is_empty, ◌≡◌, refl, sym, ◌∙◌, ◌↔◌, ◌≢◌, ◌⊎◌, inl, inr, List, [], ◌∷◌, ◌++◌, Bool, true, false,
  not, ◌&&◌, Option, none, some, if◌then◌else◌, str_eq, str_eq_iff, Bytes, codes, bytes_eq,
  bytes_eq_iff, Bool-cases,
}
use reactorcide.Secrets.Grants.{
  SecretGrant, SecretJob, project_scoped, is_job_scoped_secret, match_grant_pattern,
  grant_matches_secret, any_grant, grants_of, authorize_secret_access, project_allows,
  list_secret_grants_for_job,
}
use reactorcide.Secrets.Access.{
  Some, CoversPath, CoversName, nonempty→, nonempty←, path_match→, path_match←, name_match→,
  name_match←,
}

-- The secrets of the project and file of a job.
abbrev pub ProjectPath : Option Bytes → Bytes → Bytes → Type 0
ProjectPath none job_file path = ⊥
ProjectPath (some project) job_file path =
    (project ≢ [])
    × ((job_file ≢ []) × (path ≡ codes "projects/" ++ (project ++ (codes "/jobs/" ++ job_file))))

-- A job's own secrets.
abbrev pub OwnPath : SecretJob → Bytes → Type 0
OwnPath job path =
    ((job.job_id ≢ []) × (path ≡ codes "jobs/" ++ job.job_id))
    ⊎ ProjectPath job.project_id job.job_file path

-- A grant is for all projects, or for the job's.
abbrev pub ForProject : Option Bytes → Option Bytes → Type 0
ForProject none project = Unit
ForProject (some granted) none = ⊥
ForProject (some granted) (some project) = (project ≢ []) × (granted ≡ project)

and→ : (a b : Bool) → (a && b) ≡ true → (a ≡ true) × (b ≡ true)
and→ true b h = (refl, h)
and→ false b h = absurd (false≢true h)

and← : (a b : Bool) → a ≡ true → b ≡ true → (a && b) ≡ true
and← a b p q = rw (p, q) refl

both : (a b : Bool) → (if not a then false else b) ≡ true → (a ≡ true) × (b ≡ true)
both true b h = (refl, h)
both false b h = absurd (false≢true h)

blank→ : (s : Bytes) → not (is_empty s) ≡ true → s ≢ []
blank→ [] h e = false≢true h
blank→ (c ∷ s) h e = nonempty→ (c ∷ s) refl e

blank← : (s : Bytes) → s ≢ [] → not (is_empty s) ≡ true
blank← s h = rw (nonempty← s h) refl

project→ :
    (project : Option Bytes) (job_file path : Bytes)
    → project_scoped project job_file path ≡ true
    → ProjectPath project job_file path
project→ none job_file path h = false≢true h
project→ (some project) job_file path h =
    elim (Bool-cases (not (is_empty project) && not (is_empty job_file))) [
      | inl e ↦
          let both = and→ (not (is_empty project)) (not (is_empty job_file)) e in
          (blank→ project both.0, (blank→ job_file both.1, (bytes_eq_iff path _).0 (rw e at h)))
      | inr e ↦ absurd (false≢true (rw e at h))
    ]

project← :
    (project : Option Bytes) (job_file path : Bytes)
    → ProjectPath project job_file path
    → project_scoped project job_file path ≡ true
project← none job_file path h = absurd h
project← (some project) job_file path (p, (f, e)) =
    rw (blank← project p, blank← job_file f) ((bytes_eq_iff path _).1 e)

own→ : (job : SecretJob) (path : Bytes) → is_job_scoped_secret job path ≡ true → OwnPath job path
unfolding is_job_scoped_secret
own→ job path h =
    elim (Bool-cases (not (is_empty job.job_id) && bytes_eq path (codes "jobs/" ++ job.job_id))) [
      | inl e ↦
          let both =
            and→ (not (is_empty job.job_id)) (bytes_eq path (codes "jobs/" ++ job.job_id)) e in
          inl (blank→ job.job_id both.0, (bytes_eq_iff path _).0 both.1)
      | inr e ↦ inr (project→ job.project_id job.job_file path (rw e at h))
    ]

own← : (job : SecretJob) (path : Bytes) → OwnPath job path → is_job_scoped_secret job path ≡ true
unfolding is_job_scoped_secret
own← job path (inl (nonempty, e)) =
    rw (blank← job.job_id nonempty, (bytes_eq_iff path (codes "jobs/" ++ job.job_id)).1 e) refl
own← job path (inr h) =
    elim (Bool-cases (not (is_empty job.job_id) && bytes_eq path (codes "jobs/" ++ job.job_id))) [
      | inl e ↦ rw e refl
      | inr e ↦ rw e (project← job.project_id job.job_file path h)
    ]

allows→ :
    (granted project : Option Bytes)
    → project_allows granted project ≡ true
    → ForProject granted project
allows→ none project h = tt
allows→ (some granted) none h = false≢true h
allows→ (some granted) (some project) h = elim (Bool-cases (is_empty project)) [
  | inl e ↦ absurd (false≢true (rw e at h))
  | inr e ↦ (nonempty→ project e, (bytes_eq_iff granted project).0 (rw e at h))
]

allows← :
    (granted project : Option Bytes)
    → ForProject granted project
    → project_allows granted project ≡ true
allows← none project h = refl
allows← (some granted) none h = absurd h
allows← (some granted) (some project) (nonempty, e) =
    rw (nonempty← project nonempty) ((bytes_eq_iff granted project).1 e)

module _ (glob_match regex_match : Bytes → Bytes → Option Bool) where
  -- A grant lets a job read a secret.
  abbrev pub Grants : SecretJob → Bytes → SecretGrant → Type 0
  Grants job path grant =
      (grant.user_id ≡ job.user_id)
      × (ForProject grant.project_id job.project_id
          × (CoversName glob_match regex_match grant.job_name_match grant.job_name_pattern job.name
              × CoversPath glob_match regex_match grant.secret_path_match grant.secret_path_pattern
                  path))

  -- The test of one row, by the query and then by its patterns.
  abbrev row_test : SecretJob → Bytes → SecretGrant → Bool
  row_test job path grant =
      (str_eq grant.user_id job.user_id && project_allows grant.project_id job.project_id)
      && grant_matches_secret glob_match regex_match grant job path

  row→ :
      (job : SecretJob) (path : Bytes) (grant : SecretGrant)
      → row_test job path grant ≡ true
      → Grants job path grant
  unfolding grant_matches_secret
  row→ job path grant h =
      let query_then = and→ _ _ h in
      let query = and→ (str_eq grant.user_id job.user_id) _ query_then.0 in
      let patterns =
        both
          (match_grant_pattern glob_match regex_match grant.job_name_match grant.job_name_pattern
            job.name true)
          _ query_then.1 in
      (
        (str_eq_iff grant.user_id job.user_id).0 query.0,
        (
          allows→ grant.project_id job.project_id query.1,
          (
            name_match→ glob_match regex_match grant.job_name_match grant.job_name_pattern job.name
                patterns.0,
            path_match→ glob_match regex_match grant.secret_path_match grant.secret_path_pattern
                path patterns.1,
          ),
        ),
      )

  row← :
      (job : SecretJob) (path : Bytes) (grant : SecretGrant)
      → Grants job path grant
      → row_test job path grant ≡ true
  unfolding grant_matches_secret
  row← job path grant (user, (project, (name, secret))) =
      rw
        (
          (str_eq_iff grant.user_id job.user_id).1 user,
          allows← grant.project_id job.project_id project,
          name_match← glob_match regex_match grant.job_name_match grant.job_name_pattern job.name
              name,
        )
        (path_match← glob_match regex_match grant.secret_path_match grant.secret_path_pattern path
          secret)

  any_row : SecretJob → Bytes → List SecretGrant → Bool
  any_row job path table =
      any_grant glob_match regex_match (list_secret_grants_for_job table job.user_id job.project_id)
        job path

  -- The query and the loop after it, as one test for each row.
  any_row_step :
      (job : SecretJob) (path : Bytes) (grant : SecretGrant) (table : List SecretGrant)
      → any_row job path (grant ∷ table)
        ≡ (if row_test job path grant then true else any_row job path table)
  unfolding any_row any_grant list_secret_grants_for_job
  any_row_step job path grant table =
      by_query (str_eq grant.user_id job.user_id && project_allows grant.project_id job.project_id)
    where
      rest : List SecretGrant
      rest = list_secret_grants_for_job table job.user_id job.project_id

      by_query :
          (b : Bool)
          → any_grant glob_match regex_match (if b then grant ∷ rest else rest) job path ≡ (
              if b && grant_matches_secret glob_match regex_match grant job path
              then true
              else any_grant glob_match regex_match rest job path)
      by_query true = refl
      by_query false = refl

  any_row→ :
      (job : SecretJob) (path : Bytes) (table : List SecretGrant)
      → any_row job path table ≡ true
      → Some (Grants job path) table
  unfolding any_row list_secret_grants_for_job any_grant
  any_row→ job path [] h = false≢true h
  any_row→ job path (grant ∷ table) h =
      let h' = sym (any_row_step job path grant table) ∙ h in
      elim (Bool-cases (row_test job path grant)) [
        | inl e ↦ inl (row→ job path grant e)
        | inr e ↦ inr (any_row→ job path table (rw e at h'))
      ]

  any_row← :
      (job : SecretJob) (path : Bytes) (table : List SecretGrant)
      → Some (Grants job path) table
      → any_row job path table ≡ true
  unfolding any_row list_secret_grants_for_job any_grant
  any_row← job path [] h = absurd h
  any_row← job path (grant ∷ table) (inl h) =
      any_row_step job path grant table ∙ rw (row← job path grant h) refl
  any_row← job path (grant ∷ table) (inr h) =
      any_row_step job path grant table
      ∙ either (row_test job path grant) (any_row← job path table h)
    where
      either : (b : Bool) {c : Bool} → c ≡ true → (if b then true else c) ≡ true
      either true e = refl
      either false e = e

-- A job is given a secret exactly where the secret is one of the job's own, or of its project and file,
-- or the table has a grant of the job's user, for all projects or for the job's, whose job name
-- pattern covers the job's name and whose secret pattern covers the path. A prefix of secrets covers
-- a path itself and what is below it, never a sibling that begins alike; the empty prefix covers
-- nothing; the match type any covers every job name and no secret, and an unknown one nothing.
pub authorize_secret_access_iff :
    (glob_match regex_match : Bytes → Bytes → Option Bool) (table : List SecretGrant)
    (job : SecretJob) (path : Bytes)
    → (authorize_secret_access glob_match regex_match
          (grants_of (list_secret_grants_for_job table job.user_id job.project_id))
          job
          path
        ≡ true)
      ↔ (OwnPath job path ⊎ Some (Grants glob_match regex_match job path) table)
unfolding authorize_secret_access any_row
authorize_secret_access_iff glob_match regex_match table job path = (
  λ h. elim (Bool-cases (is_job_scoped_secret job path)) [
    | inl e ↦ inl (own→ job path e)
    | inr e ↦ inr (any_row→ glob_match regex_match job path table (rw e at h))
  ],
  λ h. elim h [
    | inl own ↦ rw (own← job path own) refl
    | inr some_row ↦ elim (Bool-cases (is_job_scoped_secret job path)) [
      | inl e ↦ rw e refl
      | inr e ↦ rw e (any_row← glob_match regex_match job path table some_row)
    ]
  ],
)
