-- ===== src/Secrets/Grants.antt =====
-- worker/secret_authorization.go: `authorizeSecretAccess` and the matching of grants, with the query of
-- store/postgres_store/secret_grant_operations.go. `path.Match` and `regexp.MatchString` are parameters that
-- answer nothing for a pattern that is malformed.
use reactorcide.Prelude.{
  is_empty, has_prefix, String, List, [], ◌∷◌, ◌++◌, Bool, true, false, not, ◌&&◌, ◌||◌, ◌==◌,
  Option, none, some, if◌then◌else◌, str_eq, Bytes, codes, bytes_eq,
}

pub data SecretGrantMatch : Type 0 where
  no_match_type match_any match_exact match_prefix match_glob match_regex : SecretGrantMatch
  match_unknown : String → SecretGrantMatch

pub record SecretGrant : Type 0 where
  pub grant_id : String
  pub user_id : String
  pub project_id : Option Bytes
  pub secret_path_match : SecretGrantMatch
  pub secret_path_pattern : Bytes
  pub job_name_match : SecretGrantMatch
  pub job_name_pattern : Bytes

-- The columns of the job that count here.
pub record SecretJob : Type 0 where
  pub job_id : Bytes
  pub user_id : String
  pub project_id : Option Bytes
  pub name : Bytes
  pub job_file : Bytes

-- `strings.TrimSuffix` of a slash (47).
unfoldable pub trim_slash : Bytes → Bytes
trim_slash [] = []
trim_slash (c ∷ []) = if c == 47 then [] else c ∷ []
trim_slash (c ∷ d ∷ s) = c ∷ trim_slash (d ∷ s)

-- The path of a job's project secrets, if the job has a project and a file.
abbrev pub project_scoped : Option Bytes → Bytes → Bytes → Bool
project_scoped none job_file path = false
project_scoped (some project) job_file path =
    if not (is_empty project) && not (is_empty job_file)
    then bytes_eq path (codes "projects/" ++ (project ++ (codes "/jobs/" ++ job_file)))
    else false

unfoldable pub is_job_scoped_secret : SecretJob → Bytes → Bool
is_job_scoped_secret job path =
    if not (is_empty job.job_id) && bytes_eq path (codes "jobs/" ++ job.job_id)
    then true
    else project_scoped job.project_id job.job_file path

-- The match type where none is given.
abbrev pub default_match : Bytes → Bool → SecretGrantMatch → SecretGrantMatch
default_match pattern allow_any no_match_type =
    if allow_any && is_empty pattern then match_any else match_prefix
default_match pattern allow_any match_any = match_any
default_match pattern allow_any match_exact = match_exact
default_match pattern allow_any match_prefix = match_prefix
default_match pattern allow_any match_glob = match_glob
default_match pattern allow_any match_regex = match_regex
default_match pattern allow_any (match_unknown t) = match_unknown t

abbrev pub is_some_true : Option Bool → Bool
is_some_true none = false
is_some_true (some b) = b

unfoldable pub matches_prefix : Bytes → Bytes → Bool → Bool
matches_prefix prefix value allow_any =
    if is_empty prefix
    then false
    else if allow_any
    then has_prefix value prefix
    else bytes_eq value prefix || has_prefix value (prefix ++ 47 ∷ [])

-- The store has no grants, its query fails, or it answers these.
pub data GrantAnswer : Type 0 where
  no_grant_store grant_error : GrantAnswer
  grants_of : List SecretGrant → GrantAnswer

module _ (glob_match regex_match : Bytes → Bytes → Option Bool) where
  unfoldable pub matches_type : SecretGrantMatch → Bytes → Bytes → Bool → Bool
  matches_type match_any pattern value allow_any = allow_any
  matches_type match_exact pattern value allow_any = bytes_eq value pattern
  matches_type match_prefix pattern value allow_any =
      matches_prefix (trim_slash pattern) value allow_any
  matches_type match_glob pattern value allow_any = is_some_true (glob_match pattern value)
  matches_type match_regex pattern value allow_any = is_some_true (regex_match pattern value)
  matches_type no_match_type pattern value allow_any = false
  matches_type (match_unknown t) pattern value allow_any = false

  unfoldable pub match_grant_pattern : SecretGrantMatch → Bytes → Bytes → Bool → Bool
  match_grant_pattern match_type pattern value allow_any =
      matches_type (default_match pattern allow_any match_type) pattern value allow_any

  unfoldable pub grant_matches_secret : SecretGrant → SecretJob → Bytes → Bool
  grant_matches_secret grant job path =
      if not (match_grant_pattern grant.job_name_match grant.job_name_pattern job.name true)
      then false
      else match_grant_pattern grant.secret_path_match grant.secret_path_pattern path false

  unfoldable pub any_grant : List SecretGrant → SecretJob → Bytes → Bool
  any_grant [] job path = false
  any_grant (grant ∷ grants) job path =
      if grant_matches_secret grant job path then true else any_grant grants job path

  abbrev pub by_grants : GrantAnswer → SecretJob → Bytes → Bool
  by_grants no_grant_store job path = false
  by_grants grant_error job path = false
  by_grants (grants_of grants) job path = any_grant grants job path

  -- Whether access is granted.
  unfoldable pub authorize_secret_access : GrantAnswer → SecretJob → Bytes → Bool
  authorize_secret_access answer job path =
      if is_job_scoped_secret job path then true else by_grants answer job path

-- `ListSecretGrantsForJob`: grants of the user, for all projects or for this one.
abbrev pub project_allows : Option Bytes → Option Bytes → Bool
project_allows none project = true
project_allows (some granted) none = false
project_allows (some granted) (some project) =
    if is_empty project then false else bytes_eq granted project

unfoldable pub list_secret_grants_for_job :
    List SecretGrant → String → Option Bytes → List SecretGrant
list_secret_grants_for_job [] user project = []
list_secret_grants_for_job (grant ∷ grants) user project =
    let rest = list_secret_grants_for_job grants user project in
    if str_eq grant.user_id user && project_allows grant.project_id project
    then grant ∷ rest
    else rest

-- All of this file, for proofs that run it.
unfoldable pub granting : Unit {0}
unfolding has_prefix trim_slash is_job_scoped_secret matches_prefix matches_type match_grant_pattern
    grant_matches_secret any_grant authorize_secret_access list_secret_grants_for_job
granting = tt
