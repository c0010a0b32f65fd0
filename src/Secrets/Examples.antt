-- ===== src/Secrets/Examples.antt =====
-- Masking of small texts.
use reactorcide.Prelude.{
  ◌≡◌, refl, ◌↔◌, ◌⊎◌, List, [], ◌∷◌, Bool, true, false, Option, none, some, Bytes, codes, arith,
}
use reactorcide.Scheduler.Contains.{Occurs}
use reactorcide.Secrets.Grants.{
  SecretGrant, SecretJob, match_prefix, grants_of, authorize_secret_access,
  list_secret_grants_for_job, granting,
}
use reactorcide.Secrets.Access.{Some}
use reactorcide.Secrets.Allowed.{OwnPath, Grants, authorize_secret_access_iff}
use reactorcide.Secrets.Masker.{
  new_masker, register_secret, register_secrets, mask_string, mask_command_args,
}
use reactorcide.Secrets.Absent.{register_secret-mask_string}

abbrev given : List Bytes → List Bytes
given secrets = secrets

abbrev token : Bytes
token = codes "tok-1"

masked_command :
    mask_command_args given
      (register_secret new_masker token)
      (codes "curl" ∷ codes "-Htok-1tok-1" ∷ [])
    ≡ codes "curl" ∷ codes "-H[REDACTED][REDACTED]" ∷ []
unfolding mask_command_args register_secret
masked_command = refl

-- Of two secrets the shorter begins the longer: if it comes first, the rest of the longer is left.
rest_is_left :
    mask_string given
      (register_secrets new_masker (codes "abc" ∷ codes "abcdef" ∷ []))
      (codes "abcdef")
    ≡ codes "[REDACTED]def"
unfolding mask_string register_secrets
rest_is_left = refl

rest_is_masked :
    mask_string given
      (register_secrets new_masker (codes "abcdef" ∷ codes "abc" ∷ []))
      (codes "abcdef")
    ≡ codes "[REDACTED]"
unfolding mask_string register_secrets
rest_is_masked = refl

register_secret-mask_string_example :
    ¬ Occurs token (mask_string given (register_secret new_masker token) (codes "-Htok-1"))
register_secret-mask_string_example =
    register_secret-mask_string given new_masker token (codes "-Htok-1") (λ secrets s i. i)
      (omega arith) (omega arith)

-- A grant of a directory of secrets to deployments, and one of everything to no one.
abbrev deploy_grant : SecretGrant
deploy_grant = record {
  grant_id = "g";
  user_id = "u";
  project_id = none;
  secret_path_match = match_prefix;
  secret_path_pattern = codes "prod/db/";
  job_name_match = match_prefix;
  job_name_pattern = codes "deploy/";
}

abbrev job_called : Bytes → SecretJob
job_called name = record {
  job_id = codes "j";
  user_id = "u";
  project_id = some (codes "p");
  name = name;
  job_file = codes "ci.yaml";
}

abbrev never_matches : Bytes → Bytes → Option Bool
never_matches pattern value = none

abbrev allowed : Bytes → Bytes → Bool
allowed name path =
    authorize_secret_access never_matches never_matches
      (grants_of (list_secret_grants_for_job (deploy_grant ∷ []) "u" (some (codes "p"))))
      (job_called name) path

reads_below : allowed (codes "deploy/web") (codes "prod/db/main") ≡ true
unfolding granting
reads_below = refl

not_a_sibling : allowed (codes "deploy/web") (codes "prod/dbx") ≡ false
unfolding granting
not_a_sibling = refl

own_secrets : allowed (codes "other") (codes "projects/p/jobs/ci.yaml") ≡ true
unfolding granting
own_secrets = refl

-- The slash at the end of a job pattern counts for nothing.
another_job : allowed (codes "deployer") (codes "prod/db/main") ≡ true
unfolding granting
another_job = refl

authorize_secret_access_iff_example :
    (allowed (codes "deploy/web") (codes "prod/db/main") ≡ true) ↔ (
      OwnPath (job_called (codes "deploy/web")) (codes "prod/db/main")
      ⊎ Some
          (Grants never_matches never_matches
            (job_called (codes "deploy/web"))
            (codes "prod/db/main"))
          (deploy_grant ∷ []))
authorize_secret_access_iff_example =
    authorize_secret_access_iff never_matches never_matches (deploy_grant ∷ [])
      (job_called (codes "deploy/web")) (codes "prod/db/main")
