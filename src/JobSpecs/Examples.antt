-- ===== src/JobSpecs/Examples.antt =====
-- Commands and overlays that are tried out.
use reactorcide.Prelude.{
  ◌≡◌, refl, pos, String, List, [], ◌∷◌, map, true, false, Option, none, some, codes, lookup,
  str_eq, if◌then◌else◌,
}
use reactorcide.JobSpecs.Command.{
  parse_simple_command, parse_command, parse_command_with_prefix, has_secret_refs, commands,
}
use reactorcide.JobSpecs.Words.{
  Word, plain, escape, single, double, bare, slashed, source_words, values,
  parse_simple_command-source_words,
}
use reactorcide.JobSpecs.Merge.{
  JobSpec, SecretOverride, merge_job_specs, load_job_spec, load_job_spec_with_overlays, loaded,
  refused, missing_command, unreadable, to_job_config, merging,
}
use reactorcide.JobSpecs.Overlays.{no_files, a_file, FirstWins, load_job_spec_with_overlays-first}
use reactorcide.JobSpecs.RunLocal.{load_job_spec_with_overlays-unmarked}

splits :
    parse_command (codes "make  test 'all of it'")
    ≡ codes "make" ∷ codes "test" ∷ codes "all of it" ∷ []
unfolding commands
splits = refl

-- An empty argument is lost.
loses_empty : parse_command (codes "grep '' file") ≡ codes "grep" ∷ codes "file" ∷ []
unfolding commands
loses_empty = refl

expands : parse_command (codes " echo $HOME ") ≡ codes "sh" ∷ codes "-c" ∷ codes "echo $HOME" ∷ []
unfolding commands
expands = refl

other_shell :
    parse_command_with_prefix (codes "echo ${A}") (codes "bash -e -c")
    ≡ codes "bash" ∷ codes "-e -c" ∷ codes "echo ${A}" ∷ []
unfolding commands
other_shell = refl

wrapped_already :
    parse_command (codes "SH -c 'echo $A'") ≡ codes "SH" ∷ codes "-c" ∷ codes "echo $A" ∷ []
unfolding commands
wrapped_already = refl

price : parse_command (codes "echo $5") ≡ codes "echo" ∷ codes "$5" ∷ []
unfolding commands
price = refl

-- a\ b 'x"' "c\"" ''
abbrev sample_words : List Word
sample_words =
    (plain 97 refl ∷ escape 32 ∷ plain 98 refl ∷ [])
    ∷ (single (120 ∷ 34 ∷ []) (refl, (refl, tt)) ∷ [])
    ∷ (double (bare 99 refl ∷ slashed 34 ∷ []) ∷ [])
    ∷ (single [] tt ∷ [])
    ∷ []

parse_simple_command-source_words_example :
    parse_simple_command (source_words sample_words) ≡ values sample_words
parse_simple_command-source_words_example = parse_simple_command-source_words sample_words

sample_values : values sample_words ≡ (97 ∷ 32 ∷ 98 ∷ []) ∷ (120 ∷ 34 ∷ []) ∷ (99 ∷ 34 ∷ []) ∷ []
sample_values = refl

abbrev blank_spec : JobSpec
blank_spec = record {
  name = "";
  command = "";
  command_prefix = "";
  image = "";
  environment = [];
  source = none;
  working_dir = "";
  code_dir = "";
  job_dir = "";
  capabilities = [];
  timeout_seconds = pos 0;
  cpu_limit = "";
  memory_limit = "";
  run_as = none;
  disable_run_local = false;
  run_local = none;
}

abbrev deploy : JobSpec
deploy = record blank_spec {
  command = "deploy";
  environment = ("TOKEN", "${secret:ci:token}") ∷ ("ZONE", "a") ∷ [];
  disable_run_local = true;
}

abbrev local_overlay : JobSpec
local_overlay = record blank_spec {
  environment = ("TOKEN", "plain") ∷ [];
  working_dir = "/local";
  disable_run_local = true;
}

abbrev zone_overlay : JobSpec
zone_overlay = record blank_spec {
  environment = ("ZONE", "b") ∷ ("TOKEN", "other") ∷ [];
  working_dir = "/zone";
}

abbrev files : String → Option JobSpec
files path =
    if str_eq path "deploy.yaml"
    then some deploy
    else if str_eq path "local.yaml"
    then some local_overlay
    else if str_eq path "zone.yaml"
    then some zone_overlay
    else none

abbrev loaded_deploy : JobSpec
loaded_deploy = record deploy {
  name = "deploy.yaml";
  image = "containers.catalystsquad.com/public/reactorcide/runnerbase:dev";
}

warns_once :
    (merge_job_specs deploy (zone_overlay ∷ local_overlay ∷ []) ("zone.yaml" ∷ [])).1
    ≡ record {
      key = "TOKEN";
      old_value = "${secret:ci:token}";
      new_value = "other";
      overlay_file = "zone.yaml";
    }
      ∷ []
unfolding merging
warns_once = refl

-- The command of an overlay does not help a job file without one.
needs_command :
    load_job_spec_with_overlays (λ p. p) files "zone.yaml" ("deploy.yaml" ∷ [])
    ≡ refused missing_command
unfolding merging
needs_command = refl

missing_file :
    load_job_spec_with_overlays (λ p. p) files "deploy.yaml" ("local.yaml" ∷ "nowhere" ∷ [])
    ≡ refused unreadable
unfolding merging
missing_file = refl

refers :
    map has_secret_refs
      (codes "x${secret:a/b:k}" ∷ codes "${secret::k}" ∷ codes "${secret:a:}" ∷ [])
    ≡ true ∷ false ∷ false ∷ []
unfolding commands
refers = refl

configured : lookup "REACTORCIDE_JOB_DIR" (to_job_config deploy "/tmp" "j" "").env ≡ some "/job/src"
unfolding merging
configured = refl

deploy_loads : load_job_spec (λ p. p) "deploy.yaml" (files "deploy.yaml") ≡ loaded loaded_deploy
unfolding merging
deploy_loads = refl

load_job_spec_with_overlays-first_example :
    (merged : JobSpec × List SecretOverride) × ((load_job_spec_with_overlays
          (λ p. p)
          files
          "deploy.yaml"
          ("local.yaml" ∷ "zone.yaml" ∷ [])
        ≡ loaded merged)
      × FirstWins (local_overlay ∷ zone_overlay ∷ []) loaded_deploy merged.0)
load_job_spec_with_overlays-first_example =
    load_job_spec_with_overlays-first (λ p. p) files "deploy.yaml" ("local.yaml" ∷ "zone.yaml" ∷ [])
      loaded_deploy (local_overlay ∷ zone_overlay ∷ []) deploy_loads
      (a_file refl (a_file refl no_files)) (refl, (refl, tt)) ((refl, tt), ((refl, (refl, tt)), tt))

abbrev merged_deploy : JobSpec × List SecretOverride
merged_deploy = (
  record loaded_deploy {
    environment = ("TOKEN", "plain") ∷ ("ZONE", "a") ∷ [];
    working_dir = "/local";
    disable_run_local = false;
  },
  record {
    key = "TOKEN";
    old_value = "${secret:ci:token}";
    new_value = "plain";
    overlay_file = "local.yaml";
  }
      ∷ [],
)

deploy_merged :
    load_job_spec_with_overlays (λ p. p) files "deploy.yaml" ("local.yaml" ∷ [])
    ≡ loaded merged_deploy
unfolding merging
deploy_merged = refl

load_job_spec_with_overlays-unmarked_example : merged_deploy.0.disable_run_local ≡ false
load_job_spec_with_overlays-unmarked_example =
    load_job_spec_with_overlays-unmarked (λ p. p) files "deploy.yaml" "local.yaml" [] merged_deploy
      deploy_merged
