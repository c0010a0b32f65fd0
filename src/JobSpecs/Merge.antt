-- ===== src/JobSpecs/Merge.antt =====
-- worker/job_spec.go: the merging of overlays, their loading, and the configuration of a run. Files
-- are a parameter.
use reactorcide.Prelude.{
  ℤ, pos, same_ℤ, String, List, [], ◌∷◌, ◌++◌, Bool, true, false, not, ◌&&◌, Option, none, some,
  if◌then◌else◌, str_eq, lookup, insert, Bytes, codes,
}
use reactorcide.Runtime.Build.{default_job_code_dir, default_job_dir}
use reactorcide.JobSpecs.Command.{parse_command_with_prefix, has_secret_refs, commands}

pub record RunAsSpec : Type 0 where
  pub user : String

pub record RunLocalSpec : Type 0 where
  pub as_runner : Bool
  pub user : String

pub record SourceSpec : Type 0 where
  pub source_type : String
  pub url : String
  pub ref : String
  pub path : String

-- The environment is a Go map, here a list of its entries.
pub record JobSpec : Type 0 where
  pub name : String
  pub command : String
  pub command_prefix : String
  pub image : String
  pub environment : List (String × String)
  pub source : Option SourceSpec
  pub working_dir : String
  pub code_dir : String
  pub job_dir : String
  pub capabilities : List String
  pub timeout_seconds : ℤ
  pub cpu_limit : String
  pub memory_limit : String
  pub run_as : Option RunAsSpec
  pub disable_run_local : Bool
  pub run_local : Option RunLocalSpec

pub record SecretOverride : Type 0 where
  pub key : String
  pub old_value : String
  pub new_value : String
  pub overlay_file : String

-- `DefaultRunnerImage`
abbrev pub default_runner_image : String
default_runner_image = "containers.catalystsquad.com/public/reactorcide/runnerbase:dev"

-- The copy that the merge starts from. `DisableRunLocal` is not copied.
abbrev pub copy_entries : List (String × String) → List (String × String) → List (String × String)
copy_entries [] env = env
copy_entries ((key, value) ∷ entries) env = copy_entries entries (insert key value env)

unfoldable pub copy_base : JobSpec → JobSpec
copy_base base = record base {
  environment = copy_entries base.environment [];
  disable_run_local = false;
}

-- What an overlay sets wins.
abbrev pub or_base : String → String → String
or_base overlay base = if not (str_eq overlay "") then overlay else base

abbrev pub or_timeout : ℤ → ℤ → ℤ
or_timeout overlay base = if not (same_ℤ overlay (pos 0)) then overlay else base

abbrev pub or_block : {A : Type 0} → Option A → Option A → Option A
or_block (some overlay) base = some overlay
or_block none base = base

abbrev pub or_list : List String → List String → List String
or_list [] base = base
or_list (c ∷ overlay) base = c ∷ overlay

-- The file of an overlay, if there is one for it.
abbrev pub first_file : List String → String
first_file [] = ""
first_file (file ∷ files) = file

abbrev pub other_files : List String → List String
other_files [] = []
other_files (file ∷ files) = files

-- The warnings for one entry, and for the entries of an overlay in their order.
abbrev pub override_of : String → String → String → Option String → List SecretOverride
override_of file key value none = []
override_of file key value (some old) =
    if has_secret_refs (codes old) && not (has_secret_refs (codes value))
    then record { key = key; old_value = old; new_value = value; overlay_file = file } ∷ []
    else []

unfoldable pub merge_environment :
    String
    → List (String × String)
    → List (String × String) × List SecretOverride
    → List (String × String) × List SecretOverride
merge_environment file [] merged = merged
merge_environment file ((key, value) ∷ entries) (env, overrides) =
    merge_environment file entries
      (insert key value env, overrides ++ override_of file key value (lookup key env))

unfoldable pub merge_overlay :
    String → JobSpec → JobSpec × List SecretOverride → JobSpec × List SecretOverride
merge_overlay file overlay (result, overrides) =
    let merged = merge_environment file overlay.environment (result.environment, overrides) in
    (
      record {
        name = or_base overlay.name result.name;
        command = or_base overlay.command result.command;
        command_prefix = or_base overlay.command_prefix result.command_prefix;
        image = or_base overlay.image result.image;
        environment = merged.0;
        source = or_block overlay.source result.source;
        working_dir = or_base overlay.working_dir result.working_dir;
        code_dir = or_base overlay.code_dir result.code_dir;
        job_dir = or_base overlay.job_dir result.job_dir;
        capabilities = or_list overlay.capabilities result.capabilities;
        timeout_seconds = or_timeout overlay.timeout_seconds result.timeout_seconds;
        cpu_limit = or_base overlay.cpu_limit result.cpu_limit;
        memory_limit = or_base overlay.memory_limit result.memory_limit;
        run_as = or_block overlay.run_as result.run_as;
        disable_run_local = result.disable_run_local;
        run_local = or_block overlay.run_local result.run_local;
      },
      merged.1,
    )

unfoldable pub merge_overlays :
    List JobSpec → List String → JobSpec × List SecretOverride → JobSpec × List SecretOverride
merge_overlays [] files merged = merged
merge_overlays (overlay ∷ overlays) files merged =
    merge_overlays overlays (other_files files) (merge_overlay (first_file files) overlay merged)

unfoldable pub merge_job_specs :
    JobSpec → List JobSpec → List String → JobSpec × List SecretOverride
merge_job_specs base overlays files = merge_overlays overlays files (copy_base base, [])

-- What loading can end in.
pub data LoadError : Type 0 where
  unreadable missing_command : LoadError

pub data Loaded (A : Type 0) : Type 0 where
  loaded : A → Loaded A
  refused : LoadError → Loaded A

-- `LoadJobSpec` after reading and parsing, which answered `parsed`; `base_name` is `filepath.Base`.
unfoldable pub load_job_spec : (String → String) → String → Option JobSpec → Loaded JobSpec
load_job_spec base_name path none = refused unreadable
load_job_spec base_name path (some spec) =
    if str_eq spec.command ""
    then refused missing_command
    else loaded (record spec {
      name = or_base spec.name (base_name path);
      image = or_base spec.image default_runner_image;
    })

-- The overlays are read from the last to the first, and stand in that order, with their files.
abbrev pub add_overlay :
    String
    → Option JobSpec
    → Loaded (List JobSpec × List String)
    → Loaded (List JobSpec × List String)
add_overlay path overlay (refused e) = refused e
add_overlay path none (loaded later) = refused unreadable
add_overlay path (some overlay) (loaded (overlays, files)) =
    loaded (overlays ++ overlay ∷ [], files ++ path ∷ [])

unfoldable pub load_overlays :
    (String → Option JobSpec) → List String → Loaded (List JobSpec × List String)
load_overlays read [] = loaded ([], [])
load_overlays read (path ∷ paths) = add_overlay path (read path) (load_overlays read paths)

-- The merged specification with its defaults.
abbrev pub check_command : JobSpec × List SecretOverride → Loaded (JobSpec × List SecretOverride)
check_command (merged, overrides) =
    if str_eq merged.command ""
    then refused missing_command
    else loaded (record merged { image = or_base merged.image default_runner_image }, overrides)

unfoldable pub merge_loaded :
    JobSpec → Loaded (List JobSpec × List String) → Loaded (JobSpec × List SecretOverride)
merge_loaded base (refused e) = refused e
merge_loaded base (loaded (overlays, files)) = check_command (merge_job_specs base overlays files)

abbrev pub no_overlays : List String → Bool
no_overlays [] = true
no_overlays (path ∷ paths) = false

unfoldable pub with_base :
    (String → Option JobSpec)
    → List String
    → Loaded JobSpec
    → Loaded (JobSpec × List SecretOverride)
with_base read paths (refused e) = refused e
with_base read [] (loaded base) = loaded (base, [])
with_base read (path ∷ paths) (loaded base) = merge_loaded base (load_overlays read (path ∷ paths))

-- `read` reads and parses a file.
unfoldable pub load_job_spec_with_overlays :
    (String → String)
    → (String → Option JobSpec)
    → String
    → List String
    → Loaded (JobSpec × List SecretOverride)
load_job_spec_with_overlays base_name read path overlay_paths =
    with_base read overlay_paths (load_job_spec base_name path (read path))

-- `JobConfig`, as far as `ToJobConfig` sets it; the user of the container is left out.
pub record JobConfig : Type 0 where
  pub image : String
  pub command : List Bytes
  pub env : List (String × String)
  pub workspace_dir : String
  pub source_mount_path : String
  pub working_dir : String
  pub capabilities : List String
  pub timeout_seconds : ℤ
  pub cpu_limit : String
  pub memory_limit : String
  pub job_id : String
  pub queue_name : String

abbrev pub with_queue : String → List (String × String) → List (String × String)
with_queue queue env = if not (str_eq queue "") then insert "REACTORCIDE_QUEUE" queue env else env

abbrev pub job_env :
    String → String → String → String → List (String × String) → List (String × String)
job_env job_id queue code_dir job_dir env = insert "REACTORCIDE_JOB_DIR" job_dir (
    insert "REACTORCIDE_CODE_DIR" code_dir (
      insert "REACTORCIDE_IN_CONTAINER" "true" (
        insert "REACTORCIDE_TRIGGERS_FILE" "/job/triggers.json"
          (with_queue queue (insert "REACTORCIDE_JOB_ID" job_id (copy_entries env []))))))

unfoldable pub to_job_config : JobSpec → String → String → String → JobConfig
unfolding default_job_code_dir default_job_dir
to_job_config spec workspace_dir job_id queue = record {
  image = spec.image;
  command = parse_command_with_prefix (codes spec.command) (codes spec.command_prefix);
  env =
      job_env job_id queue (default_job_code_dir spec.code_dir)
        (default_job_dir spec.code_dir spec.job_dir) spec.environment;
  workspace_dir = workspace_dir;
  source_mount_path = default_job_code_dir spec.code_dir;
  working_dir = or_base spec.working_dir (default_job_dir spec.code_dir spec.job_dir);
  capabilities = spec.capabilities;
  timeout_seconds = spec.timeout_seconds;
  cpu_limit = spec.cpu_limit;
  memory_limit = spec.memory_limit;
  job_id = job_id;
  queue_name = queue;
}

-- All of this file, for proofs that run it.
unfoldable pub merging : Unit {0}
unfolding copy_base merge_environment merge_overlay merge_overlays merge_job_specs load_job_spec
    load_overlays merge_loaded with_base load_job_spec_with_overlays to_job_config commands
merging = tt
