-- ===== src/Runtime/Build.antt =====
-- `buildJobFromTrigger` of worker/trigger_processor.go, with `ApplyToJob` of
-- vcs/status_updater.go and the default directories of worker/job_spec.go.
use Prim.Native.String.{◌++◌ as text_append}
use reactorcide.Prelude.{
  pos, ltb_ℤ, String, List, [], ◌∷◌, false, not, Option, none, some, if◌then◌else◌, str_eq, insert,
}
use reactorcide.Models.Status.{submitted}
use reactorcide.Models.Job.{
  JobMetadata, Notes, no_notes, metadata, unparsed, JobSpec, no_mode, no_error, Job,
}
use reactorcide.Models.Workflow.{TriggerJobSpec}

unfoldable pub default_job_code_dir : String → String
default_job_code_dir code_dir = if str_eq code_dir "" then "/job/src" else code_dir

unfoldable pub default_job_dir : String → String → String
unfolding default_job_code_dir
default_job_dir code_dir job_dir =
    if not (str_eq job_dir "") then job_dir else default_job_code_dir code_dir

-- `ApplyToJob`: the metadata becomes the notes, and what it has of repository, pull request and
-- commit goes into columns.
unfoldable pub apply_to_job : JobMetadata → JobSpec → JobSpec
apply_to_job m spec = record spec {
  notes = metadata m;
  vcs_repo = if not (str_eq m.repo "") then some m.repo else spec.vcs_repo;
  pr_number = if ltb_ℤ (pos 0) m.pr_number then some m.pr_number else spec.pr_number;
  commit_sha = if not (str_eq m.commit_sha "") then some m.commit_sha else spec.commit_sha;
}

-- The notes of a child job: the parent's, no longer as an eval job, with a status check of its own.
unfoldable pub copy_notes : String → Notes → JobSpec → JobSpec
unfolding apply_to_job
copy_notes job_name no_notes spec = spec
copy_notes job_name (metadata m) spec =
    apply_to_job (record m { is_eval = false; status_context = job_name }) spec
copy_notes job_name (unparsed s) spec = record spec { notes = unparsed s }

-- `some s`, unless `s` is empty.
abbrev pub optional : String → Option String
optional s = if not (str_eq s "") then some s else none

abbrev pub value_or : {A : Type 0} → Option A → A → A
value_or none d = d
value_or (some a) d = a

abbrev pub overlay : List (String × String) → List (String × String) → List (String × String)
overlay base [] = base
overlay base ((k, v) ∷ env) = overlay (insert k v base) env

abbrev code_dir_of : TriggerJobSpec → JobSpec → String
unfolding default_job_code_dir
code_dir_of spec parent =
    if not (str_eq spec.code_dir "")
    then default_job_code_dir spec.code_dir
    else default_job_code_dir parent.code_dir

-- The last of the assignments to `JobDir` that is made.
unfoldable pub job_dir_of : TriggerJobSpec → JobSpec → String
unfolding default_job_code_dir default_job_dir
job_dir_of spec parent =
    if not (str_eq spec.working_dir "")
    then spec.working_dir
    else if not (str_eq spec.job_dir "")
    then default_job_dir (code_dir_of spec parent) spec.job_dir
    else if not (str_eq spec.code_dir "")
    then default_job_dir (code_dir_of spec parent) ""
    else default_job_dir parent.code_dir parent.job_dir

-- The columns of the job, all but the notes.
unfoldable pub spec_from_trigger : TriggerJobSpec → String → JobSpec → JobSpec
unfolding job_dir_of default_job_code_dir
spec_from_trigger spec parent_id parent = record {
  user_id = parent.user_id;
  project_id = parent.project_id;
  name = spec.job_name;
  description = text_append "Triggered by eval job " parent_id;
  job_file = spec.job_file;
  source_url = optional spec.source_url;
  source_ref = optional spec.source_ref;
  source_type = optional spec.source_type;
  source_path = none;
  ci_source_type = optional spec.ci_source_type;
  ci_source_url = optional spec.ci_source_url;
  ci_source_ref = optional spec.ci_source_ref;
  container_image = none;
  code_dir = code_dir_of spec parent;
  job_dir = job_dir_of spec parent;
  job_command = spec.job_command;
  runner_image =
      if not (str_eq spec.container_image "") then spec.container_image else parent.runner_image;
  job_env_vars = some (overlay (value_or parent.job_env_vars []) spec.env);
  job_env_file = "";
  timeout_seconds = value_or spec.timeout parent.timeout_seconds;
  priority = value_or spec.priority (pos 0);
  capabilities = spec.capabilities;
  run_as_user = spec.run_as_user;
  queue_name = parent.queue_name;
  auto_target_state = "";
  notes = no_notes;
  event_metadata = parent.event_metadata;
  vcs_repo = none;
  pr_number = none;
  commit_sha = none;
}

unfoldable pub build_job_from_trigger : TriggerJobSpec → Job → Job
unfolding spec_from_trigger copy_notes
build_job_from_trigger spec parent = record {
  job_id = "";
  spec =
      copy_notes spec.job_name parent.spec.notes (spec_from_trigger spec parent.job_id parent.spec);
  status = submitted;
  corndogs_task_id = none;
  cancel_mode = no_mode;
  started_at = none;
  completed_at = none;
  exit_code = none;
  worker_id = none;
  retry_count = pos 0;
  last_error = no_error;
  logs_object_key = "";
  artifacts_object_key = "";
  parent_job_id = some parent.job_id;
  workflow_id = none;
  workflow_node_id = none;
  workflow_run_id = none;
  workflow_node_name = "";
}
