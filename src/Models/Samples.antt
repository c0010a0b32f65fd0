-- ===== src/Models/Samples.antt =====
-- Rows and a state to try the definitions on.
use mathlib.Core.Bool.{false≢true}
use reactorcide.Prelude.{
  ◌≡◌, ◌≢◌, sym, ◌∙◌, false, str_eq, str_eq_iff, pos, String, List, [], ◌∷◌, none, some, Bytes,
}
use reactorcide.Models.Status.{Status, running}
use reactorcide.Models.Job.{JobSpec, no_notes, no_mode, no_error, Job}
use reactorcide.Models.Workflow.{TriggerJobSpec, no_reason, WorkflowNode, WorkflowInstance}

abbrev pub trigger : TriggerJobSpec
trigger = record {
  job_file = "build.yaml";
  job_name = "build";
  depends_on = [];
  condition = "";
  env = ("CI", "true") ∷ [];
  source_type = "git";
  source_url = "https://example.org/site.git";
  source_ref = "main";
  ci_source_type = "";
  ci_source_url = "";
  ci_source_ref = "";
  container_image = "";
  job_command = "make";
  code_dir = "";
  job_dir = "";
  working_dir = "";
  run_as_user = "";
  priority = some (pos 7);
  timeout = none;
  capabilities = [];
}

abbrev pub job_spec : JobSpec
job_spec = record {
  user_id = "u";
  project_id = none;
  name = "eval";
  description = "";
  job_file = "eval.yaml";
  source_url = none;
  source_ref = none;
  source_type = none;
  source_path = none;
  ci_source_type = none;
  ci_source_url = none;
  ci_source_ref = none;
  container_image = none;
  code_dir = "/job/src";
  job_dir = "/job/src";
  job_command = "eval";
  runner_image = "runner";
  job_env_vars = none;
  job_env_file = "";
  timeout_seconds = pos 3600;
  priority = pos 5;
  capabilities = [];
  run_as_user = "";
  queue_name = "jobs";
  auto_target_state = "";
  notes = no_notes;
  event_metadata = none;
  vcs_repo = none;
  pr_number = none;
  commit_sha = none;
}

-- A job with a status, and a task at Corndogs.
abbrev pub job : String → Status → Job
job id status = record {
  job_id = id;
  spec = job_spec;
  status = status;
  corndogs_task_id = some "task";
  cancel_mode = no_mode;
  started_at = some 100;
  completed_at = none;
  exit_code = none;
  worker_id = none;
  retry_count = pos 0;
  last_error = no_error;
  logs_object_key = "logs/1";
  artifacts_object_key = "";
  parent_job_id = none;
  workflow_id = some "wf";
  workflow_node_id = none;
  workflow_run_id = none;
  workflow_node_name = "";
}

-- A node with its key (also its name), status, dependencies and condition.
abbrev pub node : String → Status → List String → Bytes → WorkflowNode
node id status depends_on condition = record {
  node_id = id;
  workflow_id = "wf";
  name = id;
  display_name = id;
  status = status;
  depends_on = depends_on;
  condition = condition;
  job_id = none;
  job_spec = trigger;
  item_index = none;
  item_value = none;
  item_var = "";
  decision_reason = no_reason;
  completed_at = none;
  last_successful_duration_ms = none;
}

abbrev pub workflow : WorkflowInstance
workflow = record {
  workflow_id = "wf";
  user_id = "u";
  project_id = none;
  parent_job_id = some "parent";
  name = "ci";
  status = running;
  queue_name = "jobs";
  vcs_provider = "";
  vcs_repo = "";
  pr_number = none;
  commit_sha = "";
  status_context = "";
  comment_marker = "";
  completed_at = none;
  last_error = "";
}

-- Two names that are not the same.
pub apart : (a b : String) → str_eq a b ≡ false → a ≢ b
apart a b h e = false≢true (sym h ∙ (str_eq_iff a b).1 e)
