-- ===== src/Models/Job.antt =====
-- `Job` of store/models/job.go.
use reactorcide.Prelude.{ℕ, ℤ, String, List, Option, Bool}
use reactorcide.Models.Status.{Status}

-- The metadata that `Notes` holds as JSON (`JobMetadata` of vcs/status_updater.go).
pub record JobMetadata : Type 0 where
  pub vcs_provider : String
  pub repo : String
  pub pr_number : ℤ
  pub branch : String
  pub commit_sha : String
  pub status_context : String
  pub is_eval : Bool

-- The text `Notes`: empty, the JSON of metadata, or a text that does not parse.
pub data Notes : Type 0 where
  no_notes : Notes
  metadata : JobMetadata → Notes
  unparsed : String → Notes

-- The columns that say how a job is run. A JSON object is a list of keys and JSON texts.
pub record JobSpec : Type 0 where
  pub user_id : String
  pub project_id : Option String
  pub name : String
  pub description : String
  pub job_file : String
  pub source_url : Option String
  pub source_ref : Option String
  pub source_type : Option String
  pub source_path : Option String
  pub ci_source_type : Option String
  pub ci_source_url : Option String
  pub ci_source_ref : Option String
  pub container_image : Option String
  pub code_dir : String
  pub job_dir : String
  pub job_command : String
  pub runner_image : String
  pub job_env_vars : Option (List (String × String))
  pub job_env_file : String
  pub timeout_seconds : ℤ
  pub priority : ℤ
  pub capabilities : List String
  pub run_as_user : String
  pub queue_name : String
  pub auto_target_state : String
  pub notes : Notes
  pub event_metadata : Option (List (String × String))
  pub vcs_repo : Option String
  pub pr_number : Option ℤ
  pub commit_sha : Option String

-- `CancelMode`
pub data CancelMode : Type 0 where
  no_mode cancel_mode kill_mode : CancelMode

-- The texts that `LastError` is set to by the code that is modelled; `message` is any other.
pub data LastError : Type 0 where
  no_error cancelled_error killed_by_admin submit_failed : LastError
  message : String → LastError

pub record Job : Type 0 where
  pub job_id : String
  pub spec : JobSpec
  pub status : Status
  pub corndogs_task_id : Option String
  pub cancel_mode : CancelMode
  pub started_at : Option ℕ
  pub completed_at : Option ℕ
  pub exit_code : Option ℤ
  pub worker_id : Option String
  pub retry_count : ℤ
  pub last_error : LastError
  pub logs_object_key : String
  pub artifacts_object_key : String
  pub parent_job_id : Option String
  pub workflow_id : Option String
  pub workflow_node_id : Option String
  pub workflow_run_id : Option String
  pub workflow_node_name : String
