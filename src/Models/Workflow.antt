-- ===== src/Models/Workflow.antt =====
-- `WorkflowInstance`, `WorkflowNode` and `WorkflowEvent` of store/models/workflow.go, and
-- `triggerJobSpec` of worker/trigger_processor.go, which a node's `JobSpec` holds as JSON.
use reactorcide.Prelude.{ℕ, ℤ, String, List, Option, Bytes}
use reactorcide.Models.Status.{Status}

pub record TriggerJobSpec : Type 0 where
  pub job_file : String
  pub job_name : String
  pub depends_on : List String
  pub condition : String
  pub env : List (String × String)
  pub source_type : String
  pub source_url : String
  pub source_ref : String
  pub ci_source_type : String
  pub ci_source_url : String
  pub ci_source_ref : String
  pub container_image : String
  pub job_command : String
  pub code_dir : String
  pub job_dir : String
  pub working_dir : String
  pub run_as_user : String
  pub priority : Option ℤ
  pub timeout : Option ℤ
  pub capabilities : List String

-- One constructor for each text that a decision or an event gives as its reason.
pub data Reason : Type 0 where
  no_reason : Reason
  unregistered waiting_on : String → Reason
  dependencies_terminal all_success_false all_success_true always_true : Reason
  any_failed_true any_failed_false : Reason
  unsupported : Bytes → Reason
  node_ready submit_error job_running : Reason
  job_finished : Status → Reason
  killed_reason cancelled_reason retried_reason : Reason
  status_change : Status → Status → Reason
  cause : String → Reason

pub record WorkflowNode : Type 0 where
  pub node_id : String
  pub workflow_id : String
  pub name : String
  pub display_name : String
  pub status : Status
  pub depends_on : List String
  pub condition : Bytes
  pub job_id : Option String
  pub job_spec : TriggerJobSpec
  pub item_index : Option ℕ
  pub item_value : Option String
  pub item_var : String
  pub decision_reason : Reason
  pub completed_at : Option ℕ
  pub last_successful_duration_ms : Option ℕ

pub record WorkflowInstance : Type 0 where
  pub workflow_id : String
  pub user_id : String
  pub project_id : Option String
  pub parent_job_id : Option String
  pub name : String
  pub status : Status
  pub queue_name : String
  pub vcs_provider : String
  pub vcs_repo : String
  pub pr_number : Option ℤ
  pub commit_sha : String
  pub status_context : String
  pub comment_marker : String
  pub completed_at : Option ℕ
  pub last_error : String

-- `Details` of an event is read by nothing that is modelled, and is left out.
pub record WorkflowEvent : Type 0 where
  pub workflow_id : String
  pub node_id : Option String
  pub job_id : Option String
  pub event_type : String
  pub reason : Reason

-- `WorkflowVar`; the value is its JSON text, and its hash is left out.
pub record WorkflowVar : Type 0 where
  pub workflow_id : String
  pub key : Bytes
  pub value : String
  pub source_node_id : Option String
  pub source_job_id : Option String
