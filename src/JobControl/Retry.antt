-- ===== src/JobControl/Retry.antt =====
-- jobcontrol/retry.go: `RetryJob`, `RetryWorkflow`, `RetryUnsuccessfulJobs`.
use reactorcide.Prelude.{
  pos, add64, String, List, [], ◌∷◌, Bool, true, false, not, Option, none, some, if◌then◌else◌,
  str_eq,
}
use reactorcide.Models.Status.{
  Status, submitted, failed, running, evaluating, pending, is_retryable, is_workflow_retryable,
}
use reactorcide.Models.Job.{Job, no_mode, no_error, submit_failed}
use reactorcide.Models.Workflow.{WorkflowNode, WorkflowInstance, no_reason, retried_reason}
use reactorcide.Store.World.{
  Error, not_found, not_retryable, workflow_not_retryable, workflows_unsupported, Result, ok, err,
  M, ◌>>=◌, ◌>>◌, return, fail, try, ignore, gets, fresh_id,
}
use reactorcide.Store.Rows.{
  list_workflow_nodes, update_workflow_node, get_workflow_node_by_job_id, get_workflow_instance,
  update_workflow_instance, create_workflow_event, create_workflow_instance, create_workflow_node,
  get_job_by_id, create_job, update_job, submit_task,
}
use reactorcide.Runtime.Evaluate.{deref_string, evaluate_workflow, evaluation}

-- The new row, before the database has given it a key: how to run the job is copied, what an
-- execution left is not. A copy of a map, list or pointer is the same value here.
unfoldable pub clone_job_for_retry : Job → Option String → Job
clone_job_for_retry original run_id = record {
  job_id = "";
  spec = original.spec;
  status = submitted;
  corndogs_task_id = none;
  cancel_mode = no_mode;
  started_at = none;
  completed_at = none;
  exit_code = none;
  worker_id = none;
  retry_count = add64 original.retry_count (pos 1);
  last_error = no_error;
  logs_object_key = "";
  artifacts_object_key = "";
  parent_job_id = some original.job_id;
  workflow_id = original.workflow_id;
  workflow_node_id = original.workflow_node_id;
  workflow_run_id = run_id;
  workflow_node_name = original.workflow_node_name;
}

-- A run id for the job of a node only.
unfoldable pub fresh_run_id : Job → M (Option String)
fresh_run_id original =
    if not (str_eq (deref_string original.workflow_node_id) "")
    then (do id ← fresh_id; return (some id))
    else return none

-- The row as Corndogs' answer changes it.
abbrev pub answered : Job → Result (String × Status) → Job
answered job (ok (task_id, state)) = record job { corndogs_task_id = some task_id; status = state }
answered job (err e) = record job { status = failed; last_error = submit_failed }

unfoldable pub resubmit : Job → Bool → M Job
resubmit job false = return job
resubmit job true = do
  answer ← try (submit_task job.job_id job.spec.priority)
  update_job (answered job answer)
  return (answered job answer)

-- An early return with an error.
abbrev pub require : Bool → Error → M (Unit {0})
require b e = if b then return tt else fail e

abbrev pub rebound : WorkflowNode → String → WorkflowNode
rebound node job_id = record node {
  job_id = some job_id;
  status = submitted;
  completed_at = none;
  decision_reason = retried_reason;
}

unfoldable pub record_retry_event : String → Option String → Option String → M (Unit {0})
record_retry_event workflow_id node_id job_id = ignore (
    create_workflow_event (record {
      workflow_id = workflow_id;
      node_id = node_id;
      job_id = job_id;
      event_type = "node_retried";
      reason = retried_reason;
    }))

-- The workflow, if the job has one, is running again.
unfoldable pub reopen_workflow : WorkflowNode → Job → Option String → M (Unit {0})
reopen_workflow node new workflow_id =
    if str_eq (deref_string workflow_id) "" then return tt else (do
      wf ← get_workflow_instance (deref_string workflow_id)
      update_workflow_instance (record wf { status = running; completed_at = none })
      record_retry_event wf.workflow_id (some node.node_id) (some new.job_id))

unfoldable pub rebind_workflow_node_for_retry : Job → Job → M (Unit {0})
rebind_workflow_node_for_retry old new = do
  supported ← gets (λ w. w.has_workflows)
  require supported workflows_unsupported
  node ← get_workflow_node_by_job_id old.job_id
  update_workflow_node (rebound node new.job_id)
  reopen_workflow node new old.workflow_id

unfoldable pub rebind_if_bound : Job → Job → M (Unit {0})
rebind_if_bound old new =
    if not (str_eq (deref_string old.workflow_node_id) "")
    then rebind_workflow_node_for_retry old new
    else return tt

unfoldable pub retry_job : Job → M Job
retry_job job = if not (is_retryable job.status) then fail not_retryable else (do
  run_id ← fresh_run_id job
  created ← create_job (clone_job_for_retry job run_id)
  has_client ← gets (λ w. w.has_client)
  new ← resubmit created has_client
  rebind_if_bound job new
  return new)

-- One node of the batch of `RetryUnsuccessfulJobs`, its job loaded: nothing to do, a retried job, or
-- an error that does not end the batch.
unfoldable pub retry_loaded : Result Job → M (Option (Result Job))
retry_loaded (err not_found) = return none
retry_loaded (err e) = return (some (err e))
retry_loaded (ok job) =
    if not (is_retryable job.status)
    then return none
    else (do result ← try (retry_job job); return (some result))

unfoldable pub retry_node : WorkflowNode → M (Option (Result Job))
retry_node node =
    if str_eq (deref_string node.job_id) ""
    then return none
    else (do found ← try (get_job_by_id (deref_string node.job_id)); retry_loaded found)

abbrev pub tally : Option (Result Job) → List Job × List Error → List Job × List Error
tally none (jobs, errors) = (jobs, errors)
tally (some (ok job)) (jobs, errors) = (job ∷ jobs, errors)
tally (some (err e)) (jobs, errors) = (jobs, e ∷ errors)

-- The jobs that were retried, and the errors, which the code joins into one.
unfoldable pub retry_nodes : List WorkflowNode → M (List Job × List Error)
retry_nodes [] = return ([], [])
retry_nodes (node ∷ todo) = do
  result ← retry_node node
  rest ← retry_nodes todo
  return (tally result rest)

unfoldable pub retry_unsuccessful_jobs : String → M (List Job × List Error)
retry_unsuccessful_jobs id = do
  supported ← gets (λ w. w.has_workflows)
  require supported workflows_unsupported
  nodes ← list_workflow_nodes id
  retry_nodes nodes

abbrev pub fresh_instance : WorkflowInstance → WorkflowInstance
fresh_instance old = record old {
  workflow_id = "";
  status = evaluating;
  completed_at = none;
  last_error = "";
}

abbrev pub fresh_node : String → WorkflowNode → WorkflowNode
fresh_node workflow_id old = record old {
  node_id = "";
  workflow_id = workflow_id;
  status = pending;
  job_id = none;
  decision_reason = no_reason;
  completed_at = none;
  last_successful_duration_ms = none;
}

unfoldable pub copy_nodes : String → List WorkflowNode → M (Unit {0})
copy_nodes workflow_id [] = return tt
copy_nodes workflow_id (node ∷ nodes) =
    create_workflow_node (fresh_node workflow_id node) >>= λ _. copy_nodes workflow_id nodes

abbrev pub reloaded_or : WorkflowInstance → Result WorkflowInstance → WorkflowInstance
reloaded_or wf (ok reloaded) = reloaded
reloaded_or wf (err e) = wf

unfoldable pub retry_workflow_from : String → WorkflowInstance → M WorkflowInstance
retry_workflow_from id old =
    if not (is_workflow_retryable old.status) then fail workflow_not_retryable else (do
      nodes ← list_workflow_nodes id
      created ← create_workflow_instance (fresh_instance old)
      copy_nodes created.workflow_id nodes
      (_, wf) ← evaluate_workflow created
      reloaded ← try (get_workflow_instance created.workflow_id)
      return (reloaded_or wf reloaded))

unfoldable pub retry_workflow : String → M WorkflowInstance
retry_workflow id = do
  supported ← gets (λ w. w.has_workflows)
  require supported workflows_unsupported
  old ← get_workflow_instance id
  retry_workflow_from id old

-- All of this file, for proofs that run it.
unfoldable pub retrying : Unit {0}
unfolding evaluation clone_job_for_retry fresh_run_id resubmit record_retry_event reopen_workflow
    rebind_workflow_node_for_retry rebind_if_bound retry_job retry_loaded retry_node retry_nodes
    retry_unsuccessful_jobs copy_nodes retry_workflow_from retry_workflow
retrying = tt
