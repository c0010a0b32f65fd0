-- ===== src/Runtime/Completion.antt =====
-- `ProcessWorkflowCompletion`, `ProcessWorkflowJobStarted` and `failWorkflowNode` of
-- workflow_runtime.go. What the job left in its workspace is read elsewhere; here `merged` is what
-- `mergeWorkflowOutputFile` answered: nothing, or the text of its error.
use reactorcide.Prelude.{ℕ, ◌-◌, String, Option, none, some, if◌then◌else◌, str_eq}
use reactorcide.Models.Status.{Status, completed, failed, running}
use reactorcide.Models.Job.{Job}
use reactorcide.Models.Workflow.{WorkflowNode, WorkflowInstance, job_running, job_finished, cause}
use reactorcide.Store.World.{
  not_found, caused_by, Result, ok, err, World, M, ◌>>=◌, ◌>>◌, return, fail, try, gets,
}
use reactorcide.Store.Rows.{
  update_workflow_node, get_workflow_node_by_job_id, get_workflow_instance,
  update_workflow_instance,
}
use reactorcide.Runtime.Decide.{workflow_node_status_from_job}
use reactorcide.Runtime.Evaluate.{
  deref_string, record_workflow_event, refresh_workflow_status, evaluate_workflow, evaluation,
}

-- The milliseconds from start to completion, of a job that completed and has both times.
abbrev pub duration : Option ℕ → Option ℕ → Status → Option ℕ → Option ℕ
duration (some started) (some ended) completed old = some (ended - started)
duration _ _ _ old = old

-- The node of a job that has finished.
unfoldable pub finished_node : WorkflowNode → Job → World → WorkflowNode
unfolding workflow_node_status_from_job
finished_node node job w = record node {
  status = workflow_node_status_from_job job.status;
  completed_at = some w.now;
  last_successful_duration_ms =
      duration job.started_at job.completed_at job.status node.last_successful_duration_ms;
  decision_reason = job_finished job.status;
}

unfoldable pub fail_workflow_node : WorkflowInstance → WorkflowNode → Job → String → M (Unit {0})
fail_workflow_node wf node job message = do
  now ← gets (λ w. w.now)
  update_workflow_node
      (record node { status = failed; completed_at = some now; decision_reason = cause message })
  update_workflow_instance (record wf { last_error = message })
  record_workflow_event wf.workflow_id (some node.node_id) (some job.job_id) "node_completed"
      (cause message)
  refresh_workflow_status (record wf { last_error = message }) >>= λ _. fail (caused_by message)

unfoldable pub finish_node : WorkflowInstance → WorkflowNode → Job → Option String → M (Unit {0})
finish_node wf node job (some message) = fail_workflow_node wf node job message
finish_node wf node job none = do
  node' ← gets (finished_node node job)
  update_workflow_node node'
  record_workflow_event wf.workflow_id (some node.node_id) (some job.job_id) "node_completed"
      (job_finished job.status)
  evaluate_workflow wf >>= λ _. return tt

-- The node bound to a job, if there is one; that there is none is no error.
unfoldable pub with_node : (WorkflowNode → M (Unit {0})) → Result WorkflowNode → M (Unit {0})
with_node f (ok node) = f node
with_node f (err not_found) = return tt
with_node f (err e) = fail e

-- The steps that the two entry points share: nothing for a job outside any workflow.
unfoldable pub for_workflow_job :
    Job → (WorkflowInstance → WorkflowNode → M (Unit {0})) → M (Unit {0})
for_workflow_job job f = if str_eq (deref_string job.workflow_id) "" then return tt else (do
  wf ← get_workflow_instance (deref_string job.workflow_id)
  found ← try (get_workflow_node_by_job_id job.job_id)
  with_node (f wf) found)

unfoldable pub process_workflow_completion : Job → Option String → M (Unit {0})
process_workflow_completion job merged =
    for_workflow_job job (λ wf node. finish_node wf node job merged)

unfoldable pub start_node : Job → WorkflowInstance → WorkflowNode → M (Unit {0})
start_node job wf node = do
  update_workflow_node (record node { status = running; decision_reason = job_running })
  record_workflow_event wf.workflow_id (some node.node_id) (some job.job_id) "node_running"
      job_running
  refresh_workflow_status wf >>= λ _. return tt

unfoldable pub process_workflow_job_started : Job → M (Unit {0})
process_workflow_job_started job = for_workflow_job job (start_node job)

-- All of this file, for proofs that run it.
unfoldable pub completion : Unit {0}
unfolding evaluation finished_node fail_workflow_node finish_node for_workflow_job
    process_workflow_completion start_node process_workflow_job_started with_node
completion = tt
