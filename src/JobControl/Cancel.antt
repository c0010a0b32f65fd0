-- ===== src/JobControl/Cancel.antt =====
-- jobcontrol/jobcontrol.go: `transitionJob` with its fallback, and `CancelWorkflow`. A job that the
-- code gives back beside an error is dropped: its callers look at the error first.
use reactorcide.Prelude.{
  String, List, [], ◌∷◌, Bool, true, false, not, ◌&&◌, ◌||◌, Option, none, some, if◌then◌else◌,
  str_eq,
}
use reactorcide.Models.Status.{
  Status, submitted, queued, running, cancelling, cancelled, status_eq, can_be_cancelled,
  can_be_killed, is_completed, is_cancelling, is_workflow_node_terminal,
}
use reactorcide.Models.Job.{
  Job, CancelMode, cancel_mode, kill_mode, LastError, cancelled_error, killed_by_admin,
}
use reactorcide.Models.Workflow.{
  WorkflowNode, WorkflowInstance, Reason, killed_reason, cancelled_reason,
}
use reactorcide.Store.World.{
  not_found, not_cancellable, workflows_unsupported, Result, ok, err, World, M, ◌>>=◌, ◌>>◌, return,
  fail, try, ignore, gets,
}
use reactorcide.Store.Rows.{
  list_workflow_nodes, update_workflow_node, get_workflow_instance, update_workflow_instance,
  create_workflow_event, get_job_by_id, update_job, update_job_status_guarded, cancel_task, rows,
}
use reactorcide.Runtime.Decide.{compute_workflow_status}
use reactorcide.Runtime.Evaluate.{deref_string}

abbrev pub mode_of : Bool → CancelMode
mode_of kill = if kill then kill_mode else cancel_mode

abbrev pub last_error_of : Bool → LastError
last_error_of kill = if kill then killed_by_admin else cancelled_error

abbrev pub cancellable_from_statuses : Bool → List Status
cancellable_from_statuses true = submitted ∷ queued ∷ running ∷ cancelling ∷ []
cancellable_from_statuses false = submitted ∷ queued ∷ running ∷ []

abbrev pub is_allowed : Bool → Status → Bool
is_allowed kill s = if kill then can_be_killed s else can_be_cancelled s

-- What the first guarded update does to the row, with the status that it had.
abbrev pub to_cancelling : Bool → Job → Status × Job
to_cancelling kill j = (j.status, record j { status = cancelling; cancel_mode = mode_of kill })

-- What the second does.
abbrev pub to_cancelled : Bool → Job → Unit {0} × Job
to_cancelled kill j = (tt, record j { status = cancelled; last_error = last_error_of kill })

-- Corndogs is asked only for a task that was submitted.
unfoldable pub dequeue : Bool → Option String → M (Unit {0})
dequeue true (some id) = if not (str_eq id "") then cancel_task id else return tt
dequeue _ _ = return tt

abbrev pub row_or : Job → Option (Unit {0} × Job) → Job
row_or updated none = updated
row_or updated (some (_, finalized)) = finalized

unfoldable pub finalize : Bool → String → Job → Result (Unit {0}) → M Job
finalize kill id updated (err e) = return updated
finalize kill id updated (ok _) = do
  result ← update_job_status_guarded id (cancelling ∷ []) (to_cancelled kill)
  return (row_or updated result)

-- After the first guarded update.
unfoldable pub after_cancelling : Bool → String → Option (Status × Job) → M Job
after_cancelling kill id none = fail not_cancellable
after_cancelling kill id (some (prior, updated)) =
    if not (status_eq prior submitted) && not (status_eq prior queued) then return updated else (do
      has_client ← gets (λ w. w.has_client)
      dequeued ← try (dequeue has_client updated.corndogs_task_id)
      finalize kill id updated dequeued)

-- The row that `transitionJobBestEffort` writes, after a dequeuing that is tried.
unfoldable pub transition_job_best_effort : Bool → Job → M Job
transition_job_best_effort kill job =
    if status_eq job.status submitted || status_eq job.status queued
    then (do
      has_client ← gets (λ w. w.has_client)
      ignore (dequeue has_client job.corndogs_task_id)
      let job' = record job { status = cancelled; last_error = last_error_of kill }
      update_job job'
      return job')
    else if status_eq job.status running || status_eq job.status cancelling
    then (do
      let job' = record job { status = cancelling; cancel_mode = mode_of kill }
      update_job job'
      return job')
    else fail not_cancellable

unfoldable pub transition_stored : Bool → Job → Bool → M Job
transition_stored kill job false = transition_job_best_effort kill job
transition_stored kill job true = do
  result ←
      update_job_status_guarded job.job_id (cancellable_from_statuses kill) (to_cancelling kill)
  after_cancelling kill job.job_id result

-- `job` is the caller's copy of the row, perhaps an old one.
unfoldable pub transition_job : Bool → Job → M Job
transition_job kill job =
    if not (is_allowed kill job.status)
    then fail not_cancellable
    else (gets (λ w. w.has_guards) >>= λ has_guards. transition_stored kill job has_guards)

unfoldable pub cancel_job : Job → M Job
cancel_job job = transition_job false job

unfoldable pub kill_job : Job → M Job
kill_job job = transition_job true job

abbrev pub cancel_decision_reason : Bool → Reason
cancel_decision_reason kill = if kill then killed_reason else cancelled_reason

-- Only logged if it fails.
unfoldable pub record_cancel_event : Bool → String → Option String → Option String → M (Unit {0})
record_cancel_event kill workflow_id node_id job_id = ignore (
    create_workflow_event (record {
      workflow_id = workflow_id;
      node_id = node_id;
      job_id = job_id;
      event_type = "node_cancelled";
      reason = cancel_decision_reason kill;
    }))

-- That the job can no longer be cancelled is no error here.
unfoldable pub unless_cancellable : M (Unit {0}) → Result Job → M (Unit {0})
unless_cancellable event (ok _) = event
unless_cancellable event (err not_cancellable) = event
unless_cancellable event (err e) = fail e

-- The job of a node, if it was found.
unfoldable pub cancel_found : Bool → WorkflowInstance → WorkflowNode → Result Job → M (Unit {0})
cancel_found kill wf node (err not_found) = return tt
cancel_found kill wf node (err e) = fail e
cancel_found kill wf node (ok job) =
    if is_completed job.status
    then return tt
    else if is_cancelling job.status && not kill
    then return tt
    else (try (transition_job kill job)
        >>= unless_cancellable
            (record_cancel_event kill wf.workflow_id (some node.node_id) node.job_id))

-- One round of the loop of `CancelWorkflow`: the node as it is left at hand.
unfoldable pub cancel_node : Bool → WorkflowInstance → WorkflowNode → M WorkflowNode
cancel_node kill wf node =
    if is_workflow_node_terminal node.status
    then return node
    else if str_eq (deref_string node.job_id) ""
    then (do
      now ← gets (λ w. w.now)
      let node' = record node {
        status = cancelled;
        completed_at = some now;
        decision_reason = cancel_decision_reason kill;
      }
      update_workflow_node node'
      record_cancel_event kill wf.workflow_id (some node.node_id) none
      return node')
    else (do
      found ← try (get_job_by_id (deref_string node.job_id))
      cancel_found kill wf node found
      return node)

unfoldable pub cancel_nodes : Bool → WorkflowInstance → List WorkflowNode → M (List WorkflowNode)
cancel_nodes kill wf [] = return []
cancel_nodes kill wf (node ∷ todo) = do
  node' ← cancel_node kill wf node
  nodes ← cancel_nodes kill wf todo
  return (node' ∷ nodes)

-- The instance after the loop.
unfoldable pub cancelled_instance : WorkflowInstance → List WorkflowNode → World → WorkflowInstance
cancelled_instance wf nodes w =
    let final = compute_workflow_status nodes in
    if not (status_eq final running)
    then record wf { status = final; completed_at = some w.now }
    else wf

unfoldable pub cancel_workflow_stored : Bool → String → M WorkflowInstance
cancel_workflow_stored kill id = do
  found ← get_workflow_instance id
  nodes ← list_workflow_nodes id
  let wf = record found { status = cancelling }
  nodes' ← cancel_nodes kill wf nodes
  wf' ← gets (cancelled_instance wf nodes')
  update_workflow_instance wf'
  return wf'

unfoldable pub cancel_workflow : Bool → String → M WorkflowInstance
cancel_workflow kill id = do
  supported ← gets (λ w. w.has_workflows)
  if supported then cancel_workflow_stored kill id else fail workflows_unsupported

-- All of this file, for proofs that run it.
unfoldable pub cancellation : Unit {0}
unfolding rows dequeue finalize after_cancelling transition_job_best_effort transition_stored
    transition_job cancel_job kill_job record_cancel_event unless_cancellable cancel_found
    cancel_node cancel_nodes cancelled_instance cancel_workflow_stored cancel_workflow
    compute_workflow_status
cancellation = tt
