-- ===== src/Runtime/Evaluate.antt =====
-- `evaluateWorkflow`, `submitWorkflowNode`, `refreshWorkflowStatus` and `recordWorkflowEvent` of
-- workflow_runtime.go. The database's rows and the nodes at hand are kept apart: an update that
-- fails leaves them different.
use reactorcide.Prelude.{
  String, List, [], ◌∷◌, ◌++◌, Bool, true, false, not, ◌||◌, Option, none, some, if◌then◌else◌,
  str_eq,
}
use reactorcide.Models.Status.{
  Status, submitted, failed, pending, waiting, skipped, success, status_eq,
}
use reactorcide.Models.Job.{Job, submit_failed}
use reactorcide.Models.Workflow.{
  WorkflowNode, WorkflowInstance, Reason, node_ready, submit_error, status_change,
}
use reactorcide.Store.World.{
  Result, ok, err, World, M, ◌>>=◌, ◌>>◌, return, fail, try, ignore, gets, fresh_id,
}
use reactorcide.Store.Rows.{
  list_workflow_nodes, update_workflow_node, update_workflow_instance, create_workflow_event,
  get_job_by_id, create_job, update_job, submit_task, rows,
}
use reactorcide.Runtime.Decide.{
  dependencies_ready, evaluate_workflow_condition, compute_workflow_status,
}
use reactorcide.Runtime.Build.{build_job_from_trigger}

-- `derefString`
abbrev pub deref_string : Option String → String
deref_string none = ""
deref_string (some s) = s

-- Only logged if it fails.
unfoldable pub record_workflow_event :
    String → Option String → Option String → String → Reason → M (Unit {0})
record_workflow_event workflow_id node_id job_id event_type reason =
    if str_eq workflow_id ""
    then return tt
    else ignore (
        create_workflow_event (record {
          workflow_id = workflow_id;
          node_id = node_id;
          job_id = job_id;
          event_type = event_type;
          reason = reason;
        }))

-- The instance with the status that its nodes give it.
unfoldable pub with_status : WorkflowInstance → List WorkflowNode → World → WorkflowInstance
unfolding compute_workflow_status
with_status wf nodes w =
    let status = compute_workflow_status nodes in
    record wf {
      status = status;
      completed_at =
          if status_eq status success || status_eq status failed || status_eq status skipped
          then some w.now
          else wf.completed_at;
    }

-- Written only where the status is another one.
unfoldable pub save_status : Status → WorkflowInstance → M (Unit {0})
save_status old wf =
    if not (status_eq old wf.status)
    then (do
      update_workflow_instance wf
      record_workflow_event wf.workflow_id none none "workflow_status_changed"
          (status_change old wf.status))
    else return tt

unfoldable pub refresh_workflow_status : WorkflowInstance → M WorkflowInstance
refresh_workflow_status wf = do
  nodes ← list_workflow_nodes wf.workflow_id
  wf' ← gets (with_status wf nodes)
  save_status wf.status wf'
  return wf'

-- The job of a node, before the database has given it a key.
unfoldable pub job_of_node : WorkflowInstance → WorkflowNode → Job → String → Job
unfolding build_job_from_trigger
job_of_node wf node parent run_id = record (build_job_from_trigger node.job_spec parent) {
  workflow_id = some wf.workflow_id;
  workflow_node_id = some node.node_id;
  workflow_run_id = some run_id;
  workflow_node_name = node.display_name;
}

-- The node once its job is in the database.
abbrev pub bound : WorkflowNode → String → WorkflowNode
bound node job_id = record node {
  job_id = some job_id;
  status = submitted;
  decision_reason = node_ready;
}

abbrev pub broken : WorkflowNode → World → WorkflowNode
broken node w = record node {
  status = failed;
  completed_at = some w.now;
  decision_reason = submit_error;
}

-- What follows the submission: Corndogs took the job, or did not.
unfoldable pub settle_submission :
    WorkflowInstance → WorkflowNode → Job → Result (String × Status) → M (Unit {0})
settle_submission wf node job (ok (task_id, state)) =
    update_job (record job { corndogs_task_id = some task_id; status = state })
settle_submission wf node job (err e) = do
  ignore (update_job (record job { status = failed; last_error = submit_failed }))
  node' ← gets (broken node)
  ignore (update_workflow_node node')
  record_workflow_event wf.workflow_id (some node.node_id) (some job.job_id) "node_completed"
      submit_error
  try (refresh_workflow_status wf) >>= λ _. fail e

unfoldable pub submit_to_corndogs : WorkflowInstance → WorkflowNode → Job → Bool → M (Unit {0})
submit_to_corndogs wf node job false = return tt
submit_to_corndogs wf node job true = do
  answer ← try (submit_task job.job_id job.spec.priority)
  settle_submission wf node job answer

-- The id of the job, and the node as it is left at hand.
unfoldable pub submit_workflow_node : WorkflowInstance → WorkflowNode → M (String × WorkflowNode)
submit_workflow_node wf node = do
  parent ← get_job_by_id (deref_string wf.parent_job_id)
  run_id ← fresh_id
  job ← create_job (job_of_node wf node parent run_id)
  update_workflow_node (bound node job.job_id)
  has_client ← gets (λ w. w.has_client)
  submit_to_corndogs wf (bound node job.job_id) job has_client
  record_workflow_event wf.workflow_id (some node.node_id) (some job.job_id) "node_submitted"
      node_ready
  return (job.job_id, bound node job.job_id)

abbrev pub held : WorkflowNode → Reason → WorkflowNode
held node reason = record node { status = waiting; decision_reason = reason }

abbrev pub passed_over : WorkflowNode → Reason → World → WorkflowNode
passed_over node reason w = record node {
  status = skipped;
  decision_reason = reason;
  completed_at = some w.now;
}

-- What becomes of a node whose dependencies are finished.
unfoldable pub start_or_skip :
    WorkflowInstance → WorkflowNode → Bool × Reason → M (List String × WorkflowNode)
start_or_skip wf node (true, _) = do
  (job_id, node') ← submit_workflow_node wf node
  return (job_id ∷ [], node')
start_or_skip wf node (false, reason) = do
  node' ← gets (passed_over node reason)
  update_workflow_node node'
  record_workflow_event wf.workflow_id (some node.node_id) none "node_skipped" reason
  return ([], node')

unfoldable pub hold_or_go :
    WorkflowInstance → WorkflowNode → Bool × Reason → Bool × Reason → M (List String × WorkflowNode)
hold_or_go wf node (true, _) condition = start_or_skip wf node condition
hold_or_go wf node (false, reason) condition = do
  ignore (update_workflow_node (held node reason))
  record_workflow_event wf.workflow_id (some node.node_id) none "node_waiting" reason
  return ([], held node reason)

abbrev pub is_open : Status → Bool
is_open s = status_eq s pending || status_eq s waiting

-- One round of the loop of `evaluateWorkflow`, at the nodes as they are at hand.
unfoldable pub evaluate_node :
    WorkflowInstance → List WorkflowNode → WorkflowNode → M (List String × WorkflowNode)
evaluate_node wf nodes node =
    if not (is_open node.status)
    then return ([], node)
    else hold_or_go wf node (dependencies_ready nodes node) (evaluate_workflow_condition nodes node)

-- The loop: `done` are the nodes before index `i`, as the loop has left them. The result is the ids
-- of the jobs that were created, and the nodes at hand.
unfoldable pub evaluate_loop :
    WorkflowInstance → List WorkflowNode → List WorkflowNode → M (List String × List WorkflowNode)
evaluate_loop wf done [] = return ([], done)
evaluate_loop wf done (node ∷ todo) = do
  (ids, node') ← evaluate_node wf (done ++ node ∷ todo) node
  (more, nodes) ← evaluate_loop wf (done ++ node' ∷ []) todo
  return (ids ++ more, nodes)

-- The ids of the created jobs, and the instance at hand.
unfoldable pub evaluate_workflow : WorkflowInstance → M (List String × WorkflowInstance)
evaluate_workflow wf = do
  nodes ← list_workflow_nodes wf.workflow_id
  (ids, _) ← evaluate_loop wf [] nodes
  wf' ← refresh_workflow_status wf
  return (ids, wf')

-- All of this file, for proofs that run it.
unfoldable pub evaluation : Unit {0}
unfolding rows record_workflow_event with_status save_status refresh_workflow_status job_of_node
    settle_submission submit_to_corndogs submit_workflow_node start_or_skip hold_or_go evaluate_node
    evaluate_loop evaluate_workflow dependencies_ready evaluate_workflow_condition
    compute_workflow_status build_job_from_trigger
evaluation = tt
