-- ===== src/Runtime/Decide.antt =====
-- The decisions of workflow_runtime.go: `dependenciesReady`, `evaluateWorkflowCondition`,
-- `computeWorkflowStatus` and what they use.
use reactorcide.Prelude.{
  trim_space, is_empty, String, List, [], ◌∷◌, Bool, true, false, ◌||◌, not, Option, none, some,
  if◌then◌else◌, str_eq, Bytes, codes, bytes_eq,
}
use reactorcide.Models.Status.{
  Status, running, completed, failed, cancelled, timeout, skipped, success, status_eq,
  is_workflow_node_terminal, is_workflow_node_failure,
}
use reactorcide.Models.Workflow.{
  Reason, unregistered, waiting_on, dependencies_terminal, all_success_false, all_success_true,
  always_true, any_failed_true, any_failed_false, unsupported, WorkflowNode,
}

unfoldable pub nodes_by_name : List WorkflowNode → String → List WorkflowNode
nodes_by_name [] name = []
nodes_by_name (node ∷ nodes) name =
    if str_eq node.name name then node ∷ nodes_by_name nodes name else nodes_by_name nodes name

-- The inner loop of `dependenciesReady`: why a group of nodes holds the dependant up.
unfoldable pub unfinished : List WorkflowNode → Option Reason
unfinished [] = none
unfinished (candidate ∷ group) =
    if not (is_workflow_node_terminal candidate.status)
    then some (waiting_on candidate.display_name)
    else unfinished group

unfoldable pub held_up : String → List WorkflowNode → Option Reason
unfolding unfinished
held_up dep [] = some (unregistered dep)
held_up dep (candidate ∷ group) = unfinished (candidate ∷ group)

abbrev pub unless_held : Option Reason → Bool × Reason → Bool × Reason
unless_held none rest = rest
unless_held (some reason) rest = (false, reason)

unfoldable pub ready_loop : List WorkflowNode → List String → Bool × Reason
unfolding held_up nodes_by_name
ready_loop nodes [] = (true, dependencies_terminal)
ready_loop nodes (dep ∷ deps) =
    unless_held (held_up dep (nodes_by_name nodes dep)) (ready_loop nodes deps)

unfoldable pub dependencies_ready : List WorkflowNode → WorkflowNode → Bool × Reason
unfolding ready_loop
dependencies_ready nodes node = ready_loop nodes node.depends_on

-- The loops of the condition `all_success`.
unfoldable pub group_completed : List WorkflowNode → Bool
group_completed [] = true
group_completed (candidate ∷ group) =
    if not (status_eq candidate.status completed) then false else group_completed group

unfoldable pub all_completed : List WorkflowNode → List String → Bool
unfolding group_completed nodes_by_name
all_completed nodes [] = true
all_completed nodes (dep ∷ deps) =
    if not (group_completed (nodes_by_name nodes dep)) then false else all_completed nodes deps

-- The loops of the condition `any_failed`.
unfoldable pub group_failed : List WorkflowNode → Bool
group_failed [] = false
group_failed (candidate ∷ group) =
    if is_workflow_node_failure candidate.status then true else group_failed group

unfoldable pub any_failed : List WorkflowNode → List String → Bool
unfolding group_failed nodes_by_name
any_failed nodes [] = false
any_failed nodes (dep ∷ deps) =
    if group_failed (nodes_by_name nodes dep) then true else any_failed nodes deps

-- What a condition's text asks for.
unfoldable pub is_all_success : Bytes → Bool
is_all_success condition =
    is_empty condition
    || bytes_eq condition (codes "all_success")
    || bytes_eq condition (codes "all_success(needs)")

unfoldable pub is_always : Bytes → Bool
is_always condition = bytes_eq condition (codes "always") || bytes_eq condition (codes "always()")

unfoldable pub is_any_failed : Bytes → Bool
is_any_failed condition =
    bytes_eq condition (codes "any_failed") || bytes_eq condition (codes "any_failed(needs)")

unfoldable pub evaluate_workflow_condition : List WorkflowNode → WorkflowNode → Bool × Reason
unfolding trim_space is_all_success is_always is_any_failed all_completed any_failed
evaluate_workflow_condition nodes node =
    let condition = trim_space node.condition in
    if is_all_success condition
    then (if all_completed nodes node.depends_on
        then (true, all_success_true)
        else (false, all_success_false))
    else if is_always condition
    then (true, always_true)
    else if is_any_failed condition
    then (if any_failed nodes node.depends_on
        then (true, any_failed_true)
        else (false, any_failed_false))
    else (false, unsupported condition)

-- What `computeWorkflowStatus` answers after its loop.
unfoldable pub final_status : Bool → Bool → Bool → Status
final_status all_skipped all_terminal any_cancelled =
    if not all_terminal
    then running
    else if any_cancelled
    then cancelled
    else if all_skipped
    then skipped
    else success

-- The loop of `computeWorkflowStatus`, with its three flags.
unfoldable pub status_loop : List WorkflowNode → Bool → Bool → Bool → Status
unfolding final_status
status_loop [] all_skipped all_terminal any_cancelled =
    final_status all_skipped all_terminal any_cancelled
status_loop (node ∷ nodes) all_skipped all_terminal any_cancelled =
    if status_eq node.status failed || status_eq node.status timeout
    then failed
    else status_loop nodes (if not (status_eq node.status skipped) then false else all_skipped)
        (if not (is_workflow_node_terminal node.status) then false else all_terminal)
        (if status_eq node.status cancelled then true else any_cancelled)

unfoldable pub compute_workflow_status : List WorkflowNode → Status
unfolding status_loop
compute_workflow_status [] = skipped
compute_workflow_status (node ∷ nodes) = status_loop (node ∷ nodes) true true false

-- `workflowNodeStatusFromJob`: every branch of its `switch` gives the status itself.
unfoldable pub workflow_node_status_from_job : Status → Status
workflow_node_status_from_job completed = completed
workflow_node_status_from_job status = status
