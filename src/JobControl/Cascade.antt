-- ===== src/JobControl/Cascade.antt =====
-- What cancelling a workflow does to the rows of its nodes.
use reactorcide.Prelude.{◌≡◌, ◌≢◌, List, [], ◌∷◌, ◌++◌, Bool, true, false, none, if◌then◌else◌}
use reactorcide.Models.Status.{cancelled, is_workflow_node_terminal}
use reactorcide.Models.Job.{Job}
use reactorcide.Models.Workflow.{WorkflowNode, killed_reason, cancelled_reason}
use reactorcide.Store.World.{World}
use reactorcide.Runtime.Evaluate.{deref_string}
use reactorcide.Runtime.Keeps.{Keeps}
use reactorcide.Runtime.Turns.{Turns}

-- One node: finished, it is left alone; without a job, it is cancelled, with the reason of the request
-- and a time; with a job, it is left to that job.
pub record CancelStep (kill : Bool) (o n : WorkflowNode) : Type 0 where
  pub finished : is_workflow_node_terminal o.status ≡ true → n ≡ o
  pub without_job :
      is_workflow_node_terminal o.status ≡ false
      → deref_string o.job_id ≡ ""
      → (n.status ≡ cancelled)
        × ((n.decision_reason ≡ (if kill then killed_reason else cancelled_reason))
            × ((n.completed_at ≢ none)
                × (n ≡ record o {
                  status = n.status;
                  completed_at = n.completed_at;
                  decision_reason = n.decision_reason;
                })))
  pub with_job : is_workflow_node_terminal o.status ≡ false → deref_string o.job_id ≢ "" → n ≡ o

abbrev pub CancelSteps : Bool → List WorkflowNode → List WorkflowNode → Type 0
CancelSteps kill [] [] = Unit
CancelSteps kill (o ∷ old) (n ∷ new) = CancelStep kill o n × CancelSteps kill old new
CancelSteps kill _ _ = ⊥

-- The node is in its place, and what the request makes of it.
abbrev Placed :
    Bool
    → List WorkflowNode
    → List WorkflowNode
    → WorkflowNode
    → WorkflowNode
    → List WorkflowNode
    → Type 0
Placed kill front rest o n table =
    (table ≡ front ++ n ∷ rest) × ((n.node_id ≡ o.node_id) × CancelStep kill o n)
