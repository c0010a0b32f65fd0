-- ===== src/JobControl/Examples.antt =====
-- Runs of cancelling and retrying on small states.
use reactorcide.Prelude.{◌≡◌, refl, List, [], ◌∷◌, ◌++◌, map, true, false, some, codes}
use reactorcide.Models.Status.{
  Status, submitted, running, cancelling, completed, failed, cancelled, pending, waiting, queued,
}
use reactorcide.Models.Workflow.{WorkflowNode, WorkflowInstance}
use reactorcide.Models.Samples.{node, workflow, job}
use reactorcide.Store.World.{World, ok, err, not_cancellable}
use reactorcide.Store.Samples.{quiet}
use reactorcide.JobControl.Cancel.{
  transition_job, cancel_nodes, cancel_job, kill_job, cancel_workflow, cancellation,
}
use reactorcide.JobControl.Retry.{retry_job, retry_workflow, retrying}
use reactorcide.JobControl.Spares.{row_of}
use reactorcide.JobControl.Race.{transition_job-Kept}
use reactorcide.JobControl.Outcome.{calm, stopped, transition_job-outcome}

-- A workflow of a waiting node, a node whose job is `status`, and a finished node.
abbrev nodes : List WorkflowNode
nodes =
    record (node "build" submitted [] (codes "")) { job_id = some "j" }
    ∷ node "check" pending ("build" ∷ []) (codes "")
    ∷ node "lint" completed [] (codes "")
    ∷ []

abbrev with_job : Status → World
with_job status = record (quiet nodes) { jobs = job "j" status ∷ job "k" completed ∷ [] }

abbrev job_statuses : World → List Status
job_statuses w = map (λ j. j.status) w.jobs

abbrev node_statuses : World → List Status
node_statuses w = map (λ n. n.status) w.nodes

cancel_before_claim :
    job_statuses (cancel_job (job "j" submitted) (with_job submitted)).1
    ≡ cancelled ∷ completed ∷ []
unfolding cancellation
cancel_before_claim = refl

-- A worker has claimed the task first.
cancel_after_claim :
    job_statuses
      (cancel_job (job "j" submitted) (record (with_job submitted) { cancels = false ∷ [] })).1
    ≡ cancelling ∷ completed ∷ []
unfolding cancellation
cancel_after_claim = refl

cancel_twice : (cancel_job (job "j" cancelling) (with_job cancelling)).0 ≡ err not_cancellable
unfolding cancellation
cancel_twice = refl

kill_after_cancel :
    job_statuses (kill_job (job "j" cancelling) (with_job cancelling)).1
    ≡ cancelling ∷ completed ∷ []
unfolding cancellation
kill_after_cancel = refl

-- The job of a submitted node is cancelled at once, but its node stays submitted, and the workflow
-- cancelling.
cancel_workflow_stalls :
    node_statuses (cancel_workflow false "wf" (with_job submitted)).1
    ≡ submitted ∷ cancelled ∷ completed ∷ []
unfolding cancellation
cancel_workflow_stalls = refl

cancel_workflow_jobs :
    job_statuses (cancel_workflow false "wf" (with_job submitted)).1 ≡ cancelled ∷ completed ∷ []
unfolding cancellation
cancel_workflow_jobs = refl

cancel_workflow_status :
    map
      (λ (v : WorkflowInstance). v.status)
      (cancel_workflow false "wf" (with_job submitted)).1.workflows
    ≡ cancelling ∷ []
unfolding cancellation
cancel_workflow_status = refl

retry_rebinds :
    node_statuses
      (retry_job (record (job "j" failed) { workflow_node_id = some "build" }) (with_job failed)).1
    ≡ submitted ∷ pending ∷ completed ∷ []
unfolding retrying
retry_rebinds = refl

-- A new instance, whose first node is submitted; the old nodes are as they were.
retry_starts_again :
    node_statuses
      (retry_workflow "wf" (record (with_job failed) {
        answers = some ("task-0", queued) ∷ some ("task-1", queued) ∷ [];
        workflows = record workflow { status = failed; parent_job_id = some "k" } ∷ [];
      })).1
    ≡ submitted ∷ pending ∷ completed ∷ submitted ∷ waiting ∷ submitted ∷ []
unfolding retrying
retry_starts_again = refl

-- While the request was on its way, the job failed.
abbrev late : World
late = record (with_job failed) { rivals = (λ jobs. jobs) ∷ [] }

transition_job-Kept_example :
    row_of "j" (transition_job true (job "j" running) late).1.jobs ≡ some (job "j" failed)
transition_job-Kept_example =
    transition_job-Kept true (job "j" running) (job "j" failed) "j" late refl refl refl
      ((λ jobs h. h), tt)

-- A node of another workflow.
abbrev stranger : WorkflowNode
stranger = record (node "docs" pending [] (codes "")) { workflow_id = "other" }

abbrev with_stranger : World
with_stranger = record (with_job running) { nodes = nodes ++ stranger ∷ [] }

cancelled_rows :
    map (λ n. n.status) (cancel_nodes false workflow nodes with_stranger).1.nodes
    ≡ submitted ∷ cancelled ∷ completed ∷ pending ∷ []
unfolding cancellation
cancelled_rows = refl

-- The caller's copy says submitted, the row queued.
transition_job-outcome_example :
    ((transition_job true (job "j" submitted) (calm (with_job queued))).0
      ≡ ok (stopped true (job "j" queued) (ok tt)))
    × (row_of "j" (transition_job true (job "j" submitted) (calm (with_job queued))).1.jobs
        ≡ some (stopped true (job "j" queued) (ok tt)))
unfolding cancellation
transition_job-outcome_example =
    transition_job-outcome true (job "j" submitted) (job "j" queued) (with_job queued) refl refl
