-- ===== src/Models/Status.antt =====
-- The status strings of jobs, nodes and workflow instances, and the tests on them in
-- store/models/job.go, store/models/workflow.go and worker/workflow_runtime.go.
use reactorcide.Prelude.{
  ℕ, String, List, [], ◌∷◌, Bool, true, false, ◌==◌, ◌||◌, if◌then◌else◌, str_eq,
}

-- `other s` is a string `s` that is none of the words above it.
pub data Status : Type 0 where
  submitted queued running cancelling completed failed cancelled timeout : Status
  pending waiting skipped evaluating success : Status
  other : String → Status

abbrev tag : Status → ℕ
tag submitted = 0
tag queued = 1
tag running = 2
tag cancelling = 3
tag completed = 4
tag failed = 5
tag cancelled = 6
tag timeout = 7
tag pending = 8
tag waiting = 9
tag skipped = 10
tag evaluating = 11
tag success = 12
tag (other s) = 13

-- Equality of the strings.
abbrev pub status_eq : Status → Status → Bool
status_eq (other a) (other b) = str_eq a b
status_eq (other a) t = false
status_eq submitted t = 0 == tag t
status_eq queued t = 1 == tag t
status_eq running t = 2 == tag t
status_eq cancelling t = 3 == tag t
status_eq completed t = 4 == tag t
status_eq failed t = 5 == tag t
status_eq cancelled t = 6 == tag t
status_eq timeout t = 7 == tag t
status_eq pending t = 8 == tag t
status_eq waiting t = 9 == tag t
status_eq skipped t = 10 == tag t
status_eq evaluating t = 11 == tag t
status_eq success t = 12 == tag t

-- `statusInSet`
abbrev pub status_in_set : Status → List Status → Bool
status_in_set s [] = false
status_in_set s (c ∷ candidates) = if status_eq s c then true else status_in_set s candidates

-- `Job.IsRunning`, `Job.IsCancelling`
abbrev pub is_running : Status → Bool
is_running s = status_eq s running

abbrev pub is_cancelling : Status → Bool
is_cancelling s = status_eq s cancelling

-- `Job.IsCompleted`
abbrev pub is_completed : Status → Bool
is_completed s =
    status_eq s completed || status_eq s failed || status_eq s cancelled || status_eq s timeout

-- `Job.CanBeCancelled`, `Job.CanBeKilled`
abbrev pub can_be_cancelled : Status → Bool
can_be_cancelled s = status_eq s submitted || status_eq s queued || status_eq s running

abbrev pub can_be_killed : Status → Bool
can_be_killed s = can_be_cancelled s || is_cancelling s

-- `Job.IsRetryable`
abbrev pub is_retryable : Status → Bool
is_retryable s = status_eq s failed || status_eq s cancelled || status_eq s timeout

-- `WorkflowInstance.IsRetryable`
abbrev pub is_workflow_retryable : Status → Bool
is_workflow_retryable s = status_eq s failed || status_eq s cancelled

-- `isWorkflowNodeTerminal`, and `isNodeTerminal` of the package jobcontrol.
abbrev pub is_workflow_node_terminal : Status → Bool
is_workflow_node_terminal s =
    status_eq s completed
    || status_eq s failed
    || status_eq s cancelled
    || status_eq s timeout
    || status_eq s skipped

-- `isWorkflowNodeFailure`
abbrev pub is_workflow_node_failure : Status → Bool
is_workflow_node_failure s = status_eq s failed || status_eq s cancelled || status_eq s timeout
