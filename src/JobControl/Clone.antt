-- ===== src/JobControl/Clone.antt =====
-- What a retried job takes over from the job that it repeats.
use reactorcide.Prelude.{◌≡◌, pos, add64, none, some}
use reactorcide.Models.Status.{Status}
use reactorcide.Models.Job.{Job, no_mode}
use reactorcide.Store.World.{World}
use reactorcide.Store.Ensures.{Ensures}

-- A new attempt at `old`: the same work, in the same place of the same workflow, with no trace of an
-- execution.
abbrev pub Attempt : Job → Job → Type 0
Attempt old new =
    (new.spec ≡ old.spec)
    × (new.parent_job_id ≡ some old.job_id)
    × (new.retry_count ≡ add64 old.retry_count (pos 1))
    × (new.workflow_id ≡ old.workflow_id)
    × (new.workflow_node_id ≡ old.workflow_node_id)
    × (new.cancel_mode ≡ no_mode)
    × (new.started_at ≡ none)
    × (new.completed_at ≡ none)
    × (new.exit_code ≡ none)
    × (new.worker_id ≡ none)
    × (new.logs_object_key ≡ "")
    × (new.artifacts_object_key ≡ "")
