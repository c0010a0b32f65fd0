-- ===== src/Worker/Claim.antt =====
-- worker/corndogs_worker.go: how a worker claims a task, runs its job and lands the result. What runs
-- the job, and what reads its workspace, are interfaces of the worker. Metrics, logs and the length
-- of pauses are left out.
use reactorcide.Prelude.{
  ℕ, zero, suc, ℤ, pos, same_ℤ, String, List, [], ◌∷◌, ◌++◌, Bool, true, false, not, ◌&&◌, Option,
  none, some, if◌then◌else◌, str_eq,
}
use reactorcide.Models.Status.{
  Status, submitted, queued, running, cancelling, completed, failed, cancelled, other, status_eq,
  is_cancelling,
}
use reactorcide.Models.Job.{
  Job, LastError, message, cancelled_error, killed_by_admin, CancelMode, kill_mode, no_mode,
  cancel_mode,
}
use reactorcide.Store.World.{
  Act, moved, task_completed, task_cancelled, executed, published, pushed, not_found, Result, ok,
  err, World, M, ◌>>=◌, ◌>>◌, return, fail, try, ignore, gets, modify,
}
use reactorcide.Store.Rows.{interfere, get_job_by_id, update_job, update_job_status_guarded, rows}
use reactorcide.Runtime.Evaluate.{deref_string}

-- A task of Corndogs; `job_id` is its payload's, if that parses.
pub record Task : Type 0 where
  pub uuid : String
  pub current_state : Status
  pub job_id : Option String

-- `JobResult` of job_processor.go, what the worker reads of it.
pub record JobResult : Type 0 where
  pub exit_code : ℤ
  pub was_cancelled : Bool
  pub was_killed : Bool
  pub logs_object_key : String
  pub artifacts_object_key : String
  pub workspace_dir : String

-- What the worker asks of its trigger processor (Worker/Hooks has the program's): `ProcessWorkflowJobStarted`, and
-- `ProcessWorkflowCompletion` and `ProcessTriggers` with the workspace.
pub record TriggerProcessor : Type 0 where
  pub job_started : Job → M (Unit {0})
  pub completion : String → Job → M (Unit {0})
  pub triggers : String → Job → M (Unit {0})

-- `process_job` is the processor's `ProcessJobWithContext`.
pub record CornDogsWorker : Type 0 where
  pub process_job : Job → JobResult
  pub trigger_processor : Option TriggerProcessor
  pub has_status_updater : Bool

-- The state of a task that is being worked on.
abbrev pub processing : Status
processing = other "processing"

unfoldable pub act : Act → M (Unit {0})
act a = modify (λ w. record w { acts = w.acts ++ a ∷ [] })

unfoldable pub update_task_failed : String → Status → M (Unit {0})
update_task_failed id state = act (moved id state failed)

unfoldable pub requeue_task : String → Status → M (Unit {0})
requeue_task id state = act (moved id state submitted)

-- The row, if the write landed.
abbrev pub landed : Result (Option (Unit {0} × Job)) → Option Job
landed (err e) = none
landed (ok none) = none
landed (ok (some (_, row))) = some row

abbrev pub blindly : Job → Result (Unit {0}) → Option Job
blindly job (err e) = none
blindly job (ok _) = some job

unfoldable pub finalize_stored : Job → List Status → (Job → Job) → Bool → M (Option Job)
finalize_stored job from apply true = do
  updated ← try (update_job_status_guarded job.job_id from (λ row. (tt, apply row)))
  return (landed updated)
finalize_stored job from apply false = do
  written ← try (update_job (apply job))
  return (blindly (apply job) written)

-- `none`: the write did not land.
unfoldable pub finalize_job_guarded : Job → List Status → (Job → Job) → M (Option Job)
finalize_job_guarded job from apply =
    gets (λ w. w.has_guards) >>= λ has_guards. finalize_stored job from apply has_guards

-- `IsKillRequested`
abbrev pub is_kill_requested : CancelMode → Bool
is_kill_requested kill_mode = true
is_kill_requested cancel_mode = false
is_kill_requested no_mode = false

abbrev pub claimed_error : Job → LastError
claimed_error job = if is_kill_requested job.cancel_mode then killed_by_admin else cancelled_error

-- What ends a job that is being cancelled.
abbrev pub end_cancelled : LastError → ℕ → Job → Job
end_cancelled e now row = record row { status = cancelled; last_error = e; completed_at = some now }

unfoldable pub cancel_claimed_task : Job → Task → Option Job → M (Unit {0})
cancel_claimed_task job task none = return tt
cancel_claimed_task job task (some row) = do
  act (task_cancelled task.uuid task.current_state)
  act (published job.job_id row.status)

unfoldable pub finalize_claimed_cancelling_job : Job → Task → M (Unit {0})
finalize_claimed_cancelling_job job task = do
  now ← gets (λ w. w.now)
  finalized ← finalize_job_guarded job (cancelling ∷ []) (end_cancelled (claimed_error job) now)
  cancel_claimed_task job task finalized

unfoldable pub lookup_again : M Job → Result Job → M Job
lookup_again again (ok job) = return job
lookup_again again (err not_found) = again
lookup_again again (err e) = fail e

-- `attempts` after the first. Others write while the worker waits.
unfoldable pub get_job_with_retry : ℕ → String → M Job
get_job_with_retry zero id = get_job_by_id id
get_job_with_retry (suc attempts) id = do
  found ← try (get_job_by_id id)
  lookup_again (modify (λ w. interfere w.rivals w) >> get_job_with_retry attempts id) found

-- `getJobLookupAttempts`, less the first.
abbrev pub lookup_attempts : ℕ
lookup_attempts = 4

-- The status push: `attempts` after the first, until one is taken.
unfoldable pub next_push : List Bool → World → Bool × World
next_push [] w = (false, w)
next_push (taken ∷ pushes) w = (taken, record w { pushes = pushes })

unfoldable pub update_job_status : Job → M Bool
update_job_status job w =
    let pushed_once = next_push w.pushes (record w { acts = w.acts ++ pushed job ∷ [] }) in
    (ok pushed_once.0, pushed_once.1)

unfoldable pub update_vcs_status_with_retry : ℕ → Job → M (Unit {0})
update_vcs_status_with_retry zero job = update_job_status job >>= λ _. return tt
update_vcs_status_with_retry (suc attempts) job = do
  taken ← update_job_status job
  if taken then return tt else update_vcs_status_with_retry attempts job

-- `vcsStatusUpdateAttempts`, less the first.
abbrev pub push_attempts : ℕ
push_attempts = 3

-- The worker's copy of the job after the run.
abbrev pub result_status : JobResult → Status
result_status result =
    if result.was_cancelled
    then cancelled
    else if same_ℤ result.exit_code (pos 0)
    then completed
    else failed

abbrev pub result_error : JobResult → LastError → LastError
result_error result old =
    if result.was_cancelled
    then (if result.was_killed then killed_by_admin else cancelled_error)
    else old

abbrev pub or_old : String → String → String
or_old new old = if str_eq new "" then old else new

abbrev pub with_result : JobResult → ℕ → Job → Job
with_result result now job = record job {
  status = result_status result;
  last_error = result_error result job.last_error;
  completed_at = some now;
  exit_code = some result.exit_code;
  logs_object_key = or_old result.logs_object_key job.logs_object_key;
  artifacts_object_key = or_old result.artifacts_object_key job.artifacts_object_key;
}

-- What the last guarded update does to the row.
abbrev pub to_finished : Job → Job → Job
to_finished job row = record row {
  status = job.status;
  last_error = job.last_error;
  completed_at = job.completed_at;
  exit_code = job.exit_code;
  logs_object_key = or_old job.logs_object_key row.logs_object_key;
  artifacts_object_key = or_old job.artifacts_object_key row.artifacts_object_key;
}

unfoldable pub settle_task : Task → JobResult → M (Unit {0})
settle_task task result =
    if result.was_cancelled
    then act (task_cancelled task.uuid processing)
    else if same_ℤ result.exit_code (pos 0)
    then act (task_completed task.uuid processing)
    else update_task_failed task.uuid processing

-- The row as it is, where the last write did not land; the worker's own copy if it cannot be read.
abbrev pub reloaded : Job → Result Job → Job
reloaded job (ok row) = row
reloaded job (err e) = job

unfoldable pub reload : Job → Option Job → M Job
reload job (some row) = return row
reload job none = do current ← try (get_job_by_id job.job_id); return (reloaded job current)

-- The triggers of a completed job, unless its workflow could not go on.
unfoldable pub run_triggers : TriggerProcessor → String → Job → Result (Unit {0}) → M (Unit {0})
run_triggers tp dir job (err e) = return tt
run_triggers tp dir job (ok _) =
    if status_eq job.status completed then ignore (tp.triggers dir job) else return tt

unfoldable pub process_workspace : Option TriggerProcessor → String → Job → M (Unit {0})
process_workspace none dir job = return tt
process_workspace (some tp) dir job =
    if str_eq dir ""
    then return tt
    else (do completion ← try (tp.completion dir job); run_triggers tp dir job completion)

unfoldable pub push_status : Bool → Job → M (Unit {0})
push_status has_updater job =
    if has_updater && str_eq (deref_string job.workflow_id) ""
    then update_vcs_status_with_retry push_attempts job
    else return tt

unfoldable pub notify_started : Option TriggerProcessor → Job → M (Unit {0})
notify_started none job = return tt
notify_started (some tp) job = ignore (tp.job_started job)

-- After the run: the task, the row, and the event. The answer is the row as it is then.
unfoldable pub land_row : JobResult → Task → Job → M Job
land_row result task job = do
  now ← gets (λ w. w.now)
  let mine = with_result result now job
  settle_task task result
  finalized ← finalize_job_guarded mine (running ∷ cancelling ∷ []) (to_finished mine)
  final ← reload mine finalized
  act (published final.job_id final.status)
  return final

-- Then the workspace and the commit status.
unfoldable pub land_result : CornDogsWorker → Task → Job → M (Unit {0})
land_result worker task job = do
  let result = worker.process_job job
  final ← land_row result task job
  process_workspace worker.trigger_processor result.workspace_dir final
  push_status worker.has_status_updater final

unfoldable pub run_claimed : CornDogsWorker → Task → Job → M (Unit {0})
run_claimed worker task job = do
  act (published job.job_id job.status)
  notify_started worker.trigger_processor job
  act (moved task.uuid task.current_state processing)
  act (executed job)
  land_result worker task job

-- The row when the claim did not land: cancelled meanwhile, or something else.
unfoldable pub after_race : Task → Result Job → M (Unit {0})
after_race task (ok current) =
    if is_cancelling current.status
    then finalize_claimed_cancelling_job current task
    else update_task_failed task.uuid task.current_state
after_race task (err e) = update_task_failed task.uuid task.current_state

unfoldable pub after_claim : CornDogsWorker → Task → Job → Option Job → M (Unit {0})
after_claim worker task job (some claimed) = run_claimed worker task claimed
after_claim worker task job none = try (get_job_by_id job.job_id) >>= after_race task

-- What the claim does to the row.
abbrev pub to_running : ℕ → Job → Job
to_running now row = record row { status = running; started_at = some now }

unfoldable pub claim : CornDogsWorker → Task → Job → M (Unit {0})
claim worker task job = do
  now ← gets (λ w. w.now)
  claimed ← finalize_job_guarded job (submitted ∷ queued ∷ []) (to_running now)
  after_claim worker task job claimed

unfoldable pub process_found : CornDogsWorker → Task → Result Job → M (Unit {0})
process_found worker task (err not_found) = requeue_task task.uuid task.current_state
process_found worker task (err e) = update_task_failed task.uuid task.current_state
process_found worker task (ok job) =
    if is_cancelling job.status
    then finalize_claimed_cancelling_job job task
    else claim worker task job

unfoldable pub process_parsed : CornDogsWorker → Task → Option String → M (Unit {0})
process_parsed worker task none = update_task_failed task.uuid task.current_state
process_parsed worker task (some id) =
    try (get_job_with_retry lookup_attempts id) >>= process_found worker task

-- `GetNextTask` answered an error, no task, or a task.
unfoldable pub process_next_task : CornDogsWorker → Result (Option Task) → M (Unit {0})
process_next_task worker (err e) = return tt
process_next_task worker (ok none) = return tt
process_next_task worker (ok (some task)) = process_parsed worker task task.job_id

-- The reaper: `ListStaleCancellingJobs` answered `stale`, or the store has no such operation.
abbrev pub reaped_error : LastError
reaped_error = message "cancelled: no active worker (reaped)"

unfoldable pub cancel_reaped_task : Bool → Job → Option Job → M (Unit {0})
cancel_reaped_task client job none = return tt
cancel_reaped_task client job (some row) =
    (if client && not (str_eq (deref_string job.corndogs_task_id) "")
      then act (task_cancelled (deref_string job.corndogs_task_id) processing)
      else return tt)
    >> act (published job.job_id row.status)

unfoldable pub reap_job : Job → M (Unit {0})
reap_job job = do
  now ← gets (λ w. w.now)
  finalized ← finalize_job_guarded job (cancelling ∷ []) (end_cancelled reaped_error now)
  client ← gets (λ w. w.has_client)
  cancel_reaped_task client job finalized

unfoldable pub reap_jobs : List Job → M (Unit {0})
reap_jobs [] = return tt
reap_jobs (job ∷ stale) = reap_job job >> reap_jobs stale

unfoldable pub reap_listed : Result (List Job) → M (Unit {0})
reap_listed (err e) = return tt
reap_listed (ok stale) = reap_jobs stale

unfoldable pub reap_stale_cancelling_jobs : Option (M (List Job)) → M (Unit {0})
reap_stale_cancelling_jobs none = return tt
reap_stale_cancelling_jobs (some lister) = try lister >>= reap_listed

-- All of this file, for proofs that run it.
unfoldable pub claiming : Unit {0}
unfolding rows act update_task_failed requeue_task finalize_stored finalize_job_guarded
    cancel_claimed_task finalize_claimed_cancelling_job lookup_again get_job_with_retry next_push
    update_job_status update_vcs_status_with_retry settle_task reload run_triggers process_workspace
    push_status notify_started land_row land_result run_claimed after_race after_claim claim
    process_found process_parsed process_next_task cancel_reaped_task reap_job reap_jobs reap_listed
    reap_stale_cancelling_jobs
claiming = tt
