-- ===== src/Worker/Examples.antt =====
-- Runs of a worker on small states.
use reactorcide.Prelude.{
  ltb, if◌then◌else◌, negsuc, ◌*◌, ◌≡◌, refl, subst, pos, ℤ, List, [], ◌∷◌, map, true, false, none,
  some, codes,
}
use reactorcide.Models.Status.{
  Status, submitted, running, cancelling, completed, failed, cancelled, pending, queued,
  status_in_set,
}
use reactorcide.Models.Job.{Job, killed_by_admin, no_error, LastError}
use reactorcide.Models.Samples.{job, node}
use reactorcide.Store.World.{World, moved, task_cancelled, published, ok, return}
use reactorcide.Store.Samples.{quiet}
use reactorcide.JobControl.Spares.{row_of}
use reactorcide.Runtime.Completion.{
  process_workflow_job_started, process_workflow_completion, completion,
}
use reactorcide.Runtime.Triggers.{no_triggers}
use reactorcide.Worker.Hooks.{new_trigger_processor}
use reactorcide.Worker.Retry.{
  retryable_error, plain_error, wrapped, RetryConfig, Trial, retry_with_backoff_counter,
  classify_execution_error, retry_policy,
}
use reactorcide.Worker.Claim.{
  land_row, Task, JobResult, CornDogsWorker, process_next_task, reap_jobs, claiming,
}
use reactorcide.Worker.Untouched.{process_next_task-Finished}
use reactorcide.Worker.Unclaimed.{some-inj, executions, process_next_task-Idle}
use reactorcide.Worker.Landing.{HasLanded, land_row-HasLanded}
use reactorcide.Worker.Cancelled.{transition_job-process_next_task}
use reactorcide.JobControl.Cancel.{transition_job}
use reactorcide.Worker.Reaper.{reaped, reap_jobs-reaped}

abbrev exits : ℤ → JobResult
exits code = record {
  exit_code = code;
  was_cancelled = false;
  was_killed = false;
  logs_object_key = "logs/j";
  artifacts_object_key = "";
  workspace_dir = "/tmp/j";
}

-- A worker whose runs all end alike, without and with the runtime of workflows.
abbrev plain_worker : JobResult → CornDogsWorker
plain_worker result = record {
  process_job = λ _. result;
  trigger_processor = none;
  has_status_updater = true;
}

abbrev workflow_worker : CornDogsWorker
workflow_worker = record {
  process_job = λ _. exits (pos 0);
  trigger_processor = some (record {
    job_started = process_workflow_job_started;
    completion = λ _ job. process_workflow_completion job none;
    triggers = λ _ _. return tt;
  });
  has_status_updater = true;
}

abbrev task : Task
task = record { uuid = "t"; current_state = submitted; job_id = some "j" }

abbrev with_job : Status → World
with_job status = record (quiet []) { jobs = job "j" status ∷ job "k" completed ∷ [] }

abbrev job_statuses : World → List Status
job_statuses w = map (λ j. j.status) w.jobs

abbrev errors_of : World → List LastError
errors_of w = map (λ j. j.last_error) w.jobs

run_success :
    job_statuses
      (process_next_task (plain_worker (exits (pos 0))) (ok (some task)) (with_job submitted)).1
    ≡ completed ∷ completed ∷ []
unfolding claiming
run_success = refl

run_failure :
    job_statuses
      (process_next_task (plain_worker (exits (pos 3))) (ok (some task)) (with_job submitted)).1
    ≡ failed ∷ completed ∷ []
unfolding claiming
run_failure = refl

run_killed :
    errors_of
      (process_next_task
        (plain_worker (record (exits (pos 137)) { was_cancelled = true; was_killed = true }))
        (ok (some task))
        (with_job submitted)).1
    ≡ killed_by_admin ∷ no_error ∷ []
unfolding claiming
run_killed = refl

-- Cancelled after the worker took the task: nothing is run.
cancel_wins :
    job_statuses
      (process_next_task (plain_worker (exits (pos 0))) (ok (some task)) (with_job cancelling)).1
    ≡ cancelled ∷ completed ∷ []
unfolding claiming
cancel_wins = refl

cancel_wins_acts :
    (process_next_task (plain_worker (exits (pos 0))) (ok (some task)) (with_job cancelling)).1.acts
    ≡ task_cancelled "t" submitted ∷ published "j" cancelled ∷ []
unfolding claiming
cancel_wins_acts = refl

-- A cancel that comes between the worker's read and its claim.
abbrev set_status : Status → List Job → List Job
set_status s = map (λ (j : Job). record j { status = s })

cancel_races :
    executions
      (process_next_task
        (plain_worker (exits (pos 0)))
        (ok (some task))
        (record (with_job submitted) { rivals = set_status cancelling ∷ [] })).1.acts
    ≡ []
unfolding claiming
cancel_races = refl

-- A job that appears while the worker looks for it.
late_insert :
    job_statuses
      (process_next_task
        (plain_worker (exits (pos 0)))
        (ok (some task))
        (record (quiet []) { jobs = []; rivals = (λ _. job "j" queued ∷ []) ∷ [] })).1
    ≡ completed ∷ []
unfolding claiming
late_insert = refl

never_inserted :
    (process_next_task
      (plain_worker (exits (pos 0)))
      (ok (some task))
      (record (quiet []) { jobs = [] })).1.acts
    ≡ moved "t" submitted submitted ∷ []
unfolding claiming
never_inserted = refl

database_down :
    (process_next_task
      (plain_worker (exits (pos 0)))
      (ok (some task))
      (record (with_job submitted) { faults = true ∷ [] })).1.acts
    ≡ moved "t" submitted failed ∷ []
unfolding claiming
database_down = refl

-- The status is pushed until it is taken.
pushes_again :
    (process_next_task (plain_worker (exits (pos 0))) (ok (some task)) (record (quiet []) {
      jobs = record (job "j" submitted) { workflow_id = none } ∷ [];
      pushes = false ∷ false ∷ true ∷ true ∷ [];
    })).1.pushes
    ≡ true ∷ []
unfolding claiming
pushes_again = refl

-- The node of the job goes through running to completed, and the next node's job is submitted.
abbrev in_workflow : World
in_workflow =
    record (quiet (
      record (node "build" submitted [] (codes "")) { job_id = some "j" }
      ∷ node "check" pending ("build" ∷ []) (codes "")
      ∷ [])) {
        jobs = record (job "j" submitted) { workflow_id = some "wf" } ∷ job "parent" completed ∷ [];
      }

workflow_goes_on :
    map (λ n. n.status) (process_next_task workflow_worker (ok (some task)) in_workflow).1.nodes
    ≡ completed ∷ submitted ∷ []
unfolding claiming completion
workflow_goes_on = refl

-- The task of a cancelled job, with another job written meanwhile, and the program's own trigger processor.
abbrev real_worker : CornDogsWorker
real_worker = record {
  process_job = λ _. exits (pos 0);
  trigger_processor = some (
      new_trigger_processor (λ _. none) (λ v. v) (λ _. "{}") none (λ _ _. none) (λ _. none)
        (λ _. no_triggers));
  has_status_updater = true;
}

abbrev finished_meanwhile : World
finished_meanwhile = record (with_job cancelled) { rivals = (λ jobs. job "k" failed ∷ jobs) ∷ [] }

process_next_task-Finished_example :
    row_of "j" (process_next_task real_worker (ok (some task)) finished_meanwhile).1.jobs
    ≡ some (job "j" cancelled)
process_next_task-Finished_example =
    process_next_task-Finished real_worker task "j" (job "j" cancelled) finished_meanwhile refl refl
      ((refl, ((λ jobs h. h), tt)), refl, tt)

-- Another worker's row, and a request to cancel that comes in between.
abbrev cancelled_meanwhile : World
cancelled_meanwhile = record (with_job running) { rivals = (λ _. job "j" cancelling ∷ []) ∷ [] }

process_next_task-Idle_example :
    executions (process_next_task workflow_worker (ok (some task)) cancelled_meanwhile).1.acts ≡ []
process_next_task-Idle_example =
    process_next_task-Idle workflow_worker task "j" cancelled_meanwhile refl refl
      (λ row e.
        subst (λ r. status_in_set r.status (submitted ∷ queued ∷ []) ≡ false)
          (some-inj (job "j" running) row e) refl)
      (
        (λ _ _ row e.
            subst (λ r. status_in_set r.status (submitted ∷ queued ∷ []) ≡ false)
              (some-inj (job "j" cancelling) row e) refl),
        tt,
      )

-- The result of a run that failed, for a row that says running.
land_row-HasLanded_example :
    (final : Job) × ((land_row (exits (pos 3)) task (job "j" running) (with_job running)).0
      ≡ ok final)
    × (row_of "j" (land_row (exits (pos 3)) task (job "j" running) (with_job running)).1.jobs
        ≡ some final)
    × (true ≡ true → HasLanded (exits (pos 3)) 5000 (job "j" running) (job "j" running) final)
    × (true ≡ false → final ≡ job "j" running)
land_row-HasLanded_example =
    land_row-HasLanded (exits (pos 3)) task (job "j" running) (job "j" running) "j" 5000
      (with_job running) refl refl
      (record { found = refl; no_faults = refl; no_rivals = refl; has_guards = refl; time = refl })

reap_jobs-reaped_example :
    ((reap_jobs (job "j" cancelling ∷ []) (with_job cancelling)).0 ≡ ok tt)
    × (row_of "j" (reap_jobs (job "j" cancelling ∷ []) (with_job cancelling)).1.jobs
        ≡ some (reaped true 5000 (job "j" cancelling)))
reap_jobs-reaped_example =
    reap_jobs-reaped (job "j" cancelling ∷ []) "j" (job "j" cancelling) 5000 (with_job cancelling)
      refl
      (record { found = refl; no_faults = refl; no_rivals = refl; has_guards = refl; time = refl })

-- Two failures that are to be retried, then success; delays double up to five.
abbrev third_time : Trial
third_time = record {
  call = λ attempt.
      if ltb attempt 2 then some (retryable_error (plain_error "pull") true "") else none;
  before = λ _. none;
  waiting = λ _. none;
}

abbrev doubling : ℤ → RetryConfig
doubling retries = record {
  max_retries = retries;
  initial_delay = 3;
  max_delay = 5;
  next_delay = λ d. 2 * d;
  random_share = λ _ d. d;
}

third_time_works :
    retry_with_backoff_counter (doubling (pos 3)) third_time
    ≡ record { error = none; calls = 3; delays = 6 ∷ 10 ∷ [] }
unfolding retry_policy
third_time_works = refl

gives_up : retry_with_backoff_counter (doubling (pos 1)) third_time ≡ record {
  error = some (wrapped "operation failed" (retryable_error (plain_error "pull") true ""));
  calls = 2;
  delays = 6 ∷ [];
}
unfolding retry_policy
gives_up = refl

-- No error, although the function is never called.
never_called :
    retry_with_backoff_counter (doubling (negsuc 0)) third_time
    ≡ record { error = none; calls = 0; delays = [] }
unfolding retry_policy
never_called = refl

killed_again :
    classify_execution_error none (pos 137)
    ≡ some (retryable_error (plain_error "process killed") true "Process killed (possibly OOM)")
unfolding retry_policy
killed_again = refl

-- The request comes to a job whose task Corndogs does not give up any more.
abbrev claimed_task : World
claimed_task = record (with_job queued) { cancels = [] }

transition_job-process_next_task_example :
    let after =
      (process_next_task real_worker
        (ok (some task))
        (transition_job false (job "j" queued) claimed_task).1).1 in
    ((final : Job) × ((row_of "j" after.jobs ≡ some final) × (final.status ≡ cancelled)))
    × (executions after.acts ≡ [])
transition_job-process_next_task_example =
    transition_job-process_next_task false (job "j" queued) (job "j" queued) real_worker task "j"
      5000 claimed_task refl refl refl refl refl
      (record { found = refl; no_faults = refl; no_rivals = refl; has_guards = refl; time = refl })
