-- ===== src/Worker/Landing.antt =====
-- The row of a task's job when no operation fails and nobody interferes: after a run, and where the job is
-- not run.
use mathlib.Core.Bool.{false≢true}
use reactorcide.Prelude.{
  ◌≡◌, refl, sym, subst, inl, inr, ℕ, String, [], ◌∷◌, Bool, true, false, Bool-cases, none, some,
  if◌then◌else◌, same_ℤ, pos, negsuc, zero, suc, arith, ℤ, ◌≢◌, ap, ◌∙◌, str_eq, str_eq_iff,
}
use reactorcide.Models.Status.{
  submitted, queued, running, cancelling, completed, failed, cancelled, status_in_set,
  is_cancelling,
}
use reactorcide.Models.Job.{Job, killed_by_admin, cancelled_error}
use reactorcide.Store.World.{ok, World}
use reactorcide.Store.Leads.{
  Leads, >>=-Leads, >>-Leads, return-Leads, gets-Leads, try-Leads, Brings, >>=-Brings, Leads-Brings,
  if-Leads,
}
use reactorcide.Store.Rows.{get_job_by_id}
use reactorcide.JobControl.Spares.{row_of}
use reactorcide.Worker.Claim.{
  Task, JobResult, CornDogsWorker, end_cancelled, claimed_error, cancel_claimed_task,
  finalize_claimed_cancelling_job, lookup_attempts, with_result, to_finished, to_running,
  settle_task, update_task_failed, reload, land_row, or_old, after_race, after_claim, claim,
  process_found, process_parsed, process_next_task,
}
use reactorcide.Worker.Outcome.{
  Serene, get_job_by_id-Leads, finalize_job_guarded-Leads, act-Leads, get_job_with_retry-Leads,
}

-- The row in the end of a job that does not wait: one that is being cancelled ends, any other is left.
abbrev pub left_row : ℕ → Job → Job
left_row now row =
    if is_cancelling row.status then end_cancelled (claimed_error row) now row else row

-- The row after a run: its status, error, time, code and keys are the run's, and all else is as it was.
pub record HasLanded (result : JobResult) (now : ℕ) (job row final : Job) : Type 0 where
  pub cancelled_run : result.was_cancelled ≡ true → final.status ≡ cancelled
  pub good_run : result.was_cancelled ≡ false → result.exit_code ≡ pos 0 → final.status ≡ completed
  pub bad_run : result.was_cancelled ≡ false → result.exit_code ≢ pos 0 → final.status ≡ failed
  pub killed :
      result.was_cancelled ≡ true → result.was_killed ≡ true → final.last_error ≡ killed_by_admin
  pub stopped :
      result.was_cancelled ≡ true → result.was_killed ≡ false → final.last_error ≡ cancelled_error
  pub old_error : result.was_cancelled ≡ false → final.last_error ≡ job.last_error
  pub ended_at : final.completed_at ≡ some now
  pub code : final.exit_code ≡ some result.exit_code
  pub new_logs : result.logs_object_key ≢ "" → final.logs_object_key ≡ result.logs_object_key
  pub new_artifacts :
      result.artifacts_object_key ≢ "" → final.artifacts_object_key ≡ result.artifacts_object_key
  pub rest : final ≡ record row {
    status = final.status;
    last_error = final.last_error;
    completed_at = final.completed_at;
    exit_code = final.exit_code;
    logs_object_key = final.logs_object_key;
    artifacts_object_key = final.artifacts_object_key;
  }

same_ℤ-apart : (n : ℤ) → n ≢ pos 0 → same_ℤ n (pos 0) ≡ false
same_ℤ-apart (pos zero) h = absurd (h refl)
same_ℤ-apart (pos (suc n)) h = ground arith
same_ℤ-apart (negsuc n) h = ground arith

or_old-new : (new old : String) → new ≢ "" → or_old new old ≡ new
or_old-new new old h = elim (Bool-cases (str_eq new "")) [
  | inl e ↦ absurd (h ((str_eq_iff _ _).0 e))
  | inr e ↦ rw e refl
]

to_finished-HasLanded :
    (result : JobResult) (now : ℕ) (job row : Job)
    → HasLanded result now job row (to_finished (with_result result now job) row)
to_finished-HasLanded result now job row = record {
  cancelled_run = λ c. rw c refl;
  good_run = λ c e. rw (c, e) refl;
  bad_run = λ c e. rw (c, same_ℤ-apart result.exit_code e) refl;
  killed = λ c k. rw (c, k) refl;
  stopped = λ c k. rw (c, k) refl;
  old_error = λ c. rw c refl;
  ended_at = refl;
  code = refl;
  new_logs = λ h. kept result.logs_object_key job.logs_object_key row.logs_object_key h;
  new_artifacts =
      λ h. kept result.artifacts_object_key job.artifacts_object_key row.artifacts_object_key h;
  rest = refl;
}
  where
    kept : (new old row_key : String) → new ≢ "" → or_old (or_old new old) row_key ≡ new
    kept new old row_key h =
        ap (λ k. or_old k row_key) (or_old-new new old h) ∙ or_old-new new row_key h

module _ (id : String) (now : ℕ) where
  finalize_claimed_cancelling_job-Leads :
      (row : Job) (task : Task)
      → row.job_id ≡ id
      → status_in_set row.status (cancelling ∷ []) ≡ true
      → Leads
          (Serene id now row)
          (finalize_claimed_cancelling_job row task)
          tt
          (Serene id now (end_cancelled (claimed_error row) now row))
  unfolding finalize_claimed_cancelling_job cancel_claimed_task
  finalize_claimed_cancelling_job-Leads row task same e =
      >>=-Leads _ (gets-Leads _ now (λ w s. s.time)) (
        >>=-Leads _
          (finalize_job_guarded-Leads id now row (cancelling ∷ [])
            (end_cancelled (claimed_error row) now) row same same true e)
          (>>-Leads (act-Leads id now _ _) (act-Leads id now _ _)))

  settle_task-Leads :
      (row : Job) (task : Task) (r : JobResult)
      → Leads (Serene id now row) (settle_task task r) tt (Serene id now row)
  unfolding settle_task update_task_failed
  settle_task-Leads row task r =
      if-Leads r.was_cancelled (act-Leads id now row _)
        (if-Leads (same_ℤ r.exit_code (pos 0)) (act-Leads id now row _) (act-Leads id now row _))

  -- The row is known if the write landed, and read again if not.
  reload-Leads :
      (mine new row : Job)
      → mine.job_id ≡ id
      → (b : Bool)
      → let final = if b then new else row in
        Leads
          (Serene id now final)
          (reload mine (if b then some new else none))
          final
          (Serene id now final)
  unfolding reload
  reload-Leads mine new row same true = return-Leads new
  reload-Leads mine new row same false =
      >>=-Leads _
        (try-Leads (
          subst (λ k. Leads (Serene id now row) (get_job_by_id k) row (Serene id now row))
            (sym same) (get_job_by_id-Leads id now row)))
        (return-Leads row)

  land_row-Leads :
      (result : JobResult) (task : Task) (job row : Job) (b : Bool)
      → job.job_id ≡ id
      → row.job_id ≡ id
      → status_in_set row.status (running ∷ cancelling ∷ []) ≡ b
      → let final = if b then to_finished (with_result result now job) row else row in
        Leads (Serene id now row) (land_row result task job) final (Serene id now final)
  unfolding land_row
  land_row-Leads result task job row b mine same e =
      >>=-Leads _ (gets-Leads _ now (λ w s. s.time)) (
        >>-Leads (settle_task-Leads row task result) (
          >>=-Leads _
            (finalize_job_guarded-Leads id now (with_result result now job)
              (running ∷ cancelling ∷ []) (to_finished (with_result result now job)) row mine same b
              e)
            (>>=-Leads _
              (reload-Leads (with_result result now job)
                (to_finished (with_result result now job) row) row mine b)
              (>>-Leads (act-Leads id now _ _) (return-Leads _)))))

  module _ (worker : CornDogsWorker) (row : Job) (same : row.job_id ≡ id) where
    -- Any other job is left.
    other-Brings :
        (task : Task)
        → status_in_set row.status (submitted ∷ queued ∷ []) ≡ false
        → is_cancelling row.status ≡ false
        → Brings (Serene id now row) (claim worker task row) (Serene id now row)
    unfolding claim after_claim after_race update_task_failed
    other-Brings task e c = >>=-Brings _ (gets-Leads _ now (λ w s. s.time)) (
        >>=-Brings _
          (finalize_job_guarded-Leads id now row (submitted ∷ queued ∷ []) (to_running now) row same
            same false e)
          (>>=-Brings _
            (try-Leads (
              subst (λ k. Leads (Serene id now row) (get_job_by_id k) row (Serene id now row))
                (sym same) (get_job_by_id-Leads id now row)))
            (rw c (Leads-Brings (act-Leads id now row _)))))

    cancelling_lem :
        is_cancelling row.status ≡ true → status_in_set row.status (cancelling ∷ []) ≡ true
    cancelling_lem e = rw e refl

    process_found-Brings :
        (task : Task)
        → status_in_set row.status (submitted ∷ queued ∷ []) ≡ false
        → Brings
            (Serene id now row)
            (process_found worker task (ok row))
            (Serene id now (left_row now row))
    unfolding process_found
    process_found-Brings task e = elim (Bool-cases (is_cancelling row.status)) [
      | inl c ↦
          rw c
            (Leads-Brings (finalize_claimed_cancelling_job-Leads row task same (cancelling_lem c)))
      | inr c ↦ rw c (other-Brings task e c)
    ]

    process_parsed-Brings :
        (task : Task)
        → status_in_set row.status (submitted ∷ queued ∷ []) ≡ false
        → Brings
            (Serene id now row)
            (process_parsed worker task (some id))
            (Serene id now (left_row now row))
    unfolding process_parsed
    process_parsed-Brings task e =
        >>=-Brings _ (try-Leads (get_job_with_retry-Leads id now lookup_attempts row))
          (process_found-Brings task e)

-- When no operation of the store fails and nobody interferes, a worker that is given the task of a job
-- that does not wait leaves its row, or ends it if it is being cancelled.
pub process_next_task-left_row :
    (worker : CornDogsWorker) (task : Task) (id : String) (row : Job) (now : ℕ) (w : World)
    → task.job_id ≡ some id
    → row.job_id ≡ id
    → status_in_set row.status (submitted ∷ queued ∷ []) ≡ false
    → Serene id now row w
    → row_of id (process_next_task worker (ok (some task)) w).1.jobs ≡ some (left_row now row)
unfolding process_next_task
process_next_task-left_row worker task id row now w e same waits s =
    subst (λ p. row_of id (process_parsed worker task p w).1.jobs ≡ some (left_row now row)) (sym e)
      ((process_parsed-Brings id now worker row same task waits).at w s).found

-- When no operation of the store fails and nobody interferes, the landing of a run's result, up to the
-- reading of the workspace, ends without an error, and answers the row as it is then. If the row said running or
-- cancelling, it is cancelled if the run was, completed if the run ended with code zero, failed if with
-- any other, with the error, time, code and log that belong to it, and all other columns are as they
-- were; a row with any other status, which another has finished meanwhile, is left as it was.
pub land_row-HasLanded :
    (result : JobResult) (task : Task) (job row : Job) (id : String) (now : ℕ) (w : World)
    → job.job_id ≡ id
    → row.job_id ≡ id
    → Serene id now row w
    → (final : Job) × ((land_row result task job w).0 ≡ ok final)
      × (row_of id (land_row result task job w).1.jobs ≡ some final)
      × (status_in_set row.status (running ∷ cancelling ∷ []) ≡ true
          → HasLanded result now job row final)
      × (status_in_set row.status (running ∷ cancelling ∷ []) ≡ false → final ≡ row)
land_row-HasLanded result task job row id now w mine same s =
    elim (Bool-cases (status_in_set row.status (running ∷ cancelling ∷ []))) [
      | inl e ↦
          let run = (land_row-Leads id now result task job row true mine same e).at w s in
          (
            _,
            run.0,
            run.1.found,
            (λ _. to_finished-HasLanded result now job row),
            λ h. absurd (false≢true (sym h ∙ e)),
          )
      | inr e ↦
          let run = (land_row-Leads id now result task job row false mine same e).at w s in
          (_, run.0, run.1.found, (λ h. absurd (false≢true (sym e ∙ h))), λ _. refl)
    ]
