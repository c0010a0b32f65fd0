-- ===== src/Worker/Invariant.antt =====
-- What the steps of a worker keep: a property of the job table that others keep too, and one of what the
-- worker has done so far.
use reactorcide.Prelude.{
  ◌≡◌, refl, sym, subst, inl, inr, zero, suc, ℕ, String, List, [], ◌∷◌, ◌++◌, Bool, true, false,
  Bool-cases, Option, none, some, str_eq, All, not, ◌&&◌,
}
use reactorcide.Models.Status.{Status, cancelling, status_in_set, is_cancelling}
use reactorcide.Models.Job.{Job, LastError}
use reactorcide.Store.World.{
  not_found, store_error, corndogs_error, not_cancellable, not_retryable, workflow_not_retryable,
  workflows_unsupported, caused_by, Act, moved, task_completed, task_cancelled, executed, published,
  pushed, Result, ok, err, World, M, ◌>>=◌, ◌>>◌, return, fail, gets, modify, next_fault, attempt,
  from_option, continue,
}
use reactorcide.Store.Rows.{put_job, interfere, get_job_by_id, guarded, update_job_status_guarded}
use reactorcide.Store.Ensures.{IfOk}
use reactorcide.Store.Triple.{
  Triple, Any, >>=-Triple, >>-Triple, return-Triple, fail-Triple, try-Triple, gets-Triple,
  modify-Triple, if-Triple, unit_answer,
}
use reactorcide.JobControl.Spares.{row_of, Spare}
use reactorcide.JobControl.Race.{row_of-job_id}
use reactorcide.Worker.Claim.{
  Task, CornDogsWorker, act, update_task_failed, requeue_task, landed, finalize_stored,
  finalize_job_guarded, end_cancelled, claimed_error, cancel_claimed_task,
  finalize_claimed_cancelling_job, lookup_again, get_job_with_retry, lookup_attempts, after_race,
  claim, process_found, process_parsed, cancel_reaped_task, reap_job, reap_jobs, reaped_error,
  processing,
}
use reactorcide.Runtime.Evaluate.{deref_string}

-- `Q` holds of the job table and is kept by the others, the store has guarded updates, and `E` holds of
-- what was done.
abbrev pub Inv : (List Job → Type 0) → (List Act → Type 0) → World → Type 0
Inv Q E w = Spare Q w × (w.has_guards ≡ true) × E w.acts

abbrev pub is_execution : Act → Bool
is_execution (executed _) = true
is_execution (moved _ _ _) = false
is_execution (task_completed _ _) = false
is_execution (task_cancelled _ _) = false
is_execution (published _ _) = false
is_execution (pushed _) = false

-- Acts that are no executions do not matter.
abbrev pub Lenient : (List Act → Type 0) → Type 0
Lenient E = (a : Act) (acts : List Act) → is_execution a ≡ false → E acts → E (acts ++ a ∷ [])

-- A guarded update keeps `Q`, and `P` holds of the row that it leaves.
abbrev pub Hit : (List Job → Type 0) → String → List Status → (Job → Job) → (Job → Type 0) → Type 0
Hit Q id from apply P =
    (jobs : List Job) (row : Job)
    → row_of id jobs ≡ some row
    → status_in_set row.status from ≡ true
    → Q jobs
    → Q (put_job (apply row) jobs) × P (apply row)

abbrev pub IfSome : (Job → Type 0) → Type 0 → Option Job → Type 0
IfSome P N none = N
IfSome P N (some job) = P job

module _ (Q : List Job → Type 0) (E : List Act → Type 0) where
  pub act-Triple :
      (a : Act) → ((acts : List Act) → E acts → E (acts ++ a ∷ [])) → Triple (Inv Q E) Any (act a)
  unfolding act
  act-Triple a h = modify-Triple _ (λ w i. (i.0, i.1, h w.acts i.2))

  next_fault-Triple : (faults : List Bool) (w : World) → Inv Q E w → Inv Q E (next_fault faults w).1
  unfolding next_fault
  next_fault-Triple [] w i = i
  next_fault-Triple (true ∷ faults) w i = i
  next_fault-Triple (false ∷ faults) w i = i

  attempt-Triple : Triple (Inv Q E) Any attempt
  unfolding attempt
  attempt-Triple = record {
    at = λ w i. (next_fault-Triple w.faults w i, unit_answer (next_fault w.faults w).0);
  }

  interfere-at :
      (rivals : List (List Job → List Job)) (w : World)
      → w.rivals ≡ rivals
      → Inv Q E w
      → Inv Q E (interfere rivals w)
  unfolding interfere
  interfere-at [] w e i = i
  interfere-at (rival ∷ rivals) w e i =
      let keep = subst (All (λ r. (jobs : List Job) → Q jobs → Q (r jobs))) e i.0.1 in
      ((keep.0 w.jobs i.0.0, keep.1), i.1, i.2)

  pub interfere-Triple : Triple (Inv Q E) Any (modify (λ w. interfere w.rivals w))
  interfere-Triple = modify-Triple _ (λ w i. interfere-at w.rivals w refl i)

  found-Triple :
      (id : String) (o : Option Job)
      → ((row : Job) → o ≡ some row → row.job_id ≡ id)
      → Triple (Inv Q E) (λ job. job.job_id ≡ id) (from_option o)
  unfolding from_option
  found-Triple id none h = fail-Triple not_found
  found-Triple id (some row) h = return-Triple row (h row refl)

  -- A row that is read has the key that was asked for.
  pub get_job_by_id-Triple :
      (id : String) → Triple (Inv Q E) (λ job. job.job_id ≡ id) (get_job_by_id id)
  unfolding get_job_by_id
  get_job_by_id-Triple id = >>-Triple attempt-Triple (
      >>=-Triple {P = λ o. (row : Job) → o ≡ some row → row.job_id ≡ id}
        (gets-Triple _ (λ w i row e. row_of-job_id id w.jobs row e)) (λ o h. found-Triple id o h))

  module _ (id : String) (from : List Status) (apply : Job → Job) (P : Job → Type 0) (N : Type 0)
      (miss : N) (hit : Hit Q id from apply P) where
    abbrev Written : Option (Unit {0} × Job) → Type 0
    Written none = N
    Written (some (_, row)) = P row

    guarded-at :
        (w : World) (found : Option Job)
        → row_of id w.jobs ≡ found
        → Inv Q E w
        → Inv Q E (guarded from (λ row. (tt, apply row)) found w).1
          × IfOk Written (guarded from (λ row. (tt, apply row)) found w).0
    unfolding guarded fail modify return ◌>>◌ ◌>>=◌ continue
    guarded-at w none e i = (i, tt)
    guarded-at w (some job) e i = elim (Bool-cases (status_in_set job.status from)) [
      | inl h ↦ rw h (let r = hit w.jobs job e h i.0.0 in (((r.0, i.0.1), i.1, i.2), r.1))
      | inr h ↦ rw h (i, miss)
    ]

    found_row-Triple :
        Triple
          (Inv Q E)
          Written
          (gets (λ w. row_of id w.jobs) >>= λ found. guarded from (λ row. (tt, apply row)) found)
    unfolding gets ◌>>=◌ continue
    found_row-Triple = record { at = λ w i. guarded-at w (row_of id w.jobs) refl i }

    update_job_status_guarded-Triple :
        Triple (Inv Q E) Written (update_job_status_guarded id from (λ row. (tt, apply row)))
    unfolding update_job_status_guarded
    update_job_status_guarded-Triple =
        >>-Triple interfere-Triple (>>-Triple attempt-Triple found_row-Triple)

    landed-IfSome : (r : Result (Option (Unit {0} × Job))) → IfOk Written r → IfSome P N (landed r)
    landed-IfSome (ok none) h = h
    landed-IfSome (ok (some (_, row))) h = h
    landed-IfSome (err e) h = miss

  -- A guarded update of the worker.
  pub finalize_job_guarded-Triple :
      (job : Job) (from : List Status) (apply : Job → Job) (P : Job → Type 0) (N : Type 0)
      → N
      → Hit Q job.job_id from apply P
      → Triple (Inv Q E) (IfSome P N) (finalize_job_guarded job from apply)
  unfolding finalize_job_guarded finalize_stored
  finalize_job_guarded-Triple job from apply P N miss hit =
      >>=-Triple {P = λ b. b ≡ true} (gets-Triple _ (λ w i. i.1)) λ b e.
        subst (λ b'. Triple (Inv Q E) (IfSome P N) (finalize_stored job from apply b')) (sym e)
          (>>=-Triple
            (try-Triple (update_job_status_guarded-Triple job.job_id from apply P N miss hit))
            λ r h. return-Triple (landed r) (landed-IfSome job.job_id from apply P N miss hit r h))

-- What a step that ends a cancelled job has to keep.
abbrev pub EndsCancelled : (List Job → Type 0) → Type 0
EndsCancelled Q =
    (key : String) (e : LastError) (now : ℕ)
    → Hit Q key (cancelling ∷ []) (end_cancelled e now) (Any {A = Job})

module _ (Q : List Job → Type 0) (E : List Act → Type 0) (lenient : Lenient E)
    (ends : EndsCancelled Q) where
  pub plain_act-Triple : (a : Act) → is_execution a ≡ false → Triple (Inv Q E) Any (act a)
  plain_act-Triple a h = act-Triple Q E a (λ acts e. lenient a acts h e)

  cancel_claimed_task-Triple :
      (job : Job) (task : Task) (o : Option Job)
      → Triple (Inv Q E) Any (cancel_claimed_task job task o)
  unfolding cancel_claimed_task
  cancel_claimed_task-Triple job task none = return-Triple tt tt
  cancel_claimed_task-Triple job task (some row) =
      >>-Triple (plain_act-Triple _ refl) (plain_act-Triple _ refl)

  pub finalize_claimed_cancelling_job-Triple :
      (job : Job) (task : Task) → Triple (Inv Q E) Any (finalize_claimed_cancelling_job job task)
  unfolding finalize_claimed_cancelling_job
  finalize_claimed_cancelling_job-Triple job task =
      >>=-Triple {P = Any} (gets-Triple _ (λ w i. tt)) λ now _.
        >>=-Triple
          (finalize_job_guarded-Triple Q E job (cancelling ∷ [])
            (end_cancelled (claimed_error job) now) Any Unit tt
            (ends job.job_id (claimed_error job) now))
          λ o _. cancel_claimed_task-Triple job task o

  pub update_task_failed-Triple :
      (id : String) (state : Status) → Triple (Inv Q E) Any (update_task_failed id state)
  unfolding update_task_failed
  update_task_failed-Triple id state = plain_act-Triple _ refl

  pub requeue_task-Triple :
      (id : String) (state : Status) → Triple (Inv Q E) Any (requeue_task id state)
  unfolding requeue_task
  requeue_task-Triple id state = plain_act-Triple _ refl

  lookup_again-Triple :
      (id : String) (again : M Job) (r : Result Job)
      → Triple (Inv Q E) (λ job. job.job_id ≡ id) again
      → IfOk (λ job. job.job_id ≡ id) r
      → Triple (Inv Q E) (λ job. job.job_id ≡ id) (lookup_again again r)
  unfolding lookup_again
  lookup_again-Triple id again (ok job) h p = return-Triple job p
  lookup_again-Triple id again (err not_found) h p = h
  lookup_again-Triple id again (err store_error) h p = fail-Triple _
  lookup_again-Triple id again (err corndogs_error) h p = fail-Triple _
  lookup_again-Triple id again (err not_cancellable) h p = fail-Triple _
  lookup_again-Triple id again (err not_retryable) h p = fail-Triple _
  lookup_again-Triple id again (err workflow_not_retryable) h p = fail-Triple _
  lookup_again-Triple id again (err workflows_unsupported) h p = fail-Triple _
  lookup_again-Triple id again (err (caused_by _)) h p = fail-Triple _

  get_job_with_retry-Triple :
      (attempts : ℕ) (id : String)
      → Triple (Inv Q E) (λ job. job.job_id ≡ id) (get_job_with_retry attempts id)
  unfolding get_job_with_retry
  get_job_with_retry-Triple zero id = get_job_by_id-Triple Q E id
  get_job_with_retry-Triple (suc attempts) id =
      >>=-Triple (try-Triple (get_job_by_id-Triple Q E id)) λ r h.
        lookup_again-Triple id _ r
          (>>-Triple (interfere-Triple Q E) (get_job_with_retry-Triple attempts id)) h

  pub after_race-Triple : (task : Task) (r : Result Job) → Triple (Inv Q E) Any (after_race task r)
  unfolding after_race
  after_race-Triple task (err e) = update_task_failed-Triple _ _
  after_race-Triple task (ok current) =
      if-Triple (is_cancelling current.status)
        (λ _. finalize_claimed_cancelling_job-Triple current task)
        (λ _. update_task_failed-Triple _ _)

  module _ (worker : CornDogsWorker) (task : Task) (id : String)
      (claims : (job : Job) → job.job_id ≡ id → Triple (Inv Q E) Any (claim worker task job)) where
    process_found-Triple :
        (r : Result Job)
        → IfOk (λ job. job.job_id ≡ id) r
        → Triple (Inv Q E) Any (process_found worker task r)
    unfolding process_found
    process_found-Triple (ok job) h =
        if-Triple (is_cancelling job.status) (λ _. finalize_claimed_cancelling_job-Triple job task)
          (λ _. claims job h)
    process_found-Triple (err not_found) h = requeue_task-Triple _ _
    process_found-Triple (err store_error) h = update_task_failed-Triple _ _
    process_found-Triple (err corndogs_error) h = update_task_failed-Triple _ _
    process_found-Triple (err not_cancellable) h = update_task_failed-Triple _ _
    process_found-Triple (err not_retryable) h = update_task_failed-Triple _ _
    process_found-Triple (err workflow_not_retryable) h = update_task_failed-Triple _ _
    process_found-Triple (err workflows_unsupported) h = update_task_failed-Triple _ _
    process_found-Triple (err (caused_by _)) h = update_task_failed-Triple _ _

    -- Whatever the claim keeps, the whole of the processing keeps.
    pub process_parsed-Triple : Triple (Inv Q E) Any (process_parsed worker task (some id))
    unfolding process_parsed
    process_parsed-Triple =
        >>=-Triple (try-Triple (get_job_with_retry-Triple lookup_attempts id)) process_found-Triple

  cancel_reaped_task-Triple :
      (client : Bool) (job : Job) (o : Option Job)
      → Triple (Inv Q E) Any (cancel_reaped_task client job o)
  unfolding cancel_reaped_task
  cancel_reaped_task-Triple client job none = return-Triple tt tt
  cancel_reaped_task-Triple client job (some row) =
      >>-Triple
        (if-Triple (client && not (str_eq (deref_string job.corndogs_task_id) ""))
          (λ _.
            plain_act-Triple (task_cancelled (deref_string job.corndogs_task_id) processing) refl)
          (λ _. return-Triple tt tt))
        (plain_act-Triple _ refl)

  reap_job-Triple : (job : Job) → Triple (Inv Q E) Any (reap_job job)
  unfolding reap_job
  reap_job-Triple job = >>=-Triple {P = Any} (gets-Triple _ (λ w i. tt)) λ now _.
      >>=-Triple
        (finalize_job_guarded-Triple Q E job (cancelling ∷ []) (end_cancelled reaped_error now) Any
          Unit tt (ends job.job_id reaped_error now))
        λ o _.
          >>=-Triple {P = Any} (gets-Triple _ (λ w i. tt))
            λ client _. cancel_reaped_task-Triple client job o

  pub reap_jobs-Triple : (stale : List Job) → Triple (Inv Q E) Any (reap_jobs stale)
  unfolding reap_jobs
  reap_jobs-Triple [] = return-Triple tt tt
  reap_jobs-Triple (job ∷ stale) = >>-Triple (reap_job-Triple job) (reap_jobs-Triple stale)
