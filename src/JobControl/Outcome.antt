-- ===== src/JobControl/Outcome.antt =====
-- What a request to cancel or kill a job comes to when no operation fails and nobody interferes.
use reactorcide.Prelude.{
  ◌≡◌, refl, sym, ◌∙◌, subst, inl, inr, String, List, [], ◌∷◌, ◌++◌, Bool, true, false, ◌||◌, ◌&&◌,
  not, Bool-cases, Option, none, some, if◌then◌else◌, str_eq, str_eq_iff,
}
use reactorcide.Models.Status.{
  Status, submitted, queued, running, cancelling, cancelled, status_eq, status_in_set,
}
use reactorcide.Models.Job.{Job}
use reactorcide.Store.World.{
  not_cancellable, Result, ok, err, World, continue, ◌>>=◌, ◌>>◌, modify, return, gets, try, fail,
}
use reactorcide.Store.Rows.{put_job, guarded, update_job_status_guarded, next_cancel, rows}
use reactorcide.JobControl.Cancel.{
  mode_of, last_error_of, cancellable_from_statuses, is_allowed, to_cancelling, to_cancelled,
  dequeue, row_or, finalize, after_cancelling, transition_stored, transition_job,
}
use reactorcide.JobControl.Spares.{row_of}

-- No operation fails, nobody interferes, and the store has guarded updates.
abbrev pub calm : World → World
calm w = record w { faults = []; rivals = []; has_guards = true }

-- Not yet started.
abbrev pub is_unclaimed : Status → Bool
is_unclaimed s = status_eq s submitted || status_eq s queued

-- The row of a job that had not started: cancelled, if Corndogs gave its task up.
abbrev pub given_up : Bool → Job → Result (Unit {0}) → Job
given_up kill row (ok _) = record row {
  status = cancelled;
  cancel_mode = mode_of kill;
  last_error = last_error_of kill;
}
given_up kill row (err e) = record row { status = cancelling; cancel_mode = mode_of kill }

-- The row in the end. Any other job is left to its worker.
abbrev pub stopped : Bool → Job → Result (Unit {0}) → Job
stopped kill row dequeued =
    if is_unclaimed row.status
    then given_up kill row dequeued
    else record row { status = cancelling; cancel_mode = mode_of kill }

-- Both the caller's copy and the row itself have to allow the request.
abbrev pub outcome : Bool → Job → Job → Result (Unit {0}) → Result Job
outcome kill job row dequeued =
    if is_allowed kill job.status && is_allowed kill row.status
    then ok (stopped kill row dequeued)
    else err not_cancellable

abbrev pub row_in_the_end : Bool → Job → Job → Result (Unit {0}) → Job
row_in_the_end kill job row dequeued =
    if is_allowed kill job.status && is_allowed kill row.status
    then stopped kill row dequeued
    else row

any_of_three :
    (a b c : Bool)
    → (if a then true else if b then true else if c then true else false) ≡ (a || b || c)
any_of_three true b c = refl
any_of_three false true c = refl
any_of_three false false true = refl
any_of_three false false false = refl

any_of_four :
    (a b c d : Bool)
    → (if a then true else if b then true else if c then true else if d then true else false)
      ≡ (a || b || c || d)
any_of_four true b c d = refl
any_of_four false true c d = refl
any_of_four false false true d = refl
any_of_four false false false true = refl
any_of_four false false false false = refl

-- The set of statuses and the test on the caller's copy are the same.
allowed_lem :
    (kill : Bool) (s : Status)
    → status_in_set s (cancellable_from_statuses kill) ≡ is_allowed kill s
allowed_lem true s =
    any_of_four (status_eq s submitted) (status_eq s queued) (status_eq s running)
      (status_eq s cancelling)
allowed_lem false s =
    any_of_three (status_eq s submitted) (status_eq s queued) (status_eq s running)

-- A guarded update that finds the row.
pub update_job_status_guarded-calm :
    {A : Type 0} (id : String) (from : List Status) (apply : Job → A × Job) (w : World) (row : Job)
    → row_of id w.jobs ≡ some row
    → update_job_status_guarded id from apply (calm w) ≡ (
        if status_in_set row.status from
        then (ok (some (apply row)), record (calm w) { jobs = put_job (apply row).1 w.jobs })
        else (ok none, calm w))
unfolding rows
update_job_status_guarded-calm id from apply w row e =
    subst
      (λ o. guarded from apply o (calm w) ≡ (
        if status_in_set row.status from
        then (ok (some (apply row)), record (calm w) { jobs = put_job (apply row).1 w.jobs })
        else (ok none, calm w)))
      (sym e) (by_case (status_in_set row.status from))
  where
    by_case :
        (b : Bool)
        → (if b
              then (modify (λ v. record v { jobs = put_job (apply row).1 v.jobs })
                  >> return (some (apply row)))
              else return none)
            (calm w)
          ≡ (if b
              then (ok (some (apply row)), record (calm w) { jobs = put_job (apply row).1 w.jobs })
              else (ok none, calm w))
    by_case true = refl
    by_case false = refl

-- Asking Corndogs changes neither the job table nor the calm.
dequeue-calm :
    (client : Bool) (id : Option String) (jobs : List Job) (w : World)
    → dequeue client id (record (calm w) { jobs = jobs })
      ≡ ((dequeue client id w).0, record (calm (dequeue client id w).1) { jobs = jobs })
unfolding rows dequeue
dequeue-calm false id jobs w = refl
dequeue-calm true none jobs w = refl
dequeue-calm true (some id) jobs w = elim (Bool-cases (str_eq id "")) [
  | inl e ↦ rw e refl
  | inr e ↦ rw e (by_cancels w.cancels)
]
  where
    calls : World → World
    calls v = record v { cancel_calls = v.cancel_calls ++ id ∷ [] }

    by_cancels :
        (cancels : List Bool)
        → next_cancel cancels (calls (record (calm w) { jobs = jobs })) ≡ (
          (next_cancel cancels (calls w)).0,
          record (calm (next_cancel cancels (calls w)).1) { jobs = jobs },
        )
    by_cancels [] = refl
    by_cancels (true ∷ cancels) = refl
    by_cancels (false ∷ cancels) = refl

-- The row that was written is the one that is found.
pub row_of-put_job_self :
    (id : String) (new row : Job) (jobs : List Job)
    → new.job_id ≡ id
    → row_of id jobs ≡ some row
    → row_of id (put_job new jobs) ≡ some new
row_of-put_job_self id new row [] same e = absurd (cc)
row_of-put_job_self id new row (j ∷ jobs) same e = elim (Bool-cases (str_eq j.job_id id)) [
  | inl h ↦ rw ((str_eq_iff _ _).1 ((str_eq_iff _ _).0 h ∙ sym same), (str_eq_iff _ _).1 same) refl
  | inr h ↦
      rw (subst (λ k. str_eq j.job_id k ≡ false) (sym same) h, h)
        (row_of-put_job_self id new row jobs same (rw h at e))
]

-- What is left of a run: its answer, and the row that the key finds then.
abbrev Leaves : String → Job → Result Job × World → Type 0
Leaves id final (answer, w) = (answer ≡ ok final) × (row_of id w.jobs ≡ some final)

finalize-Leaves :
    (kill : Bool) (id : String) (row : Job) (dequeued : Result (Unit {0})) (w : World)
    → row.job_id ≡ id
    → row_of id w.jobs ≡ some (to_cancelling kill row).1
    → Leaves id
        (given_up kill row dequeued)
        (finalize kill id (to_cancelling kill row).1 dequeued (calm w))
unfolding finalize return ◌>>=◌ continue
finalize-Leaves kill id row (err e) w same found = (refl, found)
finalize-Leaves kill id row (ok _) w same found =
    let updated = (to_cancelling kill row).1 in
    subst
      (λ r. Leaves id (to_cancelled kill updated).1 (continue (λ o. return (row_or updated o)) r))
      (sym
        (update_job_status_guarded-calm id (cancelling ∷ []) (to_cancelled kill) w updated found))
      (refl, row_of-put_job_self id (to_cancelled kill updated).1 updated w.jobs same found)

after_cancelling-Leaves :
    (kill : Bool) (id : String) (row : Job) (jobs : List Job) (w : World)
    → row.job_id ≡ id
    → row_of id jobs ≡ some (to_cancelling kill row).1
    → Leaves id
        (stopped kill row (dequeue w.has_client row.corndogs_task_id w).0)
        (after_cancelling kill id (some (to_cancelling kill row)) (record (calm w) { jobs = jobs }))
unfolding after_cancelling return gets try ◌>>=◌ continue
after_cancelling-Leaves kill id row jobs w same found =
    by_case (status_eq row.status submitted) (status_eq row.status queued)
  where
    updated : Job
    updated = (to_cancelling kill row).1

    answer : Result (Unit {0})
    answer = (dequeue w.has_client row.corndogs_task_id w).0

    asked : Leaves id (given_up kill row answer) (
        (try (dequeue w.has_client row.corndogs_task_id) >>= finalize kill id updated)
          (record (calm w) { jobs = jobs }))
    asked =
        subst (λ r. Leaves id (given_up kill row answer) (finalize kill id updated r.0 r.1))
          (sym (dequeue-calm w.has_client row.corndogs_task_id jobs w))
          (finalize-Leaves kill id row answer
            (record (dequeue w.has_client row.corndogs_task_id w).1 { jobs = jobs }) same found)

    by_case :
        (a b : Bool)
        → Leaves id (if a || b then given_up kill row answer else updated) (
            (if not a && not b
                then return updated
                else (gets (λ v. v.has_client) >>= λ client.
                    try (dequeue client row.corndogs_task_id) >>= finalize kill id updated))
              (record (calm w) { jobs = jobs }))
    by_case true b = asked
    by_case false true = asked
    by_case false false = (refl, found)

-- A request to cancel or kill a job in a store with guarded updates, made with any copy of it, when
-- no operation fails and nobody interferes: if the row is there, and both the copy and the row allow
-- the request, a job that had not started is cancelled at once, unless Corndogs does not give its task
-- up, and any other is marked for its worker; and the answer is the row. If one of them does not allow
-- it, the request is refused and the row is left as it was.
pub transition_job-outcome :
    (kill : Bool) (job row : Job) (w : World)
    → row.job_id ≡ job.job_id
    → row_of job.job_id w.jobs ≡ some row
    → let dequeued = (dequeue w.has_client row.corndogs_task_id w).0 in
      ((transition_job kill job (calm w)).0 ≡ outcome kill job row dequeued)
      × (row_of job.job_id (transition_job kill job (calm w)).1.jobs
          ≡ some (row_in_the_end kill job row dequeued))
unfolding transition_job gets fail ◌>>=◌ continue transition_stored after_cancelling
transition_job-outcome kill job row w same found = by_copy (is_allowed kill job.status)
  where
    dequeued : Result (Unit {0})
    dequeued = (dequeue w.has_client row.corndogs_task_id w).0

    Ends : Bool → Bool → Result Job × World → Type 0
    Ends a b (answer, v) =
        (answer ≡ (if a && b then ok (stopped kill row dequeued) else err not_cancellable))
        × (row_of job.job_id v.jobs ≡ some (if a && b then stopped kill row dequeued else row))

    after_update :
        (b : Bool)
        → Ends true b (
            continue (after_cancelling kill job.job_id) (
              if b
              then (
                ok (some (to_cancelling kill row)),
                record (calm w) { jobs = put_job (to_cancelling kill row).1 w.jobs },
              )
              else (ok none, calm w)))
    after_update true =
        after_cancelling-Leaves kill job.job_id row (put_job (to_cancelling kill row).1 w.jobs) w
          same (row_of-put_job_self job.job_id (to_cancelling kill row).1 row w.jobs same found)
    after_update false = (refl, found)

    stored : Ends true (is_allowed kill row.status) (transition_stored kill job true (calm w))
    stored =
        subst
          (λ r.
            Ends true (is_allowed kill row.status) (continue (after_cancelling kill job.job_id) r))
          (sym (
            update_job_status_guarded-calm job.job_id (cancellable_from_statuses kill)
              (to_cancelling kill) w row found))
          (subst
            (λ b. Ends true b (
              continue (after_cancelling kill job.job_id) (
                if status_in_set row.status (cancellable_from_statuses kill)
                then (
                  ok (some (to_cancelling kill row)),
                  record (calm w) { jobs = put_job (to_cancelling kill row).1 w.jobs },
                )
                else (ok none, calm w))))
            (allowed_lem kill row.status)
            (after_update (status_in_set row.status (cancellable_from_statuses kill))))

    by_copy :
        (a : Bool)
        → Ends a (is_allowed kill row.status) (
            (if not a
                then fail not_cancellable
                else (gets (λ v. v.has_guards) >>= λ guards. transition_stored kill job guards))
              (calm w))
    by_copy true = stored
    by_copy false = (refl, found)
