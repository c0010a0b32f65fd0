-- ===== src/Worker/Cancelled.antt =====
-- A request to cancel, and the worker that gets the job's task after it.
use reactorcide.Prelude.{
  ◌≡◌, refl, sym, ap, ◌∙◌, subst, inl, inr, ℕ, String, List, [], ◌∷◌, Bool, true, false, not, ◌&&◌,
  Option, none, some, if◌then◌else◌, str_eq, Bool-cases, All,
}
use mathlib.Core.Bool.{false≢true}
use reactorcide.Models.Status.{
  Status, submitted, queued, cancelling, cancelled, status_eq, status_in_set, can_be_cancelled,
}
use reactorcide.Models.Job.{Job}
use reactorcide.Store.World.{Result, ok, err, World, modify, next_fault, attempt}
use reactorcide.Store.Rows.{interfere, guarded, update_job_status_guarded, next_cancel, cancel_task}
use reactorcide.Store.Triple.{
  Triple, Any, >>=-Triple, >>-Triple, return-Triple, fail-Triple, try-Triple, gets-Triple,
  if-Triple, unit_answer,
}
use reactorcide.JobControl.Spares.{row_of}
use reactorcide.JobControl.Cancel.{
  dequeue, finalize, after_cancelling, transition_stored, transition_job, is_allowed,
  cancellable_from_statuses, to_cancelling, to_cancelled,
}
use reactorcide.JobControl.Outcome.{calm, given_up, is_unclaimed, transition_job-outcome}
use reactorcide.Worker.Claim.{Task, CornDogsWorker, process_next_task}
use reactorcide.Worker.Unclaimed.{executions, some-inj, NotWaiting, process_next_task-Idle}
use reactorcide.Worker.Outcome.{Serene, calm-eq}
use reactorcide.Worker.Landing.{left_row, process_next_task-left_row}

-- Nothing fails, nobody interferes, the store has guarded updates, it is `now`, and these jobs were run.
pub record Quiet (now : ℕ) (runs : List Job) (w : World) : Type 0 where
  pub no_faults : w.faults ≡ []
  pub no_rivals : w.rivals ≡ []
  pub has_guards : w.has_guards ≡ true
  pub time : w.now ≡ now
  pub ran : executions w.acts ≡ runs

module _ (now : ℕ) (runs : List Job) where
  abbrev Kept : World → Type 0
  Kept = Quiet now runs

  next_fault-Quiet :
      (faults : List Bool) (w : World) → w.faults ≡ faults → Kept w → Kept (next_fault faults w).1
  unfolding next_fault
  next_fault-Quiet [] w e q = q
  next_fault-Quiet (b ∷ faults) w e q = let f = q.no_faults in absurd (cc)

  attempt-Quiet : Triple Kept Any attempt
  unfolding attempt
  attempt-Quiet = record {
    at = λ w q. (next_fault-Quiet w.faults w refl q, unit_answer (next_fault w.faults w).0);
  }

  interfere-Quiet :
      (rivals : List (List Job → List Job)) (w : World)
      → w.rivals ≡ rivals
      → Kept w
      → Kept (interfere rivals w)
  unfolding interfere
  interfere-Quiet [] w e q = q
  interfere-Quiet (r ∷ rivals) w e q = let f = q.no_rivals in absurd (cc)

  others-Quiet : Triple Kept Any (modify (λ w. interfere w.rivals w))
  unfolding modify
  others-Quiet = record { at = λ w q. (interfere-Quiet w.rivals w refl q, tt) }

  module _ {A : Type 0} (id : String) (from : List Status) (apply : Job → A × Job) where
    guarded-Quiet : (o : Option Job) → Triple Kept Any (guarded from apply o)
    unfolding guarded modify
    guarded-Quiet none = fail-Triple _
    guarded-Quiet (some job) =
        if-Triple (status_in_set job.status from)
          (λ _.
            >>-Triple
              (record {
                at = λ w q. (
                  record {
                    no_faults = q.no_faults;
                    no_rivals = q.no_rivals;
                    has_guards = q.has_guards;
                    time = q.time;
                    ran = q.ran;
                  },
                  tt,
                );
              })
              (return-Triple _ tt))
          (λ _. return-Triple _ tt)

    update-Quiet : Triple Kept Any (update_job_status_guarded id from apply)
    unfolding update_job_status_guarded
    update-Quiet = >>-Triple others-Quiet (
        >>-Triple attempt-Quiet
          (>>=-Triple {P = Any} (gets-Triple _ (λ w q. tt)) (λ o _. guarded-Quiet o)))

  next_cancel-Quiet : (cancels : List Bool) (w : World) → Kept w → Kept (next_cancel cancels w).1
  unfolding next_cancel
  next_cancel-Quiet [] w q = q
  next_cancel-Quiet (true ∷ cancels) w q = record {
    no_faults = q.no_faults;
    no_rivals = q.no_rivals;
    has_guards = q.has_guards;
    time = q.time;
    ran = q.ran;
  }
  next_cancel-Quiet (false ∷ cancels) w q = record {
    no_faults = q.no_faults;
    no_rivals = q.no_rivals;
    has_guards = q.has_guards;
    time = q.time;
    ran = q.ran;
  }

  cancel_task-Quiet : (id : String) → Triple Kept Any (cancel_task id)
  unfolding cancel_task
  cancel_task-Quiet id = record {
    at = λ w q. (
      next_cancel-Quiet w.cancels _ (record {
        no_faults = q.no_faults;
        no_rivals = q.no_rivals;
        has_guards = q.has_guards;
        time = q.time;
        ran = q.ran;
      }),
      unit_answer _,
    );
  }

  dequeue-Quiet : (client : Bool) (id : Option String) → Triple Kept Any (dequeue client id)
  unfolding dequeue
  dequeue-Quiet true (some id) =
      if-Triple (not (str_eq id "")) (λ _. cancel_task-Quiet id) (λ _. return-Triple tt tt)
  dequeue-Quiet true none = return-Triple tt tt
  dequeue-Quiet false id = return-Triple tt tt

  finalize-Quiet :
      (kill : Bool) (id : String) (updated : Job) (r : Result (Unit {0}))
      → Triple Kept Any (finalize kill id updated r)
  unfolding finalize
  finalize-Quiet kill id updated (err e) = return-Triple updated tt
  finalize-Quiet kill id updated (ok _) =
      >>=-Triple (update-Quiet id (cancelling ∷ []) (to_cancelled kill)) (λ r _. return-Triple _ tt)

  after_cancelling-Quiet :
      (kill : Bool) (id : String) (r : Option (Status × Job))
      → Triple Kept Any (after_cancelling kill id r)
  unfolding after_cancelling
  after_cancelling-Quiet kill id none = fail-Triple _
  after_cancelling-Quiet kill id (some (prior, updated)) =
      if-Triple (not (status_eq prior submitted) && not (status_eq prior queued))
        (λ _. return-Triple updated tt)
        (λ _. >>=-Triple {P = Any} (gets-Triple _ (λ w q. tt)) λ client _.
          >>=-Triple (try-Triple (dequeue-Quiet client updated.corndogs_task_id))
            λ r _. finalize-Quiet kill id updated r)

  -- A request to cancel runs nothing, and leaves the quiet.
  transition_job-Quiet : (kill : Bool) (job : Job) → Triple Kept Any (transition_job kill job)
  unfolding transition_job transition_stored
  transition_job-Quiet kill job =
      if-Triple (not (is_allowed kill job.status)) (λ _. fail-Triple _)
        λ _. >>=-Triple {P = λ b. b ≡ true} (gets-Triple _ (λ w q. q.has_guards)) λ b e.
          subst (λ g. Triple Kept Any (transition_stored kill job g)) (sym e)
            (>>=-Triple
              (update-Quiet job.job_id (cancellable_from_statuses kill) (to_cancelling kill))
              λ r _. after_cancelling-Quiet kill job.job_id r)

-- A job that waits may be cancelled, and has not started.
waiting_lem :
    (kill : Bool) (s : Status)
    → status_in_set s (submitted ∷ queued ∷ []) ≡ true
    → (is_unclaimed s ≡ true) × (is_allowed kill s ≡ true)
waiting_lem kill s h = elim (Bool-cases (status_eq s submitted)) [
  | inl e ↦ (rw e refl, allowed_if kill (rw e refl))
  | inr e ↦ elim (Bool-cases (status_eq s queued)) [
    | inl q ↦ (rw (e, q) refl, allowed_if kill (rw (e, q) refl))
    | inr q ↦ absurd (false≢true (rw (e, q) at h))
  ]
]
  where
    allowed_if : (kill : Bool) → can_be_cancelled s ≡ true → is_allowed kill s ≡ true
    allowed_if true c = rw c refl
    allowed_if false c = c

module _ (kill : Bool) (row : Job) (worker : CornDogsWorker) (now : ℕ) where
  ended : (d : Result (Unit {0})) → (left_row now (given_up kill row d)).status ≡ cancelled
  ended (ok _) = refl
  ended (err e) = refl

  not_waiting :
      (d : Result (Unit {0}))
      → status_in_set (given_up kill row d).status (submitted ∷ queued ∷ []) ≡ false
  not_waiting (ok _) = refl
  not_waiting (err e) = refl

  same_id : (d : Result (Unit {0})) → (given_up kill row d).job_id ≡ row.job_id
  same_id (ok _) = refl
  same_id (err e) = refl

-- The row after a request that is allowed.
requested :
    (kill : Bool) (job row : Job) (id : String) (now : ℕ) (w : World)
    → job.job_id ≡ id
    → row.job_id ≡ id
    → is_allowed kill job.status ≡ true
    → status_in_set row.status (submitted ∷ queued ∷ []) ≡ true
    → Serene id now row w
    → row_of id (transition_job kill job w).1.jobs
      ≡ some (given_up kill row (dequeue w.has_client row.corndogs_task_id w).0)
requested kill job row id now w mine same allowed waits s =
    let start = waiting_lem kill row.status waits in
    let dequeued = (dequeue w.has_client row.corndogs_task_id w).0 in
    subst (λ v. row_of id (transition_job kill job v).1.jobs ≡ some (given_up kill row dequeued))
      (calm-eq w s.no_faults s.no_rivals s.has_guards)
      (subst
        (λ k.
          row_of k (transition_job kill job (calm w)).1.jobs ≡ some (given_up kill row dequeued))
        mine
        ((transition_job-outcome kill job row w (same ∙ sym mine)
            (subst (λ k. row_of k w.jobs ≡ some row) (sym mine) s.found)).1
          ∙ ap some (
              chosen (is_allowed kill job.status) (is_allowed kill row.status)
                (is_unclaimed row.status) dequeued allowed start.1 start.0)))
  where
    chosen :
        (a b u : Bool) (d : Result (Unit {0}))
        → a ≡ true
        → b ≡ true
        → u ≡ true
        → (if a && b then (if u then given_up kill row d else (to_cancelling kill row).1) else row)
          ≡ given_up kill row d
    chosen true true true d p q r = refl
    chosen false b u d p q r = absurd (false≢true p)
    chosen true false u d p q r = absurd (false≢true q)
    chosen true true false d p q r = absurd (false≢true r)

-- When no operation of the store fails and nobody else interferes, a job that is submitted or queued, and
-- for which a request to cancel or kill that its copy allows is made, whether or not Corndogs gives
-- the task up, is cancelled in the end when a worker gets its task all the same, and no job was handed
-- to the processor.
pub transition_job-process_next_task :
    (kill : Bool) (job row : Job) (worker : CornDogsWorker) (task : Task) (id : String) (now : ℕ)
    (w : World)
    → job.job_id ≡ id
    → row.job_id ≡ id
    → task.job_id ≡ some id
    → is_allowed kill job.status ≡ true
    → status_in_set row.status (submitted ∷ queued ∷ []) ≡ true
    → Serene id now row w
    → let after = (process_next_task worker (ok (some task)) (transition_job kill job w).1).1 in
      ((final : Job) × ((row_of id after.jobs ≡ some final) × (final.status ≡ cancelled)))
      × (executions after.acts ≡ executions w.acts)
transition_job-process_next_task kill job row worker task id now w mine same tasked allowed waits
      s =
    let dequeued = (dequeue w.has_client row.corndogs_task_id w).0 in
    let found = requested kill job row id now w mine same allowed waits s in
    let quiet =
      ((transition_job-Quiet now (executions w.acts) kill job).at w (record {
        no_faults = s.no_faults;
        no_rivals = s.no_rivals;
        has_guards = s.has_guards;
        time = s.time;
        ran = refl;
      })).0 in
    (
      (
        left_row now (given_up kill row dequeued),
        (
          process_next_task-left_row worker task id (given_up kill row dequeued) now _ tasked
              (same_id kill row worker now dequeued ∙ same)
              (not_waiting kill row worker now dequeued)
              (record {
                found = found;
                no_faults = quiet.no_faults;
                no_rivals = quiet.no_rivals;
                has_guards = quiet.has_guards;
                time = quiet.time;
              }),
          ended kill row worker now dequeued,
        ),
      ),
      process_next_task-Idle worker task id _ tasked quiet.has_guards
            (λ r e.
              subst (λ j. status_in_set j.status (submitted ∷ queued ∷ []) ≡ false)
                (some-inj _ r (sym found ∙ e)) (not_waiting kill row worker now dequeued))
            (subst
              (All (λ rival. (jobs : List Job) → NotWaiting id jobs → NotWaiting id (rival jobs)))
              (sym quiet.no_rivals) tt)
          ∙ quiet.ran,
    )
