-- ===== src/JobControl/Race.antt =====
-- Finished jobs, and requests to cancel that come too late.
use mathlib.Core.Bool.{false≢true}
use reactorcide.Prelude.{
  ◌≡◌, refl, sym, subst, ap, ◌∙◌, ◌≢◌, inl, inr, String, List, [], ◌∷◌, Bool, true, false,
  Bool-cases, not, ◌&&◌, Option, none, some, if◌then◌else◌, str_eq, str_eq_iff, All,
}
use reactorcide.Models.Status.{
  Status, submitted, queued, running, cancelling, completed, failed, cancelled, timeout, pending,
  waiting, skipped, evaluating, success, other, status_eq, status_in_set, is_completed,
}
use reactorcide.Models.Job.{Job}
use reactorcide.Store.World.{Result, ok, err, World, continue, ◌>>=◌, fail, gets}
use reactorcide.Store.Rows.{put_job}
use reactorcide.JobControl.Spares.{
  row_of, Spares, >>=-Spares, return-Spares, fail-Spares, try-Spares, gets-Spares, dequeue-Spares,
  if-Spares, update_job_status_guarded-Spares,
}
use reactorcide.Runtime.Build.{value_or}
use reactorcide.JobControl.Cancel.{
  cancellable_from_statuses, to_cancelling, to_cancelled, finalize, after_cancelling,
  transition_stored, transition_job, is_allowed,
}

-- No status is both finished and one from which a job is cancelled, or taken from cancelling on.
finished_or_cancellable :
    (kill : Bool) (s : Status)
    → is_completed s ≡ true
    → status_in_set s (cancellable_from_statuses kill) ≢ true
finished_or_cancellable true completed h k = false≢true k
finished_or_cancellable false completed h k = false≢true k
finished_or_cancellable true failed h k = false≢true k
finished_or_cancellable false failed h k = false≢true k
finished_or_cancellable true cancelled h k = false≢true k
finished_or_cancellable false cancelled h k = false≢true k
finished_or_cancellable true timeout h k = false≢true k
finished_or_cancellable false timeout h k = false≢true k
finished_or_cancellable kill submitted h k = false≢true h
finished_or_cancellable kill queued h k = false≢true h
finished_or_cancellable kill running h k = false≢true h
finished_or_cancellable kill cancelling h k = false≢true h
finished_or_cancellable kill pending h k = false≢true h
finished_or_cancellable kill waiting h k = false≢true h
finished_or_cancellable kill skipped h k = false≢true h
finished_or_cancellable kill evaluating h k = false≢true h
finished_or_cancellable kill success h k = false≢true h
finished_or_cancellable kill (other _) h k = false≢true h

pub finished_or_cancelling :
    (s : Status) → is_completed s ≡ true → status_in_set s (cancelling ∷ []) ≢ true
finished_or_cancelling completed h k = false≢true k
finished_or_cancelling failed h k = false≢true k
finished_or_cancelling cancelled h k = false≢true k
finished_or_cancelling timeout h k = false≢true k
finished_or_cancelling submitted h k = false≢true h
finished_or_cancelling queued h k = false≢true h
finished_or_cancelling running h k = false≢true h
finished_or_cancelling cancelling h k = false≢true h
finished_or_cancelling pending h k = false≢true h
finished_or_cancelling waiting h k = false≢true h
finished_or_cancelling skipped h k = false≢true h
finished_or_cancelling evaluating h k = false≢true h
finished_or_cancelling success h k = false≢true h
finished_or_cancelling (other _) h k = false≢true h

pub str_eq-false : (a b : String) → a ≢ b → str_eq a b ≡ false
str_eq-false a b ne = elim (Bool-cases (str_eq a b)) [
  | inl e ↦ absurd (ne ((str_eq_iff a b).0 e))
  | inr e ↦ e
]

-- Writing a row does not change which row another key finds.
pub row_of-put_job :
    (id : String) (new : Job) (jobs : List Job)
    → new.job_id ≢ id
    → row_of id (put_job new jobs) ≡ row_of id jobs
row_of-put_job id new [] ne = refl
row_of-put_job id new (j ∷ jobs) ne = elim (Bool-cases (str_eq j.job_id new.job_id)) [
  | inl e ↦
      rw
        (
          e,
          str_eq-false new.job_id id ne,
          str_eq-false j.job_id id (λ q. ne (sym ((str_eq_iff _ _).0 e) ∙ q)),
        )
        (row_of-put_job id new jobs ne)
  | inr e ↦
      rw e (ap (λ r. if str_eq j.job_id id then some j else r) (row_of-put_job id new jobs ne))
]

pub row_of-job_id :
    (id : String) (jobs : List Job) (job : Job) → row_of id jobs ≡ some job → job.job_id ≡ id
row_of-job_id id [] job h = absurd (cc)
row_of-job_id id (j ∷ jobs) job h = elim (Bool-cases (str_eq j.job_id id)) [
  | inl e ↦ ap (λ o. (value_or o j).job_id) (sym (rw e at h)) ∙ (str_eq_iff _ _).0 e
  | inr e ↦ row_of-job_id id jobs job (rw e at h)
]

module _ (id : String) (finished : Job) (done : is_completed finished.status ≡ true) where
  -- The row of a finished job is the one that is kept.
  abbrev Kept : List Job → Type 0
  Kept jobs = row_of id jobs ≡ some finished

  pub put_job-Kept :
      (from : List Status) (key : String) (jobs : List Job) (job new : Job)
      → ((s : Status) → is_completed s ≡ true → status_in_set s from ≢ true)
      → new.job_id ≡ job.job_id
      → row_of key jobs ≡ some job
      → status_in_set job.status from ≡ true
      → Kept jobs
      → Kept (put_job new jobs)
  put_job-Kept from key jobs job new apart same found h kept = elim (Bool-cases (str_eq key id)) [
    | inl e ↦ absurd (
        apart finished.status done (
          subst (λ st. status_in_set st from ≡ true)
            (ap (λ o. (value_or o job).status)
              (sym found
                ∙ subst (λ k. row_of k jobs ≡ some finished) (sym ((str_eq_iff _ _).0 e)) kept))
            h))
    | inr e ↦
        row_of-put_job id new jobs (λ q.
          false≢true
            (sym e ∙ (str_eq_iff key id).1 (sym (row_of-job_id key jobs job found) ∙ sym same ∙ q)))
        ∙ kept
  ]

  finalize-Kept :
      (kill : Bool) (key : String) (updated : Job) (dequeued : Result (Unit {0}))
      → Spares Kept (finalize kill key updated dequeued)
  unfolding finalize
  finalize-Kept kill key updated (err e) = return-Spares updated
  finalize-Kept kill key updated (ok _) =
      >>=-Spares
        (update_job_status_guarded-Spares key (cancelling ∷ []) (to_cancelled kill)
          λ jobs job found h kept.
            put_job-Kept (cancelling ∷ []) key jobs job _ finished_or_cancelling refl found h kept)
        (λ r. return-Spares _)

  after_cancelling-Kept :
      (kill : Bool) (key : String) (r : Option (Status × Job))
      → Spares Kept (after_cancelling kill key r)
  unfolding after_cancelling
  after_cancelling-Kept kill key none = fail-Spares _
  after_cancelling-Kept kill key (some (prior, updated)) =
      if-Spares (not (status_eq prior submitted) && not (status_eq prior queued))
        (return-Spares updated)
        (>>=-Spares (gets-Spares _) λ client.
          >>=-Spares (try-Spares (dequeue-Spares client updated.corndogs_task_id))
            (finalize-Kept kill key updated))

  transition_stored-Kept : (kill : Bool) (job : Job) → Spares Kept (transition_stored kill job true)
  unfolding transition_stored
  transition_stored-Kept kill job =
      >>=-Spares
        (update_job_status_guarded-Spares job.job_id (cancellable_from_statuses kill)
          (to_cancelling kill)
          λ jobs row found h kept.
            put_job-Kept (cancellable_from_statuses kill) job.job_id jobs row _
              (finished_or_cancellable kill) refl found h kept)
        (λ r. after_cancelling-Kept kill job.job_id r)

-- In a store with guarded updates, a request to cancel or kill a job, made with a copy of the job
-- however old, does not touch the row of a job that has finished, whichever operations fail and
-- whatever others write in between, provided that they leave that row as it is.
pub transition_job-Kept :
    (kill : Bool) (job finished : Job) (id : String) (w : World)
    → w.has_guards ≡ true
    → is_completed finished.status ≡ true
    → row_of id w.jobs ≡ some finished
    → All
        (λ rival.
          (jobs : List Job)
          → row_of id jobs ≡ some finished
          → row_of id (rival jobs) ≡ some finished)
        w.rivals
    → row_of id (transition_job kill job w).1.jobs ≡ some finished
unfolding transition_job gets ◌>>=◌ continue fail
transition_job-Kept kill job finished id w guards done kept others =
    elim (Bool-cases (is_allowed kill job.status)) [
      | inl e ↦ rw e (
          subst (λ g. row_of id (transition_stored kill job g w).1.jobs ≡ some finished)
            (sym guards) ((transition_stored-Kept id finished done kill job).at w (kept, others)).0)
      | inr e ↦ rw e kept
    ]
