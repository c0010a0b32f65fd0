-- ===== src/Worker/Untouched.antt =====
-- Finished jobs, and workers that come to them late.
use mathlib.Core.Bool.{false≢true}
use reactorcide.Prelude.{
  ◌≡◌, refl, sym, ◌∙◌, subst, ◌≢◌, ℕ, String, List, [], ◌∷◌, true, Option, none, some,
}
use reactorcide.Models.Status.{
  Status, submitted, queued, running, cancelling, completed, failed, cancelled, timeout, pending,
  waiting, skipped, evaluating, success, other, status_in_set, is_completed,
}
use reactorcide.Models.Job.{Job}
use reactorcide.Store.World.{ok, World}
use reactorcide.Store.Triple.{Triple, Any, >>=-Triple, try-Triple, gets-Triple}
use reactorcide.JobControl.Spares.{row_of}
use reactorcide.JobControl.Race.{put_job-Kept, finished_or_cancelling}
use reactorcide.Worker.Claim.{
  Task, CornDogsWorker, to_running, after_claim, claim, process_parsed, process_next_task,
}
use reactorcide.Worker.Invariant.{
  Inv, IfSome, Lenient, Hit, EndsCancelled, get_job_by_id-Triple, finalize_job_guarded-Triple,
  after_race-Triple, process_parsed-Triple,
}
use reactorcide.Worker.Unclaimed.{some-inj}

-- The claim of a worker does not start from a status that a finished job has.
finished_or_unclaimed :
    (s : Status) → is_completed s ≡ true → status_in_set s (submitted ∷ queued ∷ []) ≢ true
finished_or_unclaimed completed h k = false≢true k
finished_or_unclaimed failed h k = false≢true k
finished_or_unclaimed cancelled h k = false≢true k
finished_or_unclaimed timeout h k = false≢true k
finished_or_unclaimed submitted h k = false≢true h
finished_or_unclaimed queued h k = false≢true h
finished_or_unclaimed running h k = false≢true h
finished_or_unclaimed cancelling h k = false≢true h
finished_or_unclaimed pending h k = false≢true h
finished_or_unclaimed waiting h k = false≢true h
finished_or_unclaimed skipped h k = false≢true h
finished_or_unclaimed evaluating h k = false≢true h
finished_or_unclaimed success h k = false≢true h
finished_or_unclaimed (other _) h k = false≢true h

-- The state in which a row is the finished one, and the others leave it.
abbrev pub Finished : String → Job → World → Type 0
Finished id row = Inv (λ jobs. row_of id jobs ≡ some row) (λ _. Unit)

module _ (id : String) (row : Job) (done : is_completed row.status ≡ true) where
  abbrev Here : List Job → Type 0
  Here jobs = row_of id jobs ≡ some row

  abbrev Good : World → Type 0
  Good = Finished id row

  lenient : Lenient (λ _. Unit)
  lenient a acts h e = tt

  kept_write :
      (key : String) (from : List Status) (apply : Job → Job)
      → ((s : Status) → is_completed s ≡ true → status_in_set s from ≢ true)
      → ((j : Job) → (apply j).job_id ≡ j.job_id)
      → Hit Here key from apply (Any {A = Job})
  kept_write key from apply apart same jobs job found h kept =
      (put_job-Kept id row done from key jobs job (apply job) apart (same job) found h kept, tt)

  ends : EndsCancelled Here
  ends key e now = kept_write key (cancelling ∷ []) _ finished_or_cancelling (λ _. refl)

  -- The claim of the job does not land.
  misses :
      (job : Job) (now : ℕ)
      → job.job_id ≡ id
      → Hit Here job.job_id (submitted ∷ queued ∷ []) (to_running now) (λ _. ⊥)
  misses job now same jobs found_row found h kept =
      let e : found_row ≡ row =
        some-inj found_row row
          (sym (subst (λ k. row_of k jobs ≡ some found_row) same found) ∙ kept) in
      absurd (
        finished_or_unclaimed row.status done
          (subst (λ (r : Job). status_in_set r.status (submitted ∷ queued ∷ []) ≡ true) e h))

  after_claim-Triple :
      (worker : CornDogsWorker) (task : Task) (job : Job) (o : Option Job)
      → IfSome (λ _. ⊥) (Unit {0}) o
      → Triple Good Any (after_claim worker task job o)
  unfolding after_claim
  after_claim-Triple worker task job (some claimed) h = absurd h
  after_claim-Triple worker task job none h =
      >>=-Triple (try-Triple (get_job_by_id-Triple Here (λ _. Unit) job.job_id))
        (λ r _. after_race-Triple Here (λ _. Unit) lenient ends task r)

  claim-Triple :
      (worker : CornDogsWorker) (task : Task) (job : Job)
      → job.job_id ≡ id
      → Triple Good Any (claim worker task job)
  unfolding claim
  claim-Triple worker task job same = >>=-Triple {P = Any} (gets-Triple _ (λ w i. tt)) λ now _.
      >>=-Triple
        (finalize_job_guarded-Triple Here (λ _. Unit) job (submitted ∷ queued ∷ []) (to_running now)
          (λ _. ⊥) Unit tt (misses job now same))
        (λ o h. after_claim-Triple worker task job o h)

-- In a store with guarded updates, a worker that is given the task of a job that has finished leaves the
-- row of the job as it is, whichever operations fail and whatever others write in between, if they leave
-- that row.
pub process_next_task-Finished :
    (worker : CornDogsWorker) (task : Task) (id : String) (row : Job) (w : World)
    → task.job_id ≡ some id
    → is_completed row.status ≡ true
    → Finished id row w
    → row_of id (process_next_task worker (ok (some task)) w).1.jobs ≡ some row
unfolding process_next_task
process_next_task-Finished worker task id row w e done good =
    subst (λ p. row_of id (process_parsed worker task p w).1.jobs ≡ some row) (sym e)
      ((process_parsed-Triple (Here id row done) (λ _. Unit) (lenient id row done)
          (ends id row done) worker task id
          (λ job same. claim-Triple id row done worker task job same)).at
        w good).0.0.0
