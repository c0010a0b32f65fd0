-- ===== src/Worker/Unclaimed.antt =====
-- Jobs that are not waiting to be run, and tasks of theirs that reach a worker all the same.
use mathlib.Core.Bool.{false≢true}
use reactorcide.Prelude.{
  ◌≡◌, refl, sym, ◌∙◌, ap, subst, inl, inr, ℕ, String, List, [], ◌∷◌, ◌++◌, true, false, Bool-cases,
  Option, none, some, str_eq, str_eq_iff, All,
}
use reactorcide.Models.Status.{submitted, queued, cancelled, status_in_set}
use reactorcide.Models.Job.{Job}
use reactorcide.Store.World.{
  Act, moved, task_completed, task_cancelled, executed, published, pushed, ok, World,
}
use reactorcide.Store.Rows.{put_job}
use reactorcide.Store.Triple.{Triple, Any, >>=-Triple, try-Triple, gets-Triple}
use reactorcide.Runtime.Build.{value_or}
use reactorcide.JobControl.Spares.{row_of}
use reactorcide.Worker.Claim.{
  Task, CornDogsWorker, end_cancelled, to_running, after_claim, claim, process_parsed,
  process_next_task,
}
use reactorcide.Worker.Invariant.{
  Inv, is_execution, Lenient, Hit, EndsCancelled, get_job_by_id-Triple, finalize_job_guarded-Triple,
  after_race-Triple, process_parsed-Triple, IfSome,
}

-- The jobs that were handed to the processor, in order.
abbrev pub executions : List Act → List Job
executions [] = []
executions (executed job ∷ acts) = job ∷ executions acts
executions (moved _ _ _ ∷ acts) = executions acts
executions (task_completed _ _ ∷ acts) = executions acts
executions (task_cancelled _ _ ∷ acts) = executions acts
executions (published _ _ ∷ acts) = executions acts
executions (pushed _ ∷ acts) = executions acts

executions-append :
    (acts : List Act) (a : Act)
    → is_execution a ≡ false
    → executions (acts ++ a ∷ []) ≡ executions acts
executions-append [] (executed job) h = absurd (false≢true (sym h))
executions-append [] (moved _ _ _) h = refl
executions-append [] (task_completed _ _) h = refl
executions-append [] (task_cancelled _ _) h = refl
executions-append [] (published _ _) h = refl
executions-append [] (pushed _) h = refl
executions-append (executed job ∷ acts) a h = rw (executions-append acts a h) refl
executions-append (moved _ _ _ ∷ acts) a h = executions-append acts a h
executions-append (task_completed _ _ ∷ acts) a h = executions-append acts a h
executions-append (task_cancelled _ _ ∷ acts) a h = executions-append acts a h
executions-append (published _ _ ∷ acts) a h = executions-append acts a h
executions-append (pushed _ ∷ acts) a h = executions-append acts a h

-- The row that a key finds, if any, is not waiting to be run.
abbrev pub NotWaiting : String → List Job → Type 0
NotWaiting id jobs =
    (row : Job)
    → row_of id jobs ≡ some row
    → status_in_set row.status (submitted ∷ queued ∷ []) ≡ false

pub some-inj : {A : Type 0} (a b : A) → some a ≡ some b → a ≡ b
some-inj a b e = ap (λ o. value_or o a) e

-- The rest of the rows, where the first has another key.
tail-NotWaiting :
    (id : String) (j : Job) (jobs : List Job)
    → str_eq j.job_id id ≡ false
    → NotWaiting id (j ∷ jobs)
    → NotWaiting id jobs
tail-NotWaiting id j jobs other h row found = h row (rw other found)

-- A row that is written as cancelled does not wait.
put_cancelled-NotWaiting :
    (id : String) (new : Job) (jobs : List Job)
    → new.status ≡ cancelled
    → NotWaiting id jobs
    → NotWaiting id (put_job new jobs)
put_cancelled-NotWaiting id new [] c h row found = h row found
put_cancelled-NotWaiting id new (j ∷ jobs) c h row found =
    elim (Bool-cases (str_eq j.job_id new.job_id)) [
      | inl same ↦ elim (Bool-cases (str_eq j.job_id id)) [
        | inl mine ↦
            subst (λ r. status_in_set r.status (submitted ∷ queued ∷ []) ≡ false)
              (some-inj new row (
                rw
                  (
                    same,
                    (str_eq_iff _ _).1 (sym ((str_eq_iff _ _).0 same) ∙ (str_eq_iff _ _).0 mine),
                  )
                  at found))
              (rw c refl)
        | inr other ↦
            put_cancelled-NotWaiting id new jobs c (tail-NotWaiting id j jobs other h) row
              (rw (same, subst (λ k. str_eq k id ≡ false) ((str_eq_iff _ _).0 same) other) at found)
      ]
      | inr apart ↦ elim (Bool-cases (str_eq j.job_id id)) [
        | inl mine ↦ h row (rw mine (rw (apart, mine) at found))
        | inr other ↦
            put_cancelled-NotWaiting id new jobs c (tail-NotWaiting id j jobs other h) row
              (rw (apart, other) at found)
      ]
    ]

-- The state in which the job of a key does not wait, others do not make it wait, and these jobs were
-- handed to the processor.
abbrev pub Idle : String → List Job → World → Type 0
Idle id runs = Inv (NotWaiting id) (λ acts. executions acts ≡ runs)

module _ (id : String) (runs : List Job) where
  lenient : Lenient (λ acts. executions acts ≡ runs)
  lenient a acts h e = executions-append acts a h ∙ e

  ends : EndsCancelled (NotWaiting id)
  ends key e now jobs row found h q =
      (put_cancelled-NotWaiting id (end_cancelled e now row) jobs refl q, tt)

  -- The claim of a job that does not wait does not land.
  misses :
      (job : Job) (now : ℕ)
      → job.job_id ≡ id
      → Hit (NotWaiting id) job.job_id (submitted ∷ queued ∷ []) (to_running now) (λ _. ⊥)
  misses job now same jobs row found h q =
      absurd (false≢true (sym (q row (subst (λ k. row_of k jobs ≡ some row) same found)) ∙ h))

  after_claim-Triple :
      (worker : CornDogsWorker) (task : Task) (job : Job) (o : Option Job)
      → IfSome (λ _. ⊥) (Unit {0}) o
      → Triple (Idle id runs) Any (after_claim worker task job o)
  unfolding after_claim
  after_claim-Triple worker task job (some claimed) h = absurd h
  after_claim-Triple worker task job none h =
      >>=-Triple
        (try-Triple
          (get_job_by_id-Triple (NotWaiting id) (λ acts. executions acts ≡ runs) job.job_id))
        (λ r _.
          after_race-Triple (NotWaiting id) (λ acts. executions acts ≡ runs) lenient ends task r)

  claim-Triple :
      (worker : CornDogsWorker) (task : Task) (job : Job)
      → job.job_id ≡ id
      → Triple (Idle id runs) Any (claim worker task job)
  unfolding claim
  claim-Triple worker task job same = >>=-Triple {P = Any} (gets-Triple _ (λ w i. tt)) λ now _.
      >>=-Triple
        (finalize_job_guarded-Triple (NotWaiting id) (λ acts. executions acts ≡ runs) job
          (submitted ∷ queued ∷ []) (to_running now) (λ _. ⊥) Unit tt (misses job now same))
        (λ o h. after_claim-Triple worker task job o h)

  process_parsed-Idle :
      (worker : CornDogsWorker) (task : Task) (w : World)
      → Idle id runs w
      → Idle id runs (process_parsed worker task (some id) w).1
  process_parsed-Idle worker task w i =
      ((process_parsed-Triple (NotWaiting id) (λ acts. executions acts ≡ runs) lenient ends worker
          task id (λ job same. claim-Triple worker task job same)).at
        w i).0

-- In a store with guarded updates, a worker that is given the task of a job whose row, if there is one,
-- is neither submitted nor queued (it is cancelling, finished, or with another worker) hands no job to
-- the processor, whichever operations fail and whatever others write in between, if they do not
-- submit or queue that job again.
pub process_next_task-Idle :
    (worker : CornDogsWorker) (task : Task) (id : String) (w : World)
    → task.job_id ≡ some id
    → w.has_guards ≡ true
    → NotWaiting id w.jobs
    → All (λ rival. (jobs : List Job) → NotWaiting id jobs → NotWaiting id (rival jobs)) w.rivals
    → executions (process_next_task worker (ok (some task)) w).1.acts ≡ executions w.acts
unfolding process_next_task
process_next_task-Idle worker task id w e guards here others =
    subst (λ p. executions (process_parsed worker task p w).1.acts ≡ executions w.acts) (sym e)
      (process_parsed-Idle id (executions w.acts) worker task w ((here, others), guards, refl)).2
