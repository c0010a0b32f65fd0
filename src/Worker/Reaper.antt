-- ===== src/Worker/Reaper.antt =====
-- Jobs left in cancelling by a worker that is gone.
use reactorcide.Prelude.{
  ◌≡◌, refl, sym, subst, ◌∙◌, inl, inr, ℕ, String, List, [], ◌∷◌, Bool, true, false, Option-cases,
  Option, none, some, if◌then◌else◌, str_eq, str_eq_iff, ◌&&◌, not, ◌||◌,
}
use mathlib.Core.Bool.{false≢true}
use reactorcide.Models.Status.{
  Status, cancelling, cancelled, status_eq, status_in_set, is_cancelling,
}
use reactorcide.Models.Job.{Job, message}
use reactorcide.Store.World.{task_cancelled, Result, ok, World, M, ◌>>=◌, gets}
use reactorcide.Store.Rows.{put_job, guarded, update_job_status_guarded, rows}
use reactorcide.Store.Leads.{
  return-Leads, gets-Leads, if-Leads, Triple-Brings, Comes, Leads-Comes, try-Comes, >>=-Comes,
  >>-Comes, known-Comes,
}
use reactorcide.Store.Triple.{Triple, Any, unit_answer}
use reactorcide.Runtime.Evaluate.{deref_string}
use reactorcide.JobControl.Spares.{row_of}
use reactorcide.JobControl.Race.{row_of-job_id, row_of-put_job}
use reactorcide.JobControl.Outcome.{calm, update_job_status_guarded-calm}
use reactorcide.Worker.Claim.{
  processing, finalize_stored, finalize_job_guarded, landed, end_cancelled, reaped_error,
  cancel_reaped_task, reap_job, reap_jobs,
}
use reactorcide.Worker.Outcome.{Serene, serene, calm-eq, finalize_job_guarded-Leads, act-Leads}

-- A job of that key is in the list.
abbrev pub is_listed : String → List Job → Bool
is_listed id [] = false
is_listed id (job ∷ stale) = str_eq job.job_id id || is_listed id stale

abbrev pub reaped : Bool → ℕ → Job → Job
reaped listed now row =
    if listed && status_eq row.status cancelling
    then record row {
      status = cancelled;
      last_error = message "cancelled: no active worker (reaped)";
      completed_at = some now;
    }
    else row

module _ (id : String) (now : ℕ) where
  -- A guarded update of another row.
  other_update :
      (key : String) (from : List Status) (apply : Job → Job) (row : Job)
      → str_eq key id ≡ false
      → ((j : Job) → (apply j).job_id ≡ j.job_id)
      → Triple (Serene id now row) Any (update_job_status_guarded key from (λ j. (tt, apply j)))
  unfolding rows
  other_update key from apply row apart same = record {
    at = λ w s. (
      subst (λ v. Serene id now row (update v).1) (calm-eq w s.no_faults s.no_rivals s.has_guards)
          (from_calm w s),
      unit_answer (update w).0,
    );
  }
    where
      update : M (Option (Unit {0} × Job))
      update = update_job_status_guarded key from (λ j. (tt, apply j))

      written :
          (b : Bool) (r : Job) (w : World)
          → r.job_id ≡ key
          → Serene id now row w
          → Serene id now row
              (if◌then◌else◌ {A = Result (Option (Unit {0} × Job)) × World} b
                (ok (some (tt, apply r)), record (calm w) { jobs = put_job (apply r) w.jobs })
                (ok none, calm w)).1
      written true r w k s =
          serene id now row (record w { jobs = put_job (apply r) w.jobs })
            (row_of-put_job id (apply r) w.jobs
                (λ q. false≢true (sym apart ∙ (str_eq_iff key id).1 (sym k ∙ sym (same r) ∙ q)))
              ∙ s.found)
            s.time
      written false r w k s = serene id now row w s.found s.time

      from_calm : (w : World) → Serene id now row w → Serene id now row (update (calm w)).1
      from_calm w s = elim (Option-cases (row_of key w.jobs)) [
        | inl e ↦
            subst (λ o. Serene id now row (guarded from (λ j. (tt, apply j)) o (calm w)).1) (sym e)
              (serene id now row w s.found s.time)
        | inr (r, e) ↦
            subst (λ u. Serene id now row u.1)
              (sym (update_job_status_guarded-calm key from (λ j. (tt, apply j)) w r e))
              (written (status_in_set r.status from) r w (row_of-job_id key w.jobs r e) s)
      ]

  tail_act :
      (client : Bool) (job : Job) (row : Job) (o : Option Job)
      → Comes (Serene id now row) (cancel_reaped_task client job o) (Serene id now row)
  unfolding cancel_reaped_task
  tail_act client job row none = Leads-Comes (return-Leads tt)
  tail_act client job row (some r) =
      >>-Comes
        (Leads-Comes (
          if-Leads (client && not (str_eq (deref_string job.corndogs_task_id) ""))
            (act-Leads id now row (task_cancelled (deref_string job.corndogs_task_id) processing))
            (return-Leads tt)))
        (Leads-Comes (act-Leads id now row _))

  client_lem :
      (row : Job) (w : World)
      → Serene id now row w
      → (a : Bool) × (((gets (λ w. w.has_client) w).0 ≡ ok a) × Serene id now row w)
  unfolding gets
  client_lem row w s = (w.has_client, (refl, s))

  after_write :
      (job : Job) (row : Job) (o : Option Job)
      → Comes
          (Serene id now row)
          (gets (λ w. w.has_client) >>= λ client. cancel_reaped_task client job o)
          (Serene id now row)
  unfolding gets
  after_write job row o =
      >>=-Comes _ (record { at = client_lem row }) (λ client. tail_act client job row o)

  -- One round of the loop, for another job and for the job itself.
  reap_job-other :
      (job row : Job)
      → str_eq job.job_id id ≡ false
      → Comes (Serene id now row) (reap_job job) (Serene id now row)
  unfolding reap_job finalize_job_guarded finalize_stored
  reap_job-other job row apart = known-Comes _ (gets-Leads _ now (λ w s. s.time)) (
      >>=-Comes _
        (known-Comes _ (gets-Leads _ true (λ w s. s.has_guards)) (
          >>=-Comes _
            (try-Comes (
              Triple-Brings (
                other_update job.job_id (cancelling ∷ []) (end_cancelled reaped_error now) row apart
                  (λ _. refl))))
            (λ r. Leads-Comes (return-Leads (landed r)))))
        (λ o. after_write job row o))

  reap_job-same :
      (job row : Job) (b : Bool)
      → job.job_id ≡ id
      → row.job_id ≡ id
      → status_in_set row.status (cancelling ∷ []) ≡ b
      → Comes
          (Serene id now row)
          (reap_job job)
          (Serene id now (if b then end_cancelled reaped_error now row else row))
  unfolding reap_job
  reap_job-same job row b key same e = known-Comes _ (gets-Leads _ now (λ w s. s.time)) (
      known-Comes _
        (finalize_job_guarded-Leads id now job (cancelling ∷ []) (end_cancelled reaped_error now)
          row key same b e)
        (after_write job _ _))

  cancelling_lem :
      (row : Job) (b : Bool)
      → is_cancelling row.status ≡ b
      → status_in_set row.status (cancelling ∷ []) ≡ b
  cancelling_lem row true e = rw e refl
  cancelling_lem row false e = rw e refl

  -- A row that has been cancelled is not cancelled again.
  reaped_twice :
      (b c : Bool) (row : Job) → reaped b now (reaped c now row) ≡ reaped (c || b) now row
  reaped_twice b true row = by_status (is_cancelling row.status) refl
    where
      by_status :
          (s : Bool)
          → is_cancelling row.status ≡ s
          → reaped b now (reaped true now row) ≡ reaped true now row
      by_status true e = rw e (by_listed b)
        where
          by_listed :
              (b : Bool)
              → (if b && false
                  then end_cancelled reaped_error now (end_cancelled reaped_error now row)
                  else end_cancelled reaped_error now row)
                ≡ end_cancelled reaped_error now row
          by_listed true = refl
          by_listed false = refl
      by_status false e = rw (e, e) (by_listed b)
        where
          by_listed :
              (b : Bool) → (if b && false then end_cancelled reaped_error now row else row) ≡ row
          by_listed true = refl
          by_listed false = refl
  reaped_twice b false row = refl

  reaped-job_id : (b : Bool) (row : Job) → (reaped b now row).job_id ≡ row.job_id
  reaped-job_id true row = by_status (is_cancelling row.status)
    where
      by_status :
          (s : Bool) → (if s then end_cancelled reaped_error now row else row).job_id ≡ row.job_id
      by_status true = refl
      by_status false = refl
  reaped-job_id false row = refl

  reap_job-Comes :
      (job row : Job) (b : Bool)
      → str_eq job.job_id id ≡ b
      → row.job_id ≡ id
      → Comes (Serene id now row) (reap_job job) (Serene id now (reaped b now row))
  reap_job-Comes job row true e same =
      reap_job-same job row (is_cancelling row.status) ((str_eq_iff _ _).0 e) same
        (cancelling_lem row (is_cancelling row.status) refl)
  reap_job-Comes job row false e same = reap_job-other job row e

  reap_jobs-Comes :
      (stale : List Job) (row : Job)
      → row.job_id ≡ id
      → Comes
          (Serene id now row)
          (reap_jobs stale)
          (Serene id now (reaped (is_listed id stale) now row))
  unfolding reap_jobs
  reap_jobs-Comes [] row same = Leads-Comes (return-Leads tt)
  reap_jobs-Comes (job ∷ stale) row same =
      let b = str_eq job.job_id id in
      >>-Comes (reap_job-Comes job row b refl same) (
        subst (λ r. Comes (Serene id now (reaped b now row)) (reap_jobs stale) (Serene id now r))
          (reaped_twice (is_listed id stale) b row)
          (reap_jobs-Comes stale (reaped b now row) (reaped-job_id b row ∙ same)))

-- When no operation of the store fails and nobody interferes, the reaper answers no error, and then a job
-- whose row is there and says cancelling is cancelled, with the reaper's message and the time, if it was
-- listed as stale; any other row is as it was.
pub reap_jobs-reaped :
    (stale : List Job) (id : String) (row : Job) (now : ℕ) (w : World)
    → row.job_id ≡ id
    → Serene id now row w
    → ((reap_jobs stale w).0 ≡ ok tt)
      × (row_of id (reap_jobs stale w).1.jobs ≡ some (reaped (is_listed id stale) now row))
reap_jobs-reaped stale id row now w same s =
    let r = (reap_jobs-Comes id now stale row same).at w s in (r.1.0, r.1.1.found)
