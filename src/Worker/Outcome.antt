-- ===== src/Worker/Outcome.antt =====
-- What a claimed task comes to when no operation fails and nobody interferes.
use reactorcide.Prelude.{
  ◌≡◌, refl, sym, subst, zero, suc, ℕ, String, List, [], Bool, true, false, Option, none, some,
  if◌then◌else◌,
}
use reactorcide.Models.Status.{Status, status_in_set}
use reactorcide.Models.Job.{Job}
use reactorcide.Store.World.{Act, Result, ok, World, M, return, from_option}
use reactorcide.Store.Rows.{put_job, get_job_by_id, update_job_status_guarded, rows}
use reactorcide.Store.Leads.{Leads, >>=-Leads, return-Leads, gets-Leads, try-Leads, modify-Leads}
use reactorcide.JobControl.Spares.{row_of}
use reactorcide.JobControl.Outcome.{calm, update_job_status_guarded-calm, row_of-put_job_self}
use reactorcide.Worker.Claim.{
  act, landed, finalize_stored, finalize_job_guarded, lookup_again, get_job_with_retry,
}

-- No operation fails, nobody interferes, the store has guarded updates, the time is `now`, and the key
-- finds `row`.
pub record Serene (id : String) (now : ℕ) (row : Job) (w : World) : Type 0 where
  pub found : row_of id w.jobs ≡ some row
  pub no_faults : w.faults ≡ []
  pub no_rivals : w.rivals ≡ []
  pub has_guards : w.has_guards ≡ true
  pub time : w.now ≡ now

pub calm-eq : (w : World) → w.faults ≡ [] → w.rivals ≡ [] → w.has_guards ≡ true → calm w ≡ w
calm-eq w f r g = λ i. record w { faults = sym f i; rivals = sym r i; has_guards = sym g i }

-- The answer of a guarded update, and what becomes of the row.
abbrev pair_if : Bool → Job → Option (Unit {0} × Job)
pair_if true new = some (tt, new)
pair_if false new = none

module _ (id : String) (now : ℕ) where
  Ends : {A : Type 0} → A → Job → Result A × World → Type 0
  Ends a row (answer, w) = (answer ≡ ok a) × Serene id now row w

  -- It is enough to run from a state that is calm by its form.
  from_calm :
      {A : Type 0} (m : M A) (a : A) (row new : Job)
      → ((w : World) → row_of id w.jobs ≡ some row → w.now ≡ now → Ends a new (m (calm w)))
      → Leads (Serene id now row) m a (Serene id now new)
  unfolding Ends
  from_calm m a row new h = record {
    at = λ w s.
        subst (λ v. Ends a new (m v)) (calm-eq w s.no_faults s.no_rivals s.has_guards)
          (h w s.found s.time);
  }

  pub serene :
      (row : Job) (w : World)
      → row_of id w.jobs ≡ some row
      → w.now ≡ now
      → Serene id now row (calm w)
  serene row w found time = record {
    found = found;
    no_faults = refl;
    no_rivals = refl;
    has_guards = refl;
    time = time;
  }

  pub get_job_by_id-Leads :
      (row : Job) → Leads (Serene id now row) (get_job_by_id id) row (Serene id now row)
  unfolding rows Ends
  get_job_by_id-Leads row = from_calm (get_job_by_id id) row row row λ w found time.
      subst (λ o. Ends row row (from_option o (calm w))) (sym found) (refl, serene row w found time)

  -- A guarded update of the row, from one of the statuses.
  update-Ends :
      (from : List Status) (apply : Job → Job) (row : Job)
      → (apply row).job_id ≡ id
      → (b : Bool) → status_in_set row.status from ≡ b
      → Leads
          (Serene id now row)
          (update_job_status_guarded id from (λ j. (tt, apply j)))
          (pair_if b (apply row))
          (Serene id now (if b then apply row else row))
  unfolding Ends
  update-Ends from apply row same b e =
      from_calm (update_job_status_guarded id from (λ j. (tt, apply j))) _ row _ λ w found time.
        subst (λ r. Ends (pair_if b (apply row)) (if b then apply row else row) r)
          (sym (update_job_status_guarded-calm id from (λ j. (tt, apply j)) w row found))
          (subst
            (λ c. Ends (pair_if b (apply row)) (if b then apply row else row) (
              if◌then◌else◌ {A = Result (Option (Unit {0} × Job)) × World} c
                (ok (some (tt, apply row)), record (calm w) { jobs = put_job (apply row) w.jobs })
                (ok none, calm w)))
            (sym e) (by_case b w found time))
    where
      by_case :
          (b : Bool) (w : World)
          → row_of id w.jobs ≡ some row
          → w.now ≡ now
          → Ends (pair_if b (apply row)) (if b then apply row else row) (
              if◌then◌else◌ {A = Result (Option (Unit {0} × Job)) × World} b
                (ok (some (tt, apply row)), record (calm w) { jobs = put_job (apply row) w.jobs })
                (ok none, calm w))
      by_case true w found time = (
        refl,
        serene (apply row) (record w { jobs = put_job (apply row) w.jobs })
            (row_of-put_job_self id (apply row) row w.jobs same found) time,
      )
      by_case false w found time = (refl, serene row w found time)

  landed_if : (b : Bool) (new : Job) → landed (ok (pair_if b new)) ≡ (if b then some new else none)
  landed_if true new = refl
  landed_if false new = refl

  -- The same, as the worker makes it.
  pub finalize_job_guarded-Leads :
      (job : Job) (from : List Status) (apply : Job → Job) (row : Job)
      → job.job_id ≡ id
      → (apply row).job_id ≡ id
      → (b : Bool) → status_in_set row.status from ≡ b
      → Leads
          (Serene id now row)
          (finalize_job_guarded job from apply)
          (if b then some (apply row) else none)
          (Serene id now (if b then apply row else row))
  unfolding finalize_job_guarded finalize_stored
  finalize_job_guarded-Leads job from apply row key same b e =
      >>=-Leads _ (gets-Leads _ true (λ w s. s.has_guards)) (
        >>=-Leads _
          (try-Leads (
            subst
              (λ k.
                Leads (Serene id now row) (update_job_status_guarded k from (λ j. (tt, apply j)))
                  (pair_if b (apply row)) (Serene id now (if b then apply row else row)))
              (sym key) (update-Ends from apply row same b e)))
          (subst
            (λ o.
              Leads (Serene id now (if b then apply row else row))
                (return (landed (ok (pair_if b (apply row))))) o
                (Serene id now (if b then apply row else row)))
            (landed_if b (apply row)) (return-Leads _)))

  pub act-Leads : (row : Job) (a : Act) → Leads (Serene id now row) (act a) tt (Serene id now row)
  unfolding act
  act-Leads row a = modify-Leads _ λ w s. record {
    found = s.found;
    no_faults = s.no_faults;
    no_rivals = s.no_rivals;
    has_guards = s.has_guards;
    time = s.time;
  }

  pub get_job_with_retry-Leads :
      (attempts : ℕ) (row : Job)
      → Leads (Serene id now row) (get_job_with_retry attempts id) row (Serene id now row)
  unfolding get_job_with_retry lookup_again
  get_job_with_retry-Leads zero row = get_job_by_id-Leads row
  get_job_with_retry-Leads (suc attempts) row =
      >>=-Leads _ (try-Leads (get_job_by_id-Leads row)) (return-Leads row)
