-- ===== src/JobControl/Spares.antt =====
-- A proof rule for computations that keep a property of the job table, whichever database operations
-- fail on the way, and whatever others write in between, if they keep it too.
use reactorcide.Prelude.{
  ◌≡◌, refl, subst, inl, inr, String, List, [], ◌∷◌, Bool, true, false, Bool-cases, Option, none,
  some, if◌then◌else◌, str_eq, All,
}
use reactorcide.Models.Status.{Status, status_in_set}
use reactorcide.Models.Job.{Job}
use reactorcide.Store.World.{
  Error, Result, ok, err, World, M, continue, ◌>>=◌, ◌>>◌, return, fail, try, gets, modify,
  next_fault, attempt, monad,
}
use reactorcide.Store.Rows.{
  find, put_job, interfere, guarded, update_job_status_guarded, next_cancel, cancel_task,
}
use reactorcide.JobControl.Cancel.{dequeue}

-- The first row with a key.
abbrev pub row_of : String → List Job → Option Job
row_of id = find (λ j. str_eq j.job_id id)

-- `Q` holds of the job table, and the writes of others to come keep it.
abbrev pub Spare : (List Job → Type 0) → World → Type 0
Spare Q w = Q w.jobs × All (λ rival. (jobs : List Job) → Q jobs → Q (rival jobs)) w.rivals

-- Every run of `m` keeps that.
pub record Spares (Q : List Job → Type 0) {A : Type 0} (m : M A) : Type 0 where
  pub at : (w : World) → Spare Q w → Spare Q (m w).1

module _ (Q : List Job → Type 0) where
  next_fault-at : (faults : List Bool) (w : World) → Spare Q w → Spare Q (next_fault faults w).1
  unfolding next_fault
  next_fault-at [] w q = q
  next_fault-at (true ∷ faults) w q = q
  next_fault-at (false ∷ faults) w q = q

  interfere-at :
      (rivals : List (List Job → List Job)) (w : World)
      → w.rivals ≡ rivals
      → Spare Q w
      → Spare Q (interfere rivals w)
  unfolding interfere
  interfere-at [] w e q = q
  interfere-at (rival ∷ rivals) w e q =
      let keep = subst (All (λ r. (jobs : List Job) → Q jobs → Q (r jobs))) e q.1 in
      (keep.0 w.jobs q.0, keep.1)

  next_cancel-at : (cancels : List Bool) (w : World) → Spare Q w → Spare Q (next_cancel cancels w).1
  unfolding next_cancel
  next_cancel-at [] w q = q
  next_cancel-at (true ∷ cancels) w q = q
  next_cancel-at (false ∷ cancels) w q = q

module _ {Q : List Job → Type 0} where
  continue-at :
      {A B : Type 0} (f : A → M B) (r : Result A × World)
      → ((a : A) → Spares Q (f a))
      → Spare Q r.1
      → Spare Q (continue f r).1
  unfolding continue
  continue-at f (ok a, w) hf q = (hf a).at w q
  continue-at f (err e, w) hf q = q

  pub >>=-Spares :
      {A B : Type 0} {m : M A} {f : A → M B}
      → Spares Q m
      → ((a : A) → Spares Q (f a))
      → Spares Q (m >>= f)
  unfolding ◌>>=◌
  >>=-Spares {m = m} {f = f} hm hf = record { at = λ w q. continue-at f (m w) hf (hm.at w q) }

  pub return-Spares : {A : Type 0} (a : A) → Spares Q (return a)
  unfolding return
  return-Spares a = record { at = λ w q. q }

  pub fail-Spares : {A : Type 0} (e : Error) → Spares Q (fail {A = A} e)
  unfolding fail
  fail-Spares e = record { at = λ w q. q }

  pub try-Spares : {A : Type 0} {m : M A} → Spares Q m → Spares Q (try m)
  unfolding try
  try-Spares h = record { at = h.at }

  pub gets-Spares : {A : Type 0} (f : World → A) → Spares Q (gets f)
  unfolding gets
  gets-Spares f = record { at = λ w q. q }

  pub dequeue-Spares : (client : Bool) (id : Option String) → Spares Q (dequeue client id)
  unfolding dequeue cancel_task
  dequeue-Spares true (some id) = elim (Bool-cases (str_eq id "")) [
    | inl e ↦ rw e (return-Spares tt)
    | inr e ↦ rw e (record { at = λ w q. next_cancel-at Q w.cancels _ q })
  ]
  dequeue-Spares true none = return-Spares tt
  dequeue-Spares false id = return-Spares tt

  pub if-Spares :
      {A : Type 0} (b : Bool) {x y : M A} → Spares Q x → Spares Q y → Spares Q (if b then x else y)
  if-Spares true hx hy = hx
  if-Spares false hx hy = hy

  pub attempt-Spares : Spares Q attempt
  unfolding attempt
  attempt-Spares = record { at = λ w q. next_fault-at Q w.faults w q }

  pub interfere-Spares : Spares Q (modify (λ w. interfere w.rivals w))
  unfolding modify
  interfere-Spares = record { at = λ w q. interfere-at Q w.rivals w refl q }

  module _ {A : Type 0} (id : String) (from : List Status) (apply : Job → A × Job)
      (spare : (jobs : List Job) (job : Job)
        → row_of id jobs ≡ some job
        → status_in_set job.status from ≡ true
        → Q jobs
        → Q (put_job (apply job).1 jobs)) where
    guarded-at :
        (w : World) (found : Option Job)
        → row_of id w.jobs ≡ found
        → Spare Q w
        → Spare Q (guarded from apply found w).1
    unfolding guarded monad
    guarded-at w none e q = q
    guarded-at w (some job) e q = elim (Bool-cases (status_in_set job.status from)) [
      | inl h ↦ rw h (spare w.jobs job e h q.0, q.1)
      | inr h ↦ rw h q
    ]

    pub found-Spares : Spares Q (gets (λ w. row_of id w.jobs) >>= λ found. guarded from apply found)
    unfolding gets ◌>>=◌ continue
    found-Spares = record { at = λ w q. guarded-at w (row_of id w.jobs) refl q }

    -- A guarded update, if it keeps `Q` where it finds a row with a status of the set.
    pub update_job_status_guarded-Spares : Spares Q (update_job_status_guarded id from apply)
    unfolding update_job_status_guarded ◌>>◌
    update_job_status_guarded-Spares =
        >>=-Spares interfere-Spares (λ _. >>=-Spares attempt-Spares (λ _. found-Spares))
