-- ===== src/JobControl/Nodes.antt =====
-- What cancelling a job does to the nodes of workflows: nothing.
use reactorcide.Prelude.{
  ◌≡◌, refl, sym, subst, String, List, [], ◌∷◌, Bool, true, false, not, ◌&&◌, Option, none, some,
  str_eq,
}
use reactorcide.Models.Status.{Status, submitted, queued, status_eq, status_in_set}
use reactorcide.Models.Job.{Job}
use reactorcide.Models.Workflow.{WorkflowNode}
use reactorcide.Store.World.{Result, ok, err, World}
use reactorcide.Store.Rows.{interfere, guarded, update_job_status_guarded, next_cancel, cancel_task}
use reactorcide.Runtime.Keeps.{
  Keeps, >>-Keeps, modify-Keeps, return-Keeps, if-Keeps, fail-Keeps, keeps_rules,
}
use reactorcide.JobControl.Cancel.{
  dequeue, finalize, after_cancelling, transition_job_best_effort, transition_stored,
  transition_job,
}

interfere-nodes :
    (rivals : List (List Job → List Job)) (w : World) → (interfere rivals w).nodes ≡ w.nodes
unfolding interfere
interfere-nodes [] w = refl
interfere-nodes (rival ∷ rivals) w = refl

next_cancel-nodes : (cancels : List Bool) (w : World) → (next_cancel cancels w).1.nodes ≡ w.nodes
unfolding next_cancel
next_cancel-nodes [] w = refl
next_cancel-nodes (true ∷ cancels) w = refl
next_cancel-nodes (false ∷ cancels) w = refl

module _ {Q : List WorkflowNode → Type 0} where
  guarded-Keeps :
      {A : Type 0} (from : List Status) (apply : Job → A × Job) (found : Option Job)
      → Keeps Q (guarded from apply found)
  unfolding guarded
  guarded-Keeps from apply none = fail-Keeps _
  guarded-Keeps from apply (some job) =
      if-Keeps (status_in_set job.status from)
        (>>-Keeps (modify-Keeps _ (λ w q. q)) (return-Keeps _)) (return-Keeps none)

  update_job_status_guarded-Keeps :
      {A : Type 0} (id : String) (from : List Status) (apply : Job → A × Job)
      → Keeps Q (update_job_status_guarded id from apply)
  unfolding update_job_status_guarded
  update_job_status_guarded-Keeps id from apply =
      >>-Keeps (modify-Keeps _ (λ w q. subst Q (sym (interfere-nodes w.rivals w)) q))
        (search (keeps_rules, guarded-Keeps))

  cancel_task-Keeps : (id : String) → Keeps Q (cancel_task id)
  unfolding cancel_task
  cancel_task-Keeps id = record { at = λ w q. subst Q (sym (next_cancel-nodes w.cancels _)) q }

  dequeue-Keeps : (client : Bool) (id : Option String) → Keeps Q (dequeue client id)
  unfolding dequeue
  dequeue-Keeps true (some id) =
      if-Keeps (not (str_eq id "")) (cancel_task-Keeps id) (return-Keeps tt)
  dequeue-Keeps true none = return-Keeps tt
  dequeue-Keeps false id = return-Keeps tt

  finalize-Keeps :
      (kill : Bool) (id : String) (updated : Job) (dequeued : Result (Unit {0}))
      → Keeps Q (finalize kill id updated dequeued)
  unfolding finalize
  finalize-Keeps kill id updated (ok _) = search (keeps_rules, update_job_status_guarded-Keeps)
  finalize-Keeps kill id updated (err e) = return-Keeps updated

  after_cancelling-Keeps :
      (kill : Bool) (id : String) (r : Option (Status × Job)) → Keeps Q (after_cancelling kill id r)
  unfolding after_cancelling
  after_cancelling-Keeps kill id none = fail-Keeps _
  after_cancelling-Keeps kill id (some (prior, updated)) =
      if-Keeps (not (status_eq prior submitted) && not (status_eq prior queued))
        (return-Keeps updated) (search (keeps_rules, dequeue-Keeps, finalize-Keeps))

  transition_stored-Keeps :
      (kill : Bool) (job : Job) (guards : Bool) → Keeps Q (transition_stored kill job guards)
  unfolding transition_stored transition_job_best_effort
  transition_stored-Keeps kill job true =
      search (keeps_rules, update_job_status_guarded-Keeps, after_cancelling-Keeps)
  transition_stored-Keeps kill job false = search (keeps_rules, dequeue-Keeps, if-Keeps)

  pub transition_job-Keeps : (kill : Bool) (job : Job) → Keeps Q (transition_job kill job)
  unfolding transition_job
  transition_job-Keeps kill job = search (keeps_rules, if-Keeps, transition_stored-Keeps)
