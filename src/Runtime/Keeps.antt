-- ===== src/Runtime/Keeps.antt =====
-- A proof rule for computations that write rows of nodes of one kind only, whichever database
-- operations fail on the way.
use reactorcide.Prelude.{
  ◌≡◌, refl, ℤ, String, List, [], ◌∷◌, Bool, true, false, not, Option, none, some, if◌then◌else◌,
  str_eq,
}
use reactorcide.Models.Status.{Status, status_eq}
use reactorcide.Models.Job.{Job}
use reactorcide.Models.Workflow.{WorkflowNode, WorkflowInstance, WorkflowEvent, Reason}
use reactorcide.Store.World.{
  Error, not_found, Result, ok, err, World, M, continue, ◌>>=◌, ◌>>◌, return, fail, try, ignore,
  gets, modify, next_fault, attempt, from_option, fresh_id,
}
use reactorcide.Store.Rows.{
  save, put_node, list_workflow_nodes, update_workflow_node, update_workflow_instance,
  create_workflow_event, get_job_by_id, create_job, update_job, next_answer, submit_task,
}
use reactorcide.Runtime.Evaluate.{record_workflow_event, save_status, refresh_workflow_status}

-- `Q` survives every run of `m`.
pub record Keeps (Q : List WorkflowNode → Type 0) {A : Type 0} (m : M A) : Type 0 where
  pub at : (w : World) → Q w.nodes → Q (m w).1.nodes

module _ (Q : List WorkflowNode → Type 0) where
  next_fault-at : (faults : List Bool) (w : World) → Q w.nodes → Q (next_fault faults w).1.nodes
  unfolding next_fault
  next_fault-at [] w q = q
  next_fault-at (true ∷ faults) w q = q
  next_fault-at (false ∷ faults) w q = q

  next_answer-at :
      (answers : List (Option (String × Status))) (w : World)
      → Q w.nodes
      → Q (next_answer answers w).1.nodes
  unfolding next_answer
  next_answer-at [] w q = q
  next_answer-at (none ∷ answers) w q = q
  next_answer-at (some task ∷ answers) w q = q

module _ {Q : List WorkflowNode → Type 0} where
  continue-at :
      {A B : Type 0} (f : A → M B) (r : Result A × World)
      → ((a : A) → Keeps Q (f a))
      → Q r.1.nodes
      → Q (continue f r).1.nodes
  unfolding continue
  continue-at f (ok a, w) hf q = (hf a).at w q
  continue-at f (err e, w) hf q = q

  pub >>=-Keeps :
      {A B : Type 0} {m : M A} {f : A → M B}
      → Keeps Q m
      → ((a : A) → Keeps Q (f a))
      → Keeps Q (m >>= f)
  unfolding ◌>>=◌
  >>=-Keeps {m} {f} hm hf = record { at = λ w q. continue-at f (m w) hf (hm.at w q) }

  pub >>-Keeps :
      {B : Type 0} {m : M (Unit {0})} {k : M B} → Keeps Q m → Keeps Q k → Keeps Q (m >> k)
  unfolding ◌>>◌
  >>-Keeps hm hk = record { at = (>>=-Keeps hm (λ _. hk)).at }

  pub return-Keeps : {A : Type 0} (a : A) → Keeps Q (return a)
  unfolding return
  return-Keeps a = record { at = λ w q. q }

  pub fail-Keeps : {A : Type 0} (e : Error) → Keeps Q (fail {A = A} e)
  unfolding fail
  fail-Keeps e = record { at = λ w q. q }

  pub try-Keeps : {A : Type 0} {m : M A} → Keeps Q m → Keeps Q (try m)
  unfolding try
  try-Keeps h = record { at = h.at }

  pub ignore-Keeps : {m : M (Unit {0})} → Keeps Q m → Keeps Q (ignore m)
  unfolding ignore
  ignore-Keeps h = record { at = h.at }

  pub gets-Keeps : {A : Type 0} (f : World → A) → Keeps Q (gets f)
  unfolding gets
  gets-Keeps f = record { at = λ w q. q }

  -- What is read from the state is known in what follows.
  pub gets->>=-Keeps :
      {A B : Type 0} (f : World → A) (k : A → M B)
      → ((w : World) → Keeps Q (k (f w)))
      → Keeps Q (gets f >>= k)
  unfolding gets ◌>>=◌ continue
  gets->>=-Keeps f k h = record { at = λ w q. (h w).at w q }

  pub modify-Keeps :
      (f : World → World) → ((w : World) → Q w.nodes → Q (f w).nodes) → Keeps Q (modify f)
  unfolding modify
  modify-Keeps f h = record { at = h }

  pub attempt-Keeps : Keeps Q attempt
  unfolding attempt
  attempt-Keeps = record { at = λ w q. next_fault-at Q w.faults w q }

  pub fresh_id-Keeps : Keeps Q fresh_id
  unfolding fresh_id
  fresh_id-Keeps = record { at = λ w q. q }

  pub from_option-Keeps : {A : Type 0} (o : Option A) → Keeps Q (from_option o)
  unfolding from_option
  from_option-Keeps none = record { at = λ w q. q }
  from_option-Keeps (some a) = record { at = λ w q. q }

  pub submit_task-Keeps : (id : String) (priority : ℤ) → Keeps Q (submit_task id priority)
  unfolding submit_task
  submit_task-Keeps id priority = record { at = λ w q. next_answer-at Q w.answers _ q }

pub ruleset monad_rules = (
  >>=-Keeps, >>-Keeps, return-Keeps, fail-Keeps, try-Keeps, ignore-Keeps, gets-Keeps, attempt-Keeps,
  fresh_id-Keeps, from_option-Keeps, submit_task-Keeps,
)

module _ {Q : List WorkflowNode → Type 0} where
  pub get_job_by_id-Keeps : (id : String) → Keeps Q (get_job_by_id id)
  unfolding get_job_by_id
  get_job_by_id-Keeps id = search monad_rules

  -- A write that keeps `Q`.
  save-Keeps :
      (present : World → Bool) (write : World → World)
      → ((w : World) → Q w.nodes → Q (write w).nodes)
      → Keeps Q (save present write)
  unfolding save
  save-Keeps present write h = >>-Keeps attempt-Keeps (>>=-Keeps (gets-Keeps present) choose)
    where
      choose : (here : Bool) → Keeps Q (if here then modify write else fail not_found)
      choose true = modify-Keeps write h
      choose false = fail-Keeps not_found

  pub create_job-Keeps : (job : Job) → Keeps Q (create_job job)
  unfolding create_job
  create_job-Keeps job =
      >>-Keeps attempt-Keeps
        (>>=-Keeps fresh_id-Keeps λ id. >>-Keeps (modify-Keeps _ (λ w q. q)) (return-Keeps _))

  pub update_job-Keeps : (job : Job) → Keeps Q (update_job job)
  unfolding update_job
  update_job-Keeps job = save-Keeps _ _ (λ w q. q)

  pub create_workflow_event-Keeps : (event : WorkflowEvent) → Keeps Q (create_workflow_event event)
  unfolding create_workflow_event
  create_workflow_event-Keeps event = >>-Keeps attempt-Keeps (modify-Keeps _ (λ w q. q))

  pub update_workflow_instance-Keeps :
      (wf : WorkflowInstance) → Keeps Q (update_workflow_instance wf)
  unfolding update_workflow_instance
  update_workflow_instance-Keeps wf = save-Keeps _ _ (λ w q. q)

  pub list_workflow_nodes-Keeps : (id : String) → Keeps Q (list_workflow_nodes id)
  unfolding list_workflow_nodes
  list_workflow_nodes-Keeps id = search monad_rules

  pub update_workflow_node-Keeps :
      (node : WorkflowNode)
      → ((rows : List WorkflowNode) → Q rows → Q (put_node node rows))
      → Keeps Q (update_workflow_node node)
  unfolding update_workflow_node
  update_workflow_node-Keeps node h = save-Keeps _ _ (λ w q. h w.nodes q)

  pub if-Keeps :
      {A : Type 0} (b : Bool) {x y : M A} → Keeps Q x → Keeps Q y → Keeps Q (if b then x else y)
  if-Keeps true hx hy = hx
  if-Keeps false hx hy = hy

  -- Each branch under what its test says.
  pub if_not-Keeps :
      {A : Type 0} (b : Bool) {x y : M A}
      → (b ≡ false → Keeps Q x)
      → (b ≡ true → Keeps Q y)
      → Keeps Q (if not b then x else y)
  if_not-Keeps true hx hy = hy refl
  if_not-Keeps false hx hy = hx refl

  pub record_workflow_event-Keeps :
      (id : String) (n job : Option String) (event : String) (why : Reason)
      → Keeps Q (record_workflow_event id n job event why)
  unfolding record_workflow_event
  record_workflow_event-Keeps id n job event why =
      if-Keeps (str_eq id "") (return-Keeps tt) (ignore-Keeps (create_workflow_event-Keeps _))

  pub save_status-Keeps : (old : Status) (wf : WorkflowInstance) → Keeps Q (save_status old wf)
  unfolding save_status
  save_status-Keeps old wf =
      if-Keeps (not (status_eq old wf.status))
        (>>-Keeps (update_workflow_instance-Keeps wf) (record_workflow_event-Keeps _ _ _ _ _))
        (return-Keeps tt)

  pub refresh_workflow_status-Keeps : (wf : WorkflowInstance) → Keeps Q (refresh_workflow_status wf)
  unfolding refresh_workflow_status
  refresh_workflow_status-Keeps wf =
      search (monad_rules, list_workflow_nodes-Keeps, save_status-Keeps)

-- The rules for all operations that leave the rows of nodes alone.
pub ruleset keeps_rules = (
  monad_rules, get_job_by_id-Keeps, create_job-Keeps, update_job-Keeps, list_workflow_nodes-Keeps,
  record_workflow_event-Keeps, refresh_workflow_status-Keeps,
)
