-- ===== src/Store/Rows.antt =====
-- The store's operations on rows, as postgres_store implements them, and the calls of Corndogs.
use reactorcide.Prelude.{
  ℤ, String, List, [], ◌∷◌, ◌++◌, map, Bool, true, false, Option, none, some, if◌then◌else◌, str_eq,
}
use reactorcide.Models.Status.{Status, status_in_set}
use reactorcide.Models.Job.{Job}
use reactorcide.Models.Workflow.{WorkflowNode, WorkflowInstance, WorkflowEvent}
use reactorcide.Store.World.{
  not_found, corndogs_error, Result, ok, err, World, M, ◌>>=◌, ◌>>◌, return, fail, gets, modify,
  attempt, from_option, fresh_id, monad,
}

-- The first row that passes a test.
abbrev pub find : {A : Type 0} → (A → Bool) → List A → Option A
find p [] = none
find p (x ∷ rows) = if p x then some x else find p rows

-- The rows that pass a test.
abbrev pub select : {A : Type 0} → (A → Bool) → List A → List A
select p [] = []
select p (x ∷ rows) = if p x then x ∷ select p rows else select p rows

-- `Save`: the row of that key is overwritten.
abbrev pub put_node : WorkflowNode → List WorkflowNode → List WorkflowNode
put_node node = map (λ n. if str_eq n.node_id node.node_id then node else n)

abbrev pub put_job : Job → List Job → List Job
put_job job = map (λ j. if str_eq j.job_id job.job_id then job else j)

abbrev pub put_workflow : WorkflowInstance → List WorkflowInstance → List WorkflowInstance
put_workflow wf = map (λ v. if str_eq v.workflow_id wf.workflow_id then wf else v)

-- Some row passes a test.
abbrev pub exists : {A : Type 0} → (A → Bool) → List A → Bool
exists p [] = false
exists p (x ∷ rows) = if p x then true else exists p rows

-- A write to a row that has to be there: if it affects no row, it ends in an error.
unfoldable pub save : (World → Bool) → (World → World) → M (Unit {0})
save present write = do attempt; here ← gets present; if here then modify write else fail not_found

unfoldable pub list_workflow_nodes : String → M (List WorkflowNode)
list_workflow_nodes id = do attempt; gets (λ w. select (λ n. str_eq n.workflow_id id) w.nodes)

unfoldable pub update_workflow_node : WorkflowNode → M (Unit {0})
update_workflow_node node =
    save (λ w. exists (λ n. str_eq n.node_id node.node_id) w.nodes)
      (λ w. record w { nodes = put_node node w.nodes })

-- A column that may be NULL has the value.
abbrev pub has_value : Option String → String → Bool
has_value none v = false
has_value (some u) v = str_eq u v

unfoldable pub get_workflow_node_by_job_id : String → M WorkflowNode
get_workflow_node_by_job_id id = do
  attempt
  found ← gets (λ w. find (λ n. has_value n.job_id id) w.nodes)
  from_option found

unfoldable pub get_workflow_instance : String → M WorkflowInstance
get_workflow_instance id = do
  attempt
  found ← gets (λ w. find (λ v. str_eq v.workflow_id id) w.workflows)
  from_option found

unfoldable pub update_workflow_instance : WorkflowInstance → M (Unit {0})
update_workflow_instance wf =
    save (λ w. exists (λ v. str_eq v.workflow_id wf.workflow_id) w.workflows)
      (λ w. record w { workflows = put_workflow wf w.workflows })

unfoldable pub create_workflow_event : WorkflowEvent → M (Unit {0})
create_workflow_event event = do attempt; modify (λ w. record w { events = w.events ++ event ∷ [] })

-- The database gives the rows their keys.
unfoldable pub create_workflow_instance : WorkflowInstance → M WorkflowInstance
create_workflow_instance wf = do
  attempt
  id ← fresh_id
  let row = record wf { workflow_id = id }
  modify (λ w. record w { workflows = w.workflows ++ row ∷ [] })
  return row

unfoldable pub create_workflow_node : WorkflowNode → M WorkflowNode
create_workflow_node node = do
  attempt
  id ← fresh_id
  let row = record node { node_id = id }
  modify (λ w. record w { nodes = w.nodes ++ row ∷ [] })
  return row

unfoldable pub get_job_by_id : String → M Job
get_job_by_id id = do
  attempt
  found ← gets (λ w. find (λ j. str_eq j.job_id id) w.jobs)
  from_option found

-- The database gives the row its key.
unfoldable pub create_job : Job → M Job
create_job job = do
  attempt
  id ← fresh_id
  let row = record job { job_id = id }
  modify (λ w. record w { jobs = w.jobs ++ row ∷ [] })
  return row

unfoldable pub update_job : Job → M (Unit {0})
update_job job =
    save (λ w. exists (λ j. str_eq j.job_id job.job_id) w.jobs)
      (λ w. record w { jobs = put_job job w.jobs })

-- Others' writes to the job table, up to the moment when the row's lock is ours.
unfoldable pub interfere : List (List Job → List Job) → World → World
interfere [] w = w
interfere (rival ∷ rivals) w = record w { jobs = rival w.jobs; rivals = rivals }

-- `apply` answers what its closure takes of the row, and the row it leaves.
unfoldable pub guarded :
    {A : Type 0} → List Status → (Job → A × Job) → Option Job → M (Option (A × Job))
guarded from apply none = fail not_found
guarded from apply (some job) =
    if status_in_set job.status from
    then (modify (λ w. record w { jobs = put_job (apply job).1 w.jobs })
        >> return (some (apply job)))
    else return none

-- `UpdateJobStatusGuarded`: `none` where the row's status is not one of `from`.
unfoldable pub update_job_status_guarded :
    {A : Type 0} → String → List Status → (Job → A × Job) → M (Option (A × Job))
update_job_status_guarded id from apply = do
  modify (λ w. interfere w.rivals w)
  attempt
  found ← gets (λ w. find (λ j. str_eq j.job_id id) w.jobs)
  guarded from apply found

unfoldable pub next_answer :
    List (Option (String × Status)) → World → Result (String × Status) × World
next_answer [] w = (err corndogs_error, w)
next_answer (none ∷ answers) w = (err corndogs_error, record w { answers = answers })
next_answer (some task ∷ answers) w = (ok task, record w { answers = answers })

-- `SubmitTask`: the task's id and the state that it is in.
unfoldable pub submit_task : String → ℤ → M (String × Status)
submit_task job_id priority w =
    next_answer w.answers (record w { tasks = w.tasks ++ (job_id, priority) ∷ [] })

unfoldable pub next_cancel : List Bool → World → Result (Unit {0}) × World
next_cancel [] w = (err corndogs_error, w)
next_cancel (false ∷ cancels) w = (err corndogs_error, record w { cancels = cancels })
next_cancel (true ∷ cancels) w = (ok tt, record w { cancels = cancels })

-- `CancelTask` from the state `submitted`: it fails if a worker has claimed the task.
unfoldable pub cancel_task : String → M (Unit {0})
cancel_task id w = next_cancel w.cancels (record w { cancel_calls = w.cancel_calls ++ id ∷ [] })

-- All operations of this file, for proofs that run them.
unfoldable pub rows : Unit {0}
unfolding monad save list_workflow_nodes update_workflow_node get_workflow_node_by_job_id
    get_workflow_instance update_workflow_instance create_workflow_event create_workflow_instance
    create_workflow_node get_job_by_id create_job update_job interfere guarded
    update_job_status_guarded next_answer submit_task next_cancel cancel_task
rows = tt
