-- ===== src/Runtime/Triggered.antt =====
-- What the processing of triggers leaves in the table of nodes.
use reactorcide.Prelude.{
  ◌≡◌, refl, sym, subst, ℕ, suc, String, List, [], ◌∷◌, ◌++◌, Bool, true, false, Option, none, some,
  if◌then◌else◌, str_eq,
}
use reactorcide.Models.Job.{Job}
use reactorcide.Models.Workflow.{WorkflowNode, WorkflowInstance, WorkflowEvent, cause}
use reactorcide.Store.World.{
  Result, ok, err, World, continue, ◌>>=◌, ◌>>◌, return, ignore, modify, fail,
}
use reactorcide.Store.Rows.{create_workflow_instance, create_workflow_event, exists, put_job, rows}
use reactorcide.Store.Leads.{Leads, return-Leads, Yields, >>=-Yields, >>-Yields}
use reactorcide.Store.World.{not_found}
use reactorcide.Runtime.Evaluate.{record_workflow_event, evaluate_workflow}
use reactorcide.Runtime.Vars.{add_workflow_vars}
use reactorcide.Runtime.Create.{MatrixSpec, WorkflowValue}
use reactorcide.Runtime.Expansion.{Made, all_nodes, with_keys, all_added}
use reactorcide.Runtime.Described.{AllRows, HasKeysFrom, with_keys-AllRows, with_keys-HasKeysFrom}
use reactorcide.Models.Status.{evaluating}
use reactorcide.Models.Job.{JobMetadata}
use reactorcide.Runtime.Triggers.{with_metadata, metadata_from_notes}
use reactorcide.Runtime.Steps.{RowsStep, HasKeys, evaluate_workflow-RowsStep}
use reactorcide.Runtime.Triggers.{
  TriggerWorkflowSpec, TriggersFile, JobDefinition, vars_of, has_workflow, new_instance,
  start_instance, ensure_workflow, resolve_specs, run_workflow, run_resolved, run_jobs,
  process_triggers_from_data,
}

module _ (as_text : String → Option String) (parent : Job) (spec : Option TriggerWorkflowSpec) where
  -- The instance with the key that it gets.
  abbrev pub instance_of : String → WorkflowInstance
  instance_of id = record (new_instance as_text parent spec) { workflow_id = id }

  abbrev child_of : String → Job
  child_of id = record parent { workflow_id = some id }

  -- The job's row is there.
  abbrev pub IsStored : World → Type 0
  IsStored w = exists (λ j. str_eq j.job_id parent.job_id) w.jobs ≡ true

  started :
      (w : World)
      → w.faults ≡ []
      → IsStored w
      → Leads
          (λ v. v ≡ w)
          (start_instance as_text parent spec)
          (instance_of (w.ulid w.issued), child_of (w.ulid w.issued))
          (Made w.nodes (suc w.issued) w.ulid)
  unfolding rows start_instance record_workflow_event
  started w calm stored = record {
    at = λ v e. subst Goal (sym e) (
        subst Goal (λ i. record w { faults = sym calm i })
          (by_cases (str_eq (w.ulid w.issued) "") _ stored));
  }
    where
      Goal : World → Type 0
      Goal v =
          ((start_instance as_text parent spec v).0
            ≡ ok (instance_of (w.ulid w.issued), child_of (w.ulid w.issued)))
          × Made w.nodes (suc w.issued) w.ulid (start_instance as_text parent spec v).1

      event : WorkflowEvent
      event = record {
        workflow_id = w.ulid w.issued;
        node_id = none;
        job_id = none;
        event_type = "workflow_evaluated";
        reason = cause "created workflow from triggers";
      }

      answer : WorkflowInstance → WorkflowInstance × Job
      answer wf = (wf, child_of wf.workflow_id)

      by_cases :
          (unkeyed here : Bool)
          → here ≡ true
          → let run =
              (create_workflow_instance (new_instance as_text parent spec) >>= λ wf.
              (if here
                then modify (λ v. record v { jobs = put_job (child_of wf.workflow_id) v.jobs })
                else fail not_found)
              >> ((if unkeyed then return tt else ignore (create_workflow_event event))
                  >> return (answer wf)))
                (record w { faults = [] }) in
            (run.0 ≡ ok (instance_of (w.ulid w.issued), child_of (w.ulid w.issued)))
            × Made w.nodes (suc w.issued) w.ulid run.1
      by_cases true true h =
          (refl, record { no_faults = refl; table_is = refl; issued_is = refl; ulid_is = refl })
      by_cases false true h =
          (refl, record { no_faults = refl; table_is = refl; issued_is = refl; ulid_is = refl })
      by_cases unkeyed false h = absurd (cc)

-- The ids out of what evaluation answers.
abbrev pub ids_of : Result (List String × WorkflowInstance) → Result (List String)
ids_of (ok answer) = ok answer.0
ids_of (err e) = err e

ids_of-return :
    (r : Result (List String × WorkflowInstance) × World)
    → continue (λ answer. return answer.0) r ≡ (ids_of r.0, r.1)
unfolding continue return
ids_of-return (ok a, w) = refl
ids_of-return (err e, w) = refl

-- The evaluation of `wf` in a state with these nodes, in which no operation fails, comes to this.
abbrev pub Evaluates : WorkflowInstance → List WorkflowNode → Result (List String) × World → Type 0
Evaluates wf table outcome =
    (before : World) × ((before.nodes ≡ table)
      × ((before.faults ≡ [])
          × (outcome ≡ (ids_of (evaluate_workflow wf before).0, (evaluate_workflow wf before).1))))

evaluated :
    (wf : WorkflowInstance) (table : List WorkflowNode) (n : ℕ) (ulid : ℕ → String)
    → Yields
        (Made table n ulid)
        (evaluate_workflow wf >>= λ answer. return answer.0)
        (Evaluates wf table)
unfolding ◌>>=◌
evaluated wf table n ulid = record {
  at = λ w m. (w, (m.table_is, (m.no_faults, ids_of-return (evaluate_workflow wf w))));
}

stepped :
    (wf : WorkflowInstance) (table : List WorkflowNode) (outcome : Result (List String) × World)
    → Evaluates wf table outcome
    → HasKeys table
    → RowsStep table outcome.1.nodes
stepped wf table outcome (before, (table_is, (calm, same))) keys =
    subst (λ (o : Result (List String) × World). RowsStep table o.1.nodes) (sym same)
      (subst (λ t. RowsStep t (evaluate_workflow wf before).1.nodes) table_is
        (evaluate_workflow-RowsStep wf before (subst HasKeys (sym table_is) keys)))

-- An instance for the triggers that a job left.
pub record IsInstanceFor (parent : Job) (id : String) (wf : WorkflowInstance) : Type 0 where
  pub keyed : wf.workflow_id ≡ id
  pub left_by : wf.parent_job_id ≡ some parent.job_id
  pub user : wf.user_id ≡ parent.spec.user_id
  pub project : wf.project_id ≡ parent.spec.project_id
  pub queue : wf.queue_name ≡ parent.spec.queue_name
  pub in_evaluation : wf.status ≡ evaluating

module _ (as_text : String → Option String) (hash : String → String)
    (to_json : WorkflowValue → String) (history : Option (String → Result (Option ℕ)))
    (read_job_file : String → String → Option JobDefinition) where
  run_workflow-Yields :
      (parent : Job) (spec : Option TriggerWorkflowSpec) (specs : List MatrixSpec) (w : World)
      → w.faults ≡ []
      → IsStored as_text parent spec w
      → has_workflow parent.workflow_id ≡ false
      → vars_of spec ≡ []
      → let wf = instance_of as_text parent spec (w.ulid w.issued) in
        Yields
          (λ v. v ≡ w)
          (run_workflow as_text hash to_json history read_job_file parent spec specs)
          (Evaluates wf
            (w.nodes ++ with_keys w.ulid (suc w.issued) (all_nodes to_json history wf specs)))
  unfolding run_workflow ensure_workflow add_workflow_vars
  run_workflow-Yields parent spec specs w calm stored fresh no_vars =
      rw (fresh, no_vars)
        (>>=-Yields _ (started as_text parent spec w calm stored) (
          >>-Yields (return-Leads tt) (
            >>-Yields (all_added to_json history _ w.ulid specs w.nodes (suc w.issued))
              (evaluated _ _ _ _))))

-- The metadata is in other columns.
parent_kept :
    (m : Option JobMetadata) (wf : WorkflowInstance)
    → (with_metadata m wf).parent_job_id ≡ wf.parent_job_id
parent_kept none wf = refl
parent_kept (some m) wf = refl

user_kept :
    (m : Option JobMetadata) (wf : WorkflowInstance) → (with_metadata m wf).user_id ≡ wf.user_id
user_kept none wf = refl
user_kept (some m) wf = refl

project_kept :
    (m : Option JobMetadata) (wf : WorkflowInstance)
    → (with_metadata m wf).project_id ≡ wf.project_id
project_kept none wf = refl
project_kept (some m) wf = refl

queue_kept :
    (m : Option JobMetadata) (wf : WorkflowInstance)
    → (with_metadata m wf).queue_name ≡ wf.queue_name
queue_kept none wf = refl
queue_kept (some m) wf = refl

status_kept :
    (m : Option JobMetadata) (wf : WorkflowInstance) → (with_metadata m wf).status ≡ wf.status
status_kept none wf = refl
status_kept (some m) wf = refl

instance_of-IsInstanceFor :
    (as_text : String → Option String) (parent : Job) (spec : Option TriggerWorkflowSpec)
    (id : String)
    → IsInstanceFor parent id (instance_of as_text parent spec id)
unfolding new_instance
instance_of-IsInstanceFor as_text parent spec id =
    let m = metadata_from_notes parent.spec.notes in
    record {
      keyed = refl;
      left_by = parent_kept m _;
      user = user_kept m _;
      project = project_kept m _;
      queue = queue_kept m _;
      in_evaluation = status_kept m _;
    }

-- No database operation fails, and a job that has no workflow yet and whose row is stored leaves triggers of
-- the right type, with jobs whose definitions are resolved, and with no variables. Then the processing of the triggers answers
-- and leaves exactly what the evaluation of a new instance does, which has the next key of the supply and the job's owner
-- and queue, in a state where the table of nodes has the rows from before and after them the rows of the
-- specifications, with the keys that follow. So, if the keys differ, the rows in the end are these, in order, of which
-- only open ones were changed, and only to waiting, skipped, submitted or failed.
pub process_triggers_from_data-Evaluates :
    (as_text : String → Option String) (hash : String → String) (to_json : WorkflowValue → String)
    (history : Option (String → Result (Option ℕ)))
    (read_job_file : String → String → Option JobDefinition) (workspace : String) (parent : Job)
    (file : TriggersFile) (job : MatrixSpec) (jobs specs : List MatrixSpec) (w : World)
    → w.faults ≡ []
    → IsStored as_text parent file.workflow w
    → has_workflow parent.workflow_id ≡ false
    → str_eq file.file_type "trigger_job" ≡ true
    → file.jobs ≡ job ∷ jobs
    → resolve_specs read_job_file workspace file.jobs ≡ ok specs
    → vars_of file.workflow ≡ []
    → let outcome =
        process_triggers_from_data as_text hash to_json history read_job_file true workspace parent
          (some file)
          w in
      (wf : WorkflowInstance) × ((new : List WorkflowNode) × (IsInstanceFor parent
            (w.ulid w.issued)
            wf
          × (AllRows wf specs new
              × (HasKeysFrom w.ulid (suc w.issued) new
                  × (Evaluates wf (w.nodes ++ new) outcome
                      × (HasKeys (w.nodes ++ new) → RowsStep (w.nodes ++ new) outcome.1.nodes))))))
unfolding process_triggers_from_data run_jobs run_resolved
process_triggers_from_data-Evaluates as_text hash to_json history read_job_file workspace parent
      file job jobs specs w calm stored fresh right_type listed resolved no_vars =
    let wf = instance_of as_text parent file.workflow (w.ulid w.issued) in
    let nodes = all_nodes to_json history wf specs in
    let new = with_keys w.ulid (suc w.issued) nodes in
    let run : Evaluates wf (w.nodes ++ new) (
        process_triggers_from_data as_text hash to_json history read_job_file true workspace parent
          (some file) w) =
      rw (right_type, listed, sym listed, resolved)
        ((run_workflow-Yields as_text hash to_json history read_job_file parent file.workflow specs
            w calm stored fresh no_vars).at
          w refl) in
    (
      wf,
      (
        new,
        (
          instance_of-IsInstanceFor as_text parent file.workflow (w.ulid w.issued),
          (
            with_keys-AllRows to_json history wf w.ulid specs (suc w.issued),
            (
              with_keys-HasKeysFrom w.ulid (suc w.issued) nodes,
              (run, λ keys. stepped wf (w.nodes ++ new) _ run keys),
            ),
          ),
        ),
      ),
    )
