-- ===== src/Runtime/Triggers.antt =====
-- trigger_processor.go: `ProcessTriggers`, `ProcessTriggersFromData`, `loadJobFile`, `overlaySpec` and
-- `createAndSubmitJob`, with `ensureWorkflow` of workflow_runtime.go. What the files hold is an argument, parsed;
-- `read_job_file` stands for the reading of a YAML definition in a workspace, `as_text` for the test that a JSON value
-- is a text.
use Prim.Native.String.{◌++◌ as str_append}
use reactorcide.Prelude.{
  pos, ltb_ℤ, ℤ, ℕ, String, List, [], ◌∷◌, Bool, true, false, not, ◌&&◌, Option, none, some,
  if◌then◌else◌, str_eq, Bytes, lookup, trim_text,
}
use reactorcide.Models.Status.{Status, evaluating, failed}
use reactorcide.Models.Job.{Job, JobMetadata, Notes, no_notes, metadata, unparsed, submit_failed}
use reactorcide.Models.Workflow.{TriggerJobSpec, WorkflowInstance, cause}
use reactorcide.Store.World.{
  caused_by, Result, ok, err, M, ◌>>=◌, ◌>>◌, return, fail, try, ignore, gets,
}
use reactorcide.Store.Rows.{
  get_workflow_instance, create_workflow_instance, create_job, update_job, submit_task,
}
use reactorcide.Runtime.Build.{build_job_from_trigger, overlay}
use reactorcide.Runtime.Evaluate.{record_workflow_event, evaluate_workflow}
use reactorcide.Runtime.Vars.{add_workflow_vars}
use reactorcide.Runtime.Create.{MatrixSpec, WorkflowValue, create_workflow_nodes}

-- `triggerWorkflowSpec`; the variables are in the order in which a run goes through them.
pub record TriggerWorkflowSpec : Type 0 where
  pub name : String
  pub vars : List (Bytes × String)

pub record TriggersFile : Type 0 where
  pub file_type : String
  pub workflow : Option TriggerWorkflowSpec
  pub jobs : List MatrixSpec

-- What `jobDefinitionFile` gives to a trigger.
pub record JobDefinition : Type 0 where
  pub name : String
  pub image : String
  pub command : String
  pub code_dir : String
  pub job_dir : String
  pub working_dir : String
  pub run_as : Option String
  pub timeout : Option ℤ
  pub priority : Option ℤ
  pub capabilities : List String
  pub environment : List (String × String)

unfoldable pub run_as_user_from_spec : Option String → String
run_as_user_from_spec none = ""
run_as_user_from_spec (some user) = user

-- What `loadJobFile` makes of a definition that it could read.
unfoldable pub load_job_file : JobDefinition → MatrixSpec
unfolding run_as_user_from_spec
load_job_file def = record {
  job_spec = record {
    job_file = "";
    job_name = def.name;
    depends_on = [];
    condition = "";
    env = def.environment;
    source_type = "";
    source_url = "";
    source_ref = "";
    ci_source_type = "";
    ci_source_url = "";
    ci_source_ref = "";
    container_image = def.image;
    job_command = def.command;
    code_dir = def.code_dir;
    job_dir = def.job_dir;
    working_dir = def.working_dir;
    run_as_user = run_as_user_from_spec def.run_as;
    priority = def.priority;
    timeout = def.timeout;
    capabilities = def.capabilities;
  };
  for_each = [];
  item_var = "";
}

abbrev pub text_over : String → String → String
text_over base over = if not (str_eq over "") then over else base

abbrev pub option_over : {A : Type 0} → Option A → Option A → Option A
option_over base none = base
option_over base (some over) = some over

abbrev pub list_over : {A : Type 0} → List A → List A → List A
list_over base [] = base
list_over base (x ∷ over) = x ∷ over

unfoldable pub overlay_job_spec : TriggerJobSpec → TriggerJobSpec → TriggerJobSpec
overlay_job_spec base over = record {
  job_file = text_over base.job_file over.job_file;
  job_name = text_over base.job_name over.job_name;
  depends_on = list_over base.depends_on over.depends_on;
  condition = text_over base.condition over.condition;
  env = overlay base.env over.env;
  source_type = text_over base.source_type over.source_type;
  source_url = text_over base.source_url over.source_url;
  source_ref = text_over base.source_ref over.source_ref;
  ci_source_type = text_over base.ci_source_type over.ci_source_type;
  ci_source_url = text_over base.ci_source_url over.ci_source_url;
  ci_source_ref = text_over base.ci_source_ref over.ci_source_ref;
  container_image = text_over base.container_image over.container_image;
  job_command = text_over base.job_command over.job_command;
  code_dir = text_over base.code_dir over.code_dir;
  job_dir = text_over base.job_dir over.job_dir;
  working_dir = text_over base.working_dir over.working_dir;
  run_as_user = text_over base.run_as_user over.run_as_user;
  priority = option_over base.priority over.priority;
  timeout = option_over base.timeout over.timeout;
  capabilities = list_over base.capabilities over.capabilities;
}

unfoldable pub overlay_spec : MatrixSpec → MatrixSpec → MatrixSpec
unfolding overlay_job_spec
overlay_spec base over = record {
  job_spec = overlay_job_spec base.job_spec over.job_spec;
  for_each = list_over base.for_each over.for_each;
  item_var = text_over base.item_var over.item_var;
}

-- `MetadataFromJob`; an error and no metadata are one to the caller.
unfoldable pub metadata_from_notes : Notes → Option JobMetadata
metadata_from_notes no_notes = none
metadata_from_notes (metadata m) =
    if str_eq m.commit_sha "" && str_eq m.repo "" then none else some m
metadata_from_notes (unparsed s) = none

abbrev pub workflow_name : Option TriggerWorkflowSpec → String
workflow_name none = "Reactorcide Jobs"
workflow_name (some spec) =
    if not (str_eq (trim_text spec.name) "") then trim_text spec.name else "Reactorcide Jobs"

abbrev pub with_metadata : Option JobMetadata → WorkflowInstance → WorkflowInstance
with_metadata none wf = wf
with_metadata (some m) wf = record wf {
  vcs_provider = m.vcs_provider;
  vcs_repo = m.repo;
  pr_number = if ltb_ℤ (pos 0) m.pr_number then some m.pr_number else none;
  commit_sha = m.commit_sha;
}

abbrev pub vars_of : Option TriggerWorkflowSpec → List (Bytes × String)
vars_of none = []
vars_of (some spec) = spec.vars

abbrev pub has_workflow : Option String → Bool
has_workflow none = false
has_workflow (some id) = not (str_eq id "")

-- The job after Corndogs has answered.
abbrev pub after_submission : Job → Result (String × Status) → Job
after_submission job (ok (task_id, state)) = record job {
  corndogs_task_id = some task_id;
  status = state;
}
after_submission job (err e) = record job { status = failed; last_error = submit_failed }

unfoldable pub submit_created : Job → Bool → M String
submit_created job false = return job.job_id
submit_created job true = do
  answer ← try (submit_task job.job_id job.spec.priority)
  ignore (update_job (after_submission job answer))
  return job.job_id

unfoldable pub create_and_submit_job : MatrixSpec → Job → M String
create_and_submit_job spec parent = do
  job ← create_job (build_job_from_trigger spec.job_spec parent)
  has_client ← gets (λ w. w.has_client)
  submit_created job has_client

-- The ids of the jobs that could be created.
abbrev pub created : Result String → List String → List String
created (ok id) ids = id ∷ ids
created (err e) ids = ids

unfoldable pub create_jobs : Job → List MatrixSpec → M (List String)
create_jobs parent [] = return []
create_jobs parent (spec ∷ specs) = do
  one ← try (create_and_submit_job spec parent)
  ids ← create_jobs parent specs
  return (created one ids)

module _ (as_text : String → Option String) where
  abbrev pub event_text : Option String → String
  event_text none = "directly_submitted"
  event_text (some s) = if not (str_eq s "") then s else "directly_submitted"

  abbrev pub event_value : Option String → String
  event_value none = "directly_submitted"
  event_value (some json) = event_text (as_text json)

  unfoldable pub workflow_event_type : Option (List (String × String)) → String
  workflow_event_type none = "directly_submitted"
  workflow_event_type (some env) = event_value (lookup "REACTORCIDE_EVENT_TYPE" env)

  abbrev pub comment_marker_of : String → Job → String
  comment_marker_of sha parent =
      if not (str_eq sha "")
      then str_append "<!-- reactorcide:workflows:" (
          str_append sha
            (str_append ":" (str_append (workflow_event_type parent.spec.job_env_vars) " -->")))
      else ""

  -- The instance, before the database gives it its key.
  unfoldable pub new_instance : Job → Option TriggerWorkflowSpec → WorkflowInstance
  unfolding metadata_from_notes
  new_instance parent spec =
      let wf = with_metadata (metadata_from_notes parent.spec.notes) (record {
        workflow_id = "";
        user_id = parent.spec.user_id;
        project_id = parent.spec.project_id;
        parent_job_id = some parent.job_id;
        name = workflow_name spec;
        status = evaluating;
        queue_name = parent.spec.queue_name;
        vcs_provider = "";
        vcs_repo = "";
        pr_number = none;
        commit_sha = "";
        status_context = workflow_name spec;
        comment_marker = "";
        completed_at = none;
        last_error = "";
      }) in
      record wf { comment_marker = comment_marker_of wf.commit_sha parent }

  unfoldable pub start_instance : Job → Option TriggerWorkflowSpec → M (WorkflowInstance × Job)
  start_instance parent spec = do
    wf ← create_workflow_instance (new_instance parent spec)
    update_job (record parent { workflow_id = some wf.workflow_id })
    record_workflow_event wf.workflow_id none none "workflow_evaluated"
        (cause "created workflow from triggers")
    return (wf, record parent { workflow_id = some wf.workflow_id })

  -- The instance, and the parent job as it is left at hand.
  unfoldable pub ensure_workflow : Job → Option TriggerWorkflowSpec → M (WorkflowInstance × Job)
  ensure_workflow parent spec =
      if has_workflow parent.workflow_id
      then (do wf ← get_workflow_instance (deref_id parent.workflow_id); return (wf, parent))
      else start_instance parent spec
    where
      deref_id : Option String → String
      deref_id none = ""
      deref_id (some id) = id

module _ (read_job_file : String → String → Option JobDefinition) where
  abbrev pub loaded_spec : Option JobDefinition → MatrixSpec → List MatrixSpec → List MatrixSpec
  loaded_spec none spec specs = specs
  loaded_spec (some def) spec specs = overlay_spec (load_job_file def) spec ∷ specs

  abbrev pub before :
      (List MatrixSpec → List MatrixSpec) → Result (List MatrixSpec) → Result (List MatrixSpec)
  before add (ok specs) = ok (add specs)
  before add (err e) = err e

  -- A definition that cannot be read is passed over.
  unfoldable pub resolve_specs : String → List MatrixSpec → Result (List MatrixSpec)
  resolve_specs workspace [] = ok []
  resolve_specs workspace (spec ∷ specs) =
      let rest = resolve_specs workspace specs in
      if str_eq spec.job_spec.job_file ""
      then before (λ others. spec ∷ others) rest
      else if str_eq workspace ""
      then err (caused_by "job_file requires workspace-backed trigger processing")
      else before (loaded_spec (read_job_file workspace spec.job_spec.job_file) spec) rest

-- `triggers.json`: not there, not readable, not parsed, or what it holds.
pub data TriggersData : Type 0 where
  no_triggers unreadable : TriggersData
  data_of : Option TriggersFile → TriggersData

module _ (as_text : String → Option String) (hash : String → String)
    (to_json : WorkflowValue → String) (history : Option (String → Result (Option ℕ)))
    (read_job_file : String → String → Option JobDefinition) where
  unfoldable pub run_workflow : Job → Option TriggerWorkflowSpec → List MatrixSpec → M (List String)
  run_workflow parent spec specs = do
    ensured ← ensure_workflow as_text parent spec
    add_workflow_vars hash none (some parent.job_id) ensured.0.workflow_id (vars_of spec)
    create_workflow_nodes to_json history ensured.0 specs
    evaluated ← evaluate_workflow ensured.0
    return evaluated.0

  -- `supported`: the store implements `workflowStore`.
  unfoldable pub run_resolved :
      Bool → Job → Option TriggerWorkflowSpec → Result (List MatrixSpec) → M (List String)
  run_resolved supported parent spec (err e) = fail e
  run_resolved supported parent spec (ok specs) =
      if supported then run_workflow parent spec specs else create_jobs parent specs

  unfoldable pub run_jobs :
      Bool → String → Job → Option TriggerWorkflowSpec → List MatrixSpec → M (List String)
  run_jobs supported workspace parent spec [] = return []
  run_jobs supported workspace parent spec (job ∷ jobs) =
      run_resolved supported parent spec (resolve_specs read_job_file workspace (job ∷ jobs))

  unfoldable pub process_triggers_from_data :
      Bool → String → Job → Option TriggersFile → M (List String)
  process_triggers_from_data supported workspace parent none =
      fail (caused_by "failed to parse triggers data")
  process_triggers_from_data supported workspace parent (some file) =
      if not (str_eq file.file_type "trigger_job")
      then fail (caused_by "unexpected trigger type")
      else run_jobs supported workspace parent file.workflow file.jobs

  unfoldable pub process_triggers : Bool → String → Job → TriggersData → M (Unit {0})
  process_triggers supported workspace parent no_triggers = return tt
  process_triggers supported workspace parent unreadable =
      fail (caused_by "failed to read triggers file")
  process_triggers supported workspace parent (data_of file) =
      process_triggers_from_data supported workspace parent file >>= λ ids. return tt
