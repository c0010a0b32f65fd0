-- ===== src/Runtime/TriggerRuns.antt =====
-- Runs of the processing of triggers.
use reactorcide.Prelude.{◌≡◌, refl, String, List, [], ◌∷◌, map, true, Option, none, some, pos}
use reactorcide.Models.Status.{submitted, completed, failed, pending}
use reactorcide.Models.Job.{Job}
use reactorcide.Models.Samples.{job, trigger}
use reactorcide.Store.World.{ok}
use reactorcide.Store.Samples.{numbered, quiet}
use reactorcide.Runtime.Create.{
  MatrixSpec, create_workflow_nodes, create_node_of_spec, create_items, create_spec, node_of_spec,
  stringify_workflow_value,
}
use reactorcide.Runtime.Vars.{add_workflow_vars}
use reactorcide.Runtime.Evaluate.{evaluation}
use reactorcide.Runtime.Steps.{HasKeys, RowsStep}
use reactorcide.Runtime.Examples.{matrix, as_json, statuses}
use reactorcide.Runtime.Triggers.{
  TriggersFile, JobDefinition, resolve_specs, overlay_spec, overlay_job_spec, load_job_file,
  run_as_user_from_spec, process_triggers_from_data, run_jobs, run_resolved, run_workflow,
  ensure_workflow, start_instance, new_instance, workflow_event_type, metadata_from_notes,
}
use reactorcide.Runtime.Triggered.{IsInstanceFor, Evaluates, process_triggers_from_data-Evaluates}
use reactorcide.Runtime.Described.{AllRows, HasKeysFrom}
use reactorcide.Models.Workflow.{WorkflowInstance, WorkflowNode}

-- Triggers of an eval job: the matrix and a definition that overrides its own name.
abbrev inline : List MatrixSpec
inline = map inline_of matrix
  where
    inline_of : MatrixSpec → MatrixSpec
    inline_of s = record s { job_spec = record s.job_spec { job_file = "" } }

abbrev triggers : TriggersFile
triggers = record { file_type = "trigger_job"; workflow = none; jobs = inline }

abbrev eval_job : Job
eval_job = record (job "parent" completed) { workflow_id = none }

abbrev definition : JobDefinition
definition = record {
  name = "lint";
  image = "golang";
  command = "make lint";
  code_dir = "";
  job_dir = "";
  working_dir = "";
  run_as = some "nobody";
  timeout = none;
  priority = some (pos 3);
  capabilities = [];
  environment = ("A", "1") ∷ ("B", "2") ∷ [];
}

abbrev no_file : String → String → Option JobDefinition
no_file _ _ = none

overlaid_name :
    (overlay_spec (load_job_file definition) (record {
      job_spec = record trigger { job_file = "lint.yaml"; job_name = ""; env = ("B", "3") ∷ [] };
      for_each = [];
      item_var = "";
    })).job_spec.env
    ≡ ("A", "1") ∷ ("B", "3") ∷ []
unfolding overlay_spec overlay_job_spec load_job_file run_as_user_from_spec
overlaid_name = refl

matrix_resolves : resolve_specs no_file "" inline ≡ ok inline
unfolding resolve_specs
matrix_resolves = refl

eval_statuses :
    statuses
      (process_triggers_from_data
        (λ _. none)
        (λ v. v)
        as_json
        none
        no_file
        true
        ""
        eval_job
        (some triggers)
        (quiet [])).1
    ≡ submitted ∷ failed ∷ pending ∷ []
unfolding evaluation create_node_of_spec create_items create_spec create_workflow_nodes node_of_spec
    process_triggers_from_data run_jobs run_resolved run_workflow ensure_workflow start_instance
    new_instance workflow_event_type metadata_from_notes resolve_specs add_workflow_vars
    stringify_workflow_value
eval_statuses = refl

process_triggers_from_data-Evaluates_example :
    let outcome =
      process_triggers_from_data
        (λ _. none)
        (λ v. v)
        as_json
        none
        no_file
        true
        ""
        eval_job
        (some triggers)
        (quiet []) in
    (wf : WorkflowInstance) × ((new : List WorkflowNode) × (IsInstanceFor eval_job "id-0" wf
        × (AllRows wf inline new
            × (HasKeysFrom numbered 1 new
                × (Evaluates wf new outcome × (HasKeys new → RowsStep new outcome.1.nodes))))))
process_triggers_from_data-Evaluates_example =
    process_triggers_from_data-Evaluates (λ _. none) (λ v. v) as_json none no_file "" eval_job
      triggers _ _ inline (quiet []) refl refl refl refl refl matrix_resolves refl
