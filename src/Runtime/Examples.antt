-- ===== src/Runtime/Examples.antt =====
-- Runs of the workflow runtime on small workflows.
use reactorcide.Prelude.{
  ◌++◌, lookup, trim_space, ◌≡◌, refl, ◌↔◌, All, String, List, [], ◌∷◌, map, true, none, some,
  codes, pos,
}
use reactorcide.Models.Status.{
  Status, submitted, running, completed, failed, pending, waiting, skipped,
}
use reactorcide.Models.Workflow.{WorkflowNode}
use reactorcide.Models.Samples.{apart, node, workflow, job}
use reactorcide.Store.World.{World}
use reactorcide.Store.Samples.{quiet}
use reactorcide.Runtime.Decide.{
  dependencies_ready, evaluate_workflow_condition, compute_workflow_status,
}
use reactorcide.Store.World.{ok, err, caused_by}
use reactorcide.Store.Samples.{numbered}
use reactorcide.Models.Samples.{trigger}
use reactorcide.Models.Workflow.{WorkflowVar, cause}
use reactorcide.Runtime.Create.{
  WorkflowValue, text_value, number_value, MatrixSpec, create_workflow_nodes, create_node_of_spec,
  create_items, create_spec, node_of_spec, item_name, decimal, decimal_from,
  stringify_workflow_value,
}
use reactorcide.Runtime.Described.{AllRows, HasKeysFrom, create_workflow_nodes-AllRows}
use reactorcide.Runtime.Vars.{
  find_var, output, merge_workflow_output_file, add_workflow_vars, merge_workflow_var,
  merge_existing, upsert_workflow_var, upsert_found,
}
use reactorcide.Runtime.WriteOnce.{merge_workflow_output_file-vars}
use reactorcide.Runtime.Evaluate.{evaluate_workflow, evaluation}
use reactorcide.Runtime.Completion.{process_workflow_completion, completion}
use reactorcide.Runtime.Steps.{RowsStep, evaluate_workflow-RowsStep}
use reactorcide.Runtime.Ready.{Finished, dependencies_ready_iff}
use reactorcide.Runtime.Conditions.{Holds, evaluate_workflow_condition_iff}
use reactorcide.Runtime.Status.{status_rule, compute_workflow_status-eq-status_rule}

abbrev build : WorkflowNode
build = node "build" pending [] (codes "")

abbrev check : WorkflowNode
check = node "check" pending ("build" ∷ []) (codes "all_success")

abbrev report : WorkflowNode
report = node "report" waiting ("check" ∷ []) (codes " always() ")

abbrev pipeline : List WorkflowNode
pipeline = build ∷ check ∷ report ∷ []

abbrev pub statuses : World → List Status
statuses w = map (λ n. n.status) w.nodes

pipeline_starts :
    statuses (evaluate_workflow workflow (quiet pipeline)).1 ≡ submitted ∷ waiting ∷ waiting ∷ []
unfolding evaluation
pipeline_starts = refl

pipeline_submits : (evaluate_workflow workflow (quiet pipeline)).1.tasks ≡ ("id-1", pos 7) ∷ []
unfolding evaluation
pipeline_submits = refl

-- A failed job: what needs success is skipped, and what comes after in any case is submitted.

pipeline_after_failure :
    statuses
      (process_workflow_completion
        (job "parent" failed)
        none
        (quiet (record build { status = running; job_id = some "parent" } ∷ check ∷ report ∷ []))).1
    ≡ failed ∷ skipped ∷ submitted ∷ []
unfolding completion
pipeline_after_failure = refl

-- The nodes in another order: `report` needs `rollback`, which is skipped only after `report` has been
-- looked at. Nothing is on its way then, and the workflow still counts as running.
abbrev out_of_order : List WorkflowNode
out_of_order =
    node "report" pending ("rollback" ∷ []) (codes "always")
    ∷ node "rollback" pending ("build" ∷ []) (codes "any_failed")
    ∷ node "build" completed [] (codes "")
    ∷ []

out_of_order_stalls :
    statuses (evaluate_workflow workflow (quiet out_of_order)).1
    ≡ waiting ∷ skipped ∷ completed ∷ []
unfolding evaluation
out_of_order_stalls = refl

out_of_order_runs :
    compute_workflow_status (evaluate_workflow workflow (quiet out_of_order)).1.nodes ≡ running
unfolding evaluation
out_of_order_runs = refl

evaluate_workflow-RowsStep_example :
    RowsStep pipeline (evaluate_workflow workflow (quiet pipeline)).1.nodes
evaluate_workflow-RowsStep_example = evaluate_workflow-RowsStep workflow (quiet pipeline) (
  (apart "check" "build" refl, (apart "report" "build" refl, tt)),
  ((apart "report" "check" refl, tt), (tt, tt)),
)

dependencies_ready_iff_example :
    ((dependencies_ready pipeline report).0 ≡ true) ↔ All (Finished pipeline) report.depends_on
dependencies_ready_iff_example = dependencies_ready_iff pipeline report

evaluate_workflow_condition_iff_example :
    ((evaluate_workflow_condition pipeline report).0 ≡ true)
    ↔ Holds (codes "always()") pipeline report.depends_on
unfolding trim_space
evaluate_workflow_condition_iff_example = evaluate_workflow_condition_iff pipeline report

compute_workflow_status-eq-status_rule_example :
    compute_workflow_status pipeline ≡ status_rule pipeline
compute_workflow_status-eq-status_rule_example = compute_workflow_status-eq-status_rule pipeline

-- A specification for each of two items, and one that depends on it.
abbrev pub matrix : List MatrixSpec
matrix =
    record {
      job_spec = trigger;
      for_each = text_value "linux" ∷ number_value "12" ∷ [];
      item_var = "OS";
    }
    ∷ record {
      job_spec = record trigger { job_name = "deploy"; depends_on = "build" ∷ [] };
      for_each = [];
      item_var = "";
    }
    ∷ []

abbrev pub as_json : WorkflowValue → String
as_json _ = "{}"

matrix_names :
    map
      (λ n. n.display_name)
      (create_workflow_nodes as_json none workflow matrix (quiet [])).1.nodes
    ≡ "build[0]" ∷ "build[1]" ∷ "deploy" ∷ []
unfolding completion create_node_of_spec create_items create_spec create_workflow_nodes node_of_spec
    item_name decimal decimal_from
matrix_names = refl

matrix_env :
    map
      (λ n. lookup "OS" n.job_spec.env)
      (create_workflow_nodes as_json none workflow matrix (quiet [])).1.nodes
    ≡ some "linux" ∷ some "12" ∷ none ∷ []
unfolding completion create_node_of_spec create_items create_spec create_workflow_nodes node_of_spec
    stringify_workflow_value
matrix_env = refl

two_digits : decimal 407 ≡ "407"
unfolding decimal decimal_from
two_digits = refl

create_workflow_nodes-AllRows_example :
    ((create_workflow_nodes as_json none workflow matrix (quiet pipeline)).0 ≡ ok tt)
    × ((new : List WorkflowNode) × (((create_workflow_nodes as_json none workflow matrix
              (quiet pipeline)).1.nodes
            ≡ pipeline ++ new)
          × (AllRows workflow matrix new × HasKeysFrom numbered 0 new)))
create_workflow_nodes-AllRows_example =
    create_workflow_nodes-AllRows as_json none workflow matrix (quiet pipeline) refl

-- A variable that is set, and an output file that gives it again.
abbrev tag_var : WorkflowVar
tag_var = record {
  workflow_id = "wf";
  key = codes "build.tag";
  value = "1";
  source_node_id = none;
  source_job_id = none;
}

abbrev with_var : World
with_var = record (quiet pipeline) { vars = tag_var ∷ [] }

conflicting_output :
    merge_workflow_output_file
      (λ v. v)
      workflow
      build
      (job "j" completed)
      (output ((codes " new ", "0") ∷ []) ((codes "tag", "2") ∷ []))
      with_var
    ≡ (
      err (caused_by "workflow variable conflict"),
      record with_var {
        events =
            record {
              workflow_id = "wf";
              node_id = some "build";
              job_id = some "j";
              event_type = "workflow_var_set";
              reason = cause "workflow variable set";
            }
            ∷ record {
              workflow_id = "wf";
              node_id = some "build";
              job_id = some "j";
              event_type = "workflow_var_conflict";
              reason = cause "conflicting workflow variable values";
            }
            ∷ [];
        vars =
            tag_var
            ∷ record {
              workflow_id = "wf";
              key = codes "new";
              value = "0";
              source_node_id = some "build";
              source_job_id = some "j";
            }
            ∷ [];
      },
    )
unfolding completion merge_workflow_output_file add_workflow_vars merge_workflow_var merge_existing
    upsert_workflow_var upsert_found trim_space
conflicting_output = refl

merge_workflow_output_file-vars_example :
    find_var "wf"
      (codes "build.tag")
      (merge_workflow_output_file
        (λ v. v)
        workflow
        build
        (job "j" completed)
        (output [] ((codes "tag", "2") ∷ []))
        with_var).1.vars
    ≡ some tag_var
merge_workflow_output_file-vars_example =
    merge_workflow_output_file-vars (λ v. v) workflow build (job "j" completed)
      (output [] ((codes "tag", "2") ∷ [])) "wf" (codes "build.tag") tag_var with_var refl
