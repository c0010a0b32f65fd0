-- ===== src/Runtime/Create.antt =====
-- workflow_runtime.go: `createWorkflowNodes` and `createWorkflowNode`. `to_json` stands for `interfaceToJSONB`'s
-- use of encoding/json; the store's history of durations is an interface that it may lack.
use Prim.Native.String.{◌++◌ as str_append}
use reactorcide.Prelude.{
  ℕ, zero, suc, ◌/◌, ◌%◌, String, List, [], ◌∷◌, Bool, true, false, Option, none, some,
  if◌then◌else◌, str_eq, insert, codes, ltb,
}
use reactorcide.Models.Status.{pending}
use reactorcide.Models.Workflow.{TriggerJobSpec, WorkflowNode, WorkflowInstance, no_reason, cause}
use reactorcide.Store.World.{Result, ok, err, M, ◌>>=◌, ◌>>◌, return}
use reactorcide.Store.Rows.{create_workflow_node}
use reactorcide.Runtime.Evaluate.{record_workflow_event}

-- An element of `for_each`: a text, a Boolean, a number as it is printed, or any other JSON.
pub data WorkflowValue : Type 0 where
  text_value : String → WorkflowValue
  bool_value : Bool → WorkflowValue
  number_value : String → WorkflowValue
  json_value : String → WorkflowValue

unfoldable pub stringify_workflow_value : WorkflowValue → String
stringify_workflow_value (text_value s) = s
stringify_workflow_value (bool_value true) = "true"
stringify_workflow_value (bool_value false) = "false"
stringify_workflow_value (number_value s) = s
stringify_workflow_value (json_value s) = s

-- The rest of `triggerJobSpec`.
pub record MatrixSpec : Type 0 where
  pub job_spec : TriggerJobSpec
  pub for_each : List WorkflowValue
  pub item_var : String

-- A number in decimal; as fuel, the number itself is enough.
abbrev pub digit : ℕ → String
digit zero = "0"
digit (suc zero) = "1"
digit (suc (suc zero)) = "2"
digit (suc (suc (suc zero))) = "3"
digit (suc (suc (suc (suc zero)))) = "4"
digit (suc (suc (suc (suc (suc zero))))) = "5"
digit (suc (suc (suc (suc (suc (suc zero)))))) = "6"
digit (suc (suc (suc (suc (suc (suc (suc zero))))))) = "7"
digit (suc (suc (suc (suc (suc (suc (suc (suc zero)))))))) = "8"
digit _ = "9"

unfoldable pub decimal_from : ℕ → ℕ → String
decimal_from zero n = digit n
decimal_from (suc fuel) n =
    let rest = decimal_from fuel (n / 10) in
    if ltb n 10 then digit n else str_append rest (digit (n % 10))

unfoldable pub decimal : ℕ → String
decimal n = decimal_from n n

abbrev pub item_var_of : String → String
item_var_of item_var = if str_eq item_var "" then "ITEM" else item_var

abbrev pub condition_of : String → String
condition_of condition = if str_eq condition "" then "all_success" else condition

unfoldable pub item_name : String → ℕ → String
item_name name index = str_append name (str_append "[" (str_append (decimal index) "]"))

module _ (to_json : WorkflowValue → String) (history : Option (String → Result (Option ℕ))) where
  -- The specification that the node keeps.
  abbrev pub spec_of : MatrixSpec → Option (ℕ × WorkflowValue) → TriggerJobSpec
  spec_of spec none = record spec.job_spec { condition = condition_of spec.job_spec.condition }
  spec_of spec (some (index, item)) = record spec.job_spec {
    condition = condition_of spec.job_spec.condition;
    env = insert (item_var_of spec.item_var) (stringify_workflow_value item) spec.job_spec.env;
  }

  abbrev pub display_name_of : MatrixSpec → Option (ℕ × WorkflowValue) → String
  display_name_of spec none = spec.job_spec.job_name
  display_name_of spec (some (index, item)) = item_name spec.job_spec.job_name index

  abbrev pub index_of : Option (ℕ × WorkflowValue) → Option ℕ
  index_of none = none
  index_of (some (index, item)) = some index

  abbrev pub value_of : Option (ℕ × WorkflowValue) → Option String
  value_of none = none
  value_of (some (index, item)) = some (to_json item)

  abbrev pub var_of : MatrixSpec → Option (ℕ × WorkflowValue) → String
  var_of spec none = spec.item_var
  var_of spec (some _) = item_var_of spec.item_var

  -- The duration of the last node of that name that completed, if the store has it.
  abbrev pub looked_up : Result (Option ℕ) → Option ℕ
  looked_up (ok duration) = duration
  looked_up (err e) = none

  abbrev pub duration_of : Option (String → Result (Option ℕ)) → String → Option ℕ
  duration_of none name = none
  duration_of (some last) name = looked_up (last name)

  -- The row, before the database gives it its key.
  unfoldable pub node_of_spec :
      WorkflowInstance → MatrixSpec → Option (ℕ × WorkflowValue) → WorkflowNode
  node_of_spec wf spec item = record {
    node_id = "";
    workflow_id = wf.workflow_id;
    name = spec.job_spec.job_name;
    display_name = display_name_of spec item;
    status = pending;
    depends_on = spec.job_spec.depends_on;
    condition = codes (condition_of spec.job_spec.condition);
    job_id = none;
    job_spec = spec_of spec item;
    item_index = index_of item;
    item_value = value_of item;
    item_var = var_of spec item;
    decision_reason = no_reason;
    completed_at = none;
    last_successful_duration_ms = duration_of history spec.job_spec.job_name;
  }

  unfoldable pub create_node_of_spec :
      WorkflowInstance → MatrixSpec → Option (ℕ × WorkflowValue) → M (Unit {0})
  create_node_of_spec wf spec item = do
    node ← create_workflow_node (node_of_spec wf spec item)
    record_workflow_event wf.workflow_id (some node.node_id) none "node_waiting"
        (cause "node registered")

  unfoldable pub create_items :
      WorkflowInstance → MatrixSpec → ℕ → List WorkflowValue → M (Unit {0})
  create_items wf spec index [] = return tt
  create_items wf spec index (item ∷ items) =
      create_node_of_spec wf spec (some (index, item)) >> create_items wf spec (suc index) items

  -- A node for each item, or one if there is no item.
  unfoldable pub create_spec : WorkflowInstance → MatrixSpec → List WorkflowValue → M (Unit {0})
  create_spec wf spec [] = create_node_of_spec wf spec none
  create_spec wf spec (item ∷ items) = create_items wf spec 0 (item ∷ items)

  unfoldable pub create_workflow_nodes : WorkflowInstance → List MatrixSpec → M (Unit {0})
  create_workflow_nodes wf [] = return tt
  create_workflow_nodes wf (spec ∷ specs) =
      create_spec wf spec spec.for_each >> create_workflow_nodes wf specs
