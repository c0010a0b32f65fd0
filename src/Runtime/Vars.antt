-- ===== src/Runtime/Vars.antt =====
-- workflow_runtime.go: `mergeWorkflowVar`, `addWorkflowVars` and `mergeWorkflowOutputFile`, with the two operations of
-- the store that they use. `hash` stands for the SHA-256 digest of a JSON text. The parsed output file
-- is an argument.
use reactorcide.Prelude.{
  trim_space, is_empty, String, List, [], ◌∷◌, ◌++◌, map, Bool, not, ◌&&◌, Option, none, some,
  if◌then◌else◌, str_eq, Bytes, codes, bytes_eq,
}
use reactorcide.Models.Workflow.{WorkflowVar, WorkflowInstance, WorkflowNode, cause}
use reactorcide.Models.Job.{Job}
use reactorcide.Store.World.{caused_by, M, ◌>>=◌, ◌>>◌, return, fail, gets, modify, attempt}
use reactorcide.Store.Rows.{find}
use reactorcide.Runtime.Evaluate.{record_workflow_event}

abbrev pub is_var : String → Bytes → WorkflowVar → Bool
is_var id key v = str_eq v.workflow_id id && bytes_eq v.key key

abbrev pub find_var : String → Bytes → List WorkflowVar → Option WorkflowVar
find_var id key = find (is_var id key)

-- The row of that workflow and key is overwritten.
abbrev pub put_var : WorkflowVar → List WorkflowVar → List WorkflowVar
put_var new = map (λ v. if is_var new.workflow_id new.key v then new else v)

-- `UpsertWorkflowVar`
unfoldable pub upsert_found : WorkflowVar → Option WorkflowVar → M (Unit {0})
upsert_found new (some old) = attempt >> modify (λ w. record w { vars = put_var new w.vars })
upsert_found new none = attempt >> modify (λ w. record w { vars = w.vars ++ new ∷ [] })

unfoldable pub upsert_workflow_var : WorkflowVar → M (Unit {0})
upsert_workflow_var new = do
  attempt
  found ← gets (λ w. find_var new.workflow_id new.key w.vars)
  upsert_found new found

module _ (hash : String → String) (node_id job_id : Option String) where
  unfoldable pub merge_existing : WorkflowVar → Option WorkflowVar → M (Unit {0})
  merge_existing new (some existing) =
      if not (str_eq (hash existing.value) (hash new.value))
      then (record_workflow_event new.workflow_id node_id job_id "workflow_var_conflict"
            (cause "conflicting workflow variable values")
          >> fail (caused_by "workflow variable conflict"))
      else record_workflow_event new.workflow_id node_id job_id "workflow_var_set"
          (cause "duplicate workflow variable value ignored")
  merge_existing new none =
      upsert_workflow_var new
      >> record_workflow_event new.workflow_id node_id job_id "workflow_var_set"
          (cause "workflow variable set")

  -- An empty name is passed over.
  unfoldable pub merge_workflow_var : String → Bytes → String → M (Unit {0})
  merge_workflow_var id key value = if is_empty (trim_space key) then return tt else (do
    attempt
    existing ← gets (λ w. find_var id (trim_space key) w.vars)
    merge_existing
        (record {
          workflow_id = id;
          key = trim_space key;
          value = value;
          source_node_id = node_id;
          source_job_id = job_id;
        })
        existing)

  unfoldable pub add_workflow_vars : String → List (Bytes × String) → M (Unit {0})
  add_workflow_vars id [] = return tt
  add_workflow_vars id ((key, value) ∷ vars) =
      merge_workflow_var id key value >> add_workflow_vars id vars

-- The output file is not there, cannot be read or parsed, or has these variables and outputs, in the
-- order in which a run goes through them.
pub data OutputFile : Type 0 where
  no_output bad_output : OutputFile
  output : List (Bytes × String) → List (Bytes × String) → OutputFile

-- An output's variable is named after the node too.
abbrev pub output_vars : Bytes → List (Bytes × String) → List (Bytes × String)
output_vars name [] = []
output_vars name ((key, value) ∷ outputs) = (name ++ (46 ∷ key), value) ∷ output_vars name outputs

unfoldable pub merge_workflow_output_file :
    (String → String) → WorkflowInstance → WorkflowNode → Job → OutputFile → M (Unit {0})
merge_workflow_output_file hash wf node job no_output = return tt
merge_workflow_output_file hash wf node job bad_output =
    fail (caused_by "parse workflow output file")
merge_workflow_output_file hash wf node job (output vars outputs) =
    add_workflow_vars hash (some node.node_id) (some job.job_id) wf.workflow_id vars
    >> add_workflow_vars hash (some node.node_id) (some job.job_id) wf.workflow_id
        (output_vars (codes node.name) outputs)
