-- ===== src/Worker/Hooks.antt =====
-- The trigger processor that `NewCornDogsWorker` gives to the worker. `output_error` says for a workspace
-- whether its output file cannot be merged, `triggers_in` what its triggers file holds; the other parameters
-- are those of the processing of triggers.
use reactorcide.Prelude.{ℕ, String, Option, true}
use reactorcide.Store.World.{Result}
use reactorcide.Runtime.Create.{WorkflowValue}
use reactorcide.Runtime.Triggers.{JobDefinition, TriggersData, process_triggers}
use reactorcide.Runtime.Completion.{process_workflow_job_started, process_workflow_completion}
use reactorcide.Worker.Claim.{TriggerProcessor}

unfoldable pub new_trigger_processor :
    (as_text : String → Option String) (hash : String → String) (to_json : WorkflowValue → String)
    (history : Option (String → Result (Option ℕ)))
    (read_job_file : String → String → Option JobDefinition) (output_error : String → Option String)
    (triggers_in : String → TriggersData)
    → TriggerProcessor
new_trigger_processor as_text hash to_json history read_job_file output_error triggers_in = record {
  job_started = process_workflow_job_started;
  completion = λ dir job. process_workflow_completion job (output_error dir);
  triggers = λ dir job.
      process_triggers as_text hash to_json history read_job_file true dir job (triggers_in dir);
}
