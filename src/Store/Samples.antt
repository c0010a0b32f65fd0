-- ===== src/Store/Samples.antt =====
-- A state to try the operations on.
use reactorcide.Prelude.{ℕ, zero, suc, String, List, [], ◌∷◌, true, some}
use reactorcide.Models.Status.{queued, completed}
use reactorcide.Models.Workflow.{WorkflowNode}
use reactorcide.Models.Samples.{job, workflow}
use reactorcide.Store.World.{World}

abbrev pub numbered : ℕ → String
numbered zero = "id-0"
numbered (suc zero) = "id-1"
numbered (suc (suc zero)) = "id-2"
numbered (suc (suc (suc zero))) = "id-3"
numbered _ = "id-more"

-- A workflow, its nodes and its parent job; no operation fails, and nobody interferes.
abbrev pub quiet : List WorkflowNode → World
quiet nodes = record {
  jobs = job "parent" completed ∷ [];
  nodes = nodes;
  workflows = workflow ∷ [];
  events = [];
  vars = [];
  tasks = [];
  cancel_calls = [];
  faults = [];
  answers = some ("task-0", queued) ∷ [];
  cancels = true ∷ [];
  rivals = [];
  acts = [];
  pushes = [];
  ulid = numbered;
  issued = 0;
  now = 5000;
  has_client = true;
  has_guards = true;
  has_workflows = true;
}
