-- ===== src/Runtime/Progress.antt =====
-- Whether a workflow can get stuck: in dependency order it cannot, in another order it can.
use mathlib.Core.List.{Memᴰ}
use reactorcide.Prelude.{
  ◌≡◌, ◌≢◌, ◌⊎◌, String, List, [], ◌∷◌, ◌++◌, map, Bool, true, not, ◌&&◌, All,
}
use reactorcide.Models.Status.{Status, is_workflow_node_terminal}
use reactorcide.Models.Workflow.{WorkflowNode}
use reactorcide.Store.World.{World}
use reactorcide.Store.Ensures.{Ensures}
use reactorcide.Runtime.Evaluate.{is_open}

-- A node's job is on its way: it is not finished, and not left to a later evaluation.
abbrev pub in_flight : Status → Bool
in_flight s = not (is_workflow_node_terminal s) && not (is_open s)

abbrev pub AllTerminal : List WorkflowNode → Type 0
AllTerminal = All (λ n. is_workflow_node_terminal n.status ≡ true)

abbrev pub SomeInFlight : List WorkflowNode → Type 0
SomeInFlight [] = ⊥
SomeInFlight (n ∷ nodes) = (in_flight n.status ≡ true) ⊎ SomeInFlight nodes

-- Each node depends only on names that stand before it, and nowhere after.
abbrev pub InOrder : List String → List WorkflowNode → Type 0
InOrder seen [] = Unit
InOrder seen (n ∷ todo) =
    All (λ dep. Memᴰ dep seen × All (λ m. m.name ≢ dep) (n ∷ todo)) n.depends_on
    × InOrder (seen ++ n.name ∷ []) todo

abbrev names : List WorkflowNode → List String
names = map (λ n. n.name)

-- What one round leaves: the name is the node's own, and the node is finished or on its way.
abbrev Settled : WorkflowNode → List String × WorkflowNode → Type 0
Settled node (ids, n) =
    (n.name ≡ node.name)
    × ((is_workflow_node_terminal n.status ≡ true) ⊎ (in_flight n.status ≡ true))
