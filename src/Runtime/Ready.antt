-- ===== src/Runtime/Ready.antt =====
-- When a node's dependencies are finished.
use reactorcide.Prelude.{
  ◌≡◌, refl, ◌↔◌, inl, inr, String, List, [], ◌∷◌, true, Bool-cases, Option, none, some, All,
}
use reactorcide.Models.Status.{is_workflow_node_terminal}
use reactorcide.Models.Workflow.{WorkflowNode, Reason}
use reactorcide.Runtime.Decide.{
  nodes_by_name, unfinished, held_up, unless_held, ready_loop, dependencies_ready,
}
use reactorcide.Runtime.Groups.{
  EachNamed, SomeNamed, any_status, all_of, some_of, all_of-named, named-all_of, some_of-named,
  named-some_of,
}

-- A dependency is finished: a node of that name is registered, and all nodes of that name are
-- terminal.
abbrev pub Finished : List WorkflowNode → String → Type 0
Finished nodes dep = SomeNamed any_status dep nodes × EachNamed is_workflow_node_terminal dep nodes

-- The inner loop finds nothing exactly where all of the group are terminal.
unfinished_lem :
    (group : List WorkflowNode)
    → (unfinished group ≡ none) ↔ (all_of is_workflow_node_terminal group ≡ true)
unfolding unfinished all_of
unfinished_lem [] = (λ _. refl, λ _. refl)
unfinished_lem (c ∷ group) = elim (Bool-cases (is_workflow_node_terminal c.status)) [
  | inl e ↦ rw e (unfinished_lem group)
  | inr e ↦ rw e (λ h. cc, λ h. cc)
]

held_up_lem :
    (dep : String) (group : List WorkflowNode)
    → (held_up dep group ≡ none)
      ↔ ((some_of any_status group ≡ true) × (all_of is_workflow_node_terminal group ≡ true))
unfolding held_up some_of
held_up_lem dep [] = (λ h. cc, λ h. cc)
held_up_lem dep (c ∷ group) =
    let (there, back) = unfinished_lem (c ∷ group) in (λ h. (refl, there h), λ h. back h.1)

held_up_iff :
    (nodes : List WorkflowNode) (dep : String)
    → (held_up dep (nodes_by_name nodes dep) ≡ none) ↔ Finished nodes dep
held_up_iff nodes dep = (
  λ h.
      let (one, each) = (held_up_lem dep (nodes_by_name nodes dep)).0 h in
      (
        some_of-named any_status dep nodes one,
        all_of-named is_workflow_node_terminal dep nodes each,
      ),
  λ ((n, i, q, t), each). (held_up_lem dep (nodes_by_name nodes dep)).1 (
    named-some_of any_status dep nodes n i q t,
    named-all_of is_workflow_node_terminal dep nodes each,
  ),
)

ready_loop_iff :
    (nodes : List WorkflowNode) (deps : List String)
    → ((ready_loop nodes deps).0 ≡ true) ↔ All (Finished nodes) deps
unfolding ready_loop
ready_loop_iff nodes [] = (λ _. tt, λ _. refl)
ready_loop_iff nodes (dep ∷ deps) =
    by_case (held_up dep (nodes_by_name nodes dep)) refl (ready_loop_iff nodes deps)
  where
    by_case :
        (o : Option Reason)
        → held_up dep (nodes_by_name nodes dep) ≡ o
        → ((ready_loop nodes deps).0 ≡ true) ↔ All (Finished nodes) deps
        → ((unless_held o (ready_loop nodes deps)).0 ≡ true)
          ↔ (Finished nodes dep × All (Finished nodes) deps)
    by_case none e (there, back) = (λ h. ((held_up_iff nodes dep).0 e, there h), λ h. back h.1)
    by_case (some why) e ih = (λ h. absurd (cc), λ h. absurd (cc ((held_up_iff nodes dep).1 h.0)))

-- A node is ready exactly where, for each name it depends on, a node of that name is registered and
-- all nodes of that name are terminal.
pub dependencies_ready_iff :
    (nodes : List WorkflowNode) (node : WorkflowNode)
    → ((dependencies_ready nodes node).0 ≡ true) ↔ All (Finished nodes) node.depends_on
unfolding dependencies_ready
dependencies_ready_iff nodes node = ready_loop_iff nodes node.depends_on
