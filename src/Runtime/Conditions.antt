-- ===== src/Runtime/Conditions.antt =====
-- When a node's condition holds.
use mathlib.Core.Bool.{false≢true}
use reactorcide.Prelude.{
  trim_space, ◌≡◌, refl, sym, ◌∙◌, ◌↔◌, ◌⊎◌, inl, inr, String, List, [], ◌∷◌, Bool, true, false,
  Bool-cases, Bytes, not, ◌||◌, codes, bytes_eq, bytes_eq_iff, if◌then◌else◌, All,
}
use reactorcide.Models.Status.{completed, status_eq, is_workflow_node_failure}
use reactorcide.Models.Workflow.{
  WorkflowNode, Reason, all_success_false, all_success_true, always_true, any_failed_true,
  any_failed_false, unsupported,
}
use reactorcide.Runtime.Decide.{
  nodes_by_name, group_completed, all_completed, group_failed, any_failed, is_all_success,
  is_always, is_any_failed, evaluate_workflow_condition,
}
use reactorcide.Runtime.Groups.{
  EachNamed, SomeNamed, all_of, some_of, all_of-named, named-all_of, some_of-named, named-some_of,
}

-- The loops of the conditions over a group.
group_completed_lem :
    (group : List WorkflowNode) → group_completed group ≡ all_of (λ s. status_eq s completed) group
unfolding group_completed all_of
group_completed_lem [] = refl
group_completed_lem (c ∷ group) = elim (Bool-cases (status_eq c.status completed)) [
  | inl e ↦ rw e (group_completed_lem group)
  | inr e ↦ rw e
]

group_failed_lem :
    (group : List WorkflowNode) → group_failed group ≡ some_of is_workflow_node_failure group
unfolding group_failed some_of
group_failed_lem [] = refl
group_failed_lem (c ∷ group) = elim (Bool-cases (is_workflow_node_failure c.status)) [
  | inl e ↦ rw e
  | inr e ↦ rw e (group_failed_lem group)
]

abbrev pub AllCompleted : List WorkflowNode → List String → Type 0
AllCompleted nodes deps = All (λ dep. EachNamed (λ s. status_eq s completed) dep nodes) deps

-- Some name depended on has a node that failed, was cancelled or timed out.
abbrev pub SomeFailed : List WorkflowNode → List String → Type 0
SomeFailed nodes [] = ⊥
SomeFailed nodes (dep ∷ deps) = SomeNamed is_workflow_node_failure dep nodes ⊎ SomeFailed nodes deps

all_completed_iff :
    (nodes : List WorkflowNode) (deps : List String)
    → (all_completed nodes deps ≡ true) ↔ AllCompleted nodes deps
unfolding all_completed
all_completed_iff nodes [] = (λ _. tt, λ _. refl)
all_completed_iff nodes (dep ∷ deps) =
    by_case (group_completed (nodes_by_name nodes dep)) (group_completed_lem _)
      (all_completed_iff nodes deps)
  where
    by_case :
        (b : Bool)
        → b ≡ all_of (λ s. status_eq s completed) (nodes_by_name nodes dep)
        → (all_completed nodes deps ≡ true) ↔ AllCompleted nodes deps
        → ((if not b then false else all_completed nodes deps) ≡ true)
          ↔ AllCompleted nodes (dep ∷ deps)
    by_case true e (there, back) = (λ h. (all_of-named _ dep nodes (sym e), there h), λ h. back h.1)
    by_case false e ih = (
      λ h. absurd (cc),
      λ h. absurd (false≢true (e ∙ named-all_of (λ s. status_eq s completed) dep nodes h.0)),
    )

any_failed_iff :
    (nodes : List WorkflowNode) (deps : List String)
    → (any_failed nodes deps ≡ true) ↔ SomeFailed nodes deps
unfolding any_failed
any_failed_iff nodes [] = (λ h. absurd (cc), λ h. absurd h)
any_failed_iff nodes (dep ∷ deps) =
    by_case (group_failed (nodes_by_name nodes dep)) (group_failed_lem _)
      (any_failed_iff nodes deps)
  where
    by_case :
        (b : Bool)
        → b ≡ some_of is_workflow_node_failure (nodes_by_name nodes dep)
        → (any_failed nodes deps ≡ true) ↔ SomeFailed nodes deps
        → ((if b then true else any_failed nodes deps) ≡ true) ↔ SomeFailed nodes (dep ∷ deps)
    by_case true e ih =
        (λ h. inl (some_of-named is_workflow_node_failure dep nodes (sym e)), λ h. refl)
    by_case false e (there, back) = (λ h. inr (there h), by_side)
      where
        by_side : SomeFailed nodes (dep ∷ deps) → any_failed nodes deps ≡ true
        by_side (inl (n, i, q, t)) =
            absurd (false≢true (e ∙ named-some_of is_workflow_node_failure dep nodes n i q t))
        by_side (inr f) = back f

-- What a condition's text asks of the nodes that its node depends on.
abbrev pub Holds : Bytes → List WorkflowNode → List String → Type 0
Holds condition nodes deps =
    (((condition ≡ codes "")
        ⊎ (condition ≡ codes "all_success")
        ⊎ (condition ≡ codes "all_success(needs)"))
      × AllCompleted nodes deps)
    ⊎ ((condition ≡ codes "always") ⊎ (condition ≡ codes "always()"))
    ⊎ (((condition ≡ codes "any_failed") ⊎ (condition ≡ codes "any_failed(needs)"))
        × SomeFailed nodes deps)

either_true : (a b : Bool) → (a || b) ≡ true → (a ≡ true) ⊎ (b ≡ true)
either_true true b h = inl refl
either_true false b h = inr h

all_success_texts :
    (s : Bytes)
    → is_all_success s ≡ true
    → (s ≡ codes "") ⊎ (s ≡ codes "all_success") ⊎ (s ≡ codes "all_success(needs)")
unfolding is_all_success
all_success_texts [] h = inl refl
all_success_texts (c ∷ s) h = by_side (either_true _ _ h)
  where
    by_side :
        (bytes_eq (c ∷ s) (codes "all_success") ≡ true)
          ⊎ (bytes_eq (c ∷ s) (codes "all_success(needs)") ≡ true)
        → (c ∷ s ≡ codes "") ⊎ (c ∷ s ≡ codes "all_success") ⊎ (c ∷ s ≡ codes "all_success(needs)")
    by_side (inl e) = inr (inl ((bytes_eq_iff _ _).0 e))
    by_side (inr e) = inr (inr ((bytes_eq_iff _ _).0 e))

two_texts : (s one two : Bytes) → (bytes_eq s one || bytes_eq s two) ≡ true → (s ≡ one) ⊎ (s ≡ two)
two_texts s one two h = by_side (either_true _ _ h)
  where
    by_side : (bytes_eq s one ≡ true) ⊎ (bytes_eq s two ≡ true) → (s ≡ one) ⊎ (s ≡ two)
    by_side (inl e) = inl ((bytes_eq_iff _ _).0 e)
    by_side (inr e) = inr ((bytes_eq_iff _ _).0 e)

-- The tests in their order, with what two of them lead to.
abbrev chosen : Bytes → Bool → Bool → Bool × Reason
chosen text ac af =
    if is_all_success text
    then (if ac then (true, all_success_true) else (false, all_success_false))
    else if is_always text
    then (true, always_true)
    else if is_any_failed text
    then (if af then (true, any_failed_true) else (false, any_failed_false))
    else (false, unsupported text)

module _ (nodes : List WorkflowNode) (deps : List String) (ac af : Bool)
    (completed_iff : (ac ≡ true) ↔ AllCompleted nodes deps)
    (failed_iff : (af ≡ true) ↔ SomeFailed nodes deps) where
  chosen→ : (text : Bytes) → (chosen text ac af).0 ≡ true → Holds text nodes deps
  unfolding is_always is_any_failed
  chosen→ text h = elim (Bool-cases (is_all_success text)) [
    | inl a ↦ elim (Bool-cases ac) [
      | inl c ↦ inl (all_success_texts text a, completed_iff.0 c)
      | inr c ↦ absurd (false≢true (rw (a, c) at h))
    ]
    | inr a ↦ elim (Bool-cases (is_always text)) [
      | inl b ↦ inr (inl (two_texts text _ _ b))
      | inr b ↦ elim (Bool-cases (is_any_failed text)) [
        | inl f ↦ elim (Bool-cases af) [
          | inl c ↦ inr (inr (two_texts text _ _ f, failed_iff.0 c))
          | inr c ↦ absurd (false≢true (rw (a, b, f, c) at h))
        ]
        | inr f ↦ absurd (false≢true (rw (a, b, f) at h))
      ]
    ]
  ]

  chosen← : (text : Bytes) → Holds text nodes deps → (chosen text ac af).0 ≡ true
  unfolding is_all_success is_always is_any_failed
  chosen← text (inl (inl e, h)) = rw (e, completed_iff.1 h) refl
  chosen← text (inl (inr (inl e), h)) = rw (e, completed_iff.1 h) refl
  chosen← text (inl (inr (inr e), h)) = rw (e, completed_iff.1 h) refl
  chosen← text (inr (inl (inl e))) = rw e refl
  chosen← text (inr (inl (inr e))) = rw e refl
  chosen← text (inr (inr (inl e, h))) = rw (e, failed_iff.1 h) refl
  chosen← text (inr (inr (inr e, h))) = rw (e, failed_iff.1 h) refl

-- A node's condition, its blanks cut off, is answered as its text says: the empty text, `all_success` and
-- `all_success(needs)` ask that all nodes depended on have completed, `always` and `always()` ask nothing,
-- `any_failed` and `any_failed(needs)` that some node depended on failed, was cancelled or timed out; any
-- other text is never true.
pub evaluate_workflow_condition_iff :
    (nodes : List WorkflowNode) (node : WorkflowNode)
    → ((evaluate_workflow_condition nodes node).0 ≡ true)
      ↔ Holds (trim_space node.condition) nodes node.depends_on
unfolding evaluate_workflow_condition
evaluate_workflow_condition_iff nodes node =
    let ac = all_completed nodes node.depends_on in
    let af = any_failed nodes node.depends_on in
    let c = all_completed_iff nodes node.depends_on in
    let f = any_failed_iff nodes node.depends_on in
    (
      chosen→ nodes node.depends_on ac af c f (trim_space node.condition),
      chosen← nodes node.depends_on ac af c f (trim_space node.condition),
    )
