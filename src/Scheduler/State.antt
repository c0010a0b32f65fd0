-- ===== src/Scheduler/State.antt =====
-- The scheduler's state, and the operations that change it: `RegisterQueue`, `AddRoutingRule` with
-- the bubble sort of `sortRoutingRules`.
use reactorcide.Prelude.{
  ℕ, zero, suc, ◌-◌, String, List, [], ◌∷◌, ◌++◌, ltb_ℤ, if◌then◌else◌, length, insert,
}
use reactorcide.Scheduler.Types.{QueueConfig, RoutingRule}

pub record PriorityScheduler : Type 0 where
  pub queue_config : List (String × QueueConfig)
  pub routing_rules : List RoutingRule

unfoldable pub register_queue : PriorityScheduler → QueueConfig → PriorityScheduler
register_queue s config = record s { queue_config = insert config.name config s.queue_config }

-- One comparison of the inner loop: what stands at `j`, and what stands at `j+1`, after it.
unfoldable pub earlier : RoutingRule → RoutingRule → RoutingRule
earlier x y = if ltb_ℤ x.priority y.priority then y else x

unfoldable pub later : RoutingRule → RoutingRule → RoutingRule
later x y = if ltb_ℤ x.priority y.priority then x else y

-- The inner loop, for `rounds` values of `j`: the head is the rule at `j`.
unfoldable pub inner : ℕ → List RoutingRule → List RoutingRule
unfolding earlier later
inner zero rules = rules
inner (suc rounds) [] = []
inner (suc rounds) (x ∷ []) = x ∷ []
inner (suc rounds) (x ∷ y ∷ rules) = earlier x y ∷ inner rounds (later x y ∷ rules)

-- The outer loop: its rounds bound `j` by n-1, n-2, …, 1.
unfoldable pub outer : ℕ → List RoutingRule → List RoutingRule
unfolding inner
outer zero rules = rules
outer (suc bound) rules = outer bound (inner (suc bound) rules)

unfoldable pub sort_routing_rules : List RoutingRule → List RoutingRule
unfolding outer
sort_routing_rules rules = outer (length rules - 1) rules

unfoldable pub add_routing_rule : PriorityScheduler → RoutingRule → PriorityScheduler
unfolding sort_routing_rules
add_routing_rule s rule = record s {
  routing_rules = sort_routing_rules (s.routing_rules ++ rule ∷ []);
}
