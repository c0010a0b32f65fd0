-- ===== src/Scheduler/Examples.antt =====
-- Runs of the scheduler with its default queues and rules.
use mathlib.Core.List.{Perm}
use reactorcide.Prelude.{
  ◌≡◌, ◌↔◌, ◌≢◌, refl, pos, Bool, true, String, List, [], ◌∷◌, map, Option, some, Bytes, codes,
  bytes_eq, arith,
}
use reactorcide.Scheduler.Types.{Value, text, float64, RoutingRule}
use reactorcide.Scheduler.Rules.{contains_string, contains_operator, evaluate_rule}
use reactorcide.Scheduler.State.{sort_routing_rules, add_routing_rule}
use reactorcide.Scheduler.Defaults.{
  critical_queue, rollbacks, feature_branch_builds, production_deployments, new_priority_scheduler,
}
use reactorcide.Scheduler.Submit.{TaskPayload, calculate_priority, determine_target_queue}
use reactorcide.Scheduler.Sorted.{
  IsSorted, at_priority, sort_routing_rules-IsSorted, sort_routing_rules-perm,
  sort_routing_rules-stable,
}
use reactorcide.Scheduler.Contains.{Occurs, contains_string_iff, contains_operator_iff}
use reactorcide.Scheduler.Routes.{
  Routed, determine_target_queue-add_routing_rule, rollback_is_critical,
}
use reactorcide.Scheduler.Bounds.{
  InRange, Prepared, calculate_priority-InRange, calculate_priority-explicit, prepare_job_lem,
  new_priority_scheduler-HasRanges,
}

-- A matcher that takes a pattern for the text itself.
abbrev literal : Bytes → Bytes → Option Bool
literal pattern s = some (bytes_eq pattern s)

abbrev deployment : List (String × Value)
deployment = ("job_type", text (codes "deploy")) ∷ ("environment", text (codes "production")) ∷ []

abbrev urgent : List (String × Value)
urgent = ("job_type", text (codes "db-rollback")) ∷ ("priority", float64 (pos 95) (codes "95")) ∷ []

abbrev payload : TaskPayload
payload = record { job_id = "j"; job_type = "run"; config = []; metadata = [] }

deployment_route :
    determine_target_queue literal new_priority_scheduler deployment ≡ "high-priority"
unfolding determine_target_queue evaluate_rule new_priority_scheduler
deployment_route = refl

deployment_priority : calculate_priority deployment critical_queue ≡ pos 100
unfolding calculate_priority
deployment_priority = refl

sorted_defaults :
    map (λ (r : RoutingRule). r.priority) new_priority_scheduler.routing_rules
    ≡ map
        (λ (r : RoutingRule). r.priority)
        (sort_routing_rules new_priority_scheduler.routing_rules)
unfolding new_priority_scheduler
sorted_defaults = refl

abbrev rules : List RoutingRule
rules = feature_branch_builds ∷ rollbacks ∷ production_deployments ∷ []

sort_routing_rules-IsSorted_example : IsSorted (sort_routing_rules rules)
sort_routing_rules-IsSorted_example = sort_routing_rules-IsSorted rules

sort_routing_rules-perm_example : Perm (sort_routing_rules rules) rules
sort_routing_rules-perm_example = sort_routing_rules-perm rules

sort_routing_rules-stable_example :
    at_priority (pos 1) (sort_routing_rules rules) ≡ at_priority (pos 1) rules
sort_routing_rules-stable_example = sort_routing_rules-stable (pos 1) rules

contains_string_iff_example :
    (contains_string (codes "db-rollback") (codes "rollback") ≡ true)
    ↔ Occurs (codes "rollback") (codes "db-rollback")
contains_string_iff_example = contains_string_iff (codes "db-rollback") (codes "rollback")

contains_operator_iff_example :
    (contains_operator (codes "db-rollback") (codes "rollback") ≡ true)
    ↔ ((codes "rollback" ≢ []) × Occurs (codes "rollback") (codes "db-rollback"))
contains_operator_iff_example = contains_operator_iff (codes "db-rollback") (codes "rollback")

determine_target_queue-add_routing_rule_example :
    Routed literal (rollbacks ∷ new_priority_scheduler.routing_rules) deployment (
      determine_target_queue literal (add_routing_rule new_priority_scheduler rollbacks) deployment)
determine_target_queue-add_routing_rule_example =
    determine_target_queue-add_routing_rule literal new_priority_scheduler rollbacks deployment

rollback_is_critical_example :
    determine_target_queue literal new_priority_scheduler urgent ≡ "critical"
rollback_is_critical_example =
    rollback_is_critical literal urgent (codes "db-rollback") refl (codes "db-", [], refl)

calculate_priority-InRange_example :
    InRange critical_queue.priority_range (calculate_priority deployment critical_queue)
calculate_priority-InRange_example =
    calculate_priority-InRange deployment critical_queue (omega arith)

calculate_priority-explicit_example : calculate_priority urgent critical_queue ≡ pos 95
calculate_priority-explicit_example =
    calculate_priority-explicit urgent critical_queue (pos 95) (codes "95") refl
      (omega arith, omega arith)

prepare_job_lem_example : Prepared literal new_priority_scheduler payload deployment
prepare_job_lem_example =
    prepare_job_lem literal new_priority_scheduler payload deployment
      new_priority_scheduler-HasRanges
