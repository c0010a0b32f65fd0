-- ===== src/Scheduler/Submit.antt =====
-- `determineTargetQueue`, `calculatePriority` and `SubmitJob` of priority_scheduler.go.
use reactorcide.Prelude.{
  String, List, [], ◌∷◌, Bool, true, false, Option, none, some, if◌then◌else◌, lookup, insert, ℤ,
  pos, negsuc, ltb_ℤ, add64, half64, Bytes, codes, bytes_eq,
}
use reactorcide.Scheduler.Types.{
  PriorityRange, ResourceLimits, QueueConfig, zero_queue_config, Value, text, float64, RoutingRule,
}
use reactorcide.Scheduler.Rules.{evaluate_rule}
use reactorcide.Scheduler.State.{PriorityScheduler}

-- A value of the maps `Config` and `Metadata` of a payload, as far as the scheduler looks at it.
pub data Entry : Type 0 where
  int : ℤ → Entry
  int64_entry : ℤ → Entry
  queue : String → Entry
  limits : ResourceLimits → Entry
  any : Bytes → Entry

pub record TaskPayload : Type 0 where
  pub job_id : String
  pub job_type : String
  pub config : List (String × Entry)
  pub metadata : List (String × Entry)

-- The two `if`s that keep a priority in the range of its queue.
unfoldable pub clamp : PriorityRange → ℤ → ℤ
clamp range p =
    let p' = if ltb_ℤ p range.min then range.min else p in
    if ltb_ℤ range.max p' then range.max else p'

-- The `switch` on the job type.
unfoldable pub adjust_job_type : Option Value → ℤ → ℤ
adjust_job_type (some (text job_type)) base =
    if bytes_eq job_type (codes "rollback")
    then add64 base (pos 20)
    else if bytes_eq job_type (codes "hotfix")
    then add64 base (pos 15)
    else if bytes_eq job_type (codes "deploy")
    then add64 base (pos 10)
    else if bytes_eq job_type (codes "build")
    then add64 base (pos 5)
    else if bytes_eq job_type (codes "test")
    then add64 base (pos 0)
    else if bytes_eq job_type (codes "cleanup")
    then add64 base (negsuc 9)
    else base
adjust_job_type _ base = base

-- The `switch` on the environment.
unfoldable pub adjust_environment : Option Value → ℤ → ℤ
adjust_environment (some (text env)) base =
    if bytes_eq env (codes "production")
    then add64 base (pos 10)
    else if bytes_eq env (codes "staging")
    then add64 base (pos 5)
    else if bytes_eq env (codes "development")
    then add64 base (negsuc 4)
    else base
adjust_environment _ base = base

-- The priority from the job's characteristics.
unfoldable pub base_priority : List (String × Value) → PriorityRange → ℤ
unfolding adjust_job_type adjust_environment add64 half64
base_priority metadata range =
    let base = half64 (add64 range.min range.max) in
    let base = adjust_job_type (lookup "job_type" metadata) base in
    adjust_environment (lookup "environment" metadata) base

-- With an explicit priority, or without one.
unfoldable pub priority_by : Option Value → List (String × Value) → PriorityRange → ℤ
unfolding clamp base_priority
priority_by (some (float64 p _)) metadata range = clamp range p
priority_by _ metadata range = clamp range (base_priority metadata range)

unfoldable pub calculate_priority : List (String × Value) → QueueConfig → ℤ
unfolding priority_by
calculate_priority metadata config =
    priority_by (lookup "priority" metadata) metadata config.priority_range

abbrev pub is_set : Option Entry → Bool
is_set (some (int timeout)) = if ltb_ℤ timeout (pos 0) then true else ltb_ℤ (pos 0) timeout
is_set _ = false

-- The payload that is submitted: queue, priority, timeout and limits written into its maps.
unfoldable pub fill_payload : TaskPayload → String → ℤ → QueueConfig → TaskPayload
fill_payload payload queue_name priority config =
    let metadata =
      insert "priority" (int64_entry priority)
        (insert "queue" (queue queue_name) payload.metadata) in
    let config_map =
      if is_set (lookup "timeout" payload.config)
      then payload.config
      else insert "timeout" (int config.timeout_seconds) payload.config in
    record payload {
      config = insert "resource_limits" (limits config.resource_limits) config_map;
      metadata = metadata;
    }

-- What `SubmitJob` makes of the target's entry and of the entry of `normal` in the queue map.
unfoldable pub pick_queue : String → Option QueueConfig → Option QueueConfig → String × QueueConfig
pick_queue target (some config) _ = (target, config)
pick_queue target none (some config) = ("normal", config)
pick_queue target none none = ("normal", zero_queue_config)

-- The queue that a name stands for, with the fall back to `normal`.
unfoldable pub resolve_queue : List (String × QueueConfig) → String → String × QueueConfig
unfolding pick_queue
resolve_queue queues target = pick_queue target (lookup target queues) (lookup "normal" queues)

-- `match_string` is `regexp.MatchString`.
module _ (match_string : Bytes → Bytes → Option Bool) where
  -- The loop over the rules.
  unfoldable pub first_match : List RoutingRule → List (String × Value) → String
  unfolding evaluate_rule
  first_match [] metadata = "normal"
  first_match (rule ∷ rules) metadata =
      if evaluate_rule match_string rule metadata
      then rule.target_queue
      else first_match rules metadata

  unfoldable pub determine_target_queue : PriorityScheduler → List (String × Value) → String
  unfolding first_match
  determine_target_queue s metadata = first_match s.routing_rules metadata

  -- The payload and the priority that go to Corndogs; its answer is passed on as it is.
  unfoldable pub prepare_job :
      PriorityScheduler → TaskPayload → List (String × Value) → TaskPayload × ℤ
  unfolding determine_target_queue resolve_queue calculate_priority fill_payload
  prepare_job s payload metadata =
      let (target, config) = resolve_queue s.queue_config (determine_target_queue s metadata) in
      let priority = calculate_priority metadata config in
      (fill_payload payload target priority config, priority)

  -- `submit_task` is the Corndogs client's `SubmitTask`; `none` is its error.
  unfoldable pub submit_job {ℓ} :
      {Task : Type ℓ}
      → (TaskPayload → ℤ → Option Task)
      → PriorityScheduler
      → TaskPayload
      → List (String × Value)
      → Option Task
  unfolding prepare_job
  submit_job submit_task s payload metadata =
      let (filled, priority) = prepare_job s payload metadata in submit_task filled priority
