-- ===== src/Scheduler/Bounds.antt =====
-- The priorities that jobs are submitted with, and what is written into their payloads.
use reactorcide.Prelude.{
  ◌≡◌, sym, ◌≤ℤ◌, ℤ, inl, inr, String, List, [], ◌∷◌, Bool, true, false, Bool-cases, Option, some,
  none, if◌then◌else◌, lookup, insert, lookup-insert, Bytes, All, arith, subst, str_eq,
}
use reactorcide.Scheduler.Types.{PriorityRange, QueueConfig, Value, float64}
use reactorcide.Scheduler.State.{PriorityScheduler}
use reactorcide.Scheduler.Defaults.{new_priority_scheduler}
use reactorcide.Scheduler.Submit.{
  clamp, base_priority, priority_by, calculate_priority, pick_queue, resolve_queue, Entry, int,
  int64_entry, queue, limits, is_set, TaskPayload, fill_payload, determine_target_queue,
  prepare_job,
}

abbrev pub InRange : PriorityRange → ℤ → Type 0
InRange range p = (range.min ≤ℤ p) × (p ≤ℤ range.max)

-- A range that is not empty.
abbrev pub IsRange : PriorityRange → Type 0
IsRange range = range.min ≤ℤ range.max

clamp-InRange : (range : PriorityRange) (p : ℤ) → IsRange range → InRange range (clamp range p)
unfolding clamp
clamp-InRange range p h = ground arith

clamp-id : (range : PriorityRange) (p : ℤ) → InRange range p → clamp range p ≡ p
unfolding clamp
clamp-id range p h = ground arith

priority_by-InRange :
    (v : Option Value) (metadata : List (String × Value)) (range : PriorityRange)
    → IsRange range
    → InRange range (priority_by v metadata range)
unfolding priority_by
priority_by-InRange (some (float64 p s)) metadata range h = clamp-InRange range p h
priority_by-InRange _ metadata range h = clamp-InRange range (base_priority metadata range) h

-- A job's priority lies in the range of its queue, if that is not empty, whatever its metadata says.
pub calculate_priority-InRange :
    (metadata : List (String × Value)) (config : QueueConfig)
    → IsRange config.priority_range
    → InRange config.priority_range (calculate_priority metadata config)
unfolding calculate_priority
calculate_priority-InRange metadata config h =
    priority_by-InRange (lookup "priority" metadata) metadata config.priority_range h

-- An explicit priority that lies in the range of the job's queue is taken as it is.
pub calculate_priority-explicit :
    (metadata : List (String × Value)) (config : QueueConfig) (p : ℤ) (s : Bytes)
    → lookup "priority" metadata ≡ some (float64 p s)
    → InRange config.priority_range p
    → calculate_priority metadata config ≡ p
unfolding calculate_priority priority_by
calculate_priority-explicit metadata config p s e k =
    subst (λ v. priority_by v metadata config.priority_range ≡ p) (sym e)
      (clamp-id config.priority_range p k)

-- Every queue has a range that is not empty.
abbrev pub HasRanges : List (String × QueueConfig) → Type 0
HasRanges = All (λ entry. IsRange entry.1.priority_range)

-- What a lookup gives, if anything, has a range.
abbrev FoundRange : Option QueueConfig → Type 0
FoundRange none = Unit
FoundRange (some config) = IsRange config.priority_range

lookup-FoundRange :
    (queues : List (String × QueueConfig)) (name : String)
    → HasRanges queues
    → FoundRange (lookup name queues)
lookup-FoundRange [] name h = tt
lookup-FoundRange ((k, c) ∷ queues) name h = elim (Bool-cases (str_eq k name)) [
  | inl p ↦ subst (λ b. FoundRange (if b then some c else lookup name queues)) (sym p) h.0
  | inr p ↦
      subst (λ b. FoundRange (if b then some c else lookup name queues)) (sym p)
        (lookup-FoundRange queues name h.1)
]

pick_queue-IsRange :
    (target : String) (found normal : Option QueueConfig)
    → FoundRange found
    → FoundRange normal
    → IsRange (pick_queue target found normal).1.priority_range
unfolding pick_queue
pick_queue-IsRange target (some config) normal h k = h
pick_queue-IsRange target none (some config) h k = k
pick_queue-IsRange target none none h k = omega arith

resolve_queue-IsRange :
    (queues : List (String × QueueConfig)) (target : String)
    → HasRanges queues
    → IsRange (resolve_queue queues target).1.priority_range
unfolding resolve_queue
resolve_queue-IsRange queues target h =
    pick_queue-IsRange target (lookup target queues) (lookup "normal" queues)
      (lookup-FoundRange queues target h) (lookup-FoundRange queues "normal" h)

lookup-timeout :
    (b : Bool) (m : List (String × Entry)) (e l : Entry)
    → lookup "timeout" (insert "resource_limits" l (if b then m else insert "timeout" e m))
      ≡ (if b then lookup "timeout" m else some e)
lookup-timeout true m e l = simp lookup-insert
lookup-timeout false m e l = simp lookup-insert

module _ (match_string : Bytes → Bytes → Option Bool) where
  -- What goes to Corndogs for a job.
  abbrev pub Prepared : PriorityScheduler → TaskPayload → List (String × Value) → Type 0
  Prepared s payload metadata =
      let (filled, priority) = prepare_job match_string s payload metadata in
      let (name, config) =
        resolve_queue s.queue_config (determine_target_queue match_string s metadata) in
      (lookup "queue" filled.metadata ≡ some (queue name))
      × (lookup "priority" filled.metadata ≡ some (int64_entry priority))
      × InRange config.priority_range priority
      × (lookup "resource_limits" filled.config ≡ some (limits config.resource_limits))
      × (lookup "timeout" filled.config ≡ (
          if is_set (lookup "timeout" payload.config)
          then lookup "timeout" payload.config
          else some (int config.timeout_seconds)))

  -- If no queue has an empty range, what goes to Corndogs for a job is: a priority in the range of the
  -- queue that is written into the payload's metadata, that priority beside it, the queue's limits,
  -- and the queue's timeout unless the payload came with one of its own that is not 0.
  pub prepare_job_lem :
      (s : PriorityScheduler) (payload : TaskPayload) (metadata : List (String × Value))
      → HasRanges s.queue_config
      → Prepared s payload metadata
  unfolding prepare_job fill_payload
  prepare_job_lem s payload metadata h =
      let (name, config) =
        resolve_queue s.queue_config (determine_target_queue match_string s metadata) in
      (
        simp lookup-insert,
        simp lookup-insert,
        calculate_priority-InRange metadata config (resolve_queue-IsRange s.queue_config _ h),
        simp lookup-insert,
        lookup-timeout (is_set (lookup "timeout" payload.config)) _ _ _,
      )

-- The default queues have ranges, so what is said of the jobs of such queues holds from the start.
pub new_priority_scheduler-HasRanges : HasRanges new_priority_scheduler.queue_config
unfolding new_priority_scheduler
new_priority_scheduler-HasRanges = omega arith
