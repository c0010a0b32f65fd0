-- ===== src/Scheduler/Types.antt =====
-- The data of priority_scheduler.go: queue configurations, routing rules, metadata values.
use reactorcide.Prelude.{String, List, ℤ, pos, Bytes}

pub record PriorityRange : Type 0 where
  pub min : ℤ  -- int64
  pub max : ℤ  -- int64

pub record RetryPolicy : Type 0 where
  pub max_retries : ℤ
  pub backoff_strategy : String
  pub initial_delay : ℤ  -- seconds
  pub max_delay : ℤ  -- seconds

pub record ResourceLimits : Type 0 where
  pub max_cpu : String
  pub max_memory : String
  pub max_disk : String

pub record QueueConfig : Type 0 where
  pub name : String
  pub description : String
  pub priority_range : PriorityRange
  pub max_concurrency : ℤ
  pub timeout_seconds : ℤ
  pub retry_policy : RetryPolicy
  pub resource_limits : ResourceLimits

-- The zero value, which reading a missing key of the queue map gives.
abbrev pub zero_queue_config : QueueConfig
zero_queue_config = record {
  name = "";
  description = "";
  priority_range = record { min = pos 0; max = pos 0 };
  max_concurrency = pos 0;
  timeout_seconds = pos 0;
  retry_policy = record {
    max_retries = pos 0;
    backoff_strategy = "";
    initial_delay = pos 0;
    max_delay = pos 0;
  };
  resource_limits = record { max_cpu = ""; max_memory = ""; max_disk = "" };
}

-- A dynamic value (`interface{}`). A float64 is given by the two things that the code takes of it,
-- its conversion to int64 and its text; a value of any other type by its text alone.
pub data Value : Type 0 where
  text : Bytes → Value
  float64 : ℤ → Bytes → Value
  texts : List Bytes → Value
  other : Bytes → Value

pub record Condition : Type 0 where
  pub field : String
  pub operator : String
  pub value : Value

-- `Metadata` of a rule is read by nothing and left out.
pub record RoutingRule : Type 0 where
  pub name : String
  pub description : String
  pub priority : ℤ
  pub conditions : List Condition
  pub target_queue : String
