-- ===== src/Scheduler/Defaults.antt =====
-- `NewPriorityScheduler` with its default queues and default routing rules.
use reactorcide.Prelude.{String, [], ◌∷◌, pos, codes}
use reactorcide.Scheduler.Types.{QueueConfig, text, texts, Condition, RoutingRule}
use reactorcide.Scheduler.State.{PriorityScheduler, register_queue, add_routing_rule}

abbrev pub critical_queue : QueueConfig
critical_queue = record {
  name = "critical";
  description = "Critical production tasks";
  priority_range = record { min = pos 90; max = pos 100 };
  max_concurrency = pos 10;
  timeout_seconds = pos 300;
  retry_policy = record {
    max_retries = pos 5;
    backoff_strategy = "exponential";
    initial_delay = pos 10;
    max_delay = pos 300;
  };
  resource_limits = record { max_cpu = "4000m"; max_memory = "8Gi"; max_disk = "50Gi" };
}

abbrev pub high_priority_queue : QueueConfig
high_priority_queue = record {
  name = "high-priority";
  description = "High priority tasks (deployments, releases)";
  priority_range = record { min = pos 70; max = pos 89 };
  max_concurrency = pos 20;
  timeout_seconds = pos 1800;
  retry_policy = record {
    max_retries = pos 3;
    backoff_strategy = "exponential";
    initial_delay = pos 30;
    max_delay = pos 600;
  };
  resource_limits = record { max_cpu = "2000m"; max_memory = "4Gi"; max_disk = "20Gi" };
}

abbrev pub normal_queue : QueueConfig
normal_queue = record {
  name = "normal";
  description = "Normal priority tasks (CI builds, tests)";
  priority_range = record { min = pos 30; max = pos 69 };
  max_concurrency = pos 50;
  timeout_seconds = pos 3600;
  retry_policy = record {
    max_retries = pos 2;
    backoff_strategy = "linear";
    initial_delay = pos 60;
    max_delay = pos 900;
  };
  resource_limits = record { max_cpu = "1000m"; max_memory = "2Gi"; max_disk = "10Gi" };
}

abbrev pub low_priority_queue : QueueConfig
low_priority_queue = record {
  name = "low-priority";
  description = "Low priority tasks (scheduled jobs, maintenance)";
  priority_range = record { min = pos 0; max = pos 29 };
  max_concurrency = pos 30;
  timeout_seconds = pos 7200;
  retry_policy = record {
    max_retries = pos 1;
    backoff_strategy = "fixed";
    initial_delay = pos 300;
    max_delay = pos 300;
  };
  resource_limits = record { max_cpu = "500m"; max_memory = "1Gi"; max_disk = "5Gi" };
}

abbrev equals : String → String → Condition
equals field value = record { field = field; operator = "equals"; value = text (codes value) }

abbrev pub production_deployments : RoutingRule
production_deployments = record {
  name = "production-deployments";
  description = "Route production deployments to high priority queue";
  priority = pos 100;
  conditions = equals "job_type" "deploy" ∷ equals "environment" "production" ∷ [];
  target_queue = "high-priority";
}

abbrev pub rollbacks : RoutingRule
rollbacks = record {
  name = "rollbacks";
  description = "Route rollback operations to critical queue";
  priority = pos 110;
  conditions =
      record { field = "job_type"; operator = "contains"; value = text (codes "rollback") } ∷ [];
  target_queue = "critical";
}

abbrev pub staging_deployments : RoutingRule
staging_deployments = record {
  name = "staging-deployments";
  description = "Route staging deployments to normal queue";
  priority = pos 90;
  conditions = equals "job_type" "deploy" ∷ equals "environment" "staging" ∷ [];
  target_queue = "normal";
}

abbrev pub main_branch_builds : RoutingRule
main_branch_builds = record {
  name = "main-branch-builds";
  description = "Route main branch builds to normal queue";
  priority = pos 80;
  conditions =
      equals "job_type" "build"
      ∷ record {
        field = "branch";
        operator = "in";
        value = texts (codes "main" ∷ codes "master" ∷ codes "develop" ∷ []);
      }
      ∷ [];
  target_queue = "normal";
}

abbrev pub feature_branch_builds : RoutingRule
feature_branch_builds = record {
  name = "feature-branch-builds";
  description = "Route feature branch builds to low priority queue";
  priority = pos 70;
  conditions =
      equals "job_type" "build"
      ∷ record {
        field = "branch";
        operator = "matches";
        value = text (codes "^(feature|bugfix|hotfix)/.*");
      }
      ∷ [];
  target_queue = "low-priority";
}

abbrev pub scheduled_jobs : RoutingRule
scheduled_jobs = record {
  name = "scheduled-jobs";
  description = "Route scheduled/cron jobs to low priority queue";
  priority = pos 60;
  conditions = equals "trigger_type" "scheduled" ∷ [];
  target_queue = "low-priority";
}

unfoldable pub initialize_default_routing_rules : PriorityScheduler → PriorityScheduler
unfolding add_routing_rule
initialize_default_routing_rules s =
    let s = add_routing_rule s production_deployments in
    let s = add_routing_rule s rollbacks in
    let s = add_routing_rule s staging_deployments in
    let s = add_routing_rule s main_branch_builds in
    let s = add_routing_rule s feature_branch_builds in add_routing_rule s scheduled_jobs

unfoldable pub initialize_default_queues : PriorityScheduler → PriorityScheduler
unfolding initialize_default_routing_rules register_queue
initialize_default_queues s =
    let s = register_queue s critical_queue in
    let s = register_queue s high_priority_queue in
    let s = register_queue s normal_queue in
    let s = register_queue s low_priority_queue in initialize_default_routing_rules s

unfoldable pub new_priority_scheduler : PriorityScheduler
unfolding initialize_default_queues
new_priority_scheduler =
    initialize_default_queues (record { queue_config = []; routing_rules = [] })
