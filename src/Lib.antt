-- ===== src/Lib.antt =====
-- Reactorcide's coordinator: how jobs are routed, submitted, cancelled and retried, and how workflows
-- of jobs with dependencies move on. All Go code named here is under coordinator_api/internal.
--
-- The parts and their files:
--
-- Scheduler models scheduler/priority_scheduler.go. Scheduler/Types has its data, Scheduler/State the
-- scheduler with RegisterQueue, AddRoutingRule and the bubble sort of sortRoutingRules,
-- Scheduler/Rules evaluateRule, evaluateCondition and containsString, Scheduler/Defaults the queues
-- and rules of NewPriorityScheduler, and Scheduler/Submit determineTargetQueue, calculatePriority and
-- SubmitJob. Scheduler/Sorted, Contains, Routes and Bounds hold proofs. The int64 of priorities is an
-- integer whose additions wrap at 64 bits. regexp.MatchString and the Corndogs client are parameters.
--
-- Models has the rows of store/models/job.go and store/models/workflow.go with their status tests, and
-- triggerJobSpec of worker/trigger_processor.go.
--
-- Store is the database and Corndogs as the rest sees them. Store/World has the state, in which the
-- environment's behaviour is a part: which database operations fail, what Corndogs answers, and what
-- others write to the job table before each guarded update; and the monad of operations that may fail.
-- Store/Rows has the operations of store/postgres_store/job_operations.go, job_guarded_operations.go
-- and workflow_operations.go that are called here, and the calls of corndogs/client.go. Store/Ensures,
-- Triple and Leads are proof rules for what they answer and leave.
--
-- Runtime models worker/workflow_runtime.go on top of Store. Runtime/Decide has dependenciesReady,
-- evaluateWorkflowCondition and computeWorkflowStatus, Runtime/Build buildJobFromTrigger
-- (worker/trigger_processor.go) with ApplyToJob (vcs/status_updater.go) and the default directories of
-- worker/job_spec.go, Runtime/Evaluate evaluateWorkflow, submitWorkflowNode, refreshWorkflowStatus and
-- recordWorkflowEvent, Runtime/Completion ProcessWorkflowCompletion, ProcessWorkflowJobStarted and
-- failWorkflowNode. Runtime/Vars has mergeWorkflowVar, addWorkflowVars and mergeWorkflowOutputFile
-- with the SHA-256 digest as a parameter and the parsed file as an argument, Runtime/Create
-- createWorkflowNodes and createWorkflowNode with the use of encoding/json and the history of
-- durations as parameters, Runtime/Triggers ProcessTriggers and ProcessTriggersFromData of
-- worker/trigger_processor.go with loadJobFile, overlaySpec, createAndSubmitJob and ensureWorkflow, in
-- which what triggers.json and the definition files hold is given parsed. Runtime/Keeps and
-- Runtime/Turns are proof rules for what they do to the rows of nodes; Runtime/Groups, Steps, Status,
-- Ready, Conditions, Progress, WriteOnce, Expansion, Described and Triggered hold proofs.
--
-- JobControl models jobcontrol/jobcontrol.go (JobControl/Cancel) and jobcontrol/retry.go
-- (JobControl/Retry), which use Store and, for a new run of a workflow, Runtime. JobControl/Spares is
-- a proof rule for what they do to the job table; JobControl/Race, Nodes, Cascade, Clone and Outcome
-- hold proofs.
--
-- Authz models the package authz. Authz/Types has its rows and RoleStore, Authz/Principal the role
-- assignments of authz/resolver.go, Authz/Resolver the tiers and guards of that file,
-- Authz/Capabilities authz/capabilities.go, Authz/Visibility authz/visibility.go. Authz/Cache,
-- Filters, Rule and Tiers hold proofs. The store is a record of functions, which answer the same while
-- one call runs.
--
-- Worker models worker/corndogs_worker.go on top of Store: Worker/Claim has processNextTask in the
-- steps between its calls (the lookup with its attempts, the claim by a guarded update, the run, the
-- landing of the result, triggers and commit status) and reapStaleCancellingJobs. What the worker does
-- outside the database is a list of acts in the state. The processor (JobProcessorInterface) is an
-- interface of the worker, and so is what it asks of the trigger processor; Worker/Hooks has the one
-- that NewCornDogsWorker makes, from the functions of Runtime/Completion and Runtime/Triggers.
-- Worker/Invariant says what its steps keep; Worker/Untouched, Unclaimed, Outcome, Landing, Reaper and
-- Cancelled hold proofs.
--
-- Worker/Retry models worker/retry.go, with the context and the tried function as a list of answers;
-- the random share of a delay that addJitter adds is a parameter. Worker/Attempts has the proof.
--
-- JobSpecs models worker/job_spec.go: JobSpecs/Command ParseCommandWithPrefix and what it calls on a
-- text of code points, JobSpecs/Merge MergeJobSpecs, LoadJobSpecWithOverlays and ToJobConfig, with
-- reading and parsing of a file as a parameter. JobSpecs/Words, Overlays and RunLocal hold proofs.
--
-- Secrets models secrets/masker.go: Secrets/Masker has the masker and strings.ReplaceAll, with the
-- order in which a Go map gives its keys as a parameter; Secrets/Replace and Absent hold proofs. Text
-- is a list of bytes. Secrets/Grants models worker/secret_authorization.go and the query of
-- store/postgres_store/secret_grant_operations.go, with path.Match and regexp.MatchString as
-- parameters; Secrets/Access and Allowed hold proofs.
--
-- Projects models which events of a repository start jobs: Projects/Events GenericEventFromGitHub of
-- vcs/event_types.go, Projects/Filter ShouldProcessEvent of store/models/project.go with its proof.
--
-- Vcs models vcs/url_normalization.go: Vcs/Urls has NormalizeRepoURL and MatchRepoURL, Vcs/Normal the
-- proof.
--
-- Bounds. Every loop goes over a list or counts down; there is no fuel but the rounds of the loops of
-- sortRoutingRules and containsString, which are those of their loop bounds, and those of the decimal
-- digits of an item's index, for which the index itself is enough, since each round divides by ten.
-- Times are natural numbers of milliseconds. Integers of job rows are unbounded but for the retry
-- count, which wraps at 64 bits.
--
-- Simplifications. A status is one of the words that the code uses, or another string. Error texts and
-- decision reasons are constructors, one for each message. A float64 in a job's metadata is its
-- conversion to int64 with its text. The notes of a job are given parsed. The job spec of a node is
-- kept as what its JSON decodes to. Keys are given by the database, run ids by the same supply. A row
-- is written as found by its key; gorm's defaults for empty columns and the test that a key is a UUID
-- are left out. The ids of jobs that were created before evaluation ends in an error are dropped with
-- it. The store of the runtime has the operations on workflows, but for ProcessTriggersFromData, where
-- that is an argument. What mergeWorkflowOutputFile answers enters ProcessWorkflowCompletion as an
-- argument.
--
-- Not modelled: logging, locks inside one process, event details, the update of commit statuses,
-- GetQueueMetrics, the parsing of files, the processor that supervises a container, storage of
-- secrets, authentication, and the handlers, clients and runners around all this, which are input and
-- output.
pub mod Prelude
pub mod Models
pub mod Store
pub mod Runtime
pub mod Scheduler
pub mod JobControl
pub mod Authz
pub mod Secrets
pub mod Projects
pub mod Vcs
pub mod Worker
pub mod JobSpecs
