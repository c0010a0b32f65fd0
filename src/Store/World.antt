-- ===== src/Store/World.antt =====
-- The state that the coordinator's operations read and write, and the monad that they run in.
use reactorcide.Prelude.{ℕ, suc, ℤ, String, List, [], ◌∷◌, Bool, true, false, Option, none, some}
use reactorcide.Models.Status.{Status}
use reactorcide.Models.Job.{Job}
use reactorcide.Models.Workflow.{WorkflowNode, WorkflowInstance, WorkflowEvent, WorkflowVar}

pub data Error : Type 0 where
  not_found store_error corndogs_error : Error
  not_cancellable not_retryable workflow_not_retryable workflows_unsupported : Error
  caused_by : String → Error

pub data Result (A : Type 0) : Type 0 where
  ok : A → Result A
  err : Error → Result A

-- What a worker does outside the database, in order: a Corndogs task moved from one state to another,
-- completed or cancelled, a job handed to the processor, a change of status published, a commit status
-- pushed.
pub data Act : Type 0 where
  moved : String → Status → Status → Act
  task_completed task_cancelled : String → Status → Act
  executed : Job → Act
  published : String → Status → Act
  pushed : Job → Act

-- What the environment will do is in the state too: `faults` says of each database operation to
-- come whether it fails (none does after the list's end), `answers` what Corndogs says to each
-- submission (an error after the list's end), `cancels` whether it cancels a task, and `rivals` what
-- others do to the job table before each guarded update, and `pushes` whether a commit status is taken
-- (it is not after the list's end). `ulid` gives the keys of new rows.
-- `has_client`: there is a Corndogs client; `has_guards`, `has_workflows`: the store implements
-- `guardedJobStore`, `workflowControlStore`.
pub record World : Type 0 where
  pub jobs : List Job
  pub nodes : List WorkflowNode
  pub workflows : List WorkflowInstance
  pub events : List WorkflowEvent
  pub vars : List WorkflowVar
  pub tasks : List (String × ℤ)
  pub cancel_calls : List String
  pub faults : List Bool
  pub answers : List (Option (String × Status))
  pub cancels : List Bool
  pub rivals : List (List Job → List Job)
  pub acts : List Act
  pub pushes : List Bool
  pub ulid : ℕ → String
  pub issued : ℕ
  pub now : ℕ
  pub has_client : Bool
  pub has_guards : Bool
  pub has_workflows : Bool

abbrev pub M : Type 0 → Type 0
M A = World → Result A × World

unfoldable pub continue : {A B : Type 0} → (A → M B) → Result A × World → Result B × World
continue f (ok a, w) = f a w
continue f (err e, w) = (err e, w)

infixl 5 ◌>>=◌ ◌>>◌
unfoldable pub ◌>>=◌ : {A B : Type 0} → M A → (A → M B) → M B
unfolding continue
◌>>=◌ m f w = continue f (m w)

unfoldable pub ◌>>◌ : {B : Type 0} → M (Unit {0}) → M B → M B
unfolding ◌>>=◌
m >> k = m >>= λ _. k

unfoldable pub return : {A : Type 0} → A → M A
return a w = (ok a, w)

unfoldable pub fail : {A : Type 0} → Error → M A
fail e w = (err e, w)

-- The error of `m` as a value.
unfoldable pub try : {A : Type 0} → M A → M (Result A)
try m w = (ok (m w).0, (m w).1)

-- `_ = m`: its error is dropped.
unfoldable pub ignore : M (Unit {0}) → M (Unit {0})
ignore m w = (ok tt, (m w).1)

unfoldable pub gets : {A : Type 0} → (World → A) → M A
gets f w = (ok (f w), w)

unfoldable pub modify : (World → World) → M (Unit {0})
modify f w = (ok tt, f w)

-- One database operation's luck.
unfoldable pub next_fault : List Bool → World → Result (Unit {0}) × World
next_fault [] w = (ok tt, w)
next_fault (true ∷ faults) w = (err store_error, record w { faults = faults })
next_fault (false ∷ faults) w = (ok tt, record w { faults = faults })

unfoldable pub attempt : M (Unit {0})
unfolding next_fault
attempt w = next_fault w.faults w

unfoldable pub from_option : {A : Type 0} → Option A → M A
unfolding fail return
from_option none = fail not_found
from_option (some a) = return a

-- A key for a new row.
unfoldable pub fresh_id : M String
fresh_id w = (ok (w.ulid w.issued), record w { issued = suc w.issued })

-- The monad's own definitions, for proofs that run a computation: name `monad` on their `unfolding`
-- line.
unfoldable pub monad : Unit {0}
unfolding continue ◌>>=◌ ◌>>◌ return fail try ignore gets modify from_option attempt fresh_id
monad = tt
