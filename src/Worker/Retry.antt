-- ===== src/Worker/Retry.antt =====
-- worker/retry.go. Durations are natural numbers of nanoseconds. The products of floating-point numbers and the
-- random jitter are parameters, as is the function that is tried and what the context says.
use reactorcide.Prelude.{
  ◌+◌, ℕ, zero, suc, ℤ, pos, negsuc, same_ℤ, String, List, [], ◌∷◌, Bool, true, false, not, ltb,
  Option, none, some, if◌then◌else◌,
}

-- An error of Go: a context's, one that says whether to retry, one around another, or any other.
pub data Failure : Type 0 where
  context_canceled deadline_exceeded : Failure
  plain_error : String → Failure
  retryable_error : Failure → Bool → String → Failure
  wrapped : String → Failure → Failure

-- `isTransientError`: none is, so far.
abbrev pub is_transient_error : Failure → Bool
is_transient_error e = false

-- `errors.As` finds the outermost error that says whether to retry.
unfoldable pub is_retryable : Failure → Bool
is_retryable (retryable_error e retryable why) = retryable
is_retryable (wrapped text e) = is_retryable e
is_retryable context_canceled = is_transient_error context_canceled
is_retryable deadline_exceeded = is_transient_error deadline_exceeded
is_retryable (plain_error text) = is_transient_error (plain_error text)

-- `next_delay d` is `d` times the backoff factor, `random_share n d` the random share of `d`, cut to an integer, that
-- is added to it after attempt `n`; it is zero where the fraction is not positive.
pub record RetryConfig : Type 0 where
  pub max_retries : ℤ
  pub initial_delay : ℕ
  pub max_delay : ℕ
  pub next_delay : ℕ → ℕ
  pub random_share : ℕ → ℕ → ℕ

-- What the function answers at each attempt, and what the context says before it and while waiting after it.
pub record Trial : Type 0 where
  pub call : ℕ → Option Failure
  pub before : ℕ → Option Failure
  pub waiting : ℕ → Option Failure

-- The error, how often the function was called, and what was waited, or begun to be.
pub record Retried : Type 0 where
  pub error : Option Failure
  pub calls : ℕ
  pub delays : List ℕ

abbrev pub backed_off : RetryConfig → ℕ → ℕ → ℕ
backed_off config zero delay = delay
backed_off config (suc attempt) delay =
    if ltb config.max_delay (config.next_delay delay)
    then config.max_delay
    else config.next_delay delay

abbrev pub add_jitter : RetryConfig → ℕ → ℕ → ℕ
add_jitter config attempt delay = delay + config.random_share attempt delay

abbrev pub after_call : ℕ → Option Failure → (Failure → Retried) → Retried
after_call attempt none retry = record { error = none; calls = suc attempt; delays = [] }
after_call attempt (some e) retry =
    if not (is_retryable e)
    then record { error = some e; calls = suc attempt; delays = [] }
    else retry e

abbrev pub unless_cancelled : ℕ → Option Failure → Retried → Retried
unless_cancelled attempt (some e) tried = record {
  error = some (wrapped "context cancelled before attempt" e);
  calls = attempt;
  delays = [];
}
unless_cancelled attempt none tried = tried

abbrev pub after_delay : ℕ → ℕ → Option Failure → Retried → Retried
after_delay attempt delay (some e) rest = record {
  error = some (wrapped "context cancelled during retry delay" e);
  calls = suc attempt;
  delays = delay ∷ [];
}
after_delay attempt delay none rest = record rest { delays = delay ∷ rest.delays }

-- The loop, with the number of attempts after this one.
unfoldable pub retry_loop : RetryConfig → Trial → ℕ → ℕ → ℕ → Retried
retry_loop config trial zero attempt delay = unless_cancelled attempt (trial.before attempt) (
    after_call attempt (trial.call attempt)
      λ e. record { error = some (wrapped "operation failed" e); calls = suc attempt; delays = [] })
retry_loop config trial (suc left) attempt delay =
    let delay' = backed_off config attempt delay in
    unless_cancelled attempt (trial.before attempt) (
      after_call attempt (trial.call attempt) λ _.
        after_delay attempt (add_jitter config attempt delay') (trial.waiting attempt)
          (retry_loop config trial left (suc attempt) delay'))

-- With a negative number of retries the function is not called at all.
unfoldable pub run_attempts : RetryConfig → Trial → ℤ → Retried
run_attempts config trial (pos retries) = retry_loop config trial retries 0 config.initial_delay
run_attempts config trial (negsuc _) = record { error = none; calls = 0; delays = [] }

unfoldable pub retry_with_backoff_counter : RetryConfig → Trial → Retried
retry_with_backoff_counter config trial = run_attempts config trial config.max_retries

-- `ClassifyExecutionError`: nothing where there is neither an error nor an exit code.
abbrev pub by_exit_code : ℤ → Failure
by_exit_code code =
    if same_ℤ code (pos 125)
    then retryable_error (plain_error "container execution error") true "Container runtime error"
    else if same_ℤ code (pos 126)
    then retryable_error (plain_error "execution permission error") false "Permission denied"
    else if same_ℤ code (pos 127)
    then retryable_error (plain_error "command not found") false "Command not found"
    else if same_ℤ code (pos 137)
    then retryable_error (plain_error "process killed") true "Process killed (possibly OOM)"
    else if same_ℤ code (pos 143)
    then retryable_error (plain_error "process terminated") false "Process terminated"
    else retryable_error (plain_error "job failed") false "Application error"

abbrev pub by_error : Option Failure → Option Failure
by_error none = none
by_error (some e) =
    if is_transient_error e
    then some (retryable_error e true "Transient error")
    else some (retryable_error e false "")

unfoldable pub classify_execution_error : Option Failure → ℤ → Option Failure
classify_execution_error e code =
    if not (same_ℤ code (pos 0)) then some (by_exit_code code) else by_error e

-- All of this file, for proofs that run it.
unfoldable pub retry_policy : Unit {0}
unfolding is_retryable retry_loop run_attempts retry_with_backoff_counter classify_execution_error
retry_policy = tt
