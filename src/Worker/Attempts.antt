-- ===== src/Worker/Attempts.antt =====
-- How often an operation is tried, and how it ends.
use reactorcide.Prelude.{◌≡◌, ◌⊎◌, ℕ, suc, ◌+◌, ◌≤◌, true, none, some, length, All}
use reactorcide.Worker.Retry.{Failure, is_retryable, RetryConfig, Trial, Retried}

-- Within the attempts that are left, one succeeds, every one before it fails with an error that is to be
-- retried, and the context is not cancelled meanwhile.
pub data Succeeds (trial : Trial) : ℕ → ℕ → Type 0 where
  at_once :
      {left attempt : ℕ}
      → trial.before attempt ≡ none
      → trial.call attempt ≡ none
      → Succeeds trial left attempt
  later :
      {left attempt : ℕ} {e : Failure}
      → trial.before attempt ≡ none
      → trial.call attempt ≡ some e
      → is_retryable e ≡ true
      → trial.waiting attempt ≡ none
      → Succeeds trial left (suc attempt)
      → Succeeds trial (suc left) attempt

module _ (config : RetryConfig) (trial : Trial) where
  -- A delay is the first one, or at most the longest.
  abbrev pub IsDelay : ℕ → Type 0
  IsDelay delay = (delay ≡ config.initial_delay) ⊎ (delay ≤ config.max_delay)

  -- A wait is a delay and a share of it.
  abbrev pub IsWait : ℕ → Type 0
  IsWait wait = (delay : ℕ) × (IsDelay delay × ((delay ≤ wait) × (wait ≤ delay + delay)))

  -- No more calls than attempts, and a delay between two of them.
  abbrev pub Frugal : ℕ → ℕ → Retried → Type 0
  Frugal left attempt r =
      (r.calls ≤ attempt + left + 1) × ((length r.delays ≤ left) × All IsWait r.delays)
