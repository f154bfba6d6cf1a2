-- ===== src/Retry/Policy.antt =====
-- crates/ddm-core/src/retry/policy.rs: exponential backoff with caps. A `Duration` is its number of
-- nanoseconds, at most `duration_max`, where `saturating_mul` stops.
use native.Mathlib.Nat.{pow-le-pow_right, mul-le-mul_left}
use debian_download_manager.Prelude.{
  ℕ, ◌-◌, ◌*◌, ◌^◌, ◌≤◌, min, ◌≡◌, ◌⊎◌, ◌↔◌, leb, if◌then◌else◌, arith,
}
use debian_download_manager.Retry.Classify.{
  ErrorKind, timeout, throttled, connection, http5xx, other,
}

pub data RetryDecision : Type 0 where
  no_retry : RetryDecision
  retry_after : ℕ → RetryDecision

pub record RetryPolicy : Type 0 where
  pub max_attempts : ℕ
  pub base_delay : ℕ
  pub max_delay : ℕ

-- `Duration::MAX`: u64::MAX seconds and 999_999_999 nanoseconds.
abbrev pub duration_max : ℕ
duration_max = 2 ^ 64 * 1_000_000_000 - 1

abbrev pub u32_max : ℕ
u32_max = 2 ^ 32 - 1

abbrev pub default_policy : RetryPolicy
default_policy = record { max_attempts = 5; base_delay = 250_000_000; max_delay = 30_000_000_000 }

-- base * 2^(attempt - 1), with the exponent and the product capped.
unfoldable pub backoff : RetryPolicy → ℕ → ℕ
backoff p attempt =
    let exp = min (1 * 2 ^ (min (attempt - 1) 8)) u32_max in
    let raw = min (p.base_delay * exp) duration_max in min raw p.max_delay

on_kind : RetryPolicy → ℕ → ErrorKind → RetryDecision
on_kind p attempt other = no_retry
on_kind p attempt timeout = retry_after (backoff p attempt)
on_kind p attempt connection = retry_after (backoff p attempt)
on_kind p attempt throttled = retry_after (backoff p attempt)
on_kind p attempt (http5xx code) = retry_after (backoff p attempt)

-- `attempt` counts from 1.
unfoldable pub decide : RetryPolicy → ℕ → ErrorKind → RetryDecision
unfolding on_kind
decide p attempt kind = if leb p.max_attempts attempt then no_retry else on_kind p attempt kind

-- A retry is refused exactly for the last attempt (and any after it) and for errors of no kind.
pub decide-no_retry :
    (p : RetryPolicy) (attempt : ℕ) (kind : ErrorKind)
    → (decide p attempt kind ≡ no_retry) ↔ ((p.max_attempts ≤ attempt) ⊎ (kind ≡ other))
unfolding decide
decide-no_retry p attempt timeout = (λ e. ground arith, λ e. ground arith)
decide-no_retry p attempt throttled = (λ e. ground arith, λ e. ground arith)
decide-no_retry p attempt connection = (λ e. ground arith, λ e. ground arith)
decide-no_retry p attempt (http5xx code) = (λ e. ground arith, λ e. ground arith)
decide-no_retry p attempt other = (λ e. ground arith, λ e. ground arith)

pub decide-backoff :
    (p : RetryPolicy) (attempt : ℕ) (kind : ErrorKind) (d : ℕ)
    → decide p attempt kind ≡ retry_after d
    → d ≡ backoff p attempt
unfolding decide
decide-backoff p attempt timeout d e = ground arith
decide-backoff p attempt throttled d e = ground arith
decide-backoff p attempt connection d e = ground arith
decide-backoff p attempt (http5xx code) d e = ground arith
decide-backoff p attempt other d e = ground arith

backoff_mono : (p : RetryPolicy) (a b : ℕ) → a ≤ b → backoff p a ≤ backoff p b
unfolding backoff
backoff_mono p a b le =
    let power : 2 ^ (min (a - 1) 8) ≤ 2 ^ (min (b - 1) 8) =
      pow-le-pow_right (omega arith) (omega arith) in
    let product : p.base_delay * min (1 * 2 ^ (min (a - 1) 8)) u32_max
        ≤ p.base_delay * min (1 * 2 ^ (min (b - 1) 8)) u32_max =
      mul-le-mul_left p.base_delay (omega arith) in
    omega arith

-- The delays never pass the policy's limit, and they never fall from one attempt to a later one,
-- whatever the kinds of the two errors.
pub decide_delays :
    (p : RetryPolicy) (a b : ℕ) (k l : ErrorKind) (d e : ℕ)
    → a ≤ b
    → decide p a k ≡ retry_after d
    → decide p b l ≡ retry_after e
    → (d ≤ e) × (e ≤ p.max_delay)
decide_delays p a b k l d e le f g =
    let first = decide-backoff p a k d f in
    let second = decide-backoff p b l e g in
    (omega (arith, backoff_mono p a b le), unfold backoff in omega arith)
