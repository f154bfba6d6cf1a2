-- ===== src/Retry/Run.antt =====
-- crates/ddm-core/src/retry/run.rs: run a closure until it succeeds or the policy says stop.
-- The closure changes a state, as an `FnMut` does; a sleep is an entry in a list of delays. The
-- loop has fuel, of which `max_attempts` (at least 1) is enough.
pub mod Laws
use debian_download_manager.Prelude.{ℕ, zero, suc, ◌+◌, max, List, [], ◌∷◌, Option, none, some}
use mathlib.Core.Option
use debian_download_manager.Prelude.Result.{Result, ok, err}
use debian_download_manager.Retry.Classify.{Curl, SegmentError, classify}
use debian_download_manager.Retry.Policy.{RetryPolicy, RetryDecision, no_retry, retry_after, decide}

abbrev pub SegmentResult : Curl → Type 0 → Type 0
SegmentResult c IoError = Result (SegmentError c IoError) (Unit {0})

-- What a run leaves: its result, the closure's state and the delays that were slept.
pub record Ran (c : Curl) (IoError S : Type 0) : Type 0 where
  pub result : SegmentResult c IoError
  pub state : S
  pub slept : List ℕ

module _ {c : Curl} {IoError S : Type 0} where
  unfoldable pub add_sleep : ℕ → Ran c IoError S → Ran c IoError S
  add_sleep d r = record r { slept = d ∷ r.slept }

  unfoldable pub on_error :
      SegmentError c IoError
      → S
      → Option (Ran c IoError S)
      → RetryDecision
      → Option (Ran c IoError S)
  on_error e s rest no_retry = some (record { result = err e; state = s; slept = [] })
  on_error e s rest (retry_after d) = Option.map (add_sleep d) rest

  -- The `match` on the result of one call; `rest` is the next round of the loop.
  unfoldable pub on_result :
      RetryPolicy
      → ℕ
      → SegmentResult c IoError
      → S
      → Option (Ran c IoError S)
      → Option (Ran c IoError S)
  unfolding on_error add_sleep
  on_result p attempt (ok done) s rest = some (record { result = ok done; state = s; slept = [] })
  on_result p attempt (err e) s rest = on_error e s rest (decide p attempt (classify e))

  unfoldable pub run_loop :
      ℕ → RetryPolicy → (S → SegmentResult c IoError × S) → ℕ → S → Option (Ran c IoError S)
  unfolding on_result
  run_loop zero p f attempt s = none
  run_loop (suc fuel) p f attempt s =
      let rest = run_loop fuel p f (attempt + 1) (f s).1 in on_result p attempt (f s).0 (f s).1 rest

  unfoldable pub run_with_retry :
      RetryPolicy → (S → SegmentResult c IoError × S) → S → Option (Ran c IoError S)
  unfolding run_loop
  run_with_retry p f s = run_loop (max 1 p.max_attempts) p f 1 s
