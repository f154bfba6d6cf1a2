-- ===== src/Examples/Retries.antt =====
-- A segment that fails once and then succeeds.
use debian_download_manager.Prelude.{ℕ, zero, suc, ◌<◌, max, ◌≡◌, some, true, false, length}
use debian_download_manager.Prelude.Result.{ok, err}
use debian_download_manager.Retry.Classify.{Curl, partial_transfer}
use debian_download_manager.Retry.Policy.{default_policy}
use debian_download_manager.Retry.Run.{SegmentResult, Ran, run_with_retry}
use debian_download_manager.Retry.Run.Laws.{Runs, run_with_retry_total}

abbrev code : ℕ
code = 503

-- An error type whose errors are numbers of curl.
abbrev pub codes_of_curl : Curl
codes_of_curl = record {
  Error = ℕ;
  is_operation_timedout = λ e. false;
  is_write_error = λ e. false;
  is_couldnt_connect = λ e. true;
  is_couldnt_resolve_host = λ e. false;
  is_couldnt_resolve_proxy = λ e. false;
  is_read_error = λ e. false;
  is_recv_error = λ e. false;
  is_send_error = λ e. false;
  is_got_nothing = λ e. false;
}

abbrev second_try : ℕ → SegmentResult codes_of_curl ℕ × ℕ
second_try zero = (err (partial_transfer 10 4), 1)
second_try (suc n) = (ok tt, suc (suc n))

run_with_retry_total_example :
    (r : Ran codes_of_curl ℕ ℕ) × (run_with_retry default_policy second_try 0 ≡ some r)
    × (length r.slept < max 1 default_policy.max_attempts)
    × Runs default_policy second_try 1 0 r
run_with_retry_total_example = run_with_retry_total default_policy second_try 0
