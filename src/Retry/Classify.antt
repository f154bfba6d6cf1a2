-- ===== src/Retry/Classify.antt =====
-- crates/ddm-core/src/retry/error.rs and classify.rs: the errors of a segment and their kinds.
-- `curl::Error` is the curl crate's: a type with the tests that classify.rs makes of it. A
-- `std::io::Error` is passed on and never looked into, so any type stands for it.
use debian_download_manager.Prelude.{
  ℕ, ◌%◌, ◌^◌, Bool, ◌&&◌, ◌||◌, leb, ◌==◌, if◌then◌else◌, ◌≡◌, ◌↔◌, ◌⊎◌, ◌≤◌, ◌<◌, arith,
}

pub data ErrorKind : Type 0 where
  timeout throttled connection : ErrorKind
  http5xx : ℕ → ErrorKind
  other : ErrorKind

-- The crate's error type and the tests on it.
pub record Curl : Type 1 where
  pub Error : Type 0
  pub is_operation_timedout : Error → Bool
  pub is_write_error : Error → Bool
  pub is_couldnt_connect : Error → Bool
  pub is_couldnt_resolve_host : Error → Bool
  pub is_couldnt_resolve_proxy : Error → Bool
  pub is_read_error : Error → Bool
  pub is_recv_error : Error → Bool
  pub is_send_error : Error → Bool
  pub is_got_nothing : Error → Bool

pub data SegmentError (c : Curl) (IoError : Type 0) : Type 0 where
  curl : c.Error → SegmentError c IoError
  http : ℕ → SegmentError c IoError
  invalid_range_response : ℕ → SegmentError c IoError
  partial_transfer : ℕ → ℕ → SegmentError c IoError
  storage : IoError → SegmentError c IoError

-- `code as u16` keeps the low 16 bits.
unfoldable pub classify_http_status : ℕ → ErrorKind
classify_http_status code =
    if (code == 429) || (code == 503)
    then throttled
    else if leb 500 code && leb code 599
    then http5xx (code % 2 ^ 16)
    else other

unfoldable pub classify_curl_error : (c : Curl) → c.Error → ErrorKind
classify_curl_error c e =
    if c.is_operation_timedout e
    then timeout
    else if c.is_write_error e
    then connection
    else if c.is_couldnt_connect e
        || c.is_couldnt_resolve_host e
        || c.is_couldnt_resolve_proxy e
        || c.is_read_error e
        || c.is_recv_error e
        || c.is_send_error e
        || c.is_got_nothing e
    then connection
    else other

unfoldable pub classify : {c : Curl} {IoError : Type 0} → SegmentError c IoError → ErrorKind
classify {c} (curl e) = classify_curl_error c e
classify (http code) = classify_http_status code
classify (invalid_range_response code) = other
classify (partial_transfer expected received) = connection
classify (storage e) = other

-- Exactly 429 and 503 count as throttling; exactly the other codes from 500 to 599 are kept as
-- server errors, with the code itself; every other code, and no other, is not retried.
pub classify_http_status_cases :
    (code : ℕ)
    → ((classify_http_status code ≡ throttled) ↔ ((code ≡ 429) ⊎ (code ≡ 503)))
      × ((classify_http_status code ≡ http5xx code)
          ↔ ((500 ≤ code) × (code ≤ 599) × ¬ (code ≡ 503)))
      × ((classify_http_status code ≡ other) ↔ (¬ (code ≡ 429) × ((code < 500) ⊎ (599 < code))))
unfolding classify_http_status
classify_http_status_cases code = (
  (λ e. ground arith, λ e. ground arith),
  (λ e. ground arith, λ e. ground arith),
  (λ e. ground arith, λ e. ground arith),
)
