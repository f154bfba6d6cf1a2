-- ===== src/HostPolicy/State.antt =====
-- crates/ddm-core/src/host_policy/entry.rs, state/mod.rs and state/adaptive.rs: the entries and the
-- operations of `HostPolicy`. An `Instant` is a number that the caller hands in where the source
-- asks the clock. There are no floats here: `Floats` is the type f64 with the operations used.
pub mod Bounds
pub mod Adaptive
use debian_download_manager.Prelude.{
  ℕ, zero, suc, ◌+◌, ◌-◌, ◌/◌, ◌^◌, min, max, Bool, ◌||◌, [], Option, none, some, ltb,
  if◌then◌else◌,
}
use debian_download_manager.Prelude.Result.{Result, ok, ◌>>=◌}
use debian_download_manager.Prelude.Text.{Text}
use debian_download_manager.Prelude.Map.{Map, lookup, insert}
use debian_download_manager.HostPolicy.Key.{HostKey, UrlCrate, UrlError, from_url, host_key_eq}

pub record Floats : Type 1 where
  pub Float : Type 0
  -- `as f64` and integral literals
  pub of_ℕ : ℕ → Float
  -- `as_secs_f64` of a duration in nanoseconds
  pub secs : ℕ → Float
  pub div : Float → Float → Float
  pub lt : Float → Float → Bool
  pub le : Float → Float → Bool

pub data RangeSupport : Type 0 where
  unknown supported not_supported : RangeSupport

abbrev pub u32_max : ℕ
u32_max = 2 ^ 32 - 1

-- `saturating_add` on u32.
abbrev pub sat_add : ℕ → ℕ → ℕ
sat_add a b = min (a + b) u32_max

pub record HostEntry (fl : Floats) : Type 0 where
  pub key : HostKey
  pub range_support : RangeSupport
  pub last_throttled_at : Option ℕ
  pub throttled_events : ℕ
  pub last_error_at : Option ℕ
  pub error_events : ℕ
  pub last_success_at : Option ℕ
  pub success_events : ℕ
  pub last_throughput_bytes_per_sec : Option fl.Float
  pub adaptive_segment_limit : ℕ

pub record HostPolicy (fl : Floats) : Type 0 where
  pub entries : Map HostKey (HostEntry fl)
  pub min_segments : ℕ
  pub max_segments : ℕ

-- What a finished run tells: bytes, nanoseconds, throttle and error events.
pub record Outcome : Type 0 where
  pub bytes_downloaded : ℕ
  pub duration : ℕ
  pub throttle_events : ℕ
  pub error_events : ℕ

-- The penalty loop: one halving for each step.
unfoldable pub halve_steps : ℕ → ℕ → ℕ → ℕ
halve_steps zero min_seg recommended = recommended
halve_steps (suc steps) min_seg recommended =
    halve_steps steps min_seg (max (recommended / 2) (max min_seg 1))

unfoldable pub next_limit : ℕ → ℕ → ℕ
next_limit max_seg limit = if ltb limit 8 then 8 else if ltb limit 16 then 16 else min max_seg 16

module _ (fl : Floats) where
  unfoldable pub bytes_per_sec : Outcome → fl.Float
  bytes_per_sec o =
      if fl.lt (fl.of_ℕ 0) (fl.secs o.duration)
      then fl.div (fl.of_ℕ o.bytes_downloaded) (fl.secs o.duration)
      else fl.of_ℕ 0

  unfoldable pub adapted_limit : ℕ → ℕ → ℕ → Outcome → ℕ → ℕ
  adapted_limit min_seg max_seg cap o limit =
      if ltb 0 o.throttle_events || ltb 0 o.error_events
      then min (max (limit / 2) min_seg) max_seg
      else if fl.le (fl.of_ℕ 1_000_000) (bytes_per_sec o)
      then min (next_limit max_seg limit) cap
      else limit

module _ {fl : Floats} where
  unfoldable pub new_entry : HostKey → ℕ → HostEntry fl
  new_entry key default_adaptive_limit = record {
    key = key;
    range_support = unknown;
    last_throttled_at = none;
    throttled_events = 0;
    last_error_at = none;
    error_events = 0;
    last_success_at = none;
    success_events = 0;
    last_throughput_bytes_per_sec = none;
    adaptive_segment_limit = default_adaptive_limit;
  }

  unfoldable pub new : ℕ → ℕ → HostPolicy fl
  new min_segments max_segments = record {
    entries = [];
    min_segments = max min_segments 1;
    max_segments = max max_segments (max min_segments 1);
  }

  unfoldable pub default_adaptive_limit : HostPolicy fl → ℕ
  default_adaptive_limit policy = min (max 4 policy.min_segments) policy.max_segments

  unfoldable pub recommended_max_segments : HostPolicy fl → HostKey → ℕ
  recommended_max_segments policy key =
      let base = max (max policy.max_segments policy.min_segments) 1 in
      elim (lookup key policy.entries) [
        | none ↦ base
        | some entry ↦ halve_steps (min (entry.throttled_events / 3) 3) policy.min_segments base
      ]

  unfoldable pub adaptive_segment_count : HostPolicy fl → HostKey → ℕ
  adaptive_segment_count policy key =
      let cap = recommended_max_segments policy key in
      elim (lookup key policy.entries) [
        | none ↦ min (default_adaptive_limit policy) cap
        | some entry ↦
            min (max (min entry.adaptive_segment_limit cap) policy.min_segments) policy.max_segments
      ]

  -- `entry(key).or_insert_with(..)`, and a change of what the reference points to.
  unfoldable pub or_new : HostPolicy fl → HostKey → Option (HostEntry fl) → HostEntry fl
  or_new policy key none = new_entry key (default_adaptive_limit policy)
  or_new policy key (some entry) = entry

  unfoldable pub update_entry :
      HostPolicy fl → HostKey → (HostEntry fl → HostEntry fl) → HostPolicy fl
  update_entry policy key change = record policy {
    entries = insert key (change (or_new policy key (lookup key policy.entries))) policy.entries;
  }

  unfoldable pub set_range_support : Bool → HostEntry fl → HostEntry fl
  set_range_support accept_ranges entry = record entry {
    range_support = if accept_ranges then supported else not_supported;
  }

  unfoldable pub add_throttled : ℕ → HostEntry fl → HostEntry fl
  add_throttled now entry = record entry {
    throttled_events = sat_add entry.throttled_events 1;
    last_throttled_at = some now;
  }

  unfoldable pub add_error : ℕ → HostEntry fl → HostEntry fl
  add_error now entry = record entry {
    error_events = sat_add entry.error_events 1;
    last_error_at = some now;
  }

  unfoldable pub add_success : ℕ → HostEntry fl → HostEntry fl
  add_success now entry = record entry {
    success_events = sat_add entry.success_events 1;
    last_success_at = some now;
  }

  unfoldable pub apply_outcome : ℕ → ℕ → ℕ → ℕ → Outcome → HostEntry fl → HostEntry fl
  apply_outcome now min_seg max_seg cap o entry = record entry {
    last_throughput_bytes_per_sec = some (bytes_per_sec fl o);
    throttled_events =
        if ltb 0 o.throttle_events
        then sat_add entry.throttled_events o.throttle_events
        else entry.throttled_events;
    last_throttled_at = if ltb 0 o.throttle_events then some now else entry.last_throttled_at;
    error_events =
        if ltb 0 o.error_events
        then sat_add entry.error_events o.error_events
        else entry.error_events;
    last_error_at = if ltb 0 o.error_events then some now else entry.last_error_at;
    adaptive_segment_limit = adapted_limit fl min_seg max_seg cap o entry.adaptive_segment_limit;
  }

  -- The body of `record_job_outcome` for the key of the URL.
  unfoldable pub outcome_at : ℕ → Outcome → HostPolicy fl → HostKey → HostPolicy fl
  outcome_at now o policy key = update_entry policy key (
      apply_outcome now (max policy.min_segments 1) policy.max_segments
        (recommended_max_segments policy key) o)

module _ {fl : Floats} (crate : UrlCrate) where
  unfoldable pub record_head_result : Text → Bool → HostPolicy fl → Result UrlError (HostPolicy fl)
  record_head_result url accept_ranges policy = do
    key ← from_url crate url
    ok (update_entry policy key (set_range_support accept_ranges))

  unfoldable pub record_throttled : ℕ → Text → HostPolicy fl → Result UrlError (HostPolicy fl)
  record_throttled now url policy = do
    key ← from_url crate url
    ok (update_entry policy key (add_throttled now))

  unfoldable pub record_error : ℕ → Text → HostPolicy fl → Result UrlError (HostPolicy fl)
  record_error now url policy = do
    key ← from_url crate url
    ok (update_entry policy key (add_error now))

  unfoldable pub record_success : ℕ → Text → HostPolicy fl → Result UrlError (HostPolicy fl)
  record_success now url policy = do
    key ← from_url crate url
    ok (update_entry policy key (add_success now))

  unfoldable pub record_job_outcome :
      ℕ → Outcome → Text → HostPolicy fl → Result UrlError (HostPolicy fl)
  record_job_outcome now o url policy = do
    key ← from_url crate url
    ok (outcome_at now o policy key)

  unfoldable pub recommended_max_segments_for_url : Text → HostPolicy fl → Result UrlError ℕ
  recommended_max_segments_for_url url policy = do
    key ← from_url crate url
    ok (recommended_max_segments policy key)

  unfoldable pub adaptive_segment_count_for_url : Text → HostPolicy fl → Result UrlError ℕ
  adaptive_segment_count_for_url url policy = do
    key ← from_url crate url
    ok (adaptive_segment_count policy key)
