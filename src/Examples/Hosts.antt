-- ===== src/Examples/Hosts.antt =====
-- The policy of one host, with numbers for floats.
use debian_download_manager.Prelude.{
  ℕ, ◌/◌, ◌≤◌, ◌≡◌, ◌≢◌, refl, ap, [], ◌∷◌, map, some, none, ltb, leb, arith,
}
use debian_download_manager.Prelude.Text.{codes}
use debian_download_manager.HostPolicy.Key.{HostKey, to_string_key, from_string_key, host_key_eq}
use debian_download_manager.HostPolicy.Key.Laws.{from_string_key-colon_host}
use debian_download_manager.HostPolicy.State.{
  Floats, HostEntry, HostPolicy, supported, recommended_max_segments, adaptive_segment_count,
}
use debian_download_manager.HostPolicy.State.Bounds.{IsValid, adaptive_segment_count_bounds}
use debian_download_manager.HostPolicy.Snapshot.{to_snapshot, from_snapshot}
use debian_download_manager.HostPolicy.Snapshot.Laws.{IsPlain, restored, from_snapshot-to_snapshot}

abbrev pub whole : Floats
whole = record {
  Float = ℕ;
  of_ℕ = λ n. n;
  secs = λ n. n / 1_000_000_000;
  div = λ a b. a / b;
  lt = ltb;
  le = leb;
}

abbrev example_org : HostKey
example_org = record { scheme = codes "https"; host = codes "example.org"; port = 443 }

abbrev debian_org : HostKey
debian_org = record { scheme = codes "http"; host = codes "debian.org"; port = 80 }

abbrev six_address : HostKey
six_address = record { scheme = codes "http"; host = codes "[::1]"; port = 80 }

-- Eight throttle events and a limit of 8.
abbrev throttled_entry : HostEntry whole
throttled_entry = record {
  key = example_org;
  range_support = supported;
  last_throttled_at = some 5;
  throttled_events = 8;
  last_error_at = none;
  error_events = 0;
  last_success_at = none;
  success_events = 1;
  last_throughput_bytes_per_sec = some 70;
  adaptive_segment_limit = 8;
}

abbrev pub one_host : HostPolicy whole
one_host = record {
  entries = (example_org, throttled_entry) ∷ [];
  min_segments = 4;
  max_segments = 16;
}

one_host-IsValid : IsValid one_host
one_host-IsValid = record { positive = omega arith; ordered = omega arith }

from_string_key-colon_host_example : from_string_key (to_string_key six_address) ≡ none
from_string_key-colon_host_example =
    from_string_key-colon_host six_address (codes "[") (codes ":1]") (omega arith) (omega arith)
      refl

adaptive_segment_count_bounds_example :
    (4 ≤ adaptive_segment_count one_host example_org)
    × (adaptive_segment_count one_host example_org ≤ recommended_max_segments one_host example_org)
    × (recommended_max_segments one_host example_org ≤ 16)
adaptive_segment_count_bounds_example =
    adaptive_segment_count_bounds one_host example_org one_host-IsValid

keys_differ : example_org ≢ debian_org
keys_differ e =
    let ports : example_org.port ≡ debian_org.port = ap (λ (k : HostKey). k.port) e in omega arith

example_org-IsPlain : IsPlain example_org
example_org-IsPlain = record { scheme = omega arith; host = omega arith; port = omega arith }

from_snapshot-to_snapshot_example :
    (from_snapshot (to_snapshot one_host) 2 6).entries ≡ map (restored 2 6) one_host.entries
from_snapshot-to_snapshot_example =
    from_snapshot-to_snapshot one_host 2 6 (example_org-IsPlain, tt) (tt, tt)
