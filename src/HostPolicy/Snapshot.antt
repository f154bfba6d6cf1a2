-- ===== src/HostPolicy/Snapshot.antt =====
-- crates/ddm-core/src/host_policy/state/snapshot.rs: the snapshot that is saved as JSON, and the
-- policy restored from it. A `HashMap` is iterated in the order of its association list.
pub mod Laws
use debian_download_manager.Prelude.{ℕ, min, max, List, [], ◌∷◌, Option, none, some, map}
use debian_download_manager.Prelude.Text.{Text, text_eq, text_eq_iff}
use debian_download_manager.Prelude.Map.{Eq, Map, insert}
use debian_download_manager.HostPolicy.Key.{HostKey, to_string_key, from_string_key, host_key_eq}
use debian_download_manager.HostPolicy.State.{Floats, HostEntry, HostPolicy, RangeSupport}

pub record PersistedEntry (fl : Floats) : Type 0 where
  pub range_support : RangeSupport
  pub throttled_events : ℕ
  pub error_events : ℕ
  pub success_events : ℕ
  pub last_throughput_bytes_per_sec : Option fl.Float
  pub adaptive_segment_limit : ℕ

instance abbrev pub text_key : Eq Text
text_key = record { beq = text_eq; beq_iff = text_eq_iff }

pub record PersistedHostPolicy (fl : Floats) : Type 0 where
  pub version : ℕ
  pub min_segments : ℕ
  pub max_segments : ℕ
  pub entries : Map Text (PersistedEntry fl)

module _ {fl : Floats} where
  unfoldable pub persist_entry : HostEntry fl → PersistedEntry fl
  persist_entry e = record {
    range_support = e.range_support;
    throttled_events = e.throttled_events;
    error_events = e.error_events;
    success_events = e.success_events;
    last_throughput_bytes_per_sec = e.last_throughput_bytes_per_sec;
    adaptive_segment_limit = e.adaptive_segment_limit;
  }

  -- `map` and `collect`: the entries are inserted one after the other.
  unfoldable pub persist_entries :
      Map HostKey (HostEntry fl) → Map Text (PersistedEntry fl) → Map Text (PersistedEntry fl)
  persist_entries [] collected = collected
  persist_entries ((k, e) ∷ entries) collected =
      persist_entries entries (insert (to_string_key k) (persist_entry e) collected)

  unfoldable pub to_snapshot : HostPolicy fl → PersistedHostPolicy fl
  to_snapshot policy = record {
    version = 1;
    min_segments = policy.min_segments;
    max_segments = policy.max_segments;
    entries = persist_entries policy.entries [];
  }

  unfoldable pub restore_entry : ℕ → ℕ → HostKey → PersistedEntry fl → HostEntry fl
  restore_entry min_seg max_seg key pe = record {
    key = key;
    range_support = pe.range_support;
    last_throttled_at = none;
    throttled_events = pe.throttled_events;
    last_error_at = none;
    error_events = pe.error_events;
    last_success_at = none;
    success_events = pe.success_events;
    last_throughput_bytes_per_sec = pe.last_throughput_bytes_per_sec;
    adaptive_segment_limit = min (max pe.adaptive_segment_limit min_seg) max_seg;
  }

  -- `filter_map` and `collect`: an entry whose key cannot be parsed is dropped.
  unfoldable pub add_restored :
      ℕ
      → ℕ
      → Option HostKey
      → PersistedEntry fl
      → Map HostKey (HostEntry fl)
      → Map HostKey (HostEntry fl)
  add_restored min_seg max_seg none pe collected = collected
  add_restored min_seg max_seg (some key) pe collected =
      insert key (restore_entry min_seg max_seg key pe) collected

  unfoldable pub restore_entries :
      ℕ → ℕ → Map Text (PersistedEntry fl) → Map HostKey (HostEntry fl) → Map HostKey (HostEntry fl)
  restore_entries min_seg max_seg [] collected = collected
  restore_entries min_seg max_seg ((s, pe) ∷ entries) collected =
      restore_entries min_seg max_seg entries
        (add_restored min_seg max_seg (from_string_key s) pe collected)

  unfoldable pub from_snapshot : PersistedHostPolicy fl → ℕ → ℕ → HostPolicy fl
  from_snapshot snapshot min_segments max_segments =
      let min_seg = max min_segments 1 in
      let max_seg = max max_segments min_seg in
      record {
        entries = restore_entries min_seg max_seg snapshot.entries [];
        min_segments = min_seg;
        max_segments = max_seg;
      }
