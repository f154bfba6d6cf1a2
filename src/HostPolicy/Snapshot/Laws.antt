-- ===== src/HostPolicy/Snapshot/Laws.antt =====
-- The policy that comes back from its snapshot.
use mathlib.Core.List.{append-nil, append_assoc}
use mathlib.Core.Option.{some-injective}
use debian_download_manager.Prelude.{
  ℕ, min, max, ◌≤◌, ◌≡◌, ◌≢◌, refl, sym, ap, ◌∙◌, All, map, [], ◌∷◌, ◌++◌, none, arith, Bool-cases,
  inl, inr,
}
use debian_download_manager.Prelude.Text.{Text, Lacks, text_eq, text_eq_iff}
use debian_download_manager.Prelude.Map.{Map, lookup, insert, lookup-insert, insert-new, Distinct}
use debian_download_manager.HostPolicy.Key.{
  HostKey, u16_max, key_eq, key_eq_iff, host_key_eq, to_string_key, from_string_key,
}
use debian_download_manager.HostPolicy.Key.Laws.{from_string_key-to_string_key}
use debian_download_manager.HostPolicy.State.{Floats, HostEntry, HostPolicy}
use debian_download_manager.HostPolicy.State.Bounds.{IsValid}
use debian_download_manager.HostPolicy.Snapshot.{
  PersistedEntry, PersistedHostPolicy, text_key, persist_entry, persist_entries, to_snapshot,
  restore_entry, add_restored, restore_entries, from_snapshot,
}

-- The bounds of a restored policy come from the configuration alone.
pub from_snapshot-IsValid :
    {fl : Floats} (s : PersistedHostPolicy fl) (a b : ℕ) → IsValid (from_snapshot s a b)
unfolding from_snapshot
from_snapshot-IsValid s a b = omega arith

-- Keys that their text form can carry.
pub record IsPlain (k : HostKey) : Type 0 where
  pub scheme : Lacks b':' k.scheme
  pub host : Lacks b':' k.host
  pub port : k.port ≤ u16_max

to_string_key-injective :
    (a b : HostKey) → IsPlain a → IsPlain b → to_string_key a ≡ to_string_key b → a ≡ b
to_string_key-injective a b p q e = some-injective _ _ (
    sym (from_string_key-to_string_key a p.scheme p.host p.port)
    ∙ ap from_string_key e
    ∙ from_string_key-to_string_key b q.scheme q.host q.port)

abbrev pub Entries : Floats → Type 0
Entries fl = Map HostKey (HostEntry fl)

module _ {fl : Floats} where
  abbrev saved : HostKey × HostEntry fl → Text × PersistedEntry fl
  saved x = (to_string_key x.0, persist_entry x.1)

  -- The entry that is expected back, under the bounds `a` and `b`.
  abbrev pub restored : ℕ → ℕ → HostKey × HostEntry fl → HostKey × HostEntry fl
  restored a b (key, e) = (
    key,
    record {
      key = key;
      range_support = e.range_support;
      last_throttled_at = none;
      throttled_events = e.throttled_events;
      last_error_at = none;
      error_events = e.error_events;
      last_success_at = none;
      success_events = e.success_events;
      last_throughput_bytes_per_sec = e.last_throughput_bytes_per_sec;
      adaptive_segment_limit = min (max e.adaptive_segment_limit a) b;
    },
  )

  abbrev NotIn : Map Text (PersistedEntry fl) → HostKey × HostEntry fl → Type 0
  NotIn m x = lookup (to_string_key x.0) m ≡ none

  still_NotIn :
      (k : HostKey) (v : PersistedEntry fl) (m : Map Text (PersistedEntry fl)) (es : Entries fl)
      → IsPlain k
      → All (λ (x : HostKey × HostEntry fl). IsPlain x.0) es
      → All (λ (x : HostKey × HostEntry fl). k ≢ x.0) es
      → All (NotIn m) es
      → All (NotIn (insert (to_string_key k) v m)) es
  still_NotIn k v m [] p ps ds fs = tt
  still_NotIn k v m ((j, e) ∷ es) p ps ds fs = (
    elim (Bool-cases (text_eq (to_string_key k) (to_string_key j))) [
      | inl same ↦ absurd (ds.0 (to_string_key-injective k j p ps.0 ((text_eq_iff _ _).0 same)))
      | inr differ ↦ lookup-insert (to_string_key k) (to_string_key j) v m ∙ rw differ fs.0
    ],
    still_NotIn k v m es p ps.1 ds.1 fs.1,
  )

  persist_entries-map :
      (es : Entries fl) (m : Map Text (PersistedEntry fl))
      → All (λ (x : HostKey × HostEntry fl). IsPlain x.0) es
      → Distinct es
      → All (NotIn m) es
      → persist_entries es m ≡ m ++ map saved es
  unfolding persist_entries
  persist_entries-map [] m ps ds fs = sym (append-nil m)
  persist_entries-map ((k, e) ∷ es) m ps ds fs =
      persist_entries-map es (insert (to_string_key k) (persist_entry e) m) ps.1 ds.1
        (still_NotIn k (persist_entry e) m es ps.0 ps.1 ds.0 fs.1)
      ∙ ap (λ l. l ++ map saved es) (insert-new (to_string_key k) (persist_entry e) m fs.0)
      ∙ append_assoc m ((to_string_key k, persist_entry e) ∷ []) (map saved es)

  abbrev Absent : Entries fl → HostKey × HostEntry fl → Type 0
  Absent m x = lookup x.0 m ≡ none

  still_Absent :
      (k : HostKey) (v : HostEntry fl) (m es : Entries fl)
      → All (λ (x : HostKey × HostEntry fl). k ≢ x.0) es
      → All (Absent m) es
      → All (Absent (insert k v m)) es
  still_Absent k v m [] ds fs = tt
  still_Absent k v m ((j, e) ∷ es) ds fs = (
    elim (Bool-cases (key_eq k j)) [
      | inl same ↦ absurd (ds.0 ((key_eq_iff k j).0 same))
      | inr differ ↦ lookup-insert k j v m ∙ rw differ fs.0
    ],
    still_Absent k v m es ds.1 fs.1,
  )

  module _ (a b : ℕ) where
    restore_entries-map :
        (es m : Entries fl)
        → All (λ (x : HostKey × HostEntry fl). IsPlain x.0) es
        → Distinct es
        → All (Absent m) es
        → restore_entries a b (map saved es) m ≡ m ++ map (restored a b) es
    unfolding restore_entries add_restored restore_entry persist_entry
    restore_entries-map [] m ps ds fs = sym (append-nil m)
    restore_entries-map ((k, e) ∷ es) m ps ds fs =
        let v = restore_entry a b k (persist_entry e) in
        ap (λ o. restore_entries a b (map saved es) (add_restored a b o (persist_entry e) m))
          (from_string_key-to_string_key k ps.0.scheme ps.0.host ps.0.port)
        ∙ restore_entries-map es (insert k v m) ps.1 ds.1 (still_Absent k v m es ds.0 fs.1)
        ∙ ap (λ l. l ++ map (restored a b) es) (insert-new k v m fs.0)
        ∙ append_assoc m ((k, v) ∷ []) (map (restored a b) es)

-- The distinct keys of a policy are fresh for the empty map.
fresh : {fl : Floats} (es : Entries fl) → All (NotIn []) es
unfolding lookup
fresh [] = tt
fresh (x ∷ es) = (refl, fresh es)

absent : {fl : Floats} (es : Entries fl) → All (Absent []) es
unfolding lookup
absent [] = tt
absent (x ∷ es) = (refl, absent es)

-- Saving a policy and restoring it under a configuration gives every host back, in order, under
-- its key: the counters, the range support and the throughput as they were, no time stamps, and
-- the segment limit brought within the bounds of the configuration. The keys must be distinct,
-- hold no colon in scheme and host, and have a u16 port.
pub from_snapshot-to_snapshot :
    {fl : Floats} (p : HostPolicy fl) (a b : ℕ)
    → All (λ (x : HostKey × HostEntry fl). IsPlain x.0) p.entries
    → Distinct p.entries
    → (from_snapshot (to_snapshot p) a b).entries
      ≡ map (restored (max a 1) (max b (max a 1))) p.entries
unfolding from_snapshot to_snapshot
from_snapshot-to_snapshot p a b ps ds =
    ap (λ m. restore_entries (max a 1) (max b (max a 1)) m [])
      (persist_entries-map p.entries [] ps ds (fresh p.entries))
    ∙ restore_entries-map (max a 1) (max b (max a 1)) p.entries [] ps ds (absent p.entries)
