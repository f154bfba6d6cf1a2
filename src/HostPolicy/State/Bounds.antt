-- ===== src/HostPolicy/State/Bounds.antt =====
-- The bounds that `HostPolicy` keeps, and the segment counts that lie between them.
use debian_download_manager.Prelude.{
  ℕ, zero, suc, ◌/◌, ◌≤◌, ◌<◌, min, max, ◌≡◌, some, arith, Option-cases, inl, inr, if◌then◌else◌,
}
use debian_download_manager.Prelude.Map.{lookup, lookup-insert}
use debian_download_manager.HostPolicy.Key.{HostKey, key_eq, host_key_eq}
use debian_download_manager.HostPolicy.State.{
  Floats, HostEntry, HostPolicy, halve_steps, new, default_adaptive_limit, recommended_max_segments,
  adaptive_segment_count, update_entry, or_new,
}

-- What `new` and `from_snapshot` establish.
pub record IsValid {fl : Floats} (p : HostPolicy fl) : Type 0 where
  pub positive : 0 < p.min_segments
  pub ordered : p.min_segments ≤ p.max_segments

-- Each halving stays between the minimum and what there was.
pub halve_steps_bounds :
    (steps m r : ℕ) → 0 < m → m ≤ r → (m ≤ halve_steps steps m r) × (halve_steps steps m r ≤ r)
unfolding halve_steps
halve_steps_bounds zero m r h k = omega arith
halve_steps_bounds (suc steps) m r h k =
    let (a, b) = halve_steps_bounds steps m (max (r / 2) (max m 1)) h (omega arith) in omega arith

module _ {fl : Floats} (p : HostPolicy fl) (key : HostKey) (v : IsValid p) where
  -- Between the configured bounds, however often the host throttled.
  pub recommended_bounds :
      (p.min_segments ≤ recommended_max_segments p key)
      × (recommended_max_segments p key ≤ p.max_segments)
  unfolding recommended_max_segments
  recommended_bounds = elim (Option-cases (lookup key p.entries)) [
    | inl e ↦ rw (e, recommended_max_segments) (omega arith)
    | inr (entry, e) ↦
        rw (e, recommended_max_segments)
          (let (a, b) =
              halve_steps_bounds (min (entry.throttled_events / 3) 3) p.min_segments
                (max (max p.max_segments p.min_segments) 1) v.positive (omega arith) in
            omega arith)
  ]

  -- The segment count for a host lies between the configured minimum and the recommended maximum,
  -- which lies below the configured maximum; so for hosts never seen and for any history.
  pub adaptive_segment_count_bounds :
      (p.min_segments ≤ adaptive_segment_count p key)
      × (adaptive_segment_count p key ≤ recommended_max_segments p key)
      × (recommended_max_segments p key ≤ p.max_segments)
  unfolding adaptive_segment_count default_adaptive_limit
  adaptive_segment_count_bounds = let (a, b) = recommended_bounds in ground arith

-- A new policy is valid whatever the configuration says.
pub new-IsValid : {fl : Floats} (a b : ℕ) → IsValid (new {fl = fl} a b)
unfolding new
new-IsValid a b = omega arith

-- What the change of one entry does to the policy: it keeps the bounds, changes no other host, and
-- creates the entry where the host is new.
pub lookup-update_entry :
    {fl : Floats} (p : HostPolicy fl) (key other : HostKey) (change : HostEntry fl → HostEntry fl)
    → lookup other (update_entry p key change).entries ≡ (
        if key_eq key other
        then some (change (or_new p key (lookup key p.entries)))
        else lookup other p.entries)
unfolding update_entry
lookup-update_entry p key other change = lookup-insert key other _ p.entries
