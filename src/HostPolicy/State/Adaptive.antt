-- ===== src/HostPolicy/State/Adaptive.antt =====
-- How a finished run moves the segment count of its host, and that it moves no other.
use debian_download_manager.Prelude.{
  ℕ, zero, suc, ◌/◌, ◌≤◌, ◌<◌, min, max, ◌≡◌, ◌≢◌, refl, ◌∙◌, sym, ap, Bool-cases, ◌⊎◌, some, arith,
  inl, inr,
}
use debian_download_manager.Prelude.Map.{lookup}
use debian_download_manager.HostPolicy.Key.{HostKey, key_eq, key_eq_iff, host_key_eq}
use debian_download_manager.HostPolicy.State.{
  Floats, HostEntry, HostPolicy, Outcome, halve_steps, new_entry, default_adaptive_limit,
  recommended_max_segments, adaptive_segment_count, update_entry, apply_outcome, adapted_limit,
  next_limit, outcome_at, or_new,
}
use debian_download_manager.HostPolicy.State.Bounds.{
  IsValid, halve_steps_bounds, recommended_bounds, lookup-update_entry,
}

halve_steps_mono : (steps m r s : ℕ) → r ≤ s → halve_steps steps m r ≤ halve_steps steps m s
unfolding halve_steps
halve_steps_mono zero m r s h = h
halve_steps_mono (suc steps) m r s h = halve_steps_mono steps m _ _ (omega arith)

-- More penalty steps recommend no more segments.
more_steps : (a b m r : ℕ) → 0 < m → m ≤ r → a ≤ b → halve_steps b m r ≤ halve_steps a m r
unfolding halve_steps
more_steps zero b m r h k le = (halve_steps_bounds b m r h k).1
more_steps (suc a) zero m r h k le = absurd (omega arith)
more_steps (suc a) (suc b) m r h k le =
    more_steps a b m (max (r / 2) (max m 1)) h (omega arith) (omega arith)

module _ {fl : Floats} (p : HostPolicy fl) (key : HostKey) (v : IsValid p) where
  -- The recommendation and the count, by the entry that is found.
  recommended-found :
      (q : HostPolicy fl) (e : HostEntry fl)
      → lookup key q.entries ≡ some e
      → recommended_max_segments q key
        ≡ halve_steps
            (min (e.throttled_events / 3) 3)
            q.min_segments
            (max (max q.max_segments q.min_segments) 1)
  unfolding recommended_max_segments
  recommended-found q e h = rw (h, recommended_max_segments)

  count-found :
      (q : HostPolicy fl) (e : HostEntry fl)
      → lookup key q.entries ≡ some e
      → adaptive_segment_count q key
        ≡ min
            (max (min e.adaptive_segment_limit (recommended_max_segments q key)) q.min_segments)
            q.max_segments
  unfolding adaptive_segment_count
  count-found q e h = rw (h, adaptive_segment_count)

  -- The entry after a run, and that it is the one that is found.
  module _ (now : ℕ) (o : Outcome) where
    abbrev entry : HostEntry fl
    entry = or_new p key (lookup key p.entries)

    abbrev entry' : HostEntry fl
    entry' =
        apply_outcome now (max p.min_segments 1) p.max_segments (recommended_max_segments p key) o
          entry

    found_after : lookup key (outcome_at now o p key).entries ≡ some entry'
    unfolding outcome_at
    found_after = lookup-update_entry p key key _ ∙ rw ((key_eq_iff key key).1 refl)

    -- The count before, written for the entry that a new host gets.
    count_before :
        adaptive_segment_count p key
        ≡ min
            (max (min entry.adaptive_segment_limit (recommended_max_segments p key)) p.min_segments)
            p.max_segments
    unfolding adaptive_segment_count or_new new_entry default_adaptive_limit
    count_before = let (a, b) = recommended_bounds p key v in ground arith

    recommended_before :
        recommended_max_segments p key
        ≡ halve_steps
            (min (entry.throttled_events / 3) 3)
            p.min_segments
            (max (max p.max_segments p.min_segments) 1)
    unfolding recommended_max_segments or_new new_entry halve_steps
    recommended_before = ground arith

    count_after :
        adaptive_segment_count (outcome_at now o p key) key
        ≡ min
            (max
              (min entry'.adaptive_segment_limit
                (recommended_max_segments (outcome_at now o p key) key))
              p.min_segments)
            p.max_segments
    unfolding outcome_at update_entry
    count_after = count-found (outcome_at now o p key) entry' found_after

    recommended_after :
        recommended_max_segments (outcome_at now o p key) key
        ≡ halve_steps
            (min (entry'.throttled_events / 3) 3)
            p.min_segments
            (max (max p.max_segments p.min_segments) 1)
    unfolding outcome_at update_entry
    recommended_after = recommended-found (outcome_at now o p key) entry' found_after

    steps_grow : min (entry.throttled_events / 3) 3 ≤ min (entry'.throttled_events / 3) 3
    unfolding apply_outcome
    steps_grow = ground arith

    recommended_falls :
        recommended_max_segments (outcome_at now o p key) key ≤ recommended_max_segments p key
    recommended_falls =
        let shrinks =
          more_steps (min (entry.throttled_events / 3) 3) (min (entry'.throttled_events / 3) 3)
            p.min_segments (max (max p.max_segments p.min_segments) 1) v.positive (omega arith)
            steps_grow in
        omega (arith, recommended_after, recommended_before, shrinks)

    limit_halved :
        (0 < o.throttle_events) ⊎ (0 < o.error_events)
        → entry'.adaptive_segment_limit
          ≡ min (max (entry.adaptive_segment_limit / 2) (max p.min_segments 1)) p.max_segments
    unfolding apply_outcome adapted_limit
    limit_halved h = ground arith

    -- A run with a throttle or an error event never raises the segment count of its host, nor the
    -- recommended maximum.
    outcome_at-lowers :
        (0 < o.throttle_events) ⊎ (0 < o.error_events)
        → (adaptive_segment_count (outcome_at now o p key) key ≤ adaptive_segment_count p key)
          × (recommended_max_segments (outcome_at now o p key) key ≤ recommended_max_segments p key)
    outcome_at-lowers h =
        let half = limit_halved h in
        let positive = v.positive in
        (omega (arith, count_after, count_before, recommended_falls), recommended_falls)

    -- Without events the recommendation stands, and the limit stays or steps up under it.
    recommended_stays :
        o.throttle_events ≡ 0
        → recommended_max_segments (outcome_at now o p key) key ≡ recommended_max_segments p key
    unfolding apply_outcome
    recommended_stays h =
        let same : entry'.throttled_events ≡ entry.throttled_events = ground arith in
        recommended_after
        ∙ ap
            (λ t.
              halve_steps (min (t / 3) 3) p.min_segments
                (max (max p.max_segments p.min_segments) 1))
            same
        ∙ sym recommended_before

    limit_steps_up :
        o.throttle_events ≡ 0
        → o.error_events ≡ 0
        → entry.adaptive_segment_limit ≤ max 16 p.min_segments
        → min
            (min entry.adaptive_segment_limit (max 16 p.min_segments))
            (recommended_max_segments p key)
          ≤ max entry'.adaptive_segment_limit p.min_segments
    unfolding apply_outcome adapted_limit next_limit
    limit_steps_up h k le = let (a, b) = recommended_bounds p key v in ground arith

    -- A run without events never lowers the segment count of its host, as long as the host's limit
    -- is no higher than 16 or the configured minimum, whichever is more.
    outcome_at-raises :
        o.throttle_events ≡ 0
        → o.error_events ≡ 0
        → entry.adaptive_segment_limit ≤ max 16 p.min_segments
        → adaptive_segment_count p key ≤ adaptive_segment_count (outcome_at now o p key) key
    outcome_at-raises h k le =
        let up = limit_steps_up h k le in
        let same = recommended_stays h in omega (arith, count_after, count_before)

lookup-outcome_at :
    {fl : Floats} (p : HostPolicy fl) (key other : HostKey) (now : ℕ) (o : Outcome)
    → key ≢ other
    → lookup other (outcome_at now o p key).entries ≡ lookup other p.entries
unfolding outcome_at
lookup-outcome_at p key other now o h = elim (Bool-cases (key_eq key other)) [
  | inl same ↦ absurd (h ((key_eq_iff key other).0 same))
  | inr differ ↦ lookup-update_entry p key other _ ∙ rw differ
]

module _ {fl : Floats} (p q : HostPolicy fl) (key : HostKey) where
  -- The counts look at the bounds and at the entry of the host.
  recommended_cong :
      q.min_segments ≡ p.min_segments
      → q.max_segments ≡ p.max_segments
      → lookup key q.entries ≡ lookup key p.entries
      → recommended_max_segments q key ≡ recommended_max_segments p key
  unfolding recommended_max_segments
  recommended_cong a b e = ground arith

  count_cong :
      q.min_segments ≡ p.min_segments
      → q.max_segments ≡ p.max_segments
      → lookup key q.entries ≡ lookup key p.entries
      → adaptive_segment_count q key ≡ adaptive_segment_count p key
  unfolding adaptive_segment_count default_adaptive_limit
  count_cong a b e = ground (arith, recommended_cong a b e)

-- A run of one host leaves the counts of every other host alone.
pub outcome_at-other :
    {fl : Floats} (p : HostPolicy fl) (key other : HostKey) (now : ℕ) (o : Outcome)
    → key ≢ other
    → (adaptive_segment_count (outcome_at now o p key) other ≡ adaptive_segment_count p other)
      × (recommended_max_segments (outcome_at now o p key) other ≡ recommended_max_segments p other)
unfolding outcome_at update_entry
outcome_at-other p key other now o h =
    let same = lookup-outcome_at p key other now o h in
    (
      count_cong p (outcome_at now o p key) other refl refl same,
      recommended_cong p (outcome_at now o p key) other refl refl same,
    )
