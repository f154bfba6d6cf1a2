-- ===== src/Scheduler/Choose/Laws.antt =====
-- Bounds of the segment count, the plan that follows from it, and the connections of a job.
use debian_download_manager.Prelude.{ℕ, ◌≤◌, ◌<◌, ◌≡◌, ◌⊎◌, max, arith, All, All-from_get}
use debian_download_manager.Prelude.Text.{Text}
use debian_download_manager.HostPolicy.Key.{UrlCrate}
use debian_download_manager.HostPolicy.State.{Floats, HostPolicy}
use debian_download_manager.Segmenter.Range.{plan_segments}
use debian_download_manager.Segmenter.Range.Plan.{
  plan_segments_bounds, Tiles, plan_segments_partition,
}
use debian_download_manager.Scheduler.Choose.{DdmConfig, choose_segment_count}

module _ {fl : Floats} (crate : UrlCrate) (total : ℕ) (cfg : DdmConfig) (url : Text)
    (policy : HostPolicy fl) where
  -- One segment at least, no more than the configured maximum, nor than the file has bytes; so for
  -- every configuration, and for a URL that does not parse.
  pub choose_segment_count_bounds :
      (1 ≤ choose_segment_count crate total cfg url policy)
      × (choose_segment_count crate total cfg url policy ≤ max cfg.max_segments 1)
      × ((total ≡ 0) ⊎ (choose_segment_count crate total cfg url policy ≤ total))
  unfolding choose_segment_count
  choose_segment_count_bounds = ground arith

  -- A file of at least one byte, planned with the chosen count, is cut into segments that lie end
  -- to end from its first byte to its last, and none of them is empty.
  chosen_plan :
      0 < total
      → Tiles 0 total (plan_segments total (choose_segment_count crate total cfg url policy))
        × All
            (λ s. (s.start < s.end) × (s.end ≤ total))
            (plan_segments total (choose_segment_count crate total cfg url policy))
  chosen_plan h =
      let (a, b, c) = choose_segment_count_bounds in
      let fits : choose_segment_count crate total cfg url policy ≤ total = omega arith in
      (
        (plan_segments_partition total _ h a).0,
        All-from_get _ _ λ i s e. plan_segments_bounds total _ i s a fits e,
      )
