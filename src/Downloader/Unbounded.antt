-- ===== src/Downloader/Unbounded.antt =====
-- crates/ddm-core/src/downloader/run/unbounded.rs: `run_unbounded`, and `download_segments` of
-- downloader/mod.rs where no maximum is given. The iterator that spawns and joins is lazy, so each
-- thread is joined before the next one is spawned: the downloads run one after the other, on a world
-- that they change. A download that panicked is `none`.
pub mod Laws
use debian_download_manager.Prelude.{
  ℕ, Bool, List, [], ◌∷◌, Option, none, some, length, if◌then◌else◌,
}
use debian_download_manager.Prelude.Result.{Result, ok, err}
use debian_download_manager.Retry.Classify.{Curl}
use debian_download_manager.Retry.Run.{SegmentResult}
use debian_download_manager.Segmenter.Range.{Segment}
use debian_download_manager.Segmenter.Bitmap.{SegmentBitmap}
use debian_download_manager.Downloader.File.{StorageError}
use debian_download_manager.Downloader.Tally.{
  Task, DownloadSummary, RunError, job_aborted, worker_panicked, Tally, fresh, keep_first,
  on_completed, on_failed, flush, incomplete_from,
}

module _ {c : Curl} where
  unfoldable pub on_joined :
      Bool → ℕ → ℕ → Option (SegmentResult c StorageError) → Tally c → Tally c
  on_joined p n index none t = keep_first worker_panicked t
  on_joined p n index (some (ok done)) t = on_completed p n index t
  on_joined p n index (some (err e)) t = on_failed index e t

  unfoldable pub collect :
      Bool → ℕ → List (ℕ × Option (SegmentResult c StorageError)) → Tally c → Tally c
  unfolding on_joined
  collect p n [] t = t
  collect p n ((index, result) ∷ results) t = collect p n results (on_joined p n index result t)

  module _ {W : Type 0} (download : Task → W → Option (SegmentResult c StorageError) × W)
      (has_progress : Bool) where
    unfoldable pub join_all : List Task → W → List (ℕ × Option (SegmentResult c StorageError)) × W
    join_all [] w = ([], w)
    join_all (task ∷ tasks) w =
        let (result, w') = download task w in
        let (results, w'') = join_all tasks w' in ((task.0, result) ∷ results, w'')

    unfoldable pub run_unbounded : ℕ → Bool → List Task → SegmentBitmap → W → Tally c × W
    unfolding join_all collect
    run_unbounded segment_count aborted tasks bitmap w =
        if aborted
        then (record (fresh bitmap) { first_error = some job_aborted }, w)
        else let (results, w') = join_all tasks w in
          (
            flush has_progress segment_count
                (collect has_progress segment_count results (fresh bitmap)),
            w',
          )

    -- With nothing to do the summary stays as it was.
    abbrev pub unless_empty :
        DownloadSummary → SegmentBitmap → W → List Task → Tally c × W → Tally c × W
    unless_empty summary bitmap w [] run = (record (fresh bitmap) { summary = summary }, w)
    unless_empty summary bitmap w (task ∷ tasks) run = run

    unfoldable pub download_segments :
        DownloadSummary → Bool → List Segment → SegmentBitmap → W → Tally c × W
    unfolding run_unbounded
    download_segments summary aborted segments bitmap w =
        let incomplete = incomplete_from bitmap 0 segments in
        unless_empty summary bitmap w incomplete
          (run_unbounded (length segments) aborted incomplete bitmap w)
