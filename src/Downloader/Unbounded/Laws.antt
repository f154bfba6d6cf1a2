-- ===== src/Downloader/Unbounded/Laws.antt =====
-- What `run_unbounded` has done when it returns without an error.
use debian_download_manager.Prelude.{
  ℕ, ◌<◌, ◌≡◌, refl, ◌⊎◌, inl, inr, Bool, true, false, List, [], ◌∷◌, Option, none, some, arith,
  ◌∙◌, get_elem?, Bool-cases, ◌||◌, ◌==◌, length,
}
use debian_download_manager.Prelude.Result.{ok, err}
use debian_download_manager.Retry.Classify.{Curl}
use debian_download_manager.Retry.Run.{SegmentResult}
use debian_download_manager.Segmenter.Range.{Segment}
use debian_download_manager.Segmenter.Bitmap.{SegmentBitmap, IsBytes, is_completed}
use debian_download_manager.Segmenter.Bitmap.Laws.{is_completed-set_completed}
use debian_download_manager.Segmenter.Bitmap.Bytes.{set_completed-IsBytes}
use debian_download_manager.Downloader.File.{StorageError}
use debian_download_manager.Downloader.Tally.{
  Task, DownloadSummary, RunError, segment_failed, worker_panicked, job_aborted, Tally, fresh,
  on_failed, count_failure, keep_first, incomplete_from,
}
use debian_download_manager.Downloader.Tally.Laws.{
  HasError, on_completed-bitmap, on_completed-first_error, flush-bitmap, flush-first_error,
  keep_first-HasError,
}
use debian_download_manager.Downloader.Tally.Open.{total, is, of_task, task_or_completed}
use debian_download_manager.Downloader.Unbounded.{
  on_joined, collect, join_all, run_unbounded, unless_empty, download_segments,
}

module _ {c : Curl} where
  -- With an error, an error stays.
  keep_first-keeps : (e : RunError c) (t : Tally c) → HasError t → HasError (keep_first e t)
  keep_first-keeps e t h = keep_first-HasError e t

  on_joined-HasError :
      (p : Bool) (n index : ℕ) (r : Option (SegmentResult c StorageError)) (t : Tally c)
      → HasError t
      → HasError (on_joined p n index r t)
  unfolding on_joined on_failed
  on_joined-HasError p n index none t h = keep_first-HasError worker_panicked t
  on_joined-HasError p n index (some (ok done)) t h =
      (h.0, rw (on_completed-first_error p n index t) h.1)
  on_joined-HasError p n index (some (err e)) t h =
      keep_first-HasError (segment_failed index e) (count_failure e t)

  collect-HasError :
      (p : Bool) (n : ℕ) (rs : List (ℕ × Option (SegmentResult c StorageError))) (t : Tally c)
      → HasError t
      → HasError (collect p n rs t)
  unfolding collect
  collect-HasError p n [] t h = h
  collect-HasError p n ((index, r) ∷ rs) t h =
      collect-HasError p n rs (on_joined p n index r t) (on_joined-HasError p n index r t h)

  -- A join without an error marks its segment and keeps the other marks.
  on_joined-marks :
      (p : Bool) (n index i : ℕ) (r : Option (SegmentResult c StorageError)) (t : Tally c)
      → IsBytes t.bitmap.bytes
      → HasError (on_joined p n index r t)
        ⊎ (IsBytes (on_joined p n index r t).bitmap.bytes
            × (is_completed (on_joined p n index r t).bitmap i
                ≡ ((index == i) || is_completed t.bitmap i)))
  unfolding on_joined on_failed
  on_joined-marks p n index i none t h = inl (keep_first-HasError worker_panicked t)
  on_joined-marks p n index i (some (err e)) t h =
      inl (keep_first-HasError (segment_failed index e) (count_failure e t))
  on_joined-marks p n index i (some (ok done)) t h = inr (
    rw (on_completed-bitmap p n index t) (set_completed-IsBytes t.bitmap index h),
    rw (on_completed-bitmap p n index t) (is_completed-set_completed t.bitmap index i h),
  )

  module _ {W : Type 0} (download : Task → W → Option (SegmentResult c StorageError) × W)
      (has_progress : Bool) where
    join_all-marks :
        (n i : ℕ) (tasks : List Task) (t : Tally c) (w : W)
        → IsBytes t.bitmap.bytes
        → (is_completed t.bitmap i ≡ true) ⊎ (0 < total (of_task (is i)) tasks)
        → HasError (collect has_progress n (join_all download has_progress tasks w).0 t)
          ⊎ (is_completed
                (collect has_progress n (join_all download has_progress tasks w).0 t).bitmap
                i
              ≡ true)
    unfolding collect join_all total
    join_all-marks n i [] t w h (inl marked) = inr marked
    join_all-marks n i [] t w h (inr none_left) = absurd (omega arith)
    join_all-marks n i (task ∷ tasks) t w h due =
        let (r, w') = download task w in
        let rest = (join_all download has_progress tasks w').0 in
        elim (on_joined-marks has_progress n task.0 i r t h) [
          | inl error ↦
              inl (collect-HasError has_progress n rest (on_joined has_progress n task.0 r t) error)
          | inr (h', marks) ↦
              join_all-marks n i tasks (on_joined has_progress n task.0 r t) w' h'
                (elim (Bool-cases (task.0 == i)) [
                  | inl same ↦ inl (marks ∙ rw same refl)
                  | inr differ ↦ elim due [
                    | inl marked ↦ inl (marks ∙ rw (differ, marked) refl)
                    | inr more ↦ inr (ground arith)
                  ]
                ])
        ]

    run_unbounded-marks :
        (n i : ℕ) (aborted : Bool) (tasks : List Task) (b : SegmentBitmap) (w : W)
        → IsBytes b.bytes
        → (is_completed b i ≡ true) ⊎ (0 < total (of_task (is i)) tasks)
        → HasError (run_unbounded download has_progress n aborted tasks b w).0
          ⊎ (is_completed (run_unbounded download has_progress n aborted tasks b w).0.bitmap i
              ≡ true)
    unfolding run_unbounded
    run_unbounded-marks n i true tasks b w h due = inl (job_aborted, refl)
    run_unbounded-marks n i false tasks b w h due =
        let all = collect has_progress n (join_all download has_progress tasks w).0 (fresh b) in
        elim (join_all-marks n i tasks (fresh b) w h due) [
          | inl (e, error) ↦ inl (e, flush-first_error has_progress n all ∙ error)
          | inr marked ↦ inr (rw (flush-bitmap has_progress n all) marked)
        ]

    unless_empty-marks :
        (summary : DownloadSummary) (n i : ℕ) (aborted : Bool) (tasks : List Task)
        (b : SegmentBitmap) (w : W)
        → IsBytes b.bytes
        → (is_completed b i ≡ true) ⊎ (0 < total (of_task (is i)) tasks)
        → (let run =
              unless_empty download has_progress summary b w tasks
                (run_unbounded download has_progress n aborted tasks b w) in
            HasError run.0 ⊎ (is_completed run.0.bitmap i ≡ true))
    unfolding total
    unless_empty-marks summary n i aborted [] b w h (inl marked) = inr marked
    unless_empty-marks summary n i aborted [] b w h (inr none_left) = absurd (omega arith)
    unless_empty-marks summary n i aborted (task ∷ tasks) b w h due =
        run_unbounded-marks n i aborted (task ∷ tasks) b w h due

    -- If `download_segments` without a maximum returns without an error, then the bitmap that it
    -- leaves marks every segment. Any results of the downloads are allowed, and panics, and the
    -- user's abort.
    pub download_segments-ok :
        (summary : DownloadSummary) (aborted : Bool) (segments : List Segment) (b : SegmentBitmap)
        (w : W) (i : ℕ) (s : Segment)
        → IsBytes b.bytes
        → (download_segments download has_progress summary aborted segments b w).0.first_error
          ≡ none
        → get_elem? segments i ≡ some s
        → is_completed
            (download_segments download has_progress summary aborted segments b w).0.bitmap
            i
          ≡ true
    unfolding download_segments
    download_segments-ok summary aborted segments b w i s h fine e =
        elim (unless_empty-marks summary (length segments) i aborted (incomplete_from b 0 segments)
          b w h (task_or_completed b 0 i i segments e (omega arith))) [
            | inl (error, kept) ↦ absurd (cc (kept, fine))
            | inr marked ↦ marked
          ]
