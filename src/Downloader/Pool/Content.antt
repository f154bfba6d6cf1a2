-- ===== src/Downloader/Pool/Content.antt =====
-- The pool, the plan of segmenter/range.rs and the file that the workers of downloader/run.rs share.
use debian_download_manager.Prelude.{ℕ, ◌<◌, ◌≡◌, Bool, true, none, some, get_elem?}
use debian_download_manager.Prelude.Result.{ok, err}
use debian_download_manager.Retry.Classify.{Curl, SegmentError}
use debian_download_manager.Retry.Run.{SegmentResult}
use debian_download_manager.Segmenter.Range.{Segment, plan_segments}
use debian_download_manager.Segmenter.Range.Plan.{Holds}
use debian_download_manager.Segmenter.Bitmap.{SegmentBitmap, IsBytes, is_completed}
use debian_download_manager.Downloader.File.{File, StorageError}
use debian_download_manager.Downloader.Tally.{Task, incomplete_from}
use debian_download_manager.Downloader.Pool.{
  downloading, sending, returned, System, started, place, Step, downloaded, Reach, here, next,
}
use debian_download_manager.Prelude.Text.{Text}
use debian_download_manager.Downloader.Segment.{Exchange, download_one_segment}
use debian_download_manager.Downloader.Segment.Keeps.{
  Serves, download_one_segment-keeps, download_one_segment-right,
}
use debian_download_manager.Downloader.Pool.Outcomes.{outcomes_content, Step-more, Reach-more}

module _ (c : Curl) (content : File) (has_progress : Bool) (segment_count : ℕ) where
  -- No download ends in these steps.
  abbrev pub NoOutcome : Task → SegmentResult c StorageError → Type 0
  NoOutcome task result = ⊥

  -- The pool with the file that its workers share. Of the attempts of a worker, each may write to the
  -- file, and the last one gives the result that is sent. What an attempt writes are bytes of the
  -- content, each at its place, so that their order does not matter and the writes of one attempt are
  -- one step. An attempt that leaves the file as it was may have been answered in any way, by a
  -- response without ranges for instance; if it is not the last one, it is no step. A worker
  -- that panics is taken to leave the file as it was.
  pub data FileStep (s : System c) (file : File) : System c → File → Type 0 where
    moves : {t : System c} → Step NoOutcome has_progress segment_count s t → FileStep s file t file
    attempts :
        (i : ℕ) {task : Task} (transport : Text → Exchange c) (e : SegmentError c StorageError)
        (after : File)
        → get_elem? s.workers i ≡ some (downloading task)
        → Serves content c transport task.1
        → download_one_segment c transport task.1 file ≡ ok (err e, after)
        → FileStep s file s after
    transfers :
        (i : ℕ) {task : Task} (transport : Text → Exchange c)
        (result : SegmentResult c StorageError) (after : File)
        → get_elem? s.workers i ≡ some (downloading task)
        → Serves content c transport task.1
        → download_one_segment c transport task.1 file ≡ ok (result, after)
        → FileStep s file (place s i (sending (task.0, result))) after
    leaves_file :
        (i : ℕ) {task : Task} (transport : Text → Exchange c) (e : SegmentError c StorageError)
        → get_elem? s.workers i ≡ some (downloading task)
        → download_one_segment c transport task.1 file ≡ ok (err e, file)
        → FileStep s file (place s i (sending (task.0, err e))) file

  pub data FileReach (s : System c) (file : File) : System c → File → Type 0 where
    begin : FileReach s file s file
    and_then :
        {t u : System c} {g h : File}
        → FileReach s file t g
        → FileStep t g u h
        → FileReach s file u h

  -- A download that succeeded has left its segment right in the file.
  abbrev LeftIn : File → Task → SegmentResult c StorageError → Type 0
  LeftIn file task (ok done) = (y : ℕ) → Holds task.1 y → file y ≡ content y
  LeftIn file task (err e) = Unit

  -- Each byte that is right stays right.
  abbrev Keeps : File → File → Type 0
  Keeps f g = (y : ℕ) → f y ≡ content y → g y ≡ content y

  LeftIn-Keeps :
      (f g : File) (task : Task) (result : SegmentResult c StorageError)
      → Keeps f g
      → LeftIn f task result
      → LeftIn g task result
  LeftIn-Keeps f g task (ok done) k h = λ y inside. k y (h y inside)
  LeftIn-Keeps f g task (err e) k h = tt

  left_by :
      (transport : Text → Exchange c) (task : Task) (file after : File)
      (result : SegmentResult c StorageError)
      → Serves content c transport task.1
      → download_one_segment c transport task.1 file ≡ ok (result, after)
      → LeftIn after task result
  left_by transport task file after (ok tt) serves e =
      λ y. download_one_segment-right content c transport task.1 file after y serves e
  left_by transport task file after (err er) serves e = tt

  -- A run with the file is a run of the pool, whose successes are right in the file it leaves, and
  -- what was right before it is right after it.
  FileReach-Reach :
      {s : System c} {f : File} {t : System c} {g : File}
      → FileReach s f t g
      → Reach (LeftIn g) has_progress segment_count s t × Keeps f g
  FileReach-Reach begin = (here, λ y r. r)
  FileReach-Reach (and_then before (moves step)) =
      let (run, keeps) = FileReach-Reach before in
      (
        next run (Step-more has_progress segment_count (λ task result none. absurd none) step),
        keeps,
      )
  FileReach-Reach (and_then before (leaves_file i {task} transport e at done)) =
      let (run, keeps) = FileReach-Reach before in (next run (downloaded i (err e) at tt), keeps)
  FileReach-Reach (and_then {g = g} before (attempts i {task} transport e after at serves done)) =
      let (run, keeps) = FileReach-Reach before in
      let kept = λ (y : ℕ).
        download_one_segment-keeps content c transport task.1 g after (err e) y serves done in
      (
        Reach-more has_progress segment_count (λ t r. LeftIn-Keeps g after t r kept) run,
        λ y r. kept y (keeps y r),
      )
  FileReach-Reach
        (and_then {g = g} before (transfers i {task} transport result after at serves done)) =
      let (run, keeps) = FileReach-Reach before in
      let kept = λ (y : ℕ).
        download_one_segment-keeps content c transport task.1 g after result y serves done in
      (
        next (Reach-more has_progress segment_count (λ t r. LeftIn-Keeps g after t r kept) run)
            (downloaded i result at (left_by transport task g after result serves done)),
        λ y r. kept y (keeps y r),
      )

  -- Take a run of the pool over the segments that a bitmap of bytes leaves open in a plan of one
  -- segment at least, with the file that the workers write to, where each answer that succeeds or
  -- changes the file is a run of the content from the start of its segment on. If the marked
  -- segments hold the content in the file at the start, and the run returns without an error, then
  -- the file holds the whole content at the end, however the workers, their attempts, the user and
  -- the receiving loop interleaved.
  pub run_concurrent-content :
      (total count : ℕ) (b : SegmentBitmap) (max_concurrent : ℕ) (aborted : Bool) {t : System c}
      {file after : File} (x : ℕ)
      → 0 < count
      → IsBytes b.bytes
      → ((i : ℕ) (s : Segment)
          → get_elem? (plan_segments total count) i ≡ some s
          → is_completed b i ≡ true
          → (y : ℕ) → Holds s y
          → file y ≡ content y)
      → FileReach
          (started (incomplete_from b 0 (plan_segments total count)) max_concurrent aborted b)
          file
          t
          after
      → t.main ≡ returned
      → t.tally.first_error ≡ none
      → x < total
      → after x ≡ content x
  run_concurrent-content total count b m aborted {after = after} x pos bytes old run end fine lt =
      let (reached, keeps) = FileReach-Reach run in
      outcomes_content (LeftIn after) has_progress segment_count content after total count b m
        aborted x pos bytes (λ i s e marked y inside. keeps y (old i s e marked y inside))
        (λ task left. left) reached end fine lt
