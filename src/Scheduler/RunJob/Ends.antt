-- ===== src/Scheduler/RunJob/Ends.antt =====
-- A run by segments does not leave its job running, if the download keeps its word; and a stored
-- segment count of 0.
use debian_download_manager.Prelude.{
  ℕ, ◌≡◌, refl, ap, subst, ◌∙◌, inl, inr, Bool, true, false, List, [], some, ◌<◌, arith, length,
  get_elem?,
}
use debian_download_manager.Prelude.Result.{Result, ok, err}
use debian_download_manager.Prelude.Text.{Text}
use debian_download_manager.HostPolicy.Key.{UrlCrate}
use debian_download_manager.HostPolicy.State.{Floats}
use debian_download_manager.ResumeDb.Types.{JobDetails, JobState, paused, completed, error}
use debian_download_manager.ResumeDb.Jobs.{Json}
use debian_download_manager.Segmenter.Range.{Segment, plan_segments}
use debian_download_manager.Segmenter.Range.Plan.{plan_segments_partition}
use debian_download_manager.Segmenter.Bitmap.{
  SegmentBitmap, IsBytes, from_bytes, is_completed, all_completed,
}
use debian_download_manager.Segmenter.Bitmap.Bytes.{bitmap-IsBytes}
use debian_download_manager.Segmenter.Bitmap.Laws.{get_elem?-total}
use debian_download_manager.Segmenter.Bitmap.Complete.{all_completed_iff}
use debian_download_manager.Downloader.Tally.{DownloadSummary}
use debian_download_manager.Scheduler.Choose.{DdmConfig}
use debian_download_manager.Scheduler.Execute.{
  Failure, Download, done, aborted, broke, Answers, World,
}
use debian_download_manager.Scheduler.RunJob.{Names, in_the_way, run_segments}
use debian_download_manager.Scheduler.RunJob.States.{StateIs, Went, Settles, run_segments-Settles}

-- A download that marks the whole plan where it returns without an error, as the downloader's
-- `run_concurrent-ok` and `download_segments-ok` say of theirs.
pub record MarksAll (download : List Segment → SegmentBitmap → Download) : Type 0 where
  pub marks :
      (segments : List Segment) (before : SegmentBitmap) (i : ℕ) (s : Segment) (b : SegmentBitmap)
      (summary : DownloadSummary)
      → IsBytes before.bytes
      → download segments before ≡ done b summary
      → get_elem? segments i ≡ some s
      → is_completed b i ≡ true
  pub bytes :
      (segments : List Segment) (before b : SegmentBitmap) (summary : DownloadSummary)
      → IsBytes before.bytes
      → download segments before ≡ done b summary
      → IsBytes b.bytes

all_marked :
    (download : List Segment → SegmentBitmap → Download) (m : MarksAll download) (total count : ℕ)
    (before b : SegmentBitmap) (summary : DownloadSummary)
    → IsBytes before.bytes
    → 0 < total
    → 0 < count
    → download (plan_segments total count) before ≡ done b summary
    → all_completed b count ≡ true
all_marked download m total count before b summary v h k e =
    let segments = plan_segments total count in
    let size : length segments ≡ count = (plan_segments_partition total count h k).1 in
    (all_completed_iff b count (m.bytes segments before b summary v e)).1 λ i lt.
      let (s, there) = get_elem?-total segments i (omega arith) in
      m.marks segments before i s b summary v e there

all_completed-zero : (b : SegmentBitmap) → all_completed b 0 ≡ true
unfolding all_completed
all_completed-zero b = refl

plan_segments-zero : (total : ℕ) → plan_segments total 0 ≡ []
unfolding plan_segments
plan_segments-zero total = ground arith

module _ {fl : Floats} (crate : UrlCrate) (now id : ℕ) (a : Answers) where
  module _ (json : Json) (cfg : DdmConfig) (final_exists : Text → Bool) (overwrite : Bool) where
    -- What the download came to, and the state that goes with it.
    abbrev pub Ends : Download → Result Failure Unit × World fl → Type 0
    Ends aborted (ok x, w) = StateIs id paused w.db
    Ends broke (ok x, w) = ⊥
    Ends (done b summary) (ok x, w) = StateIs id completed w.db
    Ends d (err e, w) = StateIs id error w.db

    ended :
        (count : ℕ) (d : Download) (x : Result Failure Unit × World fl)
        → ((b : SegmentBitmap) (summary : DownloadSummary)
            → d ≡ done b summary
            → all_completed b count ≡ true)
        → Settles crate now id a json cfg final_exists overwrite count d x
        → Ends d x
    ended count aborted (ok x, w) all h = h
    ended count broke (ok x, w) all h = h
    ended count (done b summary) (ok x, w) all (inl (h, whole)) = h
    ended count (done b summary) (ok x, w) all (inr (h, part)) =
        absurd (cc (all b summary refl, part))
    ended count aborted (err e, w) all h = h
    ended count broke (err e, w) all h = h
    ended count (done b summary) (err e, w) all h = h

    -- A run by segments of a job in the table with a size and a segment count of at least 1, no
    -- file in the way, and a download that marks the whole plan where it returns without an error:
    -- if the run returns without an error, the job is paused where the user aborted the download,
    -- and completed where the download returned a bitmap, and the download has not failed; if the
    -- run returns an error, the job's state is error. It is not left running.
    pub run_segments-ends :
        (names : Names) (job : JobDetails) (w : World fl) (s : JobState) (total_size : ℕ)
        → MarksAll a.download
        → IsBytes job.completed_bitmap
        → StateIs id s w.db
        → job.total_size ≡ some total_size
        → 0 < total_size
        → 0 < job.segment_count
        → in_the_way final_exists overwrite job names.final_name ≡ false
        → Ends
            (a.download
              (plan_segments total_size job.segment_count)
              (from_bytes job.completed_bitmap job.segment_count))
            (run_segments crate json cfg now id a final_exists overwrite names job w)
    run_segments-ends names job w s total_size m v h size some_bytes some_segments clear =
        let segments = plan_segments total_size job.segment_count in
        let before = from_bytes job.completed_bitmap job.segment_count in
        ended job.segment_count (a.download segments before)
          (run_segments crate json cfg now id a final_exists overwrite names job w)
          (λ b summary e.
            all_marked a.download m total_size job.segment_count before b summary
              (bitmap-IsBytes (record { bytes = [] }) job.completed_bitmap job.segment_count 0 tt
                v).1
              some_bytes some_segments e)
          (run_segments-Settles crate now id a json cfg final_exists overwrite names job w s
            total_size h size clear)

    nothing_left :
        (count : ℕ) (b : SegmentBitmap) (summary : DownloadSummary) {d : Download}
        {x : Result Failure Unit × World fl} {w' : World fl}
        → count ≡ 0
        → d ≡ done b summary
        → x ≡ (ok tt, w')
        → Settles crate now id a json cfg final_exists overwrite count d x
        → StateIs id completed w'.db
    nothing_left count b summary {d = d} {w' = w'} empty e fine h =
        let h' : Went id count (done b summary) w'.db =
          subst (λ d. Settles crate now id a json cfg final_exists overwrite count d (ok tt, w')) e
            (subst (λ x. Settles crate now id a json cfg final_exists overwrite count d x) fine
              h) in
        elim h' [
          | inl (whole, _) ↦ whole
          | inr (_, part) ↦ absurd (cc (all_completed-zero b, ap (all_completed b) empty, part))
        ]

    -- With a stored segment count of 0 the plan is empty: if the download returns and nothing
    -- fails, the job is completed, whatever its size.
    pub run_segments-nothing :
        (names : Names) (job : JobDetails) (w : World fl) (s : JobState) (total_size : ℕ)
        (b : SegmentBitmap) (summary : DownloadSummary) {w' : World fl}
        → StateIs id s w.db
        → job.total_size ≡ some total_size
        → job.segment_count ≡ 0
        → in_the_way final_exists overwrite job names.final_name ≡ false
        → a.download [] (from_bytes job.completed_bitmap 0) ≡ done b summary
        → run_segments crate json cfg now id a final_exists overwrite names job w ≡ (ok tt, w')
        → StateIs id completed w'.db
    run_segments-nothing names job w s total_size b summary h size empty clear returns fine =
        let e =
          ap
            (λ (n : ℕ). a.download (plan_segments total_size n) (from_bytes job.completed_bitmap n))
            empty in
        nothing_left job.segment_count b summary empty
          (e
            ∙ ap (λ (ss : List Segment). a.download ss (from_bytes job.completed_bitmap 0))
                (plan_segments-zero total_size)
            ∙ returns)
          fine
          (run_segments-Settles crate now id a json cfg final_exists overwrite names job w s
            total_size h size clear)
