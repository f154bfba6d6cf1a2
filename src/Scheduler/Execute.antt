-- ===== src/Scheduler/Execute.antt =====
-- crates/ddm-core/src/scheduler/execute: the download phase of a job and the single-stream one, on
-- the job table and the host policy; and run_progress_persistence_loop. What the file system, the download and the background task of
-- the progress answer is given; the statements of the database succeed. `now` stands for the
-- timestamps of the statements and the clock of the policy.
pub mod Laws
pub mod Progress
use debian_download_manager.Prelude.{
  ℕ, zero, suc, ◌+◌, ◌-◌, ◌^◌, min, max, Bool, true, false, not, ◌&&◌, List, [], ◌∷◌, Option, none,
  some, if◌then◌else◌,
}
use debian_download_manager.Prelude.Result.{Result, ok, err}
use debian_download_manager.Prelude.Text.{Text}
use debian_download_manager.HostPolicy.Key.{UrlCrate}
use debian_download_manager.HostPolicy.State.{Floats, HostPolicy, Outcome, record_job_outcome}
use debian_download_manager.ResumeDb.Types.{JobDetails, JobMetadata, JobState, paused, completed}
use debian_download_manager.ResumeDb.Jobs.{ResumeDb, update_metadata, update_bitmap, set_state}
use debian_download_manager.Segmenter.Range.{Segment}
use debian_download_manager.Segmenter.Bitmap.{
  SegmentBitmap, from_bytes, is_completed, all_completed, to_bytes,
}
use debian_download_manager.Downloader.Tally.{DownloadSummary}

pub data Failure : Type 0 where
  not_found json_failed probe_failed remote_changed file_exists : Failure
  remove_failed open_failed download_failed join_failed sync_failed finalize_failed : Failure
  policy_failed panicked : Failure

-- How the download ended: with the bitmap and the summary, by the user's abort, or with an error.
pub data Download : Type 0 where
  done : SegmentBitmap → DownloadSummary → Download
  aborted : Download
  broke : Download

-- What the files and the tasks answer in a run.
pub record Answers : Type 0 where
  pub temp_exists : Bool
  pub removed : Bool
  pub opened : Bool
  pub download : List Segment → SegmentBitmap → Download
  pub offered : List (List ℕ)
  pub duration : ℕ
  pub joined : Bool
  pub synced : Bool
  pub finalized : Bool
  -- the single stream: the bytes that it wrote
  pub single : Option ℕ

pub record World (fl : Floats) : Type 0 where
  pub db : ResumeDb
  pub policy : HostPolicy fl

-- The bytes of the segments that a bitmap leaves open, and of those that it marks.
unfoldable pub bytes_open : SegmentBitmap → ℕ → List Segment → ℕ
bytes_open b i [] = 0
bytes_open b i (s ∷ ss) =
    let rest = bytes_open b (i + 1) ss in
    if is_completed b i then rest else (s.end - s.start) + rest

unfoldable pub bytes_done : SegmentBitmap → ℕ → List Segment → ℕ
bytes_done b i [] = 0
bytes_done b i (s ∷ ss) =
    let rest = bytes_done b (i + 1) ss in
    if is_completed b i then (s.end - s.start) + rest else rest

-- The slots of the segments that are not marked.
unfoldable pub bytes_in_flight : SegmentBitmap → ℕ → List ℕ → ℕ
bytes_in_flight b i [] = 0
bytes_in_flight b i (n ∷ slots) =
    let rest = bytes_in_flight b (i + 1) slots in if is_completed b i then rest else n + rest

-- The marked ones of `rounds` segments from `i` on.
unfoldable pub segments_done : SegmentBitmap → ℕ → ℕ → ℕ
segments_done b i zero = 0
segments_done b i (suc rounds) =
    let rest = segments_done b (i + 1) rounds in if is_completed b i then rest + 1 else rest

-- scheduler/progress.rs, without the elapsed time.
pub record ProgressStats : Type 0 where
  pub bytes_done : ℕ
  pub bytes_in_flight : ℕ
  pub total_bytes : ℕ
  pub segments_done : ℕ
  pub segment_count : ℕ

-- `saturating_add` on u64.
unfoldable pub effective_bytes : ProgressStats → ℕ
effective_bytes s = min (s.bytes_done + s.bytes_in_flight) (2 ^ 64 - 1)

-- The stats that are sent for a stored bitmap.
unfoldable pub progress_stats : List ℕ → List ℕ → List Segment → ℕ → ℕ → ProgressStats
unfolding segments_done
progress_stats blob in_flight segments total_size segment_count =
    let b = from_bytes blob segment_count in
    record {
      bytes_done = bytes_done b 0 segments;
      bytes_in_flight = bytes_in_flight b 0 in_flight;
      total_bytes = total_size;
      segments_done = segments_done b 0 segment_count;
      segment_count = segment_count;
    }

-- The metadata that a finished run stores: the job's, with the new bitmap.
abbrev pub metadata_of : JobDetails → SegmentBitmap → ℕ → JobMetadata
metadata_of job bitmap segment_count = record {
  final_filename = job.final_filename;
  temp_filename = job.temp_filename;
  total_size = job.total_size;
  etag = job.etag;
  last_modified = job.last_modified;
  segment_count = job.segment_count;
  completed_bitmap = to_bytes bitmap segment_count;
}

-- run_progress_persistence_loop: each bitmap that the download offered is stored.
unfoldable pub persist : ℕ → ℕ → List (List ℕ) → ResumeDb → ResumeDb
persist now id [] db = db
persist now id (blob ∷ blobs) db = persist now id blobs (update_bitmap now id blob db)

module _ {fl : Floats} where
  -- `?` on a step that may fail.
  abbrev pub need :
      Bool → Failure → World fl → Result Failure Unit × World fl → Result Failure Unit × World fl
  need true e w next = next
  need false e w next = (err e, w)

  abbrev pub put_state : ℕ → ℕ → JobState → World fl → World fl
  put_state now id state w = record w { db = set_state now id state w.db }

  module _ (crate : UrlCrate) (now id : ℕ) (a : Answers) where
    abbrev pub finalize : Bool → World fl → Result Failure Unit × World fl
    finalize true w = need a.finalized finalize_failed w (ok tt, put_state now id completed w)
    finalize false w = (ok tt, w)

    unfoldable pub finish_after_download :
        JobDetails
        → Text
        → ℕ
        → ℕ
        → DownloadSummary
        → SegmentBitmap
        → World fl
        → Result Failure Unit × World fl
    finish_after_download job url segment_count bytes_this_run summary bitmap w =
        let outcome : Outcome = record {
          bytes_downloaded = bytes_this_run;
          duration = a.duration;
          throttle_events = summary.throttle_events;
          error_events = summary.error_events;
        } in
        elim (record_job_outcome crate now outcome url w.policy) [
          | err e ↦ (err policy_failed, w)
          | ok policy ↦
              let w' = record w { policy = policy } in
              need a.synced sync_failed w' (
                finalize (all_completed bitmap segment_count) (record w' {
                  db = update_metadata now id (metadata_of job bitmap segment_count) w.db;
                }))
        ]

    -- After the download; an abort pauses the job.
    unfoldable pub after_download :
        JobDetails → Text → ℕ → ℕ → Download → World fl → Result Failure Unit × World fl
    unfolding finish_after_download
    after_download job url segment_count bytes_this_run aborted w =
        (ok tt, put_state now id paused w)
    after_download job url segment_count bytes_this_run broke w = (err download_failed, w)
    after_download job url segment_count bytes_this_run (done bitmap summary) w =
        need a.joined join_failed w
          (finish_after_download job url segment_count bytes_this_run summary bitmap w)

    unfoldable pub execute_download_phase :
        JobDetails
        → Text
        → Bool
        → ℕ
        → List Segment
        → SegmentBitmap
        → World fl
        → Result Failure Unit × World fl
    unfolding after_download bytes_open persist
    execute_download_phase job url needs_metadata segment_count segments bitmap w =
        need (not (needs_metadata && a.temp_exists && not a.removed)) remove_failed w (
          need a.opened open_failed w (
            after_download job url segment_count (bytes_open bitmap 0 segments)
              (a.download segments bitmap) (record w { db = persist now id a.offered w.db })))

    unfoldable pub after_single : Option ℕ → World fl → Result Failure ℕ × World fl
    after_single none w = (err download_failed, w)
    after_single (some bytes_written) w =
        if not a.synced
        then (err sync_failed, w)
        else if not a.finalized
        then (err finalize_failed, w)
        else (ok bytes_written, put_state now id completed w)

    -- The bytes that were written, where it succeeded.
    unfoldable pub execute_single_download_phase : World fl → Result Failure ℕ × World fl
    unfolding after_single
    execute_single_download_phase w =
        if a.temp_exists && not a.removed
        then (err remove_failed, w)
        else if not a.opened
        then (err open_failed, w)
        else after_single a.single w
