-- ===== src/Downloader/Tally.antt =====
-- crates/ddm-core/src/downloader/mod.rs, run.rs, run/unbounded.rs and multi/run.rs: what the three
-- loops do alike. They take the segments that are not completed, and for each result they mark the
-- bitmap, count the event, offer the bitmap to the channel of progress and keep the first error.
pub mod Laws
pub mod Open
use debian_download_manager.Prelude.{
  ℕ, zero, suc, ◌+◌, ◌-◌, ◌*◌, ◌/◌, max, Bool, true, false, ◌&&◌, List, [], ◌∷◌, ◌++◌, Option, none,
  some, ltb, leb, ◌==◌, if◌then◌else◌,
}
use mathlib.Core.Option
use debian_download_manager.Prelude.Result.{Result, ok, err}
use debian_download_manager.Retry.Classify.{
  Curl, ErrorKind, timeout, throttled, connection, http5xx, other, SegmentError, classify,
}
use debian_download_manager.Retry.Run.{SegmentResult}
use debian_download_manager.Segmenter.Range.{Segment}
use debian_download_manager.Segmenter.Bitmap.{SegmentBitmap, set_completed, is_completed, to_bytes}
use debian_download_manager.Downloader.File.{StorageError}

abbrev pub Task : Type 0
Task = ℕ × Segment

-- `CurlOptions::per_handle`: the cap of one handle, from the cap of all and the number of handles.
unfoldable pub per_handle : Option ℕ → ℕ → Option ℕ
per_handle global_max concurrency =
    let n = max concurrency 1 in Option.map (λ (bps : ℕ). (bps + n - 1) / n) global_max

-- The enumerated segments from index `i` on that are not completed.
unfoldable pub incomplete_from : SegmentBitmap → ℕ → List Segment → List Task
incomplete_from b i [] = []
incomplete_from b i (s ∷ ss) =
    let rest = incomplete_from b (i + 1) ss in if is_completed b i then rest else (i, s) ∷ rest

-- `u32` counters; a run makes far fewer events than 2^32.
pub record DownloadSummary : Type 0 where
  pub throttle_events : ℕ
  pub error_events : ℕ

abbrev pub no_events : DownloadSummary
no_events = record { throttle_events = 0; error_events = 0 }

unfoldable pub count_event : ErrorKind → DownloadSummary → DownloadSummary
count_event throttled s = record s { throttle_events = s.throttle_events + 1 }
count_event timeout s = record s { error_events = s.error_events + 1 }
count_event connection s = record s { error_events = s.error_events + 1 }
count_event (http5xx code) s = record s { error_events = s.error_events + 1 }
count_event other s = s

abbrev pub coalesce_progress_every : ℕ
coalesce_progress_every = 2

module _ (c : Curl) where
  -- The errors that a run ends with.
  pub data RunError : Type 0 where
    job_aborted channel_closed worker_panicked : RunError
    segment_failed : ℕ → SegmentError c StorageError → RunError

  -- The variables that the loop over the results changes; `sent` holds the bitmaps that were
  -- offered to the channel of progress.
  pub record Tally : Type 0 where
    pub bitmap : SegmentBitmap
    pub summary : DownloadSummary
    pub completed_since_send : ℕ
    pub sent : List (List ℕ)
    pub first_error : Option RunError

module _ {c : Curl} where
  abbrev pub fresh : SegmentBitmap → Tally c
  fresh bitmap = record {
    bitmap = bitmap;
    summary = no_events;
    completed_since_send = 0;
    sent = [];
    first_error = none;
  }

  unfoldable pub send : ℕ → Tally c → Tally c
  send segment_count t = record t {
    completed_since_send = 0;
    sent = t.sent ++ to_bytes t.bitmap segment_count ∷ [];
  }

  -- `if first_error.is_none()`.
  unfoldable pub keep_first : RunError c → Tally c → Tally c
  keep_first e t = elim t.first_error [ none ↦ record t { first_error = some e } | some _ ↦ t ]

  unfoldable pub on_completed : Bool → ℕ → ℕ → Tally c → Tally c
  on_completed has_progress segment_count index t =
      let marked = record t {
        bitmap = set_completed t.bitmap index;
        completed_since_send = t.completed_since_send + 1;
      } in
      if has_progress && leb coalesce_progress_every marked.completed_since_send
      then send segment_count marked
      else marked

  unfoldable pub count_failure : SegmentError c StorageError → Tally c → Tally c
  count_failure e t = record t { summary = count_event (classify e) t.summary }

  unfoldable pub on_failed : ℕ → SegmentError c StorageError → Tally c → Tally c
  on_failed index e t = keep_first (segment_failed index e) (count_failure e t)

  -- After the loop.
  unfoldable pub flush : Bool → ℕ → Tally c → Tally c
  flush has_progress segment_count t =
      if ltb 0 t.completed_since_send && has_progress then send segment_count t else t
