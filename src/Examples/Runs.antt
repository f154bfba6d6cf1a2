-- ===== src/Examples/Runs.antt =====
-- Runs of a job: one that is downloaded, and what they leave of another job.
use debian_download_manager.Prelude.{
  ℕ, zero, suc, ◌≤◌, ◌<◌, ◌≡◌, ◌∙◌, inl, inr, refl, subst, Bool, true, false, List, [], ◌∷◌, some,
  none, arith, length, get_elem?-lt, Bool-cases, ◌==◌,
}
use debian_download_manager.Prelude.Text.{Text, codes}
use debian_download_manager.ResumeDb.Types.{JobDetails, queued, default_settings}
use debian_download_manager.ResumeDb.Jobs.{new_row}
use debian_download_manager.ResumeDb.Read.{find}
use debian_download_manager.FetchHead.Parse.{HeadResult}
use debian_download_manager.Segmenter.Range.{Segment, plan_segments, plan_loop}
use debian_download_manager.Segmenter.Bitmap.{
  SegmentBitmap, IsBytes, from_bytes, set_completed, is_completed,
}
use debian_download_manager.Segmenter.Bitmap.Bytes.{set_completed-IsBytes}
use debian_download_manager.Segmenter.Bitmap.Laws.{is_completed-set_completed}
use debian_download_manager.Downloader.Tally.{no_events}
use debian_download_manager.Scheduler.Execute.{
  Download, done, Answers, World, progress_stats, effective_bytes,
}
use debian_download_manager.Scheduler.Execute.Progress.{effective_bytes-le-total}
use debian_download_manager.Scheduler.RunJob.{Names, in_the_way, run_segments, run_one_job}
use debian_download_manager.Scheduler.RunJob.Laws.{run_one_job-other_rows}
use debian_download_manager.Scheduler.RunJob.States.{StateIs, Settles, run_segments-Settles}
use debian_download_manager.Scheduler.RunJob.Ends.{MarksAll, Ends, run_segments-ends}
use debian_download_manager.Examples.Hosts.{whole}
use debian_download_manager.Examples.Connections.{crate, cfg, fresh_policy}
use debian_download_manager.Examples.Jobs.{two_jobs, braces}

-- A bitmap with the first `n` segments marked.
mark_first : ℕ → SegmentBitmap
mark_first zero = record { bytes = [] }
mark_first (suc n) = set_completed (mark_first n) n

mark_first-IsBytes : (n : ℕ) → IsBytes (mark_first n).bytes
unfolding mark_first
mark_first-IsBytes zero = tt
mark_first-IsBytes (suc n) = set_completed-IsBytes (mark_first n) n (mark_first-IsBytes n)

mark_first_marks : (n i : ℕ) → i < n → is_completed (mark_first n) i ≡ true
unfolding mark_first
mark_first_marks zero i h = absurd (omega arith)
mark_first_marks (suc n) i h =
    is_completed-set_completed (mark_first n) n i (mark_first-IsBytes n)
    ∙ elim (Bool-cases (n == i)) [
      | inl same ↦ rw same refl
      | inr differ ↦ rw differ (mark_first_marks n i (ground arith))
    ]

-- A download that marks every segment of its plan.
abbrev downloads : List Segment → SegmentBitmap → Download
downloads segments before = done (mark_first (length segments)) no_events

downloads-MarksAll : MarksAll downloads
downloads-MarksAll = record {
  marks = λ segments before i s b summary v e at.
      let same : mark_first (length segments) ≡ b = cc (e) in
      subst (λ (m : SegmentBitmap). is_completed m i ≡ true) same
        (mark_first_marks (length segments) i (get_elem?-lt segments i s at));
  bytes = λ segments before b summary v e.
      let same : mark_first (length segments) ≡ b = cc (e) in
      subst (λ (m : SegmentBitmap). IsBytes m.bytes) same (mark_first-IsBytes (length segments));
}

abbrev answers : Answers
answers = record {
  temp_exists = false;
  removed = true;
  opened = true;
  download = downloads;
  offered = (1 ∷ []) ∷ [];
  duration = 7;
  joined = true;
  synced = true;
  finalized = true;
  single = none;
}

abbrev job : JobDetails
job = record {
  id = 3;
  url = codes "https://a/x";
  final_filename = some (codes "x");
  temp_filename = some (codes "x.part");
  total_size = some 10;
  etag = none;
  last_modified = none;
  segment_count = 2;
  completed_bitmap = 0 ∷ [];
  state = queued;
  created_at = 10;
  updated_at = 10;
  settings = default_settings;
}

abbrev names : Names
names = record { final_name = codes "x"; temp_name = codes "x.part"; needs_metadata = false }

abbrev before : World whole
before = record { db = two_jobs; policy = fresh_policy }

abbrev no_file : Text → Bool
no_file name = false

is_queued : StateIs 3 queued two_jobs
unfolding find new_row
is_queued = (new_row 3 10 (codes "https://a/x") (codes "{}"), refl, refl)

run_segments-Settles_example :
    Settles crate 20 3 answers braces cfg no_file false 2
      (downloads (plan_segments 10 2) (from_bytes (0 ∷ []) 2))
      (run_segments crate braces cfg 20 3 answers no_file false names job before)
unfolding in_the_way
run_segments-Settles_example =
    run_segments-Settles crate 20 3 answers braces cfg no_file false names job before queued 10
      is_queued refl refl

run_segments-ends_example :
    Ends crate 20 3 answers braces cfg no_file false
      (answers.download
        (plan_segments 10 job.segment_count)
        (from_bytes job.completed_bitmap job.segment_count))
      (run_segments crate braces cfg 20 3 answers no_file false names job before)
unfolding in_the_way
run_segments-ends_example =
    run_segments-ends crate 20 3 answers braces cfg no_file false names job before queued 10
      downloads-MarksAll (omega arith) is_queued refl (omega arith) (omega arith) refl

abbrev head : HeadResult
head = record {
  content_length = some 10;
  accept_ranges = true;
  etag = none;
  last_modified = none;
  content_disposition = none;
}

run_one_job-other_rows_example :
    find 7
      (run_one_job crate braces cfg 20 3 answers no_file false
        (λ url. some head)
        false
        none
        before).1.db.rows
    ≡ find 7 two_jobs.rows
run_one_job-other_rows_example =
    run_one_job-other_rows crate braces cfg 20 3 7 answers no_file false (λ url. some head) false
      none before (λ e. absurd (omega arith))

effective_bytes-le-total_example :
    effective_bytes (progress_stats (1 ∷ []) (5 ∷ 2 ∷ []) (plan_segments 10 2) 10 2) ≤ 10
unfolding plan_segments plan_loop
effective_bytes-le-total_example =
    effective_bytes-le-total (1 ∷ []) (5 ∷ 2 ∷ []) 10 2 (omega arith) (omega arith) (omega arith)
