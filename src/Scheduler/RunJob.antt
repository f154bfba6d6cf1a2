-- ===== src/Scheduler/RunJob.antt =====
-- crates/ddm-core/src/scheduler/run: `run_one_job` and `run_one_job_shared`, which do the same to the
-- job table and the host policy, with common.rs and fallback.rs; and `next_queued_job_id`.
pub mod Laws
pub mod States
pub mod Ends
use debian_download_manager.Prelude.{
  ℕ, min, Bool, true, false, not, ◌&&◌, ◌||◌, List, [], ◌∷◌, ◌++◌, Option, none, some,
  if◌then◌else◌,
}
use debian_download_manager.Prelude.Result.{Result, ok, err}
use debian_download_manager.Prelude.Text.{Text, codes}
use debian_download_manager.HostPolicy.Key.{UrlCrate}
use debian_download_manager.HostPolicy.State.{Floats, HostPolicy, record_head_result}
use debian_download_manager.ResumeDb.Types.{
  JobDetails, JobMetadata, JobState, queued, running, error, JobSummary,
}
use debian_download_manager.ResumeDb.Jobs.{ResumeDb, Json, update_metadata}
use debian_download_manager.ResumeDb.Read.{get_job, list_jobs, list_final_filenames_in_dir}
use debian_download_manager.FetchHead.Parse.{HeadResult}
use debian_download_manager.SafeResume.{validate_for_resume}
use debian_download_manager.Segmenter.Range.{plan_segments}
use debian_download_manager.Segmenter.Bitmap.{new, from_bytes, to_bytes}
use debian_download_manager.UrlModel.Derive.{derive_filename}
use debian_download_manager.UrlModel.Unique.{unique_filename_among}
use debian_download_manager.Scheduler.Choose.{DdmConfig, choose_segment_count}
use debian_download_manager.Scheduler.Execute.{
  Failure, not_found, json_failed, probe_failed, remote_changed, file_exists, policy_failed,
  panicked, Answers, World, need, put_state, execute_download_phase, execute_single_download_phase,
}

abbrev pub unwrap_or : Option Text → Text → Text
unwrap_or none t = t
unwrap_or (some s) t = s

abbrev or_else : Option Text → Option Text → Option Text
or_else none o = o
or_else (some s) o = some s

abbrev pub is_none : {A : Type 0} → Option A → Bool
is_none none = true
is_none (some a) = false

abbrev pub is_err : {E A : Type 0} → Result E A → Bool
is_err (ok a) = false
is_err (err e) = true

-- storage/mod.rs.
unfoldable pub temp_path : Text → Text
temp_path final_path = final_path ++ codes ".part"

pub record Names : Type 0 where
  pub final_name : Text
  pub temp_name : Text
  pub needs_metadata : Bool

-- `dir` is the download directory as a text, if it is one. The search for a free name always finds
-- one (UrlModel.Unique.Laws).
unfoldable pub resolve_filenames :
    UrlCrate → Json → ResumeDb → ℕ → JobDetails → HeadResult → Bool → Bool → Option Text → Names
unfolding temp_path
resolve_filenames crate json db id job head force_restart validation_failed dir =
    let candidate = derive_filename crate job.url head.content_disposition in
    let existing =
      list_final_filenames_in_dir json (or_else job.settings.download_dir dir) (some id) db in
    let fresh = is_none job.total_size || force_restart || validation_failed in
    let final_name : Text =
      if fresh
      then unwrap_or (unique_filename_among candidate existing) candidate
      else unwrap_or job.final_filename candidate in
    record { final_name = final_name; temp_name = temp_path final_name; needs_metadata = fresh }

-- The metadata of a job that starts anew, for the result of its probe.
abbrev pub new_metadata : Names → HeadResult → Option ℕ → ℕ → List ℕ → JobMetadata
new_metadata names head total_size segment_count bitmap = record {
  final_filename = some names.final_name;
  temp_filename = some names.temp_name;
  total_size = total_size;
  etag = head.etag;
  last_modified = head.last_modified;
  segment_count = segment_count;
  completed_bitmap = bitmap;
}

-- SELECT … and the first queued job in it: the one with the smallest id.
unfoldable pub min_queued : List JobSummary → Option ℕ
min_queued [] = none
min_queued (j ∷ jobs) =
    let rest = min_queued jobs in
    elim j.state [ queued ↦ some (elim rest [ none ↦ j.id | some id ↦ min j.id id ]) | _ ↦ rest ]

unfoldable pub next_queued_job_id : ResumeDb → Option ℕ
unfolding min_queued
next_queued_job_id db = min_queued (list_jobs db)

-- `paths_and_overwrite_check`: whether the final file is in the way.
unfoldable pub in_the_way : (Text → Bool) → Bool → JobDetails → Text → Bool
in_the_way final_exists overwrite job final_name =
    final_exists (unwrap_or job.final_filename final_name) && not overwrite

module _ {fl : Floats} (crate : UrlCrate) (json : Json) (cfg : DdmConfig) (now id : ℕ) (a : Answers)
    (final_exists : Text → Bool) (overwrite : Bool) where
  -- `get_job(id)?.expect(…)` after an update.
  unfoldable pub reload :
      World fl → (JobDetails → Result Failure Unit × World fl) → Result Failure Unit × World fl
  reload w next = elim (get_job json id w.db) [
    | err e ↦ (err json_failed, w)
    | ok none ↦ (err panicked, w)
    | ok (some job) ↦ next job
  ]

  -- The end of a run: an error is stored as the state of the job.
  abbrev pub settle : Result Failure Unit × World fl → Result Failure Unit × World fl
  settle (ok done, w) = (ok done, w)
  settle (err e, w) = (err e, put_state now id error w)

  -- `job.total_size.unwrap()` panics without a size.
  unfoldable pub run_sized :
      Option ℕ → Names → JobDetails → World fl → Result Failure Unit × World fl
  unfolding in_the_way
  run_sized none names job w = (err panicked, w)
  run_sized (some total_size) names job w =
      need (not (in_the_way final_exists overwrite job names.final_name)) file_exists w (
        settle (
          execute_download_phase crate now id a job job.url names.needs_metadata job.segment_count
            (plan_segments total_size job.segment_count)
            (from_bytes job.completed_bitmap job.segment_count) (put_state now id running w)))

  -- The part behind the metadata.
  unfoldable pub run_segments : Names → JobDetails → World fl → Result Failure Unit × World fl
  unfolding run_sized
  run_segments names job w = run_sized job.total_size names job w

  -- After the single stream, the size of a job that had none is stored.
  abbrev pub store_size :
      Names → HeadResult → JobDetails → Result Failure ℕ × World fl → Result Failure Unit × World fl
  store_size names head job (err e, w) = (err e, w)
  store_size names head job (ok bytes_written, w) = (
    ok tt,
    if is_none job.total_size
        then record w {
          db = update_metadata now id (new_metadata names head (some bytes_written) 0 []) w.db;
        }
        else w,
  )

  unfoldable pub stream_file :
      Names → HeadResult → JobDetails → World fl → Result Failure Unit × World fl
  unfolding in_the_way
  stream_file names head job w =
      need (not (in_the_way final_exists overwrite job names.final_name)) file_exists w (
        store_size names head job
          (execute_single_download_phase crate now id a (put_state now id running w)))

  unfoldable pub run_single_stream :
      Names → HeadResult → JobDetails → World fl → Result Failure Unit × World fl
  unfolding stream_file reload
  run_single_stream names head job w =
      let w' = record w {
        db = update_metadata now id (new_metadata names head head.content_length 0 []) w.db;
      } in
      if names.needs_metadata
      then reload w' (λ job. stream_file names head job w')
      else stream_file names head job w

  unfoldable pub run_segmented :
      Names → HeadResult → ℕ → JobDetails → World fl → Result Failure Unit × World fl
  unfolding run_segments reload
  run_segmented names head total_size job w =
      let count = choose_segment_count crate total_size cfg job.url w.policy in
      let w' = record w {
        db =
            update_metadata now id
              (new_metadata names head (some total_size) count (to_bytes (new count) count)) w.db;
      } in
      if names.needs_metadata
      then reload w' (λ job. run_segments names job w')
      else run_segments names job w

  -- Segments, where the server takes ranges and says the length.
  unfoldable pub dispatch :
      Bool → Option ℕ → Names → HeadResult → JobDetails → World fl → Result Failure Unit × World fl
  unfolding run_segmented run_single_stream
  dispatch true (some total_size) names head job w = run_segmented names head total_size job w
  dispatch true none names head job w = run_single_stream names head job w
  dispatch false length names head job w = run_single_stream names head job w

  unfoldable pub run_probed :
      Bool → Option Text → JobDetails → HeadResult → World fl → Result Failure Unit × World fl
  unfolding dispatch resolve_filenames
  run_probed force_restart dir job head w =
      elim (record_head_result crate job.url head.accept_ranges w.policy) [
        | err e ↦ (err policy_failed, w)
        | ok policy ↦
            let w' = record w { policy = policy } in
            let changed = is_err (validate_for_resume job head) in
            let names = resolve_filenames crate json w.db id job head force_restart changed dir in
            need (not changed || force_restart) remote_changed w'
              (dispatch head.accept_ranges head.content_length names head job w')
      ]

  -- `probe` is the result of `probe_best_effort` for the URL of the job.
  unfoldable pub run_one_job :
      (Text → Option HeadResult) → Bool → Option Text → World fl → Result Failure Unit × World fl
  unfolding run_probed
  run_one_job probe force_restart dir w = elim (get_job json id w.db) [
    | err e ↦ (err json_failed, w)
    | ok none ↦ (err not_found, w)
    | ok (some job) ↦ elim (probe job.url) [
      | none ↦ (err probe_failed, w)
      | some head ↦ run_probed force_restart dir job head w
    ]
  ]
