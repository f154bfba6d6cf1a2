-- ===== src/Scheduler/RunJob/States.antt =====
-- The state that a run by segments leaves its job in.
use mathlib.Core.Option.{some-injective}
use debian_download_manager.Prelude.{
  ℕ, ◌≡◌, refl, ◌∙◌, ◌⊎◌, inl, inr, Bool, true, false, not, ◌&&◌, List, [], ◌∷◌, Option, none, some,
  ==-self,
}
use debian_download_manager.Prelude.Result.{Result, ok, err, Result-cases}
use debian_download_manager.Prelude.Text.{Text}
use debian_download_manager.HostPolicy.Key.{UrlCrate}
use debian_download_manager.HostPolicy.State.{Floats, Outcome, record_job_outcome}
use debian_download_manager.ResumeDb.Types.{
  JobDetails, JobMetadata, JobState, running, paused, completed, error, as_str,
}
use debian_download_manager.ResumeDb.Jobs.{
  Row, Json, ResumeDb, update_where_id, with_state, with_metadata, with_bitmap, update_metadata,
  update_bitmap, set_state,
}
use debian_download_manager.ResumeDb.Read.{find}
use debian_download_manager.ResumeDb.Rows.{find-update_where_id}
use debian_download_manager.Segmenter.Range.{Segment, plan_segments}
use debian_download_manager.Segmenter.Bitmap.{SegmentBitmap, from_bytes, all_completed}
use debian_download_manager.Downloader.Tally.{DownloadSummary}
use debian_download_manager.Scheduler.Choose.{DdmConfig}
use debian_download_manager.Scheduler.Execute.{
  Failure, Download, done, aborted, broke, Answers, World, put_state, persist, bytes_open,
  metadata_of, finalize, finish_after_download, after_download, execute_download_phase,
}
use debian_download_manager.Scheduler.Execute.Laws.{need-holds}
use debian_download_manager.Scheduler.RunJob.{Names, in_the_way, settle, run_sized, run_segments}

-- The job is in the table, in state `s`.
abbrev pub StateIs : ℕ → JobState → ResumeDb → Type 0
StateIs id s db = (r : Row) × (find id db.rows ≡ some r) × (r.state ≡ as_str s)

updated :
    (id : ℕ) (change : Row → Row) (db : ResumeDb) (r : Row)
    → ((r : Row) → (change r).id ≡ r.id)
    → find id db.rows ≡ some r
    → find id (update_where_id id change db.rows) ≡ some (change r)
updated id change db r same h =
    find-update_where_id id id change db.rows same ∙ rw (==-self id, h) refl

state-put :
    (now id : ℕ) (s t : JobState) (db : ResumeDb)
    → StateIs id s db
    → StateIs id t (set_state now id t db)
unfolding set_state with_state
state-put now id s t db (r, found, h) =
    (with_state now t r, updated id (with_state now t) db r (λ r. refl) found, refl)

metadata-keeps :
    (now id : ℕ) (s : JobState) (meta : JobMetadata) (db : ResumeDb)
    → StateIs id s db
    → StateIs id s (update_metadata now id meta db)
unfolding update_metadata with_metadata
metadata-keeps now id s meta db (r, found, h) =
    (with_metadata now meta r, updated id (with_metadata now meta) db r (λ r. refl) found, h)

persist-keeps :
    (now id : ℕ) (s : JobState) (blobs : List (List ℕ)) (db : ResumeDb)
    → StateIs id s db
    → StateIs id s (persist now id blobs db)
unfolding persist update_bitmap with_bitmap
persist-keeps now id s [] db h = h
persist-keeps now id s (blob ∷ blobs) db (r, found, h) =
    persist-keeps now id s blobs (update_bitmap now id blob db)
      (with_bitmap now blob r, updated id (with_bitmap now blob) db r (λ r. refl) found, h)

-- The states after a run without an error, for the result of the download.
abbrev pub Went : ℕ → ℕ → Download → ResumeDb → Type 0
Went id count aborted db = StateIs id paused db
Went id count broke db = ⊥
Went id count (done b s) db =
    (StateIs id completed db × (all_completed b count ≡ true))
    ⊎ (StateIs id running db × (all_completed b count ≡ false))

module _ {fl : Floats} (crate : UrlCrate) (now id : ℕ) (a : Answers) where
  abbrev Leaves : ℕ → Download → Result Failure Unit × World fl → Type 0
  Leaves count d (ok x, w) = Went id count d w.db
  Leaves count d (err e, w) = StateIs id running w.db

  finalize-Leaves :
      (b : SegmentBitmap) (s : DownloadSummary) (count : ℕ) (all : Bool) (w : World fl)
      → all_completed b count ≡ all
      → StateIs id running w.db
      → Leaves count (done b s) (finalize crate now id a all w)
  finalize-Leaves b s count true w e h =
      need-holds (Leaves count (done b s)) a.finalized _ w _ h
        (inl (state-put now id running completed w.db h, e))
  finalize-Leaves b s count false w e h = inr (h, e)

  finish-Leaves :
      (job : JobDetails) (url : Text) (count bytes : ℕ) (s : DownloadSummary) (b : SegmentBitmap)
      (w : World fl)
      → StateIs id running w.db
      → Leaves count (done b s) (finish_after_download crate now id a job url count bytes s b w)
  unfolding finish_after_download
  finish-Leaves job url count bytes s b w h =
      let outcome : Outcome = record {
        bytes_downloaded = bytes;
        duration = a.duration;
        throttle_events = s.throttle_events;
        error_events = s.error_events;
      } in
      elim (Result-cases (record_job_outcome crate now outcome url w.policy)) [
        | inr (e, failed) ↦ rw (failed, finish_after_download) h
        | inl (policy, recorded) ↦
            let w' : World fl = record w { policy = policy } in
            let meta = metadata_of job b count in
            let w'' : World fl = record w' { db = update_metadata now id meta w.db } in
            rw (recorded, finish_after_download)
              (need-holds (Leaves count (done b s)) a.synced _ w'
                (finalize crate now id a (all_completed b count) w'') h
                (finalize-Leaves b s count (all_completed b count) w'' refl
                  (metadata-keeps now id running meta w.db h)))
      ]

  after_download-Leaves :
      (job : JobDetails) (url : Text) (count bytes : ℕ) (d : Download) (w : World fl)
      → StateIs id running w.db
      → Leaves count d (after_download crate now id a job url count bytes d w)
  unfolding after_download
  after_download-Leaves job url count bytes aborted w h = state-put now id running paused w.db h
  after_download-Leaves job url count bytes broke w h = h
  after_download-Leaves job url count bytes (done b s) w h =
      need-holds (Leaves count (done b s)) a.joined _ w _ h
        (finish-Leaves job url count bytes s b w h)

  execute-Leaves :
      (job : JobDetails) (url : Text) (needs : Bool) (count : ℕ) (segments : List Segment)
      (b : SegmentBitmap) (w : World fl)
      → StateIs id running w.db
      → Leaves count
          (a.download segments b)
          (execute_download_phase crate now id a job url needs count segments b w)
  unfolding execute_download_phase
  execute-Leaves job url needs count segments b w h =
      let d = a.download segments b in
      let w' : World fl = record w { db = persist now id a.offered w.db } in
      need-holds (Leaves count d) (not (needs && a.temp_exists && not a.removed)) _ w _ h (
        need-holds (Leaves count d) a.opened _ w _ h (
          after_download-Leaves job url count (bytes_open b 0 segments) d w'
            (persist-keeps now id running a.offered w.db h)))

  module _ (json : Json) (cfg : DdmConfig) (final_exists : Text → Bool) (overwrite : Bool) where
    -- After `settle`, an error is in the table.
    abbrev pub Settles : ℕ → Download → Result Failure Unit × World fl → Type 0
    Settles count d (ok x, w) = Went id count d w.db
    Settles count d (err e, w) = StateIs id error w.db

    settle-Settles :
        (count : ℕ) (d : Download) (x : Result Failure Unit × World fl)
        → Leaves count d x
        → Settles count d (settle crate json cfg now id a final_exists overwrite x)
    settle-Settles count d (ok x, w) h = h
    settle-Settles count d (err e, w) h = state-put now id running error w.db h

    run_sized-Settles :
        (names : Names) (job : JobDetails) (w : World fl) (s : JobState) (size : Option ℕ)
        (total_size : ℕ)
        → StateIs id s w.db
        → size ≡ some total_size
        → in_the_way final_exists overwrite job names.final_name ≡ false
        → Settles job.segment_count
            (a.download
              (plan_segments total_size job.segment_count)
              (from_bytes job.completed_bitmap job.segment_count))
            (run_sized crate json cfg now id a final_exists overwrite size names job w)
    unfolding run_sized
    run_sized-Settles names job w s none total_size h e clear = absurd (cc e)
    run_sized-Settles names job w s (some n) total_size h e clear =
        let same : n ≡ total_size = some-injective _ _ e in
        let segments = plan_segments total_size job.segment_count in
        let b = from_bytes job.completed_bitmap job.segment_count in
        let w' = put_state now id running w in
        let x =
          execute_download_phase crate now id a job job.url names.needs_metadata job.segment_count
            segments b w' in
        rw (same, clear)
          (settle-Settles job.segment_count (a.download segments b) x (
            execute-Leaves job job.url names.needs_metadata job.segment_count segments b w'
              (state-put now id s running w.db h)))

    -- A run by segments of a job in the table whose size is known, with no file in the way: if it
    -- returns an error, the job's state is error. If it returns without one, either the user aborted
    -- the download and the job is paused; or the download returned a bitmap, and the job is
    -- completed where the bitmap marks all segments, and still running where it does not.
    pub run_segments-Settles :
        (names : Names) (job : JobDetails) (w : World fl) (s : JobState) (total_size : ℕ)
        → StateIs id s w.db
        → job.total_size ≡ some total_size
        → in_the_way final_exists overwrite job names.final_name ≡ false
        → Settles job.segment_count
            (a.download
              (plan_segments total_size job.segment_count)
              (from_bytes job.completed_bitmap job.segment_count))
            (run_segments crate json cfg now id a final_exists overwrite names job w)
    unfolding run_segments
    run_segments-Settles names job w s total_size h size clear =
        run_sized-Settles names job w s job.total_size total_size h size clear
