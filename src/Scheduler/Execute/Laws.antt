-- ===== src/Scheduler/Execute/Laws.antt =====
-- The state that the download phase leaves the job in, and the rows that it changes.
use debian_download_manager.Prelude.{
  ℕ, inl, inr, Bool, true, false, not, ◌&&◌, List, [], ◌∷◌, Option, none, some, if◌then◌else◌,
}
use debian_download_manager.Prelude.Result.{Result, err, Result-cases}
use debian_download_manager.Prelude.Text.{Text}
use debian_download_manager.HostPolicy.Key.{UrlCrate}
use debian_download_manager.HostPolicy.State.{Floats, Outcome, record_job_outcome}
use debian_download_manager.ResumeDb.Types.{JobDetails, JobMetadata, JobState, paused, completed}
use debian_download_manager.ResumeDb.Jobs.{ResumeDb, update_metadata, update_bitmap, set_state}
use debian_download_manager.Segmenter.Range.{Segment}
use debian_download_manager.Segmenter.Bitmap.{SegmentBitmap, all_completed}
use debian_download_manager.Downloader.Tally.{DownloadSummary}
use debian_download_manager.Scheduler.Execute.{
  Failure, Download, done, aborted, broke, Answers, World, need, persist, bytes_open, metadata_of,
  finalize, finish_after_download, after_download, execute_download_phase, after_single,
  execute_single_download_phase,
}

-- A property of the table that the statements for one job keep.
pub record Closed (id : ℕ) (P : ResumeDb → Type 0) : Type 0 where
  pub metadata :
      (now : ℕ) (meta : JobMetadata) (db : ResumeDb) → P db → P (update_metadata now id meta db)
  pub bitmap : (now : ℕ) (blob : List ℕ) (db : ResumeDb) → P db → P (update_bitmap now id blob db)
  pub state : (now : ℕ) (s : JobState) (db : ResumeDb) → P db → P (set_state now id s db)

pub persist-Closed :
    (id now : ℕ) {P : ResumeDb → Type 0} (k : Closed id P) (blobs : List (List ℕ)) (db : ResumeDb)
    → P db
    → P (persist now id blobs db)
unfolding persist
persist-Closed id now k [] db h = h
persist-Closed id now k (blob ∷ blobs) db h =
    persist-Closed id now k blobs (update_bitmap now id blob db) (k.bitmap now blob db h)

pub if-holds :
    {A : Type 0} (Q : A → Type 0) (b : Bool) (x y : A) → Q x → Q y → Q (if b then x else y)
if-holds Q true x y h k = h
if-holds Q false x y h k = k

module _ {fl : Floats} where
  -- Either branch of a step that may fail.
  pub need-holds :
      (Q : Result Failure Unit × World fl → Type 0) (b : Bool) (e : Failure) (w : World fl)
      (next : Result Failure Unit × World fl)
      → Q (err e, w)
      → Q next
      → Q (need b e w next)
  need-holds Q true e w next h k = k
  need-holds Q false e w next h k = h

  module _ (crate : UrlCrate) (now id : ℕ) (a : Answers) where
    -- What holds of the table before and is kept by the statements holds after.
    module _ (P : ResumeDb → Type 0) (k : Closed id P) where
      abbrev Keeps : Result Failure Unit × World fl → Type 0
      Keeps x = P x.1.db

      abbrev KeepsSize : Result Failure ℕ × World fl → Type 0
      KeepsSize x = P x.1.db

      finalize-Closed :
          (all : Bool) (w : World fl) → P w.db → P (finalize crate now id a all w).1.db
      finalize-Closed true w h = need-holds Keeps a.finalized _ w _ h (k.state now completed w.db h)
      finalize-Closed false w h = h

      finish-Closed :
          (job : JobDetails) (url : Text) (count bytes : ℕ) (s : DownloadSummary)
          (b : SegmentBitmap) (w : World fl)
          → P w.db
          → P (finish_after_download crate now id a job url count bytes s b w).1.db
      unfolding finish_after_download
      finish-Closed job url count bytes s b w h =
          let outcome : Outcome = record {
            bytes_downloaded = bytes;
            duration = a.duration;
            throttle_events = s.throttle_events;
            error_events = s.error_events;
          } in
          elim (Result-cases (record_job_outcome crate now outcome url w.policy)) [
            | inr (e, failed) ↦ rw (failed, finish_after_download) h
            | inl (policy, recorded) ↦
                let w' : World fl = record w { policy = policy } in
                let w'' : World fl = record w' {
                  db = update_metadata now id (metadata_of job b count) w.db;
                } in
                rw (recorded, finish_after_download)
                  (need-holds Keeps a.synced _ w'
                    (finalize crate now id a (all_completed b count) w'') h
                    (finalize-Closed (all_completed b count) w''
                      (k.metadata now (metadata_of job b count) w.db h)))
          ]

      after_download-Closed :
          (job : JobDetails) (url : Text) (count bytes : ℕ) (d : Download) (w : World fl)
          → P w.db
          → P (after_download crate now id a job url count bytes d w).1.db
      unfolding after_download
      after_download-Closed job url count bytes aborted w h = k.state now paused w.db h
      after_download-Closed job url count bytes broke w h = h
      after_download-Closed job url count bytes (done b s) w h =
          need-holds Keeps a.joined _ w _ h (finish-Closed job url count bytes s b w h)

      pub execute-Closed :
          (job : JobDetails) (url : Text) (needs : Bool) (count : ℕ) (segments : List Segment)
          (b : SegmentBitmap) (w : World fl)
          → P w.db
          → P (execute_download_phase crate now id a job url needs count segments b w).1.db
      unfolding execute_download_phase
      execute-Closed job url needs count segments b w h =
          let w' : World fl = record w { db = persist now id a.offered w.db } in
          need-holds Keeps (not (needs && a.temp_exists && not a.removed)) _ w _ h (
            need-holds Keeps a.opened _ w _ h (
              after_download-Closed job url count (bytes_open b 0 segments) (a.download segments b)
                w' (persist-Closed id now k a.offered w.db h)))

      after_single-Closed :
          (n : Option ℕ) (w : World fl) → P w.db → P (after_single crate now id a n w).1.db
      unfolding after_single
      after_single-Closed none w h = h
      after_single-Closed (some n) w h =
          if-holds KeepsSize (not a.synced) _ _ h
            (if-holds KeepsSize (not a.finalized) _ _ h (k.state now completed w.db h))

      pub single-Closed :
          (w : World fl) → P w.db → P (execute_single_download_phase crate now id a w).1.db
      unfolding execute_single_download_phase
      single-Closed w h =
          if-holds KeepsSize (a.temp_exists && not a.removed) _ _ h
            (if-holds KeepsSize (not a.opened) _ _ h (after_single-Closed a.single w h))
