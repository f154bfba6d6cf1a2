-- ===== src/Scheduler/RunJob/Laws.antt =====
-- A run of a job changes no other job.
use debian_download_manager.Prelude.{
  ℕ, ◌≡◌, ◌≢◌, refl, ◌∙◌, inl, inr, Bool, true, false, [], Option, none, some, ◌==◌, arith,
  Option-cases,
}
use debian_download_manager.Prelude.Result.{Result, ok, err, Result-cases}
use debian_download_manager.Prelude.Text.{Text}
use debian_download_manager.HostPolicy.Key.{UrlCrate}
use debian_download_manager.HostPolicy.State.{Floats, record_head_result}
use debian_download_manager.ResumeDb.Types.{JobDetails, running, error}
use debian_download_manager.ResumeDb.Jobs.{
  Row, Json, ResumeDb, update_where_id, update_metadata, update_bitmap, set_state, with_metadata,
  with_bitmap, with_state,
}
use debian_download_manager.ResumeDb.Read.{find, get_job}
use debian_download_manager.ResumeDb.Rows.{find-update_where_id}
use debian_download_manager.FetchHead.Parse.{HeadResult}
use debian_download_manager.SafeResume.{validate_for_resume}
use debian_download_manager.Segmenter.Range.{plan_segments}
use debian_download_manager.Segmenter.Bitmap.{from_bytes, new, to_bytes}
use debian_download_manager.Scheduler.Choose.{DdmConfig, choose_segment_count}
use debian_download_manager.Scheduler.Execute.{
  Failure, Answers, World, put_state, execute_download_phase, execute_single_download_phase,
}
use debian_download_manager.Scheduler.Execute.Laws.{
  Closed, if-holds, need-holds, execute-Closed, single-Closed,
}
use debian_download_manager.Scheduler.RunJob.{
  Names, is_none, is_err, new_metadata, resolve_filenames, reload, settle, run_sized, run_segments,
  store_size, stream_file, run_single_stream, run_segmented, dispatch, run_probed, run_one_job,
}

module _ {fl : Floats} (crate : UrlCrate) (json : Json) (cfg : DdmConfig) (now id : ℕ) (a : Answers)
    (final_exists : Text → Bool) (overwrite : Bool) (P : ResumeDb → Type 0) (k : Closed id P) where
  abbrev Keeps : Result Failure Unit × World fl → Type 0
  Keeps x = P x.1.db

  reload-Closed :
      (w : World fl) (next : JobDetails → Result Failure Unit × World fl)
      → P w.db
      → ((job : JobDetails) → P (next job).1.db)
      → P (reload crate json cfg now id a final_exists overwrite w next).1.db
  unfolding reload
  reload-Closed w next h goes_on = elim (Result-cases (get_job json id w.db)) [
    | inr (e, failed) ↦ rw (failed, reload) h
    | inl (found, read) ↦ elim (Option-cases found) [
      | inl nothing ↦ rw (read, reload) (rw nothing h)
      | inr (job, there) ↦ rw (read, reload) (rw there (goes_on job))
    ]
  ]

  settle-Closed :
      (x : Result Failure Unit × World fl)
      → P x.1.db
      → P (settle crate json cfg now id a final_exists overwrite x).1.db
  settle-Closed (ok done, w) h = h
  settle-Closed (err e, w) h = k.state now error w.db h

  run_sized-Closed :
      (size : Option ℕ) (names : Names) (job : JobDetails) (w : World fl)
      → P w.db
      → P (run_sized crate json cfg now id a final_exists overwrite size names job w).1.db
  unfolding run_sized
  run_sized-Closed none names job w h = h
  run_sized-Closed (some total_size) names job w h =
      let segments = plan_segments total_size job.segment_count in
      let b = from_bytes job.completed_bitmap job.segment_count in
      let w' = put_state now id running w in
      let x =
        execute_download_phase crate now id a job job.url names.needs_metadata job.segment_count
          segments b w' in
      need-holds Keeps _ _ w _ h (
        settle-Closed x (
          execute-Closed crate now id a P k job job.url names.needs_metadata job.segment_count
            segments b w' (k.state now running w.db h)))

  run_segments-Closed :
      (names : Names) (job : JobDetails) (w : World fl)
      → P w.db
      → P (run_segments crate json cfg now id a final_exists overwrite names job w).1.db
  unfolding run_segments
  run_segments-Closed names job w h = run_sized-Closed job.total_size names job w h

  store_size-Closed :
      (names : Names) (head : HeadResult) (job : JobDetails) (x : Result Failure ℕ × World fl)
      → P x.1.db
      → P (store_size crate json cfg now id a final_exists overwrite names head job x).1.db
  store_size-Closed names head job (err e, w) h = h
  store_size-Closed names head job (ok n, w) h =
      let meta = new_metadata names head (some n) 0 [] in
      if-holds (λ (v : World fl). P v.db) (is_none job.total_size)
        (record w { db = update_metadata now id meta w.db }) w (k.metadata now meta w.db h) h

  stream_file-Closed :
      (names : Names) (head : HeadResult) (job : JobDetails) (w : World fl)
      → P w.db
      → P (stream_file crate json cfg now id a final_exists overwrite names head job w).1.db
  unfolding stream_file
  stream_file-Closed names head job w h =
      let w' = put_state now id running w in
      need-holds Keeps _ _ w _ h (
        store_size-Closed names head job (execute_single_download_phase crate now id a w')
          (single-Closed crate now id a P k w' (k.state now running w.db h)))

  run_single_stream-Closed :
      (names : Names) (head : HeadResult) (job : JobDetails) (w : World fl)
      → P w.db
      → P (run_single_stream crate json cfg now id a final_exists overwrite names head job w).1.db
  unfolding run_single_stream
  run_single_stream-Closed names head job w h =
      let meta = new_metadata names head head.content_length 0 [] in
      let w' : World fl = record w { db = update_metadata now id meta w.db } in
      let h' = k.metadata now meta w.db h in
      if-holds Keeps names.needs_metadata _ _
        (reload-Closed w'
          (λ job. stream_file crate json cfg now id a final_exists overwrite names head job w') h'
          λ job. stream_file-Closed names head job w' h')
        (stream_file-Closed names head job w h)

  run_segmented-Closed :
      (names : Names) (head : HeadResult) (size : ℕ) (job : JobDetails) (w : World fl)
      → P w.db
      → P (run_segmented crate json cfg now id a final_exists overwrite names head size job w).1.db
  unfolding run_segmented
  run_segmented-Closed names head size job w h =
      let count = choose_segment_count crate size cfg job.url w.policy in
      let meta = new_metadata names head (some size) count (to_bytes (new count) count) in
      let w' : World fl = record w { db = update_metadata now id meta w.db } in
      let h' = k.metadata now meta w.db h in
      if-holds Keeps names.needs_metadata _ _
        (reload-Closed w'
          (λ job. run_segments crate json cfg now id a final_exists overwrite names job w') h'
          λ job. run_segments-Closed names job w' h')
        (run_segments-Closed names job w h)

  dispatch-Closed :
      (ranges : Bool) (length : Option ℕ) (names : Names) (head : HeadResult) (job : JobDetails)
      (w : World fl)
      → P w.db
      → P
          (dispatch crate json cfg now id a final_exists overwrite ranges length names head job
            w).1.db
  unfolding dispatch
  dispatch-Closed true (some size) names head job w h = run_segmented-Closed names head size job w h
  dispatch-Closed true none names head job w h = run_single_stream-Closed names head job w h
  dispatch-Closed false length names head job w h = run_single_stream-Closed names head job w h

  run_probed-Closed :
      (force : Bool) (dir : Option Text) (job : JobDetails) (head : HeadResult) (w : World fl)
      → P w.db
      → P (run_probed crate json cfg now id a final_exists overwrite force dir job head w).1.db
  unfolding run_probed
  run_probed-Closed force dir job head w h =
      elim (Result-cases (record_head_result crate job.url head.accept_ranges w.policy)) [
        | inr (e, failed) ↦ rw (failed, run_probed) h
        | inl (policy, recorded) ↦
            let w' : World fl = record w { policy = policy } in
            let changed = is_err (validate_for_resume job head) in
            let names = resolve_filenames crate json w.db id job head force changed dir in
            rw (recorded, run_probed)
              (need-holds Keeps _ _ w' _ h
                (dispatch-Closed head.accept_ranges head.content_length names head job w' h))
      ]

  -- A property of the table that the statements for the job keep is kept by its run.
  pub run_one_job-Closed :
      (probe : Text → Option HeadResult) (force : Bool) (dir : Option Text) (w : World fl)
      → P w.db
      → P (run_one_job crate json cfg now id a final_exists overwrite probe force dir w).1.db
  unfolding run_one_job
  run_one_job-Closed probe force dir w h = elim (Result-cases (get_job json id w.db)) [
    | inr (e, failed) ↦ rw (failed, run_one_job) h
    | inl (found, read) ↦ elim (Option-cases found) [
      | inl nothing ↦ rw (read, run_one_job) (rw nothing h)
      | inr (job, there) ↦ elim (Option-cases (probe job.url)) [
        | inl silent ↦ rw (read, run_one_job) (rw there (rw silent h))
        | inr (head, answer) ↦
            rw (read, run_one_job) (rw there (rw answer (run_probed-Closed force dir job head w h)))
      ]
    ]
  ]

other-update :
    (id j : ℕ) (change : Row → Row) (before : Option Row) (db : ResumeDb)
    → id ≢ j
    → ((r : Row) → (change r).id ≡ r.id)
    → find j db.rows ≡ before
    → find j (update_where_id id change db.rows) ≡ before
other-update id j change before db differ same h =
    let other : (id == j) ≡ false = ground arith in
    find-update_where_id id j change db.rows same ∙ rw other h

-- The row of another job.
other-Closed : (id j : ℕ) (before : Option Row) → id ≢ j → Closed id (λ db. find j db.rows ≡ before)
unfolding update_metadata update_bitmap set_state with_metadata with_bitmap with_state
other-Closed id j before differ = record {
  metadata =
      λ now meta db h. other-update id j (with_metadata now meta) before db differ (λ r. refl) h;
  bitmap = λ now blob db h. other-update id j (with_bitmap now blob) before db differ (λ r. refl) h;
  state = λ now s db h. other-update id j (with_state now s) before db differ (λ r. refl) h;
}

-- Whatever the probe, the download and the files answer: the run of a job leaves the row of every
-- other job in the table as it was.
pub run_one_job-other_rows :
    {fl : Floats} (crate : UrlCrate) (json : Json) (cfg : DdmConfig) (now id j : ℕ) (a : Answers)
    (final_exists : Text → Bool) (overwrite : Bool) (probe : Text → Option HeadResult)
    (force_restart : Bool) (dir : Option Text) (w : World fl)
    → id ≢ j
    → find j
        (run_one_job crate json cfg now id a final_exists overwrite probe force_restart dir
          w).1.db.rows
      ≡ find j w.db.rows
run_one_job-other_rows crate json cfg now id j a final_exists overwrite probe force dir w differ =
    run_one_job-Closed crate json cfg now id a final_exists overwrite
      (λ db. find j db.rows ≡ find j w.db.rows) (other-Closed id j (find j w.db.rows) differ) probe
      force dir w refl
