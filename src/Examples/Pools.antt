-- ===== src/Examples/Pools.antt =====
-- One worker that downloads one segment, and one that the user aborts first.
use debian_download_manager.Prelude.{
  ◌≡◌, refl, Bool, true, false, List, [], ◌∷◌, ◌⊎◌, some, none, arith,
}
use debian_download_manager.Prelude.Result.{ok}
use debian_download_manager.Prelude.Bits.{test_bit}
use debian_download_manager.Retry.Run.{SegmentResult}
use debian_download_manager.Segmenter.Range.{Segment, plan_segments, plan_loop}
use debian_download_manager.Segmenter.Bitmap.{new, is_completed}
use debian_download_manager.Downloader.File.{StorageError}
use debian_download_manager.Downloader.Tally.{
  Task, incomplete_from, on_completed, flush, send, channel_closed,
}
use debian_download_manager.Downloader.Pool.{
  returned, System, started, on_report, load_abort, load_user_abort, pop_task, pop_nothing,
  downloaded, sends, receives, finds_closed, checks, has_received_all, joins, Reach, here, next,
}
use debian_download_manager.Downloader.Pool.Laws.{run_concurrent-ok}
use debian_download_manager.Downloader.Pool.Marks.{Gave, run_concurrent-marks}
use debian_download_manager.Downloader.Pool.Ends.{Terminates, run_concurrent-Terminates}
use debian_download_manager.Downloader.Pool.Aborted.{run_concurrent-aborted_early}
use debian_download_manager.Examples.Retries.{codes_of_curl}

abbrev one : List Segment
one = plan_segments 5 1

abbrev the_task : Task
the_task = (0, record { start = 0; end = 5 })

-- Every download succeeds.
abbrev Succeeds : Task → SegmentResult codes_of_curl StorageError → Type 0
Succeeds task result = result ≡ ok tt

abbrev begun : Bool → System codes_of_curl
begun aborted = started (the_task ∷ []) 1 aborted (new 1)

closed_run : (t : System codes_of_curl) × Reach Succeeds true 1 (begun true) t × (t.main ≡ returned)
closed_run = (
  _,
  next
      (next (next (next here (load_abort 0 refl)) (load_user_abort 0 refl))
        (finds_closed refl refl (tt, tt)))
      (joins refl (tt, tt)),
  refl,
)

run_concurrent-aborted_early_example : closed_run.0.tally.first_error ≡ some channel_closed
run_concurrent-aborted_early_example =
    run_concurrent-aborted_early Succeeds true 1 (the_task ∷ []) 1 (new 1) (omega arith)
      closed_run.1 closed_run.2

run_concurrent-Terminates_example : Terminates Succeeds true 1 (begun false)
run_concurrent-Terminates_example =
    run_concurrent-Terminates Succeeds true 1 (λ task. (ok tt, refl)) (begun false)

whole_run :
    (t : System codes_of_curl) × Reach Succeeds true 1
      (started (incomplete_from (new 1) 0 one) 1 false (new 1))
      t
    × (t.main ≡ returned)
    × (t.tally.first_error ≡ none)
unfolding incomplete_from plan_segments plan_loop is_completed new on_report on_completed flush send
    test_bit
whole_run = (
  _,
  next
      (next
        (next
          (next
            (next
              (next
                (next
                  (next
                    (next
                      (next (next (next here (load_abort 0 refl)) (load_user_abort 0 refl))
                        (pop_task 0 refl refl))
                      (downloaded 0 (ok tt) refl refl))
                    (sends 0 refl))
                  (receives refl refl))
                (checks refl))
              (has_received_all refl))
            (load_abort 0 refl))
          (load_user_abort 0 refl))
        (pop_nothing 0 refl refl))
      (joins refl (tt, tt)),
  refl,
  refl,
)

run_concurrent-ok_example : is_completed whole_run.0.tally.bitmap 0 ≡ true
unfolding new plan_segments plan_loop
run_concurrent-ok_example =
    run_concurrent-ok Succeeds true 1 one (new 1) 1 false 0 (record { start = 0; end = 5 })
      (omega arith) whole_run.1 whole_run.2 whole_run.3 refl

run_concurrent-marks_example :
    (is_completed (new 1) 0 ≡ true)
    ⊎ Gave Succeeds (incomplete_from (new 1) 0 one) (new 1) 0 (ok tt)
unfolding new plan_segments plan_loop
run_concurrent-marks_example =
    run_concurrent-marks Succeeds (incomplete_from (new 1) 0 one) (new 1) true 1 1 false 0
      (omega arith) whole_run.1
      (run_concurrent-ok Succeeds true 1 one (new 1) 1 false 0 (record { start = 0; end = 5 })
        (omega arith) whole_run.1 whole_run.2 whole_run.3 refl)
