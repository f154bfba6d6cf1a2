-- ===== src/Examples/Multis.antt =====
-- One segment through the loop of the multi backend and through the sequential one.
use debian_download_manager.Prelude.{
  ℕ, ◌+◌, ◌<◌, ◌≡◌, ◌⊎◌, refl, true, false, [], ◌∷◌, Option, some, none, arith,
}
use debian_download_manager.Prelude.Bits.{test_bit}
use debian_download_manager.Prelude.Result.{ok}
use debian_download_manager.Retry.Classify.{http, classify, classify_http_status}
use debian_download_manager.Retry.Policy.{default_policy, decide, backoff}
use debian_download_manager.Retry.Run.{SegmentResult}
use debian_download_manager.Segmenter.Range.{Segment}
use debian_download_manager.Segmenter.Bitmap.{new, is_completed}
use debian_download_manager.Downloader.File.{StorageError}
use debian_download_manager.Downloader.Tally.{
  Task, incomplete_from, on_completed, flush, send, no_events,
}
use debian_download_manager.Downloader.Tally.Open.{total, is}
use debian_download_manager.Downloader.Multi.{
  Loop, Round, left, remove_at, sort_desc, on_result, finish_all, add_first, take_ready,
  refill_ready, refill_from, refill_active, round, run_loop, run_multi,
}
use debian_download_manager.Downloader.Multi.Places.{of_waiting}
use debian_download_manager.Downloader.Multi.Laws.{run_multi-ok}
use debian_download_manager.Downloader.Multi.Forgets.{failing, run_multi-forgets}
use debian_download_manager.Downloader.Unbounded.{
  on_joined, collect, join_all, run_unbounded, download_segments,
}
use debian_download_manager.Downloader.Unbounded.Laws.{download_segments-ok}
use debian_download_manager.Examples.Retries.{codes_of_curl}

abbrev segment : Segment
segment = record { start = 0; end = 5 }

abbrev delivered : Round codes_of_curl
delivered = record {
  aborted = false;
  performed = true;
  messages = record { place = 0; removed = true; now = 3; result = ok tt } ∷ [];
  now = 4;
  can_add = λ task. true;
  running = 0;
  waited = true;
}

ended :
    (l : Loop codes_of_curl) × (run_multi
        (some default_policy)
        true
        1
        4
        (λ task. true)
        (delivered ∷ [])
        (incomplete_from (new 1) 0 (segment ∷ []))
        (new 1)
      ≡ left l)
    × (l.tally.first_error ≡ none)
unfolding run_multi run_loop add_first round sort_desc finish_all on_result remove_at refill_active
    refill_from refill_ready take_ready incomplete_from is_completed new test_bit on_completed flush
    send
ended = (_, refl, refl)

run_multi-ok_example :
    (is_completed ended.0.tally.bitmap 0 ≡ true)
    ⊎ (0 < total (of_waiting (is 0)) ended.0.retry_after)
unfolding new
run_multi-ok_example =
    run_multi-ok (some default_policy) true 1 4 (λ task. true) (delivered ∷ []) (segment ∷ [])
      (new 1) 0 (omega arith) (omega arith) ended.1 ended.2 refl

abbrev the_task : Task
the_task = (0, segment)

-- The server is busy (503): the retry is due after 250 ms, and the round takes 5 ns.
run_multi-forgets_example :
    (l : Loop codes_of_curl) × (run_multi
        (some default_policy)
        true
        1
        4
        (λ task. true)
        (failing default_policy true 1 4 (λ task. true) (http 503) 100 105 0 ∷ [])
        (the_task ∷ [])
        (new 1)
      ≡ left l)
    × (l.tally.first_error ≡ none)
    × (l.tally.bitmap ≡ new 1)
    × (l.retry_after ≡ record { ready_at = 250_000_100; task = the_task; attempt = 2 } ∷ [])
unfolding decide classify classify_http_status backoff
run_multi-forgets_example =
    run_multi-forgets default_policy true 1 4 (λ task. true) the_task 100 105 0 250_000_000
      (http 503) [] (new 1) (omega arith) refl refl (omega arith)

-- Each download counts itself and succeeds.
abbrev counts : Task → ℕ → Option (SegmentResult codes_of_curl StorageError) × ℕ
counts task n = (some (ok tt), n + 1)

download_segments-ok_example :
    is_completed (download_segments counts true no_events false (segment ∷ []) (new 1) 7).0.bitmap 0
    ≡ true
unfolding new download_segments run_unbounded join_all collect on_joined incomplete_from
    is_completed test_bit on_completed flush send
download_segments-ok_example =
    download_segments-ok counts true no_events false (segment ∷ []) (new 1) 7 0 segment
      (omega arith) refl refl
