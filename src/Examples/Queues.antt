-- ===== src/Examples/Queues.antt =====
-- Two queued jobs that run side by side.
use debian_download_manager.Prelude.{ℕ, ◌≤◌, ◌≡◌, refl, [], length, All, arith}
use debian_download_manager.Prelude.Result.{ok, err}
use debian_download_manager.Prelude.Text.{text_eq}
use debian_download_manager.ResumeDb.Types.{completed, as_str}
use debian_download_manager.ResumeDb.Jobs.{
  claim_next_queued_job, first_queued, update_where_id, with_state, new_row, set_state,
}
use debian_download_manager.HostPolicy.State.{new}
use debian_download_manager.Downloader.Multi.{remove_at}
use debian_download_manager.Scheduler.Parallel.{
  state, returned, Jobs, run_jobs_parallel, claims, finds_none, is_full, is_empty, joins,
  joins_failed, writes, learns, Reach, here, next,
}
use debian_download_manager.Scheduler.Parallel.Table.{AreDistinct, NoneQueued, IsIdle}
use debian_download_manager.Scheduler.Parallel.Laws.{
  run_jobs_parallel-IsSound, run_jobs_parallel-ok, run_jobs_parallel-loses_policy,
}
use debian_download_manager.Examples.Jobs.{two_jobs, two_jobs-IsValid}
use debian_download_manager.Examples.Hosts.{whole, one_host}
use debian_download_manager.Examples.Connections.{cfg}

abbrev begun : Jobs whole ℕ
begun = run_jobs_parallel cfg one_host two_jobs

-- Both jobs are claimed and complete, the second one first.
whole_queue : (s : Jobs whole ℕ) × Reach 2 begun s × (s.phase ≡ returned (ok 2))
unfolding claim_next_queued_job first_queued update_where_id with_state new_row set_state remove_at
    as_str text_eq
whole_queue = (
  _,
  (next
      (next
        (next
          (next
            (next
              (next
                (next
                  (next
                    (next
                      (next (next here (claims 20 refl (omega arith) refl))
                        (claims 21 refl (omega arith) refl))
                      (is_full refl (omega arith)))
                    (writes 1 refl (state 30 completed (λ e. cc))))
                  (joins 1 refl refl))
                (finds_none 31 refl (omega arith) refl))
              (writes 0 refl (state 32 completed (λ e. cc))))
            (learns 0 one_host refl))
          (joins 0 refl refl))
        (finds_none 33 refl (omega arith) refl))
      (is_empty refl refl)),
  refl,
)

-- The first job fails while the second one is in flight.
failed_queue : (s : Jobs whole ℕ) × Reach 2 begun s × (s.phase ≡ returned (err 5))
unfolding claim_next_queued_job first_queued update_where_id with_state new_row remove_at as_str
    text_eq
failed_queue = (
  _,
  (next
      (next
        (next (next here (claims 20 refl (omega arith) refl)) (claims 21 refl (omega arith) refl))
        (is_full refl (omega arith)))
      (joins_failed 0 5 refl refl)),
  refl,
)

run_jobs_parallel-IsSound_example :
    (length whole_queue.0.join_set ≤ 2)
    × AreDistinct whole_queue.0.join_set
    × All (IsIdle whole_queue.0.db.rows) whole_queue.0.join_set
run_jobs_parallel-IsSound_example =
    run_jobs_parallel-IsSound cfg 2 one_host two_jobs two_jobs-IsValid whole_queue.1

run_jobs_parallel-ok_example :
    (whole_queue.0.join_set ≡ [])
    × NoneQueued whole_queue.0.db.rows
    × (whole_queue.0.host_policy ≡ whole_queue.0.shared_policy)
run_jobs_parallel-ok_example =
    run_jobs_parallel-ok cfg 2 one_host two_jobs two_jobs-IsValid whole_queue.1 whole_queue.2

run_jobs_parallel-loses_policy_example :
    failed_queue.0.host_policy ≡ new cfg.min_segments cfg.max_segments
run_jobs_parallel-loses_policy_example =
    run_jobs_parallel-loses_policy cfg 2 one_host two_jobs failed_queue.1 failed_queue.2
