-- ===== src/Downloader/Pool/Counts.antt =====
-- How many tasks wait in the queue, are with a worker or wait in the channel: each counted by a
-- weight of its index, and a panicked worker by the weight of `none`.
use debian_download_manager.Prelude.{ℕ, ◌+◌, ◌≤◌, Option, none, some, arith}
use debian_download_manager.Retry.Classify.{Curl}
use debian_download_manager.Downloader.Tally.Open.{total, total-le, each, is, is-le-each, of_task}
use debian_download_manager.Downloader.Pool.{
  Report, Worker, at_abort, at_user_abort, at_pop, stopped, panicked, downloading, sending, System,
}

module _ {c : Curl} where
  abbrev pub of_report : (Option ℕ → ℕ) → Report c → ℕ
  of_report f report = f (some report.0)

  abbrev pub of_worker : (Option ℕ → ℕ) → Worker c → ℕ
  of_worker f (downloading task) = f (some task.0)
  of_worker f (sending report) = f (some report.0)
  of_worker f panicked = f none
  of_worker f at_abort = 0
  of_worker f at_user_abort = 0
  of_worker f at_pop = 0
  of_worker f stopped = 0

  -- What is still to be received.
  abbrev pub held : (Option ℕ → ℕ) → System c → ℕ
  held f s =
      total (of_task f) s.queue + total (of_worker f) s.workers + total (of_report f) s.channel

  of_worker-is : (i : ℕ) (w : Worker c) → of_worker (is i) w ≤ of_worker each w
  of_worker-is i (downloading task) = is-le-each i (some task.0)
  of_worker-is i (sending report) = is-le-each i (some report.0)
  of_worker-is i panicked = omega arith
  of_worker-is i at_abort = omega arith
  of_worker-is i at_user_abort = omega arith
  of_worker-is i at_pop = omega arith
  of_worker-is i stopped = omega arith

  pub held-is : (i : ℕ) (s : System c) → held (is i) s ≤ held each s
  held-is i s = omega (
    arith,
    total-le (of_task (is i)) (of_task each) (λ t. is-le-each i (some t.0)) s.queue,
    total-le (of_worker (is i)) (of_worker each) (of_worker-is i) s.workers,
    total-le (of_report (is i)) (of_report each) (λ r. is-le-each i (some r.0)) s.channel,
  )
