-- ===== src/Downloader/Pool.antt =====
-- crates/ddm-core/src/downloader/run.rs: `run_concurrent`. The workers and the loop that receives
-- their results interleave: every load of a flag, every access to the queue, every download, send
-- and receive is one step. What a download returns is any result that `Outcome` allows for its task
-- (`download_one_segment` under `run_with_retry`), or it panics.
pub mod Counts
pub mod Invariant
pub mod Laws
pub mod Ends
pub mod Aborted
pub mod Marks
pub mod Outcomes
pub mod Content
use debian_download_manager.Prelude.{
  ℕ, zero, suc, ◌-◌, ◌≡◌, min, Bool, true, false, List, [], ◌∷◌, ◌++◌, Option, none, some, length,
  get_elem?, set, replicate, All,
}
use debian_download_manager.Prelude.Result.{Result, ok, err}
use debian_download_manager.Retry.Classify.{
  Curl, ErrorKind, timeout, throttled, connection, http5xx, other, SegmentError, classify,
}
use debian_download_manager.Retry.Run.{SegmentResult}
use debian_download_manager.Segmenter.Range.{Segment}
use debian_download_manager.Segmenter.Bitmap.{SegmentBitmap}
use debian_download_manager.Downloader.File.{StorageError}
use debian_download_manager.Downloader.Tally.{
  Task, RunError, job_aborted, channel_closed, worker_panicked, segment_failed, Tally, fresh, flush,
  keep_first, on_completed, on_failed, count_failure,
}

module _ (c : Curl) where
  abbrev pub Report : Type 0
  Report = ℕ × SegmentResult c StorageError

  -- Where a worker stands: before the load of the abort flag, of the user's flag, before the pop,
  -- in the download, before the send; or its loop has ended.
  pub data Worker : Type 0 where
    at_abort at_user_abort at_pop stopped panicked : Worker
    downloading : Task → Worker
    sending : Report → Worker

  -- Where the receiving loop stands, with `to_receive`: before the receive, before it drains the
  -- queue for an error that is not retried, before the load of the user's flag, at the join of the
  -- workers; or it has returned.
  pub data Main : Type 0 where
    receiving : ℕ → Main
    draining : ℕ → ℕ → SegmentError c StorageError → Main
    checking : ℕ → Main
    joining : Main
    returned : Main

  pub record System : Type 0 where
    pub queue : List Task
    pub channel : List Report
    pub workers : List Worker
    pub abort_requested : Bool
    pub user_abort : Bool
    pub main : Main
    pub tally : Tally c

  -- No worker will send any more, which closes the channel.
  abbrev pub HasEnded : Worker → Type 0
  HasEnded stopped = Unit
  HasEnded panicked = Unit
  HasEnded _ = ⊥

module _ {c : Curl} where
  abbrev pub started : List Task → ℕ → Bool → SegmentBitmap → System c
  started incomplete max_concurrent user_abort bitmap = record {
    queue = incomplete;
    channel = [];
    workers = replicate (min max_concurrent (length incomplete)) at_abort;
    abort_requested = false;
    user_abort = user_abort;
    main = receiving (length incomplete);
    tally = fresh bitmap;
  }

  -- The next place of a worker that loaded a flag.
  abbrev pub unless_set : Bool → Worker c → Worker c
  unless_set true next = stopped
  unless_set false next = next

  abbrev pub place : System c → ℕ → Worker c → System c
  place s i w = record s { workers = set s.workers i w }

  unfoldable pub on_error : ErrorKind → ℕ → ℕ → SegmentError c StorageError → System c → System c
  on_error other k index e s = record s {
    main = draining k index e;
    tally = count_failure e s.tally;
    abort_requested = true;
  }
  on_error timeout k index e s = record s { main = checking k; tally = on_failed index e s.tally }
  on_error throttled k index e s = record s { main = checking k; tally = on_failed index e s.tally }
  on_error connection k index e s = record s {
    main = checking k;
    tally = on_failed index e s.tally;
  }
  on_error (http5xx code) k index e s = record s {
    main = checking k;
    tally = on_failed index e s.tally;
  }

  -- The receiving loop after the result of a segment.
  unfoldable pub on_report : Bool → ℕ → ℕ → Report c → System c → System c
  unfolding on_error
  on_report p n k (index, ok done) s = record s {
    main = checking k;
    tally = on_completed p n index s.tally;
  }
  on_report p n k (index, err e) s = on_error (classify e) k index e s

  abbrev pub next_round : Bool → ℕ → System c → System c
  next_round true k s = record s { main = joining; tally = keep_first job_aborted s.tally }
  next_round false k s = record s { main = receiving k }

  abbrev pub any_panicked : List (Worker c) → Bool
  any_panicked [] = false
  any_panicked (panicked ∷ ws) = true
  any_panicked (_ ∷ ws) = any_panicked ws

  abbrev pub join : Bool → Tally c → Tally c
  join true t = keep_first worker_panicked t
  join false t = t

  module _ (Outcome : Task → SegmentResult c StorageError → Type 0) (has_progress : Bool)
      (segment_count : ℕ) where
    pub data Step (s : System c) : System c → Type 0 where
      -- a worker
      load_abort :
          (i : ℕ)
          → get_elem? s.workers i ≡ some at_abort
          → Step s (place s i (unless_set s.abort_requested at_user_abort))
      load_user_abort :
          (i : ℕ)
          → get_elem? s.workers i ≡ some at_user_abort
          → Step s (place s i (unless_set s.user_abort at_pop))
      pop_task :
          (i : ℕ) {task : Task} {rest : List Task}
          → get_elem? s.workers i ≡ some at_pop
          → s.queue ≡ task ∷ rest
          → Step s (place (record s { queue = rest }) i (downloading task))
      pop_nothing :
          (i : ℕ) → get_elem? s.workers i ≡ some at_pop → s.queue ≡ [] → Step s (place s i stopped)
      downloaded :
          (i : ℕ) {task : Task} (result : SegmentResult c StorageError)
          → get_elem? s.workers i ≡ some (downloading task)
          → Outcome task result
          → Step s (place s i (sending (task.0, result)))
      panics :
          (i : ℕ) {task : Task}
          → get_elem? s.workers i ≡ some (downloading task)
          → Step s (place s i panicked)
      sends :
          (i : ℕ) {report : Report c}
          → get_elem? s.workers i ≡ some (sending report)
          → Step s (place (record s { channel = s.channel ++ report ∷ [] }) i at_abort)
      -- the user
      aborts : s.user_abort ≡ false → Step s (record s { user_abort = true })
      -- the receiving loop
      receives :
          {k : ℕ} {report : Report c} {rest : List (Report c)}
          → s.main ≡ receiving (suc k)
          → s.channel ≡ report ∷ rest
          → Step s (on_report has_progress segment_count k report (record s { channel = rest }))
      finds_closed :
          {k : ℕ}
          → s.main ≡ receiving (suc k)
          → s.channel ≡ []
          → All (HasEnded c) s.workers
          → Step s (record s {
            main = joining;
            tally = record s.tally { first_error = some channel_closed };
          })
      drains :
          {k index : ℕ} {e : SegmentError c StorageError}
          → s.main ≡ draining k index e
          → Step s (record s {
            queue = [];
            main = checking (k - length s.queue);
            tally = keep_first (segment_failed index e) s.tally;
          })
      checks : {k : ℕ} → s.main ≡ checking k → Step s (next_round s.user_abort k s)
      has_received_all : s.main ≡ receiving zero → Step s (record s { main = joining })
      joins :
          s.main ≡ joining
          → All (HasEnded c) s.workers
          → Step s (record s {
            main = returned;
            tally = join (any_panicked s.workers) (flush has_progress segment_count s.tally);
          })

    pub data Reach (s : System c) : System c → Type 0 where
      here : Reach s s
      next : {t u : System c} → Reach s t → Step t u → Reach s u
