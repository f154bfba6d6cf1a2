-- ===== src/Downloader/Pool/Aborted.antt =====
-- The user's abort, set before a worker takes its first task.
use debian_download_manager.Prelude.{
  ℕ, zero, suc, ◌<◌, min, ◌≡◌, refl, subst, ◌∙◌, Bool, true, false, List, [], ◌∷◌, some, length,
  All, All-get, All-set, All-replicate,
}
use debian_download_manager.Retry.Classify.{Curl}
use debian_download_manager.Retry.Run.{SegmentResult}
use debian_download_manager.Segmenter.Bitmap.{SegmentBitmap}
use debian_download_manager.Downloader.File.{StorageError}
use debian_download_manager.Downloader.Tally.{Task, Tally, channel_closed, flush}
use debian_download_manager.Downloader.Tally.Laws.{flush-first_error}
use debian_download_manager.Downloader.Pool.{
  Worker, at_abort, at_user_abort, at_pop, stopped, panicked, downloading, sending, Main, receiving,
  draining, checking, joining, returned, System, started, unless_set, place, any_panicked, join,
  Step, load_abort, load_user_abort, pop_task, pop_nothing, downloaded, panics, sends, aborts,
  receives, finds_closed, drains, checks, has_received_all, joins, Reach, here, next,
}

module _ {c : Curl} where
  -- A worker that has no task and will not take one.
  abbrev Idle : Worker c → Type 0
  Idle at_abort = Unit
  Idle at_user_abort = Unit
  Idle stopped = Unit
  Idle _ = ⊥

  abbrev Closed : Main c → Tally c → Type 0
  Closed (receiving zero) t = ⊥
  Closed (receiving (suc k)) t = Unit
  Closed (draining k index e) t = ⊥
  Closed (checking k) t = ⊥
  Closed joining t = t.first_error ≡ some channel_closed
  Closed returned t = t.first_error ≡ some channel_closed

  record IsAborted (s : System c) : Type 0 where
    aborted : s.user_abort ≡ true
    silent : s.channel ≡ []
    idle : All Idle s.workers
    closed : Closed s.main s.tally

  Idle-not_panicked : (ws : List (Worker c)) → All Idle ws → any_panicked ws ≡ false
  Idle-not_panicked [] h = refl
  Idle-not_panicked (at_abort ∷ ws) h = Idle-not_panicked ws h.1
  Idle-not_panicked (at_user_abort ∷ ws) h = Idle-not_panicked ws h.1
  Idle-not_panicked (stopped ∷ ws) h = Idle-not_panicked ws h.1
  Idle-not_panicked (at_pop ∷ ws) h = absurd h.0
  Idle-not_panicked (panicked ∷ ws) h = absurd h.0
  Idle-not_panicked (downloading task ∷ ws) h = absurd h.0
  Idle-not_panicked (sending report ∷ ws) h = absurd h.0

  unless_set-Idle : (flag : Bool) (w : Worker c) → Idle w → Idle (unless_set flag w)
  unless_set-Idle true w h = tt
  unless_set-Idle false w h = h

  Closed_at : {m m' : Main c} (t : Tally c) → m ≡ m' → Closed m t → Closed m' t
  Closed_at t e h = subst (λ m. Closed m t) e h

  place-IsAborted :
      (s : System c) (i : ℕ) (w : Worker c) → IsAborted s → Idle w → IsAborted (place s i w)
  place-IsAborted s i w v h = record {
    aborted = v.aborted;
    silent = v.silent;
    idle = All-set Idle s.workers i w v.idle h;
    closed = v.closed;
  }

  join-closed :
      (p : Bool) (n : ℕ) (any : Bool) (t : Tally c)
      → any ≡ false
      → t.first_error ≡ some channel_closed
      → (join any (flush p n t)).first_error ≡ some channel_closed
  join-closed p n true t e h = absurd (cc e)
  join-closed p n false t e h = flush-first_error p n t ∙ h

  module _ (Outcome : Task → SegmentResult c StorageError → Type 0) (has_progress : Bool)
      (segment_count : ℕ) where
    Step-IsAborted :
        {s t : System c} → Step Outcome has_progress segment_count s t → IsAborted s → IsAborted t
    Step-IsAborted {s} (load_abort i e) v =
        place-IsAborted s i _ v (unless_set-Idle s.abort_requested at_user_abort tt)
    Step-IsAborted {s} (load_user_abort i e) v = place-IsAborted s i _ v (rw v.aborted tt)
    Step-IsAborted {s} (pop_task i e q) v = absurd (All-get Idle s.workers i v.idle e)
    Step-IsAborted {s} (pop_nothing i e q) v = absurd (All-get Idle s.workers i v.idle e)
    Step-IsAborted {s} (downloaded i r e o) v = absurd (All-get Idle s.workers i v.idle e)
    Step-IsAborted {s} (panics i e) v = absurd (All-get Idle s.workers i v.idle e)
    Step-IsAborted {s} (sends i e) v = absurd (All-get Idle s.workers i v.idle e)
    Step-IsAborted {s} (aborts e) v = absurd (cc (e, v.aborted))
    Step-IsAborted {s} (receives e q) v = absurd (cc (q, v.silent))
    Step-IsAborted {s} (finds_closed e q ended) v = record {
      aborted = v.aborted;
      silent = v.silent;
      idle = v.idle;
      closed = refl;
    }
    Step-IsAborted {s} (drains e) v = absurd (Closed_at s.tally e v.closed)
    Step-IsAborted {s} (checks e) v = absurd (Closed_at s.tally e v.closed)
    Step-IsAborted {s} (has_received_all e) v = absurd (Closed_at s.tally e v.closed)
    Step-IsAborted {s} (joins e ended) v = record {
      aborted = v.aborted;
      silent = v.silent;
      idle = v.idle;
      closed =
          join-closed has_progress segment_count (any_panicked s.workers) s.tally
            (Idle-not_panicked s.workers v.idle) (Closed_at s.tally e v.closed);
    }

    Reach-IsAborted :
        {s t : System c} → Reach Outcome has_progress segment_count s t → IsAborted s → IsAborted t
    Reach-IsAborted here v = v
    Reach-IsAborted (next before last) v = Step-IsAborted last (Reach-IsAborted before v)

    started-IsAborted :
        (tasks : List Task) (max_concurrent : ℕ) (b : SegmentBitmap)
        → 0 < length tasks
        → IsAborted (started tasks max_concurrent true b)
    started-IsAborted [] m b h = elim h [ ]
    started-IsAborted (task ∷ tasks) m b h = record {
      aborted = refl;
      silent = refl;
      idle = All-replicate Idle (min m (suc (length tasks))) at_abort tt;
      closed = tt;
    }

    -- If the user's flag is set when the run starts and there is a task to run, then a run that
    -- returns does so with the error of a closed channel, in every interleaving: the abort is not
    -- reported as one.
    pub run_concurrent-aborted_early :
        (tasks : List Task) (max_concurrent : ℕ) (b : SegmentBitmap) {t : System c}
        → 0 < length tasks
        → Reach Outcome has_progress segment_count (started tasks max_concurrent true b) t
        → t.main ≡ returned
        → t.tally.first_error ≡ some channel_closed
    run_concurrent-aborted_early tasks m b {t} some_task run end =
        Closed_at t.tally end (Reach-IsAborted run (started-IsAborted tasks m b some_task)).closed
