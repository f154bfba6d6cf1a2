-- ===== src/Downloader/Pool/Marks.antt =====
-- Which segments a run of the pool marks.
use debian_download_manager.Prelude.{
  ℕ, ◌≡◌, refl, sym, subst, ◌∙◌, ◌⊎◌, inl, inr, Bool, true, false, min, List, [], ◌∷◌, ◌++◌, some,
  ◌==◌, ==→eq, length, get_elem?, All, All-get, All-set, All-append, All-replicate, All-from_get,
  Bool-cases,
}
use debian_download_manager.Prelude.Result.{ok, err}
use debian_download_manager.Retry.Classify.{
  Curl, ErrorKind, timeout, throttled, connection, http5xx, other, SegmentError, classify,
}
use debian_download_manager.Retry.Run.{SegmentResult}
use debian_download_manager.Segmenter.Bitmap.{SegmentBitmap, IsBytes, set_completed, is_completed}
use debian_download_manager.Segmenter.Bitmap.Laws.{is_completed-set_completed}
use debian_download_manager.Segmenter.Bitmap.Bytes.{set_completed-IsBytes}
use debian_download_manager.Downloader.File.{StorageError}
use debian_download_manager.Downloader.Tally.{
  Task, Tally, job_aborted, worker_panicked, segment_failed, on_failed, count_failure, flush,
}
use debian_download_manager.Downloader.Tally.Laws.{
  on_completed-bitmap, flush-bitmap, keep_first-bitmap,
}
use debian_download_manager.Downloader.Pool.{
  Report, Worker, at_abort, at_user_abort, at_pop, stopped, panicked, downloading, sending,
  checking, System, started, unless_set, place, on_error, on_report, next_round, any_panicked, join,
  Step, load_abort, load_user_abort, pop_task, pop_nothing, downloaded, panics, sends, aborts,
  receives, finds_closed, drains, checks, has_received_all, joins, Reach, here, next,
}

module _ {c : Curl} (Outcome : Task → SegmentResult c StorageError → Type 0) (tasks : List Task)
    (before : SegmentBitmap) where
  -- A task of the run.
  abbrev pub IsTask : Task → Type 0
  IsTask task = (k : ℕ) × (get_elem? tasks k ≡ some task)

  -- A task of index `i` may have given `result`.
  abbrev pub Gave : ℕ → SegmentResult c StorageError → Type 0
  Gave i result = (task : Task) × IsTask task × (task.0 ≡ i) × Outcome task result

  abbrev Reported : Report c → Type 0
  Reported (i, result) = Gave i result

  abbrev Honest : Worker c → Type 0
  Honest (downloading task) = IsTask task
  Honest (sending report) = Reported report
  Honest at_abort = Unit
  Honest at_user_abort = Unit
  Honest at_pop = Unit
  Honest stopped = Unit
  Honest panicked = Unit

  -- A bitmap marks what was marked before and what was downloaded.
  record Marked (b : SegmentBitmap) : Type 0 where
    bytes : IsBytes b.bytes
    marks : (i : ℕ) → is_completed b i ≡ true → (is_completed before i ≡ true) ⊎ Gave i (ok tt)

  record Just (s : System c) : Type 0 where
    queued : All IsTask s.queue
    sent : All Reported s.channel
    honest : All Honest s.workers
    marked : Marked s.tally.bitmap

  Marked-set :
      (b : SegmentBitmap) (index : ℕ)
      → Marked b
      → Gave index (ok tt)
      → Marked (set_completed b index)
  Marked-set b index m gave = record {
    bytes = set_completed-IsBytes b index m.bytes;
    marks = λ i h.
        let marks = is_completed-set_completed b index i m.bytes in
        elim (Bool-cases (index == i)) [
          | inl same ↦ inr (subst (λ j. Gave j (ok tt)) (==→eq index i same) gave)
          | inr differ ↦ m.marks i (sym (marks ∙ rw differ refl) ∙ h)
        ];
  }

  -- The tally changes, and its bitmap does not.
  same_bitmap : (b b' : SegmentBitmap) → b' ≡ b → Marked b → Marked b'
  same_bitmap b b' e m = rw e m

  kept :
      (k index : ℕ) (e : SegmentError c StorageError) (s : System c)
      → Just s
      → Just (record s { main = checking k; tally = on_failed index e s.tally })
  unfolding on_failed count_failure
  kept k index e s v = record {
    queued = v.queued;
    sent = v.sent;
    honest = v.honest;
    marked =
        same_bitmap _ _ (keep_first-bitmap (segment_failed index e) (count_failure e s.tally))
          v.marked;
  }

  on_error-Just :
      (kind : ErrorKind) (k index : ℕ) (e : SegmentError c StorageError) (s : System c)
      → Just s
      → Just (on_error kind k index e s)
  unfolding on_error on_failed count_failure
  on_error-Just other k index e s v = record {
    queued = v.queued;
    sent = v.sent;
    honest = v.honest;
    marked = v.marked;
  }
  on_error-Just timeout k index e s v = kept k index e s v
  on_error-Just throttled k index e s v = kept k index e s v
  on_error-Just connection k index e s v = kept k index e s v
  on_error-Just (http5xx code) k index e s v = kept k index e s v

  on_report-Just :
      (p : Bool) (n k : ℕ) (report : Report c) (s : System c)
      → Reported report
      → Just s
      → Just (on_report p n k report s)
  unfolding on_report
  on_report-Just p n k (index, ok tt) s gave v = record {
    queued = v.queued;
    sent = v.sent;
    honest = v.honest;
    marked =
        same_bitmap _ _ (on_completed-bitmap p n index s.tally)
          (Marked-set s.tally.bitmap index v.marked gave);
  }
  on_report-Just p n k (index, err e) s gave v = on_error-Just (classify e) k index e s v

  next_round-Just : (aborted : Bool) (k : ℕ) (s : System c) → Just s → Just (next_round aborted k s)
  next_round-Just true k s v = record {
    queued = v.queued;
    sent = v.sent;
    honest = v.honest;
    marked = same_bitmap _ _ (keep_first-bitmap job_aborted s.tally) v.marked;
  }
  next_round-Just false k s v = record {
    queued = v.queued;
    sent = v.sent;
    honest = v.honest;
    marked = v.marked;
  }

  join-bitmap : (any p : Bool) (n : ℕ) (t : Tally c) → (join any (flush p n t)).bitmap ≡ t.bitmap
  join-bitmap true p n t = keep_first-bitmap worker_panicked (flush p n t) ∙ flush-bitmap p n t
  join-bitmap false p n t = flush-bitmap p n t

  unless_set-Honest : (flag : Bool) (w : Worker c) → Honest w → Honest (unless_set flag w)
  unless_set-Honest true w h = tt
  unless_set-Honest false w h = h

  place-Just : (i : ℕ) (w : Worker c) (s : System c) → Just s → Honest w → Just (place s i w)
  place-Just i w s v h = record {
    queued = v.queued;
    sent = v.sent;
    honest = All-set Honest s.workers i w v.honest h;
    marked = v.marked;
  }

  -- What a worker that stands at `w` has.
  at_work :
      (s : System c) (i : ℕ) {w : Worker c} → Just s → get_elem? s.workers i ≡ some w → Honest w
  at_work s i v e = All-get Honest s.workers i v.honest e

  module _ (has_progress : Bool) (segment_count : ℕ) where
    Step-Just : {s t : System c} → Step Outcome has_progress segment_count s t → Just s → Just t
    Step-Just {s} (load_abort i e) v =
        place-Just i _ s v (unless_set-Honest s.abort_requested at_user_abort tt)
    Step-Just {s} (load_user_abort i e) v =
        place-Just i _ s v (unless_set-Honest s.user_abort at_pop tt)
    Step-Just {s} (pop_task i {task} {rest} e q) v =
        let all = subst (λ ts. All IsTask ts) q v.queued in
        place-Just i (downloading task) (record s { queue = rest })
          (record { queued = all.1; sent = v.sent; honest = v.honest; marked = v.marked }) all.0
    Step-Just {s} (pop_nothing i e q) v = place-Just i stopped s v tt
    Step-Just {s} (downloaded i {task} result e gives) v =
        place-Just i (sending (task.0, result)) s v (task, at_work s i v e, refl, gives)
    Step-Just {s} (panics i e) v = place-Just i panicked s v tt
    Step-Just {s} (sends i {report} e) v =
        place-Just i at_abort (record s { channel = s.channel ++ report ∷ [] })
          (record {
            queued = v.queued;
            sent = All-append Reported s.channel (report ∷ []) v.sent (at_work s i v e, tt);
            honest = v.honest;
            marked = v.marked;
          })
          tt
    Step-Just {s} (aborts e) v = record {
      queued = v.queued;
      sent = v.sent;
      honest = v.honest;
      marked = v.marked;
    }
    Step-Just {s} (receives {k} {report} {rest} e q) v =
        let all = subst (λ rs. All Reported rs) q v.sent in
        on_report-Just has_progress segment_count k report (record s { channel = rest }) all.0
          (record { queued = v.queued; sent = all.1; honest = v.honest; marked = v.marked })
    Step-Just {s} (finds_closed e q ended) v = record {
      queued = v.queued;
      sent = v.sent;
      honest = v.honest;
      marked = v.marked;
    }
    Step-Just {s} (drains {k} {index} {e} h) v = record {
      queued = tt;
      sent = v.sent;
      honest = v.honest;
      marked = same_bitmap _ _ (keep_first-bitmap (segment_failed index e) s.tally) v.marked;
    }
    Step-Just {s} (checks {k} e) v = next_round-Just s.user_abort k s v
    Step-Just {s} (has_received_all e) v = record {
      queued = v.queued;
      sent = v.sent;
      honest = v.honest;
      marked = v.marked;
    }
    Step-Just {s} (joins e ended) v = record {
      queued = v.queued;
      sent = v.sent;
      honest = v.honest;
      marked =
          same_bitmap _ _ (join-bitmap (any_panicked s.workers) has_progress segment_count s.tally)
            v.marked;
    }

    Reach-Just : {s t : System c} → Just s → Reach Outcome has_progress segment_count s t → Just t
    Reach-Just v here = v
    Reach-Just v (next run last) = Step-Just last (Reach-Just v run)

    started-Just :
        (max_concurrent : ℕ) (aborted : Bool)
        → IsBytes before.bytes
        → Just (started tasks max_concurrent aborted before)
    started-Just m aborted bytes = record {
      queued = All-from_get IsTask tasks (λ k task e. (k, e));
      sent = tt;
      honest = All-replicate Honest (min m (length tasks)) at_abort tt;
      marked = record { bytes = bytes; marks = λ i h. inl h };
    }

    -- However the workers, the user and the receiving loop interleave, at every moment of a run: a
    -- segment that the bitmap marks was marked before the run, or it is a task of the run whose
    -- download may return without an error.
    pub run_concurrent-marks :
        (max_concurrent : ℕ) (aborted : Bool) {t : System c} (i : ℕ)
        → IsBytes before.bytes
        → Reach Outcome has_progress segment_count (started tasks max_concurrent aborted before) t
        → is_completed t.tally.bitmap i ≡ true
        → (is_completed before i ≡ true) ⊎ Gave i (ok tt)
    run_concurrent-marks m aborted i bytes run marked =
        (Reach-Just (started-Just m aborted bytes) run).marked.marks i marked
