-- ===== src/Downloader/Pool/Laws.antt =====
-- What a run of the pool has done when it returns without an error.
use debian_download_manager.Prelude.{
  ℕ, ◌+◌, min, ◌≡◌, refl, ap, inl, inr, Bool, true, List, [], ◌∷◌, ◌++◌, Option, none, some, arith,
  length, get_elem?,
}
use debian_download_manager.Retry.Classify.{Curl}
use debian_download_manager.Retry.Run.{SegmentResult}
use debian_download_manager.Segmenter.Range.{Segment}
use debian_download_manager.Segmenter.Bitmap.{SegmentBitmap, IsBytes, is_completed}
use debian_download_manager.Downloader.File.{StorageError}
use debian_download_manager.Downloader.Tally.{Task, Tally, incomplete_from, channel_closed}
use debian_download_manager.Downloader.Tally.Laws.{HasError}
use debian_download_manager.Downloader.Pool.{
  at_abort, at_user_abort, at_pop, stopped, panicked, downloading, sending, returned, System,
  started, unless_set, any_panicked, Step, load_abort, load_user_abort, pop_task, pop_nothing,
  downloaded, panics, sends, aborts, receives, finds_closed, drains, checks, has_received_all,
  joins, Reach, here, next,
}
use debian_download_manager.Downloader.Tally.Open.{
  total, total-append, total-replicate, total-length, each, is, is-le-each, of_task,
  task_or_completed,
}
use debian_download_manager.Downloader.Pool.Counts.{of_report, of_worker, held-is}
use debian_download_manager.Downloader.Pool.Invariant.{
  Inv, InvOf, moved, worker_moves, fails, report-Inv, next_round-Inv, drained-Inv, join-Inv,
  all_received-Inv, at, unless_set-holds,
}

module _ {c : Curl} (Outcome : Task → SegmentResult c StorageError → Type 0) (has_progress : Bool)
    (segment_count : ℕ) where
  -- A list whose first element is taken.
  taken {ℓ} :
      {A : Type ℓ} (g : A → ℕ) {xs rest : List A} {x : A}
      → xs ≡ x ∷ rest
      → total g xs ≡ g x + total g rest
  unfolding total
  taken g e = ap (total g) e

  appended {ℓ} :
      {A : Type ℓ} (g : A → ℕ) (xs : List A) (x : A) → total g (xs ++ x ∷ []) ≡ total g xs + g x
  unfolding total
  appended g xs x = omega (arith, total-append g xs (x ∷ []))

  Step-Inv :
      (i : ℕ) {s t : System c} → Step Outcome has_progress segment_count s t → InvOf i s → InvOf i t
  Step-Inv i {s} (load_abort j e) v =
      let w = unless_set s.abort_requested at_user_abort in
      let zero_of =
        λ (f : Option ℕ → ℕ). unless_set-holds {c = c} f s.abort_requested at_user_abort refl in
      worker_moves i j s s.queue s.channel at_abort w v e (omega (arith, zero_of each))
        (omega (arith, zero_of (is i)))
  Step-Inv i {s} (load_user_abort j e) v =
      let w = unless_set s.user_abort at_pop in
      let zero_of = λ (f : Option ℕ → ℕ). unless_set-holds {c = c} f s.user_abort at_pop refl in
      worker_moves i j s s.queue s.channel at_user_abort w v e (omega (arith, zero_of each))
        (omega (arith, zero_of (is i)))
  Step-Inv i {s} (pop_task j {task} {rest} e q) v =
      worker_moves i j s rest s.channel at_pop (downloading task) v e
        (omega (arith, taken (of_task each) q)) (omega (arith, taken (of_task (is i)) q))
  Step-Inv i {s} (pop_nothing j e q) v =
      worker_moves i j s s.queue s.channel at_pop stopped v e (omega arith) (omega arith)
  Step-Inv i {s} (downloaded j {task} r e o) v =
      worker_moves i j s s.queue s.channel (downloading task) (sending (task.0, r)) v e
        (omega arith) (omega arith)
  Step-Inv i {s} (panics j {task} e) v =
      worker_moves i j s s.queue s.channel (downloading task) panicked v e (omega arith)
        (omega (arith, is-le-each i (some task.0)))
  Step-Inv i {s} (sends j {report} e) v =
      worker_moves i j s s.queue (s.channel ++ report ∷ []) (sending report) at_abort v e
        (omega (arith, appended (of_report each) s.channel report))
        (omega (arith, appended (of_report (is i)) s.channel report))
  Step-Inv i {s} (aborts e) v = record {
    bytes = v.bytes;
    counted = v.counted;
    within = v.within;
    accounted = v.accounted;
  }
  Step-Inv i {s} (receives {k} {report} {rest} e q) v =
      report-Inv i k has_progress segment_count report (record s { channel = rest })
        (moved (at e v) (omega (arith, taken (of_report each) q))
          (omega (arith, taken (of_report (is i)) q))
          (omega (
            arith,
            taken (of_report (is i)) q,
            held-is i s,
            is-le-each i (some report.0),
            held-is i (record s { channel = rest }),
          )))
  Step-Inv i {s} (finds_closed e q ended) v =
      let error : HasError (record s.tally { first_error = some channel_closed }) =
        (channel_closed, refl) in
      fails v refl (inl error) (held-is i s) error
  Step-Inv i {s} (drains {k} {index} {e} h) v = drained-Inv i k index e s (at h v)
  Step-Inv i {s} (checks {k} e) v = next_round-Inv i k s.user_abort s (at e v)
  Step-Inv i {s} (has_received_all e) v = all_received-Inv i s (at e v)
  Step-Inv i {s} (joins e ended) v =
      join-Inv i (any_panicked s.workers) has_progress segment_count s (at e v)

  started-Inv :
      (i max_concurrent : ℕ) (segments : List Segment) (aborted : Bool) (b : SegmentBitmap)
      {s : Segment}
      → IsBytes b.bytes
      → get_elem? segments i ≡ some s
      → InvOf {c = c} i (started (incomplete_from b 0 segments) max_concurrent aborted b)
  unfolding total
  started-Inv i m segments aborted b bytes e =
      let tasks = incomplete_from b 0 segments in
      let s = started {c = c} tasks m aborted b in
      let idle = λ (f : Option ℕ → ℕ).
        total-replicate (of_worker {c = c} f) (min m (length tasks)) at_abort refl in
      record {
        bytes = bytes;
        counted = omega (arith, idle each, total-length (of_task each) (λ t. refl) tasks);
        within = held-is i s;
        accounted = elim (task_or_completed b 0 i i segments e (omega arith)) [
          | inl marked ↦ inr (inl marked)
          | inr h ↦ inl (omega (arith, idle (is i)))
        ];
      }

  Reach-Inv :
      (i : ℕ) {s t : System c}
      → InvOf i s
      → Reach Outcome has_progress segment_count s t
      → InvOf i t
  Reach-Inv i v here = v
  Reach-Inv i v (next before last) = Step-Inv i last (Reach-Inv i v before)

  completed_of :
      {i a b : ℕ} {t : Tally c}
      → Inv i returned t a b
      → t.first_error ≡ none
      → is_completed t.bitmap i ≡ true
  completed_of v fine = elim v.accounted [
    | inr (inl marked) ↦ marked
    | inr (inr (e, h)) ↦ absurd (cc (h, fine))
    | inl h ↦ elim v.counted [
      | inl (e, h') ↦ absurd (cc (h', fine))
      | inr nothing ↦ absurd (omega (arith, v.within))
    ]
  ]

  -- However the workers, the user and the receiving loop interleave, with any number of workers and
  -- any results: if the run over the segments that a bitmap leaves open returns without an error,
  -- then the bitmap marks every segment.
  pub run_concurrent-ok :
      (segments : List Segment) (b : SegmentBitmap) (max_concurrent : ℕ) (aborted : Bool)
      {t : System c} (i : ℕ) (s : Segment)
      → IsBytes b.bytes
      → Reach Outcome has_progress segment_count
          (started (incomplete_from b 0 segments) max_concurrent aborted b)
          t
      → t.main ≡ returned
      → t.tally.first_error ≡ none
      → get_elem? segments i ≡ some s
      → is_completed t.tally.bitmap i ≡ true
  run_concurrent-ok segments b m aborted i s bytes run end fine e =
      completed_of (at end (Reach-Inv i (started-Inv i m segments aborted b bytes e) run)) fine
