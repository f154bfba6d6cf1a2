-- ===== src/Downloader/Pool/Invariant.antt =====
-- What the receiving loop has still to receive is what the queue, the workers and the channel hold,
-- and no task is lost.
use debian_download_manager.Prelude.{
  ℕ, zero, suc, ◌+◌, ◌-◌, ◌≤◌, ◌<◌, ◌≡◌, refl, sym, subst, ◌∙◌, ◌⊎◌, inl, inr, Bool, true, false,
  List, [], Option, some, ◌==◌, arith, length, get_elem?, Bool-cases,
}
use debian_download_manager.Prelude.Result.{ok, err}
use debian_download_manager.Retry.Classify.{
  Curl, ErrorKind, timeout, throttled, connection, http5xx, other, SegmentError, classify,
}
use debian_download_manager.Segmenter.Bitmap.{IsBytes, is_completed}
use debian_download_manager.Segmenter.Bitmap.Laws.{is_completed-set_completed}
use debian_download_manager.Segmenter.Bitmap.Bytes.{set_completed-IsBytes}
use debian_download_manager.Downloader.File.{StorageError}
use debian_download_manager.Downloader.Tally.{
  Task, Tally, segment_failed, job_aborted, worker_panicked, on_completed, on_failed, count_failure,
  keep_first, flush,
}
use debian_download_manager.Downloader.Tally.Laws.{
  HasError, on_completed-bitmap, on_completed-first_error, flush-bitmap, flush-first_error,
  keep_first-bitmap, keep_first-HasError,
}
use debian_download_manager.Downloader.Pool.{
  Report, Worker, Main, receiving, draining, checking, joining, returned, System, unless_set, place,
  on_error, on_report, next_round, join,
}
use debian_download_manager.Downloader.Tally.Open.{
  total, total-set, total-length, each, is, of_task,
}
use debian_download_manager.Downloader.Pool.Counts.{of_report, of_worker, held, held-is}

module _ {c : Curl} where
  -- `to_receive` is what is held; from the join on nothing is, unless there is an error.
  abbrev pub Counted : Main c → Tally c → ℕ → Type 0
  Counted (receiving k) t n = k ≡ n
  Counted (draining k index e) t n = k ≡ n
  Counted (checking k) t n = k ≡ n
  Counted joining t n = HasError t ⊎ (n ≡ 0)
  Counted returned t n = HasError t ⊎ (n ≡ 0)

  -- There is an error, or the loop is about to keep one.
  abbrev pub Failing : Main c → Tally c → Type 0
  Failing (draining k index e) t = Unit
  Failing (receiving k) t = HasError t
  Failing (checking k) t = HasError t
  Failing joining t = HasError t
  Failing returned t = HasError t

  HasError-Failing : (m : Main c) (t : Tally c) → HasError t → Failing m t
  HasError-Failing (draining k index e) t h = tt
  HasError-Failing (receiving k) t h = h
  HasError-Failing (checking k) t h = h
  HasError-Failing joining t h = h
  HasError-Failing returned t h = h

  -- `a` tasks are held. Segment `i` is among the `b` ones that count for it, or it is marked, or it
  -- is given up with an error.
  pub record Inv (i : ℕ) (m : Main c) (t : Tally c) (a b : ℕ) : Type 0 where
    pub bytes : IsBytes t.bitmap.bytes
    pub counted : Counted m t a
    pub within : b ≤ a
    pub accounted : (0 < b) ⊎ ((is_completed t.bitmap i ≡ true) ⊎ Failing m t)

  abbrev pub InvOf : ℕ → System c → Type 0
  InvOf i s = Inv i s.main s.tally (held each s) (held (is i) s)

  -- The receiving loop stands where it stood, and as much is held.
  pub moved :
      {i : ℕ} {m : Main c} {t : Tally c} {a b a' b' : ℕ}
      → Inv i m t a b
      → a' ≡ a
      → b ≤ b'
      → b' ≤ a'
      → Inv i m t a' b'
  moved {i} {m} {t} {a} {b} {a'} {b'} v e le within = record {
    bytes = v.bytes;
    counted = subst (λ n. Counted m t n) (sym e) v.counted;
    within = within;
    accounted = elim v.accounted [ inl h ↦ inl (omega arith) | inr h ↦ inr h ];
  }

  -- What the queue, worker `j` that goes to `w` and the channel hold.
  abbrev pub about : (Option ℕ → ℕ) → List Task → Worker c → List (Report c) → ℕ
  about f queue w channel = total (of_task f) queue + of_worker f w + total (of_report f) channel

  -- A worker goes from `w` to `w'`, while the queue and the channel change what they hold.
  pub worker_moves :
      (i j : ℕ) (s : System c) (queue : List Task) (channel : List (Report c)) (w w' : Worker c)
      → InvOf i s
      → get_elem? s.workers j ≡ some w
      → about each queue w' channel ≡ about each s.queue w s.channel
      → about (is i) s.queue w s.channel ≤ about (is i) queue w' channel
      → InvOf i (place (record s { queue = queue; channel = channel }) j w')
  worker_moves i j s queue channel w w' v e all some_i =
      let after = place (record s { queue = queue; channel = channel }) j w' in
      moved v (omega (arith, total-set (of_worker each) s.workers j w w' e))
        (omega (arith, total-set (of_worker (is i)) s.workers j w w' e)) (held-is i after)

  completes :
      {i k a b b' : ℕ} (p : Bool) (n index : ℕ) (t : Tally c)
      → Inv i (receiving (suc k)) t (suc a) b
      → b ≡ is i (some index) + b'
      → b' ≤ a
      → Inv i (checking k) (on_completed p n index t) a b'
  completes {i} {k} {a} {b} {b'} p n index t v e within =
      let marks = is_completed-set_completed t.bitmap index i v.bytes in
      let keeps : HasError t → HasError (on_completed p n index t) =
        λ h. (h.0, rw (on_completed-first_error p n index t) h.1) in
      record {
        bytes = rw (on_completed-bitmap p n index t) (set_completed-IsBytes t.bitmap index v.bytes);
        counted = omega (arith, v.counted);
        within = within;
        accounted = elim (Bool-cases (index == i)) [
          | inl same ↦ inr (inl (rw (on_completed-bitmap p n index t) (marks ∙ rw same refl)))
          | inr differ ↦ elim v.accounted [
            | inl h ↦ inl (ground arith)
            | inr (inl marked) ↦
                inr (inl (rw (on_completed-bitmap p n index t) (marks ∙ rw (differ, marked) refl)))
            | inr (inr h) ↦ inr (inr (keeps h))
          ]
        ];
      }

  -- The loop goes on with an error kept, or is about to keep it.
  pub fails :
      {i : ℕ} {m m' : Main c} {t t' : Tally c} {a b a' b' : ℕ}
      → Inv i m t a b
      → t'.bitmap ≡ t.bitmap
      → Counted m' t' a'
      → b' ≤ a'
      → Failing m' t'
      → Inv i m' t' a' b'
  fails v same counted within failing = record {
    bytes = rw same v.bytes;
    counted = counted;
    within = within;
    accounted = inr (inr failing);
  }

  kept :
      (i k index b : ℕ) (e : SegmentError c StorageError) (s : System c)
      → Inv i (receiving (suc k)) s.tally (suc (held each s)) b
      → Inv i (checking k) (on_failed index e s.tally) (held each s) (held (is i) s)
  unfolding on_failed count_failure
  kept i k index b e s v =
      let counted = count_failure e s.tally in
      let error = keep_first-HasError (segment_failed index e) counted in
      fails v (keep_first-bitmap (segment_failed index e) counted) (omega (arith, v.counted))
        (held-is i s) error

  -- An error that is not retried is about to be kept; any other one is kept.
  pub error-Inv :
      (i k index b : ℕ) (e : SegmentError c StorageError) (kind : ErrorKind) (s : System c)
      → Inv i (receiving (suc k)) s.tally (suc (held each s)) b
      → InvOf i (on_error kind k index e s)
  unfolding on_error count_failure
  error-Inv i k index b e other s v = fails v refl (omega (arith, v.counted)) (held-is i s) tt
  error-Inv i k index b e timeout s v = kept i k index b e s v
  error-Inv i k index b e throttled s v = kept i k index b e s v
  error-Inv i k index b e connection s v = kept i k index b e s v
  error-Inv i k index b e (http5xx code) s v = kept i k index b e s v

  pub report-Inv :
      (i k : ℕ) (p : Bool) (n : ℕ) (report : Report c) (s : System c)
      → Inv i (receiving (suc k)) s.tally (suc (held each s)) (is i (some report.0) + held (is i) s)
      → InvOf i (on_report p n k report s)
  unfolding on_report
  report-Inv i k p n (index, ok done) s v = completes p n index s.tally v refl (held-is i s)
  report-Inv i k p n (index, err e) s v = error-Inv i k index _ e (classify e) s v

  pub next_round-Inv :
      (i k : ℕ) (aborted : Bool) (s : System c)
      → Inv i (checking k) s.tally (held each s) (held (is i) s)
      → InvOf i (next_round aborted k s)
  next_round-Inv i k true s v =
      let kept = keep_first-HasError job_aborted s.tally in
      fails v (keep_first-bitmap job_aborted s.tally) (inl kept) (held-is i s) kept
  next_round-Inv i k false s v = record {
    bytes = v.bytes;
    counted = v.counted;
    within = v.within;
    accounted = v.accounted;
  }

  pub drained-Inv :
      (i k index : ℕ) (e : SegmentError c StorageError) (s : System c)
      → Inv i (draining k index e) s.tally (held each s) (held (is i) s)
      → InvOf i (record s {
        queue = [];
        main = checking (k - length s.queue);
        tally = keep_first (segment_failed index e) s.tally;
      })
  unfolding total
  drained-Inv i k index e s v =
      let after = record s { queue = [] } in
      let kept = keep_first-HasError (segment_failed index e) s.tally in
      let all : total (of_task each) s.queue ≡ length s.queue =
        total-length (of_task each) (λ t. refl) s.queue in
      fails v (keep_first-bitmap (segment_failed index e) s.tally) (omega (arith, v.counted))
        (held-is i after) kept

  pub join-Inv :
      (i : ℕ) (any p : Bool) (n : ℕ) (s : System c)
      → Inv i joining s.tally (held each s) (held (is i) s)
      → InvOf i (record s { main = returned; tally = join any (flush p n s.tally) })
  join-Inv i true p n s v =
      let kept = keep_first-HasError worker_panicked (flush p n s.tally) in
      fails v (keep_first-bitmap worker_panicked (flush p n s.tally) ∙ flush-bitmap p n s.tally)
        (inl kept) (held-is i s) kept
  join-Inv i false p n s v =
      let keeps : HasError s.tally → HasError (flush p n s.tally) =
        λ h. (h.0, rw (flush-first_error p n s.tally) h.1) in
      record {
        bytes = rw (flush-bitmap p n s.tally) v.bytes;
        counted = elim v.counted [ inl h ↦ inl (keeps h) | inr h ↦ inr h ];
        within = v.within;
        accounted = elim v.accounted [
          | inl h ↦ inl h
          | inr (inl marked) ↦ inr (inl (rw (flush-bitmap p n s.tally) marked))
          | inr (inr h) ↦ inr (inr (keeps h))
        ];
      }

  pub all_received-Inv :
      (i : ℕ) (s : System c)
      → Inv i (receiving zero) s.tally (held each s) (held (is i) s)
      → InvOf i (record s { main = joining })
  all_received-Inv i s v = record {
    bytes = v.bytes;
    counted = inr (sym v.counted);
    within = v.within;
    accounted = v.accounted;
  }

  -- The place of the receiving loop, as a step knows it.
  pub at : {i : ℕ} {m m' : Main c} {t : Tally c} {a b : ℕ} → m ≡ m' → Inv i m t a b → Inv i m' t a b
  at {i} {t = t} {a = a} {b = b} e v = subst (λ m. Inv i m t a b) e v

  pub unless_set-holds :
      (f : Option ℕ → ℕ) (flag : Bool) (w : Worker c)
      → of_worker f w ≡ 0
      → of_worker f (unless_set flag w) ≡ 0
  unless_set-holds f true w e = refl
  unless_set-holds f false w e = e
