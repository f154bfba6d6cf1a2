-- ===== src/Downloader/Multi/Forgets.antt =====
-- The last transfer fails and is to be retried later: the loop is left before its time comes.
use debian_download_manager.Prelude.{
  ℕ, zero, suc, ◌+◌, ◌-◌, ◌<◌, min, ◌≡◌, refl, ap, ◌∙◌, inl, inr, Bool, true, false, List, [], ◌∷◌,
  none, some, leb, ltb, arith, Bool-cases,
}
use debian_download_manager.Prelude.Result.{err}
use debian_download_manager.Retry.Classify.{Curl, SegmentError, classify}
use debian_download_manager.Retry.Policy.{RetryPolicy, retry_after, decide}
use debian_download_manager.Segmenter.Bitmap.{SegmentBitmap}
use debian_download_manager.Downloader.File.{StorageError}
use debian_download_manager.Downloader.Tally.{Task, Tally, fresh, count_failure, flush}
use debian_download_manager.Downloader.Multi.{
  end_round, after_refill, then_do, finish, Loop, Round, left, again, remove_at, take_ready,
  on_decision, on_result, finish_all, add_first, refill_ready, refill_from, refill_active,
  sort_desc, round, run_loop, run_multi,
}

module _ {c : Curl} (p : RetryPolicy) (has_progress : Bool) (n m : ℕ) where
  -- The round in which the only transfer has failed at `now`; the refill is at `later`.
  abbrev pub failing : (Task → Bool) → SegmentError c StorageError → ℕ → ℕ → ℕ → Round c
  failing can_add e now later running = record {
    aborted = false;
    performed = true;
    messages = record { place = 0; removed = true; now = now; result = err e } ∷ [];
    now = later;
    can_add = can_add;
    running = running;
    waited = true;
  }

  abbrev one_left : Task → ℕ → Tally c → Loop c
  one_left task attempt t = record {
    pending = [];
    retry_after = [];
    active = record { task = task; attempt = attempt } ∷ [];
    tally = t;
  }

  abbrev to_retry : Task → ℕ → ℕ → Tally c → Loop c
  to_retry task attempt ready_at t = record {
    pending = [];
    retry_after = record { ready_at = ready_at; task = task; attempt = attempt + 1 } ∷ [];
    active = [];
    tally = t;
  }

  nothing_ready :
      (can_add : Task → Bool) (later : ℕ) (room : ℕ) (task : Task) (attempt ready_at : ℕ)
      (t : Tally c)
      → later < ready_at
      → refill_ready can_add later room (to_retry task attempt ready_at t)
        ≡ again (to_retry task attempt ready_at t)
  unfolding refill_ready take_ready
  nothing_ready can_add later zero task attempt ready_at t h = refl
  nothing_ready can_add later (suc room) task attempt ready_at t h =
      let early : leb ready_at later ≡ false = ground arith in rw (early, refill_ready) refl

  still_running :
      (can_add : Task → Bool) (now later running : ℕ) (e : SegmentError c StorageError) (l : Loop c)
      → end_round none (failing can_add e now later running) l ≡ again l
  still_running can_add now later running e l = elim (Bool-cases (ltb 0 running)) [
    | inl h ↦ rw h refl
    | inr h ↦ rw h refl
  ]

  round-failing :
      (can_add : Task → Bool) (task : Task) (attempt now later running d : ℕ)
      (e : SegmentError c StorageError) (b : SegmentBitmap)
      → decide p attempt (classify e) ≡ retry_after d
      → later < now + d
      → round
          (some p)
          has_progress
          n
          m
          (failing can_add e now later running)
          (one_left task attempt (fresh b))
        ≡ again (to_retry task attempt (now + d) (count_failure e (fresh b)))
  unfolding round sort_desc finish_all on_result on_decision remove_at refill_active refill_from
      count_failure
  round-failing can_add task attempt now later running d e b again_later early =
      let t = count_failure e (fresh b) in
      rw (again_later, on_decision)
        (ap (λ v. then_do v (after_refill (failing can_add e now later running)))
            (nothing_ready can_add later (m - 0) task attempt (now + d) t early)
          ∙ still_running can_add now later running e (to_retry task attempt (now + d) t))

  left_there :
      (xs : List (Round c)) (task : Task) (attempt ready_at : ℕ) (t : Tally c)
      → run_loop (some p) has_progress n m xs (to_retry task attempt ready_at t)
        ≡ left (to_retry task attempt ready_at t)
  unfolding run_loop
  left_there [] task attempt ready_at t = refl
  left_there (x ∷ xs) task attempt ready_at t = refl

  -- With one segment left to download: if its first transfer fails with an error that the policy
  -- retries, and the refill of that round comes before the time of the retry, then the loop is left
  -- in the next round without an error, the bitmap unchanged and the segment still to be retried.
  pub run_multi-forgets :
      (can_add : Task → Bool) (task : Task) (now later running d : ℕ)
      (e : SegmentError c StorageError) (xs : List (Round c)) (b : SegmentBitmap)
      → 0 < m
      → can_add task ≡ true
      → decide p 1 (classify e) ≡ retry_after d
      → later < now + d
      → (l : Loop c) × (run_multi
            (some p)
            has_progress
            n
            m
            can_add
            (failing can_add e now later running ∷ xs)
            (task ∷ [])
            b
          ≡ left l)
        × (l.tally.first_error ≡ none)
        × (l.tally.bitmap ≡ b)
        × (l.retry_after ≡ record { ready_at = now + d; task = task; attempt = 2 } ∷ [])
  unfolding run_multi run_loop add_first flush count_failure
  run_multi-forgets can_add task now later running d e xs b pos taken again_later early =
      let rest = to_retry task 1 (now + d) (count_failure e (fresh b)) in
      let one : min m 1 ≡ 1 = omega arith in
      (
        rest,
        rw (one, add_first)
            (rw (taken, add_first)
              (ap
                  (λ v.
                    finish (some p) has_progress n m
                      (then_do v (run_loop (some p) has_progress n m xs)))
                  (round-failing can_add task 1 now later running d e b again_later early)
                ∙ ap (finish (some p) has_progress n m)
                    (left_there xs task 1 (now + d) (count_failure e (fresh b))))),
        refl,
        refl,
        refl,
      )
