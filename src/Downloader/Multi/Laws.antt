-- ===== src/Downloader/Multi/Laws.antt =====
-- What the loop of the multi backend has done when it is left without an error.
use debian_download_manager.Prelude.{
  ℕ, zero, suc, ◌-◌, ◌<◌, min, ◌≡◌, refl, ap, subst, ◌⊎◌, inl, inr, Bool, true, false, not, ◌&&◌,
  List, [], ◌∷◌, Option, none, some, ltb, arith, length, get_elem?, if◌then◌else◌, Bool-cases,
}
use debian_download_manager.Retry.Classify.{Curl}
use debian_download_manager.Retry.Policy.{RetryPolicy}
use debian_download_manager.Segmenter.Range.{Segment}
use debian_download_manager.Segmenter.Bitmap.{SegmentBitmap, IsBytes, is_completed}
use debian_download_manager.Downloader.Tally.{
  Task, RunError, job_aborted, keep_first, flush, incomplete_from,
}
use debian_download_manager.Downloader.Tally.Laws.{
  HasError, keep_first-bitmap, keep_first-HasError, flush-bitmap, flush-first_error,
}
use debian_download_manager.Downloader.Tally.Open.{total, is, of_task, task_or_completed}
use debian_download_manager.Downloader.Multi.Places.{of_waiting, of_running, appended}
use debian_download_manager.Downloader.Multi.Invariant.{
  Inv, moved, Holds, Filled, HoldsFilled, finish_all-Inv, refill_from-Inv,
}
use debian_download_manager.Downloader.Multi.{
  Running, Loop, Round, Verdict, again, left, failed, panicked, sort_desc, finish_all, add,
  add_first, refill_from, then_do, end_round, after_refill, refill_active, round, rounds_left,
  run_loop, finish, begin, run_multi,
}

module _ {c : Curl} where
  -- The loop is left with an error, or with nothing but tasks that are to be retried.
  abbrev Rests : Loop c → Type 0
  Rests l = HasError l.tally ⊎ ((l.pending ≡ []) × (l.active ≡ []))

  abbrev HoldsAtEnd : ℕ → ℕ → Verdict c → Type 0
  HoldsAtEnd i m (again l) = Inv i m l × Filled m l
  HoldsAtEnd i m (left l) = Inv i m l × Rests l
  HoldsAtEnd i m (failed l) = Unit
  HoldsAtEnd i m panicked = Unit

  end_round-Holds :
      (i m : ℕ) (error : Option (RunError c)) (x : Round c) (l : Loop c)
      → l.tally.first_error ≡ error
      → Inv i m l × Filled m l
      → HoldsAtEnd i m (end_round error x l)
  end_round-Holds i m (some e) x l same (v, filled) = (v, inl (e, same))
  end_round-Holds i m none x l same h = elim (Bool-cases (ltb 0 x.running && not x.waited)) [
    | inl stuck ↦ rw stuck tt
    | inr goes_on ↦ rw goes_on h
  ]

  refilled-Holds :
      (i m : ℕ) (x : Round c) (v : Verdict c)
      → HoldsFilled i m v
      → HoldsAtEnd i m (then_do v (after_refill x))
  refilled-Holds i m x (again l) h = end_round-Holds i m l.tally.first_error x l refl h
  refilled-Holds i m x (left l) h = absurd h
  refilled-Holds i m x (failed l) h = tt
  refilled-Holds i m x panicked h = tt

  -- An error of the user's abort.
  aborts-Holds :
      (i m : ℕ) (l : Loop c)
      → Inv i m l
      → HoldsAtEnd i m (left (record l { tally = keep_first job_aborted l.tally }))
  aborts-Holds i m l v =
      let error = keep_first-HasError job_aborted l.tally in
      (
        record {
          bytes = rw (keep_first-bitmap job_aborted l.tally) v.bytes;
          room = v.room;
          accounted = inr (inr error);
        },
        inl error,
      )

  add_first-Holds :
      (i m : ℕ) (can_add : Task → Bool) (to_add : ℕ) (pending : List Task) (l : Loop c)
      → Inv i m (record l { pending = pending })
      → to_add ≡ min (m - length l.active) (length pending)
      → HoldsFilled i m (add_first can_add to_add pending l)
  unfolding add_first total
  add_first-Holds i m can_add zero [] l v h = (v, inl refl)
  add_first-Holds i m can_add zero (task ∷ pending) l v h = (v, inr (omega arith))
  add_first-Holds i m can_add (suc to_add) [] l v h = absurd (omega arith)
  add_first-Holds i m can_add (suc to_add) (task ∷ pending) l v h =
      elim (Bool-cases (can_add task)) [
        | inr refused ↦ rw (refused, add_first) tt
        | inl taken ↦
            let (sum, size) = appended i l.active task 1 in
            let next = add task 1 l in
            rw (taken, add_first)
              (add_first-Holds i m can_add to_add pending next
                (moved pending l.retry_after next.active v (omega arith) (omega arith))
                (omega arith))
      ]

  guarded :
      (i m : ℕ) (aborted performed : Bool) (l : Loop c) (v : Verdict c)
      → Inv i m l
      → HoldsAtEnd i m v
      → HoldsAtEnd i m (
          if aborted
          then left (record l { tally = keep_first job_aborted l.tally })
          else if not performed
          then failed l
          else v)
  guarded i m true performed l v inv h = aborts-Holds i m l inv
  guarded i m false false l v inv h = tt
  guarded i m false true l v inv h = h

  then_do-Holds :
      (i m : ℕ) (v : Verdict c) (next : Loop c → Verdict c)
      → HoldsAtEnd i m v
      → ((l : Loop c) → Inv i m l × Filled m l → HoldsAtEnd i m (next l))
      → HoldsAtEnd i m (then_do v next)
  then_do-Holds i m (again l) next h goes_on = goes_on l h
  then_do-Holds i m (left l) next h goes_on = h
  then_do-Holds i m (failed l) next h goes_on = tt
  then_do-Holds i m panicked next h goes_on = tt

  -- Without a handle in use nothing is pending.
  rounds_left-Holds :
      (i m : ℕ) (active : List Running) (next : Verdict c) (l : Loop c)
      → 0 < m
      → l.active ≡ active
      → Inv i m l × Filled m l
      → HoldsAtEnd i m next
      → HoldsAtEnd i m (rounds_left active next l)
  rounds_left-Holds i m [] next l pos e (v, inl empty) h = (v, inr (empty, e))
  rounds_left-Holds i m [] next l pos e (v, inr full) h = absurd (omega (arith, ap length e))
  rounds_left-Holds i m (r ∷ active) next l pos e v h = h

  module _ (policy : Option RetryPolicy) (has_progress : Bool) (segment_count m : ℕ) where
    finished-Holds :
        (i : ℕ) (x : Round c) (v : Verdict c)
        → Holds i m v
        → HoldsAtEnd i m (
            then_do v λ l.
              then_do
                (refill_active policy has_progress segment_count m x.can_add x.now l)
                (after_refill x))
    unfolding refill_active
    finished-Holds i x (again l) v =
        refilled-Holds i m x (refill_from x.can_add x.now (m - length l.active) l.pending l) (
          refill_from-Inv i m x.can_add x.now (m - length l.active) l.pending l v
            (omega (arith, v.room)))
    finished-Holds i x (left l) h = absurd h
    finished-Holds i x (failed l) h = tt
    finished-Holds i x panicked h = tt

    round-Holds :
        (i : ℕ) (x : Round c) (l : Loop c)
        → Inv i m l
        → HoldsAtEnd i m (round policy has_progress segment_count m x l)
    unfolding round
    round-Holds i x l v =
        let messages = sort_desc x.messages in
        guarded i m x.aborted x.performed l _ v (
          finished-Holds i x (finish_all policy has_progress segment_count messages l)
            (finish_all-Inv policy has_progress segment_count i m messages l v))

    run_loop-Holds :
        (i : ℕ) (xs : List (Round c)) (l : Loop c)
        → 0 < m
        → Inv i m l × Filled m l
        → HoldsAtEnd i m (run_loop policy has_progress segment_count m xs l)
    unfolding run_loop
    run_loop-Holds i [] l pos h = rounds_left-Holds i m l.active (again l) l pos refl h h
    run_loop-Holds i (x ∷ xs) l pos h =
        rounds_left-Holds i m l.active
          (then_do (round policy has_progress segment_count m x l)
            (run_loop policy has_progress segment_count m xs))
          l pos refl h
          (then_do-Holds i m (round policy has_progress segment_count m x l)
            (run_loop policy has_progress segment_count m xs) (round-Holds i x l h.0)
            λ l' h'. run_loop-Holds i xs l' pos h')

    finish-Holds :
        (i : ℕ) (v : Verdict c)
        → HoldsAtEnd i m v
        → HoldsAtEnd i m (finish policy has_progress segment_count m v)
    finish-Holds i (left l) (v, rests) =
        let keeps : HasError l.tally → HasError (flush has_progress segment_count l.tally) =
          λ h. (h.0, rw (flush-first_error has_progress segment_count l.tally) h.1) in
        let bitmap = flush-bitmap has_progress segment_count l.tally in
        (
          record {
            bytes = rw bitmap v.bytes;
            room = v.room;
            accounted = elim v.accounted [
              | inl h ↦ inl h
              | inr (inl marked) ↦ inr (inl (rw bitmap marked))
              | inr (inr h) ↦ inr (inr (keeps h))
            ];
          },
          elim rests [ inl h ↦ inl (keeps h) | inr h ↦ inr h ],
        )
    finish-Holds i (again l) h = h
    finish-Holds i (failed l) h = tt
    finish-Holds i panicked h = tt

    module _ (can_add : Task → Bool) (rounds : List (Round c)) (segments : List Segment)
        (b : SegmentBitmap) where
      begun-Holds :
          (i : ℕ) (v : Verdict c)
          → HoldsFilled i m v
          → 0 < m
          → HoldsAtEnd i m (then_do v (run_loop policy has_progress segment_count m rounds))
      begun-Holds i (again l) h pos = run_loop-Holds i rounds l pos h
      begun-Holds i (left l) h pos = absurd h
      begun-Holds i (failed l) h pos = tt
      begun-Holds i panicked h pos = tt

      run_multi-Holds :
          (i : ℕ) {s : Segment}
          → 0 < m
          → IsBytes b.bytes
          → get_elem? segments i ≡ some s
          → HoldsAtEnd i m (
              run_multi policy has_progress segment_count m can_add rounds
                (incomplete_from b 0 segments)
                b)
      unfolding run_multi total
      run_multi-Holds i pos bytes e =
          let tasks = incomplete_from b 0 segments in
          let start = begin {c = c} tasks b in
          let v : Inv i m start = record {
            bytes = bytes;
            room = omega arith;
            accounted = elim (task_or_completed b 0 i i segments e (omega arith)) [
              | inl marked ↦ inr (inl marked)
              | inr h ↦ inl (omega arith)
            ];
          } in
          let first = add_first can_add (min m (length tasks)) tasks start in
          finish-Holds i (then_do first (run_loop policy has_progress segment_count m rounds)) (
            begun-Holds i first
              (add_first-Holds i m can_add (min m (length tasks)) tasks start v (omega arith)) pos)

      -- If the loop ends and returns without an error, with a maximum of one handle at least: every
      -- segment is marked or still waits to be retried. Libcurl, the clock and the user do what
      -- they like; the rounds that they take part in are given.
      pub run_multi-ok :
          (i : ℕ) {s : Segment} {l : Loop c}
          → 0 < m
          → IsBytes b.bytes
          → run_multi policy has_progress segment_count m can_add rounds
              (incomplete_from b 0 segments)
              b
            ≡ left l
          → l.tally.first_error ≡ none
          → get_elem? segments i ≡ some s
          → (is_completed l.tally.bitmap i ≡ true) ⊎ (0 < total (of_waiting (is i)) l.retry_after)
      unfolding total
      run_multi-ok i {l = l} pos bytes ended fine e =
          let (v, rests) : Inv i m l × Rests l =
            subst (HoldsAtEnd i m) ended (run_multi-Holds i pos bytes e) in
          elim rests [
            | inl (error, h) ↦ absurd (cc (h, fine))
            | inr (empty, idle) ↦ elim v.accounted [
              | inr (inl marked) ↦ inl marked
              | inr (inr (error, h)) ↦ absurd (cc (h, fine))
              | inl h ↦ inr (
                  omega
                    (arith, ap (total (of_task (is i))) empty, ap (total (of_running (is i))) idle))
            ]
          ]
