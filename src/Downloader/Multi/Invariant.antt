-- ===== src/Downloader/Multi/Invariant.antt =====
-- No task is lost in a round: it waits, it has a handle, it is to be retried, or it is marked; or
-- there is an error. And there are never more handles than the maximum.
use debian_download_manager.Prelude.{
  ℕ, zero, suc, ◌+◌, ◌≤◌, ◌<◌, ◌≡◌, refl, ◌∙◌, ◌⊎◌, inl, inr, Bool, true, List, [], ◌∷◌, Option,
  some, ◌==◌, arith, length, Bool-cases, Option-cases,
}
use debian_download_manager.Prelude.Result.{ok, err}
use debian_download_manager.Retry.Classify.{Curl, SegmentError, classify}
use debian_download_manager.Retry.Policy.{RetryPolicy, RetryDecision, no_retry, retry_after}
use debian_download_manager.Retry.Run.{SegmentResult}
use debian_download_manager.Segmenter.Bitmap.{IsBytes, is_completed}
use debian_download_manager.Segmenter.Bitmap.Laws.{is_completed-set_completed}
use debian_download_manager.Segmenter.Bitmap.Bytes.{set_completed-IsBytes}
use debian_download_manager.Downloader.File.{StorageError}
use debian_download_manager.Downloader.Tally.{Task, segment_failed, on_completed, count_failure}
use debian_download_manager.Downloader.Tally.Laws.{
  HasError, on_completed-bitmap, on_completed-first_error, keep_first-bitmap, keep_first-HasError,
}
use debian_download_manager.Downloader.Tally.Open.{total, total-append, is, of_task}
use debian_download_manager.Downloader.Multi.Places.{
  of_waiting, of_running, remove_at-total, take_ready-total, appended,
}
use debian_download_manager.Downloader.Multi.{
  Waiting, Running, Loop, Message, Verdict, again, left, failed, panicked, remove_at, take_ready,
  will_retry, on_decision, on_result, finish_all, add, refill_ready, refill_from,
}

module _ {c : Curl} where
  -- How often index `i` waits, has a handle or is to be retried.
  abbrev pub held : ℕ → Loop c → ℕ
  held i l =
      total (of_task (is i)) l.pending
      + total (of_waiting (is i)) l.retry_after
      + total (of_running (is i)) l.active

  pub record Inv (i max_concurrent : ℕ) (l : Loop c) : Type 0 where
    pub bytes : IsBytes l.tally.bitmap.bytes
    pub room : length l.active ≤ max_concurrent
    pub accounted : (0 < held i l) ⊎ ((is_completed l.tally.bitmap i ≡ true) ⊎ HasError l.tally)

  -- Only the places of the tasks change.
  pub moved :
      {i m : ℕ} {l : Loop c} (pending : List Task) (waiting : List Waiting) (active : List Running)
      → Inv i m l
      → (let l' = record l { pending = pending; retry_after = waiting; active = active } in
          held i l ≤ held i l')
      → length active ≤ m
      → Inv i m (record l { pending = pending; retry_after = waiting; active = active })
  moved pending waiting active v le room = record {
    bytes = v.bytes;
    room = room;
    accounted = elim v.accounted [ inl h ↦ inl (omega arith) | inr h ↦ inr h ];
  }

  on_decision-Inv :
      (i m : ℕ) (d : RetryDecision) (now : ℕ) (r : Running) (e : SegmentError c StorageError)
      (l : Loop c) (active : List Running)
      → Inv i m (record l { active = active })
      → length l.active ≤ m
      → total (of_running (is i)) active ≡ is i (some r.task.0) + total (of_running (is i)) l.active
      → Inv i m (on_decision d now r e l)
  unfolding on_decision total
  on_decision-Inv i m (retry_after d) now r e l active v room same = record {
    bytes = v.bytes;
    room = room;
    accounted = elim v.accounted [
      | inl h ↦ inl (
          omega (
            arith,
            total-append (of_waiting (is i)) l.retry_after
                (record { ready_at = now + d; task = r.task; attempt = r.attempt + 1 } ∷ []),
          ))
      | inr h ↦ inr h
    ];
  }
  on_decision-Inv i m no_retry now r e l active v room same = record {
    bytes = rw (keep_first-bitmap (segment_failed r.task.0 e) l.tally) v.bytes;
    room = room;
    accounted = inr (inr (keep_first-HasError (segment_failed r.task.0 e) l.tally));
  }

  -- What a verdict promises of its loop.
  abbrev pub Holds : ℕ → ℕ → Verdict c → Type 0
  Holds i m (again l) = Inv i m l
  Holds i m (left l) = ⊥
  Holds i m (failed l) = Unit
  Holds i m panicked = Unit

  -- Tasks are left pending only where there is no room.
  abbrev pub Filled : ℕ → Loop c → Type 0
  Filled m l = (l.pending ≡ []) ⊎ (m ≤ length l.active)

  abbrev pub HoldsFilled : ℕ → ℕ → Verdict c → Type 0
  HoldsFilled i m (again l) = Inv i m l × Filled m l
  HoldsFilled i m (left l) = ⊥
  HoldsFilled i m (failed l) = Unit
  HoldsFilled i m panicked = Unit

  module _ (policy : Option RetryPolicy) (has_progress : Bool) (segment_count : ℕ) where
    on_result-Inv :
        (i m now : ℕ) (r : Running) (result : SegmentResult c StorageError) (l : Loop c)
        (active : List Running)
        → Inv i m (record l { active = active })
        → length l.active ≤ m
        → total (of_running (is i)) active
          ≡ is i (some r.task.0) + total (of_running (is i)) l.active
        → Inv i m (on_result policy has_progress segment_count now r result l)
    unfolding on_result count_failure
    on_result-Inv i m now r (err e) l active v room same =
        on_decision-Inv i m (will_retry policy r.attempt (classify e)) now r e
          (record l { tally = count_failure e l.tally }) active
          (record { bytes = v.bytes; room = v.room; accounted = v.accounted }) room same
    on_result-Inv i m now r (ok done) l active v room same =
        let index = r.task.0 in
        let marks = is_completed-set_completed l.tally.bitmap index i v.bytes in
        let after = on_completed has_progress segment_count index l.tally in
        let keeps : HasError l.tally → HasError after =
          λ h. (h.0, rw (on_completed-first_error has_progress segment_count index l.tally) h.1) in
        let bitmap = on_completed-bitmap has_progress segment_count index l.tally in
        record {
          bytes = rw bitmap (set_completed-IsBytes l.tally.bitmap index v.bytes);
          room = room;
          accounted = elim (Bool-cases (index == i)) [
            | inl same ↦ inr (inl (rw bitmap (marks ∙ rw same refl)))
            | inr differ ↦ elim v.accounted [
              | inl h ↦ inl (ground arith)
              | inr (inl marked) ↦ inr (inl (rw bitmap (marks ∙ rw (differ, marked) refl)))
              | inr (inr h) ↦ inr (inr (keeps h))
            ]
          ];
        }

    pub finish_all-Inv :
        (i m : ℕ) (ms : List (Message c)) (l : Loop c)
        → Inv i m l
        → Holds i m (finish_all policy has_progress segment_count ms l)
    unfolding finish_all
    finish_all-Inv i m [] l v = v
    finish_all-Inv i m (x ∷ ms) l v = elim (Option-cases (remove_at x.place l.active)) [
      | inl nothing ↦ rw (nothing, finish_all) tt
      | inr ((r, rest), found) ↦ elim (Bool-cases x.removed) [
        | inr stuck ↦ rw (found, finish_all) (rw (stuck, finish_all) tt)
        | inl removed ↦
            let (sum, size) = remove_at-total (of_running (is i)) x.place l.active found in
            rw (found, finish_all)
              (rw (removed, finish_all)
                (finish_all-Inv i m ms
                  (on_result policy has_progress segment_count x.now r x.result
                    (record l { active = rest }))
                  (on_result-Inv i m x.now r x.result (record l { active = rest }) l.active v
                    (omega (arith, v.room)) sum)))
      ]
    ]

  refill_ready-Inv :
      (i m : ℕ) (can_add : Task → Bool) (now room : ℕ) (l : Loop c)
      → Inv i m l
      → l.pending ≡ []
      → length l.active + room ≤ m
      → HoldsFilled i m (refill_ready can_add now room l)
  unfolding refill_ready
  refill_ready-Inv i m can_add now zero l v empty fits = (v, inl empty)
  refill_ready-Inv i m can_add now (suc room) l v empty fits =
      elim (Option-cases (take_ready now l.retry_after)) [
        | inl nothing ↦ rw (nothing, refill_ready) (v, inl empty)
        | inr ((w, rest), found) ↦ elim (Bool-cases (can_add w.task)) [
          | inr refused ↦ rw (found, refill_ready) (rw (refused, refill_ready) tt)
          | inl taken ↦
              let (sum, size) = appended i l.active w.task w.attempt in
              let one_less = take_ready-total (of_waiting (is i)) now l.retry_after found in
              let next = add w.task w.attempt (record l { retry_after = rest }) in
              rw (found, refill_ready)
                (rw (taken, refill_ready)
                  (refill_ready-Inv i m can_add now room next
                    (moved l.pending rest next.active v (omega arith) (omega arith)) empty
                    (omega arith)))
        ]
      ]

  pub refill_from-Inv :
      (i m : ℕ) (can_add : Task → Bool) (now room : ℕ) (pending : List Task) (l : Loop c)
      → Inv i m (record l { pending = pending })
      → length l.active + room ≡ m
      → HoldsFilled i m (refill_from can_add now room pending l)
  unfolding refill_from total
  refill_from-Inv i m can_add now room [] l v fits =
      refill_ready-Inv i m can_add now room (record l { pending = [] }) v refl (omega arith)
  refill_from-Inv i m can_add now zero (task ∷ pending) l v fits = (v, inr (omega arith))
  refill_from-Inv i m can_add now (suc room) (task ∷ pending) l v fits =
      elim (Bool-cases (can_add task)) [
        | inr refused ↦ rw (refused, refill_from) tt
        | inl taken ↦
            let (sum, size) = appended i l.active task 1 in
            let next = add task 1 l in
            rw (taken, refill_from)
              (refill_from-Inv i m can_add now room pending next
                (moved pending l.retry_after next.active v (omega arith) (omega arith))
                (omega arith))
      ]
