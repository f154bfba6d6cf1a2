-- ===== src/Downloader/Multi.antt =====
-- crates/ddm-core/src/downloader/multi: the loop of run.rs, refill.rs and `download_segments_multi`.
-- What libcurl and the clock answer in a round is given by the round. A transfer that is done comes
-- with the result that `segment_result_from_easy` makes of it; the handles of libcurl are the
-- entries of `active`.
pub mod Places
pub mod Invariant
pub mod Laws
pub mod Forgets
use debian_download_manager.Prelude.{
  ℕ, zero, suc, ◌+◌, ◌-◌, ◌/◌, min, max, Bool, true, false, not, ◌&&◌, List, [], ◌∷◌, ◌++◌, Option,
  none, some, ltb, leb, if◌then◌else◌, length,
}
use mathlib.Core.Option
use debian_download_manager.Prelude.Result.{Result, ok, err}
use debian_download_manager.Retry.Classify.{Curl, ErrorKind, SegmentError, classify}
use debian_download_manager.Retry.Policy.{RetryPolicy, RetryDecision, no_retry, retry_after, decide}
use debian_download_manager.Retry.Run.{SegmentResult}
use debian_download_manager.Segmenter.Range.{Segment}
use debian_download_manager.Segmenter.Bitmap.{SegmentBitmap}
use debian_download_manager.Downloader.File.{StorageError}
use debian_download_manager.Downloader.Tally.{
  Task, DownloadSummary, RunError, job_aborted, segment_failed, Tally, fresh, keep_first,
  on_completed, count_failure, flush, incomplete_from,
}

-- A task to be retried from a time on, and a task with a handle; both with their attempt.
pub record Waiting : Type 0 where
  pub ready_at : ℕ
  pub task : Task
  pub attempt : ℕ

pub record Running : Type 0 where
  pub task : Task
  pub attempt : ℕ

module _ (c : Curl) where
  pub record Loop : Type 0 where
    pub pending : List Task
    pub retry_after : List Waiting
    pub active : List Running
    pub tally : Tally c

  -- A transfer that is done: its place in `active`, whether the handle was removed, the time, and
  -- the result.
  pub record Message : Type 0 where
    pub place : ℕ
    pub removed : Bool
    pub now : ℕ
    pub result : SegmentResult c StorageError

  -- What one round meets: the user's flag, libcurl's answers, the messages, the time of the refill,
  -- and for which tasks a handle can be added.
  pub record Round : Type 0 where
    pub aborted : Bool
    pub performed : Bool
    pub messages : List Message
    pub now : ℕ
    pub can_add : Task → Bool
    pub running : ℕ
    pub waited : Bool

  -- The loop goes on, or it was left; or an error of libcurl returned at once, or a removal was out
  -- of range and panicked.
  pub data Verdict : Type 0 where
    again left failed : Loop → Verdict
    panicked : Verdict

unfoldable pub remove_at {ℓ} : {A : Type ℓ} → ℕ → List A → Option (A × List A)
remove_at i [] = none
remove_at zero (x ∷ xs) = some (x, xs)
remove_at (suc i) (x ∷ xs) = Option.map (λ (r : _ × List _). (r.0, x ∷ r.1)) (remove_at i xs)

-- The first entry whose time has come.
unfoldable pub take_ready : ℕ → List Waiting → Option (Waiting × List Waiting)
take_ready now [] = none
take_ready now (w ∷ ws) =
    let rest = Option.map (λ (r : Waiting × List Waiting). (r.0, w ∷ r.1)) (take_ready now ws) in
    if leb w.ready_at now then some (w, ws) else rest

-- The shortest wait until a retry, in milliseconds and at most 100; times are in nanoseconds, and
-- an entry whose time has passed does not count.
unfoldable pub next_retry_wait_ms : ℕ → List Waiting → ℕ
next_retry_wait_ms now [] = 100
next_retry_wait_ms now (w ∷ ws) =
    let rest = next_retry_wait_ms now ws in
    if leb now w.ready_at then min ((w.ready_at - now) / 1_000_000) rest else rest

abbrev pub will_retry : Option RetryPolicy → ℕ → ErrorKind → RetryDecision
will_retry none attempt kind = no_retry
will_retry (some policy) attempt kind = decide policy attempt kind

module _ {c : Curl} where
  abbrev insert_desc : Message c → List (Message c) → List (Message c)
  insert_desc m [] = m ∷ []
  insert_desc m (x ∷ xs) =
      let rest = insert_desc m xs in if leb x.place m.place then m ∷ x ∷ xs else x ∷ rest

  -- The places in descending order, so that a removal moves none that is still to come.
  unfoldable pub sort_desc : List (Message c) → List (Message c)
  sort_desc [] = []
  sort_desc (m ∷ ms) = insert_desc m (sort_desc ms)

  unfoldable pub on_decision :
      RetryDecision → ℕ → Running → SegmentError c StorageError → Loop c → Loop c
  on_decision (retry_after d) now r e l = record l {
    retry_after =
        l.retry_after ++ record { ready_at = now + d; task = r.task; attempt = r.attempt + 1 } ∷ [];
  }
  on_decision no_retry now r e l = record l {
    tally = keep_first (segment_failed r.task.0 e) l.tally;
  }

  module _ (policy : Option RetryPolicy) (has_progress : Bool) (segment_count : ℕ) where
    unfoldable pub on_result : ℕ → Running → SegmentResult c StorageError → Loop c → Loop c
    unfolding on_decision
    on_result now r (ok done) l = record l {
      tally = on_completed has_progress segment_count r.task.0 l.tally;
    }
    on_result now r (err e) l =
        on_decision (will_retry policy r.attempt (classify e)) now r e
          (record l { tally = count_failure e l.tally })

    unfoldable pub finish_all : List (Message c) → Loop c → Verdict c
    unfolding on_result remove_at
    finish_all [] l = again l
    finish_all (m ∷ ms) l = elim (remove_at m.place l.active) [
      | none ↦ panicked
      | some (r, rest) ↦ elim m.removed [
        | false ↦ failed (record l { active = rest })
        | true ↦ finish_all ms (on_result m.now r m.result (record l { active = rest }))
      ]
    ]

  abbrev pub add : Task → ℕ → Loop c → Loop c
  add task attempt l = record l {
    active = l.active ++ record { task = task; attempt = attempt } ∷ [];
  }

  -- The first handles: `to_add` rounds.
  unfoldable pub add_first : (Task → Bool) → ℕ → List Task → Loop c → Verdict c
  add_first can_add zero pending l = again (record l { pending = pending })
  add_first can_add (suc to_add) [] l = add_first can_add to_add [] l
  add_first can_add (suc to_add) (task ∷ pending) l = elim (can_add task) [
    | true ↦ add_first can_add to_add pending (add task 1 l)
    | false ↦ failed (record l { pending = pending })
  ]

  -- With nothing pending: entries whose time has come, as long as there is room.
  unfoldable pub refill_ready : (Task → Bool) → ℕ → ℕ → Loop c → Verdict c
  unfolding take_ready
  refill_ready can_add now zero l = again l
  refill_ready can_add now (suc room) l = elim (take_ready now l.retry_after) [
    | none ↦ again l
    | some (w, rest) ↦ elim (can_add w.task) [
      | true ↦
          refill_ready can_add now room (add w.task w.attempt (record l { retry_after = rest }))
      | false ↦ failed (record l { retry_after = rest })
    ]
  ]

  -- `room` is `max_concurrent` less the handles in use.
  unfoldable pub refill_from : (Task → Bool) → ℕ → ℕ → List Task → Loop c → Verdict c
  unfolding refill_ready
  refill_from can_add now room [] l = refill_ready can_add now room (record l { pending = [] })
  refill_from can_add now zero (task ∷ pending) l = again (record l { pending = task ∷ pending })
  refill_from can_add now (suc room) (task ∷ pending) l = elim (can_add task) [
    | true ↦ refill_from can_add now room pending (add task 1 l)
    | false ↦ failed (record l { pending = pending })
  ]

  abbrev pub then_do : Verdict c → (Loop c → Verdict c) → Verdict c
  then_do (again l) next = next l
  then_do (left l) next = left l
  then_do (failed l) next = failed l
  then_do panicked next = panicked

  -- The end of a round, for its first error.
  abbrev pub end_round : Option (RunError c) → Round c → Loop c → Verdict c
  end_round (some e) x l = left l
  end_round none x l = if ltb 0 x.running && not x.waited then failed l else again l

  abbrev pub after_refill : Round c → Loop c → Verdict c
  after_refill x l = end_round l.tally.first_error x l

  abbrev pub rounds_left : List Running → Verdict c → Loop c → Verdict c
  rounds_left [] next l = left l
  rounds_left (r ∷ active) next l = next

  abbrev pub begin : List Task → SegmentBitmap → Loop c
  begin incomplete bitmap = record {
    pending = incomplete;
    retry_after = [];
    active = [];
    tally = fresh bitmap;
  }

  module _ (policy : Option RetryPolicy) (has_progress : Bool) (segment_count : ℕ)
      (max_concurrent : ℕ) where
    unfoldable pub refill_active : (Task → Bool) → ℕ → Loop c → Verdict c
    unfolding refill_from
    refill_active can_add now l =
        refill_from can_add now (max_concurrent - length l.active) l.pending l

    -- One round of the `while` loop.
    unfoldable pub round : Round c → Loop c → Verdict c
    unfolding sort_desc finish_all refill_active
    round x l =
        if x.aborted
        then left (record l { tally = keep_first job_aborted l.tally })
        else if not x.performed
        then failed l
        else then_do (finish_all policy has_progress segment_count (sort_desc x.messages) l)
            λ finished. then_do (refill_active x.can_add x.now finished) (after_refill x)

    -- The loop over the rounds that are given: `again` where it has not ended with them.
    unfoldable pub run_loop : List (Round c) → Loop c → Verdict c
    unfolding round
    run_loop [] l = rounds_left l.active (again l) l
    run_loop (x ∷ xs) l = rounds_left l.active (then_do (round x l) (run_loop xs)) l

    abbrev pub finish : Verdict c → Verdict c
    finish (left l) = left (record l { tally = flush has_progress segment_count l.tally })
    finish (again l) = again l
    finish (failed l) = failed l
    finish panicked = panicked

    unfoldable pub run_multi :
        (Task → Bool) → List (Round c) → List Task → SegmentBitmap → Verdict c
    unfolding add_first run_loop
    run_multi can_add rounds incomplete bitmap = finish (
        then_do
          (add_first can_add (min max_concurrent (length incomplete)) incomplete
            (begin incomplete bitmap))
          (run_loop rounds))

abbrev or_length : Option ℕ → List Task → ℕ
or_length none tasks = length tasks
or_length (some n) tasks = n

-- `download_segments_multi`: a maximum of 0 counts as 1, and with nothing to do the summary stays as
-- it was.
module _ {c : Curl} (policy : Option RetryPolicy) (has_progress : Bool) where
  abbrev unless_empty : DownloadSummary → SegmentBitmap → List Task → Verdict c → Verdict c
  unless_empty summary bitmap [] run =
      left (record (begin [] bitmap) { tally = record (fresh bitmap) { summary = summary } })
  unless_empty summary bitmap (task ∷ tasks) run = run

  unfoldable pub download_segments_multi :
      (Task → Bool)
      → List (Round c)
      → Option ℕ
      → DownloadSummary
      → List Segment
      → SegmentBitmap
      → Verdict c
  unfolding run_multi
  download_segments_multi can_add rounds max_concurrent summary segments bitmap =
      let incomplete = incomplete_from bitmap 0 segments in
      unless_empty summary bitmap incomplete (
        run_multi policy has_progress (length segments)
          (max (or_length max_concurrent incomplete) 1) can_add rounds incomplete bitmap)
