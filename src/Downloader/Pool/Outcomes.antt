-- ===== src/Downloader/Pool/Outcomes.antt =====
-- The pool over a plan, where each download that may succeed leaves its segment right.
use mathlib.Core.Option.{some-injective}
use debian_download_manager.Prelude.{
  ℕ, zero, suc, ◌+◌, ◌<◌, ◌≡◌, refl, sym, ap, subst, ◌∙◌, inl, inr, Bool, true, List, [], ◌∷◌, none,
  some, arith, get_elem?, Bool-cases,
}
use debian_download_manager.Prelude.Result.{ok}
use debian_download_manager.Retry.Classify.{Curl}
use debian_download_manager.Retry.Run.{SegmentResult}
use debian_download_manager.Segmenter.Range.{Segment, plan_segments}
use debian_download_manager.Segmenter.Range.Plan.{Holds, plan_segments_covers}
use debian_download_manager.Segmenter.Bitmap.{SegmentBitmap, IsBytes, is_completed}
use debian_download_manager.Downloader.File.{File, StorageError}
use debian_download_manager.Downloader.Tally.{Task, incomplete_from}
use debian_download_manager.Downloader.Pool.{
  returned, System, started, place, Step, load_abort, load_user_abort, pop_task, pop_nothing,
  downloaded, panics, sends, aborts, receives, finds_closed, drains, checks, has_received_all,
  joins, Reach, here, next,
}
use debian_download_manager.Downloader.Pool.Laws.{run_concurrent-ok}
use debian_download_manager.Downloader.Pool.Marks.{run_concurrent-marks}

-- A task has the segment of its index.
abbrev IsFrom : ℕ → List Segment → Task → Type 0
IsFrom j segments task = (d : ℕ) × (task.0 ≡ j + d) × (get_elem? segments d ≡ some task.1)

IsFrom-skip :
    (j : ℕ) (s : Segment) (segments : List Segment) (task : Task)
    → IsFrom (j + 1) segments task
    → IsFrom j (s ∷ segments) task
IsFrom-skip j s segments task (d, index, at) = (suc d, omega (arith, index), at)

task_of :
    (b : SegmentBitmap) (j : ℕ) (segments : List Segment) (k : ℕ) {task : Task}
    → get_elem? (incomplete_from b j segments) k ≡ some task
    → IsFrom j segments task
unfolding incomplete_from
task_of b j [] k e = absurd (cc e)
task_of b j (s ∷ ss) zero {task} e = elim (Bool-cases (is_completed b j)) [
  | inl skipped ↦
      IsFrom-skip j s ss task (task_of b (j + 1) ss zero (rw (skipped, incomplete_from) at e))
  | inr kept ↦
      let same : (j, s) ≡ task = some-injective _ _ (rw (kept, incomplete_from) at e) in
      subst (λ t. IsFrom j (s ∷ ss) t) same (0, omega arith, refl)
]
task_of b j (s ∷ ss) (suc k) {task} e = elim (Bool-cases (is_completed b j)) [
  | inl skipped ↦
      IsFrom-skip j s ss task (task_of b (j + 1) ss (suc k) (rw (skipped, incomplete_from) at e))
  | inr kept ↦ IsFrom-skip j s ss task (task_of b (j + 1) ss k (rw (kept, incomplete_from) at e))
]

module _ {c : Curl} (Outcome : Task → SegmentResult c StorageError → Type 0) (has_progress : Bool)
    (segment_count : ℕ) where
  -- A file in which the segments marked before and each segment that may succeed are right.
  pub outcomes_content :
      (content file : File) (total count : ℕ) (b : SegmentBitmap) (max_concurrent : ℕ)
      (aborted : Bool) {t : System c} (x : ℕ)
      → 0 < count
      → IsBytes b.bytes
      → ((i : ℕ) (s : Segment)
          → get_elem? (plan_segments total count) i ≡ some s
          → is_completed b i ≡ true
          → (y : ℕ) → Holds s y
          → file y ≡ content y)
      → ((task : Task) → Outcome task (ok tt) → (y : ℕ) → Holds task.1 y → file y ≡ content y)
      → Reach Outcome has_progress segment_count
          (started (incomplete_from b 0 (plan_segments total count)) max_concurrent aborted b)
          t
      → t.main ≡ returned
      → t.tally.first_error ≡ none
      → x < total
      → file x ≡ content x
  outcomes_content content file total count b m aborted x pos bytes old new run end fine lt =
      let plan = plan_segments total count in
      let (i, s, e, inside, _) = plan_segments_covers total count x pos lt in
      let marked =
        run_concurrent-ok Outcome has_progress segment_count plan b m aborted i s bytes run end fine
          e in
      elim (run_concurrent-marks Outcome (incomplete_from b 0 plan) b has_progress segment_count m
        aborted i bytes run marked) [
          | inl before ↦ old i s e before x inside
          | inr (task, (k, at), index, gives) ↦
              let (d, place, segment) = task_of b 0 plan k at in
              let same : s ≡ task.1 =
                some-injective _ _
                  (sym e ∙ ap (λ n. get_elem? plan n) (omega (arith, index, place)) ∙ segment) in
              new task gives x (subst (λ u. Holds u x) same inside)
        ]

-- A step of the pool is one for more outcomes, too.
module _ {c : Curl} {P Q : Task → SegmentResult c StorageError → Type 0} (p : Bool) (n : ℕ)
    (more : (task : Task) (result : SegmentResult c StorageError)
      → P task result
      → Q task result) where
  pub Step-more : {s t : System c} → Step P p n s t → Step Q p n s t
  Step-more (load_abort i e) = load_abort i e
  Step-more (load_user_abort i e) = load_user_abort i e
  Step-more (pop_task i e q) = pop_task i e q
  Step-more (pop_nothing i e q) = pop_nothing i e q
  Step-more (downloaded i {task} result e o) = downloaded i result e (more task result o)
  Step-more (panics i e) = panics i e
  Step-more (sends i e) = sends i e
  Step-more (aborts e) = aborts e
  Step-more (receives e q) = receives e q
  Step-more (finds_closed e q ended) = finds_closed e q ended
  Step-more (drains h) = drains h
  Step-more (checks e) = checks e
  Step-more (has_received_all e) = has_received_all e
  Step-more (joins e ended) = joins e ended

  pub Reach-more : {s t : System c} → Reach P p n s t → Reach Q p n s t
  Reach-more here = here
  Reach-more (next before last) = next (Reach-more before) (Step-more last)
