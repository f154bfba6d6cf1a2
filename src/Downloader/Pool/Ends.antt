-- ===== src/Downloader/Pool/Ends.antt =====
-- Every run of the pool ends: each step lowers a cost, and the receiving loop is never stuck.
use debian_download_manager.Prelude.{
  ℕ, zero, suc, ◌+◌, ◌*◌, ◌≤◌, ◌<◌, ◌≡◌, refl, ap, ◌⊎◌, inl, inr, Bool, true, false, List, [], ◌∷◌,
  some, arith, length, length-append, get_elem?, All,
}
use debian_download_manager.Prelude.Result.{ok, err}
use debian_download_manager.Retry.Classify.{
  Curl, ErrorKind, timeout, throttled, connection, http5xx, other, SegmentError, classify,
}
use debian_download_manager.Retry.Run.{SegmentResult}
use debian_download_manager.Downloader.File.{StorageError}
use debian_download_manager.Downloader.Tally.{Task}
use debian_download_manager.Downloader.Pool.{
  Report, Worker, at_abort, at_user_abort, at_pop, stopped, panicked, downloading, sending,
  HasEnded, Main, receiving, draining, checking, joining, returned, System, unless_set, on_error,
  on_report, next_round, Step, load_abort, load_user_abort, pop_task, pop_nothing, downloaded,
  panics, sends, aborts, receives, finds_closed, drains, checks, has_received_all, joins,
}
use debian_download_manager.Downloader.Tally.Open.{total, total-set}

abbrev user_cost : Bool → ℕ
user_cost false = 1
user_cost true = 0

List-cases {ℓ} :
    {A : Type ℓ} (xs : List A) → (xs ≡ []) ⊎ ((x : A) × (rest : List A) × (xs ≡ x ∷ rest))
List-cases [] = inl refl
List-cases (x ∷ xs) = inr (x, xs, refl)

module _ {c : Curl} where
  -- What is left to do: at most so many steps.
  abbrev worker_cost : Worker c → ℕ
  worker_cost at_abort = 3
  worker_cost at_user_abort = 2
  worker_cost at_pop = 1
  worker_cost stopped = 0
  worker_cost panicked = 0
  worker_cost (downloading task) = 8
  worker_cost (sending report) = 7

  abbrev main_cost : Main c → ℕ
  main_cost (receiving k) = 2
  main_cost (draining k index e) = 4
  main_cost (checking k) = 3
  main_cost joining = 1
  main_cost returned = 0

  abbrev cost : System c → ℕ
  cost s =
      8 * length s.queue
      + 3 * length s.channel
      + total worker_cost s.workers
      + main_cost s.main
      + user_cost s.user_abort

  error-cost :
      (kind : ErrorKind) (k index : ℕ) (e : SegmentError c StorageError) (s : System c)
      → s.main ≡ receiving (suc k)
      → cost (on_error kind k index e s) ≤ cost s + 2
  unfolding on_error
  error-cost other k index e s h = omega (arith, ap main_cost h)
  error-cost timeout k index e s h = omega (arith, ap main_cost h)
  error-cost throttled k index e s h = omega (arith, ap main_cost h)
  error-cost connection k index e s h = omega (arith, ap main_cost h)
  error-cost (http5xx code) k index e s h = omega (arith, ap main_cost h)

  report-cost :
      (p : Bool) (n k : ℕ) (report : Report c) (s : System c)
      → s.main ≡ receiving (suc k)
      → cost (on_report p n k report s) ≤ cost s + 2
  unfolding on_report
  report-cost p n k (index, ok done) s h = omega (arith, ap main_cost h)
  report-cost p n k (index, err e) s h = error-cost (classify e) k index e s h

  next_round-cost :
      (aborted : Bool) (k : ℕ) (s : System c)
      → s.main ≡ checking k
      → cost (next_round aborted k s) < cost s
  next_round-cost true k s h = omega (arith, ap main_cost h)
  next_round-cost false k s h = omega (arith, ap main_cost h)

  unless_set-cost : (flag : Bool) (w : Worker c) → worker_cost (unless_set flag w) ≤ worker_cost w
  unless_set-cost true w = omega arith
  unless_set-cost false w = omega arith

  Ended-or : (w : Worker c) → HasEnded c w ⊎ ¬ HasEnded c w
  Ended-or at_abort = inr (λ h. h)
  Ended-or at_user_abort = inr (λ h. h)
  Ended-or at_pop = inr (λ h. h)
  Ended-or stopped = inl tt
  Ended-or panicked = inl tt
  Ended-or (downloading task) = inr (λ h. h)
  Ended-or (sending report) = inr (λ h. h)

  -- All workers have ended, or there is one that has not.
  all_ended-or :
      (ws : List (Worker c))
      → All (HasEnded c) ws
        ⊎ ((i : ℕ) × (w : Worker c) × (get_elem? ws i ≡ some w) × ¬ HasEnded c w)
  all_ended-or [] = inl tt
  all_ended-or (w ∷ ws) = elim (Ended-or w) [
    | inr busy ↦ inr (0, w, refl, busy)
    | inl ended ↦ elim (all_ended-or ws) [
      | inl all ↦ inl (ended, all)
      | inr (i, w', e, busy) ↦ inr (suc i, w', e, busy)
    ]
  ]

  module _ (Outcome : Task → SegmentResult c StorageError → Type 0) (has_progress : Bool)
      (segment_count : ℕ) where
    abbrev StepOf : System c → System c → Type 0
    StepOf = Step Outcome has_progress segment_count

    Step-cost : {s t : System c} → StepOf s t → cost t < cost s
    Step-cost {s} (load_abort i e) = omega (
      arith,
      total-set worker_cost s.workers i at_abort (unless_set s.abort_requested at_user_abort) e,
      unless_set-cost s.abort_requested at_user_abort,
    )
    Step-cost {s} (load_user_abort i e) = omega (
      arith,
      total-set worker_cost s.workers i at_user_abort (unless_set s.user_abort at_pop) e,
      unless_set-cost s.user_abort at_pop,
    )
    Step-cost {s} (pop_task i {task} e q) =
        omega (arith, total-set worker_cost s.workers i at_pop (downloading task) e, ap length q)
    Step-cost {s} (pop_nothing i e q) =
        omega (arith, total-set worker_cost s.workers i at_pop stopped e)
    Step-cost {s} (downloaded i {task} r e o) =
        omega (arith, total-set worker_cost s.workers i (downloading task) (sending (task.0, r)) e)
    Step-cost {s} (panics i {task} e) =
        omega (arith, total-set worker_cost s.workers i (downloading task) panicked e)
    Step-cost {s} (sends i {report} e) = omega (
      arith,
      total-set worker_cost s.workers i (sending report) at_abort e,
      length-append s.channel (report ∷ []),
    )
    Step-cost {s} (aborts e) = omega (arith, ap user_cost e)
    Step-cost {s} (receives {k} {report} {rest} e q) = omega (
      arith,
      ap length q,
      report-cost has_progress segment_count k report (record s { channel = rest }) e,
    )
    Step-cost {s} (finds_closed e q ended) = omega (arith, ap main_cost e)
    Step-cost {s} (drains h) = omega (arith, ap main_cost h)
    Step-cost {s} (checks {k} e) = next_round-cost s.user_abort k s e
    Step-cost {s} (has_received_all e) = omega (arith, ap main_cost e)
    Step-cost {s} (joins e ended) = omega (arith, ap main_cost e)

    -- Every run from here ends, and only when `run_concurrent` has returned.
    pub data Terminates : System c → Type 0 where
      ends :
          {s : System c}
          → (s.main ≡ returned) ⊎ ((t : System c) × StepOf s t)
          → ((t : System c) → StepOf s t → Terminates t)
          → Terminates s

    module _ (answers : (task : Task) → (r : SegmentResult c StorageError) × Outcome task r) where
      worker_can :
          (s : System c) (i : ℕ) (w : Worker c)
          → get_elem? s.workers i ≡ some w
          → ¬ HasEnded c w
          → (t : System c) × StepOf s t
      worker_can s i at_abort e busy = (_, load_abort i e)
      worker_can s i at_user_abort e busy = (_, load_user_abort i e)
      worker_can s i at_pop e busy = elim (List-cases s.queue) [
        | inl q ↦ (_, pop_nothing i e q)
        | inr (task, rest, q) ↦ (_, pop_task i e q)
      ]
      worker_can s i stopped e busy = absurd (busy tt)
      worker_can s i panicked e busy = absurd (busy tt)
      worker_can s i (downloading task) e busy =
          let (r, o) = answers task in (_, downloaded i r e o)
      worker_can s i (sending report) e busy = (_, sends i e)

      can_step :
          (s : System c) (m : Main c) → s.main ≡ m → (m ≡ returned) ⊎ ((t : System c) × StepOf s t)
      can_step s returned e = inl refl
      can_step s (receiving zero) e = inr (_, has_received_all e)
      can_step s (receiving (suc k)) e = elim (List-cases s.channel) [
        | inr (report, rest, q) ↦ inr (_, receives e q)
        | inl q ↦ elim (all_ended-or s.workers) [
          | inl ended ↦ inr (_, finds_closed e q ended)
          | inr (i, w, at, busy) ↦ inr (worker_can s i w at busy)
        ]
      ]
      can_step s (draining k index error) e = inr (_, drains e)
      can_step s (checking k) e = inr (_, checks e)
      can_step s joining e = elim (all_ended-or s.workers) [
        | inl ended ↦ inr (_, joins e ended)
        | inr (i, w, at, busy) ↦ inr (worker_can s i w at busy)
      ]

      terminates : (fuel : ℕ) (s : System c) → cost s < fuel → Terminates s
      terminates zero s h = absurd (omega arith)
      terminates (suc fuel) s h =
          ends (can_step s s.main refl) λ t step. terminates fuel t (omega (arith, Step-cost step))

      -- If every download returns a result, then every run of the pool is finite, wherever it
      -- stands, and it stops only when `run_concurrent` has returned: the receiving loop does not
      -- wait for a result that never comes, and the join does not wait for a worker for ever.
      pub run_concurrent-Terminates : (s : System c) → Terminates s
      run_concurrent-Terminates s = terminates (suc (cost s)) s (omega arith)
