-- ===== src/Scheduler/Budget/Threads.antt =====
-- The budget under threads that interleave: every load and every compare-and-exchange of budget.rs
-- is a step, and a weak exchange may fail for no reason.
use mathlib.Core.Option.{some-injective}
use debian_download_manager.Prelude.{
  ℕ, zero, suc, ◌+◌, ◌-◌, ◌≤◌, min, max, ◌≡◌, ap, List, [], ◌∷◌, some, arith, get_elem?, set,
}
use debian_download_manager.Scheduler.Budget.{
  GlobalConnectionBudget, new, take_of, left_of, reserve, release,
}

-- Where a thread stands: outside, in the loop of `reserve` with what it last read, holding a
-- reservation, or in the loop of `release` (its guard is dropped) with what it last read.
pub data Thread : Type 0 where
  outside : Thread
  reserving : ℕ → ℕ → Thread
  holding : ℕ → Thread
  releasing : ℕ → ℕ → Thread

-- What a thread has reserved and not yet given back.
abbrev pub held : Thread → ℕ
held outside = 0
held (reserving requested current) = 0
held (holding n) = n
held (releasing n current) = n

abbrev pub total_held : List Thread → ℕ
total_held [] = 0
total_held (t ∷ ts) = held t + total_held ts

pub record System : Type 0 where
  pub budget : GlobalConnectionBudget
  pub threads : List Thread

abbrev in_use : System → ℕ
in_use s = s.budget.in_use

abbrev put : System → ℕ → ℕ → Thread → System
put s n i t = record {
  budget = record { max_total = s.budget.max_total; in_use = n };
  threads = set s.threads i t;
}

pub data Step (s : System) : System → Type 0 where
  -- `reserve`: the load, an exchange that succeeds, one that fails
  load_reserve :
      (i requested : ℕ)
      → get_elem? s.threads i ≡ some outside
      → Step s (put s (in_use s) i (reserving requested (in_use s)))
  reserved :
      (i requested current : ℕ)
      → get_elem? s.threads i ≡ some (reserving requested current)
      → current ≡ in_use s
      → Step s (
          put s
            (current + take_of s.budget.max_total current requested)
            i
            (holding (take_of s.budget.max_total current requested)))
  reserve_again :
      (i requested current : ℕ)
      → get_elem? s.threads i ≡ some (reserving requested current)
      → Step s (put s (in_use s) i (reserving requested (in_use s)))
  -- `release`, by the drop of the guard
  load_release :
      (i n : ℕ)
      → get_elem? s.threads i ≡ some (holding n)
      → Step s (put s (in_use s) i (releasing n (in_use s)))
  released :
      (i n current : ℕ)
      → get_elem? s.threads i ≡ some (releasing n current)
      → current ≡ in_use s
      → Step s (put s (left_of current n) i outside)
  release_again :
      (i n current : ℕ)
      → get_elem? s.threads i ≡ some (releasing n current)
      → Step s (put s (in_use s) i (releasing n (in_use s)))

pub data Reach (s : System) : System → Type 0 where
  here : Reach s s
  next : {t u : System} → Reach s t → Step t u → Reach s u

-- The counter is what the threads hold together, and stays within the limit.
pub record IsSound (max_total : ℕ) (s : System) : Type 0 where
  pub limit : s.budget.max_total ≡ max_total
  pub counted : s.budget.in_use ≡ total_held s.threads
  pub bounded : s.budget.in_use ≤ max_total

total_held-set :
    (ts : List Thread) (i : ℕ) (t t' : Thread)
    → get_elem? ts i ≡ some t
    → total_held (set ts i t') + held t ≡ total_held ts + held t'
total_held-set [] i t t' e = absurd (cc e)
total_held-set (u ∷ ts) zero t t' e =
    let same : held u ≡ held t = ap held (some-injective _ _ e) in omega arith
total_held-set (u ∷ ts) (suc i) t t' e = omega (arith, total_held-set ts i t t' e)

Step-IsSound : (m : ℕ) {s t : System} → Step s t → IsSound m s → IsSound m t
unfolding take_of left_of
Step-IsSound m {s} (load_reserve i r e) v = omega (
  arith,
  total_held-set s.threads i outside (reserving r (in_use s)) e,
  v.limit,
  v.counted,
  v.bounded,
)
Step-IsSound m {s} (reserved i r c e same) v =
    omega (
      arith,
      total_held-set s.threads i (reserving r c) (holding (take_of s.budget.max_total c r)) e,
    )
Step-IsSound m {s} (reserve_again i r c e) v =
    omega (arith, total_held-set s.threads i (reserving r c) (reserving r (in_use s)) e)
Step-IsSound m {s} (load_release i n e) v =
    omega (arith, total_held-set s.threads i (holding n) (releasing n (in_use s)) e)
Step-IsSound m {s} (released i n c e same) v =
    omega (arith, total_held-set s.threads i (releasing n c) outside e)
Step-IsSound m {s} (release_again i n c e) v =
    omega (arith, total_held-set s.threads i (releasing n c) (releasing n (in_use s)) e)

-- Whatever the interleaving of the loops of any number of threads: starting from a new budget and
-- threads that hold nothing, the counter is at every moment the sum of what the threads hold, and
-- never more than the budget's maximum (the configured one, at least 1).
pub Reach-IsSound :
    (max_total : ℕ) (ts : List Thread) {s : System}
    → total_held ts ≡ 0
    → Reach (record { budget = new max_total; threads = ts }) s
    → IsSound (max max_total 1) s
unfolding new
Reach-IsSound m ts h here = omega arith
Reach-IsSound m ts h (next r st) = Step-IsSound (max m 1) st (Reach-IsSound m ts h r)

-- Without other threads: `reserve` takes what was asked for or what is left, whichever is less,
-- and giving it back restores the budget.
pub release-reserve :
    (b : GlobalConnectionBudget) (requested : ℕ)
    → b.in_use ≤ b.max_total
    → ((reserve b requested).1 ≡ min requested (b.max_total - b.in_use))
      × ((reserve b requested).0.in_use ≤ b.max_total)
      × (release (reserve b requested).0 (reserve b requested).1 ≡ b)
unfolding reserve release take_of left_of
release-reserve b requested h = (omega arith, omega arith, ground arith)
