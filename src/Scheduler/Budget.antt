-- ===== src/Scheduler/Budget.antt =====
-- crates/ddm-core/src/scheduler/budget.rs: `GlobalConnectionBudget`, and the guard of
-- execute/guard.rs, which releases what was reserved. The atomic counter is a number in the shared
-- state; `Budget.Threads` runs the compare-and-exchange loops of any number of threads.
pub mod Threads
use debian_download_manager.Prelude.{ℕ, ◌+◌, ◌-◌, min, max}

pub record GlobalConnectionBudget : Type 0 where
  pub max_total : ℕ
  pub in_use : ℕ

unfoldable pub new : ℕ → GlobalConnectionBudget
new max_total = record { max_total = max max_total 1; in_use = 0 }

unfoldable pub available : GlobalConnectionBudget → ℕ
available b = b.max_total - b.in_use

-- What one round of the loop in `reserve` tries to take, for the value that it has read.
unfoldable pub take_of : ℕ → ℕ → ℕ → ℕ
take_of max_total current requested = min (min requested (max_total - current)) max_total

-- What one round of the loop in `release` tries to store.
unfoldable pub left_of : ℕ → ℕ → ℕ
left_of current n = current - n

-- The two calls with no other thread in between: the first round succeeds.
unfoldable pub reserve : GlobalConnectionBudget → ℕ → GlobalConnectionBudget × ℕ
reserve b requested =
    let n = take_of b.max_total b.in_use requested in (record b { in_use = b.in_use + n }, n)

unfoldable pub release : GlobalConnectionBudget → ℕ → GlobalConnectionBudget
release b n = record b { in_use = left_of b.in_use n }
