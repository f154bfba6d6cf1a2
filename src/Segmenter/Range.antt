-- ===== src/Segmenter/Range.antt =====
-- crates/ddm-core/src/segmenter/range.rs: `Segment` and `plan_segments`.
-- A u64 or usize is a number; `Range.Plan` shows that no sum of the planner passes `total_size`,
-- so nothing wraps.
pub mod Plan
use debian_download_manager.Prelude.{
  ℕ, zero, suc, ◌+◌, ◌-◌, ◌/◌, ◌%◌, min, ◌||◌, List, [], ◌∷◌, ltb, ◌==◌, if◌then◌else◌,
}

-- The byte range from `start` up to, and without, `end`.
pub record Segment : Type 0 where
  pub start : ℕ
  pub end : ℕ

-- `saturating_sub` is the subtraction that stops at 0.
unfoldable pub len : Segment → ℕ
len s = s.end - s.start

-- The `for` loop: `rounds` rounds are left, the next one is round `i`.
unfoldable pub plan_loop : ℕ → ℕ → ℕ → ℕ → ℕ → ℕ → List Segment
plan_loop zero i base remainder total offset = []
plan_loop (suc rounds) i base remainder total offset =
    let l = base + (if ltb i remainder then 1 else 0) in
    let e = min (offset + l) total in
    record { start = offset; end = e } ∷ plan_loop rounds (i + 1) base remainder total e

unfoldable pub plan_segments : ℕ → ℕ → List Segment
plan_segments total_size segment_count =
    if (total_size == 0) || (segment_count == 0)
    then []
    else plan_loop segment_count 0 (total_size / segment_count) (total_size % segment_count)
        total_size 0
