-- ===== src/Scheduler/Execute/Progress.antt =====
-- The bytes of a run and the bytes that were done before make the file.
use debian_download_manager.Prelude.{
  ℕ, zero, suc, ◌+◌, ◌-◌, ◌≤◌, ◌<◌, ◌≡◌, ◌∙◌, ◌^◌, refl, List, [], ◌∷◌, inl, inr, Bool-cases, arith,
}
use debian_download_manager.Segmenter.Range.{Segment, plan_segments}
use debian_download_manager.Segmenter.Range.Plan.{Tiles, plan_segments_partition}
use debian_download_manager.Segmenter.Bitmap.{SegmentBitmap, from_bytes, is_completed}
use debian_download_manager.Scheduler.Execute.{
  bytes_open, bytes_done, bytes_in_flight, progress_stats, effective_bytes,
}

bytes_of : List Segment → ℕ
bytes_of [] = 0
bytes_of (s ∷ ss) = (s.end - s.start) + bytes_of ss

split_bytes :
    (b : SegmentBitmap) (i : ℕ) (ss : List Segment)
    → bytes_open b i ss + bytes_done b i ss ≡ bytes_of ss
unfolding bytes_open bytes_done bytes_of
split_bytes b i [] = omega arith
split_bytes b i (s ∷ ss) = elim (Bool-cases (is_completed b i)) [
  | inl marked ↦ rw (marked, bytes_open, bytes_done) (omega (arith, split_bytes b (i + 1) ss))
  | inr open_yet ↦ rw (open_yet, bytes_open, bytes_done) (omega (arith, split_bytes b (i + 1) ss))
]

tiled_bytes : (lo hi : ℕ) (ss : List Segment) → Tiles lo hi ss → lo + bytes_of ss ≡ hi
unfolding bytes_of
tiled_bytes lo hi [] t = omega arith
tiled_bytes lo hi (s ∷ ss) t = omega (arith, tiled_bytes s.end hi ss t.2)

planned_bytes : (total count : ℕ) → 0 < count → bytes_of (plan_segments total count) ≡ total
unfolding bytes_of plan_segments
planned_bytes zero count h = refl
planned_bytes (suc total) count h = omega (
  arith,
  tiled_bytes 0 (suc total) (plan_segments (suc total) count)
      (plan_segments_partition (suc total) count (omega arith) h).0,
)

-- For a plan of one segment at least, the bytes that a run has still to download and the bytes of
-- the segments that are marked make the whole file, whatever the bitmap.
pub bytes_open-bytes_done :
    (b : SegmentBitmap) (total count : ℕ)
    → 0 < count
    → bytes_open b 0 (plan_segments total count) + bytes_done b 0 (plan_segments total count)
      ≡ total
bytes_open-bytes_done b total count h =
    split_bytes b 0 (plan_segments total count) ∙ planned_bytes total count h

-- Each slot holds no more than its segment has.
abbrev pub Fits : List ℕ → List Segment → Type 0
Fits [] ss = Unit
Fits (n ∷ slots) [] = ⊥
Fits (n ∷ slots) (s ∷ ss) = (n ≤ s.end - s.start) × Fits slots ss

in_flight-le :
    (b : SegmentBitmap) (i : ℕ) (slots : List ℕ) (ss : List Segment)
    → Fits slots ss
    → bytes_in_flight b i slots ≤ bytes_open b i ss
unfolding bytes_in_flight bytes_open
in_flight-le b i [] ss h = omega arith
in_flight-le b i (n ∷ slots) [] h = absurd h
in_flight-le b i (n ∷ slots) (s ∷ ss) h = elim (Bool-cases (is_completed b i)) [
  | inl marked ↦ rw (marked, bytes_in_flight, bytes_open) (in_flight-le b (i + 1) slots ss h.1)
  | inr open_yet ↦
      rw (open_yet, bytes_in_flight, bytes_open)
        (omega (arith, in_flight-le b (i + 1) slots ss h.1))
]

-- The progress that is shown never passes the size of the file (a u64), as long as no segment has
-- received more bytes than it has: for a plan of one segment at least, whatever bitmap was stored.
pub effective_bytes-le-total :
    (blob slots : List ℕ) (total count : ℕ)
    → 0 < count
    → total < 2 ^ 64
    → Fits slots (plan_segments total count)
    → effective_bytes (progress_stats blob slots (plan_segments total count) total count) ≤ total
unfolding effective_bytes progress_stats
effective_bytes-le-total blob slots total count h small fits =
    let b = from_bytes blob count in
    omega (
      arith,
      bytes_open-bytes_done b total count h,
      in_flight-le b 0 slots (plan_segments total count) fits,
    )
