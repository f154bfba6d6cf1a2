-- ===== src/Examples/Segments.antt =====
-- A file of 10 bytes in 3 segments, and its bitmap.
use debian_download_manager.Prelude.{
  ℕ, ◌/◌, ◌<◌, ◌≡◌, ◌↔◌, refl, [], ◌∷◌, some, true, ◌||◌, ◌==◌, length, get_elem?, All, arith,
}
use debian_download_manager.Segmenter.Range.{Segment, plan_segments, plan_loop}
use debian_download_manager.Segmenter.Range.Plan.{
  Tiles, IsEven, Holds, plan_segments_partition, plan_segments_covers,
}
use debian_download_manager.Segmenter.Bitmap.{
  SegmentBitmap, from_bytes, to_bytes, set_completed, is_completed, all_completed,
}
use debian_download_manager.Segmenter.Bitmap.Laws.{is_completed-set_completed, from_bytes-to_bytes}
use debian_download_manager.Segmenter.Bitmap.Complete.{all_completed_iff}

ten_in_three :
    plan_segments 10 3
    ≡ record { start = 0; end = 4 }
      ∷ record { start = 4; end = 7 }
      ∷ record { start = 7; end = 10 }
      ∷ []
unfolding plan_segments plan_loop
ten_in_three = refl

plan_segments_partition_example :
    Tiles 0 10 (plan_segments 10 3)
    × (length (plan_segments 10 3) ≡ 3)
    × All (IsEven (10 / 3)) (plan_segments 10 3)
plan_segments_partition_example = plan_segments_partition 10 3 (omega arith) (omega arith)

plan_segments_covers_example :
    (i : ℕ) × (s : Segment) × (get_elem? (plan_segments 10 3) i ≡ some s)
    × Holds s 5
    × ((j : ℕ) (t : Segment) → get_elem? (plan_segments 10 3) j ≡ some t → Holds t 5 → i ≡ j)
plan_segments_covers_example = plan_segments_covers 10 3 5 (omega arith) (omega arith)

abbrev two_bytes : SegmentBitmap
two_bytes = record { bytes = 5 ∷ 2 ∷ [] }

is_completed-set_completed_example :
    is_completed (set_completed two_bytes 30) 9 ≡ ((30 == 9) || is_completed two_bytes 9)
is_completed-set_completed_example =
    is_completed-set_completed two_bytes 30 9 (omega arith, (omega arith, tt))

from_bytes-to_bytes_example :
    is_completed (from_bytes (to_bytes two_bytes 10) 10) 9 ≡ is_completed two_bytes 9
from_bytes-to_bytes_example = from_bytes-to_bytes two_bytes 10 9 (omega arith)

all_completed_iff_example :
    (all_completed two_bytes 3 ≡ true) ↔ ((i : ℕ) → i < 3 → is_completed two_bytes i ≡ true)
all_completed_iff_example = all_completed_iff two_bytes 3 (omega arith, (omega arith, tt))
