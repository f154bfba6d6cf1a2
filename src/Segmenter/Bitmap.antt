-- ===== src/Segmenter/Bitmap.antt =====
-- crates/ddm-core/src/segmenter/bitmap.rs: `SegmentBitmap`, one bit for each segment, the lowest
-- bit of byte 0 for segment 0. A `Vec<u8>` is a list of numbers, which `IsBytes` keeps below 256.
pub mod Bytes
pub mod Laws
pub mod Complete
use debian_download_manager.Prelude.{
  ℕ, suc, ◌+◌, ◌-◌, ◌/◌, ◌%◌, ◌^◌, ◌<◌, min, bit_and, bit_or, Bool, true, false, not, ◌&&◌, List,
  [], ◌∷◌, ◌++◌, Option, none, some, ltb, leb, ◌==◌, if◌then◌else◌, length, get_elem?, set, take,
  replicate, All,
}
use debian_download_manager.Prelude.Bits.{test_bit}

pub record SegmentBitmap : Type 0 where
  pub bytes : List ℕ

-- The invariant of `Vec<u8>`.
abbrev pub IsBytes : List ℕ → Type 0
IsBytes = All (λ b. b < 256)

abbrev pub bytes_for : ℕ → ℕ
bytes_for segment_count = (segment_count + 7) / 8

unfoldable pub new : ℕ → SegmentBitmap
new segment_count = record { bytes = replicate (bytes_for segment_count) 0 }

-- The first `copy` bytes are those given, the rest are 0.
unfoldable pub from_bytes : List ℕ → ℕ → SegmentBitmap
from_bytes bytes segment_count =
    let n = bytes_for segment_count in
    let copy = min (length bytes) n in record { bytes = take copy bytes ++ replicate (n - copy) 0 }

-- `get(..len)` is `None` where the vector is shorter than that.
unfoldable pub to_bytes : SegmentBitmap → ℕ → List ℕ
to_bytes b segment_count =
    let n = bytes_for segment_count in if leb n (length b.bytes) then take n b.bytes else b.bytes

-- `resize`, which is called only to grow.
unfoldable pub grow : List ℕ → ℕ → List ℕ
grow bytes byte_idx =
    if leb (length bytes) byte_idx
    then bytes ++ replicate (byte_idx + 1 - length bytes) 0
    else bytes

or_bit : Option ℕ → ℕ → ℕ
or_bit none bit = 0
or_bit (some b) bit = bit_or b (2 ^ bit)

unfoldable pub set_completed : SegmentBitmap → ℕ → SegmentBitmap
unfolding or_bit
set_completed b index =
    let byte_idx = index / 8 in
    let bytes = grow b.bytes byte_idx in
    record { bytes = set bytes byte_idx (or_bit (get_elem? bytes byte_idx) (index % 8)) }

unfoldable pub is_completed : SegmentBitmap → ℕ → Bool
is_completed b index = elim (get_elem? b.bytes (index / 8)) [
  | none ↦ false
  | some v ↦ test_bit v (index % 8)
]

-- The `for` loop: false where it returns false, true where it ends or breaks.
unfoldable pub all_loop : List ℕ → ℕ → ℕ → ℕ → Bool
all_loop [] i full_bytes remainder_bits = true
all_loop (b ∷ bytes) i full_bytes remainder_bits =
    let rest = all_loop bytes (i + 1) full_bytes remainder_bits in
    if ltb i full_bytes
    then (if bit_and b 0xff == 0xff then rest else false)
    else if (i == full_bytes) && ltb 0 remainder_bits
    then (if bit_and b (2 ^ remainder_bits - 1) == 2 ^ remainder_bits - 1 then rest else false)
    else true

unfoldable pub all_completed : SegmentBitmap → ℕ → Bool
all_completed b segment_count =
    if segment_count == 0
    then true
    else if all_loop b.bytes 0 (segment_count / 8) (segment_count % 8)
    then leb (bytes_for segment_count) (length b.bytes)
    else false
