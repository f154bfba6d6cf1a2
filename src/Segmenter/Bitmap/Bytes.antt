-- ===== src/Segmenter/Bitmap/Bytes.antt =====
-- Every bitmap that the operations of bitmap.rs build holds bytes.
use debian_download_manager.Prelude.{
  ℕ, ◌+◌, ◌-◌, ◌/◌, ◌%◌, ◌<◌, ◌≡◌, List, Option, none, some, arith, length, take, replicate,
  All-append, All-replicate, All-take, All-set, All-get, min,
}
use debian_download_manager.Prelude.Bits.{bit_or-lt}
use debian_download_manager.Segmenter.Bitmap.{
  SegmentBitmap, IsBytes, bytes_for, new, from_bytes, to_bytes, grow, or_bit, set_completed,
}

pub grow-IsBytes : (bytes : List ℕ) (k : ℕ) → IsBytes bytes → IsBytes (grow bytes k)
unfolding grow
grow-IsBytes bytes k h = ground (
  arith,
  All-append (λ b. b < 256) bytes (replicate (k + 1 - length bytes) 0) h
      (All-replicate (λ b. b < 256) (k + 1 - length bytes) 0 (omega arith)),
)

or_bit-lt : (o : Option ℕ) (i : ℕ) → i < 8 → ((b : ℕ) → o ≡ some b → b < 256) → or_bit o i < 256
unfolding or_bit
or_bit-lt none i hi h = omega arith
or_bit-lt (some b) i hi h = bit_or-lt b i (h b (ground arith)) hi

pub set_completed-IsBytes :
    (b : SegmentBitmap) (index : ℕ) → IsBytes b.bytes → IsBytes (set_completed b index).bytes
unfolding set_completed
set_completed-IsBytes b index h =
    let grown = grow-IsBytes b.bytes (index / 8) h in
    All-set (λ b. b < 256) _ _ _ grown
      (or_bit-lt _ (index % 8) (omega arith) λ v e. All-get (λ b. b < 256) _ (index / 8) grown e)

-- All four ways to build a bitmap give bytes below 256: a new one, one read from bytes, one with a
-- further bit set, and the bytes written out.
pub bitmap-IsBytes :
    (b : SegmentBitmap) (bytes : List ℕ) (n index : ℕ)
    → IsBytes b.bytes
    → IsBytes bytes
    → IsBytes (new n).bytes
      × IsBytes (from_bytes bytes n).bytes
      × IsBytes (set_completed b index).bytes
      × IsBytes (to_bytes b n)
unfolding new from_bytes to_bytes
bitmap-IsBytes b bytes n index hb h = (
  All-replicate (λ b. b < 256) _ 0 (omega arith),
  All-append (λ b. b < 256) (take (min (length bytes) (bytes_for n)) bytes)
      (replicate (bytes_for n - min (length bytes) (bytes_for n)) 0)
      (All-take (λ b. b < 256) (min (length bytes) (bytes_for n)) bytes h)
      (All-replicate (λ b. b < 256) (bytes_for n - min (length bytes) (bytes_for n)) 0
        (omega arith)),
  set_completed-IsBytes b index hb,
  ground (arith, All-take (λ b. b < 256) (bytes_for n) b.bytes hb),
)
