-- ===== src/Segmenter/Bitmap/Laws.antt =====
-- The bits of bitmap.rs: what is set is read back, also through the bytes of the database.
use debian_download_manager.Prelude.{
  ℕ, zero, suc, ◌+◌, ◌-◌, ◌/◌, ◌%◌, ◌^◌, ◌≤◌, ◌<◌, ◌≡◌, ◌≢◌, refl, sym, ap, ◌∙◌, Bool, false, ◌||◌,
  List, [], ◌∷◌, ◌++◌, Option, none, some, arith, length, length-append, length-replicate,
  length-take, lt→ltb, get_elem?, set, get_elem?-set_self, get_elem?-set_ne, get_elem?-take,
  get_elem?-past_end, take, replicate, All-get, Bool-cases, ◌⊎◌, inl, inr, ltb, leb, ◌==◌,
  if◌then◌else◌, min, tests, bit_or,
}
use debian_download_manager.Prelude.Bits.{test_bit, test_bit-or, test_bit-zero}
use debian_download_manager.Segmenter.Bitmap.{
  SegmentBitmap, IsBytes, bytes_for, new, from_bytes, to_bytes, grow, or_bit, set_completed,
  is_completed,
}
use debian_download_manager.Segmenter.Bitmap.Bytes.{grow-IsBytes}

-- The bitmap over some bytes.
abbrev over : List ℕ → SegmentBitmap
over bytes = record { bytes = bytes }

-- The bit of a byte that may be missing.
bit_of : Option ℕ → ℕ → Bool
bit_of none r = false
bit_of (some v) r = test_bit v r

is_completed-bit_of :
    (b : SegmentBitmap) (i : ℕ) → is_completed b i ≡ bit_of (get_elem? b.bytes (i / 8)) (i % 8)
unfolding is_completed bit_of
is_completed-bit_of b i = ground arith

-- A bit of the bitmap by its byte.
pub is_completed-byte :
    (b : SegmentBitmap) (i v : ℕ)
    → get_elem? b.bytes (i / 8) ≡ some v
    → is_completed b i ≡ test_bit v (i % 8)
unfolding bit_of
is_completed-byte b i v f = rw (is_completed-bit_of b i, f)

-- No bit is set past the last byte.
pub is_completed-past_end :
    (b : SegmentBitmap) (i : ℕ) → length b.bytes ≤ i / 8 → is_completed b i ≡ false
unfolding bit_of
is_completed-past_end b i h = rw (is_completed-bit_of b i, get_elem?-past_end b.bytes (i / 8) h)

padded :
    (bytes : List ℕ) (n q : ℕ)
    → (get_elem? (bytes ++ replicate n 0) q ≡ get_elem? bytes q)
      ⊎ ((get_elem? bytes q ≡ none) × (get_elem? (bytes ++ replicate n 0) q ≡ some 0))
padded [] zero q = inl refl
padded [] (suc n) zero = inr (refl, refl)
padded [] (suc n) (suc q) = padded [] n q
padded (b ∷ bytes) n zero = inl refl
padded (b ∷ bytes) n (suc q) = padded bytes n q

-- Bytes of 0 at the end are as good as none.
is_completed-pad :
    (bytes : List ℕ) (n i : ℕ)
    → is_completed (over (bytes ++ replicate n 0)) i ≡ is_completed (over bytes) i
unfolding bit_of
is_completed-pad bytes n i =
    rw (is_completed-bit_of (over (bytes ++ replicate n 0)) i, is_completed-bit_of (over bytes) i)
      (elim (padded bytes n (i / 8)) [
        | inl e ↦ rw e
        | inr (e, f) ↦ rw (e, f) (test_bit-zero (i % 8) (omega arith))
      ])

is_completed-grow :
    (bytes : List ℕ) (k i : ℕ) → is_completed (over (grow bytes k)) i ≡ is_completed (over bytes) i
unfolding grow
is_completed-grow bytes k i = elim (Bool-cases (leb (length bytes) k)) [
  | inl h ↦ rw h (is_completed-pad bytes (k + 1 - length bytes) i)
  | inr h ↦ rw h
]

grow-long : (bytes : List ℕ) (k : ℕ) → k < length (grow bytes k)
unfolding grow
grow-long bytes k = elim (Bool-cases (leb (length bytes) k)) [
  | inl h ↦ rw (h, length-append, length-replicate) (omega (tests, h))
  | inr h ↦ rw h (ground arith)
]

-- In range the byte is there.
pub get_elem?-total {ℓ} :
    {A : Type ℓ} (bytes : List A) (q : ℕ)
    → q < length bytes
    → (v : A) × (get_elem? bytes q ≡ some v)
get_elem?-total [] q h = elim h [ ]
get_elem?-total (b ∷ bytes) zero h = (b, refl)
get_elem?-total (b ∷ bytes) (suc q) h = get_elem?-total bytes q (omega arith)

-- One bit of a vector that is long enough.
set_bit :
    (bytes : List ℕ) (index j v : ℕ)
    → IsBytes bytes
    → get_elem? bytes (index / 8) ≡ some v
    → index / 8 < length bytes
    → is_completed (over (set bytes (index / 8) (bit_or v (2 ^ (index % 8))))) j
      ≡ ((index == j) || is_completed (over bytes) j)
unfolding bit_of
set_bit bytes index j v h e lt =
    rw
      (
        is_completed-bit_of (over (set bytes (index / 8) (bit_or v (2 ^ (index % 8))))) j,
        is_completed-bit_of (over bytes) j,
      )
      (elim (Bool-cases (index / 8 == j / 8)) [
        | inl s ↦
            let here : index / 8 ≡ j / 8 = ground arith in
            let same : (index % 8 == j % 8) ≡ (index == j) = ground arith in
            rw (← here, get_elem?-set_self bytes (index / 8) _ lt, e, ← same)
              (test_bit-or v (index % 8) (j % 8) (All-get (λ b. b < 256) bytes (index / 8) h e)
                (omega arith) (omega arith))
        | inr s ↦
            let other : index / 8 ≢ j / 8 = ground arith in
            let differ : (index == j) ≡ false = ground arith in
            rw (get_elem?-set_ne bytes (index / 8) (j / 8) _ other, differ)
      ])

-- After `set_completed(index)` exactly that bit and the bits that were set before are set, also
-- where the vector had to grow.
pub is_completed-set_completed :
    (b : SegmentBitmap) (index j : ℕ)
    → IsBytes b.bytes
    → is_completed (set_completed b index) j ≡ ((index == j) || is_completed b j)
unfolding set_completed
is_completed-set_completed b index j h =
    let (v, e) = get_elem?-total (grow b.bytes (index / 8)) (index / 8) (grow-long _ _) in
    rw (e, or_bit)
      (set_bit (grow b.bytes (index / 8)) index j v (grow-IsBytes b.bytes (index / 8) h) e
          (grow-long _ _)
        ∙ ap (λ x. (index == j) || x) (is_completed-grow b.bytes (index / 8) j))

-- A new bitmap has no bit set.
pub is_completed-new : (n i : ℕ) → is_completed (new n) i ≡ false
unfolding new is_completed
is_completed-new n i = is_completed-pad [] (bytes_for n) i

is_completed-take :
    (bytes : List ℕ) (n i : ℕ)
    → i / 8 < n
    → is_completed (over (take (min (length bytes) n) bytes)) i ≡ is_completed (over bytes) i
is_completed-take bytes n i h =
    rw
      (
        is_completed-bit_of (over (take (min (length bytes) n) bytes)) i,
        is_completed-bit_of (over bytes) i,
      )
      (ap (λ o. bit_of o (i % 8))
        (elim (Bool-cases (ltb (i / 8) (length bytes))) [
          | inl lt ↦ get_elem?-take (min (length bytes) n) bytes (i / 8) (omega (tests, lt))
          | inr ge ↦
              let past : length bytes ≤ i / 8 = ground arith in
              get_elem?-past_end (take (min (length bytes) n) bytes) (i / 8)
                (omega (arith, length-take (min (length bytes) n) bytes))
              ∙ sym (get_elem?-past_end bytes (i / 8) past)
        ]))

is_completed-cut :
    (bytes : List ℕ) (n i : ℕ)
    → n ≤ i / 8
    → is_completed (over (take (min (length bytes) n) bytes)) i ≡ false
unfolding bit_of
is_completed-cut bytes n i h = rw (
  is_completed-bit_of (over (take (min (length bytes) n) bytes)) i,
  get_elem?-past_end (take (min (length bytes) n) bytes) (i / 8)
      (omega (arith, length-take (min (length bytes) n) bytes)),
)

-- What `from_bytes` reads: the bits of the bytes that it is given, as far as `segment_count` bits
-- reach in whole bytes, and no bit beyond. Missing bytes count as 0, extra bytes are ignored.
pub is_completed-from_bytes :
    (bytes : List ℕ) (n i : ℕ)
    → is_completed (from_bytes bytes n) i
      ≡ (if ltb (i / 8) (bytes_for n) then is_completed (record { bytes = bytes }) i else false)
unfolding from_bytes
is_completed-from_bytes bytes n i =
    is_completed-pad (take (min (length bytes) (bytes_for n)) bytes)
      (bytes_for n - min (length bytes) (bytes_for n)) i
    ∙ elim (Bool-cases (ltb (i / 8) (bytes_for n))) [
      | inl lt ↦ rw lt (is_completed-take bytes (bytes_for n) i (omega (tests, lt)))
      | inr ge ↦ rw ge (is_completed-cut bytes (bytes_for n) i (ground arith))
    ]

is_completed-to_bytes :
    (b : SegmentBitmap) (n i : ℕ) → i < n → is_completed (over (to_bytes b n)) i ≡ is_completed b i
unfolding to_bytes
is_completed-to_bytes b n i h = elim (Bool-cases (leb (bytes_for n) (length b.bytes))) [
  | inl le ↦
      let cut : min (length b.bytes) (bytes_for n) ≡ bytes_for n = omega (tests, le) in
      rw le (rw cut at (is_completed-take b.bytes (bytes_for n) i (omega arith)))
  | inr gt ↦ rw gt
]

-- What is written to the database is read back: for every segment below the count the bit of the
-- restored bitmap is the bit of the bitmap.
pub from_bytes-to_bytes :
    (b : SegmentBitmap) (n i : ℕ)
    → i < n
    → is_completed (from_bytes (to_bytes b n) n) i ≡ is_completed b i
from_bytes-to_bytes b n i h =
    is_completed-from_bytes (to_bytes b n) n i
    ∙ rw (lt→ltb (i / 8) (bytes_for n) (omega arith)) (is_completed-to_bytes b n i h)
