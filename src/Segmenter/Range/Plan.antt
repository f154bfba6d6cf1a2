-- ===== src/Segmenter/Range/Plan.antt =====
-- The plan of range.rs: it splits the file, in order, into the given number of parts, whose
-- lengths differ by one byte at most.
use mathlib.Core.Option.{some-injective}
use debian_download_manager.Prelude.{
  ℕ, zero, suc, ◌+◌, ◌*◌, ◌/◌, ◌%◌, ◌≤◌, ◌<◌, min, ◌≡◌, refl, ◌⊎◌, inl, inr, List, [], ◌∷◌, some,
  arith, length, get_elem?, All, All-get, ltb, if◌then◌else◌, subst, ap, Bool-cases, tests,
}
use debian_download_manager.Segmenter.Range.{Segment, len, plan_loop, plan_segments}

-- The segments lie end to end from `lo` to `hi`.
abbrev pub Tiles : ℕ → ℕ → List Segment → Type 0
Tiles lo hi [] = lo ≡ hi
Tiles lo hi (s ∷ ss) = (s.start ≡ lo) × (lo ≤ s.end) × Tiles s.end hi ss

-- A segment has `base` bytes or one more.
abbrev pub IsEven : ℕ → Segment → Type 0
IsEven base s = (len s ≡ base) ⊎ (len s ≡ base + 1)

Tiles-le : (lo hi : ℕ) (ss : List Segment) → Tiles lo hi ss → lo ≤ hi
Tiles-le lo hi [] t = omega arith
Tiles-le lo hi (s ∷ ss) t = omega (arith, Tiles-le s.end hi ss t.2)

-- Where round `i` starts.
abbrev at_round : ℕ → ℕ → ℕ → ℕ
at_round base remainder i = i * base + min i remainder

-- Where the next round starts: the `min` with the total size cuts nothing off.
next_round :
    (base remainder total rounds i offset : ℕ)
    → at_round base remainder i ≡ offset
    → at_round base remainder (i + suc rounds) ≡ total
    → min (offset + (base + (if ltb i remainder then 1 else 0))) total
      ≡ at_round base remainder (i + 1)
next_round base remainder total rounds i offset p e = elim (Bool-cases (ltb i remainder)) [
  | inl h ↦ rw h (omega (tests, h))
  | inr h ↦ rw h (let ge : remainder ≤ i = ground arith in omega arith)
]

module _ (base remainder total : ℕ) where
  plan_loop-Tiles :
      (rounds i offset : ℕ)
      → at_round base remainder i ≡ offset
      → at_round base remainder (i + rounds) ≡ total
      → Tiles offset total (plan_loop rounds i base remainder total offset)
  unfolding plan_loop
  plan_loop-Tiles zero i offset p e = omega arith
  plan_loop-Tiles (suc rounds) i offset p e =
      let next = next_round base remainder total rounds i offset p e in
      (
        refl,
        omega (arith, next),
        plan_loop-Tiles rounds (i + 1) _ (omega (arith, next)) (omega arith),
      )

  plan_loop-IsEven :
      (rounds i offset : ℕ)
      → at_round base remainder i ≡ offset
      → at_round base remainder (i + rounds) ≡ total
      → All (IsEven base) (plan_loop rounds i base remainder total offset)
  unfolding plan_loop len
  plan_loop-IsEven zero i offset p e = tt
  plan_loop-IsEven (suc rounds) i offset p e =
      let next = next_round base remainder total rounds i offset p e in
      (omega (arith, next), plan_loop-IsEven rounds (i + 1) _ (omega (arith, next)) (omega arith))

  length-plan_loop :
      (rounds i offset : ℕ) → length (plan_loop rounds i base remainder total offset) ≡ rounds
  unfolding plan_loop
  length-plan_loop zero i offset = refl
  length-plan_loop (suc rounds) i offset = ap suc (length-plan_loop rounds (i + 1) _)

-- What the divisions give: `count` rounds fill the file.
filled :
    (total count : ℕ) → 0 < count → at_round (total / count) (total % count) (0 + count) ≡ total
filled total count h = omega arith

-- The plan of a file that has bytes, over at least one segment.
planned :
    (total count : ℕ)
    → 0 < total
    → 0 < count
    → plan_segments total count ≡ plan_loop count 0 (total / count) (total % count) total 0
unfolding plan_segments
planned total count h k = ground arith

-- For a file of at least one byte and a count of at least one, the plan has `count` segments, which
-- lie end to end from byte 0 to the end of the file, and each has `total / count` bytes or one more.
pub plan_segments_partition :
    (total count : ℕ)
    → 0 < total
    → 0 < count
    → Tiles 0 total (plan_segments total count)
      × (length (plan_segments total count) ≡ count)
      × All (IsEven (total / count)) (plan_segments total count)
plan_segments_partition total count h k = rw (planned total count h k) (
  plan_loop-Tiles _ _ total count 0 0 (omega arith) (filled total count k),
  length-plan_loop _ _ total count 0 0,
  plan_loop-IsEven _ _ total count 0 0 (omega arith) (filled total count k),
)

-- A byte is in a segment.
abbrev pub Holds : Segment → ℕ → Type 0
Holds s x = (s.start ≤ x) × (x < s.end)

-- In a run of tiles, a byte lies in exactly one segment: it has an index, and no other index fits.
pub Tiles-index :
    (lo hi : ℕ) (ss : List Segment) (x : ℕ)
    → Tiles lo hi ss
    → lo ≤ x
    → x < hi
    → (i : ℕ) × (s : Segment) × (get_elem? ss i ≡ some s) × Holds s x
Tiles-index lo hi [] x t p q = absurd (omega arith)
Tiles-index lo hi (s ∷ ss) x t p q = elim (Bool-cases (ltb x s.end)) [
  | inl h ↦ (0, s, refl, omega (tests, h))
  | inr h ↦
      let ge : s.end ≤ x = ground arith in
      let (i, s', e, inside) = Tiles-index s.end hi ss x t.2 ge q in (suc i, s', e, inside)
]

pub Tiles-bounds :
    (lo hi : ℕ) (ss : List Segment) (i : ℕ) (s : Segment)
    → Tiles lo hi ss
    → get_elem? ss i ≡ some s
    → (lo ≤ s.start) × (s.start ≤ s.end) × (s.end ≤ hi)
Tiles-bounds lo hi [] i s t e = absurd (cc e)
Tiles-bounds lo hi (u ∷ ss) zero s t e =
    let above = Tiles-le u.end hi ss t.2 in
    subst (λ (v : Segment). (lo ≤ v.start) × (v.start ≤ v.end) × (v.end ≤ hi)) {x = u}
      (some-injective _ _ e) (omega arith)
Tiles-bounds lo hi (u ∷ ss) (suc i) s t e =
    let (a, b, c) = Tiles-bounds u.end hi ss i s t.2 e in omega arith

-- Two places of a run of tiles that hold the same byte are one place.
Tiles-index_unique :
    (lo hi : ℕ) (ss : List Segment) (x i j : ℕ) (s t : Segment)
    → Tiles lo hi ss
    → get_elem? ss i ≡ some s
    → Holds s x
    → get_elem? ss j ≡ some t
    → Holds t x
    → i ≡ j
Tiles-index_unique lo hi [] x i j s t h e p f q = absurd (cc e)
Tiles-index_unique lo hi (u ∷ ss) x zero zero s t h e p f q = refl
Tiles-index_unique lo hi (u ∷ ss) x zero (suc j) s t h e p f q =
    let (a, b, c) = Tiles-bounds u.end hi ss j t h.2 f in
    let same : u.end ≡ s.end = ground (arith, e) in absurd (omega arith)
Tiles-index_unique lo hi (u ∷ ss) x (suc i) zero s t h e p f q =
    let (a, b, c) = Tiles-bounds u.end hi ss i s h.2 e in
    let same : u.end ≡ t.end = ground (arith, f) in absurd (omega arith)
Tiles-index_unique lo hi (u ∷ ss) x (suc i) (suc j) s t h e p f q =
    ap suc (Tiles-index_unique u.end hi ss x i j s t h.2 e p f q)

-- Every byte of the file lies in a segment of the plan, and in one only: whatever place holds it
-- is that place.
pub plan_segments_covers :
    (total count x : ℕ)
    → 0 < count
    → x < total
    → (i : ℕ) × (s : Segment) × (get_elem? (plan_segments total count) i ≡ some s)
      × Holds s x
      × ((j : ℕ) (t : Segment)
          → get_elem? (plan_segments total count) j ≡ some t
          → Holds t x
          → i ≡ j)
plan_segments_covers total count x k lt =
    let (tiles, _, _) = plan_segments_partition total count (omega arith) k in
    let (i, s, e, inside) = Tiles-index 0 total _ x tiles (omega arith) lt in
    (i, s, e, inside, λ j t f q. Tiles-index_unique 0 total _ x i j s t tiles e inside f q)

-- With no more segments than bytes no segment of the plan is empty, and all lie inside the file.
pub plan_segments_bounds :
    (total count i : ℕ) (s : Segment)
    → 0 < count
    → count ≤ total
    → get_elem? (plan_segments total count) i ≡ some s
    → (s.start < s.end) × (s.end ≤ total)
unfolding len
plan_segments_bounds total count i s k le e =
    let (tiles, _, even) = plan_segments_partition total count (omega arith) k in
    let (a, b, c) = Tiles-bounds 0 total _ i s tiles e in
    let base : 0 < total / count = ground arith in
    elim (All-get (IsEven (total / count)) _ i even e) [
      | inl same ↦ (omega arith, c)
      | inr more ↦ (omega arith, c)
    ]
