-- ===== src/Segmenter/Bitmap/Complete.antt =====
-- `all_completed` of bitmap.rs against the single bits.
use debian_download_manager.Prelude.{
  ℕ, zero, suc, ◌+◌, ◌-◌, ◌/◌, ◌%◌, ◌*◌, ◌^◌, ◌≤◌, ◌<◌, ◌≡◌, ◌↔◌, refl, true, List, [], ◌∷◌, some,
  arith, length, get_elem?, Bool-cases, inl, inr, leb, ◌==◌, bit_and, leb→le, subst, sym, ◌∙◌,
}
use debian_download_manager.Prelude.Bits.{test_bit, mask_sound, mask_complete}
use debian_download_manager.Segmenter.Bitmap.{
  SegmentBitmap, IsBytes, bytes_for, all_loop, all_completed, is_completed,
}
use debian_download_manager.Segmenter.Bitmap.Laws.{
  is_completed-byte, is_completed-past_end, get_elem?-total,
}

-- Every bit below `full * 8 + rem` that lies in the bytes is set; the first byte has index `i`.
abbrev AllSet : List ℕ → ℕ → ℕ → ℕ → Type 0
AllSet bytes i full rem =
    (q v r : ℕ)
    → get_elem? bytes q ≡ some v
    → r < 8
    → (i + q) * 8 + r < full * 8 + rem
    → test_bit v r ≡ true

all_loop_sound :
    (bytes : List ℕ) (i full rem : ℕ)
    → IsBytes bytes
    → rem < 8
    → all_loop bytes i full rem ≡ true
    → AllSet bytes i full rem
unfolding all_loop
all_loop_sound [] i full rem h hr e q v r f lt below = absurd (cc f)
all_loop_sound (b ∷ bytes) i full rem h hr e zero v r f lt below =
    let same : b ≡ v = ground (arith, f) in
    subst (λ (x : ℕ). test_bit x r ≡ true) same
      (ground (arith, mask_sound b 8 r h.0, mask_sound b rem r h.0))
all_loop_sound (b ∷ bytes) i full rem h hr e (suc q) v r f lt below =
    let in_tail : all_loop bytes (i + 1) full rem ≡ true → test_bit v r ≡ true =
      λ e'. all_loop_sound bytes (i + 1) full rem h.1 hr e' q v r f lt (omega arith) in
    ground arith

all_loop_complete :
    (bytes : List ℕ) (i full rem : ℕ)
    → IsBytes bytes
    → rem < 8
    → AllSet bytes i full rem
    → all_loop bytes i full rem ≡ true
unfolding all_loop
all_loop_complete [] i full rem h hr all = refl
all_loop_complete (b ∷ bytes) i full rem h hr all =
    let rest : all_loop bytes (i + 1) full rem ≡ true =
      all_loop_complete bytes (i + 1) full rem h.1 hr
        (λ q v r f lt below. all (suc q) v r f lt (omega arith)) in
    let whole : i < full → (bit_and b 0xff == 0xff) ≡ true =
      λ p. mask_complete b 8 h.0 (omega arith) (λ r lt. all zero b r refl lt (omega arith)) in
    let part : i ≡ full → (bit_and b (2 ^ rem - 1) == 2 ^ rem - 1) ≡ true = λ p.
      mask_complete b rem h.0 (omega arith)
        (λ r lt. all zero b r refl (omega arith) (omega arith)) in
    ground arith

at_bit :
    (b : SegmentBitmap) (q v r : ℕ)
    → get_elem? b.bytes q ≡ some v
    → r < 8
    → is_completed b (q * 8 + r) ≡ test_bit v r
at_bit b q v r f lt =
    let at : (q * 8 + r) / 8 ≡ q = omega arith in
    let bit : (q * 8 + r) % 8 ≡ r = omega arith in
    subst (λ x. is_completed b (q * 8 + r) ≡ test_bit v x) bit
      (is_completed-byte b (q * 8 + r) v (rw at f))

-- Where the first `n` bits are set there are bytes for them.
long_enough :
    (b : SegmentBitmap) (n : ℕ)
    → ((i : ℕ) → i < n → is_completed b i ≡ true)
    → bytes_for n ≤ length b.bytes
long_enough b n all = elim (Bool-cases (leb (bytes_for n) (length b.bytes))) [
  | inl le ↦ leb→le _ _ le
  | inr gt ↦
      let short : length b.bytes < bytes_for n = ground arith in
      absurd (cc (all (n - 1) (omega arith), is_completed-past_end b (n - 1) (omega arith)))
]

all_completed_sound :
    (b : SegmentBitmap) (n : ℕ)
    → IsBytes b.bytes
    → all_completed b n ≡ true
    → (i : ℕ) → i < n
    → is_completed b i ≡ true
unfolding all_completed
all_completed_sound b n h e i lt =
    let loop : all_loop b.bytes 0 (n / 8) (n % 8) ≡ true = ground arith in
    let enough : bytes_for n ≤ length b.bytes = ground arith in
    let (v, f) = get_elem?-total b.bytes (i / 8) (omega arith) in
    is_completed-byte b i v f
    ∙ all_loop_sound b.bytes 0 (n / 8) (n % 8) h (omega arith) loop (i / 8) v (i % 8) f
        (omega arith) (omega arith)

all_completed_complete :
    (b : SegmentBitmap) (n : ℕ)
    → IsBytes b.bytes
    → ((i : ℕ) → i < n → is_completed b i ≡ true)
    → all_completed b n ≡ true
unfolding all_completed
all_completed_complete b n h all =
    let loop : all_loop b.bytes 0 (n / 8) (n % 8) ≡ true =
      all_loop_complete b.bytes 0 (n / 8) (n % 8) h (omega arith)
        (λ q v r f lt below. sym (at_bit b q v r f lt) ∙ all (q * 8 + r) (omega arith)) in
    let enough = long_enough b n all in ground arith

-- `all_completed(n)` says true exactly if each of the first `n` segments is marked completed.
pub all_completed_iff :
    (b : SegmentBitmap) (n : ℕ)
    → IsBytes b.bytes
    → (all_completed b n ≡ true) ↔ ((i : ℕ) → i < n → is_completed b i ≡ true)
all_completed_iff b n h = (all_completed_sound b n h, all_completed_complete b n h)
