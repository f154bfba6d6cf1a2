-- ===== src/Downloader/Whole.antt =====
-- The parts together: the plan of segmenter/range.rs, the transfers of downloader/segment.rs and the
-- bitmap of segmenter/bitmap.rs, which is marked for each segment that was downloaded.
use mathlib.Core.Option.{some-injective}
use debian_download_manager.Prelude.{
  ℕ, ◌+◌, ◌-◌, ◌<◌, ◌≡◌, ◌∙◌, inl, inr, true, false, ◌&&◌, [], some, ltb, leb, ◌==◌, arith,
  get_elem?, get_elem?-lt, sym, ap, subst, Bool-cases, ==→eq,
}
use debian_download_manager.Prelude.Result.{ok}
use debian_download_manager.Prelude.Text.{Text}
use debian_download_manager.Retry.Classify.{Curl}
use debian_download_manager.Segmenter.Range.{Segment, len, plan_segments}
use debian_download_manager.Segmenter.Range.Plan.{
  Holds, plan_segments_partition, plan_segments_covers,
}
use debian_download_manager.Segmenter.Bitmap.{
  SegmentBitmap, IsBytes, set_completed, is_completed, all_completed,
}
use debian_download_manager.Segmenter.Bitmap.Bytes.{bitmap-IsBytes}
use debian_download_manager.Segmenter.Bitmap.Laws.{is_completed-set_completed}
use debian_download_manager.Segmenter.Bitmap.Complete.{all_completed_iff}
use debian_download_manager.Downloader.File.{File, byte_at}
use debian_download_manager.Downloader.Segment.{Exchange, range_str, download_one_segment}
use debian_download_manager.Downloader.Segment.Delivery.{download_one_segment-ok}
use debian_download_manager.Downloader.Segment.Written.{bodies}

pub record Progress : Type 0 where
  pub bitmap : SegmentBitmap
  pub file : File

module _ (c : Curl) (content : File) (total count : ℕ) where
  -- What the server sends for a segment are the bytes of the content there.
  abbrev pub Sends : (Text → Exchange c) → Segment → Type 0
  Sends transport s =
      (x : ℕ)
      → Holds s x
      → byte_at (bodies (transport (range_str c s)).events) (x - s.start) ≡ content x

  -- Segment `i` of the plan is downloaded and then marked.
  pub data Fetch (p : Progress) : Progress → Type 0 where
    fetch :
        (transport : Text → Exchange c) (i : ℕ) (s : Segment) (after : File)
        → get_elem? (plan_segments total count) i ≡ some s
        → Sends transport s
        → download_one_segment c transport s p.file ≡ ok (ok tt, after)
        → Fetch p (record { bitmap = set_completed p.bitmap i; file = after })

  pub data Fetches (p : Progress) : Progress → Type 0 where
    start : Fetches p p
    then_fetch : {q r : Progress} → Fetches p q → Fetch q r → Fetches p r

  -- Each marked segment holds the content.
  pub record IsFaithful (p : Progress) : Type 0 where
    pub bytes : IsBytes p.bitmap.bytes
    pub holds :
        (i : ℕ) (s : Segment) (x : ℕ)
        → get_elem? (plan_segments total count) i ≡ some s
        → is_completed p.bitmap i ≡ true
        → Holds s x
        → p.file x ≡ content x

  within :
      (s : Segment) (x i : ℕ)
      → get_elem? (plan_segments total count) i ≡ some s
      → (leb s.start x && ltb x (s.start + len s)) ≡ true
      → Holds s x
  unfolding len
  within s x i e here = ground arith

  -- A byte outside segment `i` is in another one, whose mark is as old as the file there.
  other :
      (i j : ℕ) (s t : Segment) (x : ℕ)
      → get_elem? (plan_segments total count) i ≡ some s
      → get_elem? (plan_segments total count) j ≡ some t
      → Holds t x
      → (leb s.start x && ltb x (s.start + len s)) ≡ false
      → (b : SegmentBitmap) → IsBytes b.bytes
      → is_completed (set_completed b i) j ≡ true
      → is_completed b j ≡ true
  unfolding len
  other i j s t x e at inside elsewhere b ok_bytes complete =
      let marks = is_completed-set_completed b i j ok_bytes in
      elim (Bool-cases (i == j)) [
        | inr differ ↦ ground (arith, marks, differ)
        | inl same ↦
            let t_is_s : t ≡ s = some-injective _ _ (
              sym at
              ∙ ap (λ k. get_elem? (plan_segments total count) k) (sym (==→eq i j same))
              ∙ e) in
            let in_s : Holds s x = subst (λ (u : Segment). Holds u x) t_is_s inside in ground arith
      ]

  Fetch-IsFaithful : {p q : Progress} → 0 < count → IsFaithful p → Fetch p q → IsFaithful q
  Fetch-IsFaithful {p = p} pos f (fetch transport i s after e sends done) =
      let (_, _, marked, _) = bitmap-IsBytes p.bitmap [] 0 i f.bytes tt in
      let (_, value) = download_one_segment-ok c transport s p.file after done in
      record {
        bytes = marked;
        holds = λ j t x at complete inside.
            elim (Bool-cases (leb s.start x && ltb x (s.start + len s))) [
              | inl here ↦ value x ∙ rw here (sends x (within s x i e here))
              | inr elsewhere ↦
                  value x
                  ∙ rw elsewhere (
                      f.holds j t x at
                        (other i j s t x e at inside elsewhere p.bitmap f.bytes complete) inside)
            ];
      }

  pub Fetches-IsFaithful : {p q : Progress} → 0 < count → IsFaithful p → Fetches p q → IsFaithful q
  Fetches-IsFaithful pos f start = f
  Fetches-IsFaithful pos f (then_fetch before last) =
      Fetch-IsFaithful pos (Fetches-IsFaithful pos f before) last

  -- For a plan of one segment at least: begin with any bitmap whose marked segments hold the
  -- content, none for instance, and download segments in any order, each answered with the bytes of
  -- the content: once the bitmap says that all segments are completed, the file is the content,
  -- byte for byte.
  pub all_completed-content :
      {p q : Progress} (x : ℕ)
      → 0 < count
      → IsFaithful p
      → Fetches p q
      → all_completed q.bitmap count ≡ true
      → x < total
      → q.file x ≡ content x
  all_completed-content {q = q} x pos f run all lt =
      let g = Fetches-IsFaithful pos f run in
      let (i, s, e, inside, _) = plan_segments_covers total count x pos lt in
      g.holds i s x e
        ((all_completed_iff q.bitmap count g.bytes).0 all i (
          omega (
            arith,
            get_elem?-lt _ i s e,
            (plan_segments_partition total count (omega arith) pos).1,
          )))
        inside
