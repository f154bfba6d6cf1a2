-- ===== src/Downloader/Segment/Delivery.antt =====
-- A segment that is downloaded stands in the file.
use debian_download_manager.Prelude.{
  ℕ, ◌+◌, ◌-◌, ◌≡◌, refl, sym, ap, ◌∙◌, inl, inr, Bool, true, false, ◌&&◌, List, [], ltb, leb,
  if◌then◌else◌, arith, length, Option-cases,
}
use debian_download_manager.Prelude.Result.{ok, ok-injective, Result-cases}
use debian_download_manager.Prelude.Text.{Text}
use debian_download_manager.Retry.Classify.{Curl}
use debian_download_manager.Retry.Run.{SegmentResult}
use debian_download_manager.Segmenter.Range.{Segment, len}
use debian_download_manager.Downloader.Headers.{parse_content_range}
use debian_download_manager.Downloader.File.{
  File, StorageError, put_bytes, put_bytes-value, byte_at,
}
use debian_download_manager.Downloader.Segment.{
  Event, Exchange, Cells, start_cells, run_events, judge, finish, range_str, download_one_segment,
}
use debian_download_manager.Downloader.Segment.Written.{bodies, Wrote, run_events-Wrote}

module _ (c : Curl) (segment : Segment) where
  judge-ok :
      (cells : Cells) (code : ℕ)
      → judge c segment cells code ≡ ok (ok tt)
      → cells.bytes_written ≡ len segment
  unfolding judge
  judge-ok cells code e = elim (Result-cases (parse_content_range cells.response_headers)) [
    | inr (panic, e1) ↦ ground (arith, e1)
    | inl (range, e1) ↦ ground (arith, e1)
  ]

  finish-ok :
      (x : Exchange c) (cells : Cells) (took : Bool)
      → finish c segment x cells took ≡ ok (ok tt)
      → (took ≡ true) × (cells.bytes_written ≡ len segment)
  unfolding finish
  finish-ok x cells false e = absurd (cc (ok-injective e))
  finish-ok x cells true e = elim (Option-cases x.performed) [
    | inr (er, e1) ↦ absurd (cc (ok-injective (rw (e1, finish) at e)))
    | inl e1 ↦ elim (Result-cases x.response_code) [
      | inr (er, e2) ↦ absurd (cc (ok-injective (rw (e1, e2, finish) at e)))
      | inl (code, e2) ↦ (refl, judge-ok cells code (rw (e1, e2, finish) at e))
    ]
  ]

delivered :
    (segment : Segment) (events : List Event) (file after : File) (cells : Cells)
    → run_events segment events (start_cells file) ≡ ok (cells, true)
    → cells.bytes_written ≡ len segment
    → cells.file ≡ after
    → (length (bodies events) ≡ len segment)
      × ((x : ℕ)
          → after x ≡ (
              if leb segment.start x && ltb x (segment.start + len segment)
              then byte_at (bodies events) (x - segment.start)
              else file x))
delivered segment events file after cells e counted left =
    let first : Wrote segment file [] (start_cells file) = record {
      counted = refl;
      written = λ x. unfold put_bytes in refl;
    } in
    let w = run_events-Wrote segment file events [] (start_cells file) cells first e in
    let size : length (bodies events) ≡ len segment = sym w.counted ∙ counted in
    (
      size,
      λ x.
          ap (λ (f : File). f x) (sym left)
          ∙ w.written x
          ∙ put_bytes-value segment.start (bodies events) file x
          ∙ ap
              (λ n.
                if leb segment.start x && ltb x (segment.start + n)
                then byte_at (bodies events) (x - segment.start)
                else file x)
              size,
    )

-- A download of a segment that reports success received as many bytes as the segment has, and the
-- file now holds them, from the start of the segment on, and everywhere else what it held before.
pub download_one_segment-ok :
    (c : Curl) (transport : Text → Exchange c) (segment : Segment) (file after : File)
    → download_one_segment c transport segment file ≡ ok (ok tt, after)
    → (length (bodies (transport (range_str c segment)).events) ≡ len segment)
      × ((x : ℕ)
          → after x ≡ (
              if leb segment.start x && ltb x (segment.start + len segment)
              then byte_at (bodies (transport (range_str c segment)).events) (x - segment.start)
              else file x))
unfolding download_one_segment
download_one_segment-ok c transport segment file after e =
    let x = transport (range_str c segment) in
    elim (Option-cases x.set_up) [
      | inr (er, e1) ↦ absurd (
          cc (
            ap (λ (p : SegmentResult c StorageError × File). p.0)
              (ok-injective (rw (e1, download_one_segment) at e))))
      | inl e1 ↦ elim (Result-cases (run_events segment x.events (start_cells file))) [
        | inr (panic, e2) ↦ absurd (cc (rw (e1, e2, download_one_segment) at e))
        | inl ((cells, took), e2) ↦ elim (Result-cases (finish c segment x cells took)) [
          | inr (panic, e3) ↦ absurd (cc (rw (e1, e2, e3, download_one_segment) at e))
          | inl (result, e3) ↦
              let same = ok-injective (rw (e1, e2, e3, download_one_segment) at e) in
              let fine : result ≡ ok tt =
                ap (λ (p : SegmentResult c StorageError × File). p.0) same in
              let left : cells.file ≡ after =
                ap (λ (p : SegmentResult c StorageError × File). p.1) same in
              let (taken, counted) = finish-ok c segment x cells took (e3 ∙ ap ok fine) in
              delivered segment x.events file after cells (e2 ∙ ap (λ t. ok (cells, t)) taken)
                counted left
        ]
      ]
    ]
