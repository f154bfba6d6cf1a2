-- ===== src/Downloader/Segment/Keeps.antt =====
-- A transfer whose body is a run of the content, whether it succeeds or not, does not spoil a byte
-- of the file that is right.
use debian_download_manager.Prelude.{
  ℕ, zero, suc, ◌+◌, ◌-◌, ◌<◌, ◌≡◌, refl, sym, ap, subst, ◌∙◌, inl, inr, Bool, true, false, List,
  [], ◌∷◌, ◌++◌, Option, none, some, ◌==◌, arith, ==→eq, length, take, Bool-cases, Option-cases,
  ◌&&◌, leb, ltb,
}
use debian_download_manager.Prelude.Result.{Result, ok, err, ok-injective, Result-cases}
use debian_download_manager.Prelude.Text.{Text, is_empty}
use debian_download_manager.Retry.Classify.{Curl}
use debian_download_manager.Retry.Run.{SegmentResult}
use debian_download_manager.Segmenter.Range.{Segment, len}
use debian_download_manager.Segmenter.Range.Plan.{Holds}
use debian_download_manager.Downloader.File.{File, StorageError, put_bytes, write_at, byte_at}
use debian_download_manager.Downloader.Segment.{
  Event, header, body, Exchange, Cells, start_cells, check_range, store, on_checked, on_body,
  run_events, finish, range_str, download_one_segment,
}
use debian_download_manager.Downloader.Segment.Written.{bodies}
use debian_download_manager.Downloader.Segment.Delivery.{download_one_segment-ok}

module _ (content : File) where
  -- The bytes are those of the content from the offset on.
  abbrev pub AreFrom : ℕ → List ℕ → Type 0
  AreFrom offset [] = Unit
  AreFrom offset (b ∷ bytes) = (b ≡ content offset) × AreFrom (offset + 1) bytes

  AreFrom-take :
      (n offset : ℕ) (bytes : List ℕ) → AreFrom offset bytes → AreFrom offset (take n bytes)
  AreFrom-take zero offset bytes h = tt
  AreFrom-take (suc n) offset [] h = tt
  AreFrom-take (suc n) offset (b ∷ bytes) h = (h.0, AreFrom-take n (offset + 1) bytes h.1)

  AreFrom-append :
      (offset next : ℕ) (xs ys : List ℕ)
      → next ≡ offset + length xs
      → AreFrom offset (xs ++ ys)
      → AreFrom offset xs × AreFrom next ys
  AreFrom-append offset next [] ys e h = (tt, subst (λ n. AreFrom n ys) (omega (arith, e)) h)
  AreFrom-append offset next (x ∷ xs) ys e h =
      let (front, back) = AreFrom-append (offset + 1) next xs ys (omega (arith, e)) h.1 in
      ((h.0, front), back)

  AreFrom-byte_at :
      (offset i : ℕ) (bytes : List ℕ)
      → AreFrom offset bytes
      → i < length bytes
      → byte_at bytes i ≡ content (offset + i)
  AreFrom-byte_at offset i [] h lt = absurd (omega (arith, lt))
  AreFrom-byte_at offset zero (b ∷ bytes) h lt = h.0 ∙ ap content (omega arith)
  AreFrom-byte_at offset (suc i) (b ∷ bytes) h lt =
      AreFrom-byte_at (offset + 1) i bytes h.1 (omega (arith, lt)) ∙ ap content (omega arith)

  module _ (x : ℕ) where
    -- The byte at `x` is right.
    abbrev IsRight : File → Type 0
    IsRight file = file x ≡ content x

    put_bytes-IsRight :
        (offset : ℕ) (bytes : List ℕ) (file : File)
        → AreFrom offset bytes
        → IsRight file
        → IsRight (put_bytes offset bytes file)
    unfolding put_bytes
    put_bytes-IsRight offset [] file h r = r
    put_bytes-IsRight offset (b ∷ bytes) file h r = elim (Bool-cases (x == offset)) [
      | inl here ↦ rw (here, put_bytes) (h.0 ∙ ap content (sym (==→eq x offset here)))
      | inr later ↦ rw (later, put_bytes) (put_bytes-IsRight (offset + 1) bytes file h.1 r)
    ]

    -- What is left after body data: the byte is right, and all data is counted if it was taken.
    abbrev Leaves : ℕ → Cells × Bool → Type 0
    Leaves n (cells, took) = IsRight cells.file × (took ≡ true → cells.bytes_written ≡ n)

    module _ (segment : Segment) where
      store-Leaves :
          (bytes : List ℕ) (written : Option ℕ) (cells : Cells)
          → AreFrom (segment.start + cells.bytes_written) bytes
          → IsRight cells.file
          → Leaves (cells.bytes_written + length bytes) (store segment bytes written cells)
      unfolding store write_at
      store-Leaves bytes none cells h r = (r, λ took. refl)
      store-Leaves bytes (some n) cells h r =
          let kept =
            put_bytes-IsRight (segment.start + cells.bytes_written) (take n bytes) cells.file
              (AreFrom-take n (segment.start + cells.bytes_written) bytes h) r in
          elim (Bool-cases (n == length bytes)) [
            | inl whole ↦ rw (whole, store) (kept, λ took. refl)
            | inr short ↦ rw (short, store) (kept, λ took. refl)
          ]

      nothing : (bytes : List ℕ) → is_empty bytes ≡ true → length bytes ≡ 0
      nothing [] e = refl
      nothing (b ∷ bytes) e = absurd (cc e)

      on_checked-Leaves :
          (bytes : List ℕ) (written : Option ℕ) (check : Result ℕ Unit) (cells : Cells)
          → AreFrom (segment.start + cells.bytes_written) bytes
          → IsRight cells.file
          → Leaves
              (cells.bytes_written + length bytes)
              (on_checked segment bytes written check cells)
      unfolding on_checked
      on_checked-Leaves bytes written (ok done) cells h r = store-Leaves bytes written cells h r
      on_checked-Leaves bytes written (err status) cells h r =
          (r, λ took. omega (arith, nothing bytes took))

      on_body-Leaves :
          (bytes : List ℕ) (written : Option ℕ) (cells : Cells) {left : Cells × Bool}
          → AreFrom (segment.start + cells.bytes_written) bytes
          → IsRight cells.file
          → on_body segment bytes written cells ≡ ok left
          → Leaves (cells.bytes_written + length bytes) left
      unfolding on_body
      on_body-Leaves bytes written cells h r e = elim (Option-cases cells.range_check) [
        | inr (check, e1) ↦
            subst (Leaves (cells.bytes_written + length bytes))
              (ok-injective (rw (e1, on_body) at e))
              (on_checked-Leaves bytes written check cells h r)
        | inl e1 ↦ elim (Result-cases (check_range segment cells.response_headers)) [
          | inr (panic, e2) ↦ absurd (cc (rw (e1, e2, on_body) at e))
          | inl (check, e2) ↦
              subst (Leaves (cells.bytes_written + length bytes))
                (ok-injective (rw (e1, e2, on_body) at e))
                (on_checked-Leaves bytes written check (record cells { range_check = some check }) h
                  r)
        ]
      ]

      run_events-IsRight :
          (events : List Event) (cells next : Cells) (took : Bool)
          → AreFrom (segment.start + cells.bytes_written) (bodies events)
          → IsRight cells.file
          → run_events segment events cells ≡ ok (next, took)
          → IsRight next.file
      unfolding run_events
      run_events-IsRight [] cells next took h r e =
          subst IsRight (ap (λ (p : Cells × Bool). p.0.file) (ok-injective e)) r
      run_events-IsRight (header received ∷ events) cells next took h r e =
          run_events-IsRight events _ next took h r e
      run_events-IsRight (body bytes written ∷ events) cells next took h r e =
          let there = segment.start + (cells.bytes_written + length bytes) in
          let (now, later) =
            AreFrom-append (segment.start + cells.bytes_written) there bytes (bodies events)
              (omega arith) h in
          elim (Result-cases (on_body segment bytes written cells)) [
            | inr (panic, e1) ↦ absurd (cc (rw (e1, run_events) at e))
            | inl ((mid, true), e1) ↦
                let (kept, counted) = on_body-Leaves bytes written cells now r e1 in
                run_events-IsRight events mid next took
                  (subst (λ n. AreFrom (segment.start + n) (bodies events)) (sym (counted refl))
                    later)
                  kept (rw (e1, run_events) at e)
            | inl ((mid, false), e1) ↦
                let (kept, _) = on_body-Leaves bytes written cells now r e1 in
                subst IsRight
                  (ap (λ (p : Cells × Bool). p.0.file) (ok-injective (rw (e1, run_events) at e)))
                  kept
          ]

  -- What the server sends for the segment is a run of the content from its start on.
  abbrev pub Serves : (c : Curl) → (Text → Exchange c) → Segment → Type 0
  Serves c transport s = AreFrom s.start (bodies (transport (range_str c s)).events)

  pub download_one_segment-keeps :
      (c : Curl) (transport : Text → Exchange c) (s : Segment) (file after : File)
      (result : SegmentResult c StorageError) (x : ℕ)
      → Serves c transport s
      → download_one_segment c transport s file ≡ ok (result, after)
      → file x ≡ content x
      → after x ≡ content x
  unfolding download_one_segment
  download_one_segment-keeps c transport s file after result x serves e r =
      let ex = transport (range_str c s) in
      let left = λ (p : SegmentResult c StorageError × File). p.1 in
      elim (Option-cases ex.set_up) [
        | inr (er, e1) ↦
            subst (IsRight x) (ap left (ok-injective (rw (e1, download_one_segment) at e))) r
        | inl e1 ↦ elim (Result-cases (run_events s ex.events (start_cells file))) [
          | inr (panic, e2) ↦ absurd (cc (rw (e1, e2, download_one_segment) at e))
          | inl ((cells, took), e2) ↦ elim (Result-cases (finish c s ex cells took)) [
            | inr (panic, e3) ↦ absurd (cc (rw (e1, e2, e3, download_one_segment) at e))
            | inl (res, e3) ↦
                subst (IsRight x)
                  (ap left (ok-injective (rw (e1, e2, e3, download_one_segment) at e)))
                  (run_events-IsRight x s ex.events (start_cells file) cells took
                    (subst (λ n. AreFrom n (bodies ex.events)) (omega arith) serves) r e2)
          ]
        ]
      ]

  pub download_one_segment-right :
      (c : Curl) (transport : Text → Exchange c) (s : Segment) (file after : File) (x : ℕ)
      → Serves c transport s
      → download_one_segment c transport s file ≡ ok (ok tt, after)
      → Holds s x
      → after x ≡ content x
  unfolding len
  download_one_segment-right c transport s file after x serves e inside =
      let (size, value) = download_one_segment-ok c transport s file after e in
      let here : (leb s.start x && ltb x (s.start + len s)) ≡ true = ground (arith, inside) in
      value x
      ∙ rw here (
          AreFrom-byte_at s.start (x - s.start) (bodies (transport (range_str c s)).events) serves
            (omega (arith, size, inside))
          ∙ ap content (omega (arith, inside)))
