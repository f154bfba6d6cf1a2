-- ===== src/Downloader/Segment/Refusal.antt =====
-- A response that is not the segment's range is refused before anything is written.
use debian_download_manager.Prelude.{
  ℕ, ◌-◌, ◌≡◌, refl, ap, ◌∙◌, ◌⊎◌, inl, inr, true, false, ◌&&◌, List, [], ◌∷◌, ◌++◌, map, Option,
  none, some, arith, ==→eq, Bool-cases,
}
use debian_download_manager.Prelude.Result.{ok, err}
use debian_download_manager.Prelude.Text.{Text}
use debian_download_manager.Retry.Classify.{Curl, invalid_range_response}
use debian_download_manager.Segmenter.Range.{Segment}
use debian_download_manager.FetchHead.Probe.{on_header, collect}
use debian_download_manager.Downloader.Headers.{parse_http_status, parse_content_range}
use debian_download_manager.Downloader.File.{File}
use debian_download_manager.Downloader.Segment.{
  Event, header, body, Exchange, Cells, start_cells, or_zero, same_range, is_partial, check_range,
  on_checked, on_body, run_events, failed, finish, range_str, download_one_segment,
}

-- Header callbacks alone collect the headers.
run_events-headers :
    (segment : Segment) (received : List (Option Text)) (events : List Event) (cells : Cells)
    → run_events segment (map header received ++ events) cells
      ≡ run_events segment events
          (record cells { response_headers = collect received cells.response_headers })
unfolding run_events collect
run_events-headers segment [] events cells = refl
run_events-headers segment (h ∷ received) events cells =
    run_events-headers segment received events
      (record cells { response_headers = on_header h cells.response_headers })

on_body-refuses :
    (segment : Segment) (b status : ℕ) (bytes : List ℕ) (written : Option ℕ) (cells : Cells)
    → cells.range_check ≡ none
    → check_range segment cells.response_headers ≡ ok (err status)
    → on_body segment (b ∷ bytes) written cells
      ≡ ok (record cells { range_check = some (err status) }, false)
unfolding on_body on_checked
on_body-refuses segment b status bytes written cells none_yet check =
    simp (none_yet, check, on_body) refl

refuses :
    (segment : Segment) (b status : ℕ) (bytes : List ℕ) (written : Option ℕ) (events : List Event)
    (cells : Cells)
    → cells.range_check ≡ none
    → check_range segment cells.response_headers ≡ ok (err status)
    → run_events segment (body (b ∷ bytes) written ∷ events) cells
      ≡ ok (record cells { range_check = some (err status) }, false)
unfolding run_events
refuses segment b status bytes written events cells none_yet check =
    rw (on_body-refuses segment b status bytes written cells none_yet check, run_events) refl

is_partial-true : (status : Option ℕ) → is_partial status ≡ true → status ≡ some 206
unfolding is_partial
is_partial-true none e = absurd (cc e)
is_partial-true (some n) e = ap some (==→eq n 206 e)

same_range-true :
    (segment : Segment) (range : Option (ℕ × ℕ))
    → same_range segment range ≡ true
    → range ≡ some (segment.start, segment.end - 1)
unfolding same_range
same_range-true segment none e = absurd (cc e)
same_range-true segment (some (a, b)) e = ground arith

-- Any other status and any other range fail the check.
check_range-fails :
    (segment : Segment) (headers : List Text) (range : Option (ℕ × ℕ))
    → parse_content_range headers ≡ ok range
    → (¬ (parse_http_status headers ≡ some 206))
      ⊎ (¬ (range ≡ some (segment.start, segment.end - 1)))
    → check_range segment headers ≡ ok (err (or_zero (parse_http_status headers)))
unfolding check_range
check_range-fails segment headers range e other =
    let status = parse_http_status headers in
    elim (Bool-cases (is_partial status && same_range segment range)) [
      | inr bad ↦ rw (e, bad) refl
      | inl good ↦
          let partial : is_partial status ≡ true = ground arith in
          let same : same_range segment range ≡ true = ground arith in
          absurd (elim other [
            | inl h ↦ h (is_partial-true status partial)
            | inr h ↦ h (same_range-true segment range same)
          ])
    ]

refused_transfer :
    (c : Curl) (transport : Text → Exchange c) (segment : Segment) (file : File)
    (received : List (Option Text)) (b status : ℕ) (bytes : List ℕ) (written : Option ℕ)
    (events : List Event)
    → (transport (range_str c segment)).set_up ≡ none
    → (transport (range_str c segment)).events
      ≡ map header received ++ body (b ∷ bytes) written ∷ events
    → check_range segment (collect received []) ≡ ok (err status)
    → c.is_write_error (transport (range_str c segment)).refused ≡ true
    → download_one_segment c transport segment file ≡ ok (err (invalid_range_response status), file)
unfolding download_one_segment finish failed
refused_transfer c transport segment file received b status bytes written events s v check w =
    let x = transport (range_str c segment) in
    let stopped : run_events segment x.events (start_cells file)
        ≡ ok (
          record (start_cells file) {
            response_headers = collect received [];
            range_check = some (err status);
          },
          false,
        ) =
      ap (λ es. run_events segment es (start_cells file)) v
      ∙ run_events-headers segment received (body (b ∷ bytes) written ∷ events) (start_cells file)
      ∙ refuses segment b status bytes written events _ refl check in
    rw (s, stopped, w, download_one_segment) refl

-- Where libcurl takes the options, and the headers before the first body data are read without a
-- panic but have another status than 206, or no `Content-Range` with exactly the first and the last
-- byte of the segment, nothing is written, and the segment fails with that status (0 if there is
-- none); so if libcurl reports the refusal as a write error.
pub download_one_segment-refused :
    (c : Curl) (transport : Text → Exchange c) (segment : Segment) (file : File)
    (received : List (Option Text)) (b : ℕ) (bytes : List ℕ) (written : Option ℕ)
    (events : List Event) (range : Option (ℕ × ℕ))
    → (transport (range_str c segment)).set_up ≡ none
    → (transport (range_str c segment)).events
      ≡ map header received ++ body (b ∷ bytes) written ∷ events
    → parse_content_range (collect received []) ≡ ok range
    → (¬ (parse_http_status (collect received []) ≡ some 206))
      ⊎ (¬ (range ≡ some (segment.start, segment.end - 1)))
    → c.is_write_error (transport (range_str c segment)).refused ≡ true
    → download_one_segment c transport segment file
      ≡ ok (err (invalid_range_response (or_zero (parse_http_status (collect received [])))), file)
download_one_segment-refused c transport segment file received b bytes written events range s v e
      other w =
    refused_transfer c transport segment file received b _ bytes written events s v
      (check_range-fails segment (collect received []) range e other) w
