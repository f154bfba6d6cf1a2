-- ===== src/Downloader/Handler/Laws.antt =====
-- The two backends make the same of a transfer.
use native.Mathlib.Nat.{add-zero}
use debian_download_manager.Prelude.{
  ℕ, ◌≡◌, refl, sym, subst, ◌⊎◌, inl, inr, Bool, true, false, ◌&&◌, List, [], ◌∷◌, Option, none,
  some, ◌==◌, length, Bool-cases,
}
use debian_download_manager.Prelude.Result.{Result, ok, err, Result-cases}
use debian_download_manager.Segmenter.Range.{Segment}
use debian_download_manager.FetchHead.Probe.{on_header}
use debian_download_manager.Downloader.Headers.{Panic, parse_http_status, parse_content_range}
use debian_download_manager.Downloader.File.{File, write_at}
use debian_download_manager.Downloader.Segment.{
  Event, header, body, Cells, start_cells, same_range, is_partial, or_zero, check_range, store,
  on_checked, on_body, run_events,
}
use debian_download_manager.Downloader.Handler.{
  SegmentHandler, new, on_header_data, range_check, write_checked, write, run_handler,
}

abbrev passed : Result ℕ Unit → Bool
passed (ok done) = true
passed (err status) = false

abbrev passed_so_far : Option (Result ℕ Unit) → Option Bool
passed_so_far none = none
passed_so_far (some check) = some (passed check)

-- The handler that stands where the shared cells stand.
abbrev to_handler : Segment → Cells → SegmentHandler
to_handler segment cells = record {
  segment = segment;
  response_headers = cells.response_headers;
  range_ok = passed_so_far cells.range_check;
  bytes_written = cells.bytes_written;
  in_flight = cells.bytes_written;
  file = cells.file;
}

-- Both panic, or both took all data and stand at the same place, or both refused, with the same
-- file.
abbrev pub Same :
    Segment → Result Panic (Cells × Bool) → Result Panic (SegmentHandler × Bool) → Type 0
Same segment (err p) (err q) = Unit
Same segment (err p) (ok x) = ⊥
Same segment (ok x) (err q) = ⊥
Same segment (ok (cells, true)) (ok (h, true)) = h ≡ to_handler segment cells
Same segment (ok (cells, true)) (ok (h, false)) = ⊥
Same segment (ok (cells, false)) (ok (h, true)) = ⊥
Same segment (ok (cells, false)) (ok (h, false)) = h.file ≡ cells.file

checked-Same :
    (segment : Segment) (bytes : List ℕ) (written : Option ℕ) (check : Result ℕ Unit)
    (cells : Cells)
    → Same segment
        (ok (on_checked segment bytes written check cells))
        (ok (write_checked bytes written (passed check) (to_handler segment cells)))
unfolding on_checked write_checked store write_at
checked-Same segment [] written (err status) cells = refl
checked-Same segment (b ∷ bytes) written (err status) cells = refl
checked-Same segment [] none (ok done) cells = rw (add-zero cells.bytes_written) refl
checked-Same segment (b ∷ bytes) none (ok done) cells = refl
checked-Same segment [] (some n) (ok done) cells = elim (Bool-cases (n == 0)) [
  | inl whole ↦ rw (whole, store, write_checked) refl
  | inr short ↦ rw (short, store, write_checked) (rw (add-zero cells.bytes_written) refl)
]
checked-Same segment (b ∷ bytes) (some n) (ok done) cells =
    elim (Bool-cases (n == length (b ∷ bytes))) [
      | inl whole ↦ rw (whole, store, write_checked) refl
      | inr short ↦ rw (short, store, write_checked) refl
    ]

-- The checks agree.
checks-agree :
    (segment : Segment) (cells : Cells)
    → ((p : Panic) × (check_range segment cells.response_headers ≡ err p)
        × (range_check (to_handler segment cells) ≡ err p))
      ⊎ ((check : Result ℕ Unit) × (check_range segment cells.response_headers ≡ ok check)
          × (range_check (to_handler segment cells) ≡ ok (passed check)))
unfolding check_range range_check
checks-agree segment cells = elim (Result-cases (parse_content_range cells.response_headers)) [
  | inr (p, e) ↦ inl (p, rw e refl, rw e refl)
  | inl (range, e) ↦
      let status = parse_http_status cells.response_headers in
      elim (Bool-cases (is_partial status && same_range segment range)) [
        | inl good ↦ inr (ok tt, rw (e, good) refl, rw (e, good) refl)
        | inr bad ↦ inr (err (or_zero status), rw (e, bad) refl, rw (e, bad) refl)
      ]
]

write-Same :
    (segment : Segment) (bytes : List ℕ) (written : Option ℕ) (check : Option (Result ℕ Unit))
    (cells : Cells)
    → Same segment
        (on_body segment bytes written (record cells { range_check = check }))
        (write bytes written (to_handler segment (record cells { range_check = check })))
unfolding on_body write
write-Same segment bytes written (some check) cells =
    checked-Same segment bytes written check (record cells { range_check = some check })
write-Same segment bytes written none cells =
    elim (checks-agree segment (record cells { range_check = none })) [
      | inl (p, e, f) ↦ rw (e, f, on_body, write) tt
      | inr (check, e, f) ↦
          rw (e, f, on_body, write)
            (checked-Same segment bytes written check (record cells { range_check = some check }))
    ]

-- What follows a call keeps them together.
resume-Same :
    (segment : Segment) (events : List Event)
    → ((cells : Cells)
        → Same segment
            (run_events segment events cells)
            (run_handler events (to_handler segment cells)))
    → (a : Result Panic (Cells × Bool)) (b : Result Panic (SegmentHandler × Bool))
    → Same segment a b
    → Same segment
        (elim a [
          | err panic ↦ err panic
          | ok (next, false) ↦ ok (next, false)
          | ok (next, true) ↦ run_events segment events next
        ])
        (elim b [
          | err panic ↦ err panic
          | ok (next, false) ↦ ok (next, false)
          | ok (next, true) ↦ run_handler events next
        ])
resume-Same segment events go (err p) (err q) same = tt
resume-Same segment events go (err p) (ok x) same = absurd same
resume-Same segment events go (ok x) (err q) same = absurd same
resume-Same segment events go (ok (cells, false)) (ok (h, false)) same = same
resume-Same segment events go (ok (cells, false)) (ok (h, true)) same = absurd same
resume-Same segment events go (ok (cells, true)) (ok (h, false)) same = absurd same
resume-Same segment events go (ok (cells, true)) (ok (h, true)) same =
    subst
      (λ (k : SegmentHandler).
        Same segment (run_events segment events cells) (run_handler events k))
      (sym same) (go cells)

run-Same :
    (segment : Segment) (events : List Event) (cells : Cells)
    → Same segment (run_events segment events cells) (run_handler events (to_handler segment cells))
unfolding run_events run_handler on_header_data
run-Same segment [] cells = refl
run-Same segment (header received ∷ events) cells =
    run-Same segment events
      (record cells { response_headers = on_header received cells.response_headers })
run-Same segment (body bytes written ∷ events) cells =
    resume-Same segment events (λ next. run-Same segment events next)
      (on_body segment bytes written cells) (write bytes written (to_handler segment cells))
      (write-Same segment bytes written cells.range_check cells)

-- The handler of the multi backend and the callbacks of the other one do the same with the calls of
-- any transfer: both panic, or both take all data and write the same file with the same count of
-- bytes, or both refuse and leave the same file.
pub run_handler-run_events :
    (segment : Segment) (events : List Event) (file : File)
    → Same segment
        (run_events segment events (start_cells file))
        (run_handler events (new segment file))
unfolding new
run_handler-run_events segment events file = run-Same segment events (start_cells file)
