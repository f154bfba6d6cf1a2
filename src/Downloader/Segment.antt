-- ===== src/Downloader/Segment.antt =====
-- crates/ddm-core/src/downloader/segment.rs: `download_one_segment`, with the callbacks that libcurl
-- calls. An exchange is what libcurl makes of the request: whether the options were taken, the calls
-- of the two callbacks in order, how the transfer ended, and the response code. A callback that
-- takes fewer bytes than it is given ends the transfer with an error.
pub mod Written
pub mod Delivery
pub mod Refusal
pub mod Keeps
use debian_download_manager.Prelude.{
  ℕ, ◌+◌, ◌-◌, Bool, true, false, not, ◌&&◌, ◌||◌, List, [], ◌∷◌, ◌++◌, Option, none, some, ltb,
  leb, ◌==◌, if◌then◌else◌, length,
}
use debian_download_manager.Prelude.Result.{Result, ok, err, ◌>>=◌}
use debian_download_manager.Prelude.Text.{Text, is_empty}
use debian_download_manager.Prelude.Decimal.{show_ℕ}
use debian_download_manager.Retry.Classify.{
  Curl, SegmentError, curl, http, invalid_range_response, partial_transfer, storage,
}
use debian_download_manager.Retry.Run.{SegmentResult}
use debian_download_manager.Segmenter.Range.{Segment, len}
use debian_download_manager.FetchHead.Probe.{on_header, is_success}
use debian_download_manager.Downloader.Headers.{Panic, parse_http_status, parse_content_range}
use debian_download_manager.Downloader.File.{File, StorageError, write_at}

-- A call of a callback: header data (`none` if it is not UTF-8), or body data with what the write
-- to the file will return.
pub data Event : Type 0 where
  header : Option Text → Event
  body : List ℕ → Option ℕ → Event

pub record Exchange (c : Curl) : Type 0 where
  pub set_up : Option c.Error
  pub events : List Event
  pub refused : c.Error
  pub performed : Option c.Error
  pub response_code : Result c.Error ℕ

-- The cells that the callbacks share, and the file. The check of the range is none before the first
-- body data, then `ok`, or the status that was refused.
pub record Cells : Type 0 where
  pub response_headers : List Text
  pub range_check : Option (Result ℕ Unit)
  pub bytes_written : ℕ
  pub in_flight : ℕ
  pub storage_error : Option StorageError
  pub file : File

abbrev pub start_cells : File → Cells
start_cells file = record {
  response_headers = [];
  range_check = none;
  bytes_written = 0;
  in_flight = 0;
  storage_error = none;
  file = file;
}

abbrev pub end_inclusive : Segment → ℕ
end_inclusive segment = segment.end - 1

unfoldable pub same_range : Segment → Option (ℕ × ℕ) → Bool
same_range segment none = false
same_range segment (some (s, e)) = (s == segment.start) && (e == end_inclusive segment)

abbrev pub or_zero : Option ℕ → ℕ
or_zero none = 0
or_zero (some n) = n

unfoldable pub is_partial : Option ℕ → Bool
is_partial none = false
is_partial (some status) = status == 206

unfoldable pub check_range : Segment → List Text → Result Panic (Result ℕ Unit)
check_range segment headers = do
  range ← parse_content_range headers
  let status = parse_http_status headers
  ok (if is_partial status && same_range segment range then ok tt else err (or_zero status))

-- The part of the body callback behind the check.
unfoldable pub store : Segment → List ℕ → Option ℕ → Cells → Cells × Bool
store segment bytes written cells =
    let written_so_far = cells.bytes_written + length bytes in
    let (result, file) = write_at (segment.start + cells.bytes_written) bytes written cells.file in
    let moved = record cells {
      bytes_written = written_so_far;
      in_flight = written_so_far;
      file = file;
    } in
    elim result [
      | ok done ↦ (moved, true)
      | err e ↦ (record moved { storage_error = some e }, is_empty bytes)
    ]

unfoldable pub on_checked : Segment → List ℕ → Option ℕ → Result ℕ Unit → Cells → Cells × Bool
on_checked segment bytes written (err status) cells = (cells, is_empty bytes)
on_checked segment bytes written (ok done) cells = store segment bytes written cells

-- The body callback: the cells, and whether it took all bytes.
unfoldable pub on_body : Segment → List ℕ → Option ℕ → Cells → Result Panic (Cells × Bool)
on_body segment bytes written cells = elim cells.range_check [
  | some check ↦ ok (on_checked segment bytes written check cells)
  | none ↦ elim (check_range segment cells.response_headers) [
    | err panic ↦ err panic
    | ok check ↦
        ok (on_checked segment bytes written check (record cells { range_check = some check }))
  ]
]

-- The callbacks until one refuses.
unfoldable pub run_events : Segment → List Event → Cells → Result Panic (Cells × Bool)
run_events segment [] cells = ok (cells, true)
run_events segment (header received ∷ events) cells =
    run_events segment events
      (record cells { response_headers = on_header received cells.response_headers })
run_events segment (body bytes written ∷ events) cells =
    elim (on_body segment bytes written cells) [
      | err panic ↦ err panic
      | ok (next, false) ↦ ok (next, false)
      | ok (next, true) ↦ run_events segment events next
    ]

module _ (c : Curl) where
  -- After a transfer that failed.
  unfoldable pub failed : c.Error → Cells → SegmentError c StorageError
  failed e cells =
      if c.is_write_error e
      then elim cells.range_check [
        | some (err code) ↦ invalid_range_response code
        | some (ok done) ↦ elim cells.storage_error [ some io_err ↦ storage io_err | none ↦ curl e ]
        | none ↦ elim cells.storage_error [ some io_err ↦ storage io_err | none ↦ curl e ]
      ]
      else curl e

  abbrev other_range : Segment → Option (ℕ × ℕ) → Bool
  other_range segment none = false
  other_range segment (some range) = not (same_range segment (some range))

  -- After a transfer that succeeded, with its code.
  unfoldable pub judge : Segment → Cells → ℕ → Result Panic (SegmentResult c StorageError)
  judge segment cells code =
      if not (is_success code)
      then ok (err (http code))
      else if not (code == 206)
      then ok (err (invalid_range_response code))
      else do
        range ← parse_content_range cells.response_headers
        ok (
            if other_range segment range
            then err (invalid_range_response code)
            else if not (cells.bytes_written == len segment)
            then err (partial_transfer (len segment) cells.bytes_written)
            else ok tt)

  unfoldable pub finish :
      Segment → Exchange c → Cells → Bool → Result Panic (SegmentResult c StorageError)
  finish segment x cells false = ok (err (failed x.refused cells))
  finish segment x cells true = elim x.performed [
    | some e ↦ ok (err (failed e cells))
    | none ↦ elim x.response_code [ err e ↦ ok (err (curl e)) | ok code ↦ judge segment cells code ]
  ]

  unfoldable pub range_str : Segment → Text
  range_str segment = show_ℕ segment.start ++ b'-' ∷ show_ℕ (end_inclusive segment)

  -- The result, and the file that is left. The transport answers the text of the Range option.
  unfoldable pub download_one_segment :
      (Text → Exchange c) → Segment → File → Result Panic (SegmentResult c StorageError × File)
  download_one_segment transport segment file =
      let x = transport (range_str segment) in
      elim x.set_up [
        | some e ↦ ok (err (curl e), file)
        | none ↦ elim (run_events segment x.events (start_cells file)) [
          | err panic ↦ err panic
          | ok (cells, took_all) ↦ elim (finish segment x cells took_all) [
            | err panic ↦ err panic
            | ok result ↦ ok (result, cells.file)
          ]
        ]
      ]
