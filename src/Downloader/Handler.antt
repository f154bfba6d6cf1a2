-- ===== src/Downloader/Handler.antt =====
-- crates/ddm-core/src/downloader/multi/handler.rs and result.rs: the handler of one segment in the
-- curl multi backend, and the result that its transfer gives.
pub mod Laws
use debian_download_manager.Prelude.{
  ℕ, ◌+◌, ◌-◌, Bool, true, false, not, ◌&&◌, ◌||◌, List, [], ◌∷◌, Option, none, some, ◌==◌,
  if◌then◌else◌, length,
}
use debian_download_manager.Prelude.Result.{Result, ok, err, ◌>>=◌}
use debian_download_manager.Prelude.Text.{Text, is_empty}
use debian_download_manager.Retry.Classify.{
  Curl, SegmentError, http, invalid_range_response, partial_transfer,
}
use debian_download_manager.Retry.Run.{SegmentResult}
use debian_download_manager.Segmenter.Range.{Segment, len}
use debian_download_manager.FetchHead.Probe.{on_header, is_success}
use debian_download_manager.Downloader.Headers.{Panic, parse_http_status, parse_content_range}
use debian_download_manager.Downloader.File.{File, StorageError, write_at}
use debian_download_manager.Downloader.Segment.{Event, header, body, same_range, is_partial}

-- The handler with the file that it writes; `in_flight` is the segment's slot of the counters.
pub record SegmentHandler : Type 0 where
  pub segment : Segment
  pub response_headers : List Text
  pub range_ok : Option Bool
  pub bytes_written : ℕ
  pub in_flight : ℕ
  pub file : File

unfoldable pub new : Segment → File → SegmentHandler
new segment file = record {
  segment = segment;
  response_headers = [];
  range_ok = none;
  bytes_written = 0;
  in_flight = 0;
  file = file;
}

unfoldable pub on_header_data : Option Text → SegmentHandler → SegmentHandler
on_header_data received h = record h { response_headers = on_header received h.response_headers }

unfoldable pub range_check : SegmentHandler → Result Panic Bool
range_check h = do
  range ← parse_content_range h.response_headers
  ok (is_partial (parse_http_status h.response_headers) && same_range h.segment range)

-- The part of `write` behind the check: the handler, and whether it took all bytes.
unfoldable pub write_checked : List ℕ → Option ℕ → Bool → SegmentHandler → SegmentHandler × Bool
write_checked bytes written false h = (h, is_empty bytes)
write_checked bytes written true h =
    let (result, file) = write_at (h.segment.start + h.bytes_written) bytes written h.file in
    let moved = h.bytes_written + length bytes in
    elim result [
      | ok done ↦ (record h { bytes_written = moved; in_flight = moved; file = file }, true)
      | err e ↦ (record h { file = file }, is_empty bytes)
    ]

unfoldable pub write : List ℕ → Option ℕ → SegmentHandler → Result Panic (SegmentHandler × Bool)
write bytes written h = elim h.range_ok [
  | some range_ok ↦ ok (write_checked bytes written range_ok h)
  | none ↦ elim (range_check h) [
    | err panic ↦ err panic
    | ok range_ok ↦
        ok (write_checked bytes written range_ok (record h { range_ok = some range_ok }))
  ]
]

unfoldable pub segment_result_from_easy :
    (c : Curl) → ℕ → Segment → SegmentHandler → SegmentResult c StorageError
segment_result_from_easy c code segment h =
    if not (is_success code)
    then err (http code)
    else if not (code == 206)
    then err (invalid_range_response code)
    else if not (h.bytes_written == len segment)
    then err (partial_transfer (len segment) h.bytes_written)
    else ok tt

-- The calls of a transfer, until one refuses.
unfoldable pub run_handler : List Event → SegmentHandler → Result Panic (SegmentHandler × Bool)
run_handler [] h = ok (h, true)
run_handler (header received ∷ events) h = run_handler events (on_header_data received h)
run_handler (body bytes written ∷ events) h = elim (write bytes written h) [
  | err panic ↦ err panic
  | ok (next, false) ↦ ok (next, false)
  | ok (next, true) ↦ run_handler events next
]
