-- ===== src/Examples/Transfers.antt =====
-- The transfer of bytes 4 to 6 of a file, and one that a server answers with the whole file.
use debian_download_manager.Prelude.{
  inr, ◌-◌, ℕ, ◌+◌, ◌-◌, ◌≡◌, refl, List, [], ◌∷◌, ◌++◌, map, Option, some, none, ◌&&◌, ltb, leb,
  if◌then◌else◌, length, true,
}
use debian_download_manager.Prelude.Result.{ok, err}
use debian_download_manager.Prelude.Text.{
  Text, codes, trim, trim_end, trim_matches, starts_with, strip_prefix, drop_while, take_while,
  is_whitespace, split_once, split_at_byte, byte_len, utf8_len, text_eq, eq_ignore_ascii_case,
  to_ascii_lowercase,
}
use debian_download_manager.Prelude.Decimal.{parse_ℕ}
use debian_download_manager.Examples.Retries.{codes_of_curl}
use debian_download_manager.Retry.Classify.{Curl, invalid_range_response}
use debian_download_manager.Segmenter.Range.{Segment, len}
use debian_download_manager.FetchHead.Probe.{on_header, collect, is_success}
use debian_download_manager.Downloader.Headers.{
  second_word, parse_http_status, parse_bounds, parse_range_value, parse_content_range,
}
use debian_download_manager.Downloader.File.{File, put_bytes, write_at, byte_at}
use debian_download_manager.Downloader.Segment.{
  header, body, Exchange, start_cells, same_range, is_partial, check_range, store, on_checked,
  on_body, run_events, judge, finish, range_str, download_one_segment,
}
use debian_download_manager.Downloader.Handler.{new, run_handler}
use debian_download_manager.Downloader.Handler.Laws.{Same, run_handler-run_events}
use debian_download_manager.Downloader.Segment.Delivery.{download_one_segment-ok}
use debian_download_manager.Downloader.Segment.Written.{bodies}
use debian_download_manager.Downloader.Segment.Refusal.{download_one_segment-refused}

-- Every error of this curl is a write error.
abbrev pub write_errors : Curl
write_errors = record codes_of_curl { is_write_error = λ e. true }

abbrev middle : Segment
middle = record { start = 4; end = 7 }

abbrev pub zeros : File
zeros = λ x. 0

abbrev partial : Text → Exchange write_errors
partial range = record {
  set_up = none;
  events =
      header (some (codes "HTTP/1.1 206 Partial"))
      ∷ header (some (codes "Content-Range: bytes 4-6/10"))
      ∷ body (1 ∷ 2 ∷ []) (some 2)
      ∷ body (3 ∷ []) (some 1)
      ∷ [];
  refused = 23;
  performed = none;
  response_code = ok 206;
}

abbrev after_partial : File
after_partial = put_bytes 6 (3 ∷ []) (put_bytes 4 (1 ∷ 2 ∷ []) zeros)

download_one_segment-ok_example :
    (length (bodies (partial (range_str write_errors middle)).events) ≡ len middle)
    × ((x : ℕ)
        → after_partial x ≡ (
            if leb 4 x && ltb x (4 + len middle)
            then byte_at (bodies (partial (range_str write_errors middle)).events) (x - 4)
            else zeros x))
unfolding download_one_segment run_events on_body on_checked store check_range same_range is_partial
    judge finish on_header collect is_success len parse_http_status second_word parse_bounds
    parse_range_value parse_content_range write_at parse_ℕ trim trim_end trim_matches starts_with
    strip_prefix drop_while take_while is_whitespace split_once split_at_byte byte_len utf8_len
    text_eq eq_ignore_ascii_case to_ascii_lowercase
download_one_segment-ok_example =
    download_one_segment-ok write_errors partial middle zeros after_partial refl

abbrev whole_headers : List (Option Text)
whole_headers = some (codes "HTTP/1.1 200 OK") ∷ some (codes "Content-Length: 10") ∷ []

abbrev whole_file : Text → Exchange write_errors
whole_file range = record {
  set_up = none;
  events = map header whole_headers ++ body (9 ∷ 9 ∷ []) (some 2) ∷ [];
  refused = 23;
  performed = none;
  response_code = ok 200;
}

download_one_segment-refused_example :
    download_one_segment write_errors whole_file middle zeros
    ≡ ok (err (invalid_range_response 200), zeros)
unfolding check_range same_range is_partial on_header collect parse_http_status second_word
    parse_bounds parse_range_value parse_content_range parse_ℕ trim trim_end trim_matches
    starts_with strip_prefix drop_while take_while is_whitespace split_once split_at_byte byte_len
    utf8_len text_eq eq_ignore_ascii_case to_ascii_lowercase
download_one_segment-refused_example =
    download_one_segment-refused write_errors whole_file middle zeros whole_headers 9 (9 ∷ [])
      (some 2) [] none refl refl refl (inr λ e. absurd (cc e)) refl

run_handler-run_events_example :
    Same middle
      (run_events middle (partial []).events (start_cells zeros))
      (run_handler (partial []).events (new middle zeros))
run_handler-run_events_example = run_handler-run_events middle (partial []).events zeros
