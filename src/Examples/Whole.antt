-- ===== src/Examples/Whole.antt =====
-- A file of three bytes, downloaded in two segments, the second one first.
use debian_download_manager.Prelude.{
  ℕ, zero, suc, ◌≡◌, refl, sym, ◌∙◌, List, [], ◌∷◌, some, none, arith,
}
use debian_download_manager.Prelude.Result.{ok}
use debian_download_manager.Prelude.Text.{
  Text, codes, trim, trim_end, trim_matches, starts_with, strip_prefix, drop_while, take_while,
  is_whitespace, split_once, split_at_byte, byte_len, utf8_len, text_eq, eq_ignore_ascii_case,
  to_ascii_lowercase,
}
use debian_download_manager.Prelude.Decimal.{parse_ℕ}
use debian_download_manager.Segmenter.Range.{Segment, len, plan_segments, plan_loop}
use debian_download_manager.Segmenter.Bitmap.{new, grow, set_completed, all_loop, all_completed}
use debian_download_manager.Segmenter.Bitmap.Laws.{is_completed-new}
use debian_download_manager.FetchHead.Probe.{on_header, is_success}
use debian_download_manager.Downloader.Headers.{
  second_word, parse_http_status, parse_bounds, parse_range_value, parse_content_range,
}
use debian_download_manager.Downloader.File.{File, put_bytes, write_at, byte_at}
use debian_download_manager.Downloader.Segment.{
  header, body, Exchange, same_range, is_partial, check_range, store, on_checked, on_body,
  run_events, judge, finish, download_one_segment,
}
use debian_download_manager.Downloader.Whole.{
  Progress, Sends, fetch, Fetches, start, then_fetch, IsFaithful, all_completed-content,
}
use debian_download_manager.Examples.Transfers.{write_errors, zeros}

abbrev pub content : File
content = byte_at (10 ∷ 11 ∷ 12 ∷ [])

abbrev pub front : Segment
front = record { start = 0; end = 2 }

abbrev pub back : Segment
back = record { start = 2; end = 3 }

abbrev pub answer : Text → List ℕ → ℕ → Exchange write_errors
answer range bytes count = record {
  set_up = none;
  events =
      header (some (codes "HTTP/1.1 206 Partial"))
      ∷ header (some range)
      ∷ body bytes (some count)
      ∷ [];
  refused = 23;
  performed = none;
  response_code = ok 206;
}

abbrev pub send_back : Text → Exchange write_errors
send_back range = answer (codes "Content-Range: bytes 2-2/3") (12 ∷ []) 1

abbrev pub send_front : Text → Exchange write_errors
send_front range = answer (codes "Content-Range: bytes 0-1/3") (10 ∷ 11 ∷ []) 2

Sends-back : Sends write_errors content 3 2 send_back back
Sends-back zero h = absurd (omega arith)
Sends-back (suc zero) h = absurd (omega arith)
Sends-back (suc (suc zero)) h = refl
Sends-back (suc (suc (suc n))) h = absurd (omega arith)

Sends-front : Sends write_errors content 3 2 send_front front
Sends-front zero h = refl
Sends-front (suc zero) h = refl
Sends-front (suc (suc n)) h = absurd (omega arith)

abbrev at_start : Progress
at_start = record { bitmap = new 2; file = zeros }

at_start-IsFaithful : IsFaithful write_errors content 3 2 at_start
unfolding new
at_start-IsFaithful = record {
  bytes = (omega arith, tt);
  holds = λ i s x e complete inside. absurd (cc (sym complete ∙ is_completed-new 2 i));
}

abbrev half_way : Progress
half_way = record { bitmap = set_completed (new 2) 1; file = put_bytes 2 (12 ∷ []) zeros }

abbrev at_end : Progress
at_end = record {
  bitmap = set_completed half_way.bitmap 0;
  file = put_bytes 0 (10 ∷ 11 ∷ []) half_way.file;
}

fetches : Fetches write_errors content 3 2 at_start at_end
unfolding plan_segments plan_loop download_one_segment run_events on_body on_checked store
    check_range same_range is_partial judge finish on_header is_success len parse_http_status
    second_word parse_bounds parse_range_value parse_content_range write_at parse_ℕ trim trim_end
    trim_matches starts_with strip_prefix drop_while take_while is_whitespace split_once
    split_at_byte byte_len utf8_len text_eq eq_ignore_ascii_case to_ascii_lowercase
fetches =
    then_fetch (then_fetch start (fetch send_back 1 back half_way.file refl Sends-back refl))
      (fetch send_front 0 front at_end.file refl Sends-front refl)

all_completed-content_example : at_end.file 1 ≡ content 1
unfolding all_completed all_loop set_completed grow new
all_completed-content_example =
    all_completed-content write_errors content 3 2 1 (omega arith) at_start-IsFaithful fetches refl
      (omega arith)
