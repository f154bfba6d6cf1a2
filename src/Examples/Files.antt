-- ===== src/Examples/Files.antt =====
-- Two workers that fill a file of three bytes; the first attempt of one of them breaks off.
use debian_download_manager.Prelude.{◌≡◌, refl, sym, ◌∙◌, true, false, [], ◌∷◌, none, arith}
use debian_download_manager.Prelude.Result.{ok}
use debian_download_manager.Prelude.Bits.{test_bit}
use debian_download_manager.Prelude.Text.{
  Text, codes, trim, trim_end, trim_matches, starts_with, strip_prefix, drop_while, take_while,
  is_whitespace, split_once, split_at_byte, byte_len, utf8_len, text_eq, eq_ignore_ascii_case,
  to_ascii_lowercase,
}
use debian_download_manager.Prelude.Decimal.{parse_ℕ}
use debian_download_manager.Segmenter.Range.{len, plan_segments, plan_loop}
use debian_download_manager.Segmenter.Bitmap.{new, is_completed}
use debian_download_manager.Segmenter.Bitmap.Laws.{is_completed-new}
use debian_download_manager.FetchHead.Probe.{on_header, is_success}
use debian_download_manager.Downloader.Headers.{
  second_word, parse_http_status, parse_bounds, parse_range_value, parse_content_range,
}
use debian_download_manager.Downloader.File.{File, write_at}
use debian_download_manager.Downloader.Segment.{
  Exchange, same_range, is_partial, check_range, store, on_checked, on_body, run_events, judge,
  finish, download_one_segment,
}
use debian_download_manager.Downloader.Tally.{incomplete_from, on_completed, flush, send}
use debian_download_manager.Downloader.Pool.{
  returned, System, started, on_report, load_abort, load_user_abort, pop_task, pop_nothing, sends,
  receives, checks, has_received_all, joins,
}
use debian_download_manager.Downloader.Pool.Content.{
  FileReach, moves, attempts, transfers, begin, and_then, run_concurrent-content,
}
use debian_download_manager.Examples.Transfers.{write_errors, zeros}
use debian_download_manager.Examples.Whole.{content, answer, send_back, send_front}

-- The first byte of the front, and then nothing.
abbrev send_half : Text → Exchange write_errors
send_half range = answer (codes "Content-Range: bytes 0-1/3") (10 ∷ []) 1

abbrev begun : System write_errors
begun = started (incomplete_from (new 2) 0 (plan_segments 3 2)) 2 false (new 2)

file_run :
    (t : System write_errors) × (after : File) × FileReach write_errors content true 2 begun zeros t
      after
    × (t.main ≡ returned)
    × (t.tally.first_error ≡ none)
unfolding incomplete_from is_completed new on_report on_completed flush send test_bit plan_segments
    plan_loop download_one_segment run_events on_body on_checked store check_range same_range
    is_partial judge finish on_header is_success len parse_http_status second_word parse_bounds
    parse_range_value parse_content_range write_at parse_ℕ trim trim_end trim_matches starts_with
    strip_prefix drop_while take_while is_whitespace split_once split_at_byte byte_len utf8_len
    text_eq eq_ignore_ascii_case to_ascii_lowercase
file_run = (
  _,
  _,
  (and_then
      (and_then
        (and_then
          (and_then
            (and_then
              (and_then
                (and_then
                  (and_then
                    (and_then
                      (and_then
                        (and_then
                          (and_then
                            (and_then
                              (and_then
                                (and_then
                                  (and_then
                                    (and_then
                                      (and_then
                                        (and_then
                                          (and_then
                                            (and_then
                                              (and_then (and_then begin (moves (load_abort 0 refl)))
                                                (moves (load_user_abort 0 refl)))
                                              (moves (pop_task 0 refl refl)))
                                            (moves (load_abort 1 refl)))
                                          (moves (load_user_abort 1 refl)))
                                        (moves (pop_task 1 refl refl)))
                                      (attempts 0 send_half _ _ refl (refl, tt) refl))
                                    (transfers 1 send_back (ok tt) _ refl (refl, tt) refl))
                                  (moves (sends 1 refl)))
                                (moves (receives refl refl)))
                              (moves (checks refl)))
                            (transfers 0 send_front (ok tt) _ refl (refl, (refl, tt)) refl))
                          (moves (sends 0 refl)))
                        (moves (receives refl refl)))
                      (moves (checks refl)))
                    (moves (has_received_all refl)))
                  (moves (load_abort 0 refl)))
                (moves (load_user_abort 0 refl)))
              (moves (pop_nothing 0 refl refl)))
            (moves (load_abort 1 refl)))
          (moves (load_user_abort 1 refl)))
        (moves (pop_nothing 1 refl refl)))
      (moves (joins refl (tt, (tt, tt))))),
  refl,
  refl,
)

run_concurrent-content_example : file_run.1 1 ≡ content 1
unfolding new
run_concurrent-content_example =
    run_concurrent-content write_errors content true 2 3 2 (new 2) 2 false 1 (omega arith)
      (omega arith) (λ i s at marked y inside. absurd (cc (sym marked ∙ is_completed-new 2 i)))
      file_run.2 file_run.3 file_run.4 (omega arith)
