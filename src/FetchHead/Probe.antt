-- ===== src/FetchHead/Probe.antt =====
-- crates/ddm-core/src/fetch_head/mod.rs: the probes. A transfer of libcurl is a parameter: it gives
-- the header data that the callback receives, in order, where `none` is data that is not UTF-8, and
-- the response code; or it fails.
pub mod Laws
pub mod Length
use debian_download_manager.Prelude.{
  ℕ, Bool, true, false, not, ◌&&◌, ◌||◌, List, [], ◌∷◌, ◌++◌, map, Option, none, some, ◌==◌, ltb,
  leb, if◌then◌else◌,
}
use debian_download_manager.Prelude.Result.{Result, ok, err, ◌>>=◌}
use debian_download_manager.Prelude.Text.{
  Text, codes, text_eq, split_once, trim, trim_end, starts_with, eq_ignore_ascii_case,
}
use debian_download_manager.Prelude.Decimal.{parse_ℕ}
use debian_download_manager.FetchHead.Parse.{HeadResult, parse_headers, u64_max}

pub data ProbeError : Type 0 where
  transfer_failed : ProbeError
  http_status : ℕ → ProbeError

abbrev pub Response : Type 0
Response = List (Option Text) × ℕ

-- The two requests, with the custom header lines.
pub record Transport : Type 0 where
  pub head : Text → List Text → Result ProbeError Response
  pub get_range0 : Text → List Text → Result ProbeError Response

unfoldable pub parse_content_range_total : Text → Option ℕ
parse_content_range_total value = elim (split_once b'/' value) [
  | none ↦ none
  | some (unit, total) ↦
      if text_eq (trim total) (codes "*") then none else parse_ℕ u64_max (trim total)
]

-- `append(&format!("{}: {}", k.trim(), v.trim()))` for each custom header.
unfoldable pub header_lines : List (Text × Text) → List Text
header_lines [] = []
header_lines ((k, v) ∷ headers) = (trim k ++ codes ": " ++ trim v) ∷ header_lines headers

-- The header callback; a status line starts the headers anew.
unfoldable pub on_header : Option Text → List Text → List Text
on_header none headers = headers
on_header (some received_data) headers =
    let line = trim_end received_data in
    if starts_with (codes "HTTP/") line then line ∷ [] else headers ++ line ∷ []

unfoldable pub collect : List (Option Text) → List Text → List Text
collect [] headers = headers
collect (next ∷ rest) headers = collect rest (on_header next headers)

unfoldable pub is_success : ℕ → Bool
is_success code = not (ltb code 200 || leb 300 code)

-- The headers of a transfer that succeeded, and its code.
unfoldable pub received : Response → Result ProbeError (List Text × ℕ)
received (datas, code) =
    if is_success code then ok (collect datas [], code) else err (http_status code)

-- The loop on `Content-Range`, and its body.
unfoldable pub range_line : Text → HeadResult → HeadResult
range_line line r = elim (split_once b':' line) [
  | none ↦ r
  | some (name, value) ↦
      if eq_ignore_ascii_case (trim name) (codes "content-range")
      then elim (parse_content_range_total (trim value)) [
        | none ↦ r
        | some total ↦ record r { content_length = some total }
      ]
      else r
]

unfoldable pub range_total : List Text → HeadResult → HeadResult
range_total [] r = r
range_total (line ∷ lines) r = range_total lines (range_line line r)

unfoldable pub of_range0 : List Text × ℕ → HeadResult
of_range0 (headers, code) =
    let r = parse_headers headers in
    if code == 206 then range_total headers (record r { accept_ranges = true }) else r

abbrev pub or_value : {A : Type 0} → Option A → Option A → Option A
or_value none b = b
or_value (some a) b = some a

unfoldable pub merge : HeadResult → HeadResult → HeadResult
merge r r2 = record {
  content_length = or_value r.content_length r2.content_length;
  accept_ranges = r.accept_ranges || r2.accept_ranges;
  etag = or_value r.etag r2.etag;
  last_modified = or_value r.last_modified r2.last_modified;
  content_disposition = or_value r.content_disposition r2.content_disposition;
}

abbrev pub has_length : HeadResult → Bool
has_length r = elim r.content_length [ none ↦ false | some n ↦ true ]

module _ (t : Transport) where
  unfoldable pub probe : Text → List (Text × Text) → Result ProbeError HeadResult
  probe url custom_headers = do
    response ← t.head url (header_lines custom_headers)
    (headers, code) ← received response
    ok (parse_headers headers)

  unfoldable pub probe_range0 : Text → List (Text × Text) → Result ProbeError HeadResult
  probe_range0 url custom_headers = do
    response ← t.get_range0 url (header_lines custom_headers)
    got ← received response
    ok (of_range0 got)

  unfoldable pub probe_best_effort : Text → List (Text × Text) → Result ProbeError HeadResult
  probe_best_effort url custom_headers = elim (probe url custom_headers) [
    | err e ↦ probe_range0 url custom_headers
    | ok r ↦
        if r.accept_ranges && has_length r
        then ok r
        else elim (probe_range0 url custom_headers) [ err e ↦ ok r | ok r2 ↦ ok (merge r r2) ]
  ]
