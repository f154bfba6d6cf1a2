-- ===== src/FetchHead/Parse.antt =====
-- crates/ddm-core/src/fetch_head/parse.rs: `parse_headers`.
use debian_download_manager.Prelude.{
  ℕ, ◌-◌, ◌^◌, Bool, false, List, [], ◌∷◌, Option, none, some, ◌==◌, if◌then◌else◌,
}
use debian_download_manager.Prelude.Text.{
  Text, codes, is_empty, split_once, trim, trim_matches, eq_ignore_ascii_case,
}
use debian_download_manager.Prelude.Decimal.{parse_ℕ}

pub record HeadResult : Type 0 where
  pub content_length : Option ℕ
  pub accept_ranges : Bool
  pub etag : Option Text
  pub last_modified : Option Text
  pub content_disposition : Option Text

abbrev pub no_headers : HeadResult
no_headers = record {
  content_length = none;
  accept_ranges = false;
  etag = none;
  last_modified = none;
  content_disposition = none;
}

abbrev pub u64_max : ℕ
u64_max = 2 ^ 64 - 1

or_else : Option ℕ → Option ℕ → Option ℕ
or_else none old = old
or_else (some n) old = some n

-- The five tests on one header, in the order of the source; each name equals one of them at most.
unfoldable pub set_content_length : Text → Text → HeadResult → HeadResult
unfolding or_else
set_content_length name value r =
    if eq_ignore_ascii_case name (codes "content-length")
    then record r { content_length = or_else (parse_ℕ u64_max value) r.content_length }
    else r

unfoldable pub set_accept_ranges : Text → Text → HeadResult → HeadResult
set_accept_ranges name value r =
    if eq_ignore_ascii_case name (codes "accept-ranges")
    then record r { accept_ranges = eq_ignore_ascii_case value (codes "bytes") }
    else r

unfoldable pub set_etag : Text → Text → HeadResult → HeadResult
set_etag name value r =
    if eq_ignore_ascii_case name (codes "etag")
    then record r { etag = some (trim_matches (λ c. c == b'"') value) }
    else r

unfoldable pub set_last_modified : Text → Text → HeadResult → HeadResult
set_last_modified name value r =
    if eq_ignore_ascii_case name (codes "last-modified")
    then record r { last_modified = some value }
    else r

unfoldable pub set_content_disposition : Text → Text → HeadResult → HeadResult
set_content_disposition name value r =
    if eq_ignore_ascii_case name (codes "content-disposition")
    then record r { content_disposition = some value }
    else r

unfoldable pub set_header : Text → Text → HeadResult → HeadResult
set_header name value r = set_content_disposition name value (
    set_last_modified name value
      (set_etag name value (set_accept_ranges name value (set_content_length name value r))))

unfoldable pub parse_line : Text → HeadResult → HeadResult
parse_line line r = if is_empty line then r else elim (split_once b':' line) [
  | none ↦ r
  | some (name, value) ↦ set_header (trim name) (trim value) r
]

unfoldable pub parse_lines : List Text → HeadResult → HeadResult
parse_lines [] r = r
parse_lines (line ∷ lines) r = parse_lines lines (parse_line (trim line) r)

unfoldable pub parse_headers : List Text → HeadResult
parse_headers lines = parse_lines lines no_headers
