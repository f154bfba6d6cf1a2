-- ===== src/Downloader/Headers.antt =====
-- crates/ddm-core/src/downloader/segment.rs: `parse_http_status` and `parse_content_range`.
use debian_download_manager.Prelude.{
  ℕ, ◌-◌, ◌^◌, not, List, [], ◌∷◌, Option, none, some, leb, if◌then◌else◌,
}
use debian_download_manager.Prelude.Result.{Result, ok, err}
use debian_download_manager.Prelude.Text.{
  Text, codes, is_empty, trim, drop_while, take_while, is_whitespace, byte_len, split_at_byte,
  strip_prefix, split_once, eq_ignore_ascii_case,
}
use debian_download_manager.Prelude.Decimal.{parse_ℕ}
use debian_download_manager.FetchHead.Parse.{u64_max}

-- The thread panics: a slice ends inside a character.
pub data Panic : Type 0 where
  not_a_char_boundary : Panic

abbrev pub u32_max : ℕ
u32_max = 2 ^ 32 - 1

-- `split_whitespace().nth(1)`.
unfoldable pub second_word : Text → Option Text
second_word s =
    let is_other = λ (c : ℕ). not (is_whitespace c) in
    let first_on = drop_while is_whitespace s in
    let word = take_while is_other (drop_while is_whitespace (drop_while is_other first_on)) in
    if is_empty word then none else some word

unfoldable pub parse_http_status : List Text → Option ℕ
parse_http_status [] = none
parse_http_status (first ∷ rest) = elim (second_word (trim first)) [
  | none ↦ none
  | some part ↦ parse_ℕ u32_max part
]

-- "start-end", each a u64.
unfoldable pub parse_bounds : Text × Text → Option (ℕ × ℕ)
parse_bounds (start_str, end_str) = elim (parse_ℕ u64_max (trim start_str)) [
  | none ↦ none
  | some start ↦ elim (parse_ℕ u64_max (trim end_str)) [
    | none ↦ none
    | some end_inclusive ↦ some (start, end_inclusive)
  ]
]

-- What follows the header's name: "bytes start-end/total".
unfoldable pub parse_range_value : Text → Option (ℕ × ℕ)
parse_range_value value = elim (strip_prefix (codes "bytes") (trim value)) [
  | none ↦ none
  | some rest ↦ elim (split_once b'/' (trim rest)) [
    | none ↦ none
    | some (range, total) ↦ elim (split_once b'-' (trim range)) [
      | none ↦ none
      | some parts ↦ parse_bounds parts
    ]
  ]
]

abbrev pub range_prefix : Text
range_prefix = codes "Content-Range:"

-- The first `Content-Range` header decides, also where its value cannot be read.
unfoldable pub parse_content_range : List Text → Result Panic (Option (ℕ × ℕ))
parse_content_range [] = ok none
parse_content_range (header ∷ lines) =
    let line = trim header in
    let rest = parse_content_range lines in
    if leb 14 (byte_len line)
    then elim (split_at_byte 14 line) [
      | none ↦ err not_a_char_boundary
      | some (name, value) ↦
          if eq_ignore_ascii_case name range_prefix then ok (parse_range_value value) else rest
    ]
    else rest
