-- ===== src/UrlModel/Disposition.antt =====
-- crates/ddm-core/src/url_model/content_disposition.rs: the file name in a Content-Disposition header.
pub mod Laws
use debian_download_manager.Prelude.{
  ℕ, ◌+◌, ◌-◌, ◌*◌, ◌%◌, bit_or, Bool, true, false, ◌&&◌, ◌||◌, List, [], ◌∷◌, ◌++◌, Option, none,
  some, leb, ◌==◌, if◌then◌else◌, map,
}
use mathlib.Core.Option
use debian_download_manager.Prelude.Text.{
  Text, codes, is_empty, text_eq, split, split_once, strip_prefix, trim, byte_len,
  to_ascii_lowercase,
}
use debian_download_manager.Prelude.Utf8.{as_bytes, from_utf8_lossy}

-- Backslashes before a quote or a backslash are dropped.
unfoldable pub decode_quoted_filename : Text → Text
decode_quoted_filename [] = []
decode_quoted_filename (c ∷ []) = c ∷ []
decode_quoted_filename (c ∷ next ∷ s) =
    let escaped = next ∷ decode_quoted_filename s in
    let kept = c ∷ decode_quoted_filename (next ∷ s) in
    if (c == 0x5c) && ((next == 0x22) || (next == 0x5c)) then escaped else kept

unfoldable pub hex_digit : ℕ → Option ℕ
hex_digit b =
    if leb b'0' b && leb b b'9'
    then some (b - b'0')
    else if leb b'a' b && leb b b'f'
    then some (b - b'a' + 10)
    else if leb b'A' b && leb b b'F'
    then some (b - b'A' + 10)
    else none

abbrev pub as_list : Option ℕ → List ℕ
as_list none = []
as_list (some x) = x ∷ []

-- What a percent sign and the digits after it become.
unfoldable pub escape : Option ℕ → Option ℕ → List ℕ
escape none l = 0x25 ∷ as_list l
escape (some h) none = 0x25 ∷ h ∷ []
escape (some h) (some l) = bit_or (h * 16 % 256) l ∷ []

-- The loop over the bytes: a percent sign takes the next two bytes, as far as there are any.
unfoldable pub decode_percents : List ℕ → List ℕ
unfolding hex_digit escape
decode_percents [] = []
decode_percents (b ∷ []) = if b == 0x25 then escape none none else b ∷ []
decode_percents (b ∷ x ∷ []) =
    let plain = b ∷ decode_percents (x ∷ []) in
    if b == 0x25 then escape (hex_digit x) none else plain
decode_percents (b ∷ x ∷ y ∷ bytes) =
    let escaped = escape (hex_digit x) (hex_digit y) ++ decode_percents bytes in
    let plain = b ∷ decode_percents (x ∷ y ∷ bytes) in if b == 0x25 then escaped else plain

-- The result is never an error.
unfoldable pub percent_decode : Text → Text
unfolding decode_percents
percent_decode input = from_utf8_lossy (decode_percents (as_bytes input))

abbrev pub unless_empty : Text → Option Text
unless_empty s = if is_empty s then none else some s

abbrev pub or_else : Option Text → Option Text → Option Text
or_else none o = o
or_else (some s) o = some s

-- The value of `filename*`.
unfoldable pub star_value : Text → Text → Option Text
star_value name v =
    if text_eq name (codes "filename*")
    then elim (or_else (strip_prefix (codes "utf-8''") v) (strip_prefix (codes "UTF-8''") v)) [
      | none ↦ none
      | some rest ↦ unless_empty (decode_quoted_filename (percent_decode rest))
    ]
    else none

-- A text without its last character, and whether that is a quote.
unfoldable pub but_quote : Text → Option Text
but_quote [] = none
but_quote (c ∷ []) = if c == 0x22 then some [] else none
but_quote (c ∷ d ∷ s) = Option.map (λ (t : Text). c ∷ t) (but_quote (d ∷ s))

-- `v[1..v.len() - 1]`, where the value begins and ends with a quote and has two bytes at least.
unfoldable pub quoted : Text → Option Text
unfolding but_quote
quoted [] = none
quoted (c ∷ s) = if c == 0x22 then but_quote s else none

-- The value of `filename`.
unfoldable pub token_value : Text → Text → Option Text
unfolding quoted
token_value name v =
    if text_eq name (codes "filename")
    then unless_empty (elim (quoted v) [ some inner ↦ decode_quoted_filename inner | none ↦ v ])
    else none

-- A parameter's name in lower case, and its value.
unfoldable pub name_value : Text → Option (Text × Text)
name_value param = elim (split_once b'=' (trim param)) [
  | none ↦ none
  | some (name, v) ↦ some (map to_ascii_lowercase (trim name), trim v)
]

-- The loop over the parameters; `token` is the `filename` found last.
unfoldable pub scan_params : List Text → Option Text → Option Text
scan_params [] token = token
scan_params (param ∷ params) token = elim (name_value param) [
  | none ↦ scan_params params token
  | some (name, v) ↦ elim (star_value name v) [
    | some decoded ↦ some decoded
    | none ↦ scan_params params (or_else (token_value name v) token)
  ]
]

unfoldable pub parse_content_disposition_filename : Text → Option Text
unfolding scan_params
parse_content_disposition_filename header_value = scan_params (split b';' (trim header_value)) none
