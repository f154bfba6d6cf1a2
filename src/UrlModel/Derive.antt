-- ===== src/UrlModel/Derive.antt =====
-- crates/ddm-core/src/url_model/path.rs and mod.rs: `filename_from_url_path` and
-- `derive_filename`.
pub mod Laws
use debian_download_manager.Prelude.{
  ℕ, Bool, true, false, ◌||◌, List, [], ◌∷◌, Option, none, some, if◌then◌else◌,
}
use debian_download_manager.Prelude.Text.{Text, codes, is_empty, text_eq, split}
use debian_download_manager.HostPolicy.Key.{UrlCrate}
use debian_download_manager.UrlModel.Disposition.{parse_content_disposition_filename}
use debian_download_manager.UrlModel.Sanitize.{sanitize_filename_for_linux}

-- `filter(|s| !s.is_empty()).last()`
unfoldable pub last_part : List Text → Option Text
last_part [] = none
last_part (part ∷ parts) = elim (last_part parts) [
  | some last ↦ some last
  | none ↦ if is_empty part then none else some part
]

unfoldable pub is_dots : Text → Bool
is_dots s = text_eq s (codes ".") || text_eq s (codes "..")

unfoldable pub filename_from_url_path : UrlCrate → Text → Option Text
filename_from_url_path crate url = elim (crate.parse url) [
  | none ↦ none
  | some parsed ↦ elim (last_part (split b'/' (crate.path parsed))) [
    | none ↦ none
    | some segment ↦ if is_empty segment || is_dots segment then none else some segment
  ]
]

-- The candidate of `derive_filename`: the name of the header, if it has one that is not empty.
unfoldable pub candidate_name : UrlCrate → Text → Option Text → Option Text
candidate_name crate url none = filename_from_url_path crate url
candidate_name crate url (some name) =
    if is_empty name then filename_from_url_path crate url else some name

abbrev pub default_filename : Text
default_filename = codes "download.bin"

unfoldable pub or_default : Text → Text
or_default sanitized =
    if is_empty sanitized || is_dots sanitized then default_filename else sanitized

-- The name in the header, if there is a header.
unfoldable pub header_name : Option Text → Option Text
header_name none = none
header_name (some content_disposition) = parse_content_disposition_filename content_disposition

unfoldable pub derive_filename : UrlCrate → Text → Option Text → Text
derive_filename crate url content_disposition =
    elim (candidate_name crate url (header_name content_disposition)) [
      | none ↦ default_filename
      | some raw ↦ or_default (sanitize_filename_for_linux raw)
    ]
