-- ===== src/UrlModel/Sanitize.antt =====
-- crates/ddm-core/src/url_model/sanitize.rs: `sanitize_filename_for_linux`.
pub mod Laws
use debian_download_manager.Prelude.{
  ℕ, zero, suc, Bool, true, false, ◌&&◌, ◌||◌, List, [], ◌∷◌, Option, none, some, leb, ltb, ◌==◌,
  if◌then◌else◌,
}
use debian_download_manager.Prelude.Text.{Text, byte_len, split_at_byte, trim_matches}

-- `char::is_control`.
unfoldable pub is_control : ℕ → Bool
is_control c = ltb c 32 || (leb 127 c && ltb c 160)

unfoldable pub replacement : ℕ → ℕ
replacement c =
    if (c == 0) || (c == b'/') || (c == b'\\') || is_control c
    then b'_'
    else if (c == b' ') || (c == 9)
    then b'_'
    else c

-- The loop over the characters: what it pushes, given whether the last one was an underscore.
unfoldable pub replace_all : Bool → Text → Text
replace_all prev_underscore [] = []
replace_all prev_underscore (c ∷ name) =
    let after_underscore = replace_all true name in
    let after_other = replace_all false name in
    if replacement c == b'_'
    then (if prev_underscore then after_underscore else b'_' ∷ after_underscore)
    else replacement c ∷ after_other

unfoldable pub is_margin : ℕ → Bool
is_margin c = (c == b' ') || (c == 9) || (c == b'.') || (c == b'_')

-- The `while` loop: the longest prefix of at most `size` bytes that ends between characters.
unfoldable pub boundary_prefix : ℕ → Text → Text
boundary_prefix zero s = []
boundary_prefix (suc size) s = elim (split_at_byte (suc size) s) [
  | some (before, after) ↦ before
  | none ↦ boundary_prefix size s
]

abbrev pub name_max : ℕ
name_max = 255

unfoldable pub truncate : Text → Text
truncate trimmed =
    if ltb name_max (byte_len trimmed) then boundary_prefix name_max trimmed else trimmed

unfoldable pub sanitize_filename_for_linux : Text → Text
sanitize_filename_for_linux name = truncate (trim_matches is_margin (replace_all false name))
