-- ===== src/Examples/Names.antt =====
-- File names.
use debian_download_manager.Prelude.{ℕ, ◌≤◌, ◌≡◌, ◌⊎◌, refl, true, false, List, [], ◌∷◌, some, All}
use debian_download_manager.Prelude.Text.{Text, codes, byte_len, text_eq, split_once}
use debian_download_manager.Prelude.Decimal.{show_ℕ}
use debian_download_manager.HostPolicy.Key.{UrlCrate}
use debian_download_manager.UrlModel.Unique.{
  among, split_extension, numbered, first_free, unique_filename_among,
}
use debian_download_manager.UrlModel.Unique.Laws.{IsNumbered, unique_filename_among-free}
use debian_download_manager.UrlModel.Unique.Extension.{IsSplit}
use debian_download_manager.UrlModel.Sanitize.{sanitize_filename_for_linux}
use debian_download_manager.UrlModel.Sanitize.Laws.{IsSafe, sanitize-IsSafe}
use debian_download_manager.UrlModel.Derive.{derive_filename}
use debian_download_manager.UrlModel.Derive.Laws.{IsFileName, derive_filename-IsFileName}
use debian_download_manager.Prelude.{◌∷◌, [], inl, inr, arith, none}
use debian_download_manager.Prelude.Text.{
  strip_prefix, trim, trim_matches, drop_while, is_whitespace, to_ascii_lowercase,
}
use debian_download_manager.Prelude.Utf8.{
  as_bytes, encode, from_utf8_lossy, decode_from, next_byte, first_byte,
}
use debian_download_manager.UrlModel.Disposition.{
  scan_params, name_value, star_value, token_value, percent_decode, decode_percents, escape,
  hex_digit, decode_quoted_filename, quoted, but_quote,
}
use debian_download_manager.UrlModel.Disposition.Laws.{
  percent_encode, percent_decode-percent_encode,
}

abbrev taken : List Text
taken = codes "a.iso" ∷ codes "b.iso" ∷ codes "a (1).iso" ∷ []

second_copy : unique_filename_among (codes "a.iso") taken ≡ some (codes "a (2).iso")
unfolding unique_filename_among first_free among split_extension numbered text_eq split_once show_ℕ
second_copy = refl

unique_filename_among-free_example :
    ((among (codes "a.iso") taken ≡ false)
      × (unique_filename_among (codes "a.iso") taken ≡ some (codes "a.iso")))
    ⊎ ((among (codes "a.iso") taken ≡ true)
        × ((stem : Text) × (ext : Text) × IsSplit (codes "a.iso") stem ext
            × ((k : ℕ) × IsNumbered (codes "a.iso") taken stem ext k)))
unique_filename_among-free_example = unique_filename_among-free (codes "a.iso") taken

sanitize-IsSafe_example :
    All IsSafe (sanitize_filename_for_linux (codes ".. a/b\\c\t "))
    × (byte_len (sanitize_filename_for_linux (codes ".. a/b\\c\t ")) ≤ 255)
sanitize-IsSafe_example = sanitize-IsSafe (codes ".. a/b\\c\t ")

abbrev one_url : UrlCrate
one_url = record {
  Url = Text;
  parse = λ s. some s;
  scheme = λ u. codes "https";
  host_str = λ u. some (codes "a");
  port_or_known_default = λ u. some 443;
  path = λ u. codes "/pool/..";
}

derive_filename-IsFileName_example :
    IsFileName (
      derive_filename one_url
        (codes "https://a/pool/..")
        (some (codes "attachment; filename=../x")))
derive_filename-IsFileName_example =
    derive_filename-IsFileName one_url (codes "https://a/pool/..")
      (some (codes "attachment; filename=../x"))

-- A Greek letter, a space and an emoji.
abbrev odd_name : Text
odd_name = 0x3b1 ∷ 0x20 ∷ 0x1f600 ∷ []

percent_decode-percent_encode_example :
    percent_decode (percent_encode (as_bytes odd_name)) ≡ odd_name
percent_decode-percent_encode_example =
    percent_decode-percent_encode odd_name
      (inl (omega arith), (inl (omega arith), (inr (omega arith, omega arith), tt)))

abbrev two_names : List Text
two_names = codes "attachment" ∷ codes " filename=\"a.txt\"" ∷ codes "filename*=UTF-8''b.txt" ∷ []

star_wins : scan_params two_names none ≡ some (codes "b.txt")
unfolding scan_params name_value star_value token_value percent_decode decode_percents escape
    hex_digit as_bytes encode from_utf8_lossy decode_from next_byte first_byte
    decode_quoted_filename quoted but_quote text_eq strip_prefix split_once trim trim_matches
    drop_while is_whitespace to_ascii_lowercase
star_wins = refl
