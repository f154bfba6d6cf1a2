-- ===== src/UrlModel/Derive/Laws.antt =====
-- The file name of a download can be used as it stands.
use debian_download_manager.Prelude.{
  ◌≤◌, ◌≡◌, ◌≢◌, refl, inl, inr, true, false, ◌||◌, [], Option, arith, All, Bool-cases,
  Option-cases,
}
use debian_download_manager.Prelude.Text.{Text, codes, is_empty, byte_len, utf8_len, text_eq}
use debian_download_manager.HostPolicy.Key.{UrlCrate}
use debian_download_manager.UrlModel.Sanitize.{sanitize_filename_for_linux}
use debian_download_manager.UrlModel.Sanitize.Laws.{IsSafe, sanitize-IsSafe}
use debian_download_manager.UrlModel.Derive.{
  is_dots, candidate_name, header_name, default_filename, or_default, derive_filename,
}

-- A name that a file in a directory can have, and that names no other directory.
pub record IsFileName (s : Text) : Type 0 where
  pub safe : All IsSafe s
  pub short : byte_len s ≤ 255
  pub filled : s ≢ []
  pub no_dot : s ≢ codes "."
  pub no_dots : s ≢ codes ".."

default-IsFileName : IsFileName default_filename
unfolding byte_len utf8_len
default-IsFileName = record {
  safe = omega arith;
  short = omega arith;
  filled = λ e. absurd (cc e);
  no_dot = λ e. absurd (cc e);
  no_dots = λ e. absurd (cc e);
}

refuse :
    (s bad : Text)
    → (is_empty bad || is_dots bad) ≡ true
    → s ≡ bad
    → (is_empty s || is_dots s) ≡ false
    → ⊥
refuse s bad known e good = absurd (cc (known, e, good))

or_default-IsFileName : (s : Text) → All IsSafe s → byte_len s ≤ 255 → IsFileName (or_default s)
unfolding or_default is_dots text_eq
or_default-IsFileName s h le = elim (Bool-cases (is_empty s || is_dots s)) [
  | inl bad ↦ rw (bad, or_default) default-IsFileName
  | inr good ↦
      rw (good, or_default)
        (record {
          safe = h;
          short = le;
          filled = λ e. refuse s [] refl e good;
          no_dot = λ e. refuse s (codes ".") refl e good;
          no_dots = λ e. refuse s (codes "..") refl e good;
        })
]

-- Whatever the URL and the Content-Disposition header: the file name is not empty, not "." or "..", has no
-- slash, backslash, blank or control character, and at most 255 bytes.
pub derive_filename-IsFileName :
    (crate : UrlCrate) (url : Text) (content_disposition : Option Text)
    → IsFileName (derive_filename crate url content_disposition)
unfolding derive_filename
derive_filename-IsFileName crate url content_disposition =
    elim (Option-cases (candidate_name crate url (header_name content_disposition))) [
      | inl e ↦ rw (e, derive_filename) default-IsFileName
      | inr (raw, e) ↦
          let (safe, short) = sanitize-IsSafe raw in
          rw (e, derive_filename)
            (or_default-IsFileName (sanitize_filename_for_linux raw) safe short)
    ]
