-- ===== src/Examples/Probes.antt =====
-- A server that redirects once, refuses HEAD and answers ranges; and a resumed job.
use debian_download_manager.Prelude.{
  ◌≡◌, ◌↔◌, ◌⊎◌, refl, List, [], ◌∷◌, ◌++◌, map, Option, some, none, true, inl, inr, All, arith,
}
use debian_download_manager.Prelude.Result.{ok, err}
use debian_download_manager.Prelude.Text.{
  Text, codes, trim, trim_end, trim_matches, starts_with, strip_prefix, drop_while, is_whitespace,
  split_once, text_eq, eq_ignore_ascii_case, to_ascii_lowercase,
}
use debian_download_manager.FetchHead.Parse.{HeadResult}
use debian_download_manager.Prelude.Decimal.{show_ℕ}
use debian_download_manager.FetchHead.Probe.{Transport, http_status, probe_best_effort}
use debian_download_manager.FetchHead.Probe.Length.{
  IsContentRange, IsOther, LengthIs, probe_best_effort-range_capable,
}
use debian_download_manager.ResumeDb.Types.{JobDetails, paused, default_settings}
use debian_download_manager.SafeResume.{validate_for_resume}
use debian_download_manager.SafeResume.Laws.{NeverProbed, Unchanged, validate_for_resume_iff}

abbrev redirect : List (Option Text)
redirect = some (codes "HTTP/1.1 302 Found\r\n") ∷ some (codes "ETag: old\r\n") ∷ none ∷ []

abbrev partial_status : Text
partial_status = codes "HTTP/1.1 206 Partial Content\r\n"

abbrev range_field : Text
range_field = codes "Content-Range: bytes 0-0/12345\r\n"

abbrev last_fields : List Text
last_fields = codes "ETag: new\r\n" ∷ codes "\r\n" ∷ []

abbrev answers : List (Option Text)
answers =
    redirect
    ++ some partial_status ∷ map some (codes "Content-Length: 1\r\n" ∷ range_field ∷ last_fields)

abbrev no_head : Transport
no_head = record {
  head = λ url lines. err (http_status 405);
  get_range0 = λ url lines. ok (answers, 206);
}

range_field-IsContentRange : IsContentRange (trim_end range_field) 12345
unfolding text_eq trim trim_matches trim_end drop_while is_whitespace eq_ignore_ascii_case
    to_ascii_lowercase show_ℕ
range_field-IsContentRange = record {
  name = codes "Content-Range";
  value = codes " bytes 0-0/12345";
  unit = codes "bytes 0-0";
  digits = codes "12345";
  at_colon = refl;
  no_colon = omega arith;
  named = refl;
  at_slash = refl;
  no_slash = omega arith;
  decimal = refl;
  fits = omega arith;
}

last_fields-IsOther : All IsOther (map trim_end last_fields)
unfolding text_eq split_once trim trim_matches trim_end drop_while is_whitespace
    eq_ignore_ascii_case to_ascii_lowercase
last_fields-IsOther = (inr (codes "ETag", codes " new", refl, refl), (inl refl, tt))

probe_best_effort-range_capable_example :
    (r : HeadResult) × (probe_best_effort no_head (codes "https://a/x") [] ≡ ok r)
    × (r.accept_ranges ≡ true)
    × LengthIs no_head (codes "https://a/x") [] 12345 r
unfolding starts_with strip_prefix trim_end drop_while is_whitespace
probe_best_effort-range_capable_example =
    probe_best_effort-range_capable no_head (codes "https://a/x") [] redirect partial_status
      range_field (codes "Content-Length: 1\r\n" ∷ []) last_fields 12345 refl
      (refl, (refl, (refl, (refl, tt)))) range_field-IsContentRange last_fields-IsOther refl

abbrev stored : JobDetails
stored = record {
  id = 3;
  url = codes "https://a/x";
  final_filename = some (codes "x");
  temp_filename = some (codes "x.part");
  total_size = some 12345;
  etag = some (codes "v1");
  last_modified = none;
  segment_count = 3;
  completed_bitmap = 5 ∷ [];
  state = paused;
  created_at = 10;
  updated_at = 20;
  settings = default_settings;
}

abbrev changed_etag : HeadResult
changed_etag = record {
  content_length = some 12345;
  accept_ranges = true;
  etag = some (codes "v2");
  last_modified = none;
  content_disposition = none;
}

validate_for_resume_iff_example :
    (validate_for_resume stored changed_etag ≡ ok tt)
    ↔ (NeverProbed stored ⊎ Unchanged stored changed_etag)
validate_for_resume_iff_example = validate_for_resume_iff stored changed_etag
