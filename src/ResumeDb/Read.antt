-- ===== src/ResumeDb/Read.antt =====
-- crates/ddm-core/src/resume_db/jobs/read.rs: the queries on the table of jobs.
use debian_download_manager.Prelude.{
  ℕ, Bool, true, false, List, [], ◌∷◌, Option, none, some, map, ltb, ◌==◌, if◌then◌else◌,
}
use debian_download_manager.Prelude.Result.{Result, ok, err}
use debian_download_manager.Prelude.Text.{Text, text_eq, is_empty}
use debian_download_manager.ResumeDb.Types.{
  from_str, JobSettings, default_settings, JobSummary, JobDetails,
}
use debian_download_manager.ResumeDb.Jobs.{Row, ResumeDb, Json, JsonError, json_error}

-- SELECT … WHERE id = ?
unfoldable pub find : ℕ → List Row → Option Row
find id [] = none
find id (r ∷ rows) = if r.id == id then some r else find id rows

summary : Row → JobSummary
summary r = record {
  id = r.id;
  url = r.url;
  state = from_str r.state;
  final_filename = r.final_filename;
  total_size = r.total_size;
}

-- ORDER BY created_at DESC, id DESC
newer : Row → Row → Bool
newer a b = if a.created_at == b.created_at then ltb b.id a.id else ltb b.created_at a.created_at

place : Row → List Row → List Row
unfolding newer
place r [] = r ∷ []
place r (s ∷ rows) = let rest = place r rows in if newer r s then r ∷ s ∷ rows else s ∷ rest

by_newest : List Row → List Row
unfolding place
by_newest [] = []
by_newest (r ∷ rows) = place r (by_newest rows)

unfoldable pub list_jobs : ResumeDb → List JobSummary
unfolding by_newest summary
list_jobs db = map summary (by_newest db.rows)

-- An empty or missing text stands for the default settings.
unfoldable pub read_settings : Json → Option Text → Result JsonError JobSettings
read_settings json none = ok default_settings
read_settings json (some s) =
    if is_empty s
    then ok default_settings
    else elim (json.from_str s) [ none ↦ err json_error | some settings ↦ ok settings ]

unfoldable pub details : Row → JobSettings → JobDetails
details r settings = record {
  id = r.id;
  url = r.url;
  final_filename = r.final_filename;
  temp_filename = r.temp_filename;
  total_size = r.total_size;
  etag = r.etag;
  last_modified = r.last_modified;
  segment_count = r.segment_count;
  completed_bitmap = r.completed_bitmap;
  state = from_str r.state;
  created_at = r.created_at;
  updated_at = r.updated_at;
  settings = settings;
}

unfoldable pub get_job : Json → ℕ → ResumeDb → Result JsonError (Option JobDetails)
get_job json id db = elim (find id db.rows) [
  | none ↦ ok none
  | some r ↦ elim (read_settings json r.settings_json) [
    | err e ↦ err e
    | ok settings ↦ ok (some (details r settings))
  ]
]

-- The directory of a row; settings that cannot be read count as none.
unfoldable pub job_dir : Json → Row → Option Text
job_dir json r = elim r.settings_json [
  | none ↦ none
  | some s ↦
      if is_empty s
      then none
      else elim (json.from_str s) [ none ↦ none | some settings ↦ settings.download_dir ]
]

unfoldable pub same_dir : Option Text → Option Text → Bool
same_dir none none = true
same_dir none (some b) = false
same_dir (some a) none = false
same_dir (some a) (some b) = text_eq a b

unfoldable pub is_excluded : Option ℕ → ℕ → Bool
is_excluded none id = false
is_excluded (some exclude) id = exclude == id

cons_some : Option Text → List Text → List Text
cons_some none names = names
cons_some (some name) names = name ∷ names

unfoldable pub final_filenames : Json → Option Text → Option ℕ → List Row → List Text
unfolding cons_some
final_filenames json download_dir exclude [] = []
final_filenames json download_dir exclude (r ∷ rows) =
    let rest = final_filenames json download_dir exclude rows in
    if is_excluded exclude r.id
    then rest
    else if same_dir download_dir (job_dir json r)
    then cons_some r.final_filename rest
    else rest

unfoldable pub list_final_filenames_in_dir : Json → Option Text → Option ℕ → ResumeDb → List Text
list_final_filenames_in_dir json download_dir exclude db =
    final_filenames json download_dir exclude db.rows
