-- ===== src/ResumeDb/Added.antt =====
-- A job that is added is read back.
use debian_download_manager.Prelude.{
  ℕ, ◌+◌, ◌≡◌, ◌≢◌, refl, ◌∙◌, [], none, some, false, ◌==◌, ==-self, ==→eq, Bool-cases, inl, inr,
}
use debian_download_manager.Prelude.Result.{ok}
use debian_download_manager.Prelude.Text.{Text, is_empty}
use debian_download_manager.ResumeDb.Types.{JobSettings, JobDetails, queued, from_str-as_str}
use debian_download_manager.ResumeDb.Jobs.{ResumeDb, Json, add_job, new_row}
use debian_download_manager.ResumeDb.Read.{find, read_settings, details, get_job}
use debian_download_manager.ResumeDb.Rows.{IsValid, add_job-fresh}

-- A queued job of which nothing but the URL and the settings is known.
abbrev pub added : ℕ → ℕ → Text → JobSettings → JobDetails
added id now url settings = record {
  id = id;
  url = url;
  final_filename = none;
  temp_filename = none;
  total_size = none;
  etag = none;
  last_modified = none;
  segment_count = 0;
  completed_bitmap = [];
  state = queued;
  created_at = now;
  updated_at = now;
  settings = settings;
}

get_job-new_row :
    (json : Json) (id now : ℕ) (url s : Text) (settings : JobSettings) (db : ResumeDb)
    → is_empty s ≡ false
    → json.from_str s ≡ some settings
    → find id db.rows ≡ some (new_row id now url s)
    → get_job json id db ≡ ok (some (added id now url settings))
unfolding get_job read_settings details new_row
get_job-new_row json id now url s settings db full reads found =
    rw (found, full, reads, get_job) (rw (from_str-as_str queued) refl)

-- In a table with distinct ids, a job is added with settings that `serde_json` prints as a text that
-- is not empty and reads back: it gets an id that no job of the table had, and `get_job` finds it
-- there, queued, with its URL and its settings, both times now, and no metadata. What `get_job` says
-- of any other id is as it was, and the ids stay distinct.
pub get_job-add_job :
    (json : Json) (now : ℕ) (url s : Text) (settings : JobSettings) (db : ResumeDb)
    → IsValid db
    → json.to_string settings ≡ some s
    → is_empty s ≡ false
    → json.from_str s ≡ some settings
    → (db' : ResumeDb) × (id : ℕ) × (add_job json now url settings db ≡ ok (db', id))
      × (get_job json id db ≡ ok none)
      × (get_job json id db' ≡ ok (some (added id now url settings)))
      × ((j : ℕ) → id ≢ j → get_job json j db' ≡ get_job json j db)
      × IsValid db'
unfolding get_job
get_job-add_job json now url s settings db v prints full reads =
    let (db', adds, v', unused, rows) = add_job-fresh json now url s settings db v prints in
    let id = db.seq + 1 in
    (
      db',
      id,
      adds,
      rw (unused, get_job) refl,
      get_job-new_row json id now url s settings db' full reads (rows id ∙ rw (==-self id) refl),
      λ j differ. elim (Bool-cases (id == j)) [
        | inl same ↦ absurd (differ (==→eq id j same))
        | inr other ↦
            let same_row : find j db'.rows ≡ find j db.rows = rows j ∙ rw other refl in
            rw (same_row, get_job) refl
      ],
      v',
    )
