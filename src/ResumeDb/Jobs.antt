-- ===== src/ResumeDb/Jobs.antt =====
-- crates/ddm-core/src/resume_db/jobs: the table of jobs, and the statements of write.rs on it.
-- `now` is the timestamp that each takes. `serde_json` is a parameter: it prints settings and reads
-- them, and may refuse to.
use debian_download_manager.Prelude.{
  ℕ, ◌+◌, min, List, [], ◌∷◌, ◌++◌, Option, none, some, ◌==◌, if◌then◌else◌,
}
use debian_download_manager.Prelude.Result.{Result, ok, err}
use debian_download_manager.Prelude.Text.{Text, codes, text_eq}
use debian_download_manager.ResumeDb.Types.{
  JobState, queued, running, as_str, JobSettings, JobMetadata,
}

pub record Json : Type 0 where
  pub to_string : JobSettings → Option Text
  pub from_str : Text → Option JobSettings

-- A row of the table `jobs`.
pub record Row : Type 0 where
  pub id : ℕ
  pub url : Text
  pub final_filename : Option Text
  pub temp_filename : Option Text
  pub total_size : Option ℕ
  pub etag : Option Text
  pub last_modified : Option Text
  pub segment_count : ℕ
  pub completed_bitmap : List ℕ
  pub state : Text
  pub created_at : ℕ
  pub updated_at : ℕ
  pub settings_json : Option Text

-- The table, and the largest id that AUTOINCREMENT has given out.
pub record ResumeDb : Type 0 where
  pub rows : List Row
  pub seq : ℕ

pub data JsonError : Type 0 where
  json_error : JsonError

-- UPDATE jobs SET … WHERE id = ?
unfoldable pub update_where_id : ℕ → (Row → Row) → List Row → List Row
update_where_id id change [] = []
update_where_id id change (r ∷ rows) =
    (if r.id == id then change r else r) ∷ update_where_id id change rows

unfoldable pub with_state : ℕ → JobState → Row → Row
with_state now state r = record r { state = as_str state; updated_at = now }

-- SELECT id … WHERE state = 'queued' ORDER BY id ASC LIMIT 1
unfoldable pub smaller : ℕ → Option ℕ → ℕ
smaller a none = a
smaller a (some b) = min a b

unfoldable pub first_queued : List Row → Option ℕ
unfolding smaller
first_queued [] = none
first_queued (r ∷ rows) =
    let rest = first_queued rows in
    if text_eq r.state (codes "queued") then some (smaller r.id rest) else rest

unfoldable pub claim_next_queued_job : ℕ → ResumeDb → ResumeDb × Option ℕ
claim_next_queued_job now db = elim (first_queued db.rows) [
  | none ↦ (db, none)
  | some id ↦ (record db { rows = update_where_id id (with_state now running) db.rows }, some id)
]

-- The row of the INSERT.
unfoldable pub new_row : ℕ → ℕ → Text → Text → Row
new_row id now url settings_json = record {
  id = id;
  url = url;
  final_filename = none;
  temp_filename = none;
  total_size = none;
  etag = none;
  last_modified = none;
  segment_count = 0;
  completed_bitmap = [];
  state = as_str queued;
  created_at = now;
  updated_at = now;
  settings_json = some settings_json;
}

unfoldable pub insert_job : ℕ → Text → Text → ResumeDb → ResumeDb
insert_job now url settings_json db = record {
  rows = db.rows ++ new_row (db.seq + 1) now url settings_json ∷ [];
  seq = db.seq + 1;
}

unfoldable pub add_job : Json → ℕ → Text → JobSettings → ResumeDb → Result JsonError (ResumeDb × ℕ)
add_job json now url settings db = elim (json.to_string settings) [
  | none ↦ err json_error
  | some settings_json ↦ ok (insert_job now url settings_json db, db.seq + 1)
]

unfoldable pub with_metadata : ℕ → JobMetadata → Row → Row
with_metadata now meta r = record r {
  final_filename = meta.final_filename;
  temp_filename = meta.temp_filename;
  total_size = meta.total_size;
  etag = meta.etag;
  last_modified = meta.last_modified;
  segment_count = meta.segment_count;
  completed_bitmap = meta.completed_bitmap;
  updated_at = now;
}

unfoldable pub update_metadata : ℕ → ℕ → JobMetadata → ResumeDb → ResumeDb
update_metadata now id meta db = record db {
  rows = update_where_id id (with_metadata now meta) db.rows;
}

unfoldable pub with_bitmap : ℕ → List ℕ → Row → Row
with_bitmap now bitmap r = record r { completed_bitmap = bitmap; updated_at = now }

unfoldable pub update_bitmap : ℕ → ℕ → List ℕ → ResumeDb → ResumeDb
update_bitmap now id bitmap db = record db {
  rows = update_where_id id (with_bitmap now bitmap) db.rows;
}

-- UPDATE … WHERE state = 'running', and how many rows that was.
unfoldable pub recover_rows : ℕ → List Row → List Row × ℕ
recover_rows now [] = ([], 0)
recover_rows now (r ∷ rows) =
    let (rest, n) = recover_rows now rows in
    if text_eq r.state (codes "running")
    then (with_state now queued r ∷ rest, n + 1)
    else (r ∷ rest, n)

unfoldable pub recover_running_jobs : ℕ → ResumeDb → ResumeDb × ℕ
recover_running_jobs now db =
    let (rows, n) = recover_rows now db.rows in (record db { rows = rows }, n)

unfoldable pub set_state : ℕ → ℕ → JobState → ResumeDb → ResumeDb
set_state now id state db = record db { rows = update_where_id id (with_state now state) db.rows }

unfoldable pub delete_where_id : ℕ → List Row → List Row
delete_where_id id [] = []
delete_where_id id (r ∷ rows) =
    let rest = delete_where_id id rows in if r.id == id then rest else r ∷ rest

unfoldable pub remove_job : ℕ → ResumeDb → ResumeDb
remove_job id db = record db { rows = delete_where_id id db.rows }
