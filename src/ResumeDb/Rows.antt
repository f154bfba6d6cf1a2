-- ===== src/ResumeDb/Rows.antt =====
-- The rows that the statements of the job table change, and those that they leave.
use debian_download_manager.Prelude.{
  ℕ, ◌+◌, ◌≤◌, ◌<◌, ◌≡◌, refl, List, [], ◌∷◌, ◌++◌, none, some, arith, ◌==◌, if◌then◌else◌,
  Bool-cases, Option-cases, inl, inr,
}
use debian_download_manager.Prelude.Result.{ok}
use debian_download_manager.Prelude.Text.{Text}
use mathlib.Core.Option
use debian_download_manager.ResumeDb.Types.{JobState, running, JobSettings, JobMetadata}
use debian_download_manager.ResumeDb.Jobs.{
  Row, ResumeDb, Json, update_where_id, with_state, with_metadata, with_bitmap, first_queued,
  claim_next_queued_job, add_job, insert_job, new_row, update_metadata, update_bitmap, recover_rows,
  recover_running_jobs, set_state, delete_where_id, remove_job,
}
use debian_download_manager.ResumeDb.Read.{find}

-- The ids grow along the table, above `lo` and up to `hi`.
abbrev pub Grows : ℕ → List Row → ℕ → Type 0
Grows lo [] hi = lo ≤ hi
Grows lo (r ∷ rows) hi = (lo < r.id) × Grows r.id rows hi

-- The primary key: no id stands twice, none is 0, and none is above what was given out.
abbrev pub IsValid : ResumeDb → Type 0
IsValid db = Grows 0 db.rows db.seq

Grows-weaken : (a b c d : ℕ) (rows : List Row) → a ≤ b → c ≤ d → Grows b rows c → Grows a rows d
Grows-weaken a b c d [] h k g = omega arith
Grows-weaken a b c d (r ∷ rows) h k g =
    (omega arith, Grows-weaken r.id r.id c d rows (omega arith) k g.1)

pub Grows-le : (lo hi : ℕ) (rows : List Row) → Grows lo rows hi → lo ≤ hi
Grows-le lo hi [] g = g
Grows-le lo hi (r ∷ rows) g = omega (arith, Grows-le r.id hi rows g.1)

find-above : (lo hi id : ℕ) (rows : List Row) → Grows lo rows hi → hi < id → find id rows ≡ none
unfolding find
find-above lo hi id [] g h = refl
find-above lo hi id (r ∷ rows) g h =
    ground (arith, find-above r.id hi id rows g.1, Grows-le r.id hi rows g.1)

pub find-below : (lo hi id : ℕ) (rows : List Row) → Grows lo rows hi → id ≤ lo → find id rows ≡ none
unfolding find
find-below lo hi id [] g h = refl
find-below lo hi id (r ∷ rows) g h = ground (arith, find-below r.id hi id rows g.1)

update_where_id-Grows :
    (lo hi id : ℕ) (change : Row → Row) (rows : List Row)
    → ((r : Row) → (change r).id ≡ r.id)
    → Grows lo rows hi
    → Grows lo (update_where_id id change rows) hi
unfolding update_where_id
update_where_id-Grows lo hi id change [] same g = g
update_where_id-Grows lo hi id change (r ∷ rows) same g =
    ground (arith, same r, update_where_id-Grows r.id hi id change rows same g.1)

-- What an update of one row does to a query by id.
pub find-update_where_id :
    (id j : ℕ) (change : Row → Row) (rows : List Row)
    → ((r : Row) → (change r).id ≡ r.id)
    → find j (update_where_id id change rows)
      ≡ (if id == j then Option.map change (find j rows) else find j rows)
unfolding find update_where_id
find-update_where_id id j change [] same = ground arith
find-update_where_id id j change (r ∷ rows) same =
    ground (arith, same r, find-update_where_id id j change rows same)

delete_where_id-Grows :
    (lo hi id : ℕ) (rows : List Row) → Grows lo rows hi → Grows lo (delete_where_id id rows) hi
unfolding delete_where_id
delete_where_id-Grows lo hi id [] g = g
delete_where_id-Grows lo hi id (r ∷ rows) g = elim (Bool-cases (r.id == id)) [
  | inl h ↦ rw h (
      Grows-weaken lo r.id hi hi (delete_where_id id rows) (omega arith) (omega arith)
        (delete_where_id-Grows r.id hi id rows g.1))
  | inr h ↦ rw h (g.0, delete_where_id-Grows r.id hi id rows g.1)
]

recover_rows-Grows :
    (now lo hi : ℕ) (rows : List Row) → Grows lo rows hi → Grows lo (recover_rows now rows).0 hi
unfolding recover_rows with_state
recover_rows-Grows now lo hi [] g = g
recover_rows-Grows now lo hi (r ∷ rows) g = ground (arith, recover_rows-Grows now r.id hi rows g.1)

append-Grows :
    (lo hi : ℕ) (rows : List Row) (r : Row)
    → Grows lo rows hi
    → r.id ≡ hi + 1
    → Grows lo (rows ++ r ∷ []) (hi + 1)
append-Grows lo hi [] r g h = omega arith
append-Grows lo hi (s ∷ rows) r g h = (g.0, append-Grows s.id hi rows r g.1 h)

pub claim-none :
    (now : ℕ) (db : ResumeDb)
    → first_queued db.rows ≡ none
    → claim_next_queued_job now db ≡ (db, none)
unfolding claim_next_queued_job
claim-none now db e = rw (e, claim_next_queued_job)

pub claim-some :
    (now : ℕ) (db : ResumeDb) (id : ℕ)
    → first_queued db.rows ≡ some id
    → claim_next_queued_job now db
      ≡ (record db { rows = update_where_id id (with_state now running) db.rows }, some id)
unfolding claim_next_queued_job
claim-some now db id e = rw (e, claim_next_queued_job)

pub id-with_state : (now : ℕ) (state : JobState) (r : Row) → (with_state now state r).id ≡ r.id
unfolding with_state
id-with_state now state r = refl

pub claim-IsValid :
    (now : ℕ) (db : ResumeDb) → IsValid db → IsValid (claim_next_queued_job now db).0
claim-IsValid now db v = elim (Option-cases (first_queued db.rows)) [
  | inl e ↦ rw (claim-none now db e) v
  | inr (id, e) ↦ rw (claim-some now db id e) (
      update_where_id-Grows 0 db.seq id (with_state now running) db.rows (id-with_state now running)
        v)
]

-- Every statement that changes or deletes rows keeps the ids distinct, positive and at most the
-- largest id that was given out.
pub statements-IsValid :
    (db : ResumeDb) (now id : ℕ) (state : JobState) (meta : JobMetadata) (bitmap : List ℕ)
    → IsValid db
    → IsValid (set_state now id state db)
      × IsValid (update_metadata now id meta db)
      × IsValid (update_bitmap now id bitmap db)
      × IsValid (recover_running_jobs now db).0
      × IsValid (remove_job id db)
      × IsValid (claim_next_queued_job now db).0
unfolding set_state update_metadata update_bitmap recover_running_jobs remove_job
statements-IsValid db now id state meta bitmap v = (
  update_where_id-Grows 0 db.seq id (with_state now state) db.rows (id-with_state now state) v,
  update_where_id-Grows 0 db.seq id (with_metadata now meta) db.rows
      (λ r. unfold with_metadata in refl) v,
  update_where_id-Grows 0 db.seq id (with_bitmap now bitmap) db.rows
      (λ r. unfold with_bitmap in refl) v,
  recover_rows-Grows now 0 db.seq db.rows v,
  delete_where_id-Grows 0 db.seq id db.rows v,
  claim-IsValid now db v,
)

find-append :
    (lo hi : ℕ) (rows : List Row) (r : Row) (j : ℕ)
    → Grows lo rows hi
    → r.id ≡ hi + 1
    → find j (rows ++ r ∷ []) ≡ (if r.id == j then some r else find j rows)
unfolding find
find-append lo hi [] r j g h = refl
find-append lo hi (s ∷ rows) r j g h =
    ground (arith, find-append s.id hi rows r j g.1 h, Grows-le s.id hi rows g.1)

-- A job whose settings can be printed is added: it gets an id that no job of the table has, and
-- its row, queued and with no metadata, is found there; every other job is as it was, and the ids
-- stay distinct.
pub add_job-fresh :
    (json : Json) (now : ℕ) (url s : Text) (settings : JobSettings) (db : ResumeDb)
    → IsValid db
    → json.to_string settings ≡ some s
    → (db' : ResumeDb) × (add_job json now url settings db ≡ ok (db', db.seq + 1))
      × IsValid db'
      × (find (db.seq + 1) db.rows ≡ none)
      × ((j : ℕ)
          → find j db'.rows
            ≡ (if db.seq + 1 == j then some (new_row (db.seq + 1) now url s) else find j db.rows))
add_job-fresh json now url s settings db v e = (
  insert_job now url s db,
  unfold add_job in rw (e, add_job),
  unfold insert_job new_row in append-Grows 0 db.seq db.rows _ v refl,
  find-above 0 db.seq (db.seq + 1) db.rows v (omega arith),
  λ j. unfold insert_job new_row in find-append 0 db.seq db.rows _ j v refl,
)
