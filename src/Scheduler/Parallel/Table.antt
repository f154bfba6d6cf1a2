-- ===== src/Scheduler/Parallel/Table.antt =====
-- What the claims and the statements of jobs do to the queued rows, and the ids in flight.
use mathlib.Core.Option.{some-injective}
use debian_download_manager.Prelude.{
  ℕ, zero, suc, ◌≡◌, ◌≢◌, refl, sym, ap, subst, ◌∙◌, inl, inr, List, [], ◌∷◌, ◌++◌, Option, none,
  some, ◌==◌, arith, Bool-cases, Option-cases, All, All-append, ==→eq,
}
use debian_download_manager.Prelude.Text.{text_eq}
use debian_download_manager.ResumeDb.Types.{
  JobState, queued, running, paused, completed, error, as_str, JobMetadata,
}
use debian_download_manager.ResumeDb.Jobs.{
  Row, ResumeDb, update_where_id, with_state, with_metadata, with_bitmap, first_queued,
  claim_next_queued_job, update_metadata, update_bitmap, set_state,
}
use debian_download_manager.ResumeDb.Read.{find}
use debian_download_manager.ResumeDb.Rows.{IsValid, statements-IsValid, claim-none, claim-some}
use debian_download_manager.ResumeDb.Queue.{IsQueued}
use debian_download_manager.Downloader.Multi.{remove_at}
use debian_download_manager.Scheduler.Parallel.{Statement, metadata, bitmap, state}

-- No id stands twice.
abbrev pub AreDistinct : List ℕ → Type 0
AreDistinct [] = Unit
AreDistinct (x ∷ xs) = All (λ y. x ≢ y) xs × AreDistinct xs

pub AreDistinct-append :
    (xs : List ℕ) (y : ℕ) → All (λ x. x ≢ y) xs → AreDistinct xs → AreDistinct (xs ++ y ∷ [])
AreDistinct-append [] y h d = (tt, tt)
AreDistinct-append (x ∷ xs) y h d =
    (All-append (λ z. x ≢ z) xs (y ∷ []) d.0 (h.0, tt), AreDistinct-append xs y h.1 d.1)

pub remove_at-All :
    (P : ℕ → Type 0) (i : ℕ) (xs : List ℕ) {x : ℕ} {rest : List ℕ}
    → remove_at i xs ≡ some (x, rest)
    → All P xs
    → All P rest
unfolding remove_at
remove_at-All P i [] e h = absurd (cc e)
remove_at-All P zero (y ∷ xs) e h = subst (λ (r : ℕ × List ℕ). All P r.1) (some-injective _ _ e) h.1
remove_at-All P (suc i) (y ∷ xs) e h = elim (Option-cases (remove_at i xs)) [
  | inl nothing ↦ absurd (cc (rw nothing at e))
  | inr ((z, left), found) ↦
      subst (λ (r : ℕ × List ℕ). All P r.1) (some-injective _ _ (rw found at e))
        (h.0, remove_at-All P i xs found h.1)
]

pub remove_at-AreDistinct :
    (i : ℕ) (xs : List ℕ) {x : ℕ} {rest : List ℕ}
    → remove_at i xs ≡ some (x, rest)
    → AreDistinct xs
    → AreDistinct rest
unfolding remove_at
remove_at-AreDistinct i [] e h = absurd (cc e)
remove_at-AreDistinct zero (y ∷ xs) e h =
    subst (λ (r : ℕ × List ℕ). AreDistinct r.1) (some-injective _ _ e) h.1
remove_at-AreDistinct (suc i) (y ∷ xs) e h = elim (Option-cases (remove_at i xs)) [
  | inl nothing ↦ absurd (cc (rw nothing at e))
  | inr ((z, left), found) ↦
      subst (λ (r : ℕ × List ℕ). AreDistinct r.1) (some-injective _ _ (rw found at e))
        (remove_at-All (λ w. y ≢ w) i xs found h.0, remove_at-AreDistinct i xs found h.1)
]

-- No row whose id fulfils `C` is queued.
abbrev pub Quiet : (ℕ → Type 0) → List Row → Type 0
Quiet C = All (λ r. C r.id → ¬ IsQueued r)

abbrev pub NoneQueued : List Row → Type 0
NoneQueued = Quiet (λ i. Unit)

abbrev pub IsIdle : List Row → ℕ → Type 0
IsIdle rows id = Quiet (λ i. i ≡ id) rows

update_where_id-Quiet :
    (C : ℕ → Type 0) (id : ℕ) (change : Row → Row) (rows : List Row)
    → ((r : Row) → (change r).id ≡ r.id)
    → ((r : Row) → ¬ IsQueued r → ¬ IsQueued (change r))
    → Quiet C rows
    → Quiet C (update_where_id id change rows)
unfolding update_where_id
update_where_id-Quiet C id change [] same keeps h = tt
update_where_id-Quiet C id change (r ∷ rows) same keeps h =
    let rest = update_where_id-Quiet C id change rows same keeps h.1 in
    elim (Bool-cases (r.id == id)) [
      | inl hit ↦ rw hit ((λ k. keeps r (h.0 (subst C (same r) k))), rest)
      | inr there ↦ rw there (h.0, rest)
    ]

not_queued : (now : ℕ) (s : JobState) (r : Row) → s ≢ queued → ¬ IsQueued (with_state now s r)
unfolding with_state as_str text_eq
not_queued now queued r h q = h refl
not_queued now running r h q = cc
not_queued now paused r h q = cc
not_queued now completed r h q = cc
not_queued now error r h q = cc

pub set_state-Quiet :
    (C : ℕ → Type 0) (now id : ℕ) (s : JobState) (db : ResumeDb)
    → s ≢ queued
    → Quiet C db.rows
    → Quiet C (set_state now id s db).rows
unfolding set_state
set_state-Quiet C now id s db differ h =
    update_where_id-Quiet C id (with_state now s) db.rows (λ r. unfold with_state in refl)
      (λ r _. not_queued now s r differ) h

pub Statement-Quiet :
    (C : ℕ → Type 0) (id : ℕ) {db db' : ResumeDb}
    → Statement id db db'
    → Quiet C db.rows
    → Quiet C db'.rows
unfolding update_metadata update_bitmap with_metadata with_bitmap
Statement-Quiet C id {db} (metadata now meta) h =
    update_where_id-Quiet C id (with_metadata now meta) db.rows (λ r. refl) (λ r q. q) h
Statement-Quiet C id {db} (bitmap now bits) h =
    update_where_id-Quiet C id (with_bitmap now bits) db.rows (λ r. refl) (λ r q. q) h
Statement-Quiet C id {db} (state now s differ) h = set_state-Quiet C now id s db differ h

-- Metadata of which nothing is known.
abbrev no_metadata : JobMetadata
no_metadata = record {
  final_filename = none;
  temp_filename = none;
  total_size = none;
  etag = none;
  last_modified = none;
  segment_count = 0;
  completed_bitmap = [];
}

pub Statement-IsValid :
    (id : ℕ) {db db' : ResumeDb} → Statement id db db' → IsValid db → IsValid db'
Statement-IsValid id {db} (metadata now meta) v = (statements-IsValid db now id queued meta [] v).1
Statement-IsValid id {db} (bitmap now bits) v =
    (statements-IsValid db now id queued no_metadata bits v).2
Statement-IsValid id {db} (state now s differ) v =
    (statements-IsValid db now id s no_metadata [] v).0

pub running_is : running ≢ queued
running_is e = cc

-- A claimed job is set to running.
pub claim-set_state :
    (now : ℕ) (db db' : ResumeDb) (id : ℕ)
    → claim_next_queued_job now db ≡ (db', some id)
    → set_state now id running db ≡ db'
unfolding set_state
claim-set_state now db db' id e = elim (Option-cases (first_queued db.rows)) [
  | inl nothing ↦ absurd (cc (claim-none now db nothing, e))
  | inr (a, found) ↦
      let claimed = sym (claim-some now db a found) ∙ e in
      let same : a ≡ id = some-injective _ _ (ap (λ (x : ResumeDb × Option ℕ). x.1) claimed) in
      rw (sym same) (ap (λ (x : ResumeDb × Option ℕ). x.0) claimed)
]

pub set_running-IsIdle :
    (now id : ℕ) (rows : List Row) → IsIdle (update_where_id id (with_state now running) rows) id
unfolding update_where_id
set_running-IsIdle now id [] = tt
set_running-IsIdle now id (r ∷ rows) = elim (Bool-cases (r.id == id)) [
  | inl hit ↦ rw hit ((λ k. not_queued now running r running_is), set_running-IsIdle now id rows)
  | inr there ↦ rw there ((λ k. absurd (ground (arith, there, k))), set_running-IsIdle now id rows)
]

pub find-IsIdle :
    (id : ℕ) (rows : List Row) {r : Row} → IsIdle rows id → find id rows ≡ some r → ¬ IsQueued r
unfolding find
find-IsIdle id [] h e = absurd (cc e)
find-IsIdle id (s ∷ rows) h e = elim (Bool-cases (s.id == id)) [
  | inl hit ↦ subst (λ r. ¬ IsQueued r) (some-injective _ _ (rw hit at e)) (h.0 (==→eq s.id id hit))
  | inr there ↦ find-IsIdle id rows h.1 (rw there at e)
]

pub All-weaken : (P Q : ℕ → Type 0) (xs : List ℕ) → ((x : ℕ) → P x → Q x) → All P xs → All Q xs
All-weaken P Q [] f h = tt
All-weaken P Q (x ∷ xs) f h = (f x h.0, All-weaken P Q xs f h.1)
