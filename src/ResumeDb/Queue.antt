-- ===== src/ResumeDb/Queue.antt =====
-- The queue in the job table: which job is claimed, and that no job is claimed twice.
use mathlib.Core.Option.{some-injective}
use debian_download_manager.Prelude.{
  ℕ, ◌≤◌, ◌<◌, ◌≡◌, ◌≢◌, refl, sym, ap, ◌∙◌, ◌⊎◌, subst, map, length, List, [], ◌∷◌, Option, none,
  some, arith, ◌==◌, if◌then◌else◌, Bool-cases, Option-cases, ==→eq, ==-self, inl, inr, Bool, true,
  false, All,
}
use debian_download_manager.Prelude.Text.{codes, text_eq}
use debian_download_manager.ResumeDb.Types.{queued, running, as_str}
use debian_download_manager.ResumeDb.Jobs.{
  Row, ResumeDb, update_where_id, with_state, first_queued, claim_next_queued_job, recover_rows,
  recover_running_jobs,
}
use debian_download_manager.ResumeDb.Read.{find}
use debian_download_manager.ResumeDb.Rows.{
  IsValid, Grows, claim-IsValid, find-update_where_id, id-with_state, claim-none, claim-some,
}

pub filter_by : (Row → Bool) → List Row → List Row
filter_by p [] = []
filter_by p (r ∷ rows) = let rest = filter_by p rows in if p r then r ∷ rest else rest

abbrev pub IsQueued : Row → Type 0
IsQueued r = text_eq r.state (codes "queued") ≡ true

-- No queued row has a smaller id.
abbrev pub NoneBefore : ℕ → List Row → Type 0
NoneBefore id = All (λ r. IsQueued r → id ≤ r.id)

first_queued-none : (rows : List Row) → first_queued rows ≡ none → All (λ r. ¬ IsQueued r) rows
unfolding first_queued
first_queued-none [] e = tt
first_queued-none (r ∷ rows) e = elim (Bool-cases (text_eq r.state (codes "queued"))) [
  | inl h ↦ absurd (cc (rw (h, first_queued) at e))
  | inr h ↦ (λ q. cc, first_queued-none rows (rw (h, first_queued) at e))
]

NoneBefore-le : (a b : ℕ) (rows : List Row) → a ≤ b → NoneBefore b rows → NoneBefore a rows
NoneBefore-le a b [] h n = tt
NoneBefore-le a b (r ∷ rows) h n =
    ((λ q. let k = n.0 q in omega arith), NoneBefore-le a b rows h n.1)

NoneBefore-empty : (a : ℕ) (rows : List Row) → All (λ r. ¬ IsQueued r) rows → NoneBefore a rows
NoneBefore-empty a [] h = tt
NoneBefore-empty a (r ∷ rows) h = ((λ q. absurd (h.0 q)), NoneBefore-empty a rows h.1)

-- What the query for the next job finds.
first_queued-some :
    (lo hi : ℕ) (rows : List Row) (id : ℕ)
    → Grows lo rows hi
    → first_queued rows ≡ some id
    → ((r : Row) × (find id rows ≡ some r) × IsQueued r) × NoneBefore id rows × (lo < id)
unfolding first_queued find
first_queued-some lo hi [] id g e = absurd (cc e)
first_queued-some lo hi (r ∷ rows) id g e = elim (Bool-cases (text_eq r.state (codes "queued"))) [
  | inl q ↦ elim (Option-cases (first_queued rows)) [
    | inl none_left ↦
        let same : r.id ≡ id = ground (arith, e, q, none_left) in
        (
          (r, ground arith, q),
          (λ _. omega arith, NoneBefore-empty id rows (first_queued-none rows none_left)),
          omega arith,
        )
    | inr (m, later) ↦
        let (found, before, above) = first_queued-some r.id hi rows m g.1 later in
        let same : r.id ≡ id = ground (arith, e, q, later) in
        (
          (r, ground arith, q),
          (λ _. omega arith, NoneBefore-le id m rows (omega arith) before),
          omega arith,
        )
  ]
  | inr not_q ↦
      let later : first_queued rows ≡ some id = ground (arith, e, not_q) in
      let ((s, at, q), before, above) = first_queued-some r.id hi rows id g.1 later in
      ((s, ground (arith, at), q), (λ q'. cc, before), omega arith)
]

-- What `claim_next_queued_job` does. If it returns no job, no job is queued and the table is as it
-- was. If it returns an id, the row of that id was queued, no queued row has a smaller id, that row
-- is now running, and the row of every other id is as it was.
abbrev pub Claims : ℕ → ResumeDb → Type 0
Claims now db =
    ((claim_next_queued_job now db ≡ (db, none)) × All (λ r. ¬ IsQueued r) db.rows)
    ⊎ ((id : ℕ) × (r : Row) × (db' : ResumeDb) × (claim_next_queued_job now db ≡ (db', some id))
        × (find id db.rows ≡ some r)
        × IsQueued r
        × NoneBefore id db.rows
        × (find id db'.rows ≡ some (with_state now running r))
        × ((j : ℕ) → id ≢ j → find j db'.rows ≡ find j db.rows))

other_row :
    (now id j : ℕ) (rows : List Row)
    → id ≢ j
    → find j (update_where_id id (with_state now running) rows) ≡ find j rows
other_row now id j rows h = elim (Bool-cases (id == j)) [
  | inl same ↦ absurd (h (==→eq id j same))
  | inr differ ↦
      find-update_where_id id j (with_state now running) rows (id-with_state now running)
      ∙ rw differ
]

claimed_row :
    (now id : ℕ) (rows : List Row) (r : Row)
    → find id rows ≡ some r
    → find id (update_where_id id (with_state now running) rows) ≡ some (with_state now running r)
claimed_row now id rows r e =
    find-update_where_id id id (with_state now running) rows (id-with_state now running)
    ∙ rw (==-self id, e)

-- A claim in a table with distinct ids either finds the queue empty and changes nothing, or sets
-- exactly the queued job with the smallest id to running.
pub claim_next_queued_job-Claims : (now : ℕ) (db : ResumeDb) → IsValid db → Claims now db
claim_next_queued_job-Claims now db v = elim (Option-cases (first_queued db.rows)) [
  | inl e ↦ inl (claim-none now db e, first_queued-none db.rows e)
  | inr (id, e) ↦
      let ((r, at, q), before, above) = first_queued-some 0 db.seq db.rows id v e in
      inr (
        id,
        r,
        record db { rows = update_where_id id (with_state now running) db.rows },
        claim-some now db id e,
        at,
        q,
        before,
        claimed_row now id db.rows r at,
        λ j h. other_row now id j db.rows h,
      )
]

not_running : (now : ℕ) (r : Row) → ¬ IsQueued (with_state now running r)
unfolding with_state as_str text_eq
not_running now r q = cc

pub claim-found :
    (now id : ℕ) (db db' : ResumeDb)
    → IsValid db
    → claim_next_queued_job now db ≡ (db', some id)
    → (r : Row) × (find id db.rows ≡ some r)
      × IsQueued r
      × (find id db'.rows ≡ some (with_state now running r))
claim-found now id db db' v e = elim (claim_next_queued_job-Claims now db v) [
  | inl (idle, _) ↦ absurd (cc (ap (λ (x : ResumeDb × Option ℕ). x.1) (sym idle ∙ e)))
  | inr (a, r, d, claims, at, q, _, now_running, _) ↦
      let here : a ≡ id =
        some-injective _ _ (ap (λ (x : ResumeDb × Option ℕ). x.1) (sym claims ∙ e)) in
      let after : d ≡ db' = ap (λ (x : ResumeDb × Option ℕ). x.0) (sym claims ∙ e) in
      (r, cc (at), q, cc (now_running, ap (λ (x : ResumeDb). x.rows) after))
]

-- Two claims in a row never return the same job.
claims_differ :
    (now later : ℕ) (db db' db'' : ResumeDb) (a b : ℕ)
    → IsValid db
    → claim_next_queued_job now db ≡ (db', some a)
    → claim_next_queued_job later db' ≡ (db'', some b)
    → a ≢ b
claims_differ now later db db' db'' a b v e f same =
    let v' : IsValid db' =
      subst IsValid (ap (λ (x : ResumeDb × Option ℕ). x.0) e) (claim-IsValid now db v) in
    let (r, _, _, now_running) = claim-found now a db db' v e in
    let (s, at, q, _) = claim-found later b db' db'' v' f in
    let one : with_state now running r ≡ s =
      some-injective _ _ (sym now_running ∙ ap (λ i. find i db'.rows) same ∙ at) in
    not_running now r (subst IsQueued (sym one) q)

abbrev pub is_running : Row → Bool
is_running r = text_eq r.state (codes "running")

-- A row after the recovery of jobs that were left running.
abbrev pub recovered : ℕ → Row → Row
recovered now r = if text_eq r.state (codes "running") then with_state now queued r else r

no_longer_running : (now : ℕ) (r : Row) → is_running (recovered now r) ≡ false
unfolding with_state as_str text_eq
no_longer_running now r = elim (Bool-cases (is_running r)) [ inl h ↦ rw h | inr h ↦ rw h h ]

recover_rows-map :
    (now : ℕ) (rows : List Row)
    → ((recover_rows now rows).0 ≡ map (recovered now) rows)
      × ((recover_rows now rows).1 ≡ length (filter_by is_running rows))
      × All (λ r. is_running r ≡ false) (recover_rows now rows).0
unfolding recover_rows filter_by
recover_rows-map now [] = (refl, refl, tt)
recover_rows-map now (r ∷ rows) =
    let (same, counted, none_left) = recover_rows-map now rows in
    let head = no_longer_running now r in (ground arith, ground arith, ground arith)

-- Recovery sets every running job to queued, leaves every other job as it was, returns how many it
-- reset, and leaves no job running.
pub recover_running_jobs_lem :
    (now : ℕ) (db : ResumeDb)
    → ((recover_running_jobs now db).0.rows ≡ map (recovered now) db.rows)
      × ((recover_running_jobs now db).1 ≡ length (filter_by is_running db.rows))
      × All (λ r. text_eq r.state (codes "running") ≡ false) (recover_running_jobs now db).0.rows
unfolding recover_running_jobs
recover_running_jobs_lem now db = recover_rows-map now db.rows
