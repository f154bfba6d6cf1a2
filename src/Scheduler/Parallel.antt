-- ===== src/Scheduler/Parallel.antt =====
-- crates/ddm-core/src/scheduler/parallel.rs: `run_jobs_parallel`. The loop and the jobs in flight
-- interleave: each statement of a job on the table and each iteration of the loop is one step. A
-- job writes its own row only, and does not set it to queued (see RunJob); no other process writes
-- to the table during the run. The error of a job or of its join is any value of `E`.
pub mod Table
pub mod Laws
use debian_download_manager.Prelude.{
  ℕ, ◌+◌, ◌<◌, ◌≤◌, ◌≡◌, ◌≢◌, max, List, [], ◌∷◌, ◌++◌, none, some, length, get_elem?,
}
use debian_download_manager.Prelude.Result.{Result, ok, err}
use debian_download_manager.HostPolicy.State.{Floats, HostPolicy, new}
use debian_download_manager.ResumeDb.Types.{JobState, queued, JobMetadata}
use debian_download_manager.ResumeDb.Jobs.{
  ResumeDb, claim_next_queued_job, update_metadata, update_bitmap, set_state,
}
use debian_download_manager.Scheduler.Choose.{DdmConfig}
use debian_download_manager.Downloader.Multi.{remove_at}

-- A statement of the job `id`.
pub data Statement (id : ℕ) (db : ResumeDb) : ResumeDb → Type 0 where
  metadata : (now : ℕ) (meta : JobMetadata) → Statement id db (update_metadata now id meta db)
  bitmap : (now : ℕ) (bits : List ℕ) → Statement id db (update_bitmap now id bits db)
  state : (now : ℕ) (s : JobState) → s ≢ queued → Statement id db (set_state now id s db)

module _ (fl : Floats) (E : Type 0) where
  -- The inner loop that claims jobs, the wait for a job to end, and the return.
  pub data Phase : Type 0 where
    filling joining : Phase
    returned : Result E ℕ → Phase

  pub record Jobs : Type 0 where
    pub db : ResumeDb
    pub join_set : List ℕ
    pub run_count : ℕ
    pub phase : Phase
    pub shared_policy : HostPolicy fl
    pub host_policy : HostPolicy fl

module _ {fl : Floats} {E : Type 0} where
  abbrev pub run_jobs_parallel : DdmConfig → HostPolicy fl → ResumeDb → Jobs fl E
  run_jobs_parallel cfg host_policy db = record {
    db = db;
    join_set = [];
    run_count = 0;
    phase = filling;
    shared_policy = host_policy;
    host_policy = new cfg.min_segments cfg.max_segments;
  }

  -- An error leaves the function at once, which drops the set and with it aborts the jobs in it.
  abbrev pub fail : E → Jobs fl E → Jobs fl E
  fail e s = record s { join_set = []; phase = returned (err e) }

  abbrev pub succeed : Jobs fl E → Jobs fl E
  succeed s = record s { phase = returned (ok s.run_count); host_policy = s.shared_policy }

  pub data Step (max_concurrent : ℕ) (s : Jobs fl E) : Jobs fl E → Type 0 where
    claims :
        (now : ℕ) {db : ResumeDb} {id : ℕ}
        → s.phase ≡ filling
        → length s.join_set < max max_concurrent 1
        → claim_next_queued_job now s.db ≡ (db, some id)
        → Step max_concurrent s (record s { db = db; join_set = s.join_set ++ id ∷ [] })
    finds_none :
        (now : ℕ) {db : ResumeDb}
        → s.phase ≡ filling
        → length s.join_set < max max_concurrent 1
        → claim_next_queued_job now s.db ≡ (db, none)
        → Step max_concurrent s (record s { db = db; phase = joining })
    cannot_claim :
        (e : E)
        → s.phase ≡ filling
        → length s.join_set < max max_concurrent 1
        → Step max_concurrent s (fail e s)
    is_full :
        s.phase ≡ filling
        → max max_concurrent 1 ≤ length s.join_set
        → Step max_concurrent s (record s { phase = joining })
    is_empty : s.phase ≡ joining → s.join_set ≡ [] → Step max_concurrent s (succeed s)
    joins :
        (i : ℕ) {id : ℕ} {rest : List ℕ}
        → s.phase ≡ joining
        → remove_at i s.join_set ≡ some (id, rest)
        → Step max_concurrent s
            (record s { join_set = rest; run_count = s.run_count + 1; phase = filling })
    joins_failed :
        (i : ℕ) (e : E) {id : ℕ} {rest : List ℕ}
        → s.phase ≡ joining
        → remove_at i s.join_set ≡ some (id, rest)
        → Step max_concurrent s (fail e (record s { run_count = s.run_count + 1 }))
    -- a job in flight
    writes :
        (i : ℕ) {id : ℕ} {db : ResumeDb}
        → get_elem? s.join_set i ≡ some id
        → Statement id s.db db
        → Step max_concurrent s (record s { db = db })
    learns :
        (i : ℕ) {id : ℕ} (policy : HostPolicy fl)
        → get_elem? s.join_set i ≡ some id
        → Step max_concurrent s (record s { shared_policy = policy })

  pub data Reach (max_concurrent : ℕ) (s : Jobs fl E) : Jobs fl E → Type 0 where
    here : Reach max_concurrent s s
    next :
        {t u : Jobs fl E}
        → Reach max_concurrent s t
        → Step max_concurrent t u
        → Reach max_concurrent s u
