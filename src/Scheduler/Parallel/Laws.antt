-- ===== src/Scheduler/Parallel/Laws.antt =====
-- Which jobs run side by side, and what a run of the queue leaves.
use debian_download_manager.Prelude.{
  ℕ, ◌+◌, ◌<◌, ◌≤◌, ◌≡◌, ◌≢◌, refl, sym, ap, subst, ◌∙◌, ◌⊎◌, inl, inr, max, List, [], ◌∷◌, ◌++◌,
  Option, some, none, arith, length, get_elem?, length-append, All, All-append,
}
use debian_download_manager.Prelude.Result.{ok, err}
use debian_download_manager.ResumeDb.Types.{running}
use debian_download_manager.ResumeDb.Jobs.{Row, ResumeDb, claim_next_queued_job, set_state}
use debian_download_manager.ResumeDb.Rows.{IsValid, claim-IsValid}
use debian_download_manager.ResumeDb.Queue.{IsQueued, claim_next_queued_job-Claims, claim-found}
use debian_download_manager.HostPolicy.State.{Floats, HostPolicy, new}
use debian_download_manager.Scheduler.Choose.{DdmConfig}
use debian_download_manager.Downloader.Multi.Places.{remove_at-total}
use debian_download_manager.Scheduler.Parallel.{
  Phase, filling, joining, returned, Jobs, run_jobs_parallel, fail, Step, claims, finds_none,
  cannot_claim, is_full, is_empty, joins, joins_failed, writes, learns, Reach, here, next,
}
use debian_download_manager.Scheduler.Parallel.Table.{
  AreDistinct, AreDistinct-append, remove_at-All, remove_at-AreDistinct, Quiet, NoneQueued, IsIdle,
  Statement-Quiet, Statement-IsValid, claim-set_state, set_state-Quiet, set_running-IsIdle,
  find-IsIdle, running_is, All-weaken,
}

All-quiet : (rows : List Row) → All (λ r. ¬ IsQueued r) rows → NoneQueued rows
All-quiet [] h = tt
All-quiet (r ∷ rows) h = ((λ _. h.0), All-quiet rows h.1)

claim-nothing :
    (now : ℕ) (db db' : ResumeDb)
    → IsValid db
    → claim_next_queued_job now db ≡ (db', none)
    → (db' ≡ db) × NoneQueued db.rows
claim-nothing now db db' v e = elim (claim_next_queued_job-Claims now db v) [
  | inl (idle, nothing) ↦
      (ap (λ (x : ResumeDb × Option ℕ). x.0) (sym e ∙ idle), All-quiet db.rows nothing)
  | inr (a, r, d, some_id, _, _, _, _, _) ↦
      absurd (cc (ap (λ (x : ResumeDb × Option ℕ). x.1) (sym some_id ∙ e)))
]

module _ {fl : Floats} {E : Type 0} (cfg : DdmConfig) (max_concurrent : ℕ) where
  -- What is known at a phase of the loop.
  abbrev At : Phase fl E → Jobs fl E → Type 0
  At filling s = Unit
  At joining s = (max max_concurrent 1 ≤ length s.join_set) ⊎ NoneQueued s.db.rows
  At (returned (ok n)) s =
      (s.join_set ≡ []) × NoneQueued s.db.rows × (s.host_policy ≡ s.shared_policy)
  At (returned (err e)) s = s.join_set ≡ []

  record Inv (s : Jobs fl E) : Type 0 where
    valid : IsValid s.db
    bounded : length s.join_set ≤ max max_concurrent 1
    distinct : AreDistinct s.join_set
    idle : All (IsIdle s.db.rows) s.join_set
    at : At s.phase s

  -- The table changes, and no id in flight is queued by it.
  At-quiet :
      (p : Phase fl E) (s : Jobs fl E) (db : ResumeDb)
      → (NoneQueued s.db.rows → NoneQueued db.rows)
      → At p s
      → At p (record s { db = db })
  At-quiet filling s db q h = tt
  At-quiet joining s db q (inl full) = inl full
  At-quiet joining s db q (inr none_left) = inr (q none_left)
  At-quiet (returned (ok n)) s db q h = (h.0, q h.1, h.2)
  At-quiet (returned (err e)) s db q h = h

  At-learns :
      (p : Phase fl E) (s : Jobs fl E) (policy : HostPolicy fl) (i : ℕ) {id : ℕ}
      → get_elem? s.join_set i ≡ some id
      → At p s
      → At p (record s { shared_policy = policy })
  At-learns filling s policy i e h = tt
  At-learns joining s policy i e h = h
  At-learns (returned (ok n)) s policy i e h = absurd (cc (rw h.0 at e))
  At-learns (returned (err r)) s policy i e h = h

  claimed :
      (now : ℕ) (s : Jobs fl E) (db : ResumeDb) (id : ℕ)
      → length s.join_set < max max_concurrent 1
      → claim_next_queued_job now s.db ≡ (db, some id)
      → s.phase ≡ filling
      → Inv s
      → Inv (record s { db = db; join_set = s.join_set ++ id ∷ [] })
  unfolding set_state
  claimed now s db id below e at_filling v =
      let same = claim-set_state now s.db db id e in
      let (r, found, is_queued, _) = claim-found now id s.db db v.valid e in
      let quiet = λ (C : ℕ → Type 0) (h : Quiet C s.db.rows).
        subst (λ (d : ResumeDb). Quiet C d.rows) same
          (set_state-Quiet C now id running s.db running_is h) in
      let others : All (λ j. j ≢ id) s.join_set =
        All-weaken (IsIdle s.db.rows) (λ j. j ≢ id) s.join_set
          (λ j h eq. find-IsIdle id s.db.rows (subst (IsIdle s.db.rows) eq h) found is_queued)
          v.idle in
      record {
        valid =
            subst IsValid (ap (λ (x : ResumeDb × Option ℕ). x.0) e)
              (claim-IsValid now s.db v.valid);
        bounded = omega (arith, length-append s.join_set (id ∷ []));
        distinct = AreDistinct-append s.join_set id others v.distinct;
        idle =
            All-append (IsIdle db.rows) s.join_set (id ∷ [])
              (All-weaken (IsIdle s.db.rows) (IsIdle db.rows) s.join_set (λ j. quiet (λ i. i ≡ j))
                v.idle)
              (
                subst (λ (d : ResumeDb). IsIdle d.rows id) same
                    (set_running-IsIdle now id s.db.rows),
                tt,
              );
        at =
            subst (λ p. At p (record s { db = db; join_set = s.join_set ++ id ∷ [] }))
              (sym at_filling) tt;
      }

  -- An error leaves no job in flight.
  failed : (e : E) (s : Jobs fl E) → Inv s → Inv (fail e s)
  failed e s v = record {
    valid = v.valid;
    bounded = omega arith;
    distinct = tt;
    idle = tt;
    at = refl;
  }

  Step-Inv : {s t : Jobs fl E} → Step max_concurrent s t → Inv s → Inv t
  Step-Inv {s} (claims now {db} {id} p below e) v = claimed now s db id below e p v
  Step-Inv {s} (finds_none now {db} p below e) v =
      let (same, none_left) = claim-nothing now s.db db v.valid e in
      record {
        valid = subst IsValid (sym same) v.valid;
        bounded = v.bounded;
        distinct = v.distinct;
        idle = subst (λ (d : ResumeDb). All (IsIdle d.rows) s.join_set) (sym same) v.idle;
        at = inr (subst (λ (d : ResumeDb). NoneQueued d.rows) (sym same) none_left);
      }
  Step-Inv {s} (cannot_claim e p below) v = failed e s v
  Step-Inv {s} (is_full p full) v = record {
    valid = v.valid;
    bounded = v.bounded;
    distinct = v.distinct;
    idle = v.idle;
    at = inl full;
  }
  Step-Inv {s} (is_empty p empty) v = record {
    valid = v.valid;
    bounded = v.bounded;
    distinct = v.distinct;
    idle = v.idle;
    at = elim (subst (λ q. At q s) p v.at) [
      | inl full ↦ absurd (omega (arith, full, ap (λ (xs : List ℕ). length xs) empty))
      | inr none_left ↦ (empty, none_left, refl)
    ];
  }
  Step-Inv {s} (joins i {id} {rest} p e) v = record {
    valid = v.valid;
    bounded = omega (arith, v.bounded, (remove_at-total (λ x. x) i s.join_set e).1);
    distinct = remove_at-AreDistinct i s.join_set e v.distinct;
    idle = remove_at-All (IsIdle s.db.rows) i s.join_set e v.idle;
    at = tt;
  }
  Step-Inv {s} (joins_failed i e p found) v =
      failed e (record s { run_count = s.run_count + 1 })
        (record {
          valid = v.valid;
          bounded = v.bounded;
          distinct = v.distinct;
          idle = v.idle;
          at =
              subst (λ q. At q (record s { run_count = s.run_count + 1 })) (sym p)
                (subst (λ q. At q s) p v.at);
        })
  Step-Inv {s} (writes i {id} {db} e w) v = record {
    valid = Statement-IsValid id w v.valid;
    bounded = v.bounded;
    distinct = v.distinct;
    idle =
        All-weaken (IsIdle s.db.rows) (IsIdle db.rows) s.join_set
          (λ j. Statement-Quiet (λ i. i ≡ j) id w) v.idle;
    at = At-quiet s.phase s db (Statement-Quiet (λ i. Unit) id w) v.at;
  }
  Step-Inv {s} (learns i policy e) v = record {
    valid = v.valid;
    bounded = v.bounded;
    distinct = v.distinct;
    idle = v.idle;
    at = At-learns s.phase s policy i e v.at;
  }

  Reach-Inv : {s t : Jobs fl E} → Inv s → Reach max_concurrent s t → Inv t
  Reach-Inv v here = v
  Reach-Inv v (next before last) = Step-Inv last (Reach-Inv v before)

  begun :
      (policy : HostPolicy fl) (db : ResumeDb) → IsValid db → Inv (run_jobs_parallel cfg policy db)
  begun policy db v = record { valid = v; bounded = omega arith; distinct = tt; idle = tt; at = tt }

  -- In a table with distinct ids, and however the jobs and the loop interleave: at every moment no
  -- more jobs are in flight than the maximum, counted as 1 at least, no job is in flight twice, and
  -- none that is in flight is queued, so that no one else can claim it.
  pub run_jobs_parallel-IsSound :
      (policy : HostPolicy fl) (db : ResumeDb) {s : Jobs fl E}
      → IsValid db
      → Reach max_concurrent (run_jobs_parallel cfg policy db) s
      → (length s.join_set ≤ max max_concurrent 1)
        × AreDistinct s.join_set
        × All (IsIdle s.db.rows) s.join_set
  run_jobs_parallel-IsSound policy db v run =
      let w = Reach-Inv (begun policy db v) run in (w.bounded, w.distinct, w.idle)

  -- In a table with distinct ids: if the run returns without an error, then no job is in flight, no
  -- job of the table is queued, and the caller has the host policy that the jobs shared.
  pub run_jobs_parallel-ok :
      (policy : HostPolicy fl) (db : ResumeDb) {s : Jobs fl E} {n : ℕ}
      → IsValid db
      → Reach max_concurrent (run_jobs_parallel cfg policy db) s
      → s.phase ≡ returned (ok n)
      → (s.join_set ≡ []) × NoneQueued s.db.rows × (s.host_policy ≡ s.shared_policy)
  run_jobs_parallel-ok policy db {s} v run e =
      subst (λ p. At p s) e (Reach-Inv (begun policy db v) run).at

  -- While the run has not returned without an error, and so also when it returns an error, the
  -- caller's host policy is the temporary one.
  abbrev Temporary : Phase fl E → HostPolicy fl → Type 0
  Temporary filling p = p ≡ new cfg.min_segments cfg.max_segments
  Temporary joining p = p ≡ new cfg.min_segments cfg.max_segments
  Temporary (returned (err e)) p = p ≡ new cfg.min_segments cfg.max_segments
  Temporary (returned (ok n)) p = Unit

  Step-Temporary :
      {s t : Jobs fl E}
      → Step max_concurrent s t
      → Temporary s.phase s.host_policy
      → Temporary t.phase t.host_policy
  Step-Temporary {s} (claims now p below e) h = h
  Step-Temporary {s} (finds_none now p below e) h = subst (λ q. Temporary q s.host_policy) p h
  Step-Temporary {s} (cannot_claim e p below) h = subst (λ q. Temporary q s.host_policy) p h
  Step-Temporary {s} (is_full p full) h = subst (λ q. Temporary q s.host_policy) p h
  Step-Temporary {s} (is_empty p empty) h = tt
  Step-Temporary {s} (joins i p e) h = subst (λ q. Temporary q s.host_policy) p h
  Step-Temporary {s} (joins_failed i e p found) h = subst (λ q. Temporary q s.host_policy) p h
  Step-Temporary {s} (writes i e w) h = h
  Step-Temporary {s} (learns i policy e) h = h

  Reach-Temporary :
      {s t : Jobs fl E}
      → Reach max_concurrent s t
      → Temporary s.phase s.host_policy
      → Temporary t.phase t.host_policy
  Reach-Temporary here h = h
  Reach-Temporary (next before last) h = Step-Temporary last (Reach-Temporary before h)

  -- If the run returns an error, the caller is left with a new, empty host policy: what was known of
  -- the hosts before the run and what the jobs learned is lost.
  pub run_jobs_parallel-loses_policy :
      (policy : HostPolicy fl) (db : ResumeDb) {s : Jobs fl E} {e : E}
      → Reach max_concurrent (run_jobs_parallel cfg policy db) s
      → s.phase ≡ returned (err e)
      → s.host_policy ≡ new cfg.min_segments cfg.max_segments
  run_jobs_parallel-loses_policy policy db {s} run end =
      subst (λ p. Temporary p s.host_policy) end (Reach-Temporary run refl)
