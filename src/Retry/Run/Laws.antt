-- ===== src/Retry/Run/Laws.antt =====
-- The retry loop of run.rs ends within the attempts of its policy, and returns the result of its
-- last call.
use mathlib.Core.Option.{some-injective}
use native.Mathlib.Nat.{add-zero}
use debian_download_manager.Prelude.{
  ℕ, zero, suc, ◌+◌, ◌-◌, ◌≤◌, ◌<◌, max, ◌≡◌, refl, ◌⊎◌, inl, inr, [], ◌∷◌, Option, some, arith,
  length, get_elem?, subst, sym, Bool-cases, leb→le, leb,
}
use debian_download_manager.Prelude.Result.{ok, err}
use debian_download_manager.Retry.Classify.{Curl, SegmentError, classify}
use debian_download_manager.Retry.Policy.{
  RetryPolicy, RetryDecision, no_retry, retry_after, decide, decide-no_retry,
}
use debian_download_manager.Retry.Run.{
  SegmentResult, Ran, add_sleep, on_error, on_result, run_loop, run_with_retry,
}

pub RetryDecision-cases : (d : RetryDecision) → (d ≡ no_retry) ⊎ ((t : ℕ) × (d ≡ retry_after t))
RetryDecision-cases no_retry = inl refl
RetryDecision-cases (retry_after t) = inr (t, refl)

module _ {c : Curl} {IoError S : Type 0} (p : RetryPolicy)
    (f : S → SegmentResult c IoError × S) where
  -- The closure's state after some calls, and the result of the call after those.
  abbrev pub state_after : ℕ → S → S
  state_after zero s = s
  state_after (suc n) s = state_after n (f s).1

  abbrev pub result_at : ℕ → S → SegmentResult c IoError
  result_at n s = (f (state_after n s)).0

  -- Attempt `a` gave an error that the policy retries after `d`.
  abbrev pub Retried : ℕ → SegmentResult c IoError → ℕ → Type 0
  Retried a r d =
      (e : SegmentError c IoError) × (r ≡ err e) × (decide p a (classify e) ≡ retry_after d)

  -- Attempt `a` succeeded, or gave an error that the policy does not retry.
  abbrev pub Final : ℕ → SegmentResult c IoError → Type 0
  Final a r =
      (r ≡ ok tt)
      ⊎ ((e : SegmentError c IoError) × (r ≡ err e) × (decide p a (classify e) ≡ no_retry))

  -- The loop, started at attempt `a`, made one call for each sleep and one more.
  pub record Runs (a : ℕ) (s : S) (r : Ran c IoError S) : Type 0 where
    pub result : r.result ≡ result_at (length r.slept) s
    pub state : r.state ≡ state_after (suc (length r.slept)) s
    pub final : Final (a + length r.slept) r.result
    pub retried : (i d : ℕ) → get_elem? r.slept i ≡ some d → Retried (a + i) (result_at i s) d

  -- A call that ends the loop.
  Runs-last :
      (a : ℕ) (s : S) (r : SegmentResult c IoError)
      → (f s).0 ≡ r
      → Final a r
      → Runs a s (record { result = r; state = (f s).1; slept = [] })
  Runs-last a s r e final = record {
    result = sym e;
    state = refl;
    final = simp add-zero final;
    retried = λ i d e. absurd (cc e);
  }

  -- A call that is retried, before a run from the next attempt.
  Runs-retry :
      (a d : ℕ) (s : S) (r : Ran c IoError S)
      → Retried a (f s).0 d
      → Runs (a + 1) (f s).1 r
      → Runs a s (add_sleep d r)
  unfolding add_sleep
  Runs-retry a d s r first rest = record {
    result = rest.result;
    state = rest.state;
    final = subst (λ n. Final n r.result) (omega arith) rest.final;
    retried = earlier;
  }
    where
      earlier : (i t : ℕ) → get_elem? (d ∷ r.slept) i ≡ some t → Retried (a + i) (result_at i s) t
      earlier zero t e =
          subst (λ x. Retried (a + 0) (f s).0 x) (some-injective _ _ e) (simp add-zero first)
      earlier (suc i) t e =
          subst (λ n. Retried n (result_at (suc i) s) t) (omega arith) (rest.retried i t e)

  on_result-last :
      (a : ℕ) (r : SegmentResult c IoError) (s : S) (rest : Option (Ran c IoError S))
      → Final a r
      → on_result p a r s rest ≡ some (record { result = r; state = s; slept = [] })
  unfolding on_result
  on_result-last a (ok tt) s rest h = refl
  on_result-last a (err e) s rest (inl done) = absurd (cc done)
  on_result-last a (err e) s rest (inr (e', same, stop)) =
      let stop' : decide p a (classify e) ≡ no_retry = ground (arith, stop, same) in
      rw (stop', on_error)

  on_result-retry :
      (a d : ℕ) (r : SegmentResult c IoError) (s : S) (ran : Ran c IoError S)
      → Retried a r d
      → on_result p a r s (some ran) ≡ some (add_sleep d ran)
  unfolding on_result
  on_result-retry a d (ok done) s ran (e', same, again) = absurd (cc same)
  on_result-retry a d (err e) s ran (e', same, again) =
      let again' : decide p a (classify e) ≡ retry_after d = ground (arith, again, same) in
      rw (again', on_error)

  -- A call ends the loop or is retried; at the last attempt it ends the loop.
  one_call :
      (a : ℕ) (r : SegmentResult c IoError)
      → Final a r ⊎ ((d : ℕ) × (a < p.max_attempts) × Retried a r d)
  one_call a (ok tt) = inl (inl refl)
  one_call a (err e) = elim (RetryDecision-cases (decide p a (classify e))) [
    | inl stop ↦ inl (inr (e, refl, stop))
    | inr (d, again) ↦ inr (d, early d again, (e, refl, again))
  ]
    where
      early : (d : ℕ) → decide p a (classify e) ≡ retry_after d → a < p.max_attempts
      early d again = elim (Bool-cases (leb p.max_attempts a)) [
        | inl late ↦
            absurd (cc (again, (decide-no_retry p a (classify e)).1 (inl (leb→le _ _ late))))
        | inr h ↦ ground arith
      ]

  last_run :
      (fuel a : ℕ) (s : S)
      → Final a (f s).0
      → (r : Ran c IoError S) × (run_loop (suc fuel) p f a s ≡ some r)
        × (length r.slept ≤ fuel)
        × Runs a s r
  unfolding run_loop
  last_run fuel a s final = (
    record { result = (f s).0; state = (f s).1; slept = [] },
    on_result-last a (f s).0 (f s).1 _ final,
    omega arith,
    Runs-last a s (f s).0 refl final,
  )

  run_loop-retry :
      (fuel a d : ℕ) (s : S) (r : Ran c IoError S)
      → Retried a (f s).0 d
      → run_loop fuel p f (a + 1) (f s).1 ≡ some r
      → run_loop (suc fuel) p f a s ≡ some (add_sleep d r)
  unfolding run_loop
  run_loop-retry fuel a d s r again runs = rw runs (on_result-retry a d (f s).0 (f s).1 r again)

  run_loop-Runs :
      (fuel a : ℕ) (s : S)
      → p.max_attempts ≤ a + fuel
      → (r : Ran c IoError S) × (run_loop (suc fuel) p f a s ≡ some r)
        × (length r.slept ≤ fuel)
        × Runs a s r
  unfolding add_sleep
  run_loop-Runs zero a s h = elim (one_call a (f s).0) [
    | inl final ↦ last_run zero a s final
    | inr (d, early, again) ↦ absurd (omega arith)
  ]
  run_loop-Runs (suc fuel) a s h = elim (one_call a (f s).0) [
    | inl final ↦ last_run (suc fuel) a s final
    | inr (d, early, again) ↦
        let (r, runs, short, rest) = run_loop-Runs fuel (a + 1) (f s).1 (omega arith) in
        (
          add_sleep d r,
          run_loop-retry (suc fuel) a d s r again runs,
          omega arith,
          Runs-retry a d s r again rest,
        )
  ]

  -- The retry loop returns, after at most `max_attempts` calls (one call, if that is 0): it made
  -- one call more than it slept. Its result is that of its last call, which succeeded or gave an
  -- error that the policy does not retry at that attempt. Every earlier call gave an error that
  -- the policy retries at its attempt, after the delay that was slept.
  pub run_with_retry_total :
      (s : S)
      → (r : Ran c IoError S) × (run_with_retry p f s ≡ some r)
        × (length r.slept < max 1 p.max_attempts)
        × Runs 1 s r
  unfolding run_with_retry
  run_with_retry_total s =
      let (r, runs, short, rest) = run_loop-Runs (max 1 p.max_attempts - 1) 1 s (omega arith) in
      let fuel : suc (max 1 p.max_attempts - 1) ≡ max 1 p.max_attempts = omega arith in
      (r, subst (λ n. run_loop n p f 1 s ≡ some r) fuel runs, omega arith, rest)
