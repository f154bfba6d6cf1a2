-- ===== src/Examples/Jobs.antt =====
-- A table of two queued jobs.
use debian_download_manager.Prelude.{
  ℕ, ◌≡◌, ◌≢◌, none, refl, [], ◌∷◌, map, some, none, false, length, All, arith,
}
use debian_download_manager.Prelude.Result.{ok}
use debian_download_manager.Prelude.Text.{codes, text_eq}
use debian_download_manager.ResumeDb.Types.{running, as_str, default_settings}
use debian_download_manager.ResumeDb.Jobs.{
  Json, ResumeDb, new_row, add_job, recover_running_jobs, recover_rows, set_state, update_where_id,
  with_state,
}
use debian_download_manager.ResumeDb.Read.{get_job}
use debian_download_manager.ResumeDb.Rows.{IsValid}
use debian_download_manager.ResumeDb.Added.{added, get_job-add_job}
use debian_download_manager.ResumeDb.Queue.{
  Claims, claim_next_queued_job-Claims, recovered, filter_by, is_running, recover_running_jobs_lem,
}

abbrev pub two_jobs : ResumeDb
two_jobs = record {
  rows =
      new_row 3 10 (codes "https://a/x") (codes "{}")
      ∷ new_row 7 11 (codes "https://b/y") (codes "{}")
      ∷ [];
  seq = 8;
}

pub two_jobs-IsValid : IsValid two_jobs
unfolding new_row
two_jobs-IsValid = (omega arith, (omega arith, omega arith))

claim_next_queued_job-Claims_example : Claims 20 two_jobs
claim_next_queued_job-Claims_example = claim_next_queued_job-Claims 20 two_jobs two_jobs-IsValid

abbrev pub braces : Json
braces = record { to_string = λ s. some (codes "{}"); from_str = λ t. some default_settings }

get_job-add_job_example :
    (db' : ResumeDb) × (id : ℕ) × (add_job braces 40 (codes "https://c/z") default_settings two_jobs
      ≡ ok (db', id))
    × (get_job braces id two_jobs ≡ ok none)
    × (get_job braces id db' ≡ ok (some (added id 40 (codes "https://c/z") default_settings)))
    × ((j : ℕ) → id ≢ j → get_job braces j db' ≡ get_job braces j two_jobs)
    × IsValid db'
get_job-add_job_example =
    get_job-add_job braces 40 (codes "https://c/z") (codes "{}") default_settings two_jobs
      two_jobs-IsValid refl refl refl

abbrev one_running : ResumeDb
one_running = set_state 20 3 running two_jobs

recover_running_jobs_lem_example :
    ((recover_running_jobs 50 one_running).0.rows ≡ map (recovered 50) one_running.rows)
    × ((recover_running_jobs 50 one_running).1 ≡ length (filter_by is_running one_running.rows))
    × All
        (λ r. text_eq r.state (codes "running") ≡ false)
        (recover_running_jobs 50 one_running).0.rows
recover_running_jobs_lem_example = recover_running_jobs_lem 50 one_running

recovered_one : (recover_running_jobs 50 one_running).1 ≡ 1
unfolding recover_running_jobs recover_rows set_state update_where_id with_state as_str text_eq
    new_row
recovered_one = refl
