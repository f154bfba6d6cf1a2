-- ===== src/Lib.antt =====
-- Verification of the Debian Download Manager's core, crates/ddm-core.
--
-- A download is cut into segments, each fetched by a ranged request and written to its place in
-- one file; a bitmap says which segments are completed and is stored with the job in a SQLite
-- table, so that an interrupted job can go on where it stopped, if the remote file has not
-- changed. How many segments a job gets follows from the configuration and from what is known of
-- its host; how many connections the jobs open together is limited by a shared budget.
--
-- The parts, by the paths below crates/ddm-core/src:
--   segmenter/range.rs: Segmenter.Range, `plan_segments`; its loop is `plan_loop`.
--   segmenter/bitmap.rs: Segmenter.Bitmap, the bitmap as the bytes of its vector.
--   retry: Retry.Classify (`classify`), Retry.Policy (`decide`), Retry.Run (`run_with_retry`).
--   host_policy: HostPolicy.Key (`HostKey`), HostPolicy.State (`HostPolicy`, whose calls
--     `record_job_outcome` and so on look the key up and change one entry), HostPolicy.Snapshot
--     (`to_snapshot`, `from_snapshot`).
--   resume_db: ResumeDb.Types, ResumeDb.Jobs (the statements that change the table), ResumeDb.Read.
--   fetch_head: FetchHead.Parse (`parse_headers`), FetchHead.Probe (`probe_best_effort`).
--   safe_resume: SafeResume (`validate_for_resume`).
--   scheduler/budget.rs and execute/guard.rs: Scheduler.Budget, and Scheduler.Budget.Threads for
--     the loops on the atomic counter under every interleaving of threads.
--   scheduler/execute and scheduler/progress.rs: Scheduler.Execute (`execute_download_phase`,
--     `finish_after_download`, `progress_stats`). scheduler/run: Scheduler.RunJob (`run_one_job`, which
--     is `run_one_job_shared` too, `resolve_filenames`, `run_single_stream`). scheduler/parallel.rs:
--     Scheduler.Parallel, the loop of `run_jobs_parallel` and its jobs as interleaved steps.
--   scheduler/choose.rs and the limits of execute/setup.rs and run_download.rs: Scheduler.Choose.
--   downloader/segment.rs: Downloader.Headers (`parse_content_range`), Downloader.Segment
--     (`download_one_segment`, whose callbacks are `on_header` and `on_body`).
--   downloader/multi/handler.rs and result.rs: Downloader.Handler.
--   downloader/run.rs: Downloader.Pool, the workers and the receiving loop of `run_concurrent` as
--     interleaved steps. downloader/run/unbounded.rs: Downloader.Unbounded (`run_unbounded`,
--     `download_segments` without a maximum). downloader/multi: Downloader.Multi (`run_multi`,
--     `refill_active`, `download_segments_multi`). Downloader.Tally is what the three do alike.
--   control.rs: Control, the registry of the running jobs with its abort tokens.
--   Downloader.Pool.Content: the pool with the file that its workers write to.
--   Downloader.Whole: the plan, the transfers and the bitmap together.
--   storage/writer.rs: Downloader.File, `write_at` on a file that is the byte at each offset.
--   url_model: UrlModel.Unique (`unique_filename_among`), UrlModel.Sanitize
--     (`sanitize_filename_for_linux`), UrlModel.Disposition
--     (`parse_content_disposition_filename`), UrlModel.Derive (`derive_filename`).
-- Prelude holds what the parts share: lists, bits, results, text and maps. Examples applies the
-- theorems at concrete inputs.
--
-- Numbers are natural numbers with the saturation and the wrap-around of the machine types written
-- out; a duration is its nanoseconds; text is a list of code points; a hash map is an association
-- list, so that its order is that of insertion. An i64 column holds the 64 bits of its value. The
-- retry loop runs on fuel, `max_attempts` of it or 1, which is enough since the policy refuses the
-- last attempt; the search for a free file name has one round more than there are names. The loop
-- of the multi backend takes one round from a list at a time; a list that is used up before the
-- loop ends is a result of its own. The workers' steps need no bound: each lowers a cost.
--
-- Parameters stand for code that is not in the repository: the tests on a curl error (Curl), the
-- url crate (UrlCrate), serde_json (Json), floating point numbers (Floats) and the transfers of
-- libcurl (Transport for the probes; Exchange for a segment, with the calls of the callbacks and
-- the result of each write to the file). What the probe, the files and the download answer to the
-- run of a job is given (Answers). SQLite is taken to run each statement, and each transaction, as
-- one step.
--
-- Not modelled: the transfer of a single stream (downloader/single.rs), the opening and renaming
-- of files (storage) and the options of the transfers. Nor are the command line, the configuration
-- file, logging, checksums, benchmarks and the import of HAR files, which are input and output
-- around the core.
pub mod Prelude
pub mod Segmenter
pub mod Retry
pub mod HostPolicy
pub mod ResumeDb
pub mod FetchHead
pub mod SafeResume
pub mod Scheduler
pub mod Downloader
pub mod UrlModel
pub mod Control
pub mod Examples
