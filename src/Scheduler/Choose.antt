-- ===== src/Scheduler/Choose.antt =====
-- crates/ddm-core/src/scheduler/choose.rs, with the fields of `DdmConfig` (crates/ddm-core/src/config.rs)
-- that the scheduler reads, and the connection limits of scheduler/execute/setup.rs.
pub mod Laws
use debian_download_manager.Prelude.{ℕ, ◌≡◌, min, max, ◌==◌, if◌then◌else◌, Option, none, some}
use debian_download_manager.Prelude.Result.{ok, err}
use debian_download_manager.Prelude.Text.{Text}
use debian_download_manager.HostPolicy.Key.{UrlCrate}
use debian_download_manager.HostPolicy.State.{Floats, HostPolicy, adaptive_segment_count_for_url}
use debian_download_manager.Scheduler.Budget.{GlobalConnectionBudget, reserve}

pub record DdmConfig : Type 0 where
  pub max_total_connections : ℕ
  pub max_connections_per_host : ℕ
  pub min_segments : ℕ
  pub max_segments : ℕ

unfoldable pub choose_segment_count :
    {fl : Floats} → UrlCrate → ℕ → DdmConfig → Text → HostPolicy fl → ℕ
choose_segment_count crate total_size cfg url policy =
    let adaptive : ℕ = elim (adaptive_segment_count_for_url crate url policy) [
      | ok count ↦ count
      | err e ↦ min (max cfg.min_segments 1) cfg.max_segments
    ] in
    let n = max (min (max adaptive cfg.min_segments) cfg.max_segments) 1 in
    if total_size == 0 then n else min n total_size

unfoldable pub max_concurrent : DdmConfig → ℕ → ℕ
max_concurrent cfg segment_count =
    min (min cfg.max_connections_per_host cfg.max_total_connections) segment_count

-- What the job reserves of the shared budget, and the number of connections that the download then
-- opens (execute/run_download.rs takes one at least).
unfoldable pub reserve_connections :
    DdmConfig → ℕ → GlobalConnectionBudget → GlobalConnectionBudget × ℕ
reserve_connections cfg segment_count budget = reserve budget (max_concurrent cfg segment_count)

unfoldable pub opened : ℕ → ℕ
opened actual_concurrent = max actual_concurrent 1
