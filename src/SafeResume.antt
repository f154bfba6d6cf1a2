-- ===== src/SafeResume.antt =====
-- crates/ddm-core/src/safe_resume: may a job go on with what it has downloaded?
pub mod Laws
use debian_download_manager.Prelude.{
  ℕ, Bool, true, false, not, ◌||◌, Option, none, some, ◌==◌, if◌then◌else◌,
}
use debian_download_manager.Prelude.Result.{Result, ok, err}
use debian_download_manager.Prelude.Text.{Text, text_eq}
use debian_download_manager.FetchHead.Parse.{HeadResult}
use debian_download_manager.ResumeDb.Types.{JobDetails}

-- `ValidationError` with its one kind, `RemoteChanged`.
pub record RemoteChanged : Type 0 where
  pub etag_changed : Bool
  pub last_modified_changed : Bool
  pub size_changed : Bool

abbrev pub is_some : {A : Type 0} → Option A → Bool
is_some none = false
is_some (some a) = true

unfoldable pub differs : {A : Type 0} → (A → A → Bool) → Option A → Option A → Bool
differs eq none none = false
differs eq (some a) (some b) = not (eq a b)
differs eq none (some b) = true
differs eq (some a) none = true

unfoldable pub has_stored : JobDetails → Bool
has_stored job = is_some job.total_size || is_some job.etag || is_some job.last_modified

unfoldable pub changes : JobDetails → HeadResult → RemoteChanged
changes job head = record {
  etag_changed = differs text_eq job.etag head.etag;
  last_modified_changed = differs text_eq job.last_modified head.last_modified;
  size_changed = differs (λ a b. a == b) job.total_size head.content_length;
}

unfoldable pub any_changed : RemoteChanged → Bool
any_changed c = c.etag_changed || c.last_modified_changed || c.size_changed

unfoldable pub validate_for_resume : JobDetails → HeadResult → Result RemoteChanged Unit
validate_for_resume job head =
    if not (has_stored job)
    then ok tt
    else if any_changed (changes job head)
    then err (changes job head)
    else ok tt
