-- ===== src/ResumeDb/Types.antt =====
-- crates/ddm-core/src/resume_db/types.rs. An i64 column holds the 64 bits of its value, so that the
-- casts from and to u64 are the identity.
use debian_download_manager.Prelude.{ℕ, ◌≡◌, refl, List, Option, none, if◌then◌else◌}
use debian_download_manager.Prelude.Text.{Text, codes, text_eq}

pub data JobState : Type 0 where
  queued running paused completed error : JobState

unfoldable pub as_str : JobState → Text
as_str queued = codes "queued"
as_str running = codes "running"
as_str paused = codes "paused"
as_str completed = codes "completed"
as_str error = codes "error"

unfoldable pub from_str : Text → JobState
from_str s =
    if text_eq s (codes "queued")
    then queued
    else if text_eq s (codes "running")
    then running
    else if text_eq s (codes "paused")
    then paused
    else if text_eq s (codes "completed")
    then completed
    else error

-- Every state is read back from its text.
pub from_str-as_str : (s : JobState) → from_str (as_str s) ≡ s
unfolding from_str as_str text_eq
from_str-as_str queued = refl
from_str-as_str running = refl
from_str-as_str paused = refl
from_str-as_str completed = refl
from_str-as_str error = refl

pub record JobSettings : Type 0 where
  pub note : Option Text
  pub custom_headers : Option (List (Text × Text))
  pub download_dir : Option Text

abbrev pub default_settings : JobSettings
default_settings = record { note = none; custom_headers = none; download_dir = none }

pub record JobSummary : Type 0 where
  pub id : ℕ
  pub url : Text
  pub state : JobState
  pub final_filename : Option Text
  pub total_size : Option ℕ

pub record JobMetadata : Type 0 where
  pub final_filename : Option Text
  pub temp_filename : Option Text
  pub total_size : Option ℕ
  pub etag : Option Text
  pub last_modified : Option Text
  pub segment_count : ℕ
  pub completed_bitmap : List ℕ

pub record JobDetails : Type 0 where
  pub id : ℕ
  pub url : Text
  pub final_filename : Option Text
  pub temp_filename : Option Text
  pub total_size : Option ℕ
  pub etag : Option Text
  pub last_modified : Option Text
  pub segment_count : ℕ
  pub completed_bitmap : List ℕ
  pub state : JobState
  pub created_at : ℕ
  pub updated_at : ℕ
  pub settings : JobSettings
