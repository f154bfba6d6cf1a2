-- ===== src/SafeResume/Laws.antt =====
-- When a job may be resumed.
use debian_download_manager.Prelude.{
  Bool, true, false, ◌||◌, ◌≡◌, ◌↔◌, ◌⊎◌, refl, Option, none, some, ◌==◌, arith, ==→eq,
}
use debian_download_manager.Prelude.Result.{ok}
use debian_download_manager.Prelude.Text.{text_eq, text_eq_iff}
use debian_download_manager.FetchHead.Parse.{HeadResult}
use debian_download_manager.ResumeDb.Types.{JobDetails}
use debian_download_manager.SafeResume.{
  is_some, differs, has_stored, changes, any_changed, validate_for_resume,
}

-- The test of two optional values decides their difference.
differs_iff :
    {A : Type 0} (eq : A → A → Bool)
    → ((a b : A) → (eq a b ≡ true) ↔ (a ≡ b))
    → (x y : Option A) → (differs eq x y ≡ false) ↔ (x ≡ y)
unfolding differs
differs_iff eq h none none = (λ e. refl, λ e. refl)
differs_iff eq h (some a) (some b) =
    let (f, g) = h a b in (λ e. ground (arith, f), λ e. ground (arith, g))
differs_iff eq h none (some b) = (λ e. cc, λ e. cc)
differs_iff eq h (some a) none = (λ e. cc, λ e. cc)

-- Nothing is stored: the job has never been probed.
abbrev pub NeverProbed : JobDetails → Type 0
NeverProbed job = (job.total_size ≡ none) × (job.etag ≡ none) × (job.last_modified ≡ none)

abbrev pub Unchanged : JobDetails → HeadResult → Type 0
Unchanged job head =
    (job.etag ≡ head.etag)
    × (job.last_modified ≡ head.last_modified)
    × (job.total_size ≡ head.content_length)

etag_iff :
    (job : JobDetails) (head : HeadResult)
    → ((changes job head).etag_changed ≡ false) ↔ (job.etag ≡ head.etag)
unfolding changes
etag_iff job head = differs_iff text_eq text_eq_iff job.etag head.etag

last_modified_iff :
    (job : JobDetails) (head : HeadResult)
    → ((changes job head).last_modified_changed ≡ false) ↔ (job.last_modified ≡ head.last_modified)
unfolding changes
last_modified_iff job head = differs_iff text_eq text_eq_iff job.last_modified head.last_modified

size_iff :
    (job : JobDetails) (head : HeadResult)
    → ((changes job head).size_changed ≡ false) ↔ (job.total_size ≡ head.content_length)
unfolding changes
size_iff job head =
    differs_iff (λ a b. a == b) (λ a b. (==→eq a b, λ e. ground arith)) job.total_size
      head.content_length

or-false : (a b c : Bool) → ((a || b || c) ≡ false) ↔ ((a ≡ false) × (b ≡ false) × (c ≡ false))
or-false a b c = (λ e. ground arith, λ e. ground arith)

is_some-false : {A : Type 0} (o : Option A) → (is_some o ≡ false) ↔ (o ≡ none)
is_some-false none = (λ e. refl, λ e. refl)
is_some-false (some a) = (λ e. cc, λ e. cc)

has_stored_iff : (job : JobDetails) → (has_stored job ≡ false) ↔ NeverProbed job
unfolding has_stored
has_stored_iff job =
    let (f, g) = or-false (is_some job.total_size) (is_some job.etag) (is_some job.last_modified) in
    let (a, a') = is_some-false job.total_size in
    let (b, b') = is_some-false job.etag in
    let (c, c') = is_some-false job.last_modified in
    (λ e. let (x, y, z) = f e in (a x, b y, c z), λ (x, y, z). g (a' x, b' y, c' z))

any_changed_iff :
    (job : JobDetails) (head : HeadResult)
    → (any_changed (changes job head) ≡ false) ↔ Unchanged job head
unfolding any_changed
any_changed_iff job head =
    let (a, b) = etag_iff job head in
    let (c, d) = last_modified_iff job head in
    let (e, f) = size_iff job head in
    let (p, q) =
      or-false (changes job head).etag_changed (changes job head).last_modified_changed
        (changes job head).size_changed in
    (λ h. let (x, y, z) = p h in (a x, c y, e z), λ (x, y, z). q (b x, d y, f z))

-- A job may be resumed exactly when nothing of the remote file was stored, or what was stored (the
-- ETag, the date and the size) is what the server says now, an absent value included.
pub validate_for_resume_iff :
    (job : JobDetails) (head : HeadResult)
    → (validate_for_resume job head ≡ ok tt) ↔ (NeverProbed job ⊎ Unchanged job head)
unfolding validate_for_resume
validate_for_resume_iff job head =
    let (a, b) = has_stored_iff job in
    let (c, d) = any_changed_iff job head in (λ h. ground (arith, a, c), λ h. ground (arith, b, d))
