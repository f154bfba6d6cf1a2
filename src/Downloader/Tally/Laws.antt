-- ===== src/Downloader/Tally/Laws.antt =====
-- What the bookkeeping of the results changes and what it leaves alone, and the share of a handle.
use native.Mathlib.Nat.{div-add-mod, mod-lt}
use debian_download_manager.Prelude.{
  ℕ, ◌+◌, ◌-◌, ◌*◌, ◌/◌, ◌%◌, ◌≤◌, ◌<◌, max, ◌≡◌, refl, Bool, none, some, arith, inl, inr,
  Option-cases,
}
use debian_download_manager.Retry.Classify.{Curl}
use debian_download_manager.Segmenter.Bitmap.{set_completed}
use debian_download_manager.Downloader.Tally.{
  per_handle, Tally, RunError, send, keep_first, on_completed, flush,
}

-- With a global cap, the handles together get at least the cap, and less than one byte per second
-- and handle more; a concurrency of 0 counts as 1.
pub per_handle_bounds :
    (bps concurrency : ℕ)
    → (speed : ℕ) × (per_handle (some bps) concurrency ≡ some speed)
      × (bps ≤ max concurrency 1 * speed)
      × (max concurrency 1 * speed < bps + max concurrency 1)
unfolding per_handle
per_handle_bounds bps concurrency =
    let n = max concurrency 1 in
    let whole = div-add-mod (bps + n - 1) n in
    let rest : (bps + n - 1) % n < n = mod-lt (bps + n - 1) (omega arith) in
    ((bps + n - 1) / n, refl, omega (arith, whole, rest), omega (arith, whole, rest))

module _ {c : Curl} where
  -- A completed segment is marked, and nothing but the bitmap and the progress changes.
  pub on_completed-bitmap :
      (p : Bool) (n index : ℕ) (t : Tally c)
      → (on_completed p n index t).bitmap ≡ set_completed t.bitmap index
  unfolding on_completed send
  on_completed-bitmap p n index t = ground arith

  pub on_completed-first_error :
      (p : Bool) (n index : ℕ) (t : Tally c)
      → (on_completed p n index t).first_error ≡ t.first_error
  unfolding on_completed send
  on_completed-first_error p n index t = ground arith

  pub flush-bitmap : (p : Bool) (n : ℕ) (t : Tally c) → (flush p n t).bitmap ≡ t.bitmap
  unfolding flush send
  flush-bitmap p n t = ground arith

  pub flush-first_error :
      (p : Bool) (n : ℕ) (t : Tally c) → (flush p n t).first_error ≡ t.first_error
  unfolding flush send
  flush-first_error p n t = ground arith

  pub keep_first-bitmap : (e : RunError c) (t : Tally c) → (keep_first e t).bitmap ≡ t.bitmap
  unfolding keep_first
  keep_first-bitmap e t = ground arith

  -- Afterwards there is an error: the one before, if there was one.
  abbrev pub HasError : Tally c → Type 0
  HasError t = (e : RunError c) × (t.first_error ≡ some e)

  pub keep_first-HasError : (e : RunError c) (t : Tally c) → HasError (keep_first e t)
  unfolding keep_first
  keep_first-HasError e t = elim (Option-cases t.first_error) [
    | inl before ↦ (e, rw (before, keep_first) refl)
    | inr (e', before) ↦ (e', rw (before, keep_first) before)
  ]

  pub keep_first-none :
      (e : RunError c) (t : Tally c) → t.first_error ≡ none → (keep_first e t).first_error ≡ some e
  unfolding keep_first
  keep_first-none e t before = rw (before, keep_first) refl
