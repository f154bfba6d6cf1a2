-- ===== src/UrlModel/Unique.antt =====
-- crates/ddm-core/src/url_model/mod.rs: `unique_filename_among`. The loop over 1, 2, … has fuel, of
-- which one more than there are names is enough.
pub mod Extension
pub mod Laws
use mathlib.Core.List.{reverse}
use debian_download_manager.Prelude.{
  ℕ, zero, suc, ◌+◌, Bool, true, false, not, ◌||◌, List, [], ◌∷◌, ◌++◌, Option, none, some, ◌==◌,
  if◌then◌else◌, length,
}
use debian_download_manager.Prelude.Text.{Text, codes, is_empty, text_eq, split_once}
use debian_download_manager.Prelude.Decimal.{show_ℕ}

-- `iter().any(|s| s == name)`
unfoldable pub among : Text → List Text → Bool
among name [] = false
among name (s ∷ existing) = text_eq s name || among name existing

-- The text up to the last dot, and from the dot on; the whole and nothing where the only dot, if
-- any, is the first character.
unfoldable pub split_extension : Text → Text × Text
split_extension candidate = elim (split_once b'.' (reverse candidate)) [
  | none ↦ (candidate, [])
  | some (after, before) ↦
      if is_empty before then (candidate, []) else (reverse before, b'.' ∷ reverse after)
]

unfoldable pub numbered : Text × Text → ℕ → Text
numbered (stem, ext) n =
    if is_empty ext
    then stem ++ (codes " (" ++ (show_ℕ n ++ codes ")"))
    else stem ++ (codes " (" ++ (show_ℕ n ++ (codes ")" ++ ext)))

unfoldable pub first_free : ℕ → Text × Text → List Text → ℕ → Option Text
first_free zero parts existing n = none
first_free (suc fuel) parts existing n =
    let rest = first_free fuel parts existing (n + 1) in
    let name = numbered parts n in if not (among name existing) then some name else rest

unfoldable pub unique_filename_among : Text → List Text → Option Text
unique_filename_among candidate existing =
    let search = first_free (length existing + 1) (split_extension candidate) existing 1 in
    if not (among candidate existing) then some candidate else search
