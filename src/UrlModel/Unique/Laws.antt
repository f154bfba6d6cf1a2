-- ===== src/UrlModel/Unique/Laws.antt =====
-- The name that is chosen is new, and there always is one.
use native.Mathlib.Nat.{add-zero}
use mathlib.Core.Option.{some-injective}
use mathlib.Core.List.{append_cancel_left, append_cancel_right}
use debian_download_manager.Prelude.{
  ℕ, zero, suc, ◌+◌, ◌≤◌, ◌<◌, ◌≡◌, ◌≢◌, ◌⊎◌, inl, inr, refl, sym, true, false, List, [], ◌∷◌, ◌++◌,
  none, some, arith, Bool-cases, Option-cases, subst, if◌then◌else◌, length, ◌==◌, ==→eq, ap, ◌∙◌,
}
use debian_download_manager.Prelude.Text.{Text, codes, text_eq, text_eq_iff}
use debian_download_manager.Prelude.Decimal.{show_ℕ, show_ℕ-injective}
use debian_download_manager.UrlModel.Unique.Extension.{
  with_number, numbered-with_number, IsSplit, split_extension-IsSplit,
}
use debian_download_manager.UrlModel.Unique.{
  among, split_extension, numbered, first_free, unique_filename_among,
}

-- The names without one of them.
without : Text → List Text → List Text
without name [] = []
without name (s ∷ existing) =
    let rest = without name existing in if text_eq s name then rest else s ∷ rest

without-shorter :
    (name : Text) (existing : List Text)
    → (length (without name existing) ≤ length existing)
      × ((among name existing ≡ false) ⊎ (length (without name existing) < length existing))
unfolding without among
without-shorter name [] = (omega arith, inl refl)
without-shorter name (s ∷ existing) = let (a, b) = without-shorter name existing in ground arith

without-keeps :
    (name other : Text) (existing : List Text)
    → name ≢ other
    → among other existing ≡ true
    → among other (without name existing) ≡ true
unfolding without among
without-keeps name other [] h e = e
without-keeps name other (s ∷ existing) h e =
    ground (arith, without-keeps name other existing h, text_eq_iff s name, text_eq_iff s other)

between-injective :
    (stem end : Text) (n m : ℕ)
    → stem ++ (codes " (" ++ (show_ℕ n ++ end)) ≡ stem ++ (codes " (" ++ (show_ℕ m ++ end))
    → n ≡ m
between-injective stem end n m e = show_ℕ-injective n m (
    append_cancel_right _ _ end
      (append_cancel_left (codes " (") _ _ (append_cancel_left stem _ _ e)))

numbered-injective : (parts : Text × Text) (n m : ℕ) → numbered parts n ≡ numbered parts m → n ≡ m
unfolding numbered
numbered-injective (stem, []) n m e = between-injective stem (codes ")") n m e
numbered-injective (stem, c ∷ ext) n m e = between-injective stem (codes ")" ++ c ∷ ext) n m e

-- A search that finds nothing has seen only names of the list.
all_taken :
    (fuel : ℕ) (parts : Text × Text) (existing : List Text) (n i : ℕ)
    → first_free fuel parts existing n ≡ none
    → i < fuel
    → among (numbered parts (n + i)) existing ≡ true
unfolding first_free
all_taken zero parts existing n i e h = absurd (omega arith)
all_taken (suc fuel) parts existing n zero e h =
    elim (Bool-cases (among (numbered parts n) existing)) [
      | inl taken ↦ simp add-zero taken
      | inr free ↦ absurd (cc (rw (free, first_free) at e))
    ]
all_taken (suc fuel) parts existing n (suc i) e h =
    elim (Bool-cases (among (numbered parts n) existing)) [
      | inl taken ↦
          let rest =
            all_taken fuel parts existing (n + 1) i (rw (taken, first_free) at e) (omega arith) in
          let same : n + 1 + i ≡ n + suc i = omega arith in
          subst (λ k. among (numbered parts k) existing ≡ true) same rest
      | inr free ↦ absurd (cc (rw (free, first_free) at e))
    ]

-- These names are different, so the list has as many.
crowded :
    (fuel : ℕ) (parts : Text × Text) (existing : List Text) (n : ℕ)
    → ((i : ℕ) → i < fuel → among (numbered parts (n + i)) existing ≡ true)
    → fuel ≤ length existing
crowded zero parts existing n h = omega arith
crowded (suc fuel) parts existing n h =
    let name = numbered parts n in
    let first : among name existing ≡ true =
      subst (λ k. among (numbered parts k) existing ≡ true) (add-zero n) (h 0 (omega arith)) in
    let fewer = crowded fuel parts (without name existing) (n + 1) λ i lt.
      without-keeps name (numbered parts (n + 1 + i)) existing
        (λ same. absurd (omega (arith, numbered-injective parts n (n + 1 + i) same)))
        (subst (λ k. among (numbered parts k) existing ≡ true) (omega arith)
          (h (suc i) (omega arith))) in
    let (_, shrinks) = without-shorter name existing in ground (arith, fewer)

-- The search ends at the first number from `n` on whose name is not in the list.
abbrev IsFirst : Text × Text → List Text → ℕ → ℕ → Type 0
IsFirst parts existing n k =
    (n ≤ k)
    × (among (numbered parts k) existing ≡ false)
    × ((j : ℕ) → n ≤ j → j < k → among (numbered parts j) existing ≡ true)

first_free-IsFirst :
    (fuel : ℕ) (parts : Text × Text) (existing : List Text) (n : ℕ) (name : Text)
    → first_free fuel parts existing n ≡ some name
    → (k : ℕ) × (numbered parts k ≡ name) × IsFirst parts existing n k
unfolding first_free
first_free-IsFirst zero parts existing n name e = absurd (cc e)
first_free-IsFirst (suc fuel) parts existing n name e =
    elim (Bool-cases (among (numbered parts n) existing)) [
      | inl taken ↦
          let (k, same, (above, free, before)) =
            first_free-IsFirst fuel parts existing (n + 1) name (rw (taken, first_free) at e) in
          (
            k,
            same,
            (
              omega (arith, above),
              free,
              λ j ge lt. elim (Bool-cases (n == j)) [
                | inl here ↦
                    subst (λ m. among (numbered parts m) existing ≡ true) (==→eq n j here) taken
                | inr later ↦ before j (ground (arith, ge, later)) lt
              ],
            ),
          )
      | inr free ↦
          let same : numbered parts n ≡ name = some-injective _ _ (rw (free, first_free) at e) in
          (n, same, (omega arith, free, λ j ge lt. absurd (omega arith)))
    ]

-- What the search promises for the candidate's two parts.
abbrev pub IsNumbered : Text → List Text → Text → Text → ℕ → Type 0
IsNumbered candidate existing stem ext k =
    (unique_filename_among candidate existing ≡ some (with_number stem ext k))
    × (1 ≤ k)
    × (among (with_number stem ext k) existing ≡ false)
    × ((j : ℕ) → 1 ≤ j → j < k → among (with_number stem ext j) existing ≡ true)

number_of :
    (candidate : Text) (existing : List Text)
    → among candidate existing ≡ true
    → (k : ℕ) × IsNumbered candidate existing
        (split_extension candidate).0
        (split_extension candidate).1
        k
unfolding unique_filename_among
number_of candidate existing taken =
    let parts = split_extension candidate in
    let enough = length existing + 1 in
    let shape = numbered-with_number parts.0 parts.1 in
    elim (Option-cases (first_free enough parts existing 1)) [
      | inl nothing ↦
          let many =
            crowded enough parts existing 1
              (λ i h. all_taken enough parts existing 1 i nothing h) in
          absurd (omega arith)
      | inr (name, found) ↦
          let (k, same, (above, free, before)) =
            first_free-IsFirst enough parts existing 1 name found in
          (
            k,
            (
              rw (taken, found, unique_filename_among) (ap some (sym same ∙ shape k)),
              above,
              subst (λ t. among t existing ≡ false) (shape k) free,
              λ j ge lt. subst (λ t. among t existing ≡ true) (shape j) (before j ge lt),
            ),
          )
    ]

-- A candidate that is not in the list is the result. Otherwise the candidate is cut into a stem and
-- its extension, which begins at the last dot if that is not the first character, and the result is
-- the first of `stem (1)ext`, `stem (2)ext`, … that is not in the list; there always is one.
pub unique_filename_among-free :
    (candidate : Text) (existing : List Text)
    → ((among candidate existing ≡ false)
        × (unique_filename_among candidate existing ≡ some candidate))
      ⊎ ((among candidate existing ≡ true)
          × ((stem : Text) × (ext : Text) × IsSplit candidate stem ext
              × ((k : ℕ) × IsNumbered candidate existing stem ext k)))
unfolding unique_filename_among
unique_filename_among-free candidate existing = elim (Bool-cases (among candidate existing)) [
  | inr free ↦ inl (free, rw (free, unique_filename_among) refl)
  | inl taken ↦
      let parts = split_extension candidate in
      inr (
        taken,
        (parts.0, parts.1, split_extension-IsSplit candidate, number_of candidate existing taken),
      )
]
