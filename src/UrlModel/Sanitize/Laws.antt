-- ===== src/UrlModel/Sanitize/Laws.antt =====
-- Names that are safe on Linux.
use mathlib.Core.Option.{some-injective}
use mathlib.Core.List.{reverse_aux}
use debian_download_manager.Prelude.{
  ℕ, zero, suc, ◌-◌, ◌≤◌, ◌<◌, ◌≡◌, ap, subst, ◌⊎◌, inl, inr, Bool, true, false, [], ◌∷◌, Option,
  some, ltb, ◌==◌, arith, All, Bool-cases, Option-cases,
}
use debian_download_manager.Prelude.Text.{
  Text, utf8_len, byte_len, split_at_byte, drop_while, trim_matches,
}
use debian_download_manager.UrlModel.Sanitize.{
  is_control, replacement, replace_all, is_margin, boundary_prefix, name_max, truncate,
  sanitize_filename_for_linux,
}

-- A character that may stand in the name: no slash, backslash, blank, tab, NUL or control character.
abbrev pub IsSafe : ℕ → Type 0
IsSafe c = ¬ (c ≡ b'/') × ¬ (c ≡ b'\\') × ¬ (c ≡ b' ') × (31 < c) × ((c < 127) ⊎ (159 < c))

replacement-IsSafe : (c : ℕ) → IsSafe (replacement c)
unfolding replacement is_control
replacement-IsSafe c = ground arith

replace_all-IsSafe : (prev : Bool) (name : Text) → All IsSafe (replace_all prev name)
unfolding replace_all
replace_all-IsSafe prev [] = tt
replace_all-IsSafe prev (c ∷ name) =
    let after_underscore = replace_all-IsSafe true name in
    let after_other = replace_all-IsSafe false name in
    let underscore : IsSafe b'_' = omega arith in
    elim (Bool-cases (replacement c == b'_')) [
      | inr differ ↦ rw (differ, replace_all) (replacement-IsSafe c, after_other)
      | inl same ↦ elim (Bool-cases prev) [
        | inl twice ↦ rw (same, twice, replace_all) after_underscore
        | inr once ↦ rw (same, once, replace_all) (underscore, after_underscore)
      ]
    ]

module _ {κ} (P : ℕ → Type κ) where
  All-drop_while : (p : ℕ → Bool) (s : Text) → All P s → All P (drop_while p s)
  unfolding drop_while
  All-drop_while p [] h = h
  All-drop_while p (c ∷ s) h = elim (Bool-cases (p c)) [
    | inl yes_drop ↦ rw (yes_drop, drop_while) (All-drop_while p s h.1)
    | inr keep ↦ rw (keep, drop_while) h
  ]

  All-reverse_aux : (s r : Text) → All P s → All P r → All P (reverse_aux s r)
  All-reverse_aux [] r h k = k
  All-reverse_aux (c ∷ s) r h k = All-reverse_aux s (c ∷ r) h.1 (h.0, k)

  All-trim_matches : (p : ℕ → Bool) (s : Text) → All P s → All P (trim_matches p s)
  unfolding trim_matches
  All-trim_matches p s h =
      let front = All-drop_while p s h in
      let back = All-drop_while p _ (All-reverse_aux (drop_while p s) [] front tt) in
      All-reverse_aux _ [] back tt

  abbrev Cut : ℕ → Text → Type κ
  Cut n before = (byte_len before ≡ n) × All P before

  -- The result of a split that is known to be this one.
  Cut-found :
      (n : ℕ) (found before rest after : Text)
      → ◌≡◌ {A = Option (Text × Text)} (some (found, rest)) (some (before, after))
      → Cut n found
      → Cut n before
  Cut-found n found before rest after e cut =
      subst (Cut n) (ap (λ (p : Text × Text). p.0) (some-injective _ _ e)) cut

  -- A prefix up to a boundary has the bytes of the boundary.
  All-split_at_byte :
      (n : ℕ) (s before after : Text)
      → split_at_byte n s ≡ some (before, after)
      → All P s
      → Cut n before
  unfolding split_at_byte byte_len
  All-split_at_byte n [] before after e h = elim (Bool-cases (n == 0)) [
    | inl zero_left ↦
        Cut-found n [] before [] after (rw (zero_left, split_at_byte) at e) (ground arith, tt)
    | inr more ↦ absurd (cc (rw (more, split_at_byte) at e))
  ]
  All-split_at_byte n (c ∷ s) before after e h = elim (Bool-cases (n == 0)) [
    | inl zero_left ↦
        Cut-found n [] before (c ∷ s) after (rw (zero_left, split_at_byte) at e) (ground arith, tt)
    | inr more ↦ elim (Bool-cases (ltb n (utf8_len c))) [
      | inl inside ↦ absurd (cc (rw (more, inside, split_at_byte) at e))
      | inr fits ↦ elim (Option-cases (split_at_byte (n - utf8_len c) s)) [
        | inl nothing ↦ absurd (cc (rw (more, fits, nothing, split_at_byte) at e))
        | inr ((front, back), found) ↦
            let (a, b) = All-split_at_byte (n - utf8_len c) s front back found h.1 in
            Cut-found n (c ∷ front) before back after (rw (more, fits, found, split_at_byte) at e)
              (ground arith, (h.0, b))
      ]
    ]
  ]

  All-boundary_prefix :
      (n : ℕ) (s : Text)
      → All P s
      → (byte_len (boundary_prefix n s) ≤ n) × All P (boundary_prefix n s)
  unfolding boundary_prefix byte_len
  All-boundary_prefix zero s h = (omega arith, tt)
  All-boundary_prefix (suc n) s h = elim (Option-cases (split_at_byte (suc n) s)) [
    | inl e ↦ let (a, b) = All-boundary_prefix n s h in rw (e, boundary_prefix) (omega arith, b)
    | inr ((before, after), e) ↦
        let (a, b) = All-split_at_byte (suc n) s before after e h in
        rw (e, boundary_prefix) (omega arith, b)
  ]

-- A sanitised name has no slash, backslash, blank, tab, NUL or control character, and at most 255
-- bytes.
pub sanitize-IsSafe :
    (name : Text)
    → All IsSafe (sanitize_filename_for_linux name)
      × (byte_len (sanitize_filename_for_linux name) ≤ 255)
unfolding sanitize_filename_for_linux truncate
sanitize-IsSafe name =
    let safe = All-trim_matches IsSafe is_margin _ (replace_all-IsSafe false name) in
    elim (Bool-cases (ltb name_max (byte_len (trim_matches is_margin (replace_all false name))))) [
      | inl long ↦
          let (a, b) = All-boundary_prefix IsSafe name_max _ safe in rw (long, truncate) (b, a)
      | inr short ↦ rw (short, truncate) (safe, ground arith)
    ]
