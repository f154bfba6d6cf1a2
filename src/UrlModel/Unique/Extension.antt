-- ===== src/UrlModel/Unique/Extension.antt =====
-- Where a file name is cut for a number, written out.
use mathlib.Core.Option.{some-injective}
use mathlib.Core.List.{
  reverse, reverse-cons, reverse-append, reverse-reverse, append_assoc, append-nil,
}
use debian_download_manager.Prelude.{
  ℕ, ◌≡◌, ◌≢◌, ◌⊎◌, inl, inr, refl, sym, ap, ◌∙◌, subst, [], ◌∷◌, ◌++◌, none, some, arith, ◌==◌,
  ==→eq, Bool-cases, Option-cases,
}
use debian_download_manager.Prelude.Text.{Text, Lacks, codes, split_once}
use debian_download_manager.Prelude.Decimal.{show_ℕ}
use debian_download_manager.UrlModel.Unique.{split_extension, numbered}

-- The name with a number put before its extension.
abbrev pub with_number : Text → Text → ℕ → Text
with_number stem ext k = stem ++ (codes " (" ++ (show_ℕ k ++ (codes ")" ++ ext)))

pub numbered-with_number :
    (stem ext : Text) (k : ℕ) → numbered (stem, ext) k ≡ with_number stem ext k
unfolding numbered
numbered-with_number stem [] k = refl
numbered-with_number stem (c ∷ ext) k = refl

-- The extension is what stands from the last dot on; there is none without a dot, and none if the
-- last dot is the first character.
abbrev pub HasNoExtension : Text → Type 0
HasNoExtension s = Lacks b'.' s ⊎ ((rest : Text) × (s ≡ b'.' ∷ rest) × Lacks b'.' rest)

abbrev pub IsSplit : Text → Text → Text → Type 0
IsSplit candidate stem ext =
    (stem ++ ext ≡ candidate)
    × (((ext ≡ []) × HasNoExtension candidate)
        ⊎ ((stem ≢ []) × ((rest : Text) × (ext ≡ b'.' ∷ rest) × Lacks b'.' rest)))

Lacks-append : (c : ℕ) (s t : Text) → Lacks c s → Lacks c t → Lacks c (s ++ t)
Lacks-append c [] t h k = k
Lacks-append c (d ∷ s) t h k = (h.0, Lacks-append c s t h.1 k)

Lacks-reverse : (c : ℕ) (s : Text) → Lacks c s → Lacks c (reverse s)
Lacks-reverse c [] h = tt
Lacks-reverse c (d ∷ s) h =
    subst (Lacks c) (sym (reverse-cons d s))
      (Lacks-append c (reverse s) (d ∷ []) (Lacks-reverse c s h.1) (h.0, tt))

split_once-none : (c : ℕ) (s : Text) → split_once c s ≡ none → Lacks c s
unfolding split_once
split_once-none c [] e = tt
split_once-none c (d ∷ s) e = elim (Bool-cases (d == c)) [
  | inl same ↦ absurd (cc (rw (same, split_once) at e))
  | inr differ ↦ elim (Option-cases (split_once c s)) [
    | inl nothing ↦ ((λ eq. ground (arith, eq, differ)), split_once-none c s nothing)
    | inr (x, found) ↦ absurd (cc (rw (differ, found, split_once) at e))
  ]
]

split_once-some :
    (c : ℕ) (s : Text) {a b : Text} → split_once c s ≡ some (a, b) → (s ≡ a ++ c ∷ b) × Lacks c a
unfolding split_once
split_once-some c [] e = absurd (cc e)
split_once-some c (d ∷ s) {a} {b} e = elim (Bool-cases (d == c)) [
  | inl same ↦
      let pair = some-injective _ _ (rw (same, split_once) at e) in
      subst (λ (x : Text × Text). (d ∷ s ≡ x.0 ++ c ∷ x.1) × Lacks c x.0) pair
        (ap (λ k. k ∷ s) (==→eq d c same), tt)
  | inr differ ↦ elim (Option-cases (split_once c s)) [
    | inl nothing ↦ absurd (cc (rw (differ, nothing, split_once) at e))
    | inr ((a', b'), found) ↦
        let pair = some-injective _ _ (rw (differ, found, split_once) at e) in
        let (joined, lacks) = split_once-some c s found in
        subst (λ (x : Text × Text). (d ∷ s ≡ x.0 ++ c ∷ x.1) × Lacks c x.0) pair
          (ap (λ t. d ∷ t) joined, ((λ eq. ground (arith, eq, differ)), lacks))
  ]
]

-- A text that is read backwards up to a mark.
read_back :
    (c : ℕ) (s a b : Text)
    → split_once c (reverse s) ≡ some (a, b)
    → (reverse b ++ c ∷ reverse a ≡ s) × Lacks c (reverse a)
read_back c s a b e =
    let (joined, lacks) = split_once-some c (reverse s) e in
    (
      sym (append_assoc (reverse b) (c ∷ []) (reverse a))
          ∙ ap (λ l. l ++ reverse a) (sym (reverse-cons c b))
          ∙ sym (reverse-append a (c ∷ b))
          ∙ ap reverse (sym joined)
          ∙ reverse-reverse s,
      Lacks-reverse c a lacks,
    )

pub split_extension-IsSplit :
    (candidate : Text)
    → IsSplit candidate (split_extension candidate).0 (split_extension candidate).1
unfolding split_extension
split_extension-IsSplit candidate = elim (Option-cases (split_once b'.' (reverse candidate))) [
  | inl nothing ↦
      let lacks =
        Lacks-reverse b'.' (reverse candidate) (split_once-none b'.' (reverse candidate) nothing) in
      rw (nothing, split_extension)
        (
          append-nil candidate,
          inl (refl, inl (subst (Lacks b'.') (reverse-reverse candidate) lacks)),
        )
  | inr ((after, []), found) ↦
      let (joined, lacks) = read_back b'.' candidate after [] found in
      rw (found, split_extension)
        (append-nil candidate, inl (refl, inr (reverse after, sym joined, lacks)))
  | inr ((after, c ∷ before), found) ↦
      let (joined, lacks) = read_back b'.' candidate after (c ∷ before) found in
      rw (found, split_extension)
        (
          joined,
          inr (
            (λ empty. absurd (cc (sym (reverse-reverse (c ∷ before)) ∙ ap reverse empty))),
            (reverse after, refl, lacks),
          ),
        )
]
