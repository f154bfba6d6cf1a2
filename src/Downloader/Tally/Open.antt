-- ===== src/Downloader/Tally/Open.antt =====
-- The tasks that are left: sums of a weight over a list, and the tasks of one index.
use mathlib.Core.Option.{some-injective}
use debian_download_manager.Prelude.{
  ℕ, zero, suc, ◌+◌, ◌≤◌, ◌<◌, ◌≡◌, refl, ap, ◌⊎◌, inl, inr, true, List, [], ◌∷◌, ◌++◌, Option,
  none, some, ◌==◌, if◌then◌else◌, arith, length, get_elem?, set, replicate, Bool-cases,
}
use debian_download_manager.Segmenter.Range.{Segment}
use debian_download_manager.Segmenter.Bitmap.{SegmentBitmap, is_completed}
use debian_download_manager.Downloader.Tally.{Task, incomplete_from}

-- The sum of a weight over a list.
unfoldable pub total {ℓ} : {A : Type ℓ} → (A → ℕ) → List A → ℕ
total g [] = 0
total g (x ∷ xs) = g x + total g xs

module _ {ℓ} {A : Type ℓ} where
  pub total-set :
      (g : A → ℕ) (xs : List A) (i : ℕ) (x y : A)
      → get_elem? xs i ≡ some x
      → total g (set xs i y) + g x ≡ total g xs + g y
  unfolding total
  total-set g [] i x y e = absurd (cc e)
  total-set g (z ∷ xs) zero x y e =
      let same : g z ≡ g x = ap g (some-injective _ _ e) in omega arith
  total-set g (z ∷ xs) (suc i) x y e = omega (arith, total-set g xs i x y e)

  pub total-append : (g : A → ℕ) (xs ys : List A) → total g (xs ++ ys) ≡ total g xs + total g ys
  unfolding total
  total-append g [] ys = omega arith
  total-append g (x ∷ xs) ys = omega (arith, total-append g xs ys)

  pub total-le : (g h : A → ℕ) → ((x : A) → g x ≤ h x) → (xs : List A) → total g xs ≤ total h xs
  unfolding total
  total-le g h le [] = omega arith
  total-le g h le (x ∷ xs) = omega (arith, le x, total-le g h le xs)

  pub total-get :
      (g : A → ℕ) (xs : List A) (i : ℕ) (x : A) → get_elem? xs i ≡ some x → g x ≤ total g xs
  unfolding total
  total-get g [] i x e = absurd (cc e)
  total-get g (z ∷ xs) zero x e = let same : g z ≡ g x = ap g (some-injective _ _ e) in omega arith
  total-get g (z ∷ xs) (suc i) x e = omega (arith, total-get g xs i x e)

  pub total-replicate : (g : A → ℕ) (n : ℕ) (x : A) → g x ≡ 0 → total g (replicate n x) ≡ 0
  unfolding total
  total-replicate g zero x e = refl
  total-replicate g (suc n) x e = omega (arith, total-replicate g n x e)

  pub total-length : (g : A → ℕ) → ((x : A) → g x ≡ 1) → (xs : List A) → total g xs ≡ length xs
  unfolding total
  total-length g one [] = refl
  total-length g one (x ∷ xs) = omega (arith, one x, total-length g one xs)

-- Every task counts, or the tasks of index `i`; a panicked worker may have had any.
abbrev pub each : Option ℕ → ℕ
each o = 1

abbrev pub is : ℕ → Option ℕ → ℕ
is i none = 1
is i (some j) = if i == j then 1 else 0

pub is-le-each : (i : ℕ) (o : Option ℕ) → is i o ≤ 1
is-le-each i none = omega arith
is-le-each i (some j) = ground arith

abbrev pub of_task : (Option ℕ → ℕ) → Task → ℕ
of_task f task = f (some task.0)

-- A segment is completed, or a task for it is to be run.
pub task_or_completed :
    (b : SegmentBitmap) (j k i : ℕ) (segments : List Segment) {s : Segment}
    → get_elem? segments k ≡ some s
    → i ≡ j + k
    → (is_completed b i ≡ true) ⊎ (0 < total (of_task (is i)) (incomplete_from b j segments))
unfolding incomplete_from total
task_or_completed b j k i [] e at = absurd (cc e)
task_or_completed b j zero i (x ∷ xs) e at = elim (Bool-cases (is_completed b j)) [
  | inl marked ↦ inl (ground arith)
  | inr open_yet ↦ inr (rw open_yet (ground arith))
]
task_or_completed b j (suc k) i (x ∷ xs) e at =
    elim (task_or_completed b (j + 1) k i xs e (omega arith)) [
      | inl marked ↦ inl marked
      | inr h ↦ inr (elim (Bool-cases (is_completed b j)) [
        | inl skipped ↦ rw skipped h
        | inr kept ↦ rw kept (ground arith)
      ])
    ]
