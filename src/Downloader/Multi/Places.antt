-- ===== src/Downloader/Multi/Places.antt =====
-- How the removals and the additions of the loop change what its lists hold.
use mathlib.Core.Option.{some-injective}
use debian_download_manager.Prelude.{
  ℕ, zero, suc, ◌+◌, ◌≡◌, ap, inl, inr, List, [], ◌∷◌, ◌++◌, Option, some, leb, arith, length,
  length-append, Bool-cases, Option-cases,
}
use debian_download_manager.Downloader.Tally.{Task}
use debian_download_manager.Downloader.Tally.Open.{total, total-append, is}
use debian_download_manager.Downloader.Multi.{Waiting, Running, remove_at, take_ready}

pub remove_at-total {ℓ} :
    {A : Type ℓ} (g : A → ℕ) (i : ℕ) (xs : List A) {x : A} {rest : List A}
    → remove_at i xs ≡ some (x, rest)
    → (total g xs ≡ g x + total g rest) × (length xs ≡ suc (length rest))
unfolding remove_at total
remove_at-total g i [] e = absurd (cc e)
remove_at-total g zero (y ∷ xs) e =
    let same = some-injective _ _ e in
    (ap (λ r. g r.0 + total g r.1) same, ap (λ r. suc (length r.1)) same)
remove_at-total g (suc i) (y ∷ xs) e = elim (Option-cases (remove_at i xs)) [
  | inl nothing ↦ absurd (cc (rw nothing at e))
  | inr ((z, rest'), found) ↦
      let (sum, size) = remove_at-total g i xs found in
      let same = some-injective _ _ (rw found at e) in
      (
        omega (arith, sum, ap (λ r. g r.0 + total g r.1) same),
        omega (arith, size, ap (λ r. suc (length r.1)) same),
      )
]

abbrev pub of_waiting : (Option ℕ → ℕ) → Waiting → ℕ
of_waiting f w = f (some w.task.0)

abbrev pub of_running : (Option ℕ → ℕ) → Running → ℕ
of_running f r = f (some r.task.0)

pub take_ready-total :
    (g : Waiting → ℕ) (now : ℕ) (ws : List Waiting) {w : Waiting} {rest : List Waiting}
    → take_ready now ws ≡ some (w, rest)
    → total g ws ≡ g w + total g rest
unfolding take_ready total
take_ready-total g now [] e = absurd (cc e)
take_ready-total g now (x ∷ ws) e = elim (Bool-cases (leb x.ready_at now)) [
  | inl ready ↦
      ap (λ (r : Waiting × List Waiting). g r.0 + total g r.1) (some-injective _ _ (rw ready at e))
  | inr early ↦ elim (Option-cases (take_ready now ws)) [
    | inl nothing ↦ absurd (cc (rw (early, nothing) at e))
    | inr ((z, rest'), found) ↦
        let same = some-injective _ _ (rw (early, found) at e) in
        omega (
          arith,
          take_ready-total g now ws found,
          ap (λ (r : Waiting × List Waiting). g r.0 + total g r.1) same,
        )
  ]
]

-- A task that gets a handle.
pub appended :
    (i : ℕ) (active : List Running) (task : Task) (attempt : ℕ)
    → (total (of_running (is i)) (active ++ record { task = task; attempt = attempt } ∷ [])
        ≡ total (of_running (is i)) active + is i (some task.0))
      × (length (active ++ record { task = task; attempt = attempt } ∷ []) ≡ length active + 1)
unfolding total
appended i active task attempt =
    let r : Running = record { task = task; attempt = attempt } in
    (
      omega (arith, total-append (of_running (is i)) active (r ∷ [])),
      omega (arith, length-append active (r ∷ [])),
    )
