-- ===== src/Prelude/Decimal.antt =====
-- Decimal numerals: Rust's `{}` of an unsigned integer, and `str::parse` of one, which accepts a
-- leading `+` and refuses an empty text and a number above the type's largest.
use Prim.Native.Nat.{ℕ, zero, suc, ◌+◌, ◌-◌, ◌*◌, ◌/◌, ◌%◌, ◌≤◌, ◌<◌, max}
use mathlib.Core.Path.{◌≡◌, refl, sym, ap, ◌∙◌}
use mathlib.Core.Logic.{inl, inr, ◌≢◌}
use mathlib.Core.Bool.{Bool, true, false, ◌&&◌}
use mathlib.Core.List.{[], ◌∷◌, ◌++◌, append_assoc, append-nil}
use mathlib.Core.Option.{Option, none, some, some-injective}
use native.Mathlib.Omega.{arith}
use debian_download_manager.Prelude.Tests.{ltb, leb, le→leb, ◌==◌, if◌then◌else◌, Bool-cases, tests}
use debian_download_manager.Prelude.Lists.{All, All-append}
use debian_download_manager.Prelude.Text.{Text}

show_loop : ℕ → ℕ → Text
show_loop zero n = []
show_loop (suc fuel) n =
    let front = show_loop fuel (n / 10) in
    if ltb n 10 then (48 + n) ∷ [] else front ++ (48 + n % 10) ∷ []

-- A number below `10 ^ k` needs `k` rounds; `n + 1` are enough.
unfoldable pub show_ℕ : ℕ → Text
unfolding show_loop
show_ℕ n = show_loop (suc n) n

unfoldable pub is_digit : ℕ → Bool
is_digit c = leb b'0' c && leb c b'9'

parse_digits : ℕ → ℕ → Text → Option ℕ
parse_digits limit acc [] = some acc
parse_digits limit acc (c ∷ s) =
    let v = acc * 10 + (c - 48) in
    let rest = parse_digits limit v s in
    if is_digit c then (if leb v limit then rest else none) else none

parse_signed : ℕ → Text → Option ℕ
parse_signed limit [] = none
parse_signed limit (c ∷ s) = parse_digits limit 0 (c ∷ s)

-- `parse` of an unsigned type whose largest value is `limit`.
unfoldable pub parse_ℕ : ℕ → Text → Option ℕ
unfolding parse_digits parse_signed is_digit
parse_ℕ limit [] = none
parse_ℕ limit (c ∷ s) = if c == b'+' then parse_signed limit s else parse_digits limit 0 (c ∷ s)

abbrev pub IsDigit : ℕ → Type 0
IsDigit c = (48 ≤ c) × (c ≤ 57)

show_loop-IsDigit : (fuel n : ℕ) → All IsDigit (show_loop fuel n)
unfolding show_loop
show_loop-IsDigit zero n = tt
show_loop-IsDigit (suc fuel) n = elim (Bool-cases (ltb n 10)) [
  | inl h ↦ rw h (omega (tests, h))
  | inr h ↦ rw h (
      All-append IsDigit (show_loop fuel (n / 10)) ((48 + n % 10) ∷ [])
        (show_loop-IsDigit fuel (n / 10)) (omega arith))
]

-- A printed number consists of digits.
pub show_ℕ-IsDigit : (n : ℕ) → All IsDigit (show_ℕ n)
unfolding show_ℕ
show_ℕ-IsDigit n = show_loop-IsDigit (suc n) n

is_digit-digit : (d : ℕ) → d < 10 → is_digit (48 + d) ≡ true
unfolding is_digit
is_digit-digit d h = ground arith

parse_digits-digit :
    (limit acc d v : ℕ) (rest : Text)
    → d < 10
    → v ≡ acc * 10 + d
    → v ≤ limit
    → parse_digits limit acc ((48 + d) ∷ rest) ≡ parse_digits limit v rest
unfolding parse_digits
parse_digits-digit limit acc d v rest h e k =
    let next : acc * 10 + (48 + d - 48) ≡ v = omega arith in
    rw (next, is_digit-digit d h, le→leb v limit k)

parse_digits-show_loop :
    (limit fuel n : ℕ) (rest : Text)
    → n < fuel
    → n ≤ limit
    → parse_digits limit 0 (show_loop fuel n ++ rest) ≡ parse_digits limit n rest
unfolding show_loop
parse_digits-show_loop limit zero n rest h k = elim h [ ]
parse_digits-show_loop limit (suc fuel) n rest h k = elim (Bool-cases (ltb n 10)) [
  | inl small ↦
      rw small (parse_digits-digit limit 0 n n rest (omega (tests, small)) (omega arith) k)
  | inr large ↦
      let ge : 10 ≤ n = ground arith in
      rw (large, append_assoc (show_loop fuel (n / 10)) ((48 + n % 10) ∷ []) rest)
        (parse_digits-show_loop limit fuel (n / 10) ((48 + n % 10) ∷ rest) (omega arith)
            (omega arith)
          ∙ parse_digits-digit limit (n / 10) (n % 10) n rest (omega arith) (omega arith) k)
]

append-ne-nil : (s : Text) (c : ℕ) → s ++ c ∷ [] ≢ []
append-ne-nil [] c e = cc
append-ne-nil (d ∷ s) c e = cc

pub show_ℕ-ne-nil : (n : ℕ) → show_ℕ n ≢ []
unfolding show_ℕ
show_ℕ-ne-nil n = elim (Bool-cases (ltb n 10)) [
  | inl h ↦ rw h (λ e. cc)
  | inr h ↦ rw h (append-ne-nil (show_loop n (n / 10)) (48 + n % 10))
]

-- Digits have no sign to skip.
parse_ℕ-digits :
    (limit : ℕ) (s : Text) → s ≢ [] → All IsDigit s → parse_ℕ limit s ≡ parse_digits limit 0 s
unfolding parse_ℕ
parse_ℕ-digits limit [] h all = absurd (h refl)
parse_ℕ-digits limit (c ∷ s) h all =
    let sign : (c == b'+') ≡ false = let at_least : 48 ≤ c = all.0.0 in ground arith in rw sign

show_ℕ-digits : (limit n : ℕ) → n ≤ limit → parse_digits limit 0 (show_ℕ n) ≡ some n
unfolding show_ℕ
show_ℕ-digits limit n h =
    ap (parse_digits limit 0) (sym (append-nil (show_ℕ n)))
    ∙ parse_digits-show_loop limit (suc n) n [] (omega arith) h
    ∙ done
  where
    done : parse_digits limit n [] ≡ some n
    done = unfold parse_digits in refl

-- A printed number is read back by a type that holds it.
pub parse_ℕ-show_ℕ : (limit n : ℕ) → n ≤ limit → parse_ℕ limit (show_ℕ n) ≡ some n
parse_ℕ-show_ℕ limit n h =
    parse_ℕ-digits limit (show_ℕ n) (show_ℕ-ne-nil n) (show_ℕ-IsDigit n) ∙ show_ℕ-digits limit n h

-- Different numbers print differently.
pub show_ℕ-injective : (m n : ℕ) → show_ℕ m ≡ show_ℕ n → m ≡ n
show_ℕ-injective m n e = some-injective _ _ (
    sym (parse_ℕ-show_ℕ (max m n) m (omega arith))
    ∙ ap (parse_ℕ (max m n)) e
    ∙ parse_ℕ-show_ℕ (max m n) n (omega arith))

parse_digits-foreign :
    (limit acc : ℕ) (s : Text) (c : ℕ) (t : Text)
    → is_digit c ≡ false
    → parse_digits limit acc (s ++ c ∷ t) ≡ none
unfolding parse_digits
parse_digits-foreign limit acc [] c t h = rw h
parse_digits-foreign limit acc (d ∷ s) c t h =
    ground (arith, parse_digits-foreign limit (acc * 10 + (d - 48)) s c t h)

-- A character that is neither a digit nor a sign spoils a numeral, wherever it stands.
pub parse_ℕ-foreign :
    (limit : ℕ) (s : Text) (c : ℕ) (t : Text)
    → is_digit c ≡ false
    → c ≢ b'+'
    → parse_ℕ limit (s ++ c ∷ t) ≡ none
unfolding parse_ℕ
parse_ℕ-foreign limit [] c t h k = ground (arith, parse_digits-foreign limit 0 [] c t h)
parse_ℕ-foreign limit (d ∷ []) c t h k =
    ground
      (arith, parse_digits-foreign limit 0 [] c t h, parse_digits-foreign limit 0 (d ∷ []) c t h)
parse_ℕ-foreign limit (d ∷ e ∷ s) c t h k = ground (
  arith,
  parse_digits-foreign limit 0 (e ∷ s) c t h,
  parse_digits-foreign limit 0 (d ∷ e ∷ s) c t h,
)
