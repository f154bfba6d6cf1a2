-- ===== src/Prelude/Text.antt =====
-- Text as a list of Unicode code points, with the functions of Rust's `str` that the program calls.
use Prim.Native.Char.{code}
use Prim.Native.String.{String}
use Prim.Native.Nat.{ℕ, zero, suc, ◌+◌, ◌-◌}
use mathlib.Core.Path.{◌≡◌, refl}
use mathlib.Core.Logic.{◌↔◌}
use mathlib.Core.Bool.{Bool, true, false, ◌&&◌, ◌||◌}
use mathlib.Core.List.{List, [], ◌∷◌, ◌++◌, map, reverse}
use mathlib.Core.Option.{Option, none, some}
use native.Mathlib.Omega.{arith}
use debian_download_manager.Prelude.Tests.{ltb, leb, ◌==◌, if◌then◌else◌}

abbrev pub Text : Type 0
Text = List ℕ

-- The code points of a literal.
abbrev pub codes : String → Text
codes String.[] = []
codes (String.◌∷◌ c s) = code c ∷ codes s

unfoldable pub text_eq : Text → Text → Bool
text_eq [] [] = true
text_eq [] (d ∷ t) = false
text_eq (c ∷ s) [] = false
text_eq (c ∷ s) (d ∷ t) = (c == d) && text_eq s t

pub text_eq_iff : (s t : Text) → (text_eq s t ≡ true) ↔ (s ≡ t)
unfolding text_eq
text_eq_iff [] [] = (λ e. refl, λ e. refl)
text_eq_iff [] (d ∷ t) = (λ e. cc, λ e. cc)
text_eq_iff (c ∷ s) [] = (λ e. cc, λ e. cc)
text_eq_iff (c ∷ s) (d ∷ t) =
    let (sound, complete) = text_eq_iff s t in
    (λ e. ground (arith, sound), λ e. ground (arith, complete))

abbrev pub is_empty : Text → Bool
is_empty [] = true
is_empty (c ∷ s) = false

-- `split_once(c)`: what stands before and after the first `c`.
unfoldable pub split_once : ℕ → Text → Option (Text × Text)
split_once c [] = none
split_once c (d ∷ s) =
    if d == c
    then some ([], s)
    else elim (split_once c s) [ none ↦ none | some (before, after) ↦ some (d ∷ before, after) ]

-- No character of the text is `c`.
abbrev pub Lacks : ℕ → Text → Type 0
Lacks c [] = Unit
Lacks c (d ∷ s) = ¬ (d ≡ c) × Lacks c s

pub split_once-append : (c : ℕ) (s t : Text) → Lacks c s → split_once c (s ++ c ∷ t) ≡ some (s, t)
unfolding split_once
split_once-append c [] t h = ground arith
split_once-append c (d ∷ s) t h = ground (arith, split_once-append c s t h.1)

-- `splitn(n, c)`: at most `n` parts, the last of which may hold further `c`s.
unfoldable pub splitn : ℕ → ℕ → Text → List Text
splitn zero c s = []
splitn (suc zero) c s = s ∷ []
splitn (suc (suc n)) c s = elim (split_once c s) [
  | none ↦ s ∷ []
  | some (before, after) ↦ before ∷ splitn (suc n) c after
]

pub splitn-append :
    (n c : ℕ) (s t : Text)
    → Lacks c s
    → splitn (suc (suc n)) c (s ++ c ∷ t) ≡ s ∷ splitn (suc n) c t
unfolding splitn
splitn-append n c s t h = rw (split_once-append c s t h, splitn)

cons_head : ℕ → List Text → List Text
cons_head d [] = (d ∷ []) ∷ []
cons_head d (part ∷ parts) = (d ∷ part) ∷ parts

-- `split(c)`: the parts between the `c`s, one at least.
unfoldable pub split : ℕ → Text → List Text
unfolding cons_head
split c [] = [] ∷ []
split c (d ∷ s) = let parts = split c s in if d == c then [] ∷ parts else cons_head d parts

-- `char::is_whitespace`.
unfoldable pub is_whitespace : ℕ → Bool
is_whitespace c =
    (leb 9 c && leb c 13)
    || (c == 32)
    || (c == 0x85)
    || (c == 0xa0)
    || (c == 0x1680)
    || (leb 0x2000 c && leb c 0x200a)
    || (c == 0x2028)
    || (c == 0x2029)
    || (c == 0x202f)
    || (c == 0x205f)
    || (c == 0x3000)

unfoldable pub drop_while : (ℕ → Bool) → Text → Text
drop_while p [] = []
drop_while p (c ∷ s) = let rest = drop_while p s in if p c then rest else c ∷ s

unfoldable pub take_while : (ℕ → Bool) → Text → Text
take_while p [] = []
take_while p (c ∷ s) = let rest = take_while p s in if p c then c ∷ rest else []

-- The bytes of a character in UTF-8, and of a text.
unfoldable pub utf8_len : ℕ → ℕ
utf8_len c = if ltb c 0x80 then 1 else if ltb c 0x800 then 2 else if ltb c 0x10000 then 3 else 4

unfoldable pub byte_len : Text → ℕ
byte_len [] = 0
byte_len (c ∷ s) = utf8_len c + byte_len s

-- `(&s[..n], &s[n..])`, which panics (`none`) past the end and inside a character.
unfoldable pub split_at_byte : ℕ → Text → Option (Text × Text)
split_at_byte n [] = if n == 0 then some ([], []) else none
split_at_byte n (c ∷ s) =
    let rest = split_at_byte (n - utf8_len c) s in
    if n == 0
    then some ([], c ∷ s)
    else if ltb n (utf8_len c)
    then none
    else elim rest [ none ↦ none | some (before, after) ↦ some (c ∷ before, after) ]

-- `trim_matches(p)`: what matches is taken off at both ends.
unfoldable pub trim_matches : (ℕ → Bool) → Text → Text
trim_matches p s = reverse (drop_while p (reverse (drop_while p s)))

unfoldable pub trim : Text → Text
trim s = trim_matches is_whitespace s

unfoldable pub trim_end : Text → Text
trim_end s = reverse (drop_while is_whitespace (reverse s))

unfoldable pub strip_prefix : Text → Text → Option Text
strip_prefix [] s = some s
strip_prefix (c ∷ prefix) [] = none
strip_prefix (c ∷ prefix) (d ∷ s) = if c == d then strip_prefix prefix s else none

unfoldable pub starts_with : Text → Text → Bool
starts_with prefix s = elim (strip_prefix prefix s) [ none ↦ false | some t ↦ true ]

unfoldable pub to_ascii_lowercase : ℕ → ℕ
to_ascii_lowercase c = if leb b'A' c && leb c b'Z' then c + 32 else c

unfoldable pub eq_ignore_ascii_case : Text → Text → Bool
eq_ignore_ascii_case s t = text_eq (map to_ascii_lowercase s) (map to_ascii_lowercase t)
