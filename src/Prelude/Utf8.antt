-- ===== src/Prelude/Utf8.antt =====
-- The bytes of a text, and `String::from_utf8_lossy`, which puts U+FFFD for each sequence of bytes
-- that is not UTF-8: for the longest start of a character, or else for one byte.
pub mod Laws
use debian_download_manager.Prelude.Tests.{
  ltb, leb, ◌==◌, if◌then◌else◌, Bool-cases, ltb→lt, lt→ltb,
}
use Prim.Native.Nat.{ℕ, zero, suc, ◌+◌, ◌-◌, ◌*◌, ◌/◌, ◌%◌, ◌≤◌, ◌<◌}
use mathlib.Core.Path.{◌≡◌, refl, ap, ◌∙◌}
use mathlib.Core.Logic.{◌⊎◌, inl, inr}
use mathlib.Core.Bool.{Bool, true, false, ◌&&◌}
use mathlib.Core.List.{List, [], ◌∷◌, ◌++◌}
use native.Mathlib.Omega.{arith}
use debian_download_manager.Prelude.Lists.{All}

-- What a `char` can be.
abbrev pub IsScalar : ℕ → Type 0
IsScalar c = (c < 0xd800) ⊎ ((0xe000 ≤ c) × (c < 0x110000))

unfoldable pub encode : ℕ → List ℕ
encode c =
    if ltb c 0x80
    then c ∷ []
    else if ltb c 0x800
    then (192 + c / 64) ∷ (128 + c % 64) ∷ []
    else if ltb c 0x10000
    then (224 + c / 4096) ∷ (128 + c / 64 % 64) ∷ (128 + c % 64) ∷ []
    else (240 + c / 262144) ∷ (128 + c / 4096 % 64) ∷ (128 + c / 64 % 64) ∷ (128 + c % 64) ∷ []

-- `as_bytes`.
unfoldable pub as_bytes : List ℕ → List ℕ
unfolding encode
as_bytes [] = []
as_bytes (c ∷ s) = encode c ++ as_bytes s

-- Between characters, or in one: `more` bytes after the next, which is in a range, and the bits so
-- far.
pub data Decoder : Type 0 where
  between : Decoder
  inside : ℕ → ℕ → ℕ → ℕ → Decoder

unfoldable pub second_low : ℕ → ℕ
second_low b = if b == 0xe0 then 0xa0 else if b == 0xf0 then 0x90 else 0x80

unfoldable pub second_high : ℕ → ℕ
second_high b = if b == 0xed then 0x9f else if b == 0xf4 then 0x8f else 0xbf

-- The first byte of a character.
unfoldable pub first_byte : ℕ → List ℕ × Decoder
unfolding second_low second_high
first_byte b =
    if ltb b 0x80
    then (b ∷ [], between)
    else if leb 0xc2 b && leb b 0xdf
    then ([], inside 0 0x80 0xbf (b - 192))
    else if leb 0xe0 b && leb b 0xef
    then ([], inside 1 (second_low b) (second_high b) (b - 224))
    else if leb 0xf0 b && leb b 0xf4
    then ([], inside 2 (second_low b) (second_high b) (b - 240))
    else (0xfffd ∷ [], between)

unfoldable pub next_byte : Decoder → ℕ → List ℕ × Decoder
unfolding first_byte
next_byte between b = first_byte b
next_byte (inside zero low high bits) b =
    if leb low b && leb b high
    then ((bits * 64 + (b - 128)) ∷ [], between)
    else (0xfffd ∷ (first_byte b).0, (first_byte b).1)
next_byte (inside (suc more) low high bits) b =
    if leb low b && leb b high
    then ([], inside more 0x80 0xbf (bits * 64 + (b - 128)))
    else (0xfffd ∷ (first_byte b).0, (first_byte b).1)

unfoldable pub decode_from : Decoder → List ℕ → List ℕ
unfolding next_byte
decode_from between [] = []
decode_from (inside more low high bits) [] = 0xfffd ∷ []
decode_from d (b ∷ bytes) = let (out, d') = next_byte d b in out ++ decode_from d' bytes

unfoldable pub from_utf8_lossy : List ℕ → List ℕ
unfolding decode_from
from_utf8_lossy bytes = decode_from between bytes
