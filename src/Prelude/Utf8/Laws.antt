-- ===== src/Prelude/Utf8/Laws.antt =====
-- A text is what its bytes decode to.
use debian_download_manager.Prelude.Tests.{ltb, Bool-cases, ltb→lt, lt→ltb}
use Prim.Native.Nat.{ℕ, zero, suc, ◌+◌, ◌*◌, ◌/◌, ◌%◌, ◌≤◌, ◌<◌}
use mathlib.Core.Path.{◌≡◌, refl, ap, ◌∙◌}
use mathlib.Core.Logic.{inl, inr}
use mathlib.Core.Bool.{true}
use mathlib.Core.List.{List, [], ◌∷◌, ◌++◌}
use native.Mathlib.Omega.{arith}
use debian_download_manager.Prelude.Lists.{All, All-append}
use debian_download_manager.Prelude.Utf8.{
  IsScalar, encode, as_bytes, Decoder, between, inside, second_low, second_high, first_byte,
  next_byte, decode_from, from_utf8_lossy,
}

first_of_two : (q : ℕ) → 2 ≤ q → q < 32 → first_byte (192 + q) ≡ ([], inside 0 0x80 0xbf q)
unfolding first_byte
first_of_two q h h' = ground arith

first_of_three :
    (q : ℕ)
    → q < 16
    → first_byte (224 + q) ≡ ([], inside 1 (second_low (224 + q)) (second_high (224 + q)) q)
unfolding first_byte
first_of_three q h = ground arith

first_of_four :
    (q : ℕ)
    → q < 5
    → first_byte (240 + q) ≡ ([], inside 2 (second_low (240 + q)) (second_high (240 + q)) q)
unfolding first_byte
first_of_four q h = ground arith

middle :
    (more low high bits x : ℕ)
    → low ≤ 128 + x
    → 128 + x ≤ high
    → next_byte (inside (suc more) low high bits) (128 + x)
      ≡ ([], inside more 0x80 0xbf (bits * 64 + x))
unfolding next_byte
middle more low high bits x h h' = ground arith

last :
    (low high bits x : ℕ)
    → low ≤ 128 + x
    → 128 + x ≤ high
    → next_byte (inside zero low high bits) (128 + x) ≡ ((bits * 64 + x) ∷ [], between)
unfolding next_byte
last low high bits x h h' = ground arith

step :
    (d d' : Decoder) (b : ℕ) (out bytes : List ℕ)
    → next_byte d b ≡ (out, d')
    → decode_from d (b ∷ bytes) ≡ out ++ decode_from d' bytes
unfolding decode_from
step between d' b out bytes e = ap (λ r. r.0 ++ decode_from r.1 bytes) e
step (inside more low high bits) d' b out bytes e = ap (λ r. r.0 ++ decode_from r.1 bytes) e

-- The second byte is in the range that the first one allows.
second_of_three :
    (c : ℕ)
    → IsScalar c
    → 0x800 ≤ c
    → c < 0x10000
    → (second_low (224 + c / 4096) ≤ 128 + c / 64 % 64)
      × (128 + c / 64 % 64 ≤ second_high (224 + c / 4096))
unfolding second_low second_high
second_of_three c h lo hi = (ground arith, ground arith)

second_of_four :
    (c : ℕ)
    → IsScalar c
    → 0x10000 ≤ c
    → (c / 262144 < 5)
      × (second_low (240 + c / 262144) ≤ 128 + c / 4096 % 64)
      × (128 + c / 4096 % 64 ≤ second_high (240 + c / 262144))
unfolding second_low second_high
second_of_four c h lo = (ground arith, ground arith, ground arith)

decode_two :
    (c : ℕ) (rest : List ℕ)
    → 0x80 ≤ c
    → c < 0x800
    → decode_from between ((192 + c / 64) ∷ (128 + c % 64) ∷ rest) ≡ c ∷ decode_from between rest
unfolding next_byte
decode_two c rest lo hi =
    let whole : c / 64 * 64 + c % 64 ≡ c = omega arith in
    step between (inside 0 0x80 0xbf (c / 64)) (192 + c / 64) [] ((128 + c % 64) ∷ rest)
      (first_of_two (c / 64) (omega arith) (omega arith))
    ∙ step (inside 0 0x80 0xbf (c / 64)) between (128 + c % 64) ((c / 64 * 64 + c % 64) ∷ []) rest
        (last 0x80 0xbf (c / 64) (c % 64) (omega arith) (omega arith))
    ∙ ap (λ x. x ∷ decode_from between rest) whole

decode_three :
    (c : ℕ) (rest : List ℕ)
    → IsScalar c
    → 0x800 ≤ c
    → c < 0x10000
    → decode_from between ((224 + c / 4096) ∷ (128 + c / 64 % 64) ∷ (128 + c % 64) ∷ rest)
      ≡ c ∷ decode_from between rest
unfolding next_byte
decode_three c rest h lo hi =
    let q = c / 4096 in
    let x = c / 64 % 64 in
    let whole : (q * 64 + x) * 64 + c % 64 ≡ c = omega arith in
    let low = second_low (224 + q) in
    let high = second_high (224 + q) in
    let (at_least, at_most) = second_of_three c h lo hi in
    step between (inside 1 low high q) (224 + q) [] ((128 + x) ∷ (128 + c % 64) ∷ rest)
      (first_of_three q (omega arith))
    ∙ step (inside 1 low high q) (inside 0 0x80 0xbf (q * 64 + x)) (128 + x) []
        ((128 + c % 64) ∷ rest) (middle 0 low high q x at_least at_most)
    ∙ step (inside 0 0x80 0xbf (q * 64 + x)) between (128 + c % 64)
        (((q * 64 + x) * 64 + c % 64) ∷ []) rest
        (last 0x80 0xbf (q * 64 + x) (c % 64) (omega arith) (omega arith))
    ∙ ap (λ y. y ∷ decode_from between rest) whole

decode_four :
    (c : ℕ) (rest : List ℕ)
    → IsScalar c
    → 0x10000 ≤ c
    → decode_from between
        ((240 + c / 262144) ∷ (128 + c / 4096 % 64) ∷ (128 + c / 64 % 64) ∷ (128 + c % 64) ∷ rest)
      ≡ c ∷ decode_from between rest
unfolding next_byte
decode_four c rest h lo =
    let q = c / 262144 in
    let x = c / 4096 % 64 in
    let y = c / 64 % 64 in
    let z = c % 64 in
    let whole : ((q * 64 + x) * 64 + y) * 64 + z ≡ c = omega arith in
    let low = second_low (240 + q) in
    let high = second_high (240 + q) in
    let (small, at_least, at_most) = second_of_four c h lo in
    step between (inside 2 low high q) (240 + q) [] ((128 + x) ∷ (128 + y) ∷ (128 + z) ∷ rest)
      (first_of_four q small)
    ∙ step (inside 2 low high q) (inside 1 0x80 0xbf (q * 64 + x)) (128 + x) []
        ((128 + y) ∷ (128 + z) ∷ rest) (middle 1 low high q x at_least at_most)
    ∙ step (inside 1 0x80 0xbf (q * 64 + x)) (inside 0 0x80 0xbf ((q * 64 + x) * 64 + y)) (128 + y)
        [] ((128 + z) ∷ rest) (middle 0 0x80 0xbf (q * 64 + x) y (omega arith) (omega arith))
    ∙ step (inside 0 0x80 0xbf ((q * 64 + x) * 64 + y)) between (128 + z)
        ((((q * 64 + x) * 64 + y) * 64 + z) ∷ []) rest
        (last 0x80 0xbf ((q * 64 + x) * 64 + y) z (omega arith) (omega arith))
    ∙ ap (λ w. w ∷ decode_from between rest) whole

decode_char :
    (c : ℕ) (rest : List ℕ)
    → IsScalar c
    → decode_from between (encode c ++ rest) ≡ c ∷ decode_from between rest
unfolding encode next_byte
decode_char c rest h = elim (Bool-cases (ltb c 0x80)) [
  | inl one ↦
      let ascii : first_byte c ≡ (c ∷ [], between) = unfold first_byte in ground arith in
      rw (one, encode) (step between between c (c ∷ []) rest ascii)
  | inr more ↦ elim (Bool-cases (ltb c 0x800)) [
    | inl two ↦ rw (more, two, encode) (decode_two c rest (ground arith) (ltb→lt _ _ two))
    | inr more' ↦ elim (Bool-cases (ltb c 0x10000)) [
      | inl three ↦
          rw (more, more', three, encode) (decode_three c rest h (ground arith) (ltb→lt _ _ three))
      | inr four ↦ rw (more, more', four, encode) (decode_four c rest h (ground arith))
    ]
  ]
]

-- Decoding the bytes of a text gives the text.
pub from_utf8_lossy-as_bytes : (s : List ℕ) → All IsScalar s → from_utf8_lossy (as_bytes s) ≡ s
unfolding from_utf8_lossy as_bytes decode_from
from_utf8_lossy-as_bytes [] h = refl
from_utf8_lossy-as_bytes (c ∷ s) h =
    decode_char c (as_bytes s) h.0 ∙ ap (λ t. c ∷ t) (from_utf8_lossy-as_bytes s h.1)

pub as_bytes-ascii : (s : List ℕ) → All (λ c. c < 0x80) s → as_bytes s ≡ s
unfolding as_bytes encode
as_bytes-ascii [] h = refl
as_bytes-ascii (c ∷ s) h =
    let ascii : ltb c 0x80 ≡ true = lt→ltb _ _ h.0 in
    rw (ascii, encode) (ap (λ t. c ∷ t) (as_bytes-ascii s h.1))

encode-bytes : (c : ℕ) → IsScalar c → All (λ b. b < 256) (encode c)
unfolding encode
encode-bytes c h = elim (Bool-cases (ltb c 0x80)) [
  | inl one ↦ rw (one, encode) (omega (arith, ltb→lt _ _ one))
  | inr more ↦ elim (Bool-cases (ltb c 0x800)) [
    | inl two ↦ rw (more, two, encode) (omega (arith, ltb→lt _ _ two))
    | inr more' ↦ elim (Bool-cases (ltb c 0x10000)) [
      | inl three ↦ rw (more, more', three, encode) (omega (arith, ltb→lt _ _ three))
      | inr four ↦ rw (more, more', four, encode) (omega arith)
    ]
  ]
]

pub as_bytes-bytes : (s : List ℕ) → All IsScalar s → All (λ b. b < 256) (as_bytes s)
unfolding as_bytes
as_bytes-bytes [] h = tt
as_bytes-bytes (c ∷ s) h =
    All-append (λ b. b < 256) (encode c) (as_bytes s) (encode-bytes c h.0) (as_bytes-bytes s h.1)
