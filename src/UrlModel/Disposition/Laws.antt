-- ===== src/UrlModel/Disposition/Laws.antt =====
-- The name that is read from the header.
use debian_download_manager.Prelude.{
  ℕ, ◌+◌, ◌*◌, ◌/◌, ◌%◌, ◌<◌, ◌≡◌, ◌∙◌, refl, ap, List, [], ◌∷◌, ◌++◌, Option, none, some, ltb,
  if◌then◌else◌, arith, All,
}
use debian_download_manager.Prelude.Text.{Text}
use debian_download_manager.Prelude.Bits.{bit_or-halves}
use debian_download_manager.Prelude.Utf8.{IsScalar, as_bytes, from_utf8_lossy}
use debian_download_manager.Prelude.Utf8.Laws.{
  from_utf8_lossy-as_bytes, as_bytes-ascii, as_bytes-bytes,
}
use debian_download_manager.UrlModel.Disposition.{
  hex_digit, escape, decode_percents, percent_decode, star_value, token_value, name_value, or_else,
}

-- The percent encoding of RFC 5987, with every byte encoded.
abbrev pub hex : ℕ → ℕ
hex d = if ltb d 10 then 48 + d else 55 + d

pub percent_encode : List ℕ → Text
percent_encode [] = []
percent_encode (b ∷ bytes) = 0x25 ∷ hex (b / 16) ∷ hex (b % 16) ∷ percent_encode bytes

hex_digit-hex : (d : ℕ) → d < 16 → hex_digit (hex d) ≡ some d
unfolding hex_digit
hex_digit-hex d h = ground arith

percent_encode-ascii :
    (bytes : List ℕ) → All (λ b. b < 256) bytes → All (λ c. c < 0x80) (percent_encode bytes)
unfolding percent_encode
percent_encode-ascii [] h = tt
percent_encode-ascii (b ∷ bytes) h =
    (omega arith, (ground arith, (ground arith, percent_encode-ascii bytes h.1)))

decode_percents-escape :
    (x y : ℕ) (bytes : List ℕ)
    → decode_percents (0x25 ∷ x ∷ y ∷ bytes)
      ≡ escape (hex_digit x) (hex_digit y) ++ decode_percents bytes
unfolding decode_percents
decode_percents-escape x y bytes = refl

decode_percents-encode :
    (bytes : List ℕ) → All (λ b. b < 256) bytes → decode_percents (percent_encode bytes) ≡ bytes
unfolding percent_encode escape
decode_percents-encode [] h = unfold decode_percents in refl
decode_percents-encode (b ∷ bytes) h =
    let whole : 16 * (b / 16) + b % 16 ≡ b = omega arith in
    let small : b / 16 < 16 = omega (arith, h.0) in
    decode_percents-escape (hex (b / 16)) (hex (b % 16)) (percent_encode bytes)
    ∙ rw (hex_digit-hex (b / 16) small, hex_digit-hex (b % 16) (omega arith))
        (rw (bit_or-halves (b / 16) (b % 16) small (omega arith)) (
          ap (λ n. n ∷ decode_percents (percent_encode bytes)) whole
          ∙ ap (λ l. b ∷ l) (decode_percents-encode bytes h.1)))

-- Decoding the percent encoding of a text's bytes gives the text, whatever characters it has.
pub percent_decode-percent_encode :
    (s : Text) → All IsScalar s → percent_decode (percent_encode (as_bytes s)) ≡ s
unfolding percent_decode
percent_decode-percent_encode s h =
    let bytes = as_bytes-bytes s h in
    ap (λ t. from_utf8_lossy (decode_percents t))
      (as_bytes-ascii (percent_encode (as_bytes s)) (percent_encode-ascii (as_bytes s) bytes))
    ∙ ap from_utf8_lossy (decode_percents-encode (as_bytes s) bytes)
    ∙ from_utf8_lossy-as_bytes s h

-- The values of `filename*` and `filename` that the parameters have, in order.
abbrev star_at : Option (Text × Text) → Option Text
star_at none = none
star_at (some (name, v)) = star_value name v

abbrev token_at : Option (Text × Text) → Option Text
token_at none = none
token_at (some (name, v)) = token_value name v

pub star_of : Text → Option Text
star_of param = star_at (name_value param)

pub token_of : Text → Option Text
token_of param = token_at (name_value param)

pub first_of : (Text → Option Text) → List Text → Option Text
first_of f [] = none
first_of f (x ∷ xs) = or_else (f x) (first_of f xs)

pub last_of : (Text → Option Text) → List Text → Option Text
last_of f [] = none
last_of f (x ∷ xs) = or_else (last_of f xs) (f x)
