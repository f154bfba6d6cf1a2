-- ===== src/Prelude/Bits.antt =====
-- Facts about the bits of a byte, each checked over all bytes.
use Prim.Native.Nat.{ℕ, zero, suc, ◌+◌, ◌-◌, ◌*◌, ◌%◌, ◌<◌, ◌^◌, bit_and, bit_or}
use mathlib.Core.Path.{◌≡◌, refl}
use mathlib.Core.Bool.{Bool, true, false, not, ◌||◌}
use native.Mathlib.Omega.{arith}
use debian_download_manager.Prelude.Tests.{if◌then◌else◌, ltb, ◌==◌, ltb→lt, ==→eq}

every_up_to : (ℕ → Bool) → ℕ → Bool
every_up_to test zero = true
every_up_to test (suc last) =
    let before = every_up_to test last in if test last then before else false

each : (test : ℕ → Bool) (count i : ℕ) → i < count → every_up_to test count ≡ true → test i ≡ true
unfolding every_up_to
each test zero i below all = absurd (omega arith)
each test (suc last) i below all = ground (arith, each test last i)

-- Bit `i` of a byte.
unfoldable pub test_bit : ℕ → ℕ → Bool
test_bit b i = not (bit_and b (2 ^ i) == 0)

same : Bool → Bool → Bool
same true b = b
same false b = not b

same_sound : (a b : Bool) → same a b ≡ true → a ≡ b
unfolding same
same_sound true b h = ground arith
same_sound false b h = ground arith

or_row : ℕ → ℕ → ℕ → Bool
unfolding same test_bit
or_row b i j = same (test_bit (bit_or b (2 ^ i)) j) ((i == j) || test_bit b j)

abbrev or_bits : ℕ → ℕ → Bool
or_bits b i = every_up_to (or_row b i) 8

or_table : every_up_to (λ b. every_up_to (or_bits b) 8) 256 ≡ true
unfolding every_up_to or_row
or_table = refl

-- Setting bit `i` of a byte sets that bit and no other.
pub test_bit-or :
    (b i j : ℕ)
    → b < 256
    → i < 8
    → j < 8
    → test_bit (bit_or b (2 ^ i)) j ≡ ((i == j) || test_bit b j)
unfolding or_row
test_bit-or b i j hb hi hj = same_sound _ _ (
    each (or_row b i) 8 j hj
      (each (or_bits b) 8 i hi (each (λ b. every_up_to (or_bits b) 8) 256 b hb or_table)))

abbrev stays_byte : ℕ → ℕ → Bool
stays_byte b i = ltb (bit_or b (2 ^ i)) 256

or_small : every_up_to (λ b. every_up_to (stays_byte b) 8) 256 ≡ true
unfolding every_up_to
or_small = refl

pub bit_or-lt : (b i : ℕ) → b < 256 → i < 8 → bit_or b (2 ^ i) < 256
bit_or-lt b i hb hi =
    ltb→lt _ _
      (each (stays_byte b) 8 i hi (each (λ b. every_up_to (stays_byte b) 8) 256 b hb or_small))

-- The low `r` bits are all set exactly when the mask comes out whole.
mask_row : ℕ → ℕ → Bool
unfolding same
mask_row b r = same (bit_and b (2 ^ r - 1) == 2 ^ r - 1) (every_up_to (test_bit b) r)

mask_table : every_up_to (λ b. every_up_to (mask_row b) 9) 256 ≡ true
unfolding every_up_to mask_row test_bit
mask_table = refl

mask_lem :
    (b r : ℕ) → b < 256 → r < 9 → (bit_and b (2 ^ r - 1) == 2 ^ r - 1) ≡ every_up_to (test_bit b) r
unfolding mask_row
mask_lem b r hb hr =
    same_sound _ _
      (each (mask_row b) 9 r hr (each (λ b. every_up_to (mask_row b) 9) 256 b hb mask_table))

every_from_each : (n : ℕ) (p : ℕ → Bool) → ((x : ℕ) → x < n → p x ≡ true) → every_up_to p n ≡ true
unfolding every_up_to
every_from_each zero p h = refl
every_from_each (suc n) p h =
    ground (arith, h n (omega arith), every_from_each n p (λ x lt. h x (omega arith)))

pub mask_sound :
    (b r i : ℕ)
    → b < 256
    → r < 9
    → (bit_and b (2 ^ r - 1) == 2 ^ r - 1) ≡ true
    → i < r
    → test_bit b i ≡ true
mask_sound b r i hb hr h lt = each (test_bit b) r i lt (ground (arith, mask_lem b r hb hr))

pub mask_complete :
    (b r : ℕ)
    → b < 256
    → r < 9
    → ((i : ℕ) → i < r → test_bit b i ≡ true)
    → (bit_and b (2 ^ r - 1) == 2 ^ r - 1) ≡ true
mask_complete b r hb hr h =
    let whole = every_from_each r (test_bit b) h in ground (arith, mask_lem b r hb hr, whole)

pub test_bit-zero : (i : ℕ) → i < 8 → test_bit 0 i ≡ false
unfolding test_bit
test_bit-zero i h =
    ground (arith, each (λ i. bit_and 0 (2 ^ i) == 0) 8 i h (unfold every_up_to in refl))

-- The two halves of a byte.
half_row : ℕ → ℕ → Bool
half_row h l = bit_or (h * 16 % 256) l == 16 * h + l

half_table : every_up_to (λ h. every_up_to (half_row h) 16) 16 ≡ true
unfolding every_up_to half_row
half_table = refl

pub bit_or-halves : (h l : ℕ) → h < 16 → l < 16 → bit_or (h * 16 % 256) l ≡ 16 * h + l
unfolding half_row
bit_or-halves h l hh hl =
    ==→eq _ _
      (each (half_row h) 16 l hl (each (λ h. every_up_to (half_row h) 16) 16 h hh half_table))
