-- ===== src/HostPolicy/Key/Laws.antt =====
-- The text form of a host key, written and read back.
use mathlib.Core.List.{append_assoc}
use debian_download_manager.Prelude.{◌≤◌, ◌≡◌, refl, ap, ◌∙◌, [], ◌∷◌, ◌++◌, none, some, arith}
use debian_download_manager.Prelude.Text.{Text, Lacks, splitn, splitn-append}
use debian_download_manager.Prelude.Decimal.{
  show_ℕ, parse_ℕ, parse_ℕ-show_ℕ, parse_ℕ-foreign, is_digit,
}
use debian_download_manager.HostPolicy.Key.{
  HostKey, u16_max, to_string_key, from_string_key, from_parts,
}

-- The three parts that the reader finds.
parts-three :
    (a b c : Text)
    → Lacks b':' a
    → Lacks b':' b
    → splitn 3 b':' (a ++ b':' ∷ (b ++ b':' ∷ c)) ≡ a ∷ b ∷ c ∷ []
unfolding splitn
parts-three a b c h k =
    splitn-append 1 b':' a (b ++ b':' ∷ c) h ∙ ap (λ r. a ∷ r) (splitn-append 0 b':' b c k)

-- A key is read back from its text if its scheme and its host hold no colon and its port is a u16.
pub from_string_key-to_string_key :
    (k : HostKey)
    → Lacks b':' k.scheme
    → Lacks b':' k.host
    → k.port ≤ u16_max
    → from_string_key (to_string_key k) ≡ some k
unfolding from_string_key to_string_key
from_string_key-to_string_key k s h p =
    ap from_parts (parts-three k.scheme k.host (show_ℕ k.port) s h)
    ∙ rw (parse_ℕ-show_ℕ u16_max k.port p, from_parts)

-- A key whose host holds a colon, as every IPv6 address does, is not read back: whatever stands
-- around the host's first colon, its text gives no key.
pub from_string_key-colon_host :
    (k : HostKey) (front back : Text)
    → Lacks b':' k.scheme
    → Lacks b':' front
    → k.host ≡ front ++ b':' ∷ back
    → from_string_key (to_string_key k) ≡ none
unfolding from_string_key to_string_key
from_string_key-colon_host k front back s h e =
    ap (λ t. from_parts (splitn 3 b':' (k.scheme ++ b':' ∷ t)))
      (ap (λ t. t ++ b':' ∷ show_ℕ k.port) e
        ∙ append_assoc front (b':' ∷ back) (b':' ∷ show_ℕ k.port))
    ∙ ap from_parts (parts-three k.scheme front (back ++ b':' ∷ show_ℕ k.port) s h)
    ∙ rw (no_port, from_parts)
  where
    no_port : parse_ℕ u16_max (back ++ b':' ∷ show_ℕ k.port) ≡ none
    no_port =
        parse_ℕ-foreign u16_max back b':' (show_ℕ k.port) (unfold is_digit in refl)
          (λ e. absurd (omega (arith, e)))
