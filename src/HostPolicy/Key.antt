-- ===== src/HostPolicy/Key.antt =====
-- crates/ddm-core/src/host_policy/key.rs: the key (scheme, host, port) of a host.
-- `url::Url` is the url crate's: `UrlCrate` holds the functions of it that the program calls.
pub mod Laws
use debian_download_manager.Prelude.{
  ℕ, ◌^◌, ◌-◌, ◌≡◌, ◌↔◌, Bool, true, ◌&&◌, List, [], ◌∷◌, ◌++◌, Option, none, some, arith, ◌==◌,
}
use debian_download_manager.Prelude.Result.{Result, ok, err, ok_or, ◌>>=◌}
use debian_download_manager.Prelude.Text.{Text, text_eq, text_eq_iff, splitn}
use debian_download_manager.Prelude.Decimal.{show_ℕ, parse_ℕ}
use debian_download_manager.Prelude.Map.{Eq}

pub record HostKey : Type 0 where
  pub scheme : Text
  pub host : Text
  pub port : ℕ

abbrev pub u16_max : ℕ
u16_max = 2 ^ 16 - 1

-- "scheme:host:port"
unfoldable pub to_string_key : HostKey → Text
to_string_key k = k.scheme ++ (b':' ∷ (k.host ++ (b':' ∷ show_ℕ k.port)))

from_parts : List Text → Option HostKey
from_parts (scheme ∷ host ∷ port ∷ []) = elim (parse_ℕ u16_max port) [
  | none ↦ none
  | some n ↦ some (record { scheme = scheme; host = host; port = n })
]
from_parts parts = none

unfoldable pub from_string_key : Text → Option HostKey
unfolding from_parts
from_string_key s = from_parts (splitn 3 b':' s)

pub record UrlCrate : Type 1 where
  pub Url : Type 0
  pub parse : Text → Option Url
  pub scheme : Url → Text
  pub host_str : Url → Option Text
  pub port_or_known_default : Url → Option ℕ
  pub path : Url → Text

pub data UrlError : Type 0 where
  invalid_url missing_host missing_port : UrlError

unfoldable pub from_url : UrlCrate → Text → Result UrlError HostKey
from_url crate url = do
  parsed ← ok_or (crate.parse url) invalid_url
  host ← ok_or (crate.host_str parsed) missing_host
  port ← ok_or (crate.port_or_known_default parsed) missing_port
  ok (record { scheme = crate.scheme parsed; host = host; port = port })

-- The derived `Eq` of the struct.
unfoldable pub key_eq : HostKey → HostKey → Bool
key_eq a b = text_eq a.scheme b.scheme && (text_eq a.host b.host && (a.port == b.port))

pub key_eq_iff : (a b : HostKey) → (key_eq a b ≡ true) ↔ (a ≡ b)
unfolding key_eq
key_eq_iff a b = (
  λ e. ground (arith, text_eq_iff a.scheme b.scheme, text_eq_iff a.host b.host),
  λ e. ground (arith, text_eq_iff a.scheme b.scheme, text_eq_iff a.host b.host),
)

instance abbrev pub host_key_eq : Eq HostKey
host_key_eq = record { beq = key_eq; beq_iff = key_eq_iff }
