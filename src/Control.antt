-- ===== src/Control.antt =====
-- crates/ddm-core/src/control.rs: the registry of the running jobs and their abort tokens. A token
-- is shared by the registry and the download of its job, so that the tokens stand in a store, and
-- the registry holds their places. Each call holds the lock, and is one step.
pub mod Laws
use debian_download_manager.Prelude.{
  ℕ, ◌+◌, ◌<◌, ◌≤◌, ◌≡◌, ◌≢◌, refl, sym, ap, ◌∙◌, inl, inr, Bool, true, false, List, [], ◌∷◌, ◌++◌,
  Option, none, some, ◌==◌, ==→eq, ==-self, arith, length, length-append, get_elem?, set,
  length-set, get_elem?-set_self, get_elem?-set_ne, Bool-cases,
}
use debian_download_manager.Prelude.Map.{
  Map, Eq, lookup, insert, remove, lookup-insert, lookup-remove,
}

instance abbrev pub id_eq : Eq ℕ
id_eq = record { beq = ◌==◌; beq_iff = λ a b. (==→eq a b, λ e. rw (e, ==-self) refl) }

pub record JobControl : Type 0 where
  pub jobs : Map ℕ ℕ
  pub tokens : List Bool

abbrev pub new : JobControl
new = record { jobs = []; tokens = [] }

unfoldable pub register : ℕ → JobControl → JobControl × ℕ
register id s = (
  record { jobs = insert id (length s.tokens) s.jobs; tokens = s.tokens ++ false ∷ [] },
  length s.tokens,
)

unfoldable pub unregister : ℕ → JobControl → JobControl
unregister id s = record s { jobs = remove id s.jobs }

unfoldable pub request_abort : ℕ → JobControl → JobControl
request_abort id s = elim (lookup id s.jobs) [
  | none ↦ s
  | some token ↦ record s { tokens = set s.tokens token true }
]
