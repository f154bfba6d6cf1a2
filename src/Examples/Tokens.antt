-- ===== src/Examples/Tokens.antt =====
-- Two registered jobs, of which one is to abort.
use debian_download_manager.Prelude.{
  ℕ, ◌≡◌, true, false, List, [], ◌∷◌, some, ◌==◌, if◌then◌else◌, get_elem?, refl,
}
use debian_download_manager.Prelude.Map.{lookup, insert, remove}
use debian_download_manager.Control.{id_eq, new, register, unregister, request_abort}
use debian_download_manager.Control.Laws.{
  Call, registers, unregisters, call_all, request_abort-only,
}

abbrev calls : List Call
calls = registers 4 ∷ registers 7 ∷ unregisters 4 ∷ registers 4 ∷ []

request_abort-only_example :
    ((request_abort 4 (call_all calls new)).jobs ≡ (call_all calls new).jobs)
    × ((j t : ℕ)
        → lookup j (call_all calls new).jobs ≡ some t
        → get_elem? (request_abort 4 (call_all calls new)).tokens t
          ≡ (if 4 == j then some true else get_elem? (call_all calls new).tokens t))
request_abort-only_example = request_abort-only calls 4

aborted : (request_abort 4 (call_all calls new)).tokens ≡ false ∷ false ∷ true ∷ []
unfolding request_abort lookup insert remove register unregister
aborted = refl
