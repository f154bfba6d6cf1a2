-- ===== src/Examples/Connections.antt =====
-- Two threads on a budget of 8, and the choices of a job.
use debian_download_manager.Prelude.{ℕ, refl, max, List, [], ◌∷◌, some}
use debian_download_manager.Prelude.Text.{Text, codes}
use debian_download_manager.HostPolicy.Key.{UrlCrate}
use debian_download_manager.HostPolicy.State.{HostPolicy, new}
use debian_download_manager.Examples.Hosts.{whole}
use debian_download_manager.Scheduler.Budget.{GlobalConnectionBudget, take_of, reserve, release}
use debian_download_manager.Scheduler.Budget
use debian_download_manager.Scheduler.Budget.Threads.{
  Thread, outside, reserving, holding, System, load_reserve, reserved, Reach, here, next, IsSound,
  Reach-IsSound,
}
use debian_download_manager.Scheduler.Choose.{DdmConfig}

abbrev two_threads : List Thread
two_threads = outside ∷ outside ∷ []

abbrev start : System
start = record { budget = Budget.new 8; threads = two_threads }

-- The first thread asks for 6 and gets them; the second has begun to ask for 5.
abbrev first_has : System
first_has = record {
  budget = record { max_total = 8; in_use = 6 };
  threads = holding 6 ∷ reserving 5 6 ∷ [];
}

first_holds : Reach start first_has
unfolding Budget.new take_of
first_holds =
    next (next (next here (load_reserve 0 6 refl)) (reserved 0 6 0 refl refl))
      (load_reserve 1 5 refl)

Reach-IsSound_example : IsSound (max 8 1) first_has
Reach-IsSound_example = Reach-IsSound 8 two_threads refl first_holds

abbrev pub crate : UrlCrate
crate = record {
  Url = Text;
  parse = λ s. some s;
  scheme = λ u. codes "https";
  host_str = λ u. some (codes "a");
  port_or_known_default = λ u. some 443;
  path = λ u. codes "/x";
}

abbrev pub cfg : DdmConfig
cfg = record {
  max_total_connections = 64;
  max_connections_per_host = 16;
  min_segments = 4;
  max_segments = 16;
}

abbrev pub fresh_policy : HostPolicy whole
fresh_policy = new 4 16

abbrev small : ℕ
small = 3

abbrev full : GlobalConnectionBudget
full = record { max_total = 8; in_use = 8 }
