-- ===== src/InfraData/Tests.antt =====
-- Tests of the project's data: an answer for the project before arrives after a switch.
use davy_jones.Prelude.{◌≡◌, refl, true, none, some, List, [], ◌∷◌}
use davy_jones.Types.{Vpn, Host, no_certificate}
use davy_jones.Auth.{returned, thrown}
use davy_jones.InfraData.{
  empty_infra, Reply, update_vpn, request, Happening, switched, arrived, happen_all,
}
use davy_jones.InfraData.Loads.{shown, last_brought, is_fresh, shown-happen_all}

abbrev web : Host
web = record {
  id = "h1";
  name = "web";
  ip = "10.0.0.2";
  credential_id = "c1";
  vpn_id = none;
  port = none;
  project_id = some "a";
}

abbrev of_project_a : Reply
of_project_a = record {
  joined = returned (record {
    vpns = [];
    hosts = web ∷ [];
    services = [];
    credentials = [];
    saved_commands = [];
  });
  ipsec = thrown "no such route";
}

-- The data of project "a" is on screen in the project that was switched to.
late_answer :
    ((happen_all (switched ∷ arrived of_project_a ∷ []) empty_infra).hosts ≡ web ∷ [])
    × ((happen_all (switched ∷ arrived of_project_a ∷ []) empty_infra).loaded_once ≡ true)
unfolding happen_all
late_answer = (refl, refl)

abbrev shared : Vpn
shared = record {
  id = "v";
  name = "v";
  image = "img";
  container_name = "v";
  command = "";
  remote_gateway = "gw";
  port = 10443;
  client_certificate = no_certificate;
  credential_id = none;
  project_id = some "owner";
  shared_project_ids = none;
  idle_timeout_minutes = none;
}

-- A VPN that is shared into the active project stays its owner's.
still_owned : request {U = Unit} "active" (update_vpn "v" shared) ≡ update_vpn "v" shared
unfolding request
still_owned = refl

abbrev two_loads : List Happening
two_loads = arrived of_project_a ∷ arrived (record of_project_a { joined = thrown "timeout" }) ∷ []

shown-happen_all_example :
    (shown (happen_all two_loads empty_infra) ≡ last_brought two_loads (shown empty_infra))
    × ((happen_all two_loads empty_infra).loaded_once ≡ is_fresh two_loads empty_infra.loaded_once)
shown-happen_all_example = shown-happen_all two_loads empty_infra
