-- ===== src/ServiceStatuses/Tests.antt =====
-- Tests of the poll: two hosts with a service of the same name.
use davy_jones.Prelude.{String, ◌≡◌, ◌≢◌, refl, true, none, some, List, [], ◌∷◌, ◌⊎◌}
use davy_jones.Prelude.Dict.{Dict, get}
use davy_jones.Types.{Service, ServiceStatus, PingStatus, online, offline}
use davy_jones.Auth.{returned, thrown}
use davy_jones.ServiceStatuses.{Polling, settle}
use davy_jones.ServiceStatuses.Answers.{IsAnswer, settle-IsUpdate}

abbrev web_on : String → String → Service
web_on id host = record {
  id = id;
  name = "web";
  kind = "Docker";
  host_id = host;
  project_id = none;
}

abbrev services : List Service
services = web_on "s1" "h1" ∷ web_on "s2" "h2" ∷ []

abbrev ping : Dict PingStatus
ping = ("h1", online) ∷ ("h2", offline) ∷ []

abbrev up : ServiceStatus
up = record {
  name = "web";
  running = true;
  state = "Running";
  nodes = none;
  on_this_host = true;
  found = true;
}

abbrev idle : Polling
idle = record { statuses = []; dead = []; epoch = 3 }

one_reading :
    (settle 3 "h1" (web_on "s1" "h1" ∷ []) (returned (up ∷ [])) idle).statuses ≡ ("s1", up) ∷ []
unfolding settle
one_reading = refl

gone : (settle 3 "h1" [] (thrown "Error: host not found") idle).dead ≡ "h1" ∷ []
unfolding settle
gone = refl

settle-IsUpdate_example :
    ((get (settle 3 "h1" (web_on "s1" "h1" ∷ []) (returned (up ∷ [])) idle).statuses "s2"
        ≡ get idle.statuses "s2")
      ⊎ ((r : ServiceStatus) × IsAnswer (up ∷ []) (web_on "s1" "h1" ∷ []) "s2" r
          × (get (settle 3 "h1" (web_on "s1" "h1" ∷ []) (returned (up ∷ [])) idle).statuses "s2"
              ≡ some r)))
    × (3 ≢ idle.epoch → settle 3 "h1" (web_on "s1" "h1" ∷ []) (returned (up ∷ [])) idle ≡ idle)
settle-IsUpdate_example = settle-IsUpdate 3 "h1" (web_on "s1" "h1" ∷ []) (up ∷ []) idle "s2"
