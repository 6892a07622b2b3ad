-- ===== src/Discovery/Tests.antt =====
-- Tests of the discovery of services.
use davy_jones.Prelude.{
  String, ◌≡◌, refl, false, none, List, [], ◌∷◌, All, length, nat_eq, if◌then◌else◌,
}
use davy_jones.Types.{Service}
use davy_jones.Auth.{returned, thrown}
use davy_jones.Discovery.{
  has, Found, State, opened, settle_scan, existing_on_host, Server, handle_add, create_all,
  after_answer, set_of, add_all, add, toggle,
}
use davy_jones.Discovery.Scans.{IsDistinct}
use davy_jones.Discovery.Adds.{
  names_of, IsForHost, added_from, scanned, toggle_all, handle_add-IsDistinct, handle_add-has,
}

abbrev web : Service
web = record { id = "s1"; name = "web"; kind = "Docker"; host_id = "h1"; project_id = none }

abbrev services : List Service
services = web ∷ record web { id = "s2"; name = "db"; host_id = "h2" } ∷ []

abbrev found : Found
found = record { names = "web" ∷ "db" ∷ "cache" ∷ "db" ∷ []; error = none }

abbrev on_h1 : State
on_h1 = record opened { host_id = "h1" }

-- a server on which the second request fails
abbrev fragile : Server
fragile made r = if nat_eq (length made) 1 then thrown "offline" else returned tt

abbrev steady : Server
steady made r = returned tt

fragile_run : names_of (added_from fragile services found on_h1).made ≡ "db" ∷ []
unfolding handle_add settle_scan existing_on_host create_all after_answer set_of add_all add
fragile_run = refl

steady_run : names_of (added_from steady services found on_h1).made ≡ "db" ∷ "cache" ∷ []
unfolding handle_add settle_scan existing_on_host create_all after_answer set_of add_all add
steady_run = refl

handle_add-IsDistinct_example :
    IsDistinct ("web" ∷ names_of (added_from fragile services found on_h1).made)
    × All (IsForHost fragile "Docker" "h1") (added_from fragile services found on_h1).made
handle_add-IsDistinct_example = handle_add-IsDistinct fragile services found on_h1 (refl, tt)

steady_finishes : (added_from steady services found on_h1).failure ≡ none
unfolding handle_add settle_scan existing_on_host create_all after_answer set_of add_all add
steady_finishes = refl

-- One name is unticked, and another is unticked and ticked again.
abbrev ticks : List String
ticks = "db" ∷ "cache" ∷ "cache" ∷ []

ticked_finishes :
    (handle_add steady (toggle_all ticks (scanned services found on_h1))).0.failure ≡ none
unfolding handle_add settle_scan existing_on_host create_all after_answer set_of add_all add toggle
ticked_finishes = refl

handle_add-has_example :
    has
      ("web"
        ∷ names_of (handle_add steady (toggle_all ticks (scanned services found on_h1))).0.made)
      "db"
    ≡ false
handle_add-has_example = handle_add-has steady services found on_h1 ticks "db" ticked_finishes
