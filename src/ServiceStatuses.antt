-- ===== src/ServiceStatuses.antt =====
-- src/hooks/useServiceStatus.ts: the poll of the Docker services, host by host.
pub mod Answers
pub mod Groups
pub mod Tests
use Prim.Native.String.{[], ◌∷◌}
use mathlib.Core.List.{List}
use davy_jones.Prelude.{
  ℕ, ◌+◌, String, Bool, true, false, not, ◌&&◌, ◌||◌, Option, none, some, ◌==◌, nat_eq,
  if◌then◌else◌, any,
}
use davy_jones.Prelude.Dict.{Dict, get, set, push}
use davy_jones.Prelude.Text.{includes}
use davy_jones.Types.{Service, ServiceStatus, PingStatus}
use davy_jones.Auth.{Answer, returned, thrown}
use davy_jones.Layout.Build.{is_online}

-- the three tests that `continue`
unfoldable pub is_polled : Dict PingStatus → List String → Service → Bool
unfolding is_online
is_polled ping dead s =
    s.kind == "Docker" && is_online ping s.host_id && not (any (λ id. id == s.host_id) dead)

-- the loop that fills `byHost`
unfoldable pub grouped_from :
    Dict PingStatus → List String → Dict (List Service) → List Service → Dict (List Service)
unfolding is_polled push
grouped_from ping dead m List.[] = m
grouped_from ping dead m (List.◌∷◌ s ss) =
    let skip = grouped_from ping dead m ss in
    let filed = grouped_from ping dead (push m s.host_id s) ss in
    if is_polled ping dead s then filed else skip

-- `byHost` in one round of `checkAll`
unfoldable pub by_host : Dict PingStatus → List String → List Service → Dict (List Service)
unfolding grouped_from
by_host ping dead services = grouped_from ping dead List.[] services

unfoldable pub by_name_from : Dict ServiceStatus → List ServiceStatus → Dict ServiceStatus
unfolding set
by_name_from m List.[] = m
by_name_from m (List.◌∷◌ r rs) = by_name_from (set m r.name r) rs

-- `new Map(results.map((r) => [r.name, r]))`
unfoldable pub by_name : List ServiceStatus → Dict ServiceStatus
unfolding by_name_from
by_name results = by_name_from List.[] results

-- `if (found) next[id] = found`
unfoldable pub set_found : Option ServiceStatus → String → Dict ServiceStatus → Dict ServiceStatus
unfolding set
set_found none id next = next
set_found (some found) id next = set next id found

-- the loop over `hostServices`, on the copy of the readings
unfoldable pub with_results :
    Dict ServiceStatus → List Service → Dict ServiceStatus → Dict ServiceStatus
unfolding get set_found
with_results found List.[] next = next
with_results found (List.◌∷◌ s ss) next =
    with_results found ss (set_found (get found s.name) s.id next)

-- The readings and `deadHosts`. `epoch` counts the runs of the effect; a run is cancelled when a new
-- one starts.
pub record Polling : Type 0 where
  pub statuses : Dict ServiceStatus
  pub dead : List String
  pub epoch : ℕ

-- the start of the effect
unfoldable pub restart : Polling → Polling
restart s = record s { dead = List.[]; epoch = s.epoch + 1 }

-- The `try` and the `catch` of the request for `host_id` in run `epoch`. The set of dead hosts is the
-- current run's, also for an answer that comes late.
unfoldable pub settle : ℕ → String → List Service → Answer (List ServiceStatus) → Polling → Polling
unfolding with_results by_name includes
settle epoch host_id host_services (returned results) s =
    if nat_eq epoch s.epoch
    then record s { statuses = with_results (by_name results) host_services s.statuses }
    else s
settle epoch host_id host_services (thrown e) s =
    if includes "host not found" e then record s { dead = List.◌∷◌ host_id s.dead } else s
